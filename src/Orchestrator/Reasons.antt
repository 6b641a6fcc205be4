-- ===== src/Orchestrator/Reasons.antt =====
-- debbuilder/automation_orchestrator.py: `_reason`, why a claim starts a Run.
use deb_builder.Base.{Bool, not, ◌&&◌, Text, List, [], ◌∷◌, codes, ◌=t◌, text_less, if◌then◌else◌}
use deb_builder.Identity.Model.{Identity, latest_release, release_asset, tracking_name, source_name}
use deb_builder.Ledger.Document.{Entry, Document, same_identity}

first_created : Entry → Text
first_created e = elim e.generations [ [] ↦ [] | g ∷ rest ↦ g.created_at ]

-- The attempts on the same Recipe before this one.
earlier : Entry → List (Text × Entry) → List Entry
unfolding first_created
earlier e [] = []
earlier e ((key, other) ∷ rest) =
    let others = earlier e rest in
    if not (key =t e.key)
      && other.recipe_id =t e.recipe_id
      && text_less (first_created other) (first_created e)
    then other ∷ others
    else others

-- max(candidates, key=…): the first of the latest
latest : Entry → List Entry → Entry
unfolding first_created
latest e [] = e
latest e (other ∷ rest) =
    latest (if text_less (first_created e) (first_created other) then other else e) rest

is_latest_release : Identity → Bool
is_latest_release i = tracking_name i.tracking =t tracking_name latest_release

plain_reason : Identity → Text
unfolding is_latest_release
plain_reason i = if is_latest_release i then codes "new_release" else codes "ref_advanced"

reason_after : Entry → Entry → Text
unfolding is_latest_release plain_reason
reason_after e previous =
    let i = e.upstream_identity in
    let prior = previous.upstream_identity in
    if same_identity prior i && not (previous.recipe_sha256 =t e.recipe_sha256)
    then codes "recipe_revision_changed"
    else if is_latest_release i
        && source_name i.source_type =t source_name release_asset
        && prior.release_id =t i.release_id
        && not (same_identity prior i)
    then codes "release_asset_changed"
    else plain_reason i

reason_among : Entry → List Entry → Text
unfolding reason_after latest plain_reason
reason_among e [] = plain_reason e.upstream_identity
reason_among e (other ∷ rest) = reason_after e (latest other rest)

-- `_reason`, on the ledger that was read
unfoldable pub reason : Entry → Document → Text
unfolding reason_among earlier
reason e d = reason_among e (earlier e d.attempts)
