-- ===== src/Pinned/Checked.antt =====
-- debbuilder/automation_identity.py: what has passed the checks of `verify_expected_upstream_identity` and
-- `verify_acquired_payload`.
use deb_builder.Base.{
  ℕ, true, Text, Option, some, truthy, =t_sound, Result, ok, err, >>=-eq-ok, ◌≡◌, arith,
}
use deb_builder.Base.Json.{Value}
use deb_builder.Platform.{Platform}
use deb_builder.Identity.Model.{Error, Identity}
use deb_builder.Identity.Read.{lower_text}
use deb_builder.Identity.Check.{is_complete, is_asset}
use deb_builder.Identity.Normalize.{normalize}
use deb_builder.Ledger.Document.{same_identity}
use deb_builder.Pinned.{as_changed, payload_matches, verify_expected, verify_acquired_payload}

as_changed-ok : {A : Type 0} (r : Result Error A) {a : A} → as_changed r ≡ ok a → r ≡ ok a
unfolding as_changed
as_changed-ok (ok a) h = h
as_changed-ok (err e) h = ground arith

-- What execution may go on with is complete and the identity that was admitted.
pub verify_expected_lem :
    (p : Platform) (expected actual : Value) {r : Option Identity}
    → verify_expected p (some expected) actual ≡ ok r
    → (wanted : Identity) × (i : Identity) × (normalize p expected ≡ ok wanted)
      × (normalize p actual ≡ ok i)
      × (r ≡ some i)
      × (is_complete wanted ≡ true)
      × (is_complete i ≡ true)
      × (same_identity wanted i ≡ true)
unfolding verify_expected as_changed
verify_expected_lem p expected actual h =
    let (i, ei, h1) = >>=-eq-ok (as_changed (normalize p actual)) _ h in
    let (w, ew, h2) = >>=-eq-ok (normalize p expected) _ h1 in
    (
      w,
      i,
      ew,
      as_changed-ok (normalize p actual) ei,
      ground arith,
      ground arith,
      ground arith,
      ground arith,
    )

-- The bytes of a release asset that pass have the size and the digest that detection saw, where it saw
-- them.
pub verify_acquired_lem :
    (p : Platform) (identity : Value) (size : ℕ) (sha : Text) (i : Identity)
    → normalize p identity ≡ ok i
    → is_asset i.source_type ≡ true
    → verify_acquired_payload p identity size sha ≡ ok tt
    → ((n : ℕ) → i.expected_size ≡ some n → size ≡ n)
      × (truthy i.content_sha256 ≡ true → lower_text p sha ≡ i.content_sha256)
unfolding verify_acquired_payload
verify_acquired_lem p identity size sha i read asset h =
    let matched : payload_matches p size sha i ≡ ok tt = ground (arith, read, asset) in
    (
      λ n expected. ground arith,
      λ known. =t_sound (lower_text p sha) i.content_sha256 (ground arith),
    )
