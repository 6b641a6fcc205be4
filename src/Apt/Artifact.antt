-- ===== src/Apt/Artifact.antt =====
-- debbuilder/apt_state_model.py: the artifact's own stanza in the status that is written.
use deb_builder.Base.{
  Keeps, returns, bind_rule, refuse_rule, keeps_value, ◌≡◌, refl, subst, subst₂, arith, true, false,
  not, Text, ◌=t◌, ◌++◌, List, [], ◌∷◌, some, ok,
}
use deb_builder.Base.Dict.{lookup, insert, lookup-insert_ne}
use deb_builder.Platform.{Platform}
use deb_builder.Apt.{
  parse_stanzas, package_stanzas, artifact_stanza, modeled_rows, Row, keep, is_for, is_dropped,
  value_of, is_incomplete, drop_fields, package_key, architecture_key, status_key, installed,
  add_package, add_packages,
}
use deb_builder.Apt.Keys.{distinct, insert-distinct, drop_fields-distinct, lookup-drop_fields}
use deb_builder.Apt.Parsed.{artifact_stanza-distinct}
use deb_builder.Apt.Built.{stanzas_of, added, replaced, added_for, added_status, same_value}

-- The stanzas of a package and architecture are a single one, which is installed.
abbrev pub IsSingle : Text → Text → List Row → Type 0
IsSingle name arch rows =
    (row : Row) × (stanzas_of name arch rows ≡ row ∷ []) × (lookup status_key row ≡ some installed)

kept_value :
    (key v : Text) (row : Row)
    → is_dropped key ≡ false
    → status_key =t key ≡ false
    → key =t status_key ≡ false
    → lookup key row ≡ some v
    → value_of key (insert status_key installed (drop_fields row)) ≡ v
kept_value key v row n m m' e = ground (
  arith,
  lookup-insert_ne status_key key installed (drop_fields row) m' m,
  lookup-drop_fields key row n,
  e,
)

add_package-IsSingle :
    (addition : Row) (rows : List Row) (n a : Text)
    → distinct addition ≡ true
    → lookup package_key addition ≡ some n
    → lookup architecture_key addition ≡ some a
    → Keeps (IsSingle n a) (add_package addition rows)
unfolding add_package ◌=t◌
add_package-IsSingle addition rows n a d named arched =
    let kept = insert status_key installed (drop_fields addition) in
    let d' =
      insert-distinct status_key installed (drop_fields addition)
        (drop_fields-distinct addition d) in
    refuse_rule (is_incomplete kept) _ _ λ complete. returns (
      subst₂
        (λ x y. IsSingle x y (
          keep
            (λ row. not (is_for (value_of package_key kept) (value_of architecture_key kept) row))
            rows
          ++ added kept ∷ []))
        (kept_value package_key n addition refl refl refl named)
        (kept_value architecture_key a addition refl refl refl arched)
        (
          added kept,
          replaced _ _ rows (added kept)
              (added_for kept d' (ground (arith, complete)) (ground (arith, complete))),
          added_status kept d',
        ))

last_added :
    (additions : List Row) (last : Row) (rows : List Row) (n a : Text)
    → distinct last ≡ true
    → lookup package_key last ≡ some n
    → lookup architecture_key last ≡ some a
    → Keeps (IsSingle n a) (add_packages (additions ++ last ∷ []) rows)
unfolding add_packages
last_added [] last rows n a d named arched = bind_rule (add_package last rows) λ made e.
    returns
      (keeps_value (add_package last rows) e (add_package-IsSingle last rows n a d named arched))
last_added (addition ∷ rest) last rows n a d named arched =
    bind_rule (add_package addition rows) λ made e. last_added rest last made n a d named arched

-- The artifact, if its control data gives a Package and an Architecture, has a single stanza in the
-- status that is written, and it is installed.
pub modeled_rows-IsSingle :
    (p : Platform) (base : List Text) (decisions : List (Text × Text × List Text))
    (artifact : List Text) (last : Row) (rows : List Row) (n a : Text)
    → artifact_stanza p artifact ≡ ok last
    → lookup package_key last ≡ some n
    → lookup architecture_key last ≡ some a
    → modeled_rows p base decisions artifact ≡ ok rows
    → IsSingle n a rows
unfolding modeled_rows
modeled_rows-IsSingle p base decisions artifact last rows n a read named arched written =
    keeps_value {P = IsSingle n a} (modeled_rows p base decisions artifact) written (
      bind_rule (parse_stanzas p base) λ found e.
        bind_rule (package_stanzas p decisions) λ additions e'.
          bind_rule (artifact_stanza p artifact) λ other e''.
            subst (λ x. Keeps (IsSingle n a) (add_packages (additions ++ x ∷ []) found))
              (same_value (artifact_stanza p artifact) last other read e'')
              (last_added additions last found n a
                (keeps_value (artifact_stanza p artifact) read
                  (artifact_stanza-distinct p artifact))
                named arched))
