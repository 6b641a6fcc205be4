-- ===== src/Apt/Built.antt =====
-- debbuilder/apt_state_model.py: what the decisions make of the stanzas of the status.
use deb_builder.Base.{
  Keeps, returns, bind_rule, refuse_rule, keeps_value, weaken_rule, ◌≡◌, refl, sym, ap, ◌∙◌, subst,
  subst₂, Bool, true, false, not, ◌&&◌, Text, ◌=t◌, =t_sound, =t_refl, truthy, ◌++◌, List, [], ◌∷◌,
  some, arith, Bool-cases, Option-cases, inl, inr, ◌⊎◌, Result, ok,
}
use deb_builder.Base.Dict.{lookup, insert, remove, lookup-remove_self, lookup-remove_ne}
use deb_builder.Platform.{Platform}
use deb_builder.Apt.{
  parse_stanzas, package_stanzas, artifact_stanza, modeled_rows, Row, Error, keep, holds, is_for,
  value_of, is_incomplete, drop_fields, update, package_key, architecture_key, status_key,
  installed, add_package, add_packages,
}
use deb_builder.Apt.Keys.{
  distinct, insert-distinct, remove-distinct, drop_fields-distinct, lookup-update,
}
use deb_builder.Apt.Parsed.{
  AllDistinct, appended_all, package_stanzas-distinct, artifact_stanza-distinct,
}

-- The stanzas of one package and architecture.
abbrev pub stanzas_of : Text → Text → List Row → List Row
stanzas_of name arch rows = keep (is_for name arch) rows

-- They are as they were, or they are one stanza that is installed.
abbrev pub Outcome : Text → Text → List Row → List Row → Type 0
Outcome name arch rows rows' =
    (stanzas_of name arch rows' ≡ stanzas_of name arch rows)
    ⊎ ((row : Row) × (stanzas_of name arch rows' ≡ row ∷ [])
        × (lookup status_key row ≡ some installed))

keep-append :
    (p : Row → Bool) (rows : List Row) (row : Row)
    → keep p (rows ++ row ∷ []) ≡ keep p rows ++ keep p (row ∷ [])
keep-append p [] row = refl
keep-append p (r ∷ rows) row = ground (arith, keep-append p rows row)

keep_nothing : (p : Row → Bool) (rows : List Row) → keep p (keep (λ r. not (p r)) rows) ≡ []
keep_nothing p [] = refl
keep_nothing p (r ∷ rows) = ground (arith, keep_nothing p rows)

keep_others :
    (p q : Row → Bool)
    → ((r : Row) → p r ≡ true → q r ≡ false)
    → (rows : List Row) → keep p (keep (λ r. not (q r)) rows) ≡ keep p rows
keep_others p q apart [] = refl
keep_others p q apart (r ∷ rows) = ground (arith, keep_others p q apart rows, apart r)

value_apart : (v s t : Text) → v =t s ≡ true → s =t t ≡ false → v =t t ≡ false
value_apart v s t h n = subst (λ x. x =t t ≡ false) (sym (=t_sound v s h)) n

holds_apart :
    (key s t : Text) (r : Row) → holds key s r ≡ true → s =t t ≡ false → holds key t r ≡ false
holds_apart key s t r h n = elim (Option-cases (lookup key r)) [
  | inl e ↦ ground (arith, e)
  | inr (v, e) ↦ ground (arith, e, value_apart v s t)
]

for_apart :
    (name arch n a : Text)
    → n =t name && a =t arch ≡ false
    → (r : Row) → is_for n a r ≡ true
    → is_for name arch r ≡ false
for_apart name arch n a differ r h =
    ground (arith, holds_apart package_key n name r, holds_apart architecture_key a arch r)

value_found :
    (key : Text) (row : Row)
    → truthy (value_of key row) ≡ true
    → lookup key row ≡ some (value_of key row)
value_found key row h = elim (Option-cases (lookup key row)) [
  | inl e ↦ absurd (ground (arith, e))
  | inr (v, e) ↦ ground (arith, e)
]

-- The stanza that a decision adds, from the fields that are kept.
abbrev pub added : Row → Row
added kept =
    update ((package_key, value_of package_key kept) ∷ (status_key, installed) ∷ [])
      (remove status_key kept)

added_package :
    (kept : Row)
    → distinct kept ≡ true
    → truthy (value_of package_key kept) ≡ true
    → lookup package_key (added kept) ≡ some (value_of package_key kept)
unfolding lookup ◌=t◌
added_package kept d h = ground (
  arith,
  lookup-update package_key
      ((package_key, value_of package_key kept) ∷ (status_key, installed) ∷ [])
      (remove status_key kept) (remove-distinct status_key kept d),
  lookup-remove_ne status_key package_key kept refl,
  value_found package_key kept h,
)

added_architecture :
    (kept : Row)
    → distinct kept ≡ true
    → truthy (value_of architecture_key kept) ≡ true
    → lookup architecture_key (added kept) ≡ some (value_of architecture_key kept)
unfolding ◌=t◌
added_architecture kept d h = ground (
  arith,
  lookup-update architecture_key
      ((package_key, value_of package_key kept) ∷ (status_key, installed) ∷ [])
      (remove status_key kept) (remove-distinct status_key kept d),
  lookup-remove_ne status_key architecture_key kept refl,
  value_found architecture_key kept h,
)

pub added_status :
    (kept : Row) → distinct kept ≡ true → lookup status_key (added kept) ≡ some installed
unfolding lookup ◌=t◌
added_status kept d = ground (
  arith,
  lookup-update status_key ((package_key, value_of package_key kept) ∷ (status_key, installed) ∷ [])
      (remove status_key kept) (remove-distinct status_key kept d),
  lookup-remove_self status_key kept,
)

append_nothing : (rows : List Row) → rows ++ [] ≡ rows
append_nothing [] = refl
append_nothing (r ∷ rows) = ap (λ l. r ∷ l) (append_nothing rows)

for_of :
    (n a : Text) (row : Row)
    → lookup package_key row ≡ some n
    → lookup architecture_key row ≡ some a
    → is_for n a row ≡ true
for_of n a row named arched = ground (arith, =t_refl n, =t_refl a)

pub added_for :
    (kept : Row)
    → distinct kept ≡ true
    → truthy (value_of package_key kept) ≡ true
    → truthy (value_of architecture_key kept) ≡ true
    → is_for (value_of package_key kept) (value_of architecture_key kept) (added kept) ≡ true
added_for kept d named arched =
    for_of _ _ (added kept) (added_package kept d named) (added_architecture kept d arched)

-- The loop's filter and append, on the stanzas of the added package and on those of any other.
pub replaced :
    (name arch : Text) (rows : List Row) (row : Row)
    → is_for name arch row ≡ true
    → stanzas_of name arch (keep (λ r. not (is_for name arch r)) rows ++ row ∷ []) ≡ row ∷ []
replaced name arch rows row h =
    keep-append (is_for name arch) (keep (λ r. not (is_for name arch r)) rows) row
    ∙ ap (λ l. l ++ keep (is_for name arch) (row ∷ [])) (keep_nothing (is_for name arch) rows)
    ∙ rw h refl

left_alone :
    (name arch n a : Text) (rows : List Row) (row : Row)
    → is_for name arch row ≡ true
    → n =t name && a =t arch ≡ false
    → stanzas_of n a (keep (λ r. not (is_for name arch r)) rows ++ row ∷ []) ≡ stanzas_of n a rows
left_alone name arch n a rows row h differ =
    let apart = for_apart name arch n a differ in
    ground (
      arith,
      keep-append (is_for n a) (keep (λ r. not (is_for name arch r)) rows) row,
      keep_others (is_for n a) (is_for name arch) apart rows,
      apart row,
      h,
      append_nothing (stanzas_of n a rows),
    )

placed :
    (kept : Row) (rows : List Row) (n a : Text)
    → distinct kept ≡ true
    → truthy (value_of package_key kept) ≡ true
    → truthy (value_of architecture_key kept) ≡ true
    → Outcome n a rows (
        keep
          (λ row. not (is_for (value_of package_key kept) (value_of architecture_key kept) row))
          rows
        ++ added kept ∷ [])
placed kept rows n a d named arched =
    let name = value_of package_key kept in
    let arch = value_of architecture_key kept in
    let is_own = added_for kept d named arched in
    elim (Bool-cases (n =t name && a =t arch)) [
      | inl same ↦
          subst₂
            (λ x y.
              Outcome x y rows (keep (λ row. not (is_for name arch row)) rows ++ added kept ∷ []))
            (sym (=t_sound n name (ground (arith, same))))
            (sym (=t_sound a arch (ground (arith, same))))
            (inr (added kept, replaced name arch rows (added kept) is_own, added_status kept d))
      | inr differ ↦ inl (left_alone name arch n a rows (added kept) is_own differ)
    ]

-- One decision leaves the stanzas of a package and architecture as they are, or leaves one stanza
-- that is installed.
add_package-Outcome :
    (addition : Row) (rows : List Row)
    → distinct addition ≡ true
    → Keeps (λ rows'. (n a : Text) → Outcome n a rows rows') (add_package addition rows)
unfolding add_package
add_package-Outcome addition rows d =
    let kept = insert status_key installed (drop_fields addition) in
    refuse_rule (is_incomplete kept) _ _ λ complete. returns λ n a.
      placed kept rows n a
        (insert-distinct status_key installed (drop_fields addition)
          (drop_fields-distinct addition d))
        (ground (arith, complete)) (ground (arith, complete))

then_outcome :
    (n a : Text) (first middle last : List Row)
    → Outcome n a first middle
    → Outcome n a middle last
    → Outcome n a first last
then_outcome n a first middle last (inl same) (inl same') = inl (same' ∙ same)
then_outcome n a first middle last (inr (row, one, on)) (inl same') = inr (row, same' ∙ one, on)
then_outcome n a first middle last h (inr placed') = inr placed'

all_placed :
    (additions rows : List Row)
    → AllDistinct additions
    → Keeps (λ rows'. (n a : Text) → Outcome n a rows rows') (add_packages additions rows)
unfolding add_packages
all_placed [] rows d = returns λ n a. inl refl
all_placed (addition ∷ rest) rows d = bind_rule (add_package addition rows) λ middle e.
    weaken_rule
      (λ last h n a.
        then_outcome n a rows middle last
          (keeps_value (add_package addition rows) e (add_package-Outcome addition rows d.0) n a)
          (h n a))
      (all_placed rest middle d.1)

pub same_value : {A : Type 0} (r : Result Error A) (x y : A) → r ≡ ok x → r ≡ ok y → x ≡ y
same_value r x y e f =
    keeps_value {P = λ z. x ≡ z} r f (subst (Keeps (λ z. x ≡ z)) (sym e) (returns refl))

-- The stanzas that are written when apt-cache, dpkg-deb and the base status read well: for every
-- package and architecture they are those of the base, or a single one whose Status is
-- `install ok installed`.
pub modeled_rows_lem :
    (p : Platform) (base : List Text) (decisions : List (Text × Text × List Text))
    (artifact : List Text) (rows rows' : List Row) (n a : Text)
    → parse_stanzas p base ≡ ok rows
    → modeled_rows p base decisions artifact ≡ ok rows'
    → Outcome n a rows rows'
unfolding modeled_rows
modeled_rows_lem p base decisions artifact rows rows' n a read written =
    keeps_value {P = λ made. Outcome n a rows made} (modeled_rows p base decisions artifact) written
      (bind_rule (parse_stanzas p base) λ found e.
        bind_rule (package_stanzas p decisions) λ additions e'.
          bind_rule (artifact_stanza p artifact) λ last e''.
            weaken_rule
              (λ made h.
                subst (λ r. Outcome n a r made)
                  (same_value (parse_stanzas p base) found rows e read) (h n a))
              (all_placed (additions ++ last ∷ []) found (
                appended_all additions last
                  (keeps_value (package_stanzas p decisions) e'
                    (package_stanzas-distinct p decisions))
                  (keeps_value (artifact_stanza p artifact) e''
                    (artifact_stanza-distinct p artifact)))))
