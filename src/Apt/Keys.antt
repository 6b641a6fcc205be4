-- ===== src/Apt/Keys.antt =====
-- debbuilder/apt_state_model.py: stanzas as dicts: each key stands once, and what an update does.
use deb_builder.Base.{
  ◌≡◌, refl, Bool, true, false, not, ◌&&◌, Text, ◌=t◌, =t_sound, =t_refl, [], ◌∷◌, Option, none,
  some, arith, subst, Bool-cases, inl, inr,
}
use deb_builder.Base.Dict.{lookup, insert, remove, has_key, lookup-insert_self, lookup-insert_ne}
use deb_builder.Apt.{Row, drop_fields, update, is_dropped}

abbrev pub distinct : Row → Bool
distinct [] = true
distinct ((k, v) ∷ rest) = not (has_key k rest) && distinct rest

abbrev pub or_of : Option Text → Option Text → Option Text
or_of none other = other
or_of (some v) other = some v

not_comm : (k key : Text) → k =t key ≡ false → key =t k ≡ false
not_comm k key n = elim (Bool-cases (key =t k)) [
  | inl same ↦ absurd (ground (arith, =t_sound key k same, =t_refl k))
  | inr other ↦ other
]

has_key-insert :
    (k key : Text) (v : Text) (row : Row)
    → k =t key ≡ false
    → has_key key row ≡ false
    → has_key key (insert k v row) ≡ false
has_key-insert k key v row n h = ground (arith, lookup-insert_ne k key v row, not_comm k key n)

pub insert-distinct :
    (k v : Text) (row : Row) → distinct row ≡ true → distinct (insert k v row) ≡ true
unfolding insert lookup
insert-distinct k v [] h = refl
insert-distinct k v ((l, w) ∷ row) h =
    ground (arith, insert-distinct k v row, has_key-insert k l v row, not_comm l k)

has_key-remove :
    (k key : Text) (row : Row) → has_key key row ≡ false → has_key key (remove k row) ≡ false
unfolding remove lookup
has_key-remove k key [] h = refl
has_key-remove k key ((l, w) ∷ row) h = ground (arith, has_key-remove k key row)

pub remove-distinct : (k : Text) (row : Row) → distinct row ≡ true → distinct (remove k row) ≡ true
unfolding remove
remove-distinct k [] h = refl
remove-distinct k ((l, w) ∷ row) h = ground (arith, remove-distinct k row, has_key-remove k l row)

has_key-drop_fields :
    (key : Text) (row : Row) → has_key key row ≡ false → has_key key (drop_fields row) ≡ false
unfolding drop_fields lookup
has_key-drop_fields key [] h = refl
has_key-drop_fields key ((l, w) ∷ row) h = ground (arith, has_key-drop_fields key row)

pub drop_fields-distinct : (row : Row) → distinct row ≡ true → distinct (drop_fields row) ≡ true
unfolding drop_fields
drop_fields-distinct [] h = refl
drop_fields-distinct ((l, w) ∷ row) h =
    ground (arith, drop_fields-distinct row, has_key-drop_fields l row)

-- After an update a key has the value of the update, or else the one it had.
pub lookup-update :
    (key : Text) (row change : Row)
    → distinct change ≡ true
    → lookup key (update row change) ≡ or_of (lookup key change) (lookup key row)
unfolding update lookup
lookup-update key row [] h = refl
lookup-update key row ((k, v) ∷ rest) h = elim (Bool-cases (k =t key)) [
  | inl same ↦ ground (
    arith,
    same,
    lookup-update key (insert k v row) rest,
    subst (λ x. lookup x (insert k v row) ≡ some v) (=t_sound k key same)
        (lookup-insert_self k v row),
    subst (λ x. not (has_key x rest) && distinct rest ≡ true) (=t_sound k key same) h,
  )
  | inr other ↦ ground (
    arith,
    other,
    lookup-update key (insert k v row) rest,
    lookup-insert_ne k key v row,
    not_comm k key other,
  )
]

pub lookup-drop_fields :
    (key : Text) (row : Row)
    → is_dropped key ≡ false
    → lookup key (drop_fields row) ≡ lookup key row
unfolding drop_fields lookup
lookup-drop_fields key [] n = refl
lookup-drop_fields key ((k, v) ∷ row) n =
    ground (arith, lookup-drop_fields key row n, =t_sound k key)
