-- ===== src/Apt.antt =====
-- debbuilder/apt_state_model.py: the APT status that a preparation is modelled on. The lines are those
-- of `text.splitlines()`; what apt-cache and dpkg-deb print is an argument.
use deb_builder.Base.{
  ℕ, ◌≡◌, Bool, true, false, not, ◌&&◌, ◌||◌, Text, ◌=t◌, codes, truthy, List, [], ◌∷◌, ◌++◌,
  Option, none, some, any, is_none, ◌==◌, Result, ok, err, ◌>>=◌, ◌>>◌, refuse, if◌then◌else◌,
  lstrip, before_char, after_char,
}
use deb_builder.Base.Dict.{Dict, lookup, insert, remove, has_key}
use deb_builder.Platform.{Platform}
pub mod Keys
pub mod Parsed
pub mod Built
pub mod Artifact

pub data Error : Type 0 where
  malformed_field repeated_field not_unique not_one_stanza incomplete : Error

abbrev pub Row : Type 0
Row = Dict Text

-- The variables of `parse_stanzas`.
pub record Parser : Type 0 where
  pub rows : List Row
  pub current : Row
  pub last : Text

abbrev pub is_empty : Row → Bool
is_empty [] = true
is_empty (f ∷ rest) = false

abbrev pub new_parser : Parser
new_parser = record { rows = []; current = []; last = [] }

unfoldable pub flush : Parser → Parser
flush s =
    if is_empty s.current
    then s
    else record { rows = s.rows ++ s.current ∷ []; current = []; last = [] }

abbrev pub value_of : Text → Row → Text
value_of key row = elim (lookup key row) [ none ↦ [] | some v ↦ v ]

module _ (p : Platform) where
  unfoldable pub add_field : Text → Option Text → Parser → Result Error Parser
  add_field key none s = err malformed_field
  add_field key (some value) s =
      if has_key key s.current
      then err repeated_field
      else ok (record s { current = insert key (lstrip p.is_space value) s.current; last = key })

  unfoldable pub read_line : Text → Parser → Result Error Parser
  read_line [] s = ok (flush s)
  read_line (c ∷ line) s =
      if p.is_space c && truthy s.last
      then ok (record s {
        current = insert s.last (value_of s.last s.current ++ 10 ∷ c ∷ line) s.current;
      })
      else add_field (before_char 58 (c ∷ line)) (after_char 58 (c ∷ line)) s

  unfoldable pub read_lines : List Text → Parser → Result Error Parser
  read_lines [] s = ok s
  read_lines (line ∷ rest) s = read_line line s >>= read_lines rest

  -- parse_stanzas
  unfoldable pub parse_stanzas : List Text → Result Error (List Row)
  parse_stanzas lines = read_lines (lines ++ [] ∷ []) new_parser >>= λ s. ok s.rows

-- row.get(key) == value
abbrev pub holds : Text → Text → Row → Bool
holds key value row = elim (lookup key row) [ none ↦ false | some v ↦ v =t value ]

abbrev pub keep {ℓ} : {A : Type ℓ} → (A → Bool) → List A → List A
keep p [] = []
keep p (a ∷ rest) = let others = keep p rest in if p a then a ∷ others else others

abbrev pub the_one : Error → List Row → Result Error Row
the_one x (row ∷ []) = ok row
the_one x rows = err x

module _ (p : Platform) where
  -- package_stanza, from the lines that apt-cache prints
  unfoldable pub package_stanza : Text → Text → List Text → Result Error Row
  package_stanza name version printed = do
    rows ← parse_stanzas p printed
    the_one not_unique (
        keep
          (λ row.
            holds (codes "Package") (before_char 58 name) row
            && holds (codes "Version") version row)
          rows)

  -- artifact_stanza, from the lines that dpkg-deb prints
  unfoldable pub artifact_stanza : List Text → Result Error Row
  artifact_stanza printed = parse_stanzas p printed >>= the_one not_one_stanza

abbrev pub package_key : Text
package_key = codes "Package"

abbrev pub architecture_key : Text
architecture_key = codes "Architecture"

abbrev pub status_key : Text
status_key = codes "Status"

abbrev pub installed : Text
installed = codes "install ok installed"

-- DROP_FIELDS
abbrev pub is_dropped : Text → Bool
is_dropped key =
    any (λ t. key =t t)
      (codes "Filename"
        ∷ codes "Size"
        ∷ codes "MD5sum"
        ∷ codes "SHA1"
        ∷ codes "SHA256"
        ∷ codes "SHA512"
        ∷ codes "Description-md5"
        ∷ [])

unfoldable pub drop_fields : Row → Row
drop_fields [] = []
drop_fields ((k, v) ∷ rest) =
    let others = drop_fields rest in if is_dropped k then others else (k, v) ∷ others

-- dict.update
unfoldable pub update : Row → Row → Row
update row [] = row
update row ((k, v) ∷ rest) = update (insert k v row) rest

abbrev pub is_for : Text → Text → Row → Bool
is_for name arch row = holds package_key name row && holds architecture_key arch row

abbrev pub is_incomplete : Row → Bool
is_incomplete row =
    not (truthy (value_of package_key row))
    || not (truthy (value_of architecture_key row))
    || not (truthy (value_of (codes "Version") row))

-- One round of the loop of build_modeled_status.
unfoldable pub add_package : Row → List Row → Result Error (List Row)
add_package addition rows = do
  let kept = insert status_key installed (drop_fields addition)
  let name = value_of package_key kept
  let arch = value_of architecture_key kept
  refuse (is_incomplete kept) incomplete
  ok (
      keep (λ row. not (is_for name arch row)) rows
      ++ update ((package_key, name) ∷ (status_key, installed) ∷ []) (remove status_key kept) ∷ [])

unfoldable pub add_packages : List Row → List Row → Result Error (List Row)
add_packages [] rows = ok rows
add_packages (addition ∷ rest) rows = add_package addition rows >>= add_packages rest

module _ (p : Platform) where
  -- [package_stanza(package, version) for package, version in decisions], with what is printed for each
  unfoldable pub package_stanzas : List (Text × Text × List Text) → Result Error (List Row)
  package_stanzas [] = ok []
  package_stanzas ((name, version, printed) ∷ rest) = do
    row ← package_stanza p name version printed
    rows ← package_stanzas rest
    ok (row ∷ rows)

  -- The stanzas that build_modeled_status writes.
  unfoldable pub modeled_rows :
      List Text → List (Text × Text × List Text) → List Text → Result Error (List Row)
  modeled_rows base decisions artifact = do
    rows ← parse_stanzas p base
    additions ← package_stanzas decisions
    last ← artifact_stanza p artifact
    add_packages (additions ++ last ∷ []) rows

-- separator.join(texts)
unfoldable pub join : Text → List Text → Text
join separator [] = []
join separator (t ∷ []) = t
join separator (t ∷ u ∷ rest) = t ++ separator ++ join separator (u ∷ rest)

abbrev render_fields : Row → List Text
render_fields [] = []
render_fields ((k, v) ∷ rest) = (k ++ codes ": " ++ v) ∷ render_fields rest

abbrev render_rows : List Row → List Text
render_rows [] = []
render_rows (row ∷ rest) = join (10 ∷ []) (render_fields row) ∷ render_rows rest

-- render_stanzas
unfoldable pub render_stanzas : List Row → Text
render_stanzas rows = join (10 ∷ 10 ∷ []) (render_rows rows) ++ 10 ∷ []

-- build_modeled_status: the text that it writes
unfoldable pub build_modeled_status :
    Platform → List Text → List (Text × Text × List Text) → List Text → Result Error Text
build_modeled_status p base decisions artifact =
    modeled_rows p base decisions artifact >>= λ rows. ok (render_stanzas rows)
