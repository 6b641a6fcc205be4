-- ===== src/Apt/Parsed.antt =====
-- debbuilder/apt_state_model.py: each field of a stanza that was read stands once.
use deb_builder.Base.Dict.{has_key}
use deb_builder.Base.{
  Keeps, returns, raises, if_rule, bind_rule, keeps_value, ◌≡◌, refl, Bool, true, false, ◌&&◌, Text,
  truthy, ◌++◌, List, [], ◌∷◌, Option, none, some, All, if◌then◌else◌, lstrip, before_char,
  after_char,
}
use deb_builder.Platform.{Platform}
use deb_builder.Apt.{
  Row, Error, Parser, new_parser, is_empty, flush, add_field, read_line, read_lines, parse_stanzas,
  keep, package_stanza, artifact_stanza, the_one, not_unique, not_one_stanza, package_stanzas,
}
use deb_builder.Apt.Keys.{distinct, insert-distinct}

abbrev pub AllDistinct : List Row → Type 0
AllDistinct rows = All (λ row. distinct row ≡ true) rows

record IsSound (s : Parser) : Type 0 where
  read : AllDistinct s.rows
  now : distinct s.current ≡ true

pub appended_all :
    (rows : List Row) (row : Row)
    → AllDistinct rows
    → distinct row ≡ true
    → AllDistinct (rows ++ row ∷ [])
appended_all [] row h d = (d, tt)
appended_all (r ∷ rows) row h d = (h.0, appended_all rows row h.1 d)

either_parser : (b : Bool) {x y : Parser} → IsSound x → IsSound y → IsSound (if b then x else y)
either_parser true h k = h
either_parser false h k = k

flush-IsSound : (s : Parser) → IsSound s → IsSound (flush s)
unfolding flush
flush-IsSound s h =
    either_parser (is_empty s.current) h
      (record { read = appended_all s.rows s.current h.read h.now; now = refl })

module _ (p : Platform) where
  add_field-IsSound :
      (key : Text) (value : Option Text) (s : Parser)
      → IsSound s
      → Keeps IsSound (add_field p key value s)
  unfolding add_field
  add_field-IsSound key none s h = raises
  add_field-IsSound key (some value) s h =
      if_rule (has_key key s.current) (λ again. raises)
        λ new. returns (record {
          read = h.read;
          now = insert-distinct key (lstrip p.is_space value) s.current h.now;
        })

  read_line-IsSound : (line : Text) (s : Parser) → IsSound s → Keeps IsSound (read_line p line s)
  unfolding read_line
  read_line-IsSound [] s h = returns (flush-IsSound s h)
  read_line-IsSound (c ∷ line) s h =
      if_rule (p.is_space c && truthy s.last)
        (λ more. returns (record { read = h.read; now = insert-distinct s.last _ s.current h.now }))
        λ new. add_field-IsSound (before_char 58 (c ∷ line)) (after_char 58 (c ∷ line)) s h

  read_lines-IsSound :
      (lines : List Text) (s : Parser) → IsSound s → Keeps IsSound (read_lines p lines s)
  unfolding read_lines
  read_lines-IsSound [] s h = returns h
  read_lines-IsSound (line ∷ rest) s h = bind_rule (read_line p line s) λ t e.
      read_lines-IsSound rest t (keeps_value (read_line p line s) e (read_line-IsSound line s h))

  pub parse_stanzas-distinct : (lines : List Text) → Keeps AllDistinct (parse_stanzas p lines)
  unfolding parse_stanzas
  parse_stanzas-distinct lines = bind_rule (read_lines p (lines ++ [] ∷ []) new_parser) λ t e.
      returns
        (keeps_value (read_lines p (lines ++ [] ∷ []) new_parser) e (
          read_lines-IsSound (lines ++ [] ∷ []) new_parser (record { read = tt; now = refl }))).read

  kept_if :
      (b : Bool) (row : Row) (rows : List Row)
      → distinct row ≡ true
      → AllDistinct rows
      → AllDistinct (if b then row ∷ rows else rows)
  kept_if true row rows d h = (d, h)
  kept_if false row rows d h = h

  keep-distinct : (q : Row → Bool) (rows : List Row) → AllDistinct rows → AllDistinct (keep q rows)
  keep-distinct q [] h = tt
  keep-distinct q (row ∷ rows) h = kept_if (q row) row (keep q rows) h.0 (keep-distinct q rows h.1)

  the_one-distinct :
      (x : Error) (rows : List Row)
      → AllDistinct rows
      → Keeps (λ row. distinct row ≡ true) (the_one x rows)
  the_one-distinct x [] h = raises
  the_one-distinct x (row ∷ []) h = returns h.0
  the_one-distinct x (row ∷ other ∷ rows) h = raises

  package_stanza-distinct :
      (name version : Text) (printed : List Text)
      → Keeps (λ row. distinct row ≡ true) (package_stanza p name version printed)
  unfolding package_stanza
  package_stanza-distinct name version printed = bind_rule (parse_stanzas p printed) λ rows e.
      the_one-distinct not_unique _ (
        keep-distinct _ rows
          (keeps_value (parse_stanzas p printed) e (parse_stanzas-distinct printed)))

  pub artifact_stanza-distinct :
      (printed : List Text) → Keeps (λ row. distinct row ≡ true) (artifact_stanza p printed)
  unfolding artifact_stanza
  artifact_stanza-distinct printed = bind_rule (parse_stanzas p printed) λ rows e.
      the_one-distinct not_one_stanza rows
        (keeps_value (parse_stanzas p printed) e (parse_stanzas-distinct printed))

  pub package_stanzas-distinct :
      (decisions : List (Text × Text × List Text)) → Keeps AllDistinct (package_stanzas p decisions)
  unfolding package_stanzas
  package_stanzas-distinct [] = returns tt
  package_stanzas-distinct ((name, version, printed) ∷ rest) =
      bind_rule (package_stanza p name version printed) λ row e.
        bind_rule (package_stanzas p rest) λ rows e'. returns (
          keeps_value (package_stanza p name version printed) e
              (package_stanza-distinct name version printed),
          keeps_value (package_stanzas p rest) e' (package_stanzas-distinct rest),
        )
