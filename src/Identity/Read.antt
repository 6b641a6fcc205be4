-- ===== src/Identity/Read.antt =====
-- debbuilder/automation_identity.py: `_text`, `_sha`, `_github_ref`, `_version` and `_size`, which
-- read one value each.
use deb_builder.Base.{
  ℕ, ◌+◌, ◌*◌, Bool, false, not, ◌&&◌, ◌||◌, Text, [], ◌∷◌, codes, Option, none, some, truthy,
  length, all, any, ltb, ◌=t◌, is_hex, is_code_char, matches_class, if◌then◌else◌, Result, ok, err,
  ◌>>=◌, ◌>>◌, refuse, strip, has_infix, starts_with, ends_with_char, has_char, before_char,
  after_char, ◌++◌,
}
use deb_builder.Base.Json.{Value, null, int, negative, text, decimal}
use deb_builder.Platform.{Platform}
use deb_builder.Identity.Model.{
  Error, invalid_identity, Tracking, latest_release, tag, manual, SourceType, release_asset,
  github_source_archive, git_ref, PayloadKind, deb, archive, raw_file, source_archive,
  tracking_name, source_name, payload_name,
}

abbrev pub invalid : Bool → Result Error (Unit {0})
invalid b = refuse b invalid_identity

-- str(value) of a str or an int that is no bool
abbrev pub as_text : Value → Option Text
as_text (text t) = some t
as_text (int n) = some (decimal n)
as_text (negative n) = some (b'-' ∷ decimal (n + 1))
as_text _ = none

abbrev pub max_text : ℕ
max_text = 200

abbrev pub is_printable : Text → Bool
is_printable t = all (λ c. not (ltb c 32)) t

-- `any(character.isspace() for character in result)`
abbrev pub has_space : Platform → Text → Bool
has_space p t = any p.is_space t

module _ (p : Platform) where
  bounded : Bool → ℕ → Text → Result Error Text
  bounded required maximum t = do
    invalid ((required && not (truthy t)) || ltb maximum (length t) || not (is_printable t))
    ok t

  read_given : Bool → ℕ → Option Text → Result Error Text
  unfolding bounded
  read_given required maximum none = err invalid_identity
  read_given required maximum (some t) = bounded required maximum (strip p.is_space t)

  -- `_text(value.get(field), …)`; a missing key and null are the same
  unfoldable pub read_text : Bool → ℕ → Option Value → Result Error Text
  unfolding read_given
  read_text required maximum none = if required then err invalid_identity else ok []
  read_text required maximum (some null) = if required then err invalid_identity else ok []
  read_text required maximum (some v) = read_given required maximum (as_text v)

  -- text.lower()
  unfoldable pub lower_text : Text → Text
  lower_text [] = []
  lower_text (c ∷ t) = p.lower c ++ lower_text t

  -- `_sha(value, field, lengths=…)`, where 64 is the longest of the lengths
  unfoldable pub read_sha : (ℕ → Bool) → Option Value → Result Error Text
  unfolding lower_text
  read_sha allowed v = do
    t ← read_text false 64 v
    let digest = lower_text t
    invalid (truthy digest && (not (allowed (length digest)) || not (all is_hex digest)))
    ok digest

  -- The tests of `_github_ref`.
  abbrev pub is_unsafe_ref : Text → Bool
  is_unsafe_ref t =
      starts_with t (codes "/")
      || ends_with_char b'/' t
      || has_infix t (codes "..")
      || has_infix t (codes "://")
      || has_char 92 t
      || has_char b'@' t
      || has_char b'=' t
      || any (λ c. has_char c (codes "~^:?*[")) t
      || has_space p t

  unfoldable pub read_ref : Option Value → Result Error Text
  read_ref v = do t ← read_text false max_text v; invalid (truthy t && is_unsafe_ref t); ok t

  -- The tests of `_version`.
  abbrev pub is_unsafe_version : Text → Bool
  is_unsafe_version t =
      has_char b'/' t
      || has_char 92 t
      || has_infix t (codes "://")
      || has_char b'@' t
      || has_char b'=' t
      || has_space p t

  unfoldable pub read_version : Option Value → Result Error Text
  read_version v = do
    t ← read_text false max_text v
    invalid (truthy t && is_unsafe_version t)
    ok t

-- 500 MiB
abbrev pub max_size : ℕ
max_size = 500 * 1024 * 1024

-- `_size`
unfoldable pub read_size : Option Value → Result Error (Option ℕ)
read_size none = ok none
read_size (some null) = ok none
read_size (some (text [])) = ok none
read_size (some (int n)) = do invalid (ltb max_size n); ok (some n)
read_size _ = err invalid_identity

-- re.fullmatch("[a-z0-9_.-]+/[a-z0-9_.-]+", repository)
unfoldable pub is_repository : Text → Bool
is_repository t =
    matches_class is_code_char (before_char b'/' t)
    && elim (after_char b'/' t) [ none ↦ false | some name ↦ matches_class is_code_char name ]

unfoldable pub read_tracking : Text → Result Error Tracking
read_tracking t =
    if t =t tracking_name latest_release
    then ok latest_release
    else if t =t tracking_name tag
    then ok tag
    else if t =t tracking_name manual
    then ok manual
    else err invalid_identity

unfoldable pub read_source : Text → Result Error SourceType
read_source t =
    if t =t source_name release_asset
    then ok release_asset
    else if t =t source_name github_source_archive
    then ok github_source_archive
    else if t =t source_name git_ref
    then ok git_ref
    else err invalid_identity

unfoldable pub read_payload : Text → Result Error PayloadKind
read_payload t =
    if t =t payload_name deb
    then ok deb
    else if t =t payload_name archive
    then ok archive
    else if t =t payload_name raw_file
    then ok raw_file
    else if t =t payload_name source_archive
    then ok source_archive
    else err invalid_identity
