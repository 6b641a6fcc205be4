-- ===== src/Tests/Statuses.antt =====
-- The status that an artifact is modelled in, on a base with an older version of it.
use deb_builder.Base.{
  ◌≡◌, refl, Text, ◌=t◌, codes, lstrip, before_char, after_char, List, [], ◌∷◌, ok,
}
use deb_builder.Base.Dict.{lookup, insert, remove}
use deb_builder.Apt.{
  Row, flush, add_field, read_line, read_lines, parse_stanzas, artifact_stanza, package_stanzas,
  drop_fields, update, add_package, add_packages, modeled_rows,
}
use deb_builder.Apt.Built.{Outcome, modeled_rows_lem}
use deb_builder.Apt.Artifact.{IsSingle, modeled_rows-IsSingle}
use deb_builder.Tests.Data.{plain}

abbrev base_lines : List Text
base_lines =
    codes "Package: tool"
    ∷ codes "Architecture: all"
    ∷ codes "Version: 1"
    ∷ []
    ∷ codes "Package: libc6"
    ∷ codes "Architecture: amd64"
    ∷ codes "Version: 2"
    ∷ []

abbrev artifact_lines : List Text
artifact_lines =
    codes "Package: tool" ∷ codes "Version: 2" ∷ codes "Architecture: all" ∷ codes "Size: 9" ∷ []

abbrev libc_row : Row
libc_row =
    (codes "Package", codes "libc6")
    ∷ (codes "Architecture", codes "amd64")
    ∷ (codes "Version", codes "2")
    ∷ []

abbrev base_rows : List Row
base_rows =
    ((codes "Package", codes "tool")
      ∷ (codes "Architecture", codes "all")
      ∷ (codes "Version", codes "1")
      ∷ [])
    ∷ libc_row
    ∷ []

abbrev written_rows : List Row
written_rows =
    libc_row
    ∷ ((codes "Package", codes "tool")
        ∷ (codes "Status", codes "install ok installed")
        ∷ (codes "Version", codes "2")
        ∷ (codes "Architecture", codes "all")
        ∷ [])
    ∷ []

base_read : parse_stanzas plain base_lines ≡ ok base_rows
unfolding parse_stanzas read_lines read_line flush add_field lookup insert lstrip before_char
    after_char ◌=t◌
base_read = refl

rows_written : modeled_rows plain base_lines [] artifact_lines ≡ ok written_rows
unfolding modeled_rows parse_stanzas read_lines read_line flush add_field lookup insert remove
    lstrip before_char after_char artifact_stanza package_stanzas drop_fields update add_package
    add_packages ◌=t◌
rows_written = refl

modeled_rows_lem_example : Outcome (codes "tool") (codes "all") base_rows written_rows
modeled_rows_lem_example =
    modeled_rows_lem plain base_lines [] artifact_lines base_rows written_rows (codes "tool")
      (codes "all") base_read rows_written

abbrev artifact_row : Row
artifact_row =
    (codes "Package", codes "tool")
    ∷ (codes "Version", codes "2")
    ∷ (codes "Architecture", codes "all")
    ∷ (codes "Size", codes "9")
    ∷ []

artifact_read : artifact_stanza plain artifact_lines ≡ ok artifact_row
unfolding artifact_stanza parse_stanzas read_lines read_line flush add_field lookup insert lstrip
    before_char after_char ◌=t◌
artifact_read = refl

modeled_rows-IsSingle_example : IsSingle (codes "tool") (codes "all") written_rows
unfolding lookup ◌=t◌
modeled_rows-IsSingle_example =
    modeled_rows-IsSingle plain base_lines [] artifact_lines artifact_row written_rows
      (codes "tool") (codes "all") artifact_read refl refl rows_written
