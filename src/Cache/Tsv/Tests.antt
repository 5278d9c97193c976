-- ===== src/Cache/Tsv/Tests.antt =====
-- A table of two columns.
use ascension_preservation.Common.{
  ℕ, ◌≡◌, refl, Bool, false, some, List, [], ◌∷◌, ◌++◌, ◌||◌, ◌==◌, map, All, ok, err, value_error,
}
use ascension_preservation.Common.Assoc.{find}
use ascension_preservation.Common.Bytes.{eq_bytes, codes}
use ascension_preservation.Common.Texts.{Text}
use ascension_preservation.Cache.Tsv.{
  TableRow, has_char, onto_first, split_on, join, starts_line, universal_newlines,
  without_last_empty, lines, values_of, is_unsafe, any_unsafe, write_rows, write_tsv, all_blank,
  read_rows, read_lines, read_tsv,
}
use ascension_preservation.Cache.Tsv.RoundTrip.{projected, IsShown, read_tsv-write_tsv}

abbrev blank : ℕ → Bool
blank c = c == 32 || (c == 9 || (c == 10 || c == 13))

abbrev columns : List Text
columns = codes "id" ∷ codes "path" ∷ []

abbrev table_rows : List TableRow
table_rows =
    ((codes "path", codes "a/b") ∷ (codes "id", codes "1") ∷ (codes "more", codes "x") ∷ [])
    ∷ ((codes "id", codes "2") ∷ [])
    ∷ []

abbrev written : Text
written =
    codes "id"
    ++ 9 ∷ codes "path"
    ++ 10 ∷ codes "1"
    ++ 9 ∷ codes "a/b"
    ++ 10 ∷ codes "2"
    ++ 9 ∷ 10 ∷ []

writes : write_tsv columns table_rows ≡ ok written
unfolding write_tsv write_rows any_unsafe is_unsafe has_char values_of find eq_bytes join
writes = refl

-- A line end in a field.
unsafe_field : write_tsv columns (((codes "id", 10 ∷ []) ∷ []) ∷ []) ≡ err value_error
unfolding write_tsv write_rows any_unsafe is_unsafe has_char values_of find eq_bytes
unsafe_field = refl

-- A line with a field too many.
ragged : read_tsv blank (some (codes "id" ++ 10 ∷ codes "1" ++ 9 ∷ codes "2")) ≡ err value_error
unfolding read_tsv read_lines read_rows lines universal_newlines starts_line split_on onto_first
    without_last_empty all_blank
ragged = refl

-- A row that has no text in its one column is not read back.
lost_row : read_tsv blank (some (codes "id" ++ 10 ∷ 10 ∷ [])) ≡ ok []
unfolding read_tsv read_lines read_rows lines universal_newlines starts_line split_on onto_first
    without_last_empty all_blank
lost_row = refl

safe_columns : any_unsafe columns ≡ false
unfolding any_unsafe is_unsafe has_char
safe_columns = refl

shown : All (IsShown blank columns) table_rows
unfolding all_blank values_of find eq_bytes join
shown = (refl, (refl, tt))

read_tsv-write_tsv_example : read_tsv blank (some written) ≡ ok (map (projected columns) table_rows)
read_tsv-write_tsv_example =
    read_tsv-write_tsv blank (codes "id") (codes "path" ∷ []) table_rows written safe_columns shown
      writes
