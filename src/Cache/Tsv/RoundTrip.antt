-- ===== src/Cache/Tsv/RoundTrip.antt =====
-- What is written is read back.
use ascension_preservation.Common.{
  ℕ, ◌≡◌, refl, sym, ap, ◌∙◌, Bool, false, inl, inr, Bool-cases, some, List, [], ◌∷◌, ◌++◌, map,
  All, length, ◌==◌, ==_iff, ok, err, >>=-eq-ok, value_error, arith,
}
use ascension_preservation.Common.Assoc.{find}
use ascension_preservation.Common.Bytes.{eq_bytes}
use ascension_preservation.Common.Dict.{get_default}
use ascension_preservation.Common.Texts.{Text}
use ascension_preservation.Cache.Tsv.Lines.{
  Free, split_on-join, has_char-join, unlines, lines-unlines,
}
use ascension_preservation.Cache.Tsv.{
  tab, newline, carriage_return, TableRow, split_on, join, lines, dict_zip, values_of, is_unsafe,
  any_unsafe, write_rows, write_tsv, all_blank, read_rows, read_lines, read_tsv,
}

-- A field that is written.
abbrev Safe : Text → Type 0
Safe t = Free tab t × Free carriage_return t × Free newline t

is_unsafe-Safe : (t : Text) → is_unsafe t ≡ false → Safe t
unfolding is_unsafe
is_unsafe-Safe t h = (ground arith, ground arith, ground arith)

any_unsafe-Safe : (vs : List Text) → any_unsafe vs ≡ false → All Safe vs
unfolding any_unsafe
any_unsafe-Safe [] h = tt
any_unsafe-Safe (v ∷ vs) h = (is_unsafe-Safe v (ground arith), any_unsafe-Safe vs (ground arith))

All-weaken : {P Q : Text → Type 0} (vs : List Text) → ((v : Text) → P v → Q v) → All P vs → All Q vs
All-weaken [] f h = tt
All-weaken (v ∷ vs) f (h, hs) = (f v h, All-weaken vs f hs)

length-values_of : (cols : List Text) (r : TableRow) → length (values_of cols r) ≡ length cols
unfolding values_of
length-values_of [] r = refl
length-values_of (c ∷ cols) r = omega (arith, length-values_of cols r)

-- The lines of the rows.
abbrev rows_lines : List Text → List TableRow → List Text
rows_lines cols [] = []
rows_lines cols (r ∷ rows) = join tab (values_of cols r) ∷ rows_lines cols rows

abbrev Writable : List Text → List TableRow → Type 0
Writable cols [] = Unit {0}
Writable cols (r ∷ rows) = (any_unsafe (values_of cols r) ≡ false) × Writable cols rows

write_rows-unlines :
    (cols : List Text) (rows : List TableRow) (text : Text)
    → write_rows cols rows ≡ ok text
    → (text ≡ unlines (rows_lines cols rows)) × Writable cols rows
unfolding write_rows unlines
write_rows-unlines cols [] text h = (cc h, tt)
write_rows-unlines cols (r ∷ rows) text h = elim (Bool-cases (any_unsafe (values_of cols r))) [
  | inl e ↦ let raised : err value_error ≡ ok text = rw e at h in cc raised
  | inr e ↦
      let wrote =
        >>=-eq-ok (write_rows cols rows)
          (λ below. ok (join tab (values_of cols r) ++ newline ∷ below)) (rw e at h) in
      let below = write_rows-unlines cols rows (wrote.0) (wrote.1) in
      let whole : join tab (values_of cols r) ++ newline ∷ wrote.0 ≡ text = cc (wrote.2) in
      (sym whole ∙ ap (λ t. join tab (values_of cols r) ++ newline ∷ t) (below.0), (e, below.1))
]

row_line_Free :
    (c : ℕ) (cols : List Text) (rows : List TableRow)
    → (tab == c) ≡ false
    → ((v : Text) → Safe v → Free c v)
    → Writable cols rows
    → All (Free c) (rows_lines cols rows)
row_line_Free c cols [] e f w = tt
row_line_Free c cols (r ∷ rows) e f (h, w) = (
  has_char-join c tab (values_of cols r) e
      (All-weaken (values_of cols r) f (any_unsafe-Safe (values_of cols r) h)),
  row_line_Free c cols rows e f w,
)

split_values :
    (c : Text) (cols : List Text) (r : TableRow)
    → any_unsafe (values_of (c ∷ cols) r) ≡ false
    → split_on tab (join tab (values_of (c ∷ cols) r)) ≡ values_of (c ∷ cols) r
unfolding values_of
split_values c cols r safe =
    let v : Text = get_default (find eq_bytes c r) [] in
    split_on-join tab v (values_of cols r)
      (All-weaken (v ∷ values_of cols r) (λ w s. s.0) (any_unsafe-Safe (v ∷ values_of cols r) safe))

-- The row as it is read: the columns alone, each with a value.
abbrev pub projected : List Text → TableRow → TableRow
projected cols r = dict_zip cols (values_of cols r)

module _ (is_blank : ℕ → Bool) where
  -- A row that is not all blank, as a line.
  abbrev pub IsShown : List Text → TableRow → Type 0
  IsShown cols r = all_blank is_blank (join tab (values_of cols r)) ≡ false

  read_rows-write :
      (c : Text) (cols : List Text) (rows : List TableRow)
      → Writable (c ∷ cols) rows
      → All (IsShown (c ∷ cols)) rows
      → read_rows is_blank (c ∷ cols) (rows_lines (c ∷ cols) rows)
        ≡ ok (map (projected (c ∷ cols)) rows)
  unfolding read_rows
  read_rows-write c cols [] w h = refl
  read_rows-write c cols (r ∷ rows) (safe, w) (shown, h) =
      let vals : List Text = values_of (c ∷ cols) r in
      let split : split_on tab (join tab vals) ≡ vals = split_values c cols r safe in
      rw
        (
          shown,
          split,
          (==_iff _ _).1 (length-values_of (c ∷ cols) r),
          read_rows-write c cols rows w h,
        )
        refl

  -- A table that is written is read back, row by row, each row as its columns alone with the empty text for a missing
  -- value: where `write_tsv` does not raise, the names of its columns are safe and there is one, and no row is all
  -- blank as a line, which the reader would pass over.
  pub read_tsv-write_tsv :
      (c : Text) (cols : List Text) (rows : List TableRow) (text : Text)
      → any_unsafe (c ∷ cols) ≡ false
      → All (IsShown (c ∷ cols)) rows
      → write_tsv (c ∷ cols) rows ≡ ok text
      → read_tsv is_blank (some text) ≡ ok (map (projected (c ∷ cols)) rows)
  unfolding read_tsv write_tsv read_lines
  read_tsv-write_tsv c cols rows text safe shown h =
      let wrote =
        >>=-eq-ok (write_rows (c ∷ cols) rows) (λ rest. ok (join tab (c ∷ cols) ++ newline ∷ rest))
          h in
      let below = write_rows-unlines (c ∷ cols) rows (wrote.0) (wrote.1) in
      let ls : List Text = join tab (c ∷ cols) ∷ rows_lines (c ∷ cols) rows in
      let whole : join tab (c ∷ cols) ++ newline ∷ wrote.0 ≡ text = cc (wrote.2) in
      let is_text : text ≡ unlines ls =
        sym whole ∙ unfold unlines in ap (λ t. join tab (c ∷ cols) ++ newline ∷ t) (below.0) in
      let head_safe : All Safe (c ∷ cols) = any_unsafe-Safe (c ∷ cols) safe in
      let its_lines : lines (unlines ls) ≡ ls =
        lines-unlines ls
          (
            has_char-join newline tab (c ∷ cols) refl
                (All-weaken (c ∷ cols) (λ v s. s.2) head_safe),
            row_line_Free newline (c ∷ cols) rows refl (λ v s. s.2) (below.1),
          )
          (
            has_char-join carriage_return tab (c ∷ cols) refl
                (All-weaken (c ∷ cols) (λ v s. s.1) head_safe),
            row_line_Free carriage_return (c ∷ cols) rows refl (λ v s. s.1) (below.1),
          ) in
      let head : split_on tab (join tab (c ∷ cols)) ≡ c ∷ cols =
        split_on-join tab c cols (All-weaken (c ∷ cols) (λ v s. s.0) head_safe) in
      rw (is_text, its_lines, head) (read_rows-write c cols rows (below.1) shown)
