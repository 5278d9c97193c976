-- ===== src/Coa/Essence.antt =====
-- `Essence` and `smsg_ca_essence_budget`. A row of the table is its columns 0 to 8; the curve of a family is
-- computed anew where the program keeps it.
pub mod Budget
use ascension_preservation.Common.{
  ℕ, ◌+◌, ◌*◌, ◌/◌, ◌%◌, Bool, true, false, ◌&&◌, Option, none, some, List, [], ◌∷◌, ◌++◌, ltb,
  ◌==◌, if◌then◌else◌, Result, ok, err, ◌>>=◌,
}
use ascension_preservation.Common.Bytes.{Bytes, pack}
use ascension_preservation.Common.Dict.{Dict, get, put, get_default}

pub record Row : Type 0 where
  pub row_id : ℕ
  pub level : ℕ
  pub family : ℕ
  pub combo0 : ℕ
  pub combo1 : ℕ
  pub combo2 : ℕ
  pub combo3 : ℕ
  pub ability : ℕ
  pub talent : ℕ

-- The row is of the family and has no match flag.
unfoldable pub on_curve : ℕ → Row → Bool
on_curve family r =
    r.family == family && (r.combo0 == 0 && (r.combo1 == 0 && (r.combo2 == 0 && r.combo3 == 0)))

unfoldable pub curve_from : ℕ → List Row → Dict (ℕ × ℕ) → Dict (ℕ × ℕ)
curve_from family [] c = c
curve_from family (r ∷ rows) c =
    curve_from family rows (if on_curve family r then put r.level (r.ability, r.talent) c else c)

unfoldable pub curve : ℕ → List Row → Dict (ℕ × ℕ)
curve family rows = curve_from family rows []

-- `min(c)` and `max(c)` of a dictionary with the first key `k`.
unfoldable pub lowest_key : ℕ → Dict (ℕ × ℕ) → ℕ
lowest_key k [] = k
lowest_key k ((j, v) ∷ c) = lowest_key (if ltb j k then j else k) c

unfoldable pub highest_key : ℕ → Dict (ℕ × ℕ) → ℕ
highest_key k [] = k
highest_key k ((j, v) ∷ c) = highest_key (if ltb k j then j else k) c

unfoldable pub clamped : ℕ → ℕ → Dict (ℕ × ℕ) → ℕ
clamped level k c = if ltb (highest_key k c) level then highest_key k c else lowest_key k c

-- The look-up in the end cannot miss, so its default is never taken.
unfoldable pub at_level : ℕ → Dict (ℕ × ℕ) → Option (ℕ × ℕ) → ℕ × ℕ
at_level level c (some v) = v
at_level level [] none = (0, 0)
at_level level ((k, v) ∷ c) none = get_default (get (clamped level k c) ((k, v) ∷ c)) (0, 0)

unfoldable pub budget : ℕ → ℕ → List Row → ℕ × ℕ
budget family level rows = at_level level (curve family rows) (get level (curve family rows))

unfoldable pub rows_for : ℕ → List Row → List Row
rows_for family [] = []
rows_for family (r ∷ rows) =
    let rest = rows_for family rows in if r.family == family then r ∷ rest else rest

unfoldable pub pack_words : List ℕ → Result Bytes
pack_words [] = ok []
pack_words (v ∷ vs) = do b ← pack 4 v; bs ← pack_words vs; ok (b ++ bs)

-- `struct.pack("<9I", ...)`, with the four low bits of `combo` apart.
unfoldable pub smsg_ca_essence_budget : ℕ → ℕ → ℕ → ℕ → ℕ → ℕ → Result Bytes
smsg_ca_essence_budget row_id level family ability talent combo = pack_words (
    row_id
    ∷ level
    ∷ family
    ∷ combo % 2
    ∷ combo / 2 % 2
    ∷ combo / 4 % 2
    ∷ combo / 8 % 2
    ∷ ability
    ∷ talent
    ∷ [])
