-- ===== src/Cache/Merge/Tests.antt =====
-- Examples of merges. The digest of a payload is here the payload.
use ascension_preservation.Common.{ℕ, ◌≡◌, refl, ◌++◌, List, [], ◌∷◌, ok}
use ascension_preservation.Common.Assoc.{find, store}
use ascension_preservation.Common.Bytes.{Bytes, pack, eq_bytes}
use ascension_preservation.Common.Texts.{text_leb, earlier, later}
use ascension_preservation.Cache.Merge.{
  Row, CacheStore, has_mode, has_src, add_mode, add_src, record_bytes, touch, new_row, merge_found,
  merge_record, merge_records,
}
use ascension_preservation.Cache.Merge.Stored.{IsStored, merge_records-IsStored}
use ascension_preservation.Cache.Merge.Twice.{merge_records_twice}

abbrev digest : Bytes → Bytes
digest b = b

abbrev row : ℕ → Row
row offset = record {
  size = 1;
  offset = offset;
  modes = (6 ∷ []) ∷ [];
  srcs = 2 ∷ [];
  first_captured = 5 ∷ [];
  last_captured = 5 ∷ [];
}

-- The second record is there already, from a source of another mode.
abbrev before : CacheStore
before = record {
  index =
      (
        (7, 9 ∷ []),
        record (row 0) {
          modes = (8 ∷ []) ∷ [];
          srcs = 1 ∷ [];
          last_captured = 4 ∷ [];
          first_captured = 4 ∷ [];
        },
      )
      ∷ [];
  packed = 7 ∷ 0 ∷ 0 ∷ 0 ∷ 1 ∷ 0 ∷ 0 ∷ 0 ∷ 9 ∷ [];
}

abbrev recs : List (ℕ × Bytes)
recs = (3, 4 ∷ []) ∷ (7, 9 ∷ []) ∷ []

abbrev after : CacheStore
after = record {
  index =
      (
        (7, 9 ∷ []),
        record (row 0) {
          modes = (8 ∷ []) ∷ (6 ∷ []) ∷ [];
          srcs = 1 ∷ 2 ∷ [];
          last_captured = 5 ∷ [];
          first_captured = 4 ∷ [];
        },
      )
      ∷ ((3, 4 ∷ []), row 9)
      ∷ [];
  packed = before.packed ++ 3 ∷ 0 ∷ 0 ∷ 0 ∷ 1 ∷ 0 ∷ 0 ∷ 0 ∷ 4 ∷ [];
}

merged : merge_records digest (6 ∷ []) 2 (5 ∷ []) recs before ≡ ok after
unfolding merge_records merge_record merge_found record_bytes pack find store touch new_row add_mode
    add_src has_mode has_src earlier later text_leb eq_bytes
merged = refl

abbrev empty : CacheStore
empty = record { index = []; packed = [] }

merged_before : merge_records digest (8 ∷ []) 1 (4 ∷ []) ((7, 9 ∷ []) ∷ []) empty ≡ ok before
unfolding merge_records merge_record merge_found record_bytes pack find store touch new_row add_mode
    add_src has_mode has_src earlier later text_leb eq_bytes
merged_before = refl

empty-IsStored : IsStored digest empty
unfolding IsStored find
empty-IsStored k r e = cc e

before-IsStored : IsStored digest before
before-IsStored =
    (merge_records-IsStored digest (8 ∷ []) 1 (4 ∷ []) ((7, 9 ∷ []) ∷ []) empty before
      empty-IsStored merged_before).0

merge_records-IsStored_example :
    IsStored digest after × (more : Bytes) × (after.packed ≡ before.packed ++ more)
merge_records-IsStored_example =
    merge_records-IsStored digest (6 ∷ []) 2 (5 ∷ []) recs before after before-IsStored merged

merge_records_twice_example : merge_records digest (6 ∷ []) 2 (5 ∷ []) recs after ≡ ok after
merge_records_twice_example =
    merge_records_twice digest (6 ∷ []) 2 (5 ∷ []) recs before after merged
