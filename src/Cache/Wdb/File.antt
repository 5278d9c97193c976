-- ===== src/Cache/Wdb/File.antt =====
-- A whole cache file: a donor's header, records and the terminator.
use ascension_preservation.Common.{
  ℕ, suc, ◌+◌, ◌≤◌, ◌<◌, ◌≡◌, refl, ap, ◌∙◌, true, false, ◌&&◌, some, List, [], ◌∷◌, ◌++◌, length,
  drop, leb, ltb, arith, All, append_assoc, length-append, length-drop, take-append_le,
  drop-append_le, drop-append,
}
use ascension_preservation.Common.Bytes.{Bytes}
use ascension_preservation.Cache.Wdb.{
  Record, iter_records, inspect, inspect_header, header_fields, find_magic, magics, header_len,
  CacheKind,
}
use ascension_preservation.Cache.Wdb.Layout.{
  IsRecord, encode_record, encode, terminator, length-encode_record, iter_loop-encode,
  scan_loop-encode,
}

-- A header that `inspect` takes for a standard one.
pub record IsDonor (header : Bytes) : Type 0 where
  pub size : length header ≡ header_len
  pub kind : CacheKind
  pub known : find_magic (header_fields header).magic magics ≡ some kind
  pub build_ge : 1000 ≤ (header_fields header).build
  pub build_le : (header_fields header).build ≤ 60000

-- The header's fields do not depend on what follows it.
header_fields-append :
    (header rest : Bytes)
    → length header ≡ header_len
    → header_fields (header ++ rest) ≡ header_fields header
unfolding header_fields
header_fields-append header rest h = rw (
  take-append_le 4 header rest (omega arith),
  drop-append_le 4 header rest (omega arith),
  drop-append_le 8 header rest (omega arith),
  take-append_le 4 (drop 4 header) rest (omega (arith, length-drop 4 header)),
  take-append_le 4 (drop 8 header) rest (omega (arith, length-drop 8 header)),
)

length-lt-encode : (rs : List Record) → length rs < length (encode rs ++ terminator)
length-lt-encode [] = unfold encode in omega arith
length-lt-encode (r ∷ rs) = longer (length-lt-encode rs)
  where
    longer :
        length rs < length (encode rs ++ terminator)
        → suc (length rs) < length (encode (r ∷ rs) ++ terminator)
    longer h =
        unfold encode in
        rw append_assoc (
          omega (
            arith,
            length-append (encode_record r.entry r.payload) (encode rs ++ terminator),
            length-encode_record r.entry r.payload,
          ))

module _ (header : Bytes) (donor : IsDonor header) (rs : List Record)
    (valid : All IsRecord rs) where
  abbrev file : Bytes
  file = header ++ (encode rs ++ terminator)

  size_of : length file ≡ 24 + length (encode rs ++ terminator)
  size_of =
      length-append header (encode rs ++ terminator)
      ∙ ap (λ (t : ℕ). t + length (encode rs ++ terminator)) donor.size

  behind : drop header_len file ≡ encode rs ++ terminator
  behind = drop-append header_len header (encode rs ++ terminator) donor.size

  -- Reading such a file yields its records.
  pub iter_records-file : iter_records (header ++ (encode rs ++ terminator)) ≡ rs
  unfolding iter_records
  iter_records-file = rw behind (
      iter_loop-encode rs (length file) (length file) 24 [] valid
        (omega (arith, size_of, length-lt-encode rs)) (omega (arith, size_of)))

  -- `inspect` finds its header standard, and a clean end.
  pub inspect-file :
      ((inspect (header ++ (encode rs ++ terminator))).standard ≡ true)
      × ((inspect (header ++ (encode rs ++ terminator))).clean_end ≡ true)
  unfolding inspect inspect_header
  inspect-file =
      let large : ltb (length file) 12 ≡ false = ground (arith, size_of) in
      let plausible : (leb 1000 (header_fields header).build
            && leb (header_fields header).build 60000)
          ≡ true =
        ground (arith, donor.build_ge, donor.build_le) in
      rw
        (
          large,
          header_fields-append header (encode rs ++ terminator) donor.size,
          donor.known,
          plausible,
          behind,
        )
        (
          refl,
          scan_loop-encode rs (suc (length file)) (length file) 24 [] 0 0 valid
              (omega (arith, size_of, length-lt-encode rs)) (omega (arith, size_of)),
        )
