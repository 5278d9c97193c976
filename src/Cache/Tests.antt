-- ===== src/Cache/Tests.antt =====
-- A cache of two creatures, written, checked and read again.
use ascension_preservation.Common.{
  ◌≡◌, refl, some, List, [], ◌∷◌, ◌++◌, length, arith, All, ok, drop, map,
}
use ascension_preservation.Common.Bytes.{Bytes, eq_bytes}
use ascension_preservation.Common.Dict.{get, sort}
use ascension_preservation.Common.Dict.Sorted.{Distinct}
use ascension_preservation.Cache.Wdb.{
  Record, iter_records, creaturecache, find_magic, header_fields, header_len,
}
use ascension_preservation.Cache.Wdb.Layout.{encode, IsRecord, terminator}
use ascension_preservation.Cache.Wdb.File.{IsDonor}
use ascension_preservation.Cache.Wdb.Lossless.{iter_records-lossless}
use ascension_preservation.Cache.Rebuild.{Winners, build_wdb, verify, verified}
use ascension_preservation.Cache.Rebuild.Verified.{
  Fits, to_record, verify-build_wdb, verify_sound, verify-file,
}

-- "BOMW", build 12340, "SUne" and twelve more bytes.
abbrev donor_header : Bytes
donor_header =
    66 ∷ 79 ∷ 77 ∷ 87 ∷ 52 ∷ 48 ∷ 0 ∷ 0 ∷ 83 ∷ 85 ∷ 110 ∷ 101 ∷ 0 ∷ 0 ∷ 0 ∷ 0 ∷ 0 ∷ 0 ∷ 0 ∷ 0 ∷ 0
    ∷ 0 ∷ 0 ∷ 0 ∷ []

abbrev two_winners : Winners
two_winners = (9, 7 ∷ 8 ∷ []) ∷ (5, 1 ∷ 2 ∷ 3 ∷ []) ∷ []

donor_header-IsDonor : IsDonor donor_header
donor_header-IsDonor = record {
  size = refl;
  kind = creaturecache;
  known = unfold find_magic header_fields eq_bytes in refl;
  build_ge = unfold header_fields in omega arith;
  build_le = unfold header_fields in omega arith;
}

two_winners-Fits : All Fits two_winners
two_winners-Fits = (
  record { entry_lt = omega arith; size_le = omega arith; nonzero = refl },
  (record { entry_lt = omega arith; size_le = omega arith; nonzero = refl }, tt),
)

two_winners-Distinct : Distinct two_winners
two_winners-Distinct = unfold get in (refl, (refl, tt))

-- The file that `build_wdb` makes of them.
abbrev two_records : List Record
two_records = map to_record (sort two_winners)

abbrev two_file : Bytes
two_file = donor_header ++ (encode two_records ++ terminator)

two_records-IsRecord : All IsRecord two_records
two_records-IsRecord =
    unfold sort in
    (
      record { size_is = refl; entry_lt = omega arith; size_le = omega arith; nonzero = refl },
      (
        record { size_is = refl; entry_lt = omega arith; size_le = omega arith; nonzero = refl },
        tt,
      ),
    )

iter_records-lossless_example :
    (tail : Bytes) × (encode (iter_records donor_header) ++ tail ≡ drop header_len donor_header)
iter_records-lossless_example = iter_records-lossless donor_header (omega arith) (omega arith)

verify-build_wdb_example :
    (file : Bytes) × (build_wdb donor_header two_winners ≡ ok file)
    × (verify file two_winners ≡ verified)
    × (iter_records file ≡ map to_record (sort two_winners))
verify-build_wdb_example =
    verify-build_wdb donor_header donor_header-IsDonor two_winners two_winners-Fits
      two_winners-Distinct

verify_sound_example :
    (length (iter_records two_file) ≡ 2)
    × All (λ r. get r.entry two_winners ≡ some r.payload) (iter_records two_file)
verify_sound_example = verify_sound two_file two_winners (
    verify-file donor_header donor_header-IsDonor two_winners two_winners-Fits two_winners-Distinct)
