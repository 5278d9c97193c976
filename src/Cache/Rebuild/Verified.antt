-- ===== src/Cache/Rebuild/Verified.antt =====
-- What `build_wdb` writes passes `verify`, and what passes `verify` holds the winners.
use ascension_preservation.Common.{
  ℕ, ◌^◌, ◌≤◌, ◌<◌, ◌≡◌, refl, ap, sym, ◌∙◌, true, false, ◌&&◌, some, List, [], ◌∷◌, ◌++◌, length,
  map, length-map, ◌==◌, arith, Bool-cases, Option-cases, inl, inr, All, ==_iff, ok,
}
use ascension_preservation.Common.Bytes.{Bytes, pack-eq-ok, eq_bytes, eq_bytes_iff}
use ascension_preservation.Cache.Wdb.{Record, iter_records, inspect, max_size}
use ascension_preservation.Cache.Wdb.Count.{inspect_counts}
use ascension_preservation.Cache.Wdb.File.{IsDonor, iter_records-file, inspect-file}
use ascension_preservation.Cache.Wdb.Layout.{IsRecord, encode_record, encode, terminator}
use ascension_preservation.Cache.Rebuild.{
  Winners, pack_all, build_wdb, compare_records, verify, verified,
}
use ascension_preservation.Common.Dict.{get, sort}
use ascension_preservation.Common.Dict.Sorted.{Distinct, length-sort, All-sort, All-Found}

-- A winner that the format can hold: its entry has 32 bits, its payload is no larger than the
-- walk accepts, and the two are not the zero terminator.
pub record Fits (w : ℕ × Bytes) : Type 0 where
  pub entry_lt : w.0 < 2 ^ 32
  pub size_le : length w.1 ≤ max_size
  pub nonzero : (w.0 == 0 && length w.1 == 0) ≡ false

abbrev pub to_record : ℕ × Bytes → Record
to_record w = record { entry = w.0; size = length w.1; payload = w.1 }

All-IsRecord : (ws : Winners) → All Fits ws → All IsRecord (map to_record ws)
All-IsRecord [] h = tt
All-IsRecord (w ∷ ws) (f, h) = (
  record { size_is = refl; entry_lt = f.entry_lt; size_le = f.size_le; nonzero = f.nonzero },
  All-IsRecord ws h,
)

pack_all-encode : (ws : Winners) → All Fits ws → pack_all ws ≡ ok (encode (map to_record ws))
unfolding pack_all encode encode_record
pack_all-encode [] h = refl
pack_all-encode ((e, p) ∷ ws) (f, h) = rw (
  pack-eq-ok 4 e f.entry_lt,
  pack-eq-ok 4 (length p) (omega (arith, f.size_le)),
  pack_all-encode ws h,
)

compare_records-verified :
    (winners ws : Winners)
    → All (λ w. get w.0 winners ≡ some w.1) ws
    → compare_records winners (map to_record ws) ≡ verified
unfolding compare_records
compare_records-verified winners [] h = refl
compare_records-verified winners ((e, p) ∷ ws) (found, h) =
    rw (found, (eq_bytes_iff p p).1 refl, compare_records-verified winners ws h)

module _ (header : Bytes) (donor : IsDonor header) (winners : Winners) (fits : All Fits winners)
    (distinct : Distinct winners) where
  abbrev sorted : List Record
  sorted = map to_record (sort winners)

  abbrev file : Bytes
  file = header ++ (encode sorted ++ terminator)

  build_wdb-eq : build_wdb header winners ≡ ok file
  unfolding build_wdb
  build_wdb-eq = rw (pack_all-encode (sort winners) (All-sort Fits winners fits))

  valid : All IsRecord sorted
  valid = All-IsRecord (sort winners) (All-sort Fits winners fits)

  read_back : iter_records file ≡ sorted
  read_back = iter_records-file header donor sorted valid

  counted : (inspect file).records ≡ length winners
  counted =
      (inspect_counts file (inspect-file header donor sorted valid).0).0
      ∙ ap length read_back
      ∙ length-map to_record (sort winners)
      ∙ length-sort winners

  pub verify-file :
      verify (header ++ (encode (map to_record (sort winners)) ++ terminator)) winners ≡ verified
  unfolding verify
  verify-file =
      let (standard, clean) = inspect-file header donor sorted valid in
      let same : (length winners == length winners) ≡ true = ground arith in
      rw (standard, counted, same, clean, read_back)
        (compare_records-verified winners (sort winners)
          (All-sort (λ w. get w.0 winners ≡ some w.1) winners (All-Found winners distinct)))

  -- For any donor header and any winners that the format can hold, `build_wdb` does not raise; the
  -- file that it writes passes `verify`; and reading it back yields the winners in the order of
  -- their entries, each with its own payload.
  pub verify-build_wdb :
      (file : Bytes) × (build_wdb header winners ≡ ok file)
      × (verify file winners ≡ verified)
      × (iter_records file ≡ map to_record (sort winners))
  verify-build_wdb = (file, build_wdb-eq, verify-file, read_back)

-- A record list that compares as verified holds nothing but winners.
compare_records_sound :
    (winners : Winners) (rs : List Record)
    → compare_records winners rs ≡ verified
    → All (λ r. get r.entry winners ≡ some r.payload) rs
unfolding compare_records
compare_records_sound winners [] h = tt
compare_records_sound winners (r ∷ rs) h = elim (Option-cases (get r.entry winners)) [
  | inl missing ↦ cc (rw missing at h)
  | inr (want, found) ↦ elim (Bool-cases (eq_bytes want r.payload)) [
    | inl same ↦ (
      found ∙ ap some ((eq_bytes_iff want r.payload).0 same),
      compare_records_sound winners rs (rw (found, same) at h),
    )
    | inr other ↦ cc (rw (found, other) at h)
  ]
]

-- A file that passes `verify` yields as many records as there are winners, and each record's
-- payload is what the winners have for its entry.
pub verify_sound :
    (b : Bytes) (winners : Winners)
    → verify b winners ≡ verified
    → (length (iter_records b) ≡ length winners)
      × All (λ r. get r.entry winners ≡ some r.payload) (iter_records b)
unfolding verify
verify_sound b winners h = elim (Bool-cases (inspect b).standard) [
  | inr odd ↦ cc (rw odd at h)
  | inl standard ↦ elim (Bool-cases ((inspect b).records == length winners)) [
    | inr fewer ↦ cc (rw (standard, fewer) at h)
    | inl as_many ↦ elim (Bool-cases (inspect b).clean_end) [
      | inr cut ↦ cc (rw (standard, as_many, cut) at h)
      | inl clean ↦ (
        sym (inspect_counts b standard).0 ∙ (==_iff _ _).0 as_many,
        compare_records_sound winners (iter_records b) (rw (standard, as_many, clean) at h),
      )
    ]
  ]
]
