-- ===== src/Cache/Wdb/Count.antt =====
-- `inspect` and `iter_records` walk a file alike, and the fuel of both loops is enough.
use ascension_preservation.Common.{
  ℕ, zero, suc, ◌+◌, ◌-◌, ◌≤◌, ◌<◌, ◌≡◌, ◌⊎◌, true, ◌&&◌, Option, some, none, List, [], ◌∷◌, length,
  take, drop, ltb, leb, ◌==◌, arith, Bool-cases, inl, inr,
}
use ascension_preservation.Common.Bytes.{Bytes}
use ascension_preservation.Cache.Wdb.{
  Record, iter_loop, iter_records, scan_loop, inspect_header, inspect, header_len, entry_at,
  size_at, is_malformed, header_fields, find_magic, WdbInfo, CacheKind, Header, magics,
}

abbrev pub total : List Record → ℕ
total [] = 0
total (r ∷ rs) = r.size + total rs

-- More fuel than bytes left changes nothing.
pub iter_loop_fuel :
    (f g n off : ℕ) (rest : Bytes)
    → n - off < f
    → n - off < g
    → iter_loop f n off rest ≡ iter_loop g n off rest
unfolding iter_loop
iter_loop_fuel zero g n off rest hf hg = absurd (omega arith)
iter_loop_fuel (suc f) zero n off rest hf hg = absurd (omega arith)
iter_loop_fuel (suc f) (suc g) n off rest hf hg =
    let next = off + 8 + size_at rest in
    elim (Bool-cases (ltb n (off + 8))) [
      | inl e ↦ rw e
      | inr e ↦ elim (Bool-cases (is_malformed n off (size_at rest))) [
        | inl m ↦ rw (e, m)
        | inr m ↦ rw (
          e,
          m,
          iter_loop_fuel f g n next (drop (size_at rest) (drop 8 rest)) (ground arith)
              (ground arith),
        )
      ]
    ]

-- One round of the walk: it stops, or it yields the record at the front and goes on behind it.
pub iter_loop_cases :
    (f n off : ℕ) (b : Bytes)
    → (iter_loop (suc f) n off b ≡ [])
      ⊎ ((off + 8 + size_at b ≤ n)
          × (iter_loop (suc f) n off b
              ≡ record {
                entry = entry_at b;
                size = size_at b;
                payload = take (size_at b) (drop 8 b);
              }
                ∷ iter_loop f n (off + 8 + size_at b) (drop (size_at b) (drop 8 b))))
unfolding iter_loop
iter_loop_cases f n off b = elim (Bool-cases (ltb n (off + 8))) [
  | inl short ↦ inl (rw short)
  | inr room ↦ elim (Bool-cases (entry_at b == 0 && size_at b == 0)) [
    | inl last ↦ inl (rw (room, last))
    | inr more ↦ elim (Bool-cases (is_malformed n off (size_at b))) [
      | inl bad ↦ inl (rw (room, more, bad))
      | inr good ↦ inr (ground arith, rw (room, more, good))
    ]
  ]
]

-- The scan counts the records that `iter_records` yields, and their payload bytes.
pub scan_loop-iter_loop :
    (f n off : ℕ) (rest : Bytes) (recs pay : ℕ)
    → ((scan_loop f n off rest recs pay).records ≡ recs + length (iter_loop f n off rest))
      × ((scan_loop f n off rest recs pay).payload_bytes ≡ pay + total (iter_loop f n off rest))
unfolding scan_loop iter_loop
scan_loop-iter_loop zero n off rest recs pay = omega arith
scan_loop-iter_loop (suc f) n off rest recs pay = ground (
  arith,
  scan_loop-iter_loop f n (off + 8 + size_at rest) (drop (size_at rest) (drop 8 rest)) (recs + 1)
      (pay + size_at rest),
)

-- The walk from the end of the header, with either fuel.
abbrev records_of : Bytes → List Record
records_of b = iter_loop (suc (length b)) (length b) header_len (drop header_len b)

iter_records-eq : (b : Bytes) → 0 < length b → iter_records b ≡ records_of b
unfolding iter_records
iter_records-eq b h =
    iter_loop_fuel (length b) (suc (length b)) (length b) header_len (drop header_len b)
      (omega arith) (omega arith)

Counts : Bytes → WdbInfo → Type 0
Counts b info = (info.records ≡ length (records_of b)) × (info.payload_bytes ≡ total (records_of b))

inspect_header-Counts :
    (b : Bytes) (h : Header) (known : Option CacheKind)
    → (inspect_header b h known).standard ≡ true
    → Counts b (inspect_header b h known)
unfolding inspect_header Counts
inspect_header-Counts b h none e = cc
inspect_header-Counts b h (some kind) e =
    let counted =
      scan_loop-iter_loop (suc (length b)) (length b) header_len (drop header_len b) 0 0 in
    elim (Bool-cases (leb 1000 h.build && leb h.build 60000)) [
      | inl plausible ↦ rw plausible (omega (arith, counted.0), omega (arith, counted.1))
      | inr odd ↦ cc (rw odd at e)
    ]

-- Where `inspect` reports a standard cache, its record count and payload total are those of the
-- records that `iter_records` yields.
pub inspect_counts :
    (b : Bytes)
    → (inspect b).standard ≡ true
    → ((inspect b).records ≡ length (iter_records b))
      × ((inspect b).payload_bytes ≡ total (iter_records b))
unfolding inspect Counts
inspect_counts b h = elim (Bool-cases (ltb (length b) 12)) [
  | inl tiny ↦ cc (rw tiny at h)
  | inr large ↦
      rw (large, iter_records-eq b (ground arith))
        (inspect_header-Counts b (header_fields b) (find_magic (header_fields b).magic magics)
          (rw large at h))
]
