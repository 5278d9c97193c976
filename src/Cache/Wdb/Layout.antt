-- ===== src/Cache/Wdb/Layout.antt =====
-- Records and the bytes that they stand for.
use ascension_preservation.Common.{
  ℕ, zero, suc, true, ◌+◌, ◌^◌, ◌≤◌, ◌<◌, ◌≡◌, refl, ap, sym, ◌∙◌, false, ◌&&◌, List, [], ◌∷◌, ◌++◌,
  length, drop, ltb, ◌==◌, arith, All, append_assoc, take-append, drop-append, length-append,
}
use ascension_preservation.Common.Bytes.{Bytes, le, un_le-le}
use ascension_preservation.Cache.Wdb.{
  Record, scan_loop, iter_loop, entry_at, size_at, is_malformed, max_size,
}

-- `[entry u32][size u32][payload]`
unfoldable pub encode_record : ℕ → Bytes → Bytes
encode_record entry payload = le 4 entry ++ (le 4 (length payload) ++ payload)

unfoldable pub encode : List Record → Bytes
encode [] = []
encode (r ∷ rs) = encode_record r.entry r.payload ++ encode rs

-- What the walk accepts as a record: not the zero terminator, and not too large.
pub record IsRecord (r : Record) : Type 0 where
  pub size_is : r.size ≡ length r.payload
  pub entry_lt : r.entry < 2 ^ 32
  pub size_le : length r.payload ≤ max_size
  pub nonzero : (r.entry == 0 && length r.payload == 0) ≡ false

entry_at-encode : (e : ℕ) (p rest : Bytes) → e < 2 ^ 32 → entry_at (encode_record e p ++ rest) ≡ e
unfolding encode_record
entry_at-encode e p rest h = un_le-le 4 e h

size_at-encode :
    (e : ℕ) (p rest : Bytes) → length p < 2 ^ 32 → size_at (encode_record e p ++ rest) ≡ length p
unfolding encode_record
size_at-encode e p rest h = un_le-le 4 (length p) h

drop-encode : (e : ℕ) (p rest : Bytes) → drop 8 (encode_record e p ++ rest) ≡ p ++ rest
unfolding encode_record
drop-encode e p rest = refl

-- One round of the walk on the bytes of a record.
iter_loop-encode_record :
    (f n off : ℕ) (r : Record) (rest : Bytes)
    → IsRecord r
    → off + 8 + length r.payload ≤ n
    → iter_loop (suc f) n off (encode_record r.entry r.payload ++ rest)
      ≡ r ∷ iter_loop f n (off + 8 + length r.payload) rest
unfolding iter_loop
iter_loop-encode_record f n off r rest v fits =
    let room : ltb n (off + 8) ≡ false = ground arith in
    let sound : is_malformed n off (length r.payload) ≡ false = ground (arith, v.size_le) in
    rw
      (
        entry_at-encode r.entry r.payload rest v.entry_lt,
        size_at-encode r.entry r.payload rest (omega (arith, v.size_le)),
        drop-encode r.entry r.payload rest,
        room,
        v.nonzero,
        sound,
        take-append (length r.payload) r.payload rest refl,
        drop-append (length r.payload) r.payload rest refl,
      )
      (ap (λ (z : ℕ). record r { size = z } ∷ iter_loop f n (off + 8 + length r.payload) rest)
        (sym v.size_is))

-- The 8 zero bytes that end a cache.
abbrev pub terminator : Bytes
terminator = 0 ∷ 0 ∷ 0 ∷ 0 ∷ 0 ∷ 0 ∷ 0 ∷ 0 ∷ []

pub length-encode_record : (e : ℕ) (p : Bytes) → length (encode_record e p) ≡ 8 + length p
unfolding encode_record
length-encode_record e p = omega arith

-- The first record of a file leaves room for itself, and the others stand behind it.
room_for :
    (r : Record) (later : Bytes) (n off : ℕ)
    → off + length (encode_record r.entry r.payload ++ later) ≤ n
    → (off + 8 + length r.payload ≤ n) × (off + 8 + length r.payload + length later ≤ n)
room_for r later n off h =
    let whole : length (encode_record r.entry r.payload ++ later)
        ≡ 8 + length r.payload + length later =
      length-append (encode_record r.entry r.payload) later
      ∙ ap (λ (t : ℕ). t + length later) (length-encode_record r.entry r.payload) in
    (omega (arith, whole), omega (arith, whole))

-- The walk over records and a terminator yields the records.
pub iter_loop-encode :
    (rs : List Record) (f n off : ℕ) (rest : Bytes)
    → All IsRecord rs
    → length rs < f
    → off + length (encode rs ++ (terminator ++ rest)) ≤ n
    → iter_loop f n off (encode rs ++ (terminator ++ rest)) ≡ rs
unfolding encode
iter_loop-encode [] zero n off rest v hf fits = unfold iter_loop in refl
iter_loop-encode [] (suc f) n off rest v hf fits = unfold iter_loop in ground arith
iter_loop-encode (r ∷ rs) zero n off rest v hf fits = absurd (omega arith)
iter_loop-encode (r ∷ rs) (suc f) n off rest (v, vs) hf fits =
    let later = encode rs ++ (terminator ++ rest) in
    let split : (encode_record r.entry r.payload ++ encode rs) ++ (terminator ++ rest)
        ≡ encode_record r.entry r.payload ++ later =
      append_assoc (encode_record r.entry r.payload) (encode rs) (terminator ++ rest) in
    let (fits', room) = room_for r later n off (rw split at fits) in
    rw split (
      iter_loop-encode_record f n off r later v fits'
      ∙ ap (◌∷◌ r)
          (iter_loop-encode rs f n (off + 8 + length r.payload) rest vs (omega arith) room))

scan_loop-encode_record :
    (f n off : ℕ) (r : Record) (rest : Bytes) (recs pay : ℕ)
    → IsRecord r
    → off + 8 + length r.payload ≤ n
    → scan_loop (suc f) n off (encode_record r.entry r.payload ++ rest) recs pay
      ≡ scan_loop f n (off + 8 + length r.payload) rest (recs + 1) (pay + length r.payload)
unfolding scan_loop
scan_loop-encode_record f n off r rest recs pay v fits =
    let room : ltb n (off + 8) ≡ false = ground arith in
    let sound : is_malformed n off (length r.payload) ≡ false = ground (arith, v.size_le) in
    rw (
      entry_at-encode r.entry r.payload rest v.entry_lt,
      size_at-encode r.entry r.payload rest (omega (arith, v.size_le)),
      drop-encode r.entry r.payload rest,
      room,
      v.nonzero,
      sound,
      drop-append (length r.payload) r.payload rest refl,
    )

-- The scan of such a file ends cleanly.
pub scan_loop-encode :
    (rs : List Record) (f n off : ℕ) (rest : Bytes) (recs pay : ℕ)
    → All IsRecord rs
    → length rs < f
    → off + length (encode rs ++ (terminator ++ rest)) ≤ n
    → (scan_loop f n off (encode rs ++ (terminator ++ rest)) recs pay).clean ≡ true
unfolding encode
scan_loop-encode [] zero n off rest recs pay v hf fits = absurd (omega arith)
scan_loop-encode [] (suc f) n off rest recs pay v hf fits = unfold scan_loop in ground arith
scan_loop-encode (r ∷ rs) zero n off rest recs pay v hf fits = absurd (omega arith)
scan_loop-encode (r ∷ rs) (suc f) n off rest recs pay (v, vs) hf fits =
    let later = encode rs ++ (terminator ++ rest) in
    let split : (encode_record r.entry r.payload ++ encode rs) ++ (terminator ++ rest)
        ≡ encode_record r.entry r.payload ++ later =
      append_assoc (encode_record r.entry r.payload) (encode rs) (terminator ++ rest) in
    let (fits', room) = room_for r later n off (rw split at fits) in
    rw (split, scan_loop-encode_record f n off r later recs pay v fits')
      (scan_loop-encode rs f n (off + 8 + length r.payload) rest (recs + 1) (pay + length r.payload)
        vs (omega arith) room)
