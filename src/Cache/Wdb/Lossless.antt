-- ===== src/Cache/Wdb/Lossless.antt =====
-- Nothing is invented: the records that the walk yields, written out again, are the bytes it walked.
use ascension_preservation.Common.{
  ℕ, zero, suc, ◌+◌, ◌≤◌, ◌≡◌, refl, ap, ap₂, drop-drop, All-take, All-drop, ◌∙◌, ◌++◌, length,
  take, drop, arith, inl, inr, All, append_assoc, take-append-drop, length-drop, length-take,
}
use ascension_preservation.Common.Bytes.{Bytes, IsByte, le, le-un_le}
use ascension_preservation.Cache.Wdb.{iter_loop, iter_records, header_len, entry_at, size_at}
use ascension_preservation.Cache.Wdb.Count.{iter_loop_cases}
use ascension_preservation.Cache.Wdb.Layout.{encode_record, encode}

encode_record_of :
    (e : ℕ) (p x y : Bytes) → le 4 e ≡ x → le 4 (length p) ≡ y → encode_record e p ≡ x ++ (y ++ p)
unfolding encode_record
encode_record_of e p x y ex ey = ap₂ (λ u v. u ++ (v ++ p)) ex ey

-- The two numbers and the payload at the front of `b` are the bytes at its front.
front :
    (b : Bytes)
    → All IsByte b
    → 8 ≤ length b
    → size_at b ≤ length (drop 8 b)
    → encode_record (entry_at b) (take (size_at b) (drop 8 b)) ++ drop (size_at b) (drop 8 b) ≡ b
front b h long fits =
    let size : Bytes = take 4 (drop 4 b) in
    let entry : le 4 (entry_at b) ≡ take 4 b =
      le-un_le 4 (take 4 b) (omega (arith, length-take 4 b)) (All-take IsByte 4 b h) in
    let counted : length (take (size_at b) (drop 8 b)) ≡ size_at b =
      omega (arith, length-take (size_at b) (drop 8 b)) in
    let sized : le 4 (size_at b) ≡ size =
      le-un_le 4 size (omega (arith, length-take 4 (drop 4 b), length-drop 4 b))
        (All-take IsByte 4 (drop 4 b) (All-drop IsByte 4 b h)) in
    let body : Bytes = take (size_at b) (drop 8 b) in
    rw (
      encode_record_of (entry_at b) body (take 4 b) size entry (ap (le 4) counted ∙ sized),
      append_assoc,
      append_assoc,
      take-append-drop (size_at b) (drop 8 b),
      ← drop-drop 4 4 8 b refl,
      take-append-drop 4 (drop 4 b),
      take-append-drop 4 b,
    )

-- The records that the walk yields, encoded, are a prefix of the bytes.
iter_loop-lossless :
    (f n off : ℕ) (b : Bytes)
    → All IsByte b
    → n ≡ off + length b
    → (tail : Bytes) × (encode (iter_loop f n off b) ++ tail ≡ b)
unfolding encode
iter_loop-lossless zero n off b h e = (b, unfold iter_loop in refl)
iter_loop-lossless (suc f) n off b h e = elim (iter_loop_cases f n off b) [
  | inl stops ↦ (b, rw stops)
  | inr (fits, goes) ↦
      let rest : Bytes = drop (size_at b) (drop 8 b) in
      let (tail, eq) =
        iter_loop-lossless f n (off + 8 + size_at b) rest
          (All-drop IsByte (size_at b) (drop 8 b) (All-drop IsByte 8 b h))
          (omega (arith, length-drop 8 b, length-drop (size_at b) (drop 8 b))) in
      (tail, rw (goes, append_assoc, eq) (front b h (omega arith) (omega (arith, length-drop 8 b))))
]

-- Whatever the file holds after its header, the records that `iter_records` yields, written out
-- again as entry, size and payload, are a prefix of it.
pub iter_records-lossless :
    (b : Bytes)
    → All IsByte b
    → header_len ≤ length b
    → (tail : Bytes) × (encode (iter_records b) ++ tail ≡ drop header_len b)
unfolding iter_records
iter_records-lossless b h long =
    iter_loop-lossless (length b) (length b) header_len (drop header_len b)
      (All-drop IsByte header_len b h) (omega (arith, length-drop header_len b))
