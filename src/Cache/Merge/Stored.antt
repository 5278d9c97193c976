-- ===== src/Cache/Merge/Stored.antt =====
-- The pack only grows, and each row of the index finds its record in it.
use mathlib.Core.Path.{subst}
use ascension_preservation.Common.{
  ℕ, ◌+◌, ◌≡◌, ◌↔◌, refl, sym, ap, ◌∙◌, true, Bool-cases, inl, inr, Option, none, some, List, [],
  ◌∷◌, ◌++◌, append-nil, append_assoc, length, take, drop, length-append, length-drop,
  drop-append_le, drop-drop, drop-append, take-append, take-append_le, ◌≤◌, if◌then◌else◌, ok,
  ◌>>=◌, arith,
}
use ascension_preservation.Common.Assoc.{find, store, find-store}
use ascension_preservation.Common.Bytes.{Bytes, eq_bytes_iff, length-le, pack}
use ascension_preservation.Common.Packed.{IsPacked, pack-IsPacked}
use ascension_preservation.Common.Returns.{Returns, Returns-bind, Returns-weaken}
use ascension_preservation.Common.Texts.{Text}
use ascension_preservation.Cache.Merge.{
  Key, same_key, Row, CacheStore, payload_at, record_bytes, touch, new_row, merge_found,
  merge_record, merge_records,
}

pub same_key_iff : (j k : Key) → (same_key j k ≡ true) ↔ (j ≡ k)
same_key_iff (e, s) (f, t) = ground (arith, eq_bytes_iff s t)

module _ (sha1 : Bytes → Bytes) where
  -- The row's payload is in the pack, and has the digest of its key.
  abbrev pub IsRow : Bytes → Key → Row → Type 0
  IsRow packed k r = (sha1 (payload_at packed r) ≡ k.1) × (r.offset + 8 + r.size ≤ length packed)

  unfoldable pub IsStored : CacheStore → Type 0
  IsStored st = (k : Key) (r : Row) → find same_key k st.index ≡ some r → IsRow st.packed k r

  -- `st'` is `st` with more records behind its pack.
  Extends : CacheStore → CacheStore → Type 0
  Extends st st' = IsStored st' × (more : Bytes) × (st'.packed ≡ st.packed ++ more)

  payload_at-append :
      (packed more : Bytes) (r : Row)
      → r.offset + 8 + r.size ≤ length packed
      → payload_at (packed ++ more) r ≡ payload_at packed r
  unfolding payload_at
  payload_at-append packed more r h = rw (drop-append_le (r.offset + 8) packed more (omega arith)) (
      take-append_le r.size (drop (r.offset + 8) packed) more
        (omega (arith, length-drop (r.offset + 8) packed)))

  IsRow-append :
      (packed more : Bytes) (k : Key) (r : Row) → IsRow packed k r → IsRow (packed ++ more) k r
  IsRow-append packed more k r h = (
    ap sha1 (payload_at-append packed more r (h.1)) ∙ h.0,
    omega (arith, h.1, length-append packed more),
  )

  -- The record that was just written.
  payload_at-new :
      (packed a b payload : Bytes) (r : Row)
      → length a ≡ 4
      → length b ≡ 4
      → r.size ≡ length payload
      → r.offset ≡ length packed
      → payload_at (packed ++ (a ++ (b ++ payload))) r ≡ payload
  unfolding payload_at
  payload_at-new packed a b payload r ha hb hs ho =
      let behind : drop (r.offset + 8) (packed ++ (a ++ (b ++ payload))) ≡ payload =
        sym (
          drop-drop (length packed) 8 (r.offset + 8) (packed ++ (a ++ (b ++ payload)))
            (omega (arith, ho)))
        ∙ rw (drop-append (length packed) packed (a ++ (b ++ payload)) refl) (
            sym (drop-drop 4 4 8 (a ++ (b ++ payload)) refl)
            ∙ rw (drop-append 4 a (b ++ payload) ha) (drop-append 4 b payload hb)) in
      rw (behind, hs)
        (sym (ap (take (length payload)) (append-nil payload))
          ∙ take-append (length payload) payload [] refl)

  IsStored-store :
      (st : CacheStore) (packed more : Bytes) (k : Key) (r : Row)
      → packed ≡ st.packed ++ more
      → IsStored st
      → IsRow packed k r
      → IsStored (record { index = store same_key k r st.index; packed = packed })
  unfolding IsStored
  IsStored-store st packed more k r grown h here j q e =
      let found : (if same_key k j then some r else find same_key j st.index) ≡ some q =
        sym (find-store same_key same_key_iff k j r st.index) ∙ e in
      elim (Bool-cases (same_key k j)) [
        | inl same ↦
            let row : some r ≡ some q = rw same at found in
            let this : r ≡ q = cc row in
            subst (λ i. IsRow packed i q) ((same_key_iff k j).0 same)
              (subst (IsRow packed k) this here)
        | inr other ↦
            subst (λ p. IsRow p j q) (sym grown)
              (IsRow-append st.packed more j q (h j q (rw other at found)))
      ]

  module _ (slug : Text) (id : ℕ) (captured : Text) where
    touch-IsRow :
        (packed : Bytes) (k : Key) (r : Row)
        → IsRow packed k r
        → IsRow packed k (touch sha1 slug id captured r)
    unfolding touch payload_at
    touch-IsRow packed k r h = h

    new_row-IsRow :
        (packed a b : Bytes) (entry : ℕ) (payload : Bytes)
        → length a ≡ 4
        → length b ≡ 4
        → IsRow
            (packed ++ (a ++ (b ++ payload)))
            (entry, sha1 payload)
            (new_row sha1 slug id captured (length payload) (length packed))
    unfolding new_row
    new_row-IsRow packed a b entry payload ha hb = (
      ap sha1 (
          payload_at-new packed a b payload
            (new_row sha1 slug id captured (length payload) (length packed)) ha hb refl refl),
      omega (
        arith,
        ha,
        hb,
        length-append packed (a ++ (b ++ payload)),
        length-append a (b ++ payload),
        length-append b payload,
      ),
    )

    merge_found-Extends :
        (o : Option Row) (entry : ℕ) (payload : Bytes) (st : CacheStore)
        → find same_key (entry, sha1 payload) st.index ≡ o
        → IsStored st
        → Returns (Extends st) (merge_found sha1 slug id captured o entry payload st)
    unfolding merge_found record_bytes Extends IsStored
    merge_found-Extends (some r) entry payload st e h =
        let k : Key = (entry, sha1 payload) in
        (
          IsStored-store st st.packed [] k (touch sha1 slug id captured r)
              (sym (append-nil st.packed)) h (touch-IsRow st.packed k r (h k r e)),
          [],
          sym (append-nil st.packed),
        )
    merge_found-Extends none entry payload st e h =
        let k : Key = (entry, sha1 payload) in
        let r : Row = new_row sha1 slug id captured (length payload) (length st.packed) in
        Returns-bind (λ b. IsRow (st.packed ++ b) k r) (Extends st) (record_bytes entry payload)
          (λ b. ok record {
            index = store same_key k (touch sha1 slug id captured r) st.index;
            packed = st.packed ++ b;
          })
          (Returns-bind (IsPacked 4 entry) (λ b. IsRow (st.packed ++ b) k r) (pack 4 entry)
            (λ a. pack 4 (length payload) >>= (λ b. ok (a ++ (b ++ payload))))
            (pack-IsPacked 4 entry)
            (λ a ha.
              Returns-bind (IsPacked 4 (length payload)) (λ b. IsRow (st.packed ++ b) k r)
                (pack 4 (length payload)) (λ b. ok (a ++ (b ++ payload)))
                (pack-IsPacked 4 (length payload))
                (λ b hb.
                  new_row-IsRow st.packed a b entry payload (ap length (ha.0) ∙ length-le 4 entry)
                    (ap length (hb.0) ∙ length-le 4 (length payload)))))
          (λ b row. (
            IsStored-store st (st.packed ++ b) b k (touch sha1 slug id captured r) refl h
                (touch-IsRow (st.packed ++ b) k r row),
            b,
            refl,
          ))

    merge_records-Extends :
        (recs : List (ℕ × Bytes)) (st : CacheStore)
        → IsStored st
        → Returns (Extends st) (merge_records sha1 slug id captured recs st)
    unfolding merge_records merge_record Extends IsStored
    merge_records-Extends [] st h = (h, [], sym (append-nil st.packed))
    merge_records-Extends ((entry, payload) ∷ recs) st h =
        Returns-bind (Extends st) (Extends st) (merge_record sha1 slug id captured entry payload st)
          (merge_records sha1 slug id captured recs)
          (merge_found-Extends (find same_key (entry, sha1 payload) st.index) entry payload st refl
            h)
          (λ mid first.
            Returns-weaken (Extends mid) (Extends st) (merge_records sha1 slug id captured recs mid)
              (merge_records-Extends recs mid (first.0))
              (λ end rest. (
                rest.0,
                first.1 ++ rest.1,
                rw (rest.2, first.2) (append_assoc st.packed (first.1) (rest.1)),
              )))

    -- Merging the records of a source keeps every row of the index true to the pack: the row's payload is inside the
    -- pack, and has the digest of its key. The pack itself is not rewritten: the new one is the old one with more
    -- behind it.
    pub merge_records-IsStored :
        (recs : List (ℕ × Bytes)) (st st' : CacheStore)
        → IsStored st
        → merge_records sha1 slug id captured recs st ≡ ok st'
        → IsStored st' × (more : Bytes) × (st'.packed ≡ st.packed ++ more)
    unfolding Extends
    merge_records-IsStored recs st st' h e =
        subst (Returns (Extends st)) e (merge_records-Extends recs st h)
