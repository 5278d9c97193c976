-- ===== src/Cache/Merge/Twice.antt =====
-- A source that is merged again.
use mathlib.Core.Path.{subst}
use ascension_preservation.Common.{
  ℕ, ◌≡◌, refl, sym, ap, ◌∙◌, true, false, Bool-cases, inl, inr, Option, none, some, List, [], ◌∷◌,
  ◌++◌, All, length, ◌==◌, ==_iff, if◌then◌else◌, ok,
}
use ascension_preservation.Common.Assoc.{find, store, find-store, store-find}
use ascension_preservation.Common.Bytes.{Bytes, eq_bytes, eq_bytes_iff}
use ascension_preservation.Common.Returns.{Returns, Returns-bind, Returns-weaken, Returns-Any, Any}
use ascension_preservation.Common.Texts.{Text, text_leb, text_refl, earlier, later}
use ascension_preservation.Cache.Merge.{
  Key, same_key, Row, CacheStore, has_mode, has_src, add_mode, add_src, record_bytes, touch,
  new_row, merge_found, merge_record, merge_records,
}
use ascension_preservation.Cache.Merge.Stored.{same_key_iff}

eq_bytes_self : (t : Text) → eq_bytes t t ≡ true
eq_bytes_self t = (eq_bytes_iff t t).1 refl

has_mode-append : (t : Text) (us : List Text) → has_mode t (us ++ t ∷ []) ≡ true
unfolding has_mode
has_mode-append t [] = rw (eq_bytes_self t) refl
has_mode-append t (u ∷ us) = elim (Bool-cases (eq_bytes u t)) [
  | inl e ↦ rw e refl
  | inr e ↦ rw (e, has_mode-append t us) refl
]

has_src-append : (i : ℕ) (js : List ℕ) → has_src i (js ++ i ∷ []) ≡ true
unfolding has_src
has_src-append i [] = rw ((==_iff i i).1 refl) refl
has_src-append i (j ∷ js) = elim (Bool-cases (j == i)) [
  | inl e ↦ rw e refl
  | inr e ↦ rw (e, has_src-append i js) refl
]

add_mode_again : (t : Text) (us : List Text) → add_mode t (add_mode t us) ≡ add_mode t us
unfolding add_mode
add_mode_again t us = elim (Bool-cases (has_mode t us)) [
  | inl e ↦ rw (e, e) refl
  | inr e ↦ rw (e, has_mode-append t us) refl
]

add_src_again : (i : ℕ) (js : List ℕ) → add_src i (add_src i js) ≡ add_src i js
unfolding add_src
add_src_again i js = elim (Bool-cases (has_src i js)) [
  | inl e ↦ rw (e, e) refl
  | inr e ↦ rw (e, has_src-append i js) refl
]

earlier_again : (s t : Text) → earlier (earlier s t) t ≡ earlier s t
unfolding earlier
earlier_again s t = elim (Bool-cases (text_leb s t)) [
  | inl e ↦ rw (e, e) refl
  | inr e ↦ rw (e, text_refl t) refl
]

later_again : (s t : Text) → later (later s t) t ≡ later s t
unfolding later
later_again s t = elim (Bool-cases (text_leb s t)) [
  | inl e ↦ rw (e, text_refl t) refl
  | inr e ↦ rw (e, e) refl
]

module _ (sha1 : Bytes → Bytes) (slug : Text) (id : ℕ) (captured : Text) where
  touch_again :
      (r : Row)
      → touch sha1 slug id captured (touch sha1 slug id captured r) ≡ touch sha1 slug id captured r
  unfolding touch
  touch_again r =
      rw
        (
          add_mode_again slug r.modes,
          add_src_again id r.srcs,
          earlier_again r.first_captured captured,
          later_again r.last_captured captured,
        )
        refl

  -- The row of the key has nothing to learn from the source.
  Covered : CacheStore → Key → Type 0
  Covered st k =
      (r : Row) × (find same_key k st.index ≡ some r) × (touch sha1 slug id captured r ≡ r)

  -- What a record does to the index.
  Stores : CacheStore → Key → CacheStore → Type 0
  Stores st k st' =
      (r : Row) × (st'.index ≡ store same_key k (touch sha1 slug id captured r) st.index)

  merge_found-Stores :
      (o : Option Row) (entry : ℕ) (payload : Bytes) (st : CacheStore)
      → Returns
          (Stores st (entry, sha1 payload))
          (merge_found sha1 slug id captured o entry payload st)
  unfolding merge_found Stores
  merge_found-Stores (some r) entry payload st = (r, refl)
  merge_found-Stores none entry payload st =
      Returns-bind Any (Stores st (entry, sha1 payload)) (record_bytes entry payload)
        (λ b. ok record {
          index =
              store same_key (entry, sha1 payload)
                (touch sha1 slug id captured
                  (new_row sha1 slug id captured (length payload) (length st.packed)))
                st.index;
          packed = st.packed ++ b;
        })
        (Returns-Any (record_bytes entry payload))
        (λ b any. (new_row sha1 slug id captured (length payload) (length st.packed), refl))

  Stores-Covered :
      (st st' : CacheStore) (k j : Key)
      → Stores st k st'
      → (same_key k j ≡ false → Covered st j)
      → Covered st' j
  unfolding Stores Covered
  Stores-Covered st st' k j h other =
      let found : find same_key j st'.index ≡ (
          if same_key k j
          then some (touch sha1 slug id captured (h.0))
          else find same_key j st.index) =
        ap (find same_key j) (h.1)
        ∙ find-store same_key same_key_iff k j (touch sha1 slug id captured (h.0)) st.index in
      elim (Bool-cases (same_key k j)) [
        | inl e ↦ (touch sha1 slug id captured (h.0), rw e at found, touch_again (h.0))
        | inr e ↦ let c = other e in (c.0, (rw e at found) ∙ c.1, c.2)
      ]

  -- The source's records are covered, and so is what was covered before.
  Covers : List (ℕ × Bytes) → CacheStore → CacheStore → Type 0
  Covers recs st st' =
      All (λ (rec : ℕ × Bytes). Covered st' (rec.0, sha1 (rec.1))) recs
      × ((k : Key) → Covered st k → Covered st' k)

  merge_records-Covers :
      (recs : List (ℕ × Bytes)) (st : CacheStore)
      → Returns (Covers recs st) (merge_records sha1 slug id captured recs st)
  unfolding merge_records merge_record Covers
  merge_records-Covers [] st = (tt, λ k c. c)
  merge_records-Covers ((entry, payload) ∷ recs) st =
      let key : Key = (entry, sha1 payload) in
      Returns-bind (Stores st key) (Covers ((entry, payload) ∷ recs) st)
        (merge_record sha1 slug id captured entry payload st)
        (merge_records sha1 slug id captured recs)
        (merge_found-Stores (find same_key key st.index) entry payload st)
        (λ mid first.
          Returns-weaken (Covers recs mid) (Covers ((entry, payload) ∷ recs) st)
            (merge_records sha1 slug id captured recs mid) (merge_records-Covers recs mid)
            (λ end rest. (
              (
                rest.1 key (
                    Stores-Covered st mid key key first
                      (λ e. cc (sym ((same_key_iff key key).1 refl) ∙ e))),
                rest.0,
              ),
              λ k c. rest.1 k (Stores-Covered st mid key k first (λ e. c)),
            )))

  merge_records-Covered :
      (recs : List (ℕ × Bytes)) (st : CacheStore)
      → All (λ (rec : ℕ × Bytes). Covered st (rec.0, sha1 (rec.1))) recs
      → merge_records sha1 slug id captured recs st ≡ ok st
  unfolding merge_records merge_record merge_found Covered
  merge_records-Covered [] st h = refl
  merge_records-Covered ((entry, payload) ∷ recs) st (c, rest) =
      let unchanged : store same_key (entry, sha1 payload) (touch sha1 slug id captured (c.0))
            st.index
          ≡ st.index =
        rw (c.2) (store-find same_key same_key_iff (entry, sha1 payload) (c.0) st.index (c.1)) in
      rw (c.1, unchanged) (merge_records-Covered recs st rest)

  -- Merging the records of a source a second time, right after the first, leaves the store as it is: no record is
  -- written, no mode, source or date changes, and the order of the index stays.
  pub merge_records_twice :
      (recs : List (ℕ × Bytes)) (st st' : CacheStore)
      → merge_records sha1 slug id captured recs st ≡ ok st'
      → merge_records sha1 slug id captured recs st' ≡ ok st'
  unfolding Covers
  merge_records_twice recs st st' e =
      let covers : Covers recs st st' =
        subst (Returns (Covers recs st)) e (merge_records-Covers recs st) in
      merge_records-Covered recs st' (covers.0)
