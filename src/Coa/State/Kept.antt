-- ===== src/Coa/State/Kept.antt =====
-- What is set is found, and nothing else changes.
use ascension_preservation.Common.{
  ℕ, false, Option, none, some, List, [], ◌∷◌, ◌≡◌, refl, ◌∙◌, if◌then◌else◌, Bool-cases, inl, inr,
}
use ascension_preservation.Common.Bytes.{Bytes, eq_bytes, eq_bytes_iff}
use ascension_preservation.Coa.State.{
  Saved, Book, CoaState, find, update, flush, some_entries, with_class_byte, with_entries, class_in,
  entries_in, set_class, get_class, set_entries, get_entries,
}

module _ {Record : Type 0} where
  fresh : Option (Saved Record) → Saved Record
  fresh none = record { class = none; entries = none }
  fresh (some e) = e

  find-update :
      (key other : Bytes) (f : Saved Record → Saved Record) (book : Book Record)
      → find other (update key f book)
        ≡ (if eq_bytes key other then some (f (fresh (find key book))) else find other book)
  unfolding find update fresh
  find-update key other f [] = refl
  find-update key other f ((k, e) ∷ book) = elim (Bool-cases (eq_bytes k key)) [
    | inl here ↦ rw here (
        rw ((eq_bytes_iff k key).0 here) (elim (Bool-cases (eq_bytes key other)) [
          | inl same ↦ rw same refl
          | inr differ ↦ rw differ refl
        ]))
    | inr later ↦ elim (Bool-cases (eq_bytes key other)) [
      | inl same ↦
          let equal = (eq_bytes_iff key other).0 same in
          let elsewhere : eq_bytes k other ≡ false = rw equal at later in
          rw (later, elsewhere, find-update key other f book, same) refl
      | inr differ ↦ rw (later, find-update key other f book, differ) refl
    ]
  ]

  entries_kept : (o : Option (Saved Record)) → some_entries ((fresh o).entries) ≡ entries_in o
  unfolding fresh
  entries_kept none = refl
  entries_kept (some e) = refl

  class_kept : (o : Option (Saved Record)) → (fresh o).class ≡ class_in o
  unfolding fresh
  class_kept none = refl
  class_kept (some e) = refl

  module _ (lower : Bytes → Bytes) where
    -- After `set_class` the names with that spelling have the class, every other name keeps its own, the
    -- entries of all names stay, and the file holds what is in memory.
    pub class_is_set :
        (name other : Bytes) (b : ℕ) (s : CoaState Record)
        → (get_class lower other (set_class lower name b s)
            ≡ (if eq_bytes (lower name) (lower other) then some b else get_class lower other s))
          × (get_entries lower other (set_class lower name b s) ≡ get_entries lower other s)
          × ((set_class lower name b s).file ≡ (set_class lower name b s).data_of)
    unfolding get_class set_class get_entries flush with_class_byte
    class_is_set name other b s = elim (Bool-cases (eq_bytes (lower name) (lower other))) [
      | inl same ↦
          let equal = (eq_bytes_iff (lower name) (lower other)).0 same in
          rw (find-update (lower name) (lower other) (with_class_byte b) s.data_of, same)
            (refl, entries_kept (find (lower name) s.data_of) ∙ rw equal refl, refl)
      | inr differ ↦
          rw (find-update (lower name) (lower other) (with_class_byte b) s.data_of, differ)
            (refl, refl, refl)
    ]

    -- After `set_entries` the names with that spelling have those entries, every other name keeps its own,
    -- the classes of all names stay, and the file holds what is in memory.
    pub entries_are_set :
        (name other : Bytes) (rs : List Record) (s : CoaState Record)
        → (get_entries lower other (set_entries lower name rs s)
            ≡ (if eq_bytes (lower name) (lower other) then rs else get_entries lower other s))
          × (get_class lower other (set_entries lower name rs s) ≡ get_class lower other s)
          × ((set_entries lower name rs s).file ≡ (set_entries lower name rs s).data_of)
    unfolding get_class set_entries get_entries flush with_entries
    entries_are_set name other rs s = elim (Bool-cases (eq_bytes (lower name) (lower other))) [
      | inl same ↦
          let equal = (eq_bytes_iff (lower name) (lower other)).0 same in
          rw (find-update (lower name) (lower other) (with_entries rs) s.data_of, same)
            (refl, class_kept (find (lower name) s.data_of) ∙ rw equal refl, refl)
      | inr differ ↦
          rw (find-update (lower name) (lower other) (with_entries rs) s.data_of, differ)
            (refl, refl, refl)
    ]
