-- ===== src/Coa/State.antt =====
-- `CoAState`. Its keys are names made lower-case by `lower`; the file holds what `_flush` wrote last.
pub mod Kept
use ascension_preservation.Common.{
  ℕ, Bool, true, false, Option, none, some, List, [], ◌∷◌, ◌≡◌, refl, if◌then◌else◌, Bool-cases,
  inl, inr,
}
use ascension_preservation.Common.Bytes.{Bytes, eq_bytes}

-- `class` and `entries` are absent until they are set.
pub record Saved (Record : Type 0) : Type 0 where
  pub class : Option ℕ
  pub entries : Option (List Record)

abbrev pub Book : Type 0 → Type 0
Book Record = List (Bytes × Saved Record)

pub record CoaState (Record : Type 0) : Type 0 where
  pub data_of : Book Record
  pub file : Book Record

module _ {Record : Type 0} where
  unfoldable pub find : Bytes → Book Record → Option (Saved Record)
  find key [] = none
  find key ((k, e) ∷ book) = let later = find key book in if eq_bytes k key then some e else later

  -- `self.data.setdefault(key, {})`, changed by `f` in place.
  unfoldable pub update : Bytes → (Saved Record → Saved Record) → Book Record → Book Record
  update key f [] = (key, f record { class = none; entries = none }) ∷ []
  update key f ((k, e) ∷ book) =
      let later = update key f book in if eq_bytes k key then (k, f e) ∷ book else (k, e) ∷ later

  unfoldable pub flush : Book Record → CoaState Record
  flush book = record { data_of = book; file = book }

  abbrev pub some_entries : Option (List Record) → List Record
  some_entries none = []
  some_entries (some rs) = rs

  unfoldable pub with_class_byte : ℕ → Saved Record → Saved Record
  with_class_byte b e = record { class = some b; entries = some (some_entries e.entries) }

  unfoldable pub with_entries : List Record → Saved Record → Saved Record
  with_entries rs e = record { class = e.class; entries = some rs }

  abbrev pub class_in : Option (Saved Record) → Option ℕ
  class_in none = none
  class_in (some e) = e.class

  abbrev pub entries_in : Option (Saved Record) → List Record
  entries_in none = []
  entries_in (some e) = some_entries e.entries

  module _ (lower : Bytes → Bytes) where
    unfoldable pub set_class : Bytes → ℕ → CoaState Record → CoaState Record
    set_class name b s = flush (update (lower name) (with_class_byte b) s.data_of)

    unfoldable pub get_class : Bytes → CoaState Record → Option ℕ
    get_class name s = class_in (find (lower name) s.data_of)

    unfoldable pub set_entries : Bytes → List Record → CoaState Record → CoaState Record
    set_entries name rs s = flush (update (lower name) (with_entries rs) s.data_of)

    unfoldable pub get_entries : Bytes → CoaState Record → List Record
    get_entries name s = entries_in (find (lower name) s.data_of)
