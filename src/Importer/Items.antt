-- ===== src/Importer/Items.antt =====
-- tools/character-importer/bms_import.py and bms_map.py: where the items of a checkpoint go. A record keeps what the
-- placement reads; which templates are known, and what the equip check says of a record at a slot, are arguments.
pub mod Slots
pub mod Kept
pub mod Mail
pub mod Full
mod Tests
use ascension_preservation.Common.{
  ℕ, zero, suc, ◌+◌, ◌-◌, ◌≤◌, Bool, true, false, not, ◌&&◌, ◌||◌, Option, none, some, List, [],
  ◌∷◌, ◌++◌, length, take, drop, map, ◌==◌, ltb, leb, if◌then◌else◌, Result, ok, err, value_error,
}
use ascension_preservation.Common.Dict.{get_default}
use ascension_preservation.Common.Integers.{ℤ, pos, negsuc, le_int}

-- The fields as `_int` reads them: `none` is a field that is missing or no number.
pub record ItemRecord : Type 0 where
  pub item_id : ℕ
  pub equipped : Bool
  pub slot_id : Option ℤ
  pub bag_id : Option ℤ
  pub bag_slot : Option ℤ

-- `MappingError` is told apart from a result by `none`.
unfoldable pub equipped_db_slot : Option ℤ → Option ℕ
equipped_db_slot none = none
equipped_db_slot (some (negsuc n)) = none
equipped_db_slot (some (pos value)) = if leb 1 value && leb value 19 then some (value - 1) else none

-- The container of the client and the slot in it.
unfoldable pub split_container : ℤ → ℕ → Option (ℕ × ℕ)
split_container (pos zero) bag_slot =
    let slot = 23 + (bag_slot - 1) in if leb 39 slot then none else some (0, slot)
split_container (pos (suc bag)) bag_slot =
    if leb (suc bag) 4 then some (suc bag, bag_slot - 1) else none
split_container (negsuc (suc zero)) bag_slot =
    let slot = 86 + (bag_slot - 1) in if leb 118 slot then none else some (0, slot)
split_container (negsuc zero) bag_slot = none
split_container (negsuc (suc (suc n))) bag_slot = none

unfoldable pub split_bag_placement : ItemRecord → Option (ℕ × ℕ)
split_bag_placement r = elim (get_default r.bag_slot (negsuc 0)) [
  | pos zero ↦ none
  | pos (suc n) ↦ split_container (get_default r.bag_id (negsuc 98)) (suc n)
  | negsuc n ↦ none
]

-- What the first pass makes of a record.
pub data Placing : Type 0 where
  skipped : Placing
  placed : ℕ → Placing
  unwearable : ℕ → Placing
  homeless : Placing

unfoldable pub in_container : Option (ℕ × ℕ) → Placing
in_container none = skipped
in_container (some (zero, slot)) = placed slot
in_container (some (suc bag, slot)) = homeless

unfoldable pub in_slot : (ℕ → Bool) → Option ℕ → Placing
in_slot refused none = skipped
in_slot refused (some slot) = if refused slot then unwearable slot else placed slot

-- The rows that the placement makes: a record and its slot, or none for the mail.
abbrev pub Placement : Type 0
Placement = ItemRecord × Option ℕ

pub record Pass : Type 0 where
  pub used_slots : List ℕ
  pub placements : List Placement
  pub unwearables : List ItemRecord
  pub homeless_items : List ItemRecord

unfoldable pub has_slot : ℕ → List ℕ → Bool
has_slot s [] = false
has_slot s (t ∷ ts) = t == s || has_slot s ts

unfoldable pub add_slot : ℕ → List ℕ → List ℕ
add_slot s ts = if has_slot s ts then ts else ts ++ s ∷ []

-- `n` slots from `s` on that are not in use.
unfoldable pub free_slots : ℕ → ℕ → List ℕ → List ℕ
free_slots zero s used = []
free_slots (suc n) s used =
    let rest = free_slots n (suc s) used in if has_slot s used then rest else s ∷ rest

unfoldable pub free_backpack : List ℕ → List ℕ
free_backpack used = free_slots 16 23 used

-- The second pass: the free slots in turn, and then the mail.
unfoldable pub relocate : List ItemRecord → List ℕ → List Placement
relocate [] free = []
relocate (r ∷ rs) [] = (r, none) ∷ relocate rs []
relocate (r ∷ rs) (s ∷ free) = (r, some s) ∷ relocate rs free

unfoldable pub mailed_of : List Placement → List ItemRecord
mailed_of [] = []
mailed_of ((r, none) ∷ ps) = r ∷ mailed_of ps
mailed_of ((r, some s) ∷ ps) = mailed_of ps

module _ (known : ℕ → Bool) (refused : ItemRecord → ℕ → Bool) where
  unfoldable pub verdict : ItemRecord → Placing
  verdict r =
      if not (known r.item_id)
      then skipped
      else if r.equipped
      then in_slot (refused r) (equipped_db_slot r.slot_id)
      else in_container (split_bag_placement r)

  unfoldable pub place : Placing → ItemRecord → Pass → Pass
  place skipped r p = p
  place (placed slot) r p = record p {
    used_slots = add_slot slot p.used_slots;
    placements = p.placements ++ (r, some slot) ∷ [];
  }
  place (unwearable slot) r p = record p { unwearables = p.unwearables ++ r ∷ [] }
  place homeless r p = record p { homeless_items = p.homeless_items ++ r ∷ [] }

  unfoldable pub first_pass : List ItemRecord → Pass → Pass
  first_pass [] p = p
  first_pass (r ∷ rs) p = first_pass rs (place (verdict r) r p)

  abbrev pub start : Pass
  start = record { used_slots = []; placements = []; unwearables = []; homeless_items = [] }

  unfoldable pub plan_placements : List ItemRecord → List Placement
  plan_placements rs =
      let p = first_pass rs start in
      p.placements ++ relocate (p.unwearables ++ p.homeless_items) (free_backpack p.used_slots)

-- The rows of `item_instance` by their guids, from `next_guid` on.
unfoldable pub give_guids : ℕ → List Placement → List (ℕ × Placement)
give_guids next_guid [] = []
give_guids next_guid (p ∷ ps) = (next_guid, p) ∷ give_guids (suc next_guid) ps

-- The guids of the rows that have no slot, as `mailed` lists them.
unfoldable pub mailed_guids : List (ℕ × Placement) → List ℕ
mailed_guids [] = []
mailed_guids ((guid, (r, none)) ∷ rows) = guid ∷ mailed_guids rows
mailed_guids ((guid, (r, some slot)) ∷ rows) = mailed_guids rows

-- `mailed[start:start + MAIL_ITEMS_PER_MESSAGE]` from each start that `range` gives, on fuel.
unfoldable pub mail_chunks {ℓ} : {A : Type ℓ} → ℕ → List A → List (List A)
mail_chunks zero items = []
mail_chunks (suc fuel) [] = []
mail_chunks (suc fuel) (i ∷ items) = take 12 (i ∷ items) ∷ mail_chunks fuel (drop 12 (i ∷ items))

unfoldable pub plan_mail {ℓ} : {A : Type ℓ} → List A → List (List A)
plan_mail mailed = mail_chunks (length mailed) mailed
