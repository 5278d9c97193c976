-- ===== src/Importer/Equip.antt =====
-- tools/character-importer/bms_equip.py: would the server let this character wear this item when it loads? A
-- refusal is the data of its message.
pub mod Classes
pub mod Refusals
pub mod Better
mod Tests
use ascension_preservation.Common.{
  ℕ, zero, suc, ◌+◌, ◌-◌, ◌^◌, ◌<◌, Bool, true, false, not, ◌&&◌, ◌||◌, bit_or, bit_and, Option,
  none, some, List, [], ◌∷◌, length, get_elem?, get_or, ◌==◌, ltb, leb, if◌then◌else◌, Result, ok,
  err, ◌>>=◌, value_error,
}
use ascension_preservation.Common.Dict.{Dict, get, get_default}
use ascension_preservation.Common.Digit.{bit_set}
use ascension_preservation.Common.Integers.{ℤ, pos, negsuc, le_int, is_zero, low_word}

abbrev pub legacy_classes : Dict ℕ
legacy_classes =
    (12, 4)
    ∷ (13, 7)
    ∷ (14, 4)
    ∷ (15, 3)
    ∷ (16, 7)
    ∷ (17, 1)
    ∷ (18, 1)
    ∷ (19, 4)
    ∷ (20, 11)
    ∷ (21, 3)
    ∷ (22, 5)
    ∷ (23, 9)
    ∷ (24, 8)
    ∷ (25, 2)
    ∷ (26, 11)
    ∷ (27, 5)
    ∷ (28, 3)
    ∷ (29, 7)
    ∷ (30, 4)
    ∷ (31, 11)
    ∷ (32, 7)
    ∷ []

abbrev pub custom_class_bits : ℕ
custom_class_bits = 0xFFFFF800

abbrev pub classless_class_mask : ℕ
classless_class_mask = 0x200

abbrev slots_by_inventory_type : Dict (List ℕ)
slots_by_inventory_type =
    (1, 0 ∷ [])
    ∷ (2, 1 ∷ [])
    ∷ (3, 2 ∷ [])
    ∷ (4, 3 ∷ [])
    ∷ (5, 4 ∷ [])
    ∷ (20, 4 ∷ [])
    ∷ (6, 5 ∷ [])
    ∷ (7, 6 ∷ [])
    ∷ (8, 7 ∷ [])
    ∷ (9, 8 ∷ [])
    ∷ (10, 9 ∷ [])
    ∷ (11, 10 ∷ 11 ∷ [])
    ∷ (12, 12 ∷ 13 ∷ [])
    ∷ (16, 14 ∷ [])
    ∷ (13, 15 ∷ 16 ∷ [])
    ∷ (17, 15 ∷ 16 ∷ [])
    ∷ (21, 15 ∷ [])
    ∷ (14, 16 ∷ [])
    ∷ (22, 16 ∷ [])
    ∷ (23, 16 ∷ [])
    ∷ (15, 17 ∷ [])
    ∷ (25, 17 ∷ [])
    ∷ (26, 17 ∷ [])
    ∷ (28, 17 ∷ [])
    ∷ (19, 18 ∷ [])
    ∷ []

abbrev weapon_skills : List ℕ
weapon_skills =
    44 ∷ 172 ∷ 45 ∷ 46 ∷ 54 ∷ 160 ∷ 229 ∷ 43 ∷ 55 ∷ 0 ∷ 136 ∷ 0 ∷ 0 ∷ 473 ∷ 0 ∷ 173 ∷ 176 ∷ 253
    ∷ 226 ∷ 228 ∷ 356 ∷ []

abbrev armor_skills : List ℕ
armor_skills = 0 ∷ 415 ∷ 414 ∷ 413 ∷ 293 ∷ 0 ∷ 433 ∷ 0 ∷ 0 ∷ 0 ∷ 0 ∷ []

-- `PROFICIENCY_BY_SPELL`: the skill that each of the teaching spells sets.
abbrev proficiency_by_spell : Dict ℕ
proficiency_by_spell =
    (196, 44)
    ∷ (197, 172)
    ∷ (264, 45)
    ∷ (266, 46)
    ∷ (198, 54)
    ∷ (199, 160)
    ∷ (200, 229)
    ∷ (201, 43)
    ∷ (202, 55)
    ∷ (227, 136)
    ∷ (1180, 173)
    ∷ (2567, 176)
    ∷ (3386, 253)
    ∷ (5011, 226)
    ∷ (5009, 228)
    ∷ (9078, 415)
    ∷ (9077, 414)
    ∷ (8737, 413)
    ∷ (750, 293)
    ∷ (9116, 433)
    ∷ []

unfoldable pub legacy_class : ℕ → ℕ
legacy_class class_id = get_default (get class_id legacy_classes) class_id

-- The loop over `count` class ids from `class_id` on.
unfoldable pub expand_classes : ℕ → ℕ → ℕ → ℕ → ℕ
expand_classes zero class_id mask result = result
expand_classes (suc count) class_id mask result = expand_classes count (suc class_id) mask (
    if bit_set mask (legacy_class class_id - 1) then bit_or result (2 ^ (class_id - 1)) else result)

unfoldable pub expand_legacy_class_mask : ℕ → ℕ
expand_legacy_class_mask mask =
    if bit_and mask custom_class_bits == 0 then expand_classes 21 12 mask mask else mask

unfoldable pub item_allowable_class_mask : ℤ → ℕ
item_allowable_class_mask allowable_class =
    let mask = low_word allowable_class in
    if mask == classless_class_mask
    then bit_or mask custom_class_bits
    else expand_legacy_class_mask mask

-- An item's class and subclass are its first two arguments.
unfoldable pub proficiency_skill : ℤ → ℤ → ℕ
proficiency_skill (pos item_class) (pos subclass) =
    if item_class == 2
    then get_or weapon_skills subclass 0
    else if item_class == 4
    then get_or armor_skills subclass 0
    else 0
proficiency_skill item_class subclass = 0

-- The ranks above the lowest, from the highest floor down.
abbrev pub rank_floors : Dict ℤ
rank_floors =
    (7, pos 42000)
    ∷ (6, pos 21000)
    ∷ (5, pos 9000)
    ∷ (4, pos 3000)
    ∷ (3, pos 0)
    ∷ (2, negsuc 2999)
    ∷ (1, negsuc 5999)
    ∷ (0, negsuc 41999)
    ∷ []

unfoldable pub highest_rank : Dict ℤ → ℤ → ℕ
highest_rank [] standing = 0
highest_rank ((rank, floor) ∷ floors) standing =
    if le_int floor standing then rank else highest_rank floors standing

unfoldable pub reputation_rank : ℤ → ℕ
reputation_rank standing = highest_rank rank_floors standing

pub data Team : Type 0 where
  alliance horde unknown : Team

-- The rows of skills are `character_skills`, with unsigned values.
pub record Wearer : Type 0 where
  pub level : ℕ
  pub race : ℕ
  pub class_id : ℕ
  pub team : Team
  pub skills : Dict ℕ
  pub spells : List ℕ
  pub standing : Option (ℤ → ℤ)

unfoldable pub member : ℤ → List ℕ → Bool
member (negsuc n) ns = false
member (pos n) [] = false
member (pos n) (m ∷ ms) = if m == n then true else member (pos n) ms

-- `PROFICIENCY_BY_SPELL.get(s) == skill`
unfoldable pub teaches : ℕ → ℕ → Bool
teaches s skill = elim (get s proficiency_by_spell) [
  | none ↦ false
  | some taught_skill ↦ taught_skill == skill
]

-- `any` of them
unfoldable pub taught : ℕ → List ℕ → Bool
taught skill [] = false
taught skill (s ∷ ss) = teaches s skill || taught skill ss

unfoldable pub skill_value : Wearer → ℤ → ℕ
skill_value w (negsuc n) = 0
skill_value w (pos skill) =
    let value = get_default (get skill w.skills) 0 in
    if value == 0 && taught skill w.spells then 1 else value

-- A row of `item_template`, each cell as `int` reads it: `none` is a cell that is missing, empty or no number.
pub record Item : Type 0 where
  pub inventory_type : Option ℤ
  pub flags_extra : Option ℤ
  pub allowable_class : Option ℤ
  pub allowable_race : Option ℤ
  pub required_skill : Option ℤ
  pub required_skill_rank : Option ℤ
  pub required_spell : Option ℤ
  pub required_level : Option ℤ
  pub holiday_id : Option ℤ
  pub item_class : Option ℤ
  pub subclass : Option ℤ
  pub quality : Option ℤ
  pub required_reputation_faction : Option ℤ
  pub required_reputation_rank : Option ℤ

abbrev pub num : Option ℤ → ℤ
num cell = get_default cell (pos 0)

pub data Refusal : Type 0 where
  not_wearable : ℤ → Refusal
  other_slot : ℤ → ℕ → Refusal
  horde_only alliance_only : Refusal
  class_excluded : ℕ → ℕ → Refusal
  race_excluded : ℕ → ℕ → Refusal
  without_skill : ℤ → Refusal
  low_skill : ℤ → ℤ → ℕ → Refusal
  without_spell : ℤ → Refusal
  low_level : ℤ → ℕ → Refusal
  out_of_season : ℤ → Refusal
  without_proficiency : ℕ → Refusal
  low_reputation : ℤ → ℤ → ℕ → Refusal

-- What a check returns: the refusal that ends the function, or none.
abbrev pub Check : Type 0
Check = Result (Option Refusal)

-- The next check is made if this one does not refuse.
unfoldable pub then_check : Check → Check → Check
then_check (err e) next = err e
then_check (ok (some why)) next = ok (some why)
then_check (ok none) next = next

unfoldable pub refuse_if : Bool → Refusal → Check
refuse_if refused why = if refused then ok (some why) else ok none
