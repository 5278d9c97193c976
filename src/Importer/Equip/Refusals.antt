-- ===== src/Importer/Equip/Refusals.antt =====
-- `equip_refusal` of tools/character-importer/bms_equip.py, check by check, in the order of the code.
use ascension_preservation.Common.{
  ℕ, zero, suc, Bool, false, not, ◌&&◌, ◌||◌, Option, none, some, List, [], ◌∷◌, ◌==◌,
  if◌then◌else◌, ok, err, value_error,
}
use ascension_preservation.Common.Dict.{get, get_default}
use ascension_preservation.Common.Digit.{bit_set}
use ascension_preservation.Common.Integers.{ℤ, pos, negsuc, le_int, is_zero, low_word}
use ascension_preservation.Importer.Equip.{
  slots_by_inventory_type, legacy_class, item_allowable_class_mask, proficiency_skill,
  reputation_rank, Team, alliance, horde, unknown, Wearer, member, skill_value, Item, num, Refusal,
  not_wearable, other_slot, horde_only, alliance_only, class_excluded, race_excluded, without_skill,
  low_skill, without_spell, low_level, out_of_season, without_proficiency, low_reputation, Check,
  then_check, refuse_if,
}

-- `SLOTS_BY_INVENTORY_TYPE.get(inventory_type)`, nothing as the empty tuple
unfoldable pub slots_of : ℤ → List ℕ
slots_of (pos inventory_type) = get_default (get inventory_type slots_by_inventory_type) []
slots_of (negsuc n) = []

unfoldable pub check_slot : Item → ℕ → Check
check_slot item db_slot = elim (slots_of (num item.inventory_type)) [
  | [] ↦ ok (some (not_wearable (num item.inventory_type)))
  | s ∷ ss ↦
      refuse_if (not (member (pos db_slot) (s ∷ ss))) (other_slot (num item.inventory_type) db_slot)
]

-- No team is known: no faction refuses.
unfoldable pub check_team : Item → Team → Check
check_team item unknown = ok none
check_team item horde = refuse_if (bit_set (low_word (num item.flags_extra)) 1) alliance_only
check_team item alliance = refuse_if (bit_set (low_word (num item.flags_extra)) 0) horde_only

-- `mask & (1 << (id - 1))`, which raises where the id is 0.
unfoldable pub check_mask : ℕ → ℕ → Refusal → Check
check_mask mask zero why = err value_error
check_mask mask (suc n) why = refuse_if (not (bit_set mask n)) why

unfoldable pub check_class : Item → Wearer → Check
check_class item w =
    let allowable = get_default item.allowable_class (negsuc 0) in
    check_mask (item_allowable_class_mask allowable) w.class_id
      (class_excluded (low_word allowable) w.class_id)

unfoldable pub check_race : Item → Wearer → Check
check_race item w =
    let mask = low_word (get_default item.allowable_race (negsuc 0)) in
    check_mask mask w.race (race_excluded mask w.race)

unfoldable pub check_skill : Item → Wearer → Check
check_skill item w =
    let required = num item.required_skill in
    let have = skill_value w required in
    let need = num item.required_skill_rank in
    if is_zero required
    then ok none
    else then_check (refuse_if (have == 0) (without_skill required))
        (refuse_if (not (le_int need (pos have))) (low_skill required need have))

unfoldable pub check_spell : Item → Wearer → Check
check_spell item w =
    let required = num item.required_spell in
    refuse_if (not (is_zero required) && not (member required w.spells)) (without_spell required)

unfoldable pub check_level : Item → Wearer → Check
check_level item w =
    let required = num item.required_level in
    refuse_if (not (le_int required (pos w.level))) (low_level required w.level)

unfoldable pub check_holiday : Item → Check
check_holiday item =
    refuse_if (not (is_zero (num item.holiday_id))) (out_of_season (num item.holiday_id))

-- What heirloom armour morphs down to, by the legacy class.
unfoldable pub morphs_to : ℕ → ℕ → Bool
morphs_to base skill =
    if base == 2 || base == 1
    then skill == 293
    else if base == 3 || base == 7
    then skill == 413
    else false

unfoldable pub heirloom_armor : Item → Bool
heirloom_armor item = elim (num item.quality) [
  | pos quality ↦ elim (num item.item_class) [
    | pos item_class ↦ quality == 7 && item_class == 4
    | negsuc n ↦ false
  ]
  | negsuc n ↦ false
]

unfoldable pub check_proficiency : Item → Wearer → Check
check_proficiency item w =
    let skill = proficiency_skill (num item.item_class) (num item.subclass) in
    let allowed = heirloom_armor item && morphs_to (legacy_class w.class_id) skill in
    refuse_if (not (skill == 0) && (skill_value w (pos skill) == 0 && not allowed))
      (without_proficiency skill)

-- Where nothing is known of the standings, none refuses.
unfoldable pub check_reputation : Item → Option (ℤ → ℤ) → Check
check_reputation item none = ok none
check_reputation item (some standing) =
    let faction = num item.required_reputation_faction in
    let need = num item.required_reputation_rank in
    let have = reputation_rank (standing faction) in
    refuse_if (not (is_zero faction) && not (le_int need (pos have)))
      (low_reputation need faction have)

unfoldable pub equip_refusal : Item → ℕ → Wearer → Check
equip_refusal item db_slot w = then_check (check_slot item db_slot) (
    then_check (check_team item w.team) (
      then_check (check_class item w) (
        then_check (check_race item w) (
          then_check (check_skill item w) (
            then_check (check_spell item w) (
              then_check (check_level item w) (
                then_check (check_holiday item)
                  (then_check (check_proficiency item w) (check_reputation item w.standing)))))))))
