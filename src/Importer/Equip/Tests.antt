-- ===== src/Importer/Equip/Tests.antt =====
-- The item and the character of test_bms_equip.py.
use ascension_preservation.Common.{
  ◌≡◌, refl, true, none, some, [], ◌∷◌, ok, ◌==◌, ◌||◌, leb, if◌then◌else◌, bit_and, arith,
}
use ascension_preservation.Common.Dict.{get}
use ascension_preservation.Common.Digit.{bit_set}
use ascension_preservation.Common.Integers.{ℤ, pos, negsuc, low_word}
use ascension_preservation.Importer.Equip.{
  legacy_class, expand_legacy_class_mask, item_allowable_class_mask, custom_class_bits,
  classless_class_mask, proficiency_skill, highest_rank, reputation_rank, Wearer, alliance, member,
  teaches, taught, skill_value, Item, then_check, refuse_if, low_level,
}
use ascension_preservation.Importer.Equip.Refusals.{
  slots_of, check_slot, check_team, check_mask, check_class, check_race, check_skill, check_spell,
  check_level, check_holiday, morphs_to, heirloom_armor, check_proficiency, check_reputation,
  equip_refusal,
}
use ascension_preservation.Importer.Equip.Classes.{admits, item_allowable_class_mask-admits}
use ascension_preservation.Importer.Equip.Better.{StandsNoWorse, NoWorse, equip_refusal-NoWorse}

abbrev cloth_chest : Item
cloth_chest = record {
  inventory_type = some (pos 5);
  flags_extra = some (pos 0);
  allowable_class = some (negsuc 0);
  allowable_race = some (negsuc 0);
  required_skill = some (pos 0);
  required_skill_rank = some (pos 0);
  required_spell = some (pos 0);
  required_level = some (pos 20);
  holiday_id = some (pos 0);
  item_class = some (pos 4);
  subclass = some (pos 1);
  quality = some (pos 2);
  required_reputation_faction = some (pos 72);
  required_reputation_rank = some (pos 5);
}

abbrev chronomancer : Wearer
chronomancer = record {
  level = 20;
  race = 1;
  class_id = 22;
  team = alliance;
  skills = (415, 1) ∷ (54, 1) ∷ [];
  spells = [];
  standing = some (λ faction. pos 9000);
}

abbrev grown : Wearer
grown = record chronomancer { level = 23; spells = 8737 ∷ [] }

worn : equip_refusal cloth_chest 4 chronomancer ≡ ok none
unfolding equip_refusal then_check refuse_if check_slot slots_of get member check_team check_class
    check_mask check_race check_skill check_spell check_level check_holiday check_proficiency
    proficiency_skill skill_value taught heirloom_armor morphs_to legacy_class check_reputation
    reputation_rank highest_rank item_allowable_class_mask expand_legacy_class_mask low_word bit_set
worn = refl

young :
    equip_refusal (record cloth_chest { required_level = some (pos 23) }) 4 chronomancer
    ≡ ok (some (low_level (pos 23) 20))
unfolding equip_refusal then_check refuse_if check_slot slots_of get member check_team check_class
    check_mask check_race check_skill check_spell check_level check_holiday check_proficiency
    proficiency_skill skill_value taught heirloom_armor morphs_to legacy_class check_reputation
    reputation_rank highest_rank item_allowable_class_mask expand_legacy_class_mask low_word bit_set
young = refl

mail_taught : equip_refusal (record cloth_chest { subclass = some (pos 3) }) 4 grown ≡ ok none
unfolding equip_refusal then_check refuse_if check_slot slots_of get member check_team check_class
    check_mask check_race check_skill check_spell check_level check_holiday check_proficiency
    proficiency_skill skill_value taught teaches heirloom_armor morphs_to legacy_class
    check_reputation reputation_rank highest_rank item_allowable_class_mask expand_legacy_class_mask
    low_word bit_set
mail_taught = refl

knows_more : (s : ℤ) → member s [] ≡ true → member s (8737 ∷ []) ≡ true
unfolding member
knows_more (pos n) h = cc h
knows_more (negsuc n) h = cc h

grown-NoWorse : NoWorse chronomancer grown
unfolding StandsNoWorse member
grown-NoWorse = record {
  level = omega arith;
  race = refl;
  class_id = refl;
  team = refl;
  skills = λ s. omega arith;
  spells = knows_more;
  standing = λ faction. refl;
}

equip_refusal-NoWorse_example : equip_refusal cloth_chest 4 grown ≡ ok none
equip_refusal-NoWorse_example =
    equip_refusal-NoWorse cloth_chest 4 chronomancer grown grown-NoWorse worn

-- A priest's item admits a chronomancer.
item_allowable_class_mask-admits_example : admits (item_allowable_class_mask (pos 0x10)) 22 ≡ (
    if low_word (pos 0x10) == classless_class_mask
    then (22 == 10 || leb 12 22)
    else if bit_and (low_word (pos 0x10)) custom_class_bits == 0
    then admits (low_word (pos 0x10)) (legacy_class 22)
    else admits (low_word (pos 0x10)) 22)
item_allowable_class_mask-admits_example =
    item_allowable_class_mask-admits (pos 0x10) 22 (omega arith) (omega arith)
