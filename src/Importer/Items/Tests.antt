-- ===== src/Importer/Items/Tests.antt =====
-- A checkpoint with a worn item, one that cannot be worn, one of the backpack, and one of a lost bag.
use ascension_preservation.Common.{
  ℕ, zero, suc, ◌≡◌, ◌==◌, refl, Bool, true, false, none, some, List, [], ◌∷◌, length, replicate,
  All, flat, arith,
}
use ascension_preservation.Common.Integers.{pos}
use ascension_preservation.Importer.Items.{
  ItemRecord, equipped_db_slot, split_container, split_bag_placement, in_container, in_slot,
  has_slot, add_slot, free_slots, free_backpack, relocate, mailed_of, verdict, place, first_pass,
  plan_placements, give_guids, mailed_guids, plan_mail,
}
use ascension_preservation.Importer.Items.Slots.{slots_of, Unique, captured, plan_placements-Unique}
use ascension_preservation.Importer.Items.Kept.{count, records_of, kept, plan_placements_counts}
use ascension_preservation.Importer.Items.Full.{plan_placements_full}
use ascension_preservation.Importer.Items.Mail.{IsMail, plan_mail-IsMail}

abbrev item_at : ℕ → Bool → ℕ → ℕ → ItemRecord
item_at id equipped bag slot = record {
  item_id = id;
  equipped = equipped;
  slot_id = some (pos slot);
  bag_id = some (pos bag);
  bag_slot = some (pos slot);
}

abbrev checkpoint : List ItemRecord
checkpoint =
    item_at 7 true 0 5
    ∷ item_at 8 true 0 6
    ∷ item_at 9 false 0 1
    ∷ item_at 10 false 2 4
    ∷ item_at 0 false 0 2
    ∷ []

abbrev is_known : ℕ → Bool
is_known zero = false
is_known (suc n) = true

-- The eighth item is refused.
abbrev is_refused : ItemRecord → ℕ → Bool
is_refused r slot = r.item_id == 8

planned :
    plan_placements is_known is_refused checkpoint
    ≡ (item_at 7 true 0 5, some 4)
      ∷ (item_at 9 false 0 1, some 23)
      ∷ (item_at 8 true 0 6, some 24)
      ∷ (item_at 10 false 2 4, some 25)
      ∷ []
unfolding plan_placements first_pass place verdict in_slot equipped_db_slot in_container
    split_bag_placement split_container add_slot has_slot free_backpack free_slots relocate
planned = refl

beyond_backpack : split_bag_placement (item_at 1 false 0 17) ≡ none
unfolding split_bag_placement split_container
beyond_backpack = refl

captured-Unique : Unique (captured is_known is_refused checkpoint)
unfolding captured verdict in_slot equipped_db_slot in_container split_bag_placement split_container
    has_slot
captured-Unique = (refl, (refl, tt))

plan_placements-Unique_example : Unique (slots_of (plan_placements is_known is_refused checkpoint))
plan_placements-Unique_example =
    plan_placements-Unique is_known is_refused checkpoint captured-Unique

plan_placements_counts_example :
    count (λ r. r.equipped) (records_of (plan_placements is_known is_refused checkpoint))
    ≡ count (λ r. r.equipped) (kept is_known is_refused checkpoint)
plan_placements_counts_example =
    plan_placements_counts is_known is_refused (λ r. r.equipped) checkpoint

-- One item more than the backpack takes, from a lost bag.
abbrev spilled : List ItemRecord
spilled = replicate 17 (item_at 10 false 2 4)

spilled_mails : length (mailed_of (plan_placements is_known is_refused spilled)) ≡ 1
unfolding plan_placements first_pass place verdict in_container split_bag_placement split_container
    has_slot free_backpack free_slots relocate mailed_of
spilled_mails = refl

plan_placements_full_example :
    has_slot 38 (slots_of (plan_placements is_known is_refused spilled)) ≡ true
plan_placements_full_example =
    plan_placements_full is_known is_refused spilled 38 (omega (arith, spilled_mails)) (omega arith)
      (omega arith)

mailed_rows :
    mailed_guids (
      give_guids 100 (
        (item_at 7 true 0 5, none)
        ∷ (item_at 8 true 0 5, some 23)
        ∷ (item_at 9 true 0 5, none)
        ∷ []))
    ≡ 100 ∷ 102 ∷ []
unfolding give_guids mailed_guids
mailed_rows = refl

abbrev thirteen : List ℕ
thirteen = replicate 13 5

plan_mail-IsMail_example : (flat (plan_mail thirteen) ≡ thirteen) × All IsMail (plan_mail thirteen)
plan_mail-IsMail_example = plan_mail-IsMail thirteen
