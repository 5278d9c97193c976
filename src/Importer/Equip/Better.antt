-- ===== src/Importer/Equip/Better.antt =====
-- A character that has learned more wears no less.
use mathlib.Core.Path.{subst}
use ascension_preservation.Common.{
  ℕ, ◌≤◌, ◌≡◌, refl, sym, Bool, true, false, not, inl, inr, Bool-cases, Option, none, some, List,
  [], ◌∷◌, ◌==◌, ==_iff, ok, err, arith,
}
use ascension_preservation.Common.Dict.{Dict, get, get_default}
use ascension_preservation.Common.Integers.{ℤ, pos, negsuc, le_int, le_int_trans, is_zero, low_word}
use ascension_preservation.Importer.Equip.{
  teaches, proficiency_skill, rank_floors, highest_rank, reputation_rank, Wearer, member, taught,
  skill_value, Item, num, Refusal, Check, then_check, refuse_if, without_skill, low_skill,
  class_excluded, race_excluded, item_allowable_class_mask,
}
use ascension_preservation.Importer.Equip.Refusals.{
  check_team, check_mask, check_class, check_race, check_skill, check_spell, check_level,
  check_proficiency, check_reputation, equip_refusal,
}

-- The standings with all factions: unknown ones count as the best.
unfoldable pub StandsNoWorse : Option (ℤ → ℤ) → Option (ℤ → ℤ) → Type 0
StandsNoWorse before none = Unit {0}
StandsNoWorse none (some after) = ⊥
StandsNoWorse (some before) (some after) =
    (faction : ℤ) → le_int (before faction) (after faction) ≡ true

-- The same character, later: of no lower level, with no lower skill, with all the spells.
pub record NoWorse (w w' : Wearer) : Type 0 where
  pub level : w.level ≤ w'.level
  pub race : w.race ≡ w'.race
  pub class_id : w.class_id ≡ w'.class_id
  pub team : w.team ≡ w'.team
  pub skills : (s : ℕ) → get_default (get s w.skills) 0 ≤ get_default (get s w'.skills) 0
  pub spells : (s : ℤ) → member s w.spells ≡ true → member s w'.spells ≡ true
  pub standing : StandsNoWorse w.standing w'.standing

refuse_if_passes : (b : Bool) (why : Refusal) → refuse_if b why ≡ ok none → b ≡ false
unfolding refuse_if
refuse_if_passes true why h = cc h
refuse_if_passes false why h = refl

-- Both checks of a chain pass, or the chain does not.
then_check_passes :
    (first next first' next' : Check)
    → (first ≡ ok none → first' ≡ ok none)
    → (next ≡ ok none → next' ≡ ok none)
    → then_check first next ≡ ok none
    → then_check first' next' ≡ ok none
unfolding then_check
then_check_passes (err e) next first' next' f g h = cc h
then_check_passes (ok (some why)) next first' next' f g h = cc h
then_check_passes (ok none) next first' next' f g h = rw (f refl) (g h)

refuse_if_weaken :
    (b c : Bool) (why why' : Refusal)
    → (b ≡ false → c ≡ false)
    → refuse_if b why ≡ ok none
    → refuse_if c why' ≡ ok none
unfolding refuse_if
refuse_if_weaken true c why why' f h = cc h
refuse_if_weaken false c why why' f h = rw (f refl) refl

-- A spell that teaches the skill, among those known.
taught_by :
    (skill : ℕ) (ss : List ℕ)
    → taught skill ss ≡ true
    → (s : ℕ) × (member (pos s) ss ≡ true) × (teaches s skill ≡ true)
unfolding taught member
taught_by skill [] h = cc h
taught_by skill (s ∷ ss) h = elim (Bool-cases (teaches s skill)) [
  | inl this ↦ (s, ground arith, this)
  | inr other ↦
      let known = taught_by skill ss (rw other at h) in (known.0, ground (arith, known.1), known.2)
]

taught_known :
    (skill s : ℕ) (ss : List ℕ)
    → member (pos s) ss ≡ true
    → teaches s skill ≡ true
    → taught skill ss ≡ true
unfolding taught member
taught_known skill s [] h e = cc h
taught_known skill s (t ∷ ss) h e = elim (Bool-cases (t == s)) [
  | inl this ↦ rw ((==_iff t s).0 this, e) refl
  | inr other ↦ rw (taught_known skill s ss (rw other at h) e) (ground arith)
]

-- The floors of a table of ranks, from `top` down.
abbrev Descends : ℕ → Dict ℤ → Type 0
Descends top [] = Unit {0}
Descends top ((rank, floor) ∷ floors) = (rank ≤ top) × Descends rank floors

rank_below :
    (floors : Dict ℤ) (top : ℕ) (standing : ℤ)
    → Descends top floors
    → highest_rank floors standing ≤ top
unfolding highest_rank
rank_below [] top standing d = omega arith
rank_below ((rank, floor) ∷ floors) top standing (here, d) =
    ground (arith, here, rank_below floors rank standing d)

highest_rank_grows :
    (floors : Dict ℤ) (top : ℕ) (a b : ℤ)
    → Descends top floors
    → le_int a b ≡ true
    → highest_rank floors a ≤ highest_rank floors b
unfolding highest_rank
highest_rank_grows [] top a b d h = omega arith
highest_rank_grows ((rank, floor) ∷ floors) top a b (here, d) h =
    elim (Bool-cases (le_int floor a)) [
      | inl e ↦ rw (e, le_int_trans floor a b e h) (omega arith)
      | inr e ↦ elim (Bool-cases (le_int floor b)) [
        | inl f ↦ rw (e, f) (rank_below floors rank a d)
        | inr f ↦ rw (e, f) (highest_rank_grows floors rank a b d h)
      ]
    ]

rank_floors-Descends : Descends 7 rank_floors
rank_floors-Descends = ground arith

reputation_rank_grows : (a b : ℤ) → le_int a b ≡ true → reputation_rank a ≤ reputation_rank b
unfolding reputation_rank
reputation_rank_grows a b h = highest_rank_grows rank_floors 7 a b rank_floors-Descends h

-- A requirement that a value meets, a higher one meets.
not_le :
    (need : ℤ) (m n : ℕ)
    → m ≤ n
    → not (le_int need (pos m)) ≡ false
    → not (le_int need (pos n)) ≡ false
not_le (pos k) m n le h = ground arith
not_le (negsuc k) m n le h = refl

module _ (w w' : Wearer) (later : NoWorse w w') where
  taught_grows : (skill : ℕ) → taught skill w.spells ≡ true → taught skill w'.spells ≡ true
  taught_grows skill h =
      let known = taught_by skill w.spells h in
      taught_known skill (known.0) w'.spells (later.spells (pos (known.0)) (known.1)) (known.2)

  skill_value_grows : (skill : ℤ) → skill_value w skill ≤ skill_value w' skill
  unfolding skill_value
  skill_value_grows (negsuc n) = omega arith
  skill_value_grows (pos skill) = ground (arith, later.skills skill, taught_grows skill)

  check_class_passes : (item : Item) → check_class item w ≡ ok none → check_class item w' ≡ ok none
  unfolding check_class
  check_class_passes item h =
      subst
        (λ c.
          check_mask (item_allowable_class_mask (get_default item.allowable_class (negsuc 0))) c
            (class_excluded (low_word (get_default item.allowable_class (negsuc 0))) c)
          ≡ ok none)
        later.class_id h

  check_race_passes : (item : Item) → check_race item w ≡ ok none → check_race item w' ≡ ok none
  unfolding check_race
  check_race_passes item h =
      let mask : ℕ = low_word (get_default item.allowable_race (negsuc 0)) in
      subst (λ r. check_mask mask r (race_excluded mask r) ≡ ok none) later.race h

  check_skill_passes : (item : Item) → check_skill item w ≡ ok none → check_skill item w' ≡ ok none
  unfolding check_skill
  check_skill_passes item h =
      let required : ℤ = num item.required_skill in
      let need : ℤ = num item.required_skill_rank in
      let more : skill_value w required ≤ skill_value w' required = skill_value_grows required in
      elim (Bool-cases (is_zero required)) [
        | inl e ↦ rw e refl
        | inr e ↦ rw e (
            then_check_passes (refuse_if (skill_value w required == 0) (without_skill required))
              (refuse_if (not (le_int need (pos (skill_value w required))))
                (low_skill required need (skill_value w required)))
              (refuse_if (skill_value w' required == 0) (without_skill required))
              (refuse_if (not (le_int need (pos (skill_value w' required))))
                (low_skill required need (skill_value w' required)))
              (refuse_if_weaken _ _ _ _ (λ e. ground arith))
              (refuse_if_weaken _ _ _ _
                (not_le need (skill_value w required) (skill_value w' required) more))
              (rw e at h))
      ]

  check_spell_passes : (item : Item) → check_spell item w ≡ ok none → check_spell item w' ≡ ok none
  unfolding check_spell
  check_spell_passes item =
      refuse_if_weaken _ _ _ _ (λ e. ground (arith, later.spells (num item.required_spell)))

  check_level_passes : (item : Item) → check_level item w ≡ ok none → check_level item w' ≡ ok none
  unfolding check_level
  check_level_passes item =
      refuse_if_weaken _ _ _ _ (not_le (num item.required_level) w.level w'.level later.level)

  check_proficiency_passes :
      (item : Item) → check_proficiency item w ≡ ok none → check_proficiency item w' ≡ ok none
  unfolding check_proficiency
  check_proficiency_passes item =
      let skill : ℕ = proficiency_skill (num item.item_class) (num item.subclass) in
      rw (sym later.class_id)
        (refuse_if_weaken _ _ _ _ (λ e. ground (arith, skill_value_grows (pos skill))))

check_reputation_passes :
    (item : Item) (before after : Option (ℤ → ℤ))
    → StandsNoWorse before after
    → check_reputation item before ≡ ok none
    → check_reputation item after ≡ ok none
unfolding check_reputation StandsNoWorse
check_reputation_passes item before none s h = refl
check_reputation_passes item none (some after) s h = absurd s
check_reputation_passes item (some before) (some after) s h =
    let need : ℤ = num item.required_reputation_rank in
    let faction : ℤ = num item.required_reputation_faction in
    let more : reputation_rank (before faction) ≤ reputation_rank (after faction) =
      reputation_rank_grows (before faction) (after faction) (s faction) in
    refuse_if_weaken _ _ _ _
      (λ e. ground (
        arith,
        not_le need (reputation_rank (before faction)) (reputation_rank (after faction)) more,
      ))
      h

-- An item that a character may wear in a slot, it may wear in that slot later too: when its level, its skills, its
-- spells and its standings have grown or stayed as they were, and its race, class and team are the same.
pub equip_refusal-NoWorse :
    (item : Item) (db_slot : ℕ) (w w' : Wearer)
    → NoWorse w w'
    → equip_refusal item db_slot w ≡ ok none
    → equip_refusal item db_slot w' ≡ ok none
unfolding equip_refusal
equip_refusal-NoWorse item db_slot w w' later =
    then_check_passes _ _ _ _ (λ h. h)
      (then_check_passes _ _ _ _ (λ h. subst (λ t. check_team item t ≡ ok none) later.team h)
        (then_check_passes _ _ _ _ (check_class_passes w w' later item) (
          then_check_passes _ _ _ _ (check_race_passes w w' later item) (
            then_check_passes _ _ _ _ (check_skill_passes w w' later item) (
              then_check_passes _ _ _ _ (check_spell_passes w w' later item) (
                then_check_passes _ _ _ _ (check_level_passes w w' later item) (
                  then_check_passes _ _ _ _ (λ h. h)
                    (then_check_passes _ _ _ _ (check_proficiency_passes w w' later item)
                      (check_reputation_passes item w.standing w'.standing later.standing)))))))))
