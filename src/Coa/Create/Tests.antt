-- ===== src/Coa/Create/Tests.antt =====
-- A human, `A`, of class 25, on a core that refuses it and on one that builds it.
use ascension_preservation.Common.{
  ℕ, ◌≡◌, ◌==◌, refl, true, false, ◌&&◌, none, some, [], ◌∷◌, if◌then◌else◌, ok,
}
use ascension_preservation.Common.Bytes.{Bytes, eq_bytes}
use ascension_preservation.Common.Dict.{get}
use ascension_preservation.Coa.CharEnum.{index_nul}
use ascension_preservation.Coa.State.{CoaState, get_class}
use ascension_preservation.Coa.Create.{
  ac_valid_classes, is_one_of, ac_race_classes, carrier_class_for, carrier_among, lowest_usable,
  stage, fix_tail, fix_at, fix_char_create, on_char_create,
}
use ascension_preservation.Coa.Create.Carrier.{fix_char_create_lem}
use ascension_preservation.Coa.Create.Recorded.{on_char_create-fix_char_create}

abbrev request : Bytes
request = 65 ∷ 0 ∷ 1 ∷ 25 ∷ 0 ∷ 3 ∷ []

abbrev nobody : CoaState ℕ
nobody = record { data_of = []; file = [] }

carried :
    fix_char_create 1 ac_valid_classes true (25 ∷ []) (λ b. b) request none
    ≡ (ok (65 ∷ 0 ∷ 1 ∷ 1 ∷ 0 ∷ 3 ∷ []), some (65 ∷ [], 25))
unfolding fix_char_create fix_at fix_tail index_nul is_one_of carrier_class_for carrier_among stage
    get
carried = refl

-- Blood elves have no warrior.
blood_elf : carrier_class_for 1 ac_valid_classes 10 ≡ 2
unfolding carrier_class_for carrier_among lowest_usable is_one_of get
blood_elf = refl

human : get 1 ac_race_classes ≡ some (1 ∷ 2 ∷ 4 ∷ 5 ∷ 6 ∷ 8 ∷ 9 ∷ [])
unfolding get
human = refl

fix_char_create_example :
    (c : ℕ) × ((fix_char_create 1 ac_valid_classes true (25 ∷ []) (λ b. b) request none).0
      ≡ ok (65 ∷ 0 ∷ 1 ∷ c ∷ 0 ∷ 3 ∷ []))
    × (if is_one_of 25 ac_valid_classes
        then c == 25
        else is_one_of c (1 ∷ 2 ∷ 4 ∷ 5 ∷ 6 ∷ 8 ∷ 9 ∷ []))
      ≡ true
fix_char_create_example =
    fix_char_create_lem 1 true (25 ∷ []) (λ b. b) (65 ∷ []) (0 ∷ 3 ∷ []) 1 25 none
      (1 ∷ 2 ∷ 4 ∷ 5 ∷ 6 ∷ 8 ∷ 9 ∷ []) (refl, tt) human

custom_class : is_one_of 25 ac_valid_classes ≡ false
unfolding is_one_of
custom_class = refl

coa_class : is_one_of 25 (25 ∷ []) ≡ true
unfolding is_one_of
coa_class = refl

on_char_create-fix_char_create_example :
    ((on_char_create
        (λ b. b)
        (0x2F ∷ [])
        ((fix_char_create 1 ac_valid_classes true (25 ∷ []) (λ b. b) request none).1, nobody)).0
      ≡ none)
    × (get_class
          (λ b. b)
          (65 ∷ [])
          ((on_char_create
            (λ b. b)
            (0x2F ∷ [])
            (
              (fix_char_create 1 ac_valid_classes true (25 ∷ []) (λ b. b) request none).1,
              nobody,
            )).1)
        ≡ (if 0x2F == 0x2F && eq_bytes (65 ∷ []) (65 ∷ [])
            then some 25
            else get_class (λ b. b) (65 ∷ []) nobody))
on_char_create-fix_char_create_example =
    on_char_create-fix_char_create (λ b. b) 1 ac_valid_classes (25 ∷ []) (λ b. b) (65 ∷ [])
      (0 ∷ 3 ∷ []) [] [] 1 25 0x2F 65 none nobody (65 ∷ []) (refl, tt) refl custom_class coa_class
