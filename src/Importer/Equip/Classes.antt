-- ===== src/Importer/Equip/Classes.antt =====
-- Which classes a mask of an item admits, as its row is loaded.
use ascension_preservation.Common.{
  ℕ, zero, suc, ◌+◌, ◌-◌, ◌^◌, ◌≤◌, ◌<◌, ◌≡◌, refl, sym, ap, ◌∙◌, Bool, true, false, not, ◌&&◌,
  ◌||◌, bit_or, bit_and, min, inl, inr, Bool-cases, ◌==◌, ==_iff, if◌then◌else◌, ltb, leb, arith,
}
use ascension_preservation.Common.Bits.{all_below, all_below_sound}
use ascension_preservation.Common.Dict.{get}
use ascension_preservation.Common.Digit.{
  bit_set, bit_set-digit, bit_set-bit_or, digit, digit_zero, digit-bit_and,
}
use ascension_preservation.Common.Integers.{ℤ, low_word}
use ascension_preservation.Importer.Equip.{
  legacy_class, expand_classes, expand_legacy_class_mask, item_allowable_class_mask,
  custom_class_bits, classless_class_mask,
}

-- `class_mask & (1 << (class_id - 1))`
abbrev pub admits : ℕ → ℕ → Bool
admits mask class_id = bit_set mask (class_id - 1)

pred : (n : ℕ) → suc n - 1 ≡ n
pred n = omega arith

not-true : (b : Bool) → not b ≡ true → b ≡ false
not-true true h = cc h
not-true false h = refl

-- One step of the loop.
set_class :
    (test : Bool) (from result n : ℕ)
    → 1 ≤ from
    → bit_set (if test then bit_or result (2 ^ (from - 1)) else result) n
      ≡ (test && from == suc n || bit_set result n)
set_class false from result n h = refl
set_class true from result n h = bit_set-bit_or result (from - 1) n ∙ ground arith

expand_classes_below :
    (count from mask result n : ℕ)
    → suc n < from
    → bit_set (expand_classes count from mask result) n ≡ bit_set result n
unfolding expand_classes
expand_classes_below zero from mask result n h = refl
expand_classes_below (suc count) from mask result n h =
    let test : Bool = bit_set mask (legacy_class from - 1) in
    expand_classes_below count (suc from) mask
      (if test then bit_or result (2 ^ (from - 1)) else result) n (omega arith)
    ∙ set_class test from result n (omega arith)
    ∙ ground arith

expand_classes_at :
    (count from mask result n : ℕ)
    → 1 ≤ from
    → from ≤ suc n
    → suc n < from + count
    → bit_set (expand_classes count from mask result) n
      ≡ (bit_set mask (legacy_class (suc n) - 1) || bit_set result n)
unfolding expand_classes
expand_classes_at zero from mask result n h low high = absurd (omega arith)
expand_classes_at (suc count) from mask result n h low high =
    let test : Bool = bit_set mask (legacy_class from - 1) in
    let next : ℕ = if test then bit_or result (2 ^ (from - 1)) else result in
    let step : bit_set next n ≡ (test && from == suc n || bit_set result n) =
      set_class test from result n h in
    elim (Bool-cases (from == suc n)) [
      | inl e ↦
          let this : from ≡ suc n = (==_iff from (suc n)).0 e in
          expand_classes_below count (suc from) mask next n (omega arith)
          ∙ step
          ∙ rw (e, this) (ground arith)
      | inr e ↦
          expand_classes_at count (suc from) mask next n (omega arith) (ground arith) (omega arith)
          ∙ rw (step, e) (ground arith)
    ]

-- The bits of `CUSTOM_CLASS_BITS`.
custom_bits_table : all_below 32 (λ n. ltb n 11 || digit custom_class_bits n == 1) ≡ true
unfolding all_below
custom_bits_table = refl

-- A mask that names no custom class admits none.
admits_no_custom :
    (mask n : ℕ) → bit_and mask custom_class_bits ≡ 0 → 11 ≤ n → n < 32 → bit_set mask n ≡ false
admits_no_custom mask n none_named low high =
    let custom : (ltb n 11 || digit custom_class_bits n == 1) ≡ true =
      all_below_sound 32 (λ n. ltb n 11 || digit custom_class_bits n == 1) n high
        custom_bits_table in
    let both : min (digit mask n) (digit custom_class_bits n) ≡ digit 0 n =
      sym (digit-bit_and n mask custom_class_bits) ∙ ap (λ m. digit m n) none_named in
    bit_set-digit mask n ∙ ground (arith, digit_zero n)

legacy_table : all_below 12 (λ c. legacy_class c == c) ≡ true
unfolding all_below legacy_class get
legacy_table = refl

expand_legacy_class_mask-admits :
    (mask c : ℕ)
    → 1 ≤ c
    → c ≤ 32
    → bit_and mask custom_class_bits ≡ 0
    → admits (expand_legacy_class_mask mask) c ≡ admits mask (legacy_class c)
unfolding expand_legacy_class_mask
expand_legacy_class_mask-admits mask zero low high h = absurd (omega arith)
expand_legacy_class_mask-admits mask (suc n) low high h = elim (Bool-cases (ltb n 11)) [
  | inl stock ↦
      let same : legacy_class (suc n) ≡ suc n =
        (==_iff _ _).0
          (all_below_sound 12 (λ c. legacy_class c == c) (suc n) (ground arith) legacy_table) in
      rw (h, same, pred n) (expand_classes_below 21 12 mask mask n (ground arith))
  | inr custom ↦
      rw (h, pred n)
        (expand_classes_at 21 12 mask mask n (omega arith) (ground arith) (omega arith)
          ∙ rw (admits_no_custom mask n h (ground arith) (omega arith)) (ground arith))
]

-- The class ids of a mask that names only the reserved class.
classless_test : ℕ → Bool
classless_test n =
    let set = bit_set (bit_or classless_class_mask custom_class_bits) n in
    if suc n == 10 || leb 12 (suc n) then set else not set

classless_table : all_below 32 classless_test ≡ true
unfolding all_below classless_test bit_set
classless_table = refl

classless_admits :
    (n : ℕ)
    → n < 32
    → bit_set (bit_or classless_class_mask custom_class_bits) n ≡ (suc n == 10 || leb 12 (suc n))
unfolding classless_test
classless_admits n h =
    let passed : classless_test n ≡ true = all_below_sound 32 classless_test n h classless_table in
    elim (Bool-cases (suc n == 10 || leb 12 (suc n))) [
      | inl e ↦ rw e (rw e at passed)
      | inr e ↦ rw e (not-true _ (rw e at passed))
    ]

-- Which of the 32 classes an item admits, as its row is loaded: the reserved class and every custom one, where the
-- mask is the reserved class alone; where the mask names a custom class, those that it names; and otherwise each
-- class whose legacy class it names, which a stock class is itself.
pub item_allowable_class_mask-admits :
    (allowable_class : ℤ) (c : ℕ)
    → 1 ≤ c
    → c ≤ 32
    → admits (item_allowable_class_mask allowable_class) c ≡ (
        if low_word allowable_class == classless_class_mask
        then (c == 10 || leb 12 c)
        else if bit_and (low_word allowable_class) custom_class_bits == 0
        then admits (low_word allowable_class) (legacy_class c)
        else admits (low_word allowable_class) c)
unfolding item_allowable_class_mask
item_allowable_class_mask-admits a zero low high = absurd (omega arith)
item_allowable_class_mask-admits a (suc n) low high =
    elim (Bool-cases (low_word a == classless_class_mask)) [
      | inl e ↦
          rw (e, (==_iff (low_word a) classless_class_mask).0 e, pred n)
            (classless_admits n (omega arith))
      | inr e ↦ elim (Bool-cases (bit_and (low_word a) custom_class_bits == 0)) [
        | inl no_custom ↦
            rw (e, no_custom)
              (expand_legacy_class_mask-admits (low_word a) (suc n) low high
                ((==_iff _ _).0 no_custom))
        | inr custom ↦ rw (e, custom) (unfold expand_legacy_class_mask in rw custom refl)
      ]
    ]
