-- ===== src/Coa/Create/Carrier.antt =====
-- What the core is asked to build.
use mathlib.Core.Path.{subst}
use ascension_preservation.Common.{
  ℕ, ◌+◌, ◌≡◌, ◌<◌, refl, sym, ap, ◌∙◌, Bool, true, false, ◌||◌, inl, inr, Bool-cases, All, some,
  List, [], ◌∷◌, ◌++◌, length, drop, take-append, drop-append, drop-drop, lt→ltb, ◌==◌, ==_iff,
  if◌then◌else◌, ok, arith,
}
use ascension_preservation.Common.Bytes.{Bytes}
use ascension_preservation.Common.Dict.{Dict, get}
use ascension_preservation.Coa.CharEnum.{index_nul}
use ascension_preservation.Coa.Create.{
  ac_valid_classes, ac_race_classes, is_one_of, lowest_usable, carrier_among, carrier_class_for,
  Pending, fix_tail, fix_at, fix_char_create,
}

-- The bytes of a name.
abbrev pub IsName : Bytes → Type 0
IsName name = All (λ b. (b == 0) ≡ false) name

index_nul-name : (name rest : Bytes) → IsName name → index_nul (name ++ 0 ∷ rest) ≡ ok (length name)
unfolding index_nul
index_nul-name [] rest h = refl
index_nul-name (b ∷ name) rest (h, hs) = rw (h, index_nul-name name rest hs) refl

-- Some class of the list is valid.
any_usable : List ℕ → Bool
any_usable [] = false
any_usable (c ∷ cs) = is_one_of c ac_valid_classes || any_usable cs

or_true : (a : Bool) {b : Bool} → b ≡ true → (a || b) ≡ true
or_true a h = ground arith

lowest_usable_allowed :
    (fallback : ℕ) (allowed : List ℕ)
    → any_usable allowed ≡ true
    → is_one_of (lowest_usable fallback ac_valid_classes allowed) allowed ≡ true
unfolding lowest_usable any_usable is_one_of
lowest_usable_allowed fallback [] h = cc h
lowest_usable_allowed fallback (c ∷ cs) h = elim (Bool-cases (is_one_of c ac_valid_classes)) [
  | inl e ↦ rw e (ground arith)
  | inr e ↦
      let later : is_one_of (lowest_usable fallback ac_valid_classes cs) cs ≡ true =
        lowest_usable_allowed fallback cs (rw e at h) in
      let next : lowest_usable fallback ac_valid_classes (c ∷ cs)
          ≡ lowest_usable fallback ac_valid_classes cs =
        rw e refl in
      subst (λ x. is_one_of x (c ∷ cs) ≡ true) (sym next)
        (or_true (c == lowest_usable fallback ac_valid_classes cs) later)
]

get-All :
    (P : List ℕ → Type 0) (k : ℕ) (d : Dict (List ℕ)) (v : List ℕ)
    → All (λ e. P e.1) d
    → get k d ≡ some v
    → P v
unfolding get
get-All P k [] v h e = cc e
get-All P k ((j, w) ∷ d) v (h, hs) e = elim (Bool-cases (j == k)) [
  | inl this ↦ let found : some w ≡ some v = rw this at e in subst P (cc found) h
  | inr other ↦ get-All P k d v hs (rw other at e)
]

one_of_small : (c : ℕ) (ds : List ℕ) → All (λ d. d < 256) ds → is_one_of c ds ≡ true → c < 256
unfolding is_one_of
one_of_small c [] h e = cc e
one_of_small c (d ∷ ds) (h, hs) e = ground (arith, h, one_of_small c ds hs)

table_usable : All (λ e. any_usable e.1 ≡ true) ac_race_classes
unfolding any_usable is_one_of
table_usable = (refl, (refl, (refl, (refl, (refl, (refl, (refl, (refl, (refl, (refl, tt))))))))))

table_small : All (λ e. All (λ d. d < 256) e.1) ac_race_classes
table_small = ground arith

carrier_class_for_allowed :
    (fallback race : ℕ) (allowed : List ℕ)
    → get race ac_race_classes ≡ some allowed
    → is_one_of (carrier_class_for fallback ac_valid_classes race) allowed ≡ true
unfolding carrier_class_for carrier_among
carrier_class_for_allowed fallback race allowed e =
    let usable : any_usable allowed ≡ true =
      get-All (λ cs. any_usable cs ≡ true) race ac_race_classes allowed table_usable e in
    elim (Bool-cases (is_one_of fallback allowed)) [
      | inl own ↦ rw (e, own) own
      | inr other ↦ rw (e, other) (lowest_usable_allowed fallback allowed usable)
    ]

-- What the request says, read apart: the code splits it at the end of the name.
pub fix_char_create-name :
    (fallback : ℕ) (valid : List ℕ) (in_coa_mode : Bool) (coa_classes : List ℕ)
    (decode : Bytes → Bytes)
    → (name rest : Bytes) (race class : ℕ) (p : Pending) → IsName name
    → fix_char_create fallback valid in_coa_mode coa_classes decode
        (name ++ 0 ∷ race ∷ class ∷ rest)
        p
      ≡ fix_tail fallback valid in_coa_mode coa_classes decode
          (name ++ 0 ∷ race ∷ class ∷ rest)
          name
          (race ∷ class ∷ rest)
          p
unfolding fix_char_create fix_at
fix_char_create-name fallback valid in_coa_mode coa_classes decode name rest race class p h =
    let body : Bytes = name ++ 0 ∷ race ∷ class ∷ rest in
    let behind : drop (length name + 1) body ≡ race ∷ class ∷ rest =
      sym (drop-drop (length name) 1 (length name + 1) body refl)
      ∙ ap (drop 1) (drop-append (length name) name (0 ∷ race ∷ class ∷ rest) refl) in
    rw
      (
        index_nul-name name (race ∷ class ∷ rest) h,
        take-append (length name) name (0 ∷ race ∷ class ∷ rest) refl,
        behind,
      )
      refl

-- On a stock core: a request with a name, of a race that the core knows, is passed on with its name, its race and all
-- that follows the class as they were. The class is the player's if the core can build it, and otherwise one that the
-- race may be, whatever the fallback is.
pub fix_char_create_lem :
    (fallback : ℕ) (in_coa_mode : Bool) (coa_classes : List ℕ) (decode : Bytes → Bytes)
    → (name rest : Bytes) (race class : ℕ) (p : Pending) (allowed : List ℕ) → IsName name
    → get race ac_race_classes ≡ some allowed
    → (c : ℕ) × ((fix_char_create fallback ac_valid_classes in_coa_mode coa_classes decode
          (name ++ 0 ∷ race ∷ class ∷ rest)
          p).0
        ≡ ok (name ++ 0 ∷ race ∷ c ∷ rest))
      × (if is_one_of class ac_valid_classes then c == class else is_one_of c allowed) ≡ true
unfolding fix_tail
fix_char_create_lem fallback in_coa_mode coa_classes decode name rest race class p allowed h e =
    let carrier : ℕ = carrier_class_for fallback ac_valid_classes race in
    let its : is_one_of carrier allowed ≡ true =
      carrier_class_for_allowed fallback race allowed e in
    let small : carrier < 256 =
      one_of_small carrier allowed
        (get-All (All (λ d. d < 256)) race ac_race_classes allowed table_small e) its in
    rw
      (fix_char_create-name fallback ac_valid_classes in_coa_mode coa_classes decode name rest race
        class p h)
      (elim (Bool-cases (is_one_of class ac_valid_classes)) [
        | inl valid ↦ (class, rw valid refl, rw valid ((==_iff class class).1 refl))
        | inr other ↦ (carrier, rw (other, lt→ltb carrier 256 small) refl, rw other its)
      ])
