-- ===== src/World/Bars/Buttons.antt =====
-- What SMSG_ACTION_BUTTONS carries: every slot of the layout, in its place.
use ascension_preservation.Common.{
  ℕ, zero, suc, ◌*◌, ◌<◌, ◌^◌, ◌%◌, ◌≡◌, ◌≢◌, refl, ap, ◌∙◌, Bool, false, List, [], ◌∷◌, ◌++◌,
  length, ltb, lt→ltb, ◌==◌, if◌then◌else◌, arith, Bool-cases, inl, inr, All, take, drop, set,
  get_or, length-set, All-set, get_or-set_self, get_or-set_ne, replicate, All-replicate,
  get_or-replicate, length-replicate, ok, ==_iff,
}
use ascension_preservation.Common.Bytes.{Bytes, le, un_le, un_le-le, pack-eq-ok}
use ascension_preservation.Common.Dict.{get, get_default}
use ascension_preservation.Common.Dict.Sorted.{Distinct}
use ascension_preservation.World.Bars.{
  Slots, Bars, Spell, bars_for, fill_slots, pack_slots, smsg_action_buttons, adopt_layout,
  max_action_buttons, is_empty,
}
use ascension_preservation.World.Bars.Edits.{button, IsTable}

-- The `i`-th u32 of a body.
abbrev pub word_at : ℕ → Bytes → ℕ
word_at zero b = un_le (take 4 b)
word_at (suc i) b = word_at i (drop 4 b)

abbrev pub IsU32 : ℕ → Type 0
IsU32 v = v < 2 ^ 32

abbrev words : List ℕ → Bytes
words [] = []
words (v ∷ vs) = le 4 v ++ words vs

pack_slots-words : (vs : List ℕ) → All IsU32 vs → pack_slots vs ≡ ok (words vs)
unfolding pack_slots
pack_slots-words [] h = refl
pack_slots-words (v ∷ vs) (hv, h) = rw (pack-eq-ok 4 v hv, pack_slots-words vs h)

length-words : (vs : List ℕ) → length (words vs) ≡ 4 * length vs
length-words [] = refl
length-words (v ∷ vs) = omega (arith, length-words vs)

word_at-words :
    (vs : List ℕ) (i : ℕ) → All IsU32 vs → i < length vs → word_at i (words vs) ≡ get_or vs i 0
word_at-words [] i h lt = absurd (omega arith)
word_at-words (v ∷ vs) zero (hv, h) lt = un_le-le 4 v hv
word_at-words (v ∷ vs) (suc i) (hv, h) lt = word_at-words vs i h (omega arith)

-- One slot written, as long as the array is the right size.
abbrev write_slot : ℕ → ℕ → List ℕ → List ℕ
write_slot slot packed slots = if ltb slot max_action_buttons then set slots slot packed else slots

length-write_slot : (s p : ℕ) (xs : List ℕ) → length (write_slot s p xs) ≡ length xs
length-write_slot s p xs = ground (arith, length-set xs s p)

All-write_slot : (s p : ℕ) (xs : List ℕ) → IsU32 p → All IsU32 xs → All IsU32 (write_slot s p xs)
All-write_slot s p xs hp h = elim (Bool-cases (ltb s max_action_buttons)) [
  | inl inside ↦ rw inside (All-set IsU32 xs s p h hp)
  | inr outside ↦ rw outside h
]

length-fill_slots : (layout : Slots) (xs : List ℕ) → length (fill_slots layout xs) ≡ length xs
unfolding fill_slots
length-fill_slots [] xs = refl
length-fill_slots ((s, p) ∷ layout) xs =
    length-fill_slots layout (write_slot s p xs) ∙ length-write_slot s p xs

All-fill_slots :
    (layout : Slots) (xs : List ℕ)
    → All (λ w. IsU32 w.1) layout
    → All IsU32 xs
    → All IsU32 (fill_slots layout xs)
unfolding fill_slots
All-fill_slots [] xs hl h = h
All-fill_slots ((s, p) ∷ layout) xs (hp, hl) h =
    All-fill_slots layout (write_slot s p xs) hl (All-write_slot s p xs hp h)

get_or-write_slot :
    (s p : ℕ) (xs : List ℕ) (i : ℕ) → s ≢ i → get_or (write_slot s p xs) i 0 ≡ get_or xs i 0
get_or-write_slot s p xs i ne = elim (Bool-cases (ltb s max_action_buttons)) [
  | inl inside ↦ rw inside (get_or-set_ne xs s i p 0 ne)
  | inr outside ↦ rw outside
]

get_or-fill_slots :
    (layout : Slots) (xs : List ℕ) (i : ℕ)
    → Distinct layout
    → length xs ≡ max_action_buttons
    → i < max_action_buttons
    → get_or (fill_slots layout xs) i 0 ≡ get_default (get i layout) (get_or xs i 0)
unfolding fill_slots get
get_or-fill_slots [] xs i d len lt = refl
get_or-fill_slots ((s, p) ∷ layout) xs i (fresh, d) len lt =
    get_or-fill_slots layout (write_slot s p xs) i d (length-write_slot s p xs ∙ len) lt
    ∙ elim (Bool-cases (s == i)) [
      | inl same ↦
          rw (same, ← (==_iff s i).0 same, fresh, lt→ltb s 144 (omega (arith, (==_iff s i).0 same)))
            (get_or-set_self xs s p 0 (omega (arith, (==_iff s i).0 same)))
      | inr other ↦ rw other (
          ap (get_default (get i layout))
            (get_or-write_slot s p xs i (λ e. absurd (ground (arith, e)))))
    ]

-- What the client reads: where the character has a saved layout and the bars are not cleared, the
-- body is the state and 144 words, and the word of each slot is that slot's button.
pub word_at-smsg_action_buttons :
    (writes : Bool) (now g : ℕ) (spells : List Spell) (state : ℕ) (b : Bars) (i : ℕ)
    → IsTable b.table
    → All (λ w. IsU32 w.1) (bars_for g b)
    → is_empty (bars_for g b) ≡ false
    → (state == 2) ≡ false
    → i < max_action_buttons
    → (body : Bytes) × (smsg_action_buttons writes now g spells state b
        ≡ (ok ((state % 256) ∷ body), b))
      × (length body ≡ 576)
      × (word_at i body ≡ button g i b)
unfolding smsg_action_buttons adopt_layout button bars_for
word_at-smsg_action_buttons writes now g spells state b i w small filled shown lt =
    let layout = get_default (get g b.table) [] in
    let blank : List ℕ = replicate 144 0 in
    let slots = fill_slots layout blank in
    let len : length slots ≡ 144 =
      length-fill_slots layout blank ∙ length-replicate {A = ℕ} 144 0 in
    let all = All-fill_slots layout blank small (All-replicate IsU32 144 0 (omega arith)) in
    (
      words slots,
      rw (shown, filled, pack_slots-words slots all),
      omega (arith, length-words slots),
      word_at-words slots i all (omega arith)
          ∙ get_or-fill_slots layout blank i (w.slots g) (length-replicate {A = ℕ} 144 0) lt
          ∙ ap (get_default (get i layout)) (get_or-replicate {A = ℕ} 144 0 i),
    )
