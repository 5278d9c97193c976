-- ===== src/World/Bars/Spellbook.antt =====
-- What `sync_spellbook` unbinds: exactly the buttons of spells that were unlearned.
use ascension_preservation.Common.{
  ℕ, ◌≡◌, refl, Bool, true, false, ◌&&◌, none, List, [], ◌∷◌, length, ◌==◌, if◌then◌else◌, arith,
  Bool-cases, inl, inr, ==_iff,
}
use ascension_preservation.Common.Dict.{get, get_default}
use ascension_preservation.Common.Dict.Sorted.{Distinct}
use ascension_preservation.World.Bars.{
  Slots, Bars, bars_for, bars_set, save_bars, mem, is_stale, stale_slots, unbind, drop_stale,
}
use ascension_preservation.World.Bars.Edits.{at_slot, button, IsTable, bars_set_lem}

-- Unbinding clears the listed slots of this character and nothing else.
button-unbind :
    (g : ℕ) (stale : List ℕ) (b : Bars) (h t : ℕ)
    → button h t (unbind g stale b) ≡ (if g == h && mem t stale then 0 else button h t b)
unfolding unbind mem
button-unbind g [] b h t = ground arith
button-unbind g (s ∷ stale) b h t =
    ground (arith, button-unbind g stale (bars_set g s 0 b).1 h t, (bars_set_lem g s 0 b h t).0)

fresh_not_stale :
    (removed : List ℕ) (t : ℕ) (slots : Slots)
    → get t slots ≡ none
    → mem t (stale_slots removed slots) ≡ false
unfolding stale_slots mem get
fresh_not_stale removed t [] e = refl
fresh_not_stale removed t ((s, p) ∷ slots) e = ground (arith, fresh_not_stale removed t slots)

-- The same for the first slot of a layout, from the same for the others.
head_slot :
    (removed : List ℕ) (s t p : ℕ) (slots : Slots)
    → mem s (stale_slots removed slots) ≡ false
    → (if mem t (stale_slots removed slots) then 0 else at_slot t slots)
      ≡ (if is_stale removed (at_slot t slots) then 0 else at_slot t slots)
    → (if mem t (stale_slots removed ((s, p) ∷ slots)) then 0 else at_slot t ((s, p) ∷ slots))
      ≡ (if is_stale removed (at_slot t ((s, p) ∷ slots)) then 0 else at_slot t ((s, p) ∷ slots))
unfolding stale_slots get
head_slot removed s t p slots fresh ih = elim (Bool-cases (s == t)) [
  | inl same ↦
      let e : s ≡ t = (==_iff s t).0 same in
      elim (Bool-cases (is_stale removed p)) [
        | inl stale ↦ rw (same, stale) (unfold mem in rw same refl)
        | inr keeps ↦ rw (same, keeps, rw e at fresh) refl
      ]
  | inr other ↦ elim (Bool-cases (is_stale removed p)) [
    | inl stale ↦ rw (other, stale) (unfold mem in rw other ih)
    | inr keeps ↦ rw (other, keeps) ih
  ]
]

-- The slots that are unbound are those whose button is stale: for each, 0 is what it then holds.
mem-stale_slots :
    (removed : List ℕ) (t : ℕ) (slots : Slots)
    → Distinct slots
    → (if mem t (stale_slots removed slots) then 0 else at_slot t slots)
      ≡ (if is_stale removed (at_slot t slots) then 0 else at_slot t slots)
mem-stale_slots removed t [] d = unfold stale_slots mem get in ground arith
mem-stale_slots removed t ((s, p) ∷ slots) (fresh, d) =
    head_slot removed s t p slots (fresh_not_stale removed s slots fresh)
      (mem-stale_slots removed t slots d)

-- Saving does not change the buttons.
button-save_bars :
    (writes : Bool) (now : ℕ) (force : Bool) (b : Bars) (h t : ℕ)
    → button h t (save_bars writes now force b) ≡ button h t b
unfolding save_bars button bars_for
button-save_bars writes now force b h t = ground arith

none_stale : (stale : List ℕ) (t : ℕ) → (length stale == 0) ≡ true → mem t stale ≡ false
none_stale [] t e = unfold mem in refl
none_stale (s ∷ stale) t e = ground arith

-- The character's own slots.
own_slot :
    (removed : List ℕ) (g t : ℕ) (b : Bars)
    → IsTable b.table
    → (if mem t (stale_slots removed (bars_for g b)) then 0 else button g t b)
      ≡ (if is_stale removed (button g t b) then 0 else button g t b)
unfolding button bars_for
own_slot removed g t b w = mem-stale_slots removed t (get_default (get g b.table) []) (w.slots g)

-- After spells were unlearned, a slot of the character that holds a button for one of them is
-- empty, and every other slot, of this character and of any other, is as it was.
pub button-drop_stale :
    (writes : Bool) (now g : ℕ) (removed : List ℕ) (b : Bars) (h t : ℕ)
    → IsTable b.table
    → button h t (drop_stale writes now g removed b)
      ≡ (if g == h && is_stale removed (button h t b) then 0 else button h t b)
unfolding drop_stale
button-drop_stale writes now g removed b h t w =
    let stale = stale_slots removed (bars_for g b) in
    let own = own_slot removed g t b w in
    elim (Bool-cases (g == h)) [
      | inr other ↦ elim (Bool-cases (length stale == 0)) [
        | inl nothing ↦ rw (nothing, other)
        | inr some_stale ↦ rw (some_stale, button-save_bars, button-unbind, other)
      ]
      | inl same ↦ elim (Bool-cases (length stale == 0)) [
        | inl nothing ↦
            rw (nothing, same, ← (==_iff g h).0 same) (rw (none_stale stale t nothing) at own)
        | inr some_stale ↦
            rw (some_stale, button-save_bars, button-unbind, same, ← (==_iff g h).0 same) own
      ]
    ]
