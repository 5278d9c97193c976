-- ===== src/World/Tests.antt =====
-- A character with two buttons.
use ascension_preservation.Common.{
  ◌≡◌, refl, Bool, true, false, some, none, [], ◌∷◌, length, arith, ok, ◌==◌, if◌then◌else◌,
}
use ascension_preservation.Common.Bytes.{Bytes}
use ascension_preservation.Common.Dict.{get, get_default}
use ascension_preservation.Common.Dict.Sorted.{Distinct}
use ascension_preservation.World.Bars.{
  Slots, Bars, bars_for, save_bars, load_file, is_stale, drop_stale, smsg_action_buttons,
}
use ascension_preservation.World.Bars.Edits.{at_slot, button, IsTable, save_bars-load_file}
use ascension_preservation.World.Bars.Spellbook.{button-drop_stale}
use ascension_preservation.World.Bars.Buttons.{word_at, word_at-smsg_action_buttons}

abbrev test_slots : Slots
test_slots = (3, 133) ∷ (0, 78) ∷ []

abbrev test_bars : Bars
test_bars = record { table = (7, test_slots) ∷ []; dirty = true; last_flush = 0; file = [] }

own_slots : (o : Bool) → Distinct (get_default (if o then some test_slots else none) [])
unfolding get
own_slots true = (refl, (refl, tt))
own_slots false = tt

test_bars-IsTable : IsTable test_bars.table
test_bars-IsTable = record {
  guids = unfold get in (refl, tt);
  slots = λ g. unfold get in own_slots (7 == g);
}

save_bars-load_file_example :
    at_slot 3 (get_default (get 7 (load_file (save_bars true 1000 true test_bars).file)) [])
    ≡ button 7 3 test_bars
save_bars-load_file_example = save_bars-load_file 1000 7 3 test_bars test_bars-IsTable refl

button-drop_stale_example :
    button 7 3 (drop_stale true 1000 7 (133 ∷ []) test_bars)
    ≡ (if is_stale (133 ∷ []) (button 7 3 test_bars) then 0 else button 7 3 test_bars)
button-drop_stale_example = button-drop_stale true 1000 7 (133 ∷ []) test_bars 7 3 test_bars-IsTable

test_bars_for : bars_for 7 test_bars ≡ test_slots
unfolding bars_for get
test_bars_for = refl

word_at-smsg_action_buttons_example :
    (body : Bytes) × (smsg_action_buttons true 1000 7 [] 1 test_bars ≡ (ok (1 ∷ body), test_bars))
    × (length body ≡ 576)
    × (word_at 3 body ≡ button 7 3 test_bars)
word_at-smsg_action_buttons_example =
    word_at-smsg_action_buttons true 1000 7 [] 1 test_bars 3 test_bars-IsTable
      (rw test_bars_for (omega arith)) (rw test_bars_for refl) refl (omega arith)
