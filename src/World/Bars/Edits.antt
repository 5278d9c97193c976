-- ===== src/World/Bars/Edits.antt =====
-- What an edit of the bars changes, and what stays.
use ascension_preservation.Common.{
  ℕ, ◌≡◌, refl, ◌∙◌, true, ◌&&◌, not, Option, some, none, [], ◌∷◌, ◌==◌, if◌then◌else◌, arith,
  Bool-cases, inl, inr,
}
use ascension_preservation.Common.Dict.{
  Dict, get, put, del, sort, get_default, get-put, get-del, get-sort,
}
use ascension_preservation.Common.Dict.Sorted.{Distinct, put-Distinct, del-Distinct, sort-Distinct}
use ascension_preservation.World.Bars.{
  Slots, Bars, bars_for, bars_set, save_bars, load_file, nonzero, snapshot, snapshot_from,
}

-- What a slot of a layout holds, 0 where it is empty, and what a character's slot holds.
abbrev pub at_slot : ℕ → Slots → ℕ
at_slot slot slots = get_default (get slot slots) 0

unfoldable pub button : ℕ → ℕ → Bars → ℕ
button guid slot b = at_slot slot (bars_for guid b)

-- Every character once, every slot of a layout once.
pub record IsTable (table : Dict Slots) : Type 0 where
  pub guids : Distinct table
  pub slots : (g : ℕ) → Distinct (get_default (get g table) [])

bars_for-put :
    (g h : ℕ) (slots : Slots) (b : Bars)
    → get_default (get h (put g slots b.table)) [] ≡ (if g == h then slots else bars_for h b)
unfolding bars_for
bars_for-put g h slots b = ground (arith, get-put g h slots b.table)

-- CMSG_SET_ACTION_BUTTON sets its own slot, 0 clearing it, and no other slot of any character; the
-- answer is whether the layout changed; and where it did the layout is marked for saving.
pub bars_set_lem :
    (g slot packed : ℕ) (b : Bars) (h t : ℕ)
    → (button h t (bars_set g slot packed b).1
        ≡ (if g == h && slot == t then packed else button h t b))
      × ((bars_set g slot packed b).0 ≡ not (button g slot b == packed))
      × ((bars_set g slot packed b).1.dirty ≡ (if button g slot b == packed then b.dirty else true))
unfolding bars_set button
bars_set_lem g slot packed b h t = ground (
  arith,
  get-put g h (bars_for g b) b.table,
  get-put g h (put slot packed (bars_for g b)) b.table,
  get-put g h (del slot (bars_for g b)) b.table,
  get-put slot t packed (bars_for g b),
  get-del slot t (bars_for g b),
)

put-IsTable :
    (g : ℕ) (slots : Slots) (table : Dict Slots)
    → IsTable table
    → Distinct slots
    → IsTable (put g slots table)
put-IsTable g slots table w d = record {
  guids = put-Distinct g slots table w.guids;
  slots = λ h. elim (Bool-cases (g == h)) [
    | inl same ↦ rw (get-put g h slots table, same) d
    | inr other ↦ rw (get-put g h slots table, other) (w.slots h)
  ];
}

-- An edit keeps every character and every slot entered once.
pub bars_set-IsTable :
    (g slot packed : ℕ) (b : Bars) → IsTable b.table → IsTable (bars_set g slot packed b).1.table
unfolding bars_set
bars_set-IsTable g slot packed b w =
    let own : Distinct (bars_for g b) = unfold bars_for in w.slots g in
    let old = get_default (get slot (bars_for g b)) 0 in
    let same = put-IsTable g (bars_for g b) b.table w own in
    elim (Bool-cases (packed == 0)) [
      | inl clears ↦ elim (Bool-cases (old == 0)) [
        | inl free ↦ rw (clears, free) same
        | inr held ↦
            rw (clears, held) (put-IsTable g _ b.table w (del-Distinct slot (bars_for g b) own))
      ]
      | inr sets ↦ elim (Bool-cases (old == packed)) [
        | inl known ↦ rw (sets, known) same
        | inr new ↦
            rw (sets, new) (put-IsTable g _ b.table w (put-Distinct slot packed (bars_for g b) own))
      ]
    ]

-- Saving and loading.
at_slot-nonzero :
    (t : ℕ) (slots : Slots) → Distinct slots → at_slot t (nonzero slots) ≡ at_slot t slots
unfolding nonzero get
at_slot-nonzero t [] d = refl
at_slot-nonzero t ((s, v) ∷ slots) (fresh, d) = ground (arith, at_slot-nonzero t slots d, fresh)

abbrev reloaded : Option Slots → Option Slots
reloaded none = none
reloaded (some slots) = some (nonzero slots)

get-load_file : (g : ℕ) (file : Dict Slots) → get g (load_file file) ≡ reloaded (get g file)
unfolding load_file get
get-load_file g [] = refl
get-load_file g ((h, slots) ∷ file) = ground (arith, get-load_file g file)

layout-load_file :
    (g t : ℕ) (o : Option Slots)
    → Distinct (get_default o [])
    → at_slot t (get_default (reloaded o) []) ≡ at_slot t (get_default o [])
layout-load_file g t none d = refl
layout-load_file g t (some slots) d = at_slot-nonzero t slots d

abbrev saved : Option Slots → Option Slots
saved none = none
saved (some []) = none
saved (some (x ∷ slots)) = some (sort (x ∷ slots))

get-snapshot_from :
    (g : ℕ) (table : Dict Slots)
    → Distinct table
    → get g (snapshot_from table) ≡ saved (get g table)
unfolding snapshot_from get
get-snapshot_from g [] d = refl
get-snapshot_from g ((h, []) ∷ table) (fresh, d) =
    ground (arith, get-snapshot_from g table d, fresh)
get-snapshot_from g ((h, x ∷ slots) ∷ table) (fresh, d) =
    ground (arith, get-snapshot_from g table d)

saved-sorted : (o : Option Slots) → get_default (saved o) [] ≡ sort (get_default o [])
saved-sorted none = unfold sort in refl
saved-sorted (some []) = unfold sort in refl
saved-sorted (some (x ∷ slots)) = refl

-- A forced save that the file system takes writes every button: loading the file again finds, for
-- each character and slot, what the table had, provided the table is well formed and marked.
pub save_bars-load_file :
    (now g t : ℕ) (b : Bars)
    → IsTable b.table
    → b.dirty ≡ true
    → at_slot t (get_default (get g (load_file (save_bars true now true b).file)) []) ≡ button g t b
unfolding save_bars snapshot button bars_for
save_bars-load_file now g t b w dirty =
    let stored : get g (snapshot_from (sort b.table)) ≡ saved (get g b.table) =
      get-snapshot_from g (sort b.table) (sort-Distinct b.table w.guids)
      ∙ rw (get-sort g b.table) in
    let inner : Distinct (get_default (saved (get g b.table)) []) =
      rw (saved-sorted (get g b.table))
        (sort-Distinct (get_default (get g b.table) []) (w.slots g)) in
    rw (dirty, get-load_file g (snapshot_from (sort b.table)), stored)
      (layout-load_file g t (saved (get g b.table)) inner
        ∙ rw (saved-sorted (get g b.table), get-sort t (get_default (get g b.table) [])))
