-- ===== src/World/Bars.antt =====
-- The action bars of server/world_server.py: `_BARS` and its dirty flag, the layout file, the bursts
-- of CMSG_SET_ACTION_BUTTON, and SMSG_ACTION_BUTTONS. Times are in milliseconds. A layout maps a slot
-- to `action | (type << 24)`. What `ca_known_spells` returns is an argument.
pub mod Buttons
pub mod Edits
pub mod Spellbook
use ascension_preservation.Common.{
  ℕ, zero, suc, ◌+◌, ◌-◌, ◌*◌, ◌/◌, ◌%◌, ◌^◌, Bool, true, false, ◌&&◌, ◌||◌, not, Option, some,
  none, List, [], ◌∷◌, ◌++◌, length, drop, map, set, replicate, ltb, leb, ◌==◌, if◌then◌else◌,
  bit_and, bit_or, Result, ok, err, ◌>>=◌,
}
use ascension_preservation.Common.Bytes.{Bytes, pack, un_le}
use ascension_preservation.Common.Dict.{Dict, get, put, del, sort, get_default}

abbrev pub Slots : Type 0
Slots = Dict ℕ

abbrev pub max_action_buttons : ℕ
max_action_buttons = 144

abbrev pub action_button_action_max : ℕ
action_button_action_max = 0xff_ffff

abbrev pub bars_flush_interval : ℕ
bars_flush_interval = 250

abbrev pub ab_burst_gap : ℕ
ab_burst_gap = 2000

-- `_BARS`, `_BARS_DIRTY`, `_BARS_LAST_FLUSH` and the file that they are saved to.
pub record Bars : Type 0 where
  pub table : Dict Slots
  pub dirty : Bool
  pub last_flush : ℕ
  pub file : Dict Slots

abbrev pub is_empty : Slots → Bool
is_empty [] = true
is_empty _ = false

-- `for g, slots in sorted(...) if slots`, each layout sorted by slot.
pub snapshot_from : Dict Slots → Dict Slots
snapshot_from [] = []
snapshot_from ((g, slots) ∷ rest) =
    let more = snapshot_from rest in if is_empty slots then more else (g, sort slots) ∷ more

pub snapshot : Dict Slots → Dict Slots
unfolding snapshot_from
snapshot table = snapshot_from (sort table)

-- `dict((s, v) ... if int(v))`
pub nonzero : Slots → Slots
nonzero [] = []
nonzero ((s, v) ∷ rest) = let more = nonzero rest in if v == 0 then more else (s, v) ∷ more

-- What `load_bars` makes of the file's contents.
pub load_file : Dict Slots → Dict Slots
unfolding nonzero
load_file [] = []
load_file ((g, slots) ∷ rest) = (g, nonzero slots) ∷ load_file rest

-- `writes` is whether the file system takes the file: the exception is logged, and nothing changes.
pub save_bars : Bool → ℕ → Bool → Bars → Bars
unfolding snapshot
save_bars writes now force b =
    if not b.dirty
    then b
    else if not force && ltb now (b.last_flush + bars_flush_interval)
    then b
    else if writes
    then record b { dirty = false; last_flush = now; file = snapshot b.table }
    else b

unfoldable pub bars_for : ℕ → Bars → Slots
bars_for guid b = get_default (get guid b.table) []

-- `setdefault` enters the character even where nothing changes.
pub bars_set : ℕ → ℕ → ℕ → Bars → Bool × Bars
unfolding bars_for
bars_set guid slot packed b =
    let slots = bars_for guid b in
    let old = get_default (get slot slots) 0 in
    let same = record b { table = put guid slots b.table } in
    let entered = record b { table = put guid (put slot packed slots) b.table; dirty = true } in
    let cleared = record b { table = put guid (del slot slots) b.table; dirty = true } in
    if not (packed == 0)
    then (if old == packed then (false, same) else (true, entered))
    else if old == 0
    then (false, same)
    else (true, cleared)

pub record Spell : Type 0 where
  pub spell : ℕ
  pub passive : Bool

-- The loop of `bars_autofill` from slot `n` on.
pub autofill_from : ℕ → List Spell → Slots → Slots
autofill_from n [] out = out
autofill_from n (s ∷ spells) out =
    let skip = autofill_from n spells out in
    let fill = autofill_from (n + 1) spells (put n (bit_or s.spell 0) out) in
    if s.passive || leb max_action_buttons n
    then skip
    else if ltb action_button_action_max s.spell
    then skip
    else fill

pub bars_autofill : List Spell → Slots
unfolding autofill_from
bars_autofill spells = autofill_from 0 spells []

-- One burst of `_AB_BURST`: `[count, last, changed]`.
pub record Burst : Type 0 where
  pub count : ℕ
  pub last : ℕ
  pub changed : ℕ

-- The log line of `bars_note_packet`.
pub data Note : Type 0 where
  unexpected_body : ℕ → Note
  edit : ℕ → ℕ → Note
  burst : ℕ → ℕ → Note
  quiet : Note

-- The burst that a packet at `now` belongs to.
pub current_burst : ℕ → Option Burst → Burst
current_burst now none = record { count = 0; last = now; changed = 0 }
current_burst now (some st) =
    if ltb (st.last + ab_burst_gap) now then record { count = 0; last = now; changed = 0 } else st

pub note : ℕ → ℕ → Burst → Note
note slot packed st =
    if st.count == 1 && not (packed == 0)
    then edit slot packed
    else if st.count == max_action_buttons || st.count % 64 == 0
    then burst st.count st.changed
    else quiet

-- The connection's bursts stand in `bursts`, by connection id.
pub bars_note_packet : Bool → ℕ → ℕ → ℕ → Bytes → Dict Burst → Bars → Note × Dict Burst × Bars
unfolding save_bars bars_set current_burst note
bars_note_packet writes now cid guid (slot ∷ b0 ∷ b1 ∷ b2 ∷ b3 ∷ []) bursts b =
    let packed = un_le (b0 ∷ b1 ∷ b2 ∷ b3 ∷ []) in
    let (changed, b') = bars_set guid slot packed b in
    let st = current_burst now (get cid bursts) in
    let st' : Burst = record {
      count = st.count + 1;
      last = now;
      changed = st.changed + (if changed then 1 else 0);
    } in
    (note slot packed st', put cid st' bursts, save_bars writes now false b')
bars_note_packet writes now cid guid body bursts b = (unexpected_body (length body), bursts, b)

-- `slots[slot] = packed` for each slot of the layout that is in range.
pub fill_slots : Slots → List ℕ → List ℕ
fill_slots [] slots = slots
fill_slots ((slot, packed) ∷ rest) slots =
    fill_slots rest (if ltb slot max_action_buttons then set slots slot packed else slots)

pub pack_slots : List ℕ → Result Bytes
pack_slots [] = ok []
pack_slots (v ∷ vs) = do b ← pack 4 v; rest ← pack_slots vs; ok (b ++ rest)

-- The layout that is sent; a character with none adopts the demo layout, which is saved at once.
pub adopt_layout : Bool → ℕ → ℕ → List Spell → Bars → Slots × Bars
unfolding bars_for bars_autofill save_bars
adopt_layout writes now guid spells b =
    let saved = bars_for guid b in
    let layout = bars_autofill spells in
    let seeded =
      save_bars writes now true (record b { table = put guid layout b.table; dirty = true }) in
    if not (is_empty saved)
    then (saved, b)
    else if is_empty layout
    then (layout, b)
    else (layout, seeded)

-- State 2 clears the bars and carries no slots.
pub smsg_action_buttons : Bool → ℕ → ℕ → List Spell → ℕ → Bars → Result Bytes × Bars
unfolding adopt_layout fill_slots pack_slots
smsg_action_buttons writes now guid spells state b =
    let (layout, b') = adopt_layout writes now guid spells b in
    let body = (do
      slots ← pack_slots (fill_slots layout (replicate max_action_buttons 0))
      ok ((state % 256) ∷ slots)) in
    if state == 2 then (ok ((state % 256) ∷ []), b) else (body, b')

pub mem : ℕ → List ℕ → Bool
mem x [] = false
mem x (y ∷ ys) = y == x || mem x ys

-- `a - b` of two sets, in the order of `a`.
pub minus : List ℕ → List ℕ → List ℕ
unfolding mem
minus [] b = []
minus (x ∷ a) b = let rest = minus a b in if mem x b then rest else x ∷ rest

insert_id : ℕ → List ℕ → List ℕ
insert_id x [] = x ∷ []
insert_id x (y ∷ ys) = if ltb x y then x ∷ y ∷ ys else if x == y then y ∷ ys else y ∷ insert_id x ys

-- `set(s["spell"] for s in spells)`, kept in order.
pub spell_ids : List Spell → List ℕ
unfolding insert_id
spell_ids [] = []
spell_ids (s ∷ spells) = insert_id s.spell (spell_ids spells)

-- A button for a spell, of the ids in `removed`.
pub is_stale : List ℕ → ℕ → Bool
unfolding mem
is_stale removed packed =
    packed / 2 ^ 24 == 0 && mem (bit_and packed action_button_action_max) removed

pub stale_slots : List ℕ → Slots → List ℕ
stale_slots removed [] = []
stale_slots removed ((slot, packed) ∷ rest) =
    let more = stale_slots removed rest in if is_stale removed packed then slot ∷ more else more

-- `for s in stale: bars_set(guid, s, 0)`
pub unbind : ℕ → List ℕ → Bars → Bars
unfolding bars_set
unbind guid [] b = b
unbind guid (s ∷ stale) b = unbind guid stale (bars_set guid s 0 b).1

pub data SpellPacket : Type 0 where
  learned_spell removed_spell : ℕ → SpellPacket
  action_buttons : Bytes → SpellPacket

-- What `sync_spellbook` unbinds, where a spell was removed at all.
pub drop_stale : Bool → ℕ → ℕ → List ℕ → Bars → Bars
unfolding stale_slots unbind save_bars bars_for
drop_stale writes now guid removed b =
    let stale = stale_slots removed (bars_for guid b) in
    let unbound = save_bars writes now true (unbind guid stale b) in
    if length stale == 0 then b else unbound

-- `sent` is `_SPELLS_SENT`. The packets go out in this order; the bars follow any change.
pub sync_spellbook :
    Bool
    → ℕ
    → ℕ
    → List Spell
    → Dict (List ℕ)
    → Bars
    → Result (List SpellPacket × Dict (List ℕ)) × Bars
unfolding minus spell_ids drop_stale smsg_action_buttons
sync_spellbook writes now guid spells sent b =
    let known = spell_ids spells in
    let was = get_default (get guid sent) [] in
    let learned = minus known was in
    let removed = minus was known in
    let b' = drop_stale writes now guid removed b in
    let (buttons, b'') = smsg_action_buttons writes now guid spells 1 b' in
    let changes = map learned_spell learned ++ map removed_spell removed in
    let resent = (do
      bars ← buttons
      ok (changes ++ (action_buttons bars ∷ []), put guid known sent)) in
    if length learned == 0 && length removed == 0
    then (ok ([], put guid known sent), b')
    else (resent, b'')
