-- ===== src/World/Combat.antt =====
-- Health and power in server/world_server.py: `max_pools`, `unit_state`, `regen_tick`, the target
-- dummies, and the damage and healing of spells and of periodic auras. Times are in milliseconds.
-- Of a dummy its health is kept, not where it stands or how it looks. Log lines are left out.
pub mod Effects
pub mod Auras
pub mod Cast
pub mod Within
mod Tests
use ascension_preservation.Common.{
  ℕ, ◌+◌, ◌-◌, ◌*◌, ◌/◌, ◌%◌, ◌^◌, ◌≡◌, Bool, true, false, ◌&&◌, ◌||◌, not, Option, none, some,
  List, [], ◌∷◌, ◌++◌, length, map, min, max, bit_or, ltb, leb, ◌==◌, if◌then◌else◌,
}
use ascension_preservation.Common.Dict.{Dict, get, put, del, get_default}

pub record Character : Type 0 where
  pub guid : ℕ
  pub level : ℕ
  pub class : ℕ

-- `CLASS_POWER`, with mana for the others: 0 mana, 1 rage, 2 focus, 3 energy.
unfoldable pub power_for : ℕ → ℕ
power_for class =
    if class == 1 || class == 6 then 1 else if class == 3 then 2 else if class == 4 then 3 else 0

-- Maximal health and power.
unfoldable pub max_pools : Character → ℕ × ℕ
unfolding power_for
max_pools c =
    let lvl = max 1 c.level in
    (60 + 180 * lvl, if not (power_for c.class % 256 == 0) then 100 else 60 + 55 * lvl)

pub record SpellCost : Type 0 where
  pub power_type : ℕ
  pub mana_cost : ℕ
  pub mana_cost_pct : ℕ

pub power_cost : Option SpellCost → Character → ℕ
power_cost none c = 0
power_cost (some info) c =
    if not (info.power_type == power_for c.class % 256)
    then 0
    else info.mana_cost + info.mana_cost_pct * (max_pools c).1 / 100

pub record Pools : Type 0 where
  pub hp : ℕ
  pub power : ℕ

pub record Dummy : Type 0 where
  pub hp : ℕ
  pub maxhp : ℕ
  pub hit : ℕ

-- One periodic effect of an aura: which of its effects, of what type, how much and how often.
pub record Tick : Type 0 where
  pub index : ℕ
  pub aura : ℕ
  pub amount : ℕ
  pub period : ℕ
  pub next : ℕ

pub record Aura : Type 0 where
  pub spell : ℕ
  pub slot : ℕ
  pub caster : ℕ
  pub target : ℕ
  pub flags : ℕ
  pub level : ℕ
  pub stacks : ℕ
  pub maxdur_ms : ℕ
  pub school : ℕ
  pub expires : Option ℕ
  pub ticks : List Tick

-- `_UNIT_STATE`, `_DUMMIES`, `_DUMMY_SEQ`, `_AURAS` and `_AURA_LAST_TICK`.
pub record Combat : Type 0 where
  pub units : Dict Pools
  pub dummies : Dict Dummy
  pub dummy_seq : ℕ
  pub auras : Dict (Dict Aura)
  pub last_tick : ℕ

-- A packet that is sent, as the call that builds it.
pub data Packet : Type 0 where
  unit_values : ℕ → Pools → ℕ × ℕ → ℕ → Packet
  power_update : ℕ → ℕ → ℕ → Packet
  create_dummy destroy_object : ℕ → Packet
  dummy_health : ℕ → ℕ → Packet
  damage_log : ℕ → ℕ → ℕ → ℕ → ℕ → ℕ → Packet
  heal_log : ℕ → ℕ → ℕ → ℕ → ℕ → Packet
  periodic_log : ℕ → ℕ → ℕ → ℕ → ℕ → ℕ → ℕ → Packet
  aura_update : ℕ → Aura → Packet
  aura_remove : ℕ → ℕ → Packet

-- The character's health and power, full on first use and clamped to the pools.
pub unit_state : Character → Combat → Pools × Combat
unit_state c w =
    let (hp, mp) = max_pools c in
    let st = get_default (get c.guid w.units) (record { hp = hp; power = mp }) in
    let clamped : Pools = record { hp = min st.hp hp; power = min st.power mp } in
    (clamped, record w { units = put c.guid clamped w.units })

pub send_power_update : Character → Combat → List Packet × Combat
unfolding unit_state
send_power_update c w =
    let (st, w') = unit_state c w in
    let ptype = power_for c.class % 256 in
    (unit_values c.guid st (max_pools c) ptype ∷ power_update c.guid ptype st.power ∷ [], w')

-- `int(maxp * ARCHIVE_REGEN_PCT)` is 4 per cent, rounded down.
pub regen_tick : Character → Combat → Bool × List Packet × Combat
unfolding unit_state send_power_update
regen_tick c w =
    let (st, w1) = unit_state c w in
    let maxp = (max_pools c).1 in
    let more : Pools = record st { power = min maxp (st.power + max 1 (maxp * 4 / 100)) } in
    let (sent, w2) = send_power_update c (record w1 { units = put c.guid more w1.units }) in
    if leb maxp st.power then (false, [], w1) else (true, sent, w2)

-- `counter | (entry << 24) | HIGHGUID_UNIT`
pub dummy_guid : ℕ → ℕ
dummy_guid counter = bit_or (bit_or counter (190_000 * 2 ^ 24)) (0xf130 * 2 ^ 48)

abbrev pub archive_dummy_health : ℕ
archive_dummy_health = 200_000

pub spawn_dummy : Combat → List Packet × Combat
unfolding dummy_guid
spawn_dummy w =
    let guid = dummy_guid (w.dummy_seq + 1) in
    let d : Dummy = record { hp = archive_dummy_health; maxhp = archive_dummy_health; hit = 0 } in
    (
      create_dummy guid ∷ [],
      record w { dummy_seq = w.dummy_seq + 1; dummies = put guid d w.dummies },
    )

destroy_all : Dict Dummy → List Packet
destroy_all [] = []
destroy_all ((guid, d) ∷ rest) = destroy_object guid ∷ destroy_all rest

pub despawn_dummies : Combat → ℕ × List Packet × Combat
unfolding destroy_all
despawn_dummies w = (length w.dummies, destroy_all w.dummies, record w { dummies = [] })

-- Every dummy that was left alone for ten seconds heals to full.
pub reset_dummies : ℕ → Dict Dummy → List Packet × Dict Dummy
reset_dummies now [] = ([], [])
reset_dummies now ((guid, d) ∷ rest) =
    let (sent, rest') = reset_dummies now rest in
    if ltb d.hp d.maxhp && leb (d.hit + 10_000) now
    then (dummy_health guid d.maxhp ∷ sent, (guid, record d { hp = d.maxhp }) ∷ rest')
    else (sent, (guid, d) ∷ rest')

pub dummy_tick : ℕ → Combat → List Packet × Combat
unfolding reset_dummies
dummy_tick now w =
    let (sent, dummies) = reset_dummies now w.dummies in (sent, record w { dummies = dummies })
