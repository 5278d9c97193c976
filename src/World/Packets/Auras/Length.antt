-- ===== src/World/Packets/Auras/Length.antt =====
-- How long the packets of an aura are. The client reads their tails by the flags and by the type of the aura.
use ascension_preservation.Common.{
  ap, ◌∙◌, ℕ, ◌+◌, ◌≡◌, refl, Bool, true, false, Bool-cases, inl, inr, List, [], ◌∷◌, ◌++◌, length,
  length-append, max, bit_and, ◌==◌, if◌then◌else◌, ok, ◌>>=◌, arith,
}
use ascension_preservation.Common.Bytes.{Bytes, length-le, pack}
use ascension_preservation.Common.Packed.{IsPacked, pack-IsPacked}
use ascension_preservation.Common.Returns.{Returns-weaken, Returns, Returns-bind}
use mathlib.Core.Path.{subst}
use ascension_preservation.World.Combat.{Aura}
use ascension_preservation.World.Combat.Effects.{Kind, inert, harm, help, power, kind_of}
use ascension_preservation.World.Objects.{pack_guid}
use ascension_preservation.World.Packets.{Field, u8, u16, u32, u64, raw, write_field, write_fields}
use ascension_preservation.World.Packets.Auras.{
  aflag_caster, aflag_duration, caster_tail, duration_tail, smsg_aura_update, periodic_tail,
  with_tail, smsg_periodic_aura_log,
}

width : Field → ℕ
width (u8 v) = 1
width (u16 v) = 2
width (u32 v) = 4
width (u64 v) = 8
width (raw b) = length b

widths : List Field → ℕ
widths [] = 0
widths (f ∷ fs) = width f + widths fs

HasLength : ℕ → Bytes → Type 0
HasLength n b = length b ≡ n

pack-HasLength : (n v : ℕ) → Returns (HasLength n) (pack n v)
unfolding HasLength
pack-HasLength n v =
    Returns-weaken (IsPacked n v) (λ b. length b ≡ n) (pack n v) (pack-IsPacked n v)
      (λ b h. ap length (h.0) ∙ length-le n v)

write_field-HasLength : (f : Field) → Returns (HasLength (width f)) (write_field f)
unfolding write_field width HasLength
write_field-HasLength (u8 v) = refl
write_field-HasLength (u16 v) = pack-HasLength 2 v
write_field-HasLength (u32 v) = pack-HasLength 4 v
write_field-HasLength (u64 v) = pack-HasLength 8 v
write_field-HasLength (raw b) = refl

write_fields-HasLength : (fs : List Field) → Returns (HasLength (widths fs)) (write_fields fs)
unfolding write_fields widths HasLength
write_fields-HasLength [] = refl
write_fields-HasLength (f ∷ fs) =
    Returns-bind (HasLength (width f)) (HasLength (width f + widths fs)) (write_field f)
      (λ b. do bs ← write_fields fs; ok (b ++ bs)) (write_field-HasLength f)
      (λ b one.
        Returns-bind (HasLength (widths fs)) (HasLength (width f + widths fs)) (write_fields fs)
          (λ bs. ok (b ++ bs)) (write_fields-HasLength fs)
          (λ bs rest. omega (arith, one, rest, length-append b bs)))

written_length : (fs : List Field) (b : Bytes) → write_fields fs ≡ ok b → length b ≡ widths fs
unfolding HasLength
written_length fs b e = subst (Returns (HasLength (widths fs))) e (write_fields-HasLength fs)

pub caster_part : Aura → ℕ
caster_part a = if bit_and a.flags aflag_caster == 0 then length (pack_guid a.caster) else 0

pub duration_part : Aura → ℕ
duration_part a = if bit_and a.flags aflag_duration == 0 then 0 else 8

tails_width :
    (now : ℕ) (a : Aura)
    → widths (caster_tail a ++ duration_tail now a) ≡ caster_part a + duration_part a
unfolding caster_tail duration_tail caster_part duration_part widths width
tails_width now a = elim (Bool-cases (bit_and a.flags aflag_caster == 0)) [
  | inl other ↦ elim (Bool-cases (bit_and a.flags aflag_duration == 0)) [
    | inl endless ↦ rw (other, endless) (omega arith)
    | inr timed ↦ rw (other, timed) (omega arith)
  ]
  | inr own ↦ elim (Bool-cases (bit_and a.flags aflag_duration == 0)) [
    | inl endless ↦ rw (own, endless) (omega arith)
    | inr timed ↦ rw (own, timed) (omega arith)
  ]
]

-- The update of an aura is five bytes behind its target's packed guid when it is removed, and otherwise
-- eight, the caster's packed guid exactly if the flags lack `AFLAG_CASTER`, and eight more exactly if they
-- have `AFLAG_DURATION`.
pub smsg_aura_update-length :
    (now target : ℕ) (removing : Bool) (a : Aura) (b : Bytes)
    → smsg_aura_update now target removing a ≡ ok b
    → length b
      ≡ length (pack_guid target) + (if removing then 5 else 8 + caster_part a + duration_part a)
unfolding smsg_aura_update widths width
smsg_aura_update-length now target true a b e =
    let fields = raw (pack_guid target) ∷ u8 a.slot ∷ u32 0 ∷ [] in
    omega (arith, written_length fields b e)
smsg_aura_update-length now target false a b e =
    let fields =
      raw (pack_guid target)
      ∷ u8 a.slot
      ∷ u32 a.spell
      ∷ u8 a.flags
      ∷ u8 a.level
      ∷ u8 (max 1 a.stacks)
      ∷ (caster_tail a ++ duration_tail now a) in
    omega (arith, tails_width now a, written_length fields b e)

-- How long the tail of a periodic log is: damage has a school and a resist, healing does not, power has two
-- numbers.
pub tail_length : Kind → ℕ
tail_length harm = 21
tail_length help = 13
tail_length power = 8
tail_length inert = 0

pub is_logged : Kind → Bool
is_logged harm = true
is_logged help = true
is_logged power = true
is_logged inert = false

head : ℕ → ℕ → ℕ → ℕ → List Field
head target caster spell aura_type =
    raw (pack_guid target) ∷ raw (pack_guid caster) ∷ u32 spell ∷ u32 1 ∷ u32 aura_type ∷ []

by_kind :
    (target caster spell aura_type amount overflow school_mask : ℕ) (kind : Kind) (b : Bytes)
    → with_tail
        (head target caster spell aura_type)
        (periodic_tail kind amount overflow school_mask)
      ≡ ok b
    → length b ≡ (
        if is_logged kind
        then length (pack_guid target) + length (pack_guid caster) + 12 + tail_length kind
        else 0)
unfolding with_tail periodic_tail is_logged tail_length head widths width
by_kind target caster spell aura_type amount overflow school_mask harm b e =
    let fields =
      head target caster spell aura_type
      ++ (u32 amount ∷ u32 overflow ∷ u32 school_mask ∷ u32 0 ∷ u32 0 ∷ u8 0 ∷ []) in
    omega (arith, written_length fields b e)
by_kind target caster spell aura_type amount overflow school_mask help b e =
    let fields =
      head target caster spell aura_type ++ (u32 amount ∷ u32 overflow ∷ u32 0 ∷ u8 0 ∷ []) in
    omega (arith, written_length fields b e)
by_kind target caster spell aura_type amount overflow school_mask power b e =
    let fields = head target caster spell aura_type ++ (u32 0 ∷ u32 amount ∷ []) in
    omega (arith, written_length fields b e)
by_kind target caster spell aura_type amount overflow school_mask inert b e =
    subst (λ r. Returns (λ c. length c ≡ 0) r) e refl

-- The log of a tick has twelve bytes behind the packed guids of target and caster, and the tail that its
-- type has; a tick of any other type is not logged at all.
pub smsg_periodic_aura_log-length :
    (target caster spell aura_type amount overflow school_mask : ℕ) (b : Bytes)
    → smsg_periodic_aura_log target caster spell aura_type amount overflow school_mask ≡ ok b
    → length b ≡ (
        if is_logged (kind_of aura_type)
        then length (pack_guid target)
          + length (pack_guid caster)
          + 12
          + tail_length (kind_of aura_type)
        else 0)
unfolding smsg_periodic_aura_log head
smsg_periodic_aura_log-length target caster spell aura_type amount overflow school_mask b e =
    by_kind target caster spell aura_type amount overflow school_mask (kind_of aura_type) b e
