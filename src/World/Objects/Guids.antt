-- ===== src/World/Objects/Guids.antt =====
-- Packed guids are read back, and new guids are new.
use ascension_preservation.Common.{
  ℕ, zero, suc, ◌+◌, ◌-◌, ◌*◌, ◌/◌, ◌%◌, ◌^◌, ◌≤◌, ◌<◌, ◌≡◌, refl, ap, ap₂, ◌∙◌, Bool, true, false,
  not, ◌&&◌, some, List, [], ◌∷◌, ◌++◌, length, max, bit_and, bit_or, ltb, ◌==◌, if◌then◌else◌,
  arith, Bool-cases, inl, inr, ==_iff, All, take-append, drop-append, length-append,
}
use native.Mathlib.Nat.{pow-suc}
use ascension_preservation.Common.Bits.{bit_or-fields_low}
use ascension_preservation.Common.Bytes.{Bytes, le, un_le, un_le-le, length-le}
use ascension_preservation.World.Objects.{
  highest, highest_of_all, next_guid, guid_parts, pack_guid, read_part, read_parts, read_target,
  parse_spell_targets, packed_first, or_zero,
}

-- The mask of a list of flags, and the test that a mask has each flag in its place.
abbrev mask_of : ℕ → List Bool → ℕ
mask_of i [] = 0
mask_of i (b ∷ bs) = if b then bit_or (2 ^ i) (mask_of (i + 1) bs) else mask_of (i + 1) bs

abbrev has_flags : ℕ → List Bool → ℕ → Bool
has_flags i [] mask = true
has_flags i (b ∷ bs) mask =
    (if b then not (bit_and mask (2 ^ i) == 0) else bit_and mask (2 ^ i) == 0)
    && has_flags (i + 1) bs mask

abbrev every : ℕ → (List Bool → Bool) → Bool
every zero test = test []
every (suc n) test = every n (λ bs. test (true ∷ bs)) && every n (λ bs. test (false ∷ bs))

every_sound :
    (n : ℕ) (test : List Bool → Bool) (bs : List Bool)
    → length bs ≡ n
    → every n test ≡ true
    → test bs ≡ true
every_sound zero test [] e h = h
every_sound zero test (b ∷ bs) e h = absurd (omega (arith, e))
every_sound (suc n) test [] e h = absurd (omega (arith, e))
every_sound (suc n) test (true ∷ bs) e h =
    every_sound n (λ bs. test (true ∷ bs)) bs (omega (arith, e)) (ground (arith, h))
every_sound (suc n) test (false ∷ bs) e h =
    every_sound n (λ bs. test (false ∷ bs)) bs (omega (arith, e)) (ground (arith, h))

mask_table : every 8 (λ bs. has_flags 0 bs (mask_of 0 bs)) ≡ true
mask_table = refl

abbrev flags : ℕ → ℕ → List Bool
flags zero g = []
flags (suc n) g = not (g % 256 == 0) ∷ flags n (g / 256)

length-flags : (n g : ℕ) → length (flags n g) ≡ n
length-flags zero g = refl
length-flags (suc n) g = omega (arith, length-flags n (g / 256))

mask_of-flags : (n i g : ℕ) → (guid_parts n i g).0 ≡ mask_of i (flags n g)
unfolding guid_parts
mask_of-flags zero i g = refl
mask_of-flags (suc n) i g = elim (Bool-cases (g % 256 == 0)) [
  | inl absent ↦ rw (absent, mask_of-flags n (i + 1) (g / 256))
  | inr present ↦ rw (present, mask_of-flags n (i + 1) (g / 256))
]

eight_more : (k : ℕ) → 2 ^ suc (suc (suc (suc (suc (suc (suc (suc k))))))) ≡ 256 * 2 ^ k
eight_more k =
    let s = λ (j : ℕ). pow-suc 2 j in
    omega (
      arith,
      s k,
      s (suc k),
      s (suc (suc k)),
      s (suc (suc (suc k))),
      s (suc (suc (suc (suc k)))),
      s (suc (suc (suc (suc (suc k))))),
      s (suc (suc (suc (suc (suc (suc k)))))),
      s (suc (suc (suc (suc (suc (suc (suc k))))))),
    )

one_more : (i : ℕ) → 2 ^ (8 * (i + 1)) ≡ 256 * 2 ^ (8 * i)
one_more i =
    let same : 8 * (i + 1) ≡ suc (suc (suc (suc (suc (suc (suc (suc (8 * i)))))))) = omega arith in
    rw same (eight_more (8 * i))

byte_shift : (i q : ℕ) → q * 2 ^ (8 * (i + 1)) ≡ 256 * (q * 2 ^ (8 * i))
byte_shift i q = omega (arith, ap (λ (t : ℕ). q * t) (one_more i))

byte_split : (i g : ℕ) → g * 2 ^ (8 * i) ≡ (g % 256) * 2 ^ (8 * i) + (g / 256) * 2 ^ (8 * (i + 1))
byte_split i g =
    let parts : g ≡ g % 256 + 256 * (g / 256) = omega arith in
    omega (arith, byte_shift i (g / 256), ap (λ (t : ℕ). t * 2 ^ (8 * i)) parts)

byte_fits : (i acc x : ℕ) → acc < 2 ^ (8 * i) → x < 256 → x * 2 ^ (8 * i) + acc < 2 ^ (8 * (i + 1))
byte_fits i acc x h hx =
    let room : 255 ≡ x + (255 - x) = omega arith in
    omega (arith, one_more i, ap (λ (t : ℕ). t * 2 ^ (8 * i)) room)

-- The first flag, where `absent` is whether the byte is 0 and `clear` whether the mask's bit is.
first_flag :
    (absent clear rest : Bool)
    → ((if not absent then not clear else clear) && rest) ≡ true
    → (clear ≡ absent) × (rest ≡ true)
first_flag true true rest h = (refl, h)
first_flag true false rest h = cc
first_flag false true rest h = cc
first_flag false false rest h = (refl, h)

-- The loop reads back what was packed, where the mask has the guid's flags.
read_parts-guid_parts :
    (n i g guid mask : ℕ) (rest : Bytes)
    → has_flags i (flags n g) mask ≡ true
    → g < 256 ^ n
    → guid < 2 ^ (8 * i)
    → read_parts n i mask ((guid_parts n i g).1 ++ rest) guid ≡ some (g * 2 ^ (8 * i) + guid)
unfolding guid_parts read_parts read_part
read_parts-guid_parts zero i g guid mask rest hm hg hu =
    let nothing : g ≡ 0 = omega arith in rw nothing (ap some (omega arith))
read_parts-guid_parts (suc n) i g guid mask rest hm hg hu =
    let upper : g / 256 < 256 ^ n = omega (arith, pow-suc 256 n) in
    let (flag, more) =
      first_flag (g % 256 == 0) (bit_and mask (2 ^ i) == 0)
        (has_flags (i + 1) (flags n (g / 256)) mask) hm in
    elim (Bool-cases (g % 256 == 0)) [
      | inl absent ↦
          rw (flag, absent)
            (read_parts-guid_parts n (i + 1) (g / 256) guid mask rest more upper
                (omega (arith, one_more i, hu))
              ∙ ap some (
                  omega (
                    arith,
                    byte_split i g,
                    ap (λ (t : ℕ). t * 2 ^ (8 * i)) ((==_iff (g % 256) 0).0 absent),
                  )))
      | inr present ↦
          rw (flag, present, bit_or-fields_low (8 * i) (g % 256) guid hu)
            (read_parts-guid_parts n (i + 1) (g / 256) (g % 256 * 2 ^ (8 * i) + guid) mask rest more
                upper (byte_fits i guid (g % 256) hu (omega arith))
              ∙ ap some (omega (arith, byte_split i g)))
    ]

read_target-pack_guid :
    (guid : ℕ) (rest : Bytes) → guid < 2 ^ 64 → read_target (pack_guid guid ++ rest) ≡ guid
unfolding read_target pack_guid
read_target-pack_guid guid rest h =
    let flagged : has_flags 0 (flags 8 guid) (guid_parts 8 0 guid).0 ≡ true =
      rw (mask_of-flags 8 0 guid) (
        every_sound 8 (λ bs. has_flags 0 bs (mask_of 0 bs)) (flags 8 guid) (length-flags 8 guid)
          mask_table) in
    ap or_zero (
      read_parts-guid_parts 8 0 guid 0 (guid_parts 8 0 guid).0 rest flagged (omega arith)
        (omega arith))
    ∙ omega arith

parse_targets-append :
    (front target : Bytes)
    → length front ≡ 4
    → (bit_and (un_le front) packed_first == 0) ≡ false
    → parse_spell_targets (front ++ target) ≡ (un_le front, read_target target)
unfolding parse_spell_targets
parse_targets-append front target e aimed =
    let enough : ltb (length (front ++ target)) 4 ≡ false =
      ground (arith, length-append front target) in
    rw (enough, take-append 4 front target e, drop-append 4 front target e, aimed) refl

-- A cast aimed at an object: where the mask has one of the flags of a packed guid, the parser finds
-- the mask and the guid that were packed, whatever follows them.
pub parse_spell_targets-pack_guid :
    (mask guid : ℕ) (rest : Bytes)
    → mask < 2 ^ 32
    → guid < 2 ^ 64
    → (bit_and mask packed_first == 0) ≡ false
    → parse_spell_targets (le 4 mask ++ (pack_guid guid ++ rest)) ≡ (mask, guid)
parse_spell_targets-pack_guid mask guid rest hm hg aimed =
    let same : un_le (le 4 mask) ≡ mask = un_le-le 4 mask hm in
    parse_targets-append (le 4 mask) (pack_guid guid ++ rest) (length-le 4 mask)
      (ap (λ (m : ℕ). bit_and m packed_first == 0) same ∙ aimed)
    ∙ ap₂ (λ (m : ℕ) (g : ℕ). (m, g)) same (read_target-pack_guid guid rest hg)

-- A new guid is above every guid that a character has.
highest_ge : (hi : ℕ) (gs : List ℕ) → (hi ≤ highest hi gs) × All (λ g. g ≤ highest hi gs) gs
unfolding highest
highest_ge hi [] = (omega arith, tt)
highest_ge hi (g ∷ gs) =
    let (ge, all) = highest_ge (max hi g) gs in (omega (arith, ge), (omega (arith, ge), all))

weaken : (gs : List ℕ) (a b : ℕ) → a ≤ b → All (λ g. g ≤ a) gs → All (λ g. g ≤ b) gs
weaken [] a b le h = tt
weaken (g ∷ gs) a b le (hg, h) = (omega arith, weaken gs a b le h)

highest_of_all_ge :
    (hi : ℕ) (db : List (List ℕ))
    → (hi ≤ highest_of_all hi db) × All (λ gs. All (λ g. g ≤ highest_of_all hi db) gs) db
unfolding highest_of_all
highest_of_all_ge hi [] = (omega arith, tt)
highest_of_all_ge hi (gs ∷ db) =
    let (own, chars) = highest_ge hi gs in
    let (ge, all) = highest_of_all_ge (highest hi gs) db in
    (omega (arith, own, ge), (weaken gs _ _ ge chars, all))

below_next : (gs : List ℕ) (n : ℕ) → All (λ g. g ≤ n) gs → All (λ g. g < n + 1) gs
below_next [] n h = tt
below_next (g ∷ gs) n (hg, h) = (omega arith, below_next gs n h)

db_below_next :
    (db : List (List ℕ)) (n : ℕ)
    → All (λ gs. All (λ g. g ≤ n) gs) db
    → All (λ gs. All (λ g. g < n + 1) gs) db
db_below_next [] n h = tt
db_below_next (gs ∷ db) n (hg, h) = (below_next gs n hg, db_below_next db n h)

-- The guid of a new character is above that of every character of every account.
pub next_guid_lem : (db : List (List ℕ)) → All (λ gs. All (λ g. g < next_guid db) gs) db
unfolding next_guid
next_guid_lem db = db_below_next db _ (highest_of_all_ge 0 db).1
