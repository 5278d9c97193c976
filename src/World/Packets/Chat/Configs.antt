-- ===== src/World/Packets/Chat/Configs.antt =====
-- The client reads back what `smsg_update_configs` writes: a count, then each key behind its length, with
-- its value.
use ascension_preservation.Common.{
  ℕ, zero, suc, ◌%◌, ◌^◌, ◌≡◌, refl, ap, ◌∙◌, Bool, true, false, not, Option, none, some, List, [],
  ◌∷◌, ◌++◌, append_assoc, append-nil, length, take, drop, take-append, drop-append, ◌==◌, ok,
  ◌>>=◌,
}
use mathlib.Core.Path.{subst}
use ascension_preservation.Common.Bytes.{Bytes, un_le, un_le-le, length-le, pack}
use ascension_preservation.Common.Packed.{IsPacked, pack-IsPacked}
use ascension_preservation.Common.Returns.{Returns, Returns-bind, Returns-weaken}
use ascension_preservation.World.Packets.{Field, u32, raw, write_field, write_fields}
use ascension_preservation.World.Packets.Chat.{
  config_entries, config_section, int_value, bool_value, smsg_update_configs,
}

module _ {V : Type 0} (read_value : Bytes → Option (V × Bytes)) where
  -- The entry at the front, then the others.
  unfoldable pub read_value_then :
      Bytes
      → Option (V × Bytes)
      → (Bytes → Option (List (Bytes × V) × Bytes))
      → Option (List (Bytes × V) × Bytes)
  read_value_then key none more = none
  read_value_then key (some (v, rest)) more = entry (more rest)
    where
      entry : Option (List (Bytes × V) × Bytes) → Option (List (Bytes × V) × Bytes)
      entry none = none
      entry (some (es, rest')) = some ((key, v) ∷ es, rest')

  unfoldable pub read_config_entries : ℕ → Bytes → Option (List (Bytes × V) × Bytes)
  read_config_entries zero s = some ([], s)
  read_config_entries (suc n) s =
      let size = un_le (take 4 s) in
      read_value_then (take size (drop 4 s)) (read_value (drop size (drop 4 s)))
        (read_config_entries n)

  unfoldable pub read_section : Bytes → Option (List (Bytes × V) × Bytes)
  read_section s = read_config_entries (un_le (take 4 s)) (drop 4 s)

  one_entry :
      (n : ℕ) (size key tail : Bytes)
      → length size ≡ 4
      → un_le size ≡ length key
      → read_config_entries (suc n) (size ++ (key ++ tail))
        ≡ read_value_then key (read_value tail) (read_config_entries n)
  unfolding read_config_entries
  one_entry n size key tail four e =
      rw
        (
          take-append 4 size (key ++ tail) four,
          drop-append 4 size (key ++ tail) four,
          e,
          take-append (length key) key tail refl,
          drop-append (length key) key tail refl,
        )
        refl

-- One field, then the others.
cons-Returns :
    (P Q R : Bytes → Type 0) (f : Field) (fs : List Field)
    → Returns P (write_field f)
    → Returns Q (write_fields fs)
    → ((b bs : Bytes) → P b → Q bs → R (b ++ bs))
    → Returns R (write_fields (f ∷ fs))
unfolding write_fields
cons-Returns P Q R f fs one others both =
    Returns-bind P R (write_field f) (λ b. do bs ← write_fields fs; ok (b ++ bs)) one
      (λ b pb.
        Returns-bind Q R (write_fields fs) (λ bs. ok (b ++ bs)) others (λ bs qbs. both b bs pb qbs))

-- The entries with the values that the client has.
abbrev pub seen_all : {V : Type 0} → (V → V) → List (Bytes × V) → List (Bytes × V)
seen_all seen [] = []
seen_all seen ((key, v) ∷ es) = (key, seen v) ∷ seen_all seen es

module _ {V : Type 0} (pack_value : V → Field) (read_value : Bytes → Option (V × Bytes))
    (seen : V → V)
    (law : (v : V)
      → Returns
          (λ b. (rest : Bytes) → read_value (b ++ rest) ≡ some (seen v, rest))
          (write_field (pack_value v))) where
  ReadsValue : V → Bytes → Type 0
  ReadsValue v b = (rest : Bytes) → read_value (b ++ rest) ≡ some (seen v, rest)

  ReadsEntries : List (Bytes × V) → Bytes → Type 0
  ReadsEntries es b =
      (rest : Bytes)
      → read_config_entries read_value (length es) (b ++ rest) ≡ some (seen_all seen es, rest)

  config_entries-ReadsEntries :
      (es : List (Bytes × V))
      → Returns (ReadsEntries es) (write_fields (config_entries pack_value es))
  unfolding config_entries ReadsEntries ReadsValue
  config_entries-ReadsEntries [] = unfold write_fields read_config_entries in λ rest. refl
  config_entries-ReadsEntries ((key, v) ∷ es) =
      let fields = config_entries pack_value es in
      let Tail : Bytes → Type 0 = λ b.
        (rest : Bytes)
        → read_value_then read_value key (read_value (b ++ rest))
            (read_config_entries read_value (length es))
          ≡ some ((key, seen v) ∷ seen_all seen es, rest) in
      let Keyed : Bytes → Type 0 = λ b. (t : Bytes) × (b ≡ key ++ t) × Tail t in
      cons-Returns (IsPacked 4 (length key)) Keyed (ReadsEntries ((key, v) ∷ es)) (u32 (length key))
        (raw key ∷ pack_value v ∷ fields) (unfold write_field in pack-IsPacked 4 (length key))
        (cons-Returns (λ b. b ≡ key) Tail Keyed (raw key) (pack_value v ∷ fields)
          (unfold write_field in refl)
          (cons-Returns (ReadsValue v) (ReadsEntries es) Tail (pack_value v) fields (law v)
            (config_entries-ReadsEntries es)
            (λ b bs reads others rest.
              rw (append_assoc b bs rest, reads (bs ++ rest))
                (unfold read_value_then in rw (others rest) refl)))
          (λ b t e tail. (t, ap (λ k. k ++ t) e, tail)))
        (λ b bs packed keyed rest.
          let t = keyed.0 in
          let sized : length b ≡ 4 = ap length (packed.0) ∙ length-le 4 (length key) in
          let counted : un_le b ≡ length key =
            ap un_le (packed.0) ∙ un_le-le 4 (length key) (packed.1) in
          ap (read_config_entries read_value (suc (length es))) (
            append_assoc b bs rest
            ∙ ap (λ x. b ++ (x ++ rest)) (keyed.1)
            ∙ ap (λ x. b ++ x) (append_assoc key t rest))
          ∙ one_entry read_value (length es) b key (t ++ rest) sized counted
          ∙ keyed.2 rest)

  -- A section, with anything behind it.
  config_section-reads :
      (es : List (Bytes × V))
      → Returns
          (λ b.
            (rest : Bytes) → read_section read_value (b ++ rest) ≡ some (seen_all seen es, rest))
          (config_section pack_value es)
  unfolding config_section ReadsEntries read_section
  config_section-reads es =
      cons-Returns (IsPacked 4 (length es)) (ReadsEntries es)
        (λ b. (rest : Bytes) → read_section read_value (b ++ rest) ≡ some (seen_all seen es, rest))
        (u32 (length es)) (config_entries pack_value es)
        (unfold write_field in pack-IsPacked 4 (length es)) (config_entries-ReadsEntries es)
        (λ b bs packed reads rest.
          let sized : length b ≡ 4 = ap length (packed.0) ∙ length-le 4 (length es) in
          let counted : un_le b ≡ length es =
            ap un_le (packed.0) ∙ un_le-le 4 (length es) (packed.1) in
          ap (read_section read_value) (append_assoc b bs rest)
          ∙ rw (take-append 4 b (bs ++ rest) sized, drop-append 4 b (bs ++ rest) sized, counted)
              (reads rest))

abbrev pub read_int : Bytes → Option (ℕ × Bytes)
read_int s = some (un_le (take 4 s), drop 4 s)

abbrev pub read_bool : Bytes → Option (Bool × Bytes)
read_bool [] = none
read_bool (b ∷ s) = some (not (b == 0), s)

int_law :
    (v : ℕ)
    → Returns
        (λ b. (rest : Bytes) → read_int (b ++ rest) ≡ some (v % 2 ^ 32, rest))
        (write_field (int_value v))
unfolding write_field
int_law v =
    let Read : Bytes → Type 0 =
      λ b. (rest : Bytes) → read_int (b ++ rest) ≡ some (v % 2 ^ 32, rest) in
    Returns-weaken (IsPacked 4 (v % 2 ^ 32)) Read (pack 4 (v % 2 ^ 32))
      (pack-IsPacked 4 (v % 2 ^ 32))
      (λ b packed rest.
        let sized : length b ≡ 4 = ap length (packed.0) ∙ length-le 4 (v % 2 ^ 32) in
        let counted : un_le b ≡ v % 2 ^ 32 =
          ap un_le (packed.0) ∙ un_le-le 4 (v % 2 ^ 32) (packed.1) in
        rw (take-append 4 b rest sized, drop-append 4 b rest sized, counted) refl)

bool_law :
    (v : Bool)
    → Returns
        (λ b. (rest : Bytes) → read_bool (b ++ rest) ≡ some (v, rest))
        (write_field (bool_value v))
unfolding write_field
bool_law true rest = refl
bool_law false rest = refl

-- An entry as the client has it: the value cut to 32 bits.
abbrev pub cut : List (Bytes × ℕ) → List (Bytes × ℕ)
cut es = seen_all (λ v. v % 2 ^ 32) es

unfoldable pub behind {ℓ κ} :
    {A : Type ℓ} {R : Type κ} → Option (A × Bytes) → (A → Bytes → Option R) → Option R
behind none more = none
behind (some (a, s)) more = more a s

-- The four sections, one behind the other, and what follows them.
unfoldable pub read_configs :
    Bytes
    → Option (List (Bytes × ℕ) × List (Bytes × Bool) × List (Bytes × ℕ) × List (Bytes × ℕ) × Bytes)
read_configs s = behind (read_section read_int s) (λ ints s.
    behind (read_section read_bool s) (λ bools s. behind (read_section read_int s) (λ floats s.
      behind (read_section read_int s) (λ floats2 s. some (ints, bools, floats, floats2, s)))))

Section : {V : Type 0} → (Bytes → Option (V × Bytes)) → List (Bytes × V) → Bytes → Type 0
Section read es b = (rest : Bytes) → read_section read (b ++ rest) ≡ some (es, rest)

same_bools : (es : List (Bytes × Bool)) → seen_all (λ v. v) es ≡ es
same_bools [] = refl
same_bools ((key, v) ∷ es) = ap (λ rest. (key, v) ∷ rest) (same_bools es)

read_all :
    (a b c d : Bytes) (ints : List (Bytes × ℕ)) (bools : List (Bytes × Bool))
    (floats floats2 : List (Bytes × ℕ))
    → Section read_int ints a
    → Section read_bool bools b
    → Section read_int floats c
    → Section read_int floats2 d
    → read_configs (a ++ (b ++ (c ++ d))) ≡ some (ints, bools, floats, floats2, [])
unfolding read_configs behind Section
read_all a b c d ints bools floats floats2 ha hb hc hd =
    let end : read_section read_int d ≡ some (floats2, []) =
      subst (λ x. read_section read_int x ≡ some (floats2, [])) (append-nil d) (hd []) in
    rw (ha (b ++ (c ++ d)), hb (c ++ d), hc d, end) refl

-- The body of `SMSG_UPDATE_CONFIGS`, if it can be packed, is read back to its last byte: the four sections in
-- their order, each with its keys in theirs, and numbers cut to 32 bits.
pub read_configs-smsg_update_configs :
    (ints : List (Bytes × ℕ)) (bools : List (Bytes × Bool)) (floats floats2 : List (Bytes × ℕ))
    (body : Bytes)
    → smsg_update_configs ints bools floats floats2 ≡ ok body
    → read_configs body ≡ some (cut ints, bools, cut floats, cut floats2, [])
unfolding smsg_update_configs Section
read_configs-smsg_update_configs ints bools floats floats2 body e =
    let numbers = λ (es : List (Bytes × ℕ)).
      config_section-reads int_value read_int (λ v. v % 2 ^ 32) int_law es in
    let flags : Returns (Section read_bool bools) (config_section bool_value bools) =
      subst
        (λ es.
          Returns (λ b. (rest : Bytes) → read_section read_bool (b ++ rest) ≡ some (es, rest))
            (config_section bool_value bools))
        (same_bools bools) (config_section-reads bool_value read_bool (λ v. v) bool_law bools) in
    let Whole : Bytes → Type 0 =
      λ x. read_configs x ≡ some (cut ints, bools, cut floats, cut floats2, []) in
    let third = config_section int_value floats in
    let fourth = config_section int_value floats2 in
    subst (Returns Whole) e (
      Returns-bind (Section read_int (cut ints)) Whole (config_section int_value ints)
        (λ a. do
          b ← config_section bool_value bools
          c ← third
          d ← fourth
          ok (a ++ (b ++ (c ++ d))))
        (numbers ints)
        (λ a ha.
          Returns-bind (Section read_bool bools) Whole (config_section bool_value bools)
            (λ b. do c ← third; d ← fourth; ok (a ++ (b ++ (c ++ d)))) flags
            (λ b hb.
              Returns-bind (Section read_int (cut floats)) Whole third
                (λ c. do d ← fourth; ok (a ++ (b ++ (c ++ d)))) (numbers floats)
                (λ c hc.
                  Returns-bind (Section read_int (cut floats2)) Whole fourth
                    (λ d. ok (a ++ (b ++ (c ++ d)))) (numbers floats2)
                    (λ d hd.
                      read_all a b c d (cut ints) bools (cut floats) (cut floats2) ha hb hc hd)))))
