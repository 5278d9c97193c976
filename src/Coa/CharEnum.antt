-- ===== src/Coa/CharEnum.antt =====
-- `rewrite_char_enum` and `bytes0_for`. The names are of any type, `decode` is
-- `.decode("utf-8", "replace")`; `class_for_name` answers with the class, if it has one for the name.
pub mod Bytes0
pub mod Same
use Prim.Native.Nat.{bit_or}
use ascension_preservation.Common.{
  ℕ, zero, suc, ◌+◌, ◌-◌, ◌*◌, ◌%◌, ◌^◌, Bool, true, false, ◌&&◌, ◌||◌, Option, none, some, List,
  [], ◌∷◌, ◌++◌, length, take, drop, set, get_or, ltb, ◌==◌, if◌then◌else◌, Result, ok, err,
  struct_error, value_error, ◌>>=◌,
}
use ascension_preservation.Common.Bytes.{Bytes, un_le}
use ascension_preservation.Common.Dict.{Dict, put}

-- The list of changes: a name with its old and its new class, or the one that reports a surprise.
pub data Change {ℓ} (Name : Type ℓ) : Type ℓ where
  changed : Name → ℕ → ℕ → Change Name
  parse_failed : Change Name

pub record Enumeration {ℓ} (Name : Type ℓ) : Type ℓ where
  pub body : Bytes
  pub changes : List (Change Name)
  pub roster : Dict Name
  pub looks : Dict (ℕ × ℕ)

-- `body.index(b"\x00", off)`, from `off`.
unfoldable pub index_nul : Bytes → Result ℕ
index_nul [] = err value_error
index_nul (b ∷ s) = let later = (do n ← index_nul s; ok (suc n)) in if b == 0 then ok 0 else later

-- What follows the name and its end: race, class, gender; appearance, level; zone, map; position; guild;
-- flags; the first login; the pet; the equipment.
abbrev pub after_name : ℕ
after_name = 3 + 5 + 1 + (4 + 4) + 12 + 4 + (4 + 4) + 1 + 12 + 23 * 9

module _ {ℓ} {Name : Type ℓ} (decode : Bytes → Name) (class_for_name : Name → Option ℕ) where
  -- The record with the class in its place, and the change if it is one. A class is a byte.
  unfoldable pub with_class : Name → ℕ → Bytes → Option ℕ → Result (Bytes × List (Change Name))
  with_class name place bytes none = ok (bytes, [])
  with_class name place bytes (some want) =
      let was = get_or bytes place 0 in
      if was == want
      then ok (bytes, [])
      else if ltb want 256
      then ok (set bytes place want, changed name was want ∷ [])
      else err value_error

  -- One record at the front of `rest`: what it becomes, its guid, its name, its race and gender, and what
  -- follows it.
  pub record Projected : Type ℓ where
    pub guid : ℕ
    pub name : Name
    pub look : ℕ × ℕ
    pub bytes : Bytes
    pub change : List (Change Name)
    pub others : Bytes

  unfoldable pub name_of : Bytes → ℕ → Name
  name_of rest z = decode (take z (drop 8 rest))

  unfoldable pub project_named : Bytes → ℕ → ℕ → Result Projected
  project_named rest guid z = do
    (bytes, change) ←
        with_class (name_of rest z) (8 + z + 1 + 1) (take (8 + z + 1 + after_name) rest)
          (class_for_name (name_of rest z))
    ok record {
      guid = guid;
      name = name_of rest z;
      look = (get_or rest (8 + z + 1) 0, get_or rest (8 + z + 1 + 2) 0);
      bytes = bytes;
      change = change;
      others = drop (8 + z + 1 + after_name) rest;
    }

  unfoldable pub project_record : Bytes → Result Projected
  project_record rest = do
    guid ← (if ltb (length rest) 8 then err struct_error else ok (un_le (take 8 rest)))
    z ← index_nul (drop 8 rest)
    (if ltb (length rest) (8 + z + 1 + after_name)
        then err value_error
        else project_named rest guid z)

  unfoldable pub project_all : ℕ → Bytes → Enumeration Name → Result (Enumeration Name)
  project_all zero [] done = ok done
  project_all zero (b ∷ rest) done = err value_error
  project_all (suc count) rest done = do
    p ← project_record rest
    project_all count p.others record {
      body = done.body ++ p.bytes;
      changes = done.changes ++ p.change;
      roster = put p.guid p.name done.roster;
      looks = put p.guid p.look done.looks;
    }

  unfoldable pub or_original : Bytes → Result (Enumeration Name) → Enumeration Name
  or_original body (ok done) = done
  or_original body (err e) = record {
    body = body;
    changes = parse_failed ∷ [];
    roster = [];
    looks = [];
  }

  unfoldable pub rewrite_char_enum : Bytes → Enumeration Name
  rewrite_char_enum [] = record { body = []; changes = []; roster = []; looks = [] }
  rewrite_char_enum (count ∷ rest) =
      or_original (count ∷ rest)
        (project_all count rest record { body = count ∷ []; changes = []; roster = []; looks = [] })

-- `UNIT_FIELD_BYTES_0`
unfoldable pub bytes0_for : ℕ → ℕ → ℕ → ℕ → ℕ
bytes0_for race clas gender power =
    bit_or (bit_or (bit_or (race % 256) (clas % 256 * 2 ^ 8)) (gender % 256 * 2 ^ 16))
      (power % 256 * 2 ^ 24)
