-- ===== src/Coa/Create.antt =====
-- server/ascension_bridge.py: the creation of a character in CoA mode. The class that the player chose is staged when
-- the request passes, and recorded when the core has built the character. `decode` is `.decode("utf-8", "replace")`.
pub mod Carrier
pub mod Recorded
mod Tests
use ascension_preservation.Common.{
  ℕ, zero, suc, ◌+◌, Bool, true, false, not, ◌&&◌, ◌||◌, Option, none, some, List, [], ◌∷◌, ◌++◌,
  length, take, drop, ltb, ◌==◌, if◌then◌else◌, Result, ok, err, value_error, ◌>>=◌,
}
use ascension_preservation.Common.Bytes.{Bytes}
use ascension_preservation.Common.Dict.{Dict, get}
use ascension_preservation.Coa.CharEnum.{index_nul}
use ascension_preservation.Coa.State.{CoaState, set_class}

-- The sets, in ascending order.
abbrev pub ac_valid_classes : List ℕ
ac_valid_classes = 1 ∷ 2 ∷ 3 ∷ 4 ∷ 5 ∷ 6 ∷ 7 ∷ 8 ∷ 9 ∷ 11 ∷ []

abbrev pub ac_race_classes : Dict (List ℕ)
ac_race_classes =
    (1, 1 ∷ 2 ∷ 4 ∷ 5 ∷ 6 ∷ 8 ∷ 9 ∷ [])
    ∷ (2, 1 ∷ 3 ∷ 4 ∷ 5 ∷ 6 ∷ 7 ∷ 9 ∷ [])
    ∷ (3, 1 ∷ 2 ∷ 3 ∷ 4 ∷ 5 ∷ 6 ∷ [])
    ∷ (4, 1 ∷ 3 ∷ 4 ∷ 5 ∷ 6 ∷ 11 ∷ [])
    ∷ (5, 1 ∷ 4 ∷ 5 ∷ 6 ∷ 8 ∷ 9 ∷ [])
    ∷ (6, 1 ∷ 3 ∷ 6 ∷ 7 ∷ 11 ∷ [])
    ∷ (7, 1 ∷ 4 ∷ 6 ∷ 8 ∷ 9 ∷ [])
    ∷ (8, 1 ∷ 3 ∷ 4 ∷ 5 ∷ 6 ∷ 8 ∷ 9 ∷ [])
    ∷ (10, 2 ∷ 3 ∷ 4 ∷ 5 ∷ 6 ∷ 8 ∷ 9 ∷ [])
    ∷ (11, 1 ∷ 2 ∷ 3 ∷ 5 ∷ 6 ∷ 8 ∷ [])
    ∷ []

unfoldable pub is_one_of : ℕ → List ℕ → Bool
is_one_of c [] = false
is_one_of c (d ∷ ds) = d == c || is_one_of c ds

-- The lowest class that is allowed and valid, or the fallback.
unfoldable pub lowest_usable : ℕ → List ℕ → List ℕ → ℕ
lowest_usable fallback valid [] = fallback
lowest_usable fallback valid (c ∷ allowed) =
    if is_one_of c valid then c else lowest_usable fallback valid allowed

unfoldable pub carrier_among : ℕ → List ℕ → Option (List ℕ) → ℕ
carrier_among fallback valid none = fallback
carrier_among fallback valid (some allowed) =
    if is_one_of fallback allowed then fallback else lowest_usable fallback valid allowed

unfoldable pub carrier_class_for : ℕ → List ℕ → ℕ → ℕ
carrier_class_for fallback valid race = carrier_among fallback valid (get race ac_race_classes)

-- `pending_coa_class`
abbrev pub Pending : Type 0
Pending = Option (Bytes × ℕ)

module _ (fallback : ℕ) (valid : List ℕ) (in_coa_mode : Bool) (coa_classes : List ℕ)
    (decode : Bytes → Bytes) where
  -- What is staged for a name and a class that the core cannot build. An empty name changes nothing.
  unfoldable pub stage : Bytes → ℕ → Pending → Pending
  stage [] class p = p
  stage (b ∷ name) class p = if is_one_of class coa_classes then some (b ∷ name, class) else none

  -- The tail behind the name: race, class, and the rest. What is staged stays so if the carrier is no byte.
  unfoldable pub fix_tail : Bytes → Bytes → Bytes → Pending → Result Bytes × Pending
  fix_tail body name [] p = (ok body, p)
  fix_tail body name (race ∷ []) p = (ok body, p)
  fix_tail body name (race ∷ class ∷ rest) p =
      let carrier = carrier_class_for fallback valid race in
      if is_one_of class valid then (ok body, p) else (
        if ltb carrier 256 then ok (name ++ 0 ∷ race ∷ carrier ∷ rest) else err value_error,
        if in_coa_mode then stage (decode name) class p else p,
      )

  unfoldable pub fix_at : Result ℕ → Bytes → Pending → Result Bytes × Pending
  fix_at (err e) body p = (ok body, p)
  fix_at (ok z) body p = fix_tail body (take z body) (drop (z + 1) body) p

  unfoldable pub fix_char_create : Bytes → Pending → Result Bytes × Pending
  fix_char_create body p = fix_at (index_nul body) body p

-- The core's answer. A body that is empty is passed on as it is.
module _ {Record : Type 0} (lower : Bytes → Bytes) where
  unfoldable pub commit_pending : ℕ → Pending → CoaState Record → CoaState Record
  commit_pending code none s = s
  commit_pending code (some (name, class)) s =
      if code == 0x2F then set_class lower name class s else s

  unfoldable pub on_char_create : Bytes → Pending × CoaState Record → Pending × CoaState Record
  on_char_create [] (p, s) = (p, s)
  on_char_create (code ∷ rest) (p, s) = (none, commit_pending code p s)
