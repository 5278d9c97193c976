-- ===== src/Common/Outcome.antt =====
-- What a Python function returns or raises. `struct_error` is `struct.error`, `value_error` is
-- `ValueError`, and so on.
use mathlib.Core.Path.{◌≡◌, refl}

pub data Error : Type 0 where
  struct_error value_error index_error runtime_error zero_division : Error

pub data Result {ℓ} (A : Type ℓ) : Type ℓ where
  err : Error → Result A
  ok : A → Result A

infixl 5 ◌>>=◌
-- An exception ends the block it is raised in.
abbrev pub ◌>>=◌ {ℓ κ} : {A : Type ℓ} {B : Type κ} → Result A → (A → Result B) → Result B
err raised >>= next = err raised
ok value >>= next = next value

-- A block that returns: what its first step returned, and what the others made of it.
pub >>=-eq-ok {ℓ κ} :
    {A : Type ℓ} {B : Type κ} (first : Result A) (others : A → Result B) {y : B}
    → (first >>= others) ≡ ok y
    → (x : A) × (first ≡ ok x) × (others x ≡ ok y)
>>=-eq-ok (err raised) others e = cc
>>=-eq-ok (ok x) others e = (x, refl, e)
