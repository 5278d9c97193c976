-- ===== src/Common/Returns.antt =====
-- What holds of what a function returns, if it returns.
use mathlib.Core.Path.{◌≡◌, refl}
use mathlib.Core.Bool.{Bool, true, false}
use ascension_preservation.Common.Tests.{if◌then◌else◌}
use ascension_preservation.Common.Outcome.{Result, ok, err, ◌>>=◌}

abbrev pub Returns {ℓ κ} : {A : Type ℓ} → (A → Type κ) → Result A → Type κ
Returns P (err e) = Unit {κ}
Returns P (ok a) = P a

pub Returns-bind {ℓ κ μ ν} :
    {A : Type ℓ} {B : Type κ} (P : A → Type μ) (Q : B → Type ν) (p : Result A) (next : A → Result B)
    → Returns P p
    → ((a : A) → P a → Returns Q (next a))
    → Returns Q (p >>= next)
Returns-bind P Q (err e) next h rest = tt
Returns-bind P Q (ok a) next h rest = rest a h

pub Returns-if {ℓ κ} :
    {A : Type ℓ} (P : A → Type κ) (b : Bool) (x y : Result A)
    → (b ≡ true → Returns P x)
    → (b ≡ false → Returns P y)
    → Returns P (if b then x else y)
Returns-if P true x y hx hy = hx refl
Returns-if P false x y hx hy = hy refl

abbrev pub Any {ℓ} : {A : Type ℓ} → A → Type 0
Any a = Unit {0}

pub Returns-Any {ℓ} : {A : Type ℓ} (p : Result A) → Returns Any p
Returns-Any (err e) = tt
Returns-Any (ok a) = tt

pub Returns-weaken {ℓ κ μ} :
    {A : Type ℓ} (P : A → Type κ) (Q : A → Type μ) (p : Result A)
    → Returns P p
    → ((a : A) → P a → Q a)
    → Returns Q p
Returns-weaken P Q (err e) h weaken = tt
Returns-weaken P Q (ok a) h weaken = weaken a h
