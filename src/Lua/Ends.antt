-- ===== src/Lua/Ends.antt =====
-- What holds of the result of a run that does not use up its fuel.
use ascension_preservation.Common.{◌≢◌, Bool, true, false, if◌then◌else◌}
use ascension_preservation.Lua.{Parsed, ok, failed, out_of_fuel, ◌>>=◌}

abbrev pub Ends {ℓ} : {A : Type ℓ} → (A → Type 0) → Parsed A → Type 0
Ends P failed = Unit {0}
Ends P out_of_fuel = ⊥
Ends P (ok a) = P a

abbrev pub Any {ℓ} : {A : Type ℓ} → A → Type 0
Any a = Unit {0}

pub Ends-bind {ℓ κ} :
    {A : Type ℓ} {B : Type κ} (P : A → Type 0) (Q : B → Type 0) (p : Parsed A) (next : A → Parsed B)
    → Ends P p
    → ((a : A) → P a → Ends Q (next a))
    → Ends Q (p >>= next)
Ends-bind P Q failed next h rest = tt
Ends-bind P Q out_of_fuel next h rest = h
Ends-bind P Q (ok a) next h rest = rest a h

pub Ends-if {ℓ} :
    {A : Type ℓ} (P : A → Type 0) (b : Bool) (x y : Parsed A)
    → Ends P x
    → Ends P y
    → Ends P (if b then x else y)
Ends-if P true x y hx hy = hx
Ends-if P false x y hx hy = hy

pub Ends-out {ℓ} : {A : Type ℓ} (P : A → Type 0) (p : Parsed A) → Ends P p → p ≢ out_of_fuel
Ends-out P failed h e = cc e
Ends-out P out_of_fuel h e = h
Ends-out P (ok a) h e = cc e
