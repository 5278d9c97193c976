-- ===== src/Common/Texts.antt =====
-- Texts as lists of code points, in Python's order.
use Prim.Native.Nat.{ℕ}
use mathlib.Core.Path.{◌≡◌, refl, ap₂}
use mathlib.Core.Bool.{Bool, true, false, ◌&&◌, ◌||◌}
use mathlib.Core.List.{List, [], ◌∷◌}
use native.Mathlib.Omega.{arith}
use ascension_preservation.Common.Tests.{ltb, ◌==◌, if◌then◌else◌}

abbrev pub Text : Type 0
Text = List ℕ

-- The order of texts: by code points, a prefix first.
unfoldable pub text_leb : Text → Text → Bool
text_leb [] t = true
text_leb (c ∷ s) [] = false
text_leb (c ∷ s) (d ∷ t) = ltb c d || (c == d && text_leb s t)

less_total :
    (c d : ℕ) (r q : Bool)
    → (r ≡ false → q ≡ true)
    → (ltb c d || (c == d && r)) ≡ false
    → (ltb d c || (d == c && q)) ≡ true
less_total c d true q h k = ground arith
less_total c d false q h k = let eq : q ≡ true = h refl in rw eq (ground arith)

less_antisym :
    (c d : ℕ) (r q : Bool)
    → (ltb c d || (c == d && r)) ≡ true
    → (ltb d c || (d == c && q)) ≡ true
    → (c ≡ d) × (r ≡ true) × (q ≡ true)
less_antisym c d true true h k = (ground arith, refl, refl)
less_antisym c d true false h k = absurd (ground arith)
less_antisym c d false q h k = absurd (ground arith)

less_trans :
    (c d e : ℕ) (r q p : Bool)
    → (r ≡ true → q ≡ true → p ≡ true)
    → (ltb c d || (c == d && r)) ≡ true
    → (ltb d e || (d == e && q)) ≡ true
    → (ltb c e || (c == e && p)) ≡ true
less_trans c d e true true p h k l = let eq : p ≡ true = h refl refl in rw eq (ground arith)
less_trans c d e true false p h k l = ground arith
less_trans c d e false q p h k l = ground arith

pub text_total : (s t : Text) → text_leb s t ≡ false → text_leb t s ≡ true
unfolding text_leb
text_total [] t h = cc h
text_total (c ∷ s) [] h = refl
text_total (c ∷ s) (d ∷ t) h = less_total c d (text_leb s t) (text_leb t s) (text_total s t) h

pub text_antisym : (s t : Text) → text_leb s t ≡ true → text_leb t s ≡ true → s ≡ t
unfolding text_leb
text_antisym [] [] h k = refl
text_antisym [] (d ∷ t) h k = cc k
text_antisym (c ∷ s) [] h k = cc h
text_antisym (c ∷ s) (d ∷ t) h k =
    let both = less_antisym c d (text_leb s t) (text_leb t s) h k in
    ap₂ (λ x xs. x ∷ xs) (both.0) (text_antisym s t (both.1) (both.2))

pub text_trans : (s t u : Text) → text_leb s t ≡ true → text_leb t u ≡ true → text_leb s u ≡ true
unfolding text_leb
text_trans [] t u h k = refl
text_trans (c ∷ s) [] u h k = cc h
text_trans (c ∷ s) (d ∷ t) [] h k = cc k
text_trans (c ∷ s) (d ∷ t) (e ∷ u) h k =
    less_trans c d e (text_leb s t) (text_leb t u) (text_leb s u) (text_trans s t u) h k

pub text_refl : (s : Text) → text_leb s s ≡ true
unfolding text_leb
text_refl [] = refl
text_refl (c ∷ s) = ground (arith, text_refl s)

-- `min` and `max` of two texts.
unfoldable pub earlier : Text → Text → Text
earlier a b = if text_leb a b then a else b

unfoldable pub later : Text → Text → Text
later a b = if text_leb a b then b else a
