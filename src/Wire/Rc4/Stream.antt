-- ===== src/Wire/Rc4/Stream.antt =====
-- The cipher is a stream: a message may be enciphered in pieces, and the same state deciphers it.
use ascension_preservation.Common.{
  suc, ◌≡◌, refl, ap, Option, none, some, [], ◌∷◌, ◌++◌, length, All,
}
use ascension_preservation.Common.Bits.{bit_xor-cancel}
use ascension_preservation.Common.Bytes.{Bytes, IsByte}
use ascension_preservation.Wire.Rc4.{Rc4, advance, key_byte, crypt, crypt?}
use ascension_preservation.Wire.Rc4.State.{IsState, advance-IsState, key_byte-IsByte, crypt-IsState}

-- Enciphering in two calls gives the bytes, and leaves the state, of one call on the concatenation.
pub crypt-append :
    (r : Rc4) (a b : Bytes)
    → crypt r (a ++ b) ≡ ((crypt r a).0 ++ (crypt (crypt r a).1 b).0, (crypt (crypt r a).1 b).1)
unfolding crypt
crypt-append r [] b = refl
crypt-append r (x ∷ a) b = rw (crypt-append (advance r) a b)

-- Deciphering from the same state gives the message back, and both ends are left in one state.
pub crypt-crypt :
    (b : Bytes) {r : Rc4} → IsState r → All IsByte b → crypt r (crypt r b).0 ≡ (b, (crypt r b).1)
unfolding crypt
crypt-crypt [] w h = refl
crypt-crypt (x ∷ b) {r} w h = rw (
  crypt-crypt b (advance-IsState w) h.1,
  bit_xor-cancel x (key_byte (advance r)) h.0 (key_byte-IsByte (advance-IsState w)),
)

pub length-crypt : (r : Rc4) (b : Bytes) → length (crypt r b).0 ≡ length b
unfolding crypt
length-crypt r [] = refl
length-crypt r (x ∷ b) = ap suc (length-crypt (advance r) b)

-- The same laws where the cipher may be absent.
abbrev pub IsState? : Option Rc4 → Type 0
IsState? none = Unit
IsState? (some r) = IsState r

pub crypt?-append :
    (e : Option Rc4) (a b : Bytes)
    → crypt? e (a ++ b)
      ≡ ((crypt? e a).0 ++ (crypt? (crypt? e a).1 b).0, (crypt? (crypt? e a).1 b).1)
unfolding crypt?
crypt?-append none a b = refl
crypt?-append (some r) a b = rw crypt-append

pub crypt?-crypt? :
    (b : Bytes) (e : Option Rc4)
    → IsState? e
    → All IsByte b
    → crypt? e (crypt? e b).0 ≡ (b, (crypt? e b).1)
unfolding crypt?
crypt?-crypt? b none w h = refl
crypt?-crypt? b (some r) w h = rw (crypt-crypt b w h)

pub length-crypt? : (e : Option Rc4) (b : Bytes) → length (crypt? e b).0 ≡ length b
unfolding crypt?
length-crypt? none b = refl
length-crypt? (some r) b = length-crypt r b

pub crypt?-IsState : (b : Bytes) (e : Option Rc4) → IsState? e → IsState? (crypt? e b).1
unfolding crypt?
crypt?-IsState b none w = w
crypt?-IsState b (some r) w = crypt-IsState b w
