-- ===== src/Wire/Rc4/State.antt =====
-- The array of the cipher is a permutation of the 256 byte values, after the key schedule and after
-- every byte.
use ascension_preservation.Common.{
  ℕ, zero, suc, ◌+◌, ◌%◌, ◌≤◌, ◌<◌, ◌≡◌, refl, List, [], ◌∷◌, arith, length, get_or, set, All,
  All-set, All-get_or, length-set, ◌==◌, if◌then◌else◌, ok, ==_iff, true, ap,
}
use ascension_preservation.Common.Bits.{all_below, all_below_sound}
use ascension_preservation.Common.Bytes.{Bytes, IsByte}
use ascension_preservation.Wire.Rc4.{
  Rc4, swap, range_from, schedule_step, schedule, init, new, advance, key_byte, crypt,
}

abbrev hit : ℕ → ℕ → ℕ
hit v w = if v == w then 1 else 0

abbrev pub count : ℕ → List ℕ → ℕ
count v [] = 0
count v (x ∷ xs) = hit v x + count v xs

-- Every byte value once, and nothing else.
pub record IsPermutation (s : Bytes) : Type 0 where
  pub size : length s ≡ 256
  pub bytes : All IsByte s
  pub once : (v : ℕ) → v < 256 → count v s ≡ 1

pub record IsState (r : Rc4) : Type 0 where
  pub perm : IsPermutation r.s
  pub i_lt : r.i < 256
  pub j_lt : r.j < 256

count-set :
    (v : ℕ) (xs : List ℕ) (i w : ℕ)
    → i < length xs
    → count v (set xs i w) + hit v (get_or xs i 0) ≡ count v xs + hit v w
count-set v [] i w h = absurd (omega arith)
count-set v (x ∷ xs) zero w h = omega arith
count-set v (x ∷ xs) (suc i) w h = omega (arith, count-set v xs i w (omega arith))

get_or-set_other : (xs : List ℕ) (i j : ℕ) → get_or (set xs i (get_or xs j 0)) j 0 ≡ get_or xs j 0
get_or-set_other xs i j = set_at xs i j (get_or xs j 0) refl
  where
    set_at : (ys : List ℕ) (m n w : ℕ) → w ≡ get_or ys n 0 → get_or (set ys m w) n 0 ≡ get_or ys n 0
    set_at [] m n w e = refl
    set_at (y ∷ ys) zero zero w e = e
    set_at (y ∷ ys) zero (suc n) w e = refl
    set_at (y ∷ ys) (suc m) zero w e = refl
    set_at (y ∷ ys) (suc m) (suc n) w e = set_at ys m n w e

count-swap :
    (v : ℕ) (s : Bytes) (i j : ℕ) → i < length s → j < length s → count v (swap s i j) ≡ count v s
unfolding swap
count-swap v s i j hi hj = omega (
  arith,
  count-set v s i (get_or s j 0) hi,
  count-set v (set s i (get_or s j 0)) j (get_or s i 0)
      (omega (arith, length-set s i (get_or s j 0))),
  ap (hit v) (get_or-set_other s i j),
)

swap-IsPermutation :
    {s : Bytes} (i j : ℕ) → i < 256 → j < 256 → IsPermutation s → IsPermutation (swap s i j)
swap-IsPermutation {s} i j hi hj p = record {
  size =
      unfold swap in
      omega (
        arith,
        p.size,
        length-set (set s i (get_or s j 0)) j (get_or s i 0),
        length-set s i (get_or s j 0),
      );
  bytes =
      unfold swap in
      All-set IsByte _ j _
        (All-set IsByte s i _ p.bytes (All-get_or IsByte s j 0 p.bytes (omega arith)))
        (All-get_or IsByte s i 0 p.bytes (omega arith));
  once = λ v hv.
      omega
        (arith, count-swap v s i j (omega (arith, p.size)) (omega (arith, p.size)), p.once v hv);
}

-- The key schedule keeps a permutation a permutation.
schedule-IsPermutation :
    (key : Bytes) (n i : ℕ) (s : Bytes) (j : ℕ)
    → i + n ≤ 256
    → j < 256
    → IsPermutation s
    → IsPermutation (schedule key n i (s, j)).0
unfolding schedule schedule_step
schedule-IsPermutation key zero i s j hi hj p = p
schedule-IsPermutation key (suc n) i s j hi hj p =
    schedule-IsPermutation key n (i + 1) (swap s i k) k (omega arith) (omega arith)
      (swap-IsPermutation i k (omega arith) (omega arith) p)
  where
    k : ℕ
    k = (j + get_or s i 0 + get_or key (i % length key) 0) % 256

identity_once : all_below 256 (λ v. count v (range_from 0 256) == 1) ≡ true
unfolding all_below range_from
identity_once = refl

identity-IsPermutation : IsPermutation (range_from 0 256)
identity-IsPermutation = record {
  size = unfold range_from in refl;
  bytes = unfold range_from in omega arith;
  once = λ v hv.
      (==_iff _ _).0
        (all_below_sound 256 (λ v. count v (range_from 0 256) == 1) v hv identity_once);
}

init-IsState : (key : Bytes) → IsState (init key)
init-IsState key = record {
  perm =
      unfold init in
      schedule-IsPermutation key 256 0 (range_from 0 256) 0 (omega arith) (omega arith)
        identity-IsPermutation;
  i_lt = unfold init in omega arith;
  j_lt = unfold init in omega arith;
}

new-eq-init : (key : Bytes) {r : Rc4} → new key ≡ ok r → r ≡ init key
unfolding new
new-eq-init key h = ground arith

-- `RC4(key)` starts from a permutation, with both indices at 0.
pub new-IsState : (key : Bytes) {r : Rc4} → new key ≡ ok r → IsState r
new-IsState key h = rw (new-eq-init key h) (init-IsState key)

pub advance-IsState : {r : Rc4} → IsState r → IsState (advance r)
unfolding advance
advance-IsState {r} w = record {
  perm = swap-IsPermutation _ _ (omega arith) (omega arith) w.perm;
  i_lt = omega arith;
  j_lt = omega arith;
}

pub key_byte-IsByte : {r : Rc4} → IsState r → IsByte (key_byte r)
unfolding key_byte
key_byte-IsByte {r} w = All-get_or IsByte r.s _ 0 w.perm.bytes (omega arith)

-- Whatever bytes are enciphered, the state stays well formed.
pub crypt-IsState : (b : Bytes) {r : Rc4} → IsState r → IsState (crypt r b).1
unfolding crypt
crypt-IsState [] w = w
crypt-IsState (x ∷ b) w = crypt-IsState b (advance-IsState w)
