-- ===== src/Wire/Rc4.antt =====
-- `class RC4` and `make_crypt` of server/world_server.py. The array `S` and the two indices are a
-- record; `& 0xFF` is `% 256`.
pub mod State
pub mod Stream
use mathlib.Core.List.{foldl}
use ascension_preservation.Common.{
  ℕ, zero, suc, ◌+◌, ◌%◌, bit_xor, Option, none, some, List, [], ◌∷◌, length, get_or, set,
  replicate, ◌==◌, if◌then◌else◌, Result, ok, err, zero_division, ◌>>=◌,
}
use ascension_preservation.Common.Bytes.{Bytes}

pub record Rc4 : Type 0 where
  pub s : Bytes
  pub i : ℕ
  pub j : ℕ

-- `S[i], S[j] = S[j], S[i]`
pub swap : Bytes → ℕ → ℕ → Bytes
swap s i j = set (set s i (get_or s j 0)) j (get_or s i 0)

pub range_from : ℕ → ℕ → List ℕ
range_from i zero = []
range_from i (suc n) = i ∷ range_from (i + 1) n

pub schedule_step : Bytes → Bytes × ℕ → ℕ → Bytes × ℕ
schedule_step key (s, j) i =
    let j' = (j + get_or s i 0 + get_or key (i % length key) 0) % 256 in (swap s i j', j')

-- The rounds of the loop in `__init__`, from round `i` on.
pub schedule : Bytes → ℕ → ℕ → Bytes × ℕ → Bytes × ℕ
schedule key zero i st = st
schedule key (suc n) i st = schedule key n (i + 1) (schedule_step key st i)

pub init : Bytes → Rc4
unfolding schedule schedule_step swap range_from
init key = record { s = (schedule key 256 0 (range_from 0 256, 0)).0; i = 0; j = 0 }

-- An empty key divides by zero in `i % len(key)`.
unfoldable pub new : Bytes → Result Rc4
new key = if length key == 0 then err zero_division else ok (init key)

-- The cipher after one more byte, whatever the byte is.
pub advance : Rc4 → Rc4
unfolding swap
advance r =
    let i' = (r.i + 1) % 256 in
    let j' = (r.j + get_or r.s i' 0) % 256 in record { s = swap r.s i' j'; i = i'; j = j' }

-- The key byte that the round which led to `r` used.
pub key_byte : Rc4 → ℕ
key_byte r = get_or r.s ((get_or r.s r.i 0 + get_or r.s r.j 0) % 256) 0

pub crypt : Rc4 → Bytes → Bytes × Rc4
unfolding advance key_byte
crypt r [] = ([], r)
crypt r (b ∷ bs) =
    let r' = advance r in let (out, r'') = crypt r' bs in (bit_xor b (key_byte r') ∷ out, r'')

module _ (hmac_sha1 : Bytes → Bytes → Bytes) where
  -- One direction of `make_crypt`: the first 1024 key bytes are dropped.
  pub make_stream : Bytes → Bytes → Result Rc4
  unfolding new init crypt
  make_stream seed session_key40 = do
    r ← new (hmac_sha1 seed session_key40)
    ok (crypt r (replicate 1024 0)).1

  pub make_crypt : Bytes → Bytes → Bytes → Result (Rc4 × Rc4)
  unfolding make_stream
  make_crypt enc_seed dec_seed session_key40 = do
    enc ← make_stream enc_seed session_key40
    dec ← make_stream dec_seed session_key40
    ok (enc, dec)

-- `hdr = enc.crypt(hdr)` where there is a cipher; `None` leaves the header as it is.
unfoldable pub crypt? : Option Rc4 → Bytes → Bytes × Option Rc4
crypt? none b = (b, none)
crypt? (some r) b = let (out, r') = crypt r b in (out, some r')
