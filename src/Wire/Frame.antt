-- ===== src/Wire/Frame.antt =====
-- Packet frames: `frame_pkt`, `send_pkt` and `send_batch` of server/world_server.py, and the four
-- frame functions of server/ascension_bridge.py.
pub mod Runs
mod Header
pub mod Batch
pub mod RoundTrip
use ascension_preservation.Common.{
  ℕ, ◌+◌, ◌-◌, ◌*◌, ◌/◌, ◌%◌, ◌^◌, Bool, ◌||◌, Option, none, some, List, [], ◌∷◌, ◌++◌, length,
  take, drop, get_or, ltb, ◌==◌, if◌then◌else◌, bit_and, bit_or, Result, ok, err, Error,
  value_error, struct_error,
}
use ascension_preservation.Common.Bytes.{Bytes, le, un_le}
use ascension_preservation.Wire.Rc4.{Rc4, crypt?}
use ascension_preservation.Wire.Socket.{Socket, Received, got, closed, stuck, recv_exact}

-- `x >> k` and `x << k`.
infixl 75 ◌>>>◌ ◌<<<◌
abbrev pub ◌>>>◌ : ℕ → ℕ → ℕ
x >>> k = x / 2 ^ k

abbrev pub ◌<<<◌ : ℕ → ℕ → ℕ
x <<< k = x * 2 ^ k

-- The header that `frame_pkt` builds, before it is enciphered: 5 bytes for a large packet, 4 else.
pub s2c_header : ℕ → ℕ → Bytes
s2c_header opcode size =
    if ltb 0x7fff size
    then bit_or 0x80 ((size >>> 16) % 256)
      ∷ ((size >>> 8) % 256)
      ∷ (size % 256)
      ∷ (opcode % 256)
      ∷ ((opcode >>> 8) % 256)
      ∷ []
    else ((size >>> 8) % 256) ∷ (size % 256) ∷ (opcode % 256) ∷ ((opcode >>> 8) % 256) ∷ []

-- The bytes, and the cipher after them.
pub frame_pkt : Option Rc4 → ℕ → Bytes → Bytes × Option Rc4
frame_pkt enc opcode body =
    let (hdr, enc') = crypt? enc (s2c_header opcode (length body + 2)) in (hdr ++ body, enc')

pub frame_s2c : ℕ → Bytes → Option Rc4 → Bytes × Option Rc4
frame_s2c opcode body enc =
    let (hdr, enc') = crypt? enc (s2c_header opcode (length body + 2)) in (hdr ++ body, enc')

-- `struct.pack(">H", size) + struct.pack("<I", opcode)`, which raises outside the ranges.
unfoldable pub frame_c2s : ℕ → Bytes → Option Rc4 → Result (Bytes × Option Rc4)
frame_c2s opcode body enc =
    let size = length body + 4 in
    let (hdr, enc') = crypt? enc ((size / 256) ∷ (size % 256) ∷ le 4 opcode) in
    if ltb 0xffff size || ltb 0xffff_ffff opcode then err struct_error else ok (hdr ++ body, enc')

-- The size and the opcode of a short header and of a long one: the first byte and the others.
pub short_fields : ℕ → Bytes → ℕ × ℕ
short_fields b0 rest =
    (bit_or (b0 <<< 8) (get_or rest 0 0), bit_or (get_or rest 1 0) (get_or rest 2 0 <<< 8))

pub long_fields : ℕ → Bytes → ℕ × ℕ
long_fields b0 rest = (
  bit_or (bit_or (bit_and b0 0x7f <<< 16) (get_or rest 0 0 <<< 8)) (get_or rest 1 0),
  bit_or (get_or rest 2 0) (get_or rest 3 0 <<< 8),
)

-- A connection that reads: the socket and the cipher of this direction.
pub record Link (k : Socket) : Type 0 where
  pub sock : k.State
  pub dec : Option Rc4

-- What a read comes to. `no_packet` is the `None` that the functions return; `no_fuel` is no
-- Python value.
pub data Outcome {ℓ} (A : Type ℓ) : Type ℓ where
  done : A → Outcome A
  no_packet : Outcome A
  raised : Error → Outcome A
  no_fuel : Outcome A

module _ (k : Socket) where
  abbrev pub Reader : Type 0 → Type 0
  Reader A = Link k → Outcome A × Link k

  abbrev pub continue : {A B : Type 0} → Outcome A → (A → Reader B) → Reader B
  continue (done a) f l = f a l
  continue no_packet f l = (no_packet, l)
  continue (raised e) f l = (raised e, l)
  continue no_fuel f l = (no_fuel, l)

  infixl 5 ◌>>=◌
  abbrev pub ◌>>=◌ : {A B : Type 0} → Reader A → (A → Reader B) → Reader B
  ◌>>=◌ m f l = let (r, l') = m l in continue r f l'

  abbrev pub pure : {A : Type 0} → A → Reader A
  pure a l = (done a, l)

  abbrev pub raise : {A : Type 0} → Error → Reader A
  raise e l = (raised e, l)

  abbrev pub outcome : Received → Outcome Bytes
  outcome (got b) = done b
  outcome closed = no_packet
  outcome stuck = no_fuel

  pub receive : ℕ → Reader Bytes
  receive n l = let (r, s) = recv_exact k n l.sock in (outcome r, record l { sock = s })

  -- `if dec is not None: hdr = dec.crypt(hdr)`
  pub decipher : Bytes → Reader Bytes
  decipher b l = let (b', dec') = crypt? l.dec b in (done b', record l { dec = dec' })

  -- `recv_exact(sock, blen) if blen else b""`
  pub receive_body : ℕ → Reader Bytes
  unfolding receive
  receive_body n = if n == 0 then pure [] else receive n

  -- The rest of a header whose first byte is `b0`: the top bit says how long it is.
  pub read_s2c_header : ℕ → Reader (ℕ × ℕ)
  unfolding receive decipher short_fields long_fields
  read_s2c_header b0 =
      if bit_and b0 0x80 == 0
      then (do raw ← receive 3; rest ← decipher raw; pure (short_fields b0 rest))
      else (do raw ← receive 4; rest ← decipher raw; pure (long_fields b0 rest))

  pub read_s2c_body : ℕ × ℕ → Reader (ℕ × Bytes)
  unfolding receive_body
  read_s2c_body (size, opcode) =
      if ltb size 2 || ltb 0x80_0000 (size - 2)
      then raise value_error
      else do body ← receive_body (size - 2); pure (opcode, body)

  pub read_s2c : Reader (ℕ × Bytes)
  unfolding read_s2c_header read_s2c_body
  read_s2c = do
    raw ← receive 1
    b0 ← decipher raw
    fields ← read_s2c_header (get_or b0 0 0)
    read_s2c_body fields

  pub read_c2s_body : Bytes → Reader (ℕ × Bytes)
  unfolding receive_body
  read_c2s_body hdr =
      let size = get_or hdr 0 0 * 256 + get_or hdr 1 0 in
      let opcode = un_le (take 4 (drop 2 hdr)) in
      if ltb size 4 || ltb 0x1_0000 (size - 4)
      then raise value_error
      else do body ← receive_body (size - 4); pure (opcode, body)

  pub read_c2s : Reader (ℕ × Bytes)
  unfolding read_c2s_body decipher
  read_c2s = do raw ← receive 6; hdr ← decipher raw; read_c2s_body hdr
