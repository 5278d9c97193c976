-- ===== src/Wire/Frame/RoundTrip.antt =====
-- What the server and the bridge frame, the bridge reads back.
use ascension_preservation.Common.{
  ℕ, ◌+◌, ◌-◌, ◌*◌, ◌/◌, ◌%◌, ◌≤◌, ◌<◌, ◌≡◌, false, refl, Option, [], ◌∷◌, ◌++◌, arith, ltb, All,
  ◌||◌, length, Bool-cases, inl, inr, append_assoc, ok, get_or, ◌^◌,
}
use ascension_preservation.Common.Bytes.{Bytes, IsByte, le, un_le-le}
use ascension_preservation.Wire.Rc4.{Rc4, crypt?}
use ascension_preservation.Wire.Rc4.Stream.{
  IsState?, crypt?-append, crypt?-crypt?, length-crypt?, crypt?-IsState,
}
use ascension_preservation.Wire.Socket.{Socket}
use ascension_preservation.Wire.Socket.Delivery.{Delivers}
use ascension_preservation.Wire.Frame.{
  frame_pkt, frame_c2s, Reader, ◌>>=◌, pure, receive, receive_body, decipher, read_s2c_header,
  read_s2c_body, short_fields, long_fields, read_c2s_body, read_s2c, read_c2s,
}
use ascension_preservation.Wire.Frame.Header.{
  size_limit, s2c_header_short, s2c_header_long, two_bytes, three_bytes, low_first, flag_clear,
  flag_set, beside_flag,
}
use ascension_preservation.Wire.Frame.Runs.{
  Ends, Runs, Runs-pure, Runs-bind, Runs-decipher, Runs-receive, Runs-receive_body,
}

-- What follows the first byte of each form of the header.
abbrev short_tail : ℕ → ℕ → Bytes
short_tail opcode size = (size % 256) ∷ (opcode % 256) ∷ (opcode / 256 % 256) ∷ []

abbrev long_tail : ℕ → ℕ → Bytes
long_tail opcode size =
    (size / 256 % 256) ∷ (size % 256) ∷ (opcode % 256) ∷ (opcode / 256 % 256) ∷ []

abbrev c2s_header : ℕ → ℕ → Bytes
c2s_header opcode size = (size / 256) ∷ (size % 256) ∷ le 4 opcode

-- What a frame is where `struct.pack` does not raise.
frame_c2s-eq-ok :
    (opcode : ℕ) (body : Bytes) (enc : Option Rc4) {frame : Bytes} {enc' : Option Rc4}
    → frame_c2s opcode body enc ≡ ok (frame, enc')
    → (length body + 4 ≤ 0xffff)
      × (opcode < 2 ^ 32)
      × (frame ≡ (crypt? enc (c2s_header opcode (length body + 4))).0 ++ body)
      × (enc' ≡ (crypt? enc (c2s_header opcode (length body + 4))).1)
unfolding frame_c2s
frame_c2s-eq-ok opcode body enc e = ground arith

short_fields_lem :
    (opcode size : ℕ)
    → opcode < 65536
    → short_fields (size / 256) (short_tail opcode size) ≡ (size, opcode)
unfolding short_fields
short_fields_lem opcode size ho = ground (
  arith,
  two_bytes (size / 256) (size % 256) (omega arith),
  low_first (opcode / 256 % 256) (opcode % 256) (omega arith),
)

long_fields_lem :
    (opcode size : ℕ)
    → opcode < 65536
    → size < size_limit
    → long_fields (128 + size / 65536) (long_tail opcode size) ≡ (size, opcode)
unfolding long_fields
long_fields_lem opcode size ho hs = ground (
  arith,
  beside_flag (size / 65536) (omega arith),
  three_bytes (size / 65536) (size / 256 % 256) (size % 256) (omega arith) (omega arith),
  low_first (opcode / 256 % 256) (opcode % 256) (omega arith),
)

module _ (k : Socket) (pending : k.State → Bytes) (delivers : Delivers k pending) where
  -- `n` enciphered bytes are read and deciphered, and the reader goes on with the plain ones.
  Runs-enciphered :
      {A : Type 0} (n : ℕ) (b : Bytes) (e : Option Rc4) (f : Bytes → Reader k A) {p p' : Bytes}
      {a : A} {d : Option Rc4}
      → length b ≡ n
      → IsState? e
      → All IsByte b
      → Runs k pending (f b) (crypt? e b).1 p a d p'
      → Runs k pending
          (◌>>=◌ k (receive k n) (λ raw. ◌>>=◌ k (decipher k raw) f))
          e
          ((crypt? e b).0 ++ p)
          a
          d
          p'
  Runs-enciphered n b e f {p} len w hb next =
      Runs-bind k pending (receive k n) _
        (Runs-receive k pending delivers n (crypt? e b).0 e p (rw length-crypt? len))
        (Runs-bind k pending (decipher k (crypt? e b).0) f
          (Runs-decipher k pending (crypt? e b).0 e p) (rw (crypt?-crypt? b e w hb) next))

  -- Both forms of the header.
  Runs-header_short :
      (opcode size : ℕ) (e : Option Rc4) (p : Bytes)
      → opcode < 65536
      → size ≤ 0x7fff
      → IsState? e
      → Runs k pending
          (read_s2c_header k (size / 256))
          e
          ((crypt? e (short_tail opcode size)).0 ++ p)
          (size, opcode)
          (crypt? e (short_tail opcode size)).1
          p
  unfolding read_s2c_header
  Runs-header_short opcode size e p ho hs w = rw (flag_clear (size / 256) (omega arith)) (
      Runs-enciphered 3 (short_tail opcode size) e (λ rest. pure k (short_fields (size / 256) rest))
        refl w (omega arith)
        (rw (short_fields_lem opcode size ho) (Runs-pure k pending (size, opcode) _ p)))

  Runs-header_long :
      (opcode size : ℕ) (e : Option Rc4) (p : Bytes)
      → opcode < 65536
      → size < size_limit
      → IsState? e
      → Runs k pending
          (read_s2c_header k (128 + size / 65536))
          e
          ((crypt? e (long_tail opcode size)).0 ++ p)
          (size, opcode)
          (crypt? e (long_tail opcode size)).1
          p
  unfolding read_s2c_header
  Runs-header_long opcode size e p ho hs w = rw (flag_set (size / 65536) (omega arith)) (
      Runs-enciphered 4 (long_tail opcode size) e
        (λ rest. pure k (long_fields (128 + size / 65536) rest)) refl w (omega arith)
        (rw (long_fields_lem opcode size ho hs) (Runs-pure k pending (size, opcode) _ p)))

  Runs-body :
      (opcode : ℕ) (body : Bytes) (d : Option Rc4) (p : Bytes)
      → length body + 2 < size_limit
      → Runs k pending (read_s2c_body k (length body + 2, opcode)) d (body ++ p) (opcode, body) d p
  unfolding read_s2c_body
  Runs-body opcode body d p h =
      let small : (ltb (length body + 2) 2 || ltb 0x80_0000 (length body + 2 - 2)) ≡ false =
        ground arith in
      let same : length body + 2 - 2 ≡ length body = omega arith in
      rw (small, same)
        (Runs-bind k pending (receive_body k (length body)) (λ b. pure k (opcode, b))
          (Runs-receive_body k pending delivers body d p) (Runs-pure k pending (opcode, body) d p))

  -- The first byte is deciphered alone, then the others from the state that it leaves.
  Runs-frame :
      (h : ℕ) (hs : Bytes) (opcode : ℕ) (body : Bytes) (e : Option Rc4) (p : Bytes)
      → IsByte h
      → length body + 2 < size_limit
      → IsState? e
      → let e' : Option Rc4 = (crypt? e (h ∷ [])).1 in
        Runs k pending
          (read_s2c_header k h)
          e'
          ((crypt? e' hs).0 ++ (body ++ p))
          (length body + 2, opcode)
          (crypt? e' hs).1
          (body ++ p)
        → Runs k pending
            (read_s2c k)
            e
            (((crypt? e (h ∷ hs)).0 ++ body) ++ p)
            (opcode, body)
            (crypt? e (h ∷ hs)).1
            p
  unfolding read_s2c
  Runs-frame h hs opcode body e p hb fits w header =
      rw (crypt?-append e (h ∷ []) hs, append_assoc, append_assoc)
        (Runs-enciphered 1 (h ∷ []) e
          (λ b0. ◌>>=◌ k (read_s2c_header k (get_or b0 0 0)) (read_s2c_body k)) refl w (hb, tt)
          (Runs-bind k pending (read_s2c_header k h) (read_s2c_body k) header
            (Runs-body opcode body (crypt? (crypt? e (h ∷ [])).1 hs).1 p fits)))

  Runs-frame_pkt :
      (opcode : ℕ) (body : Bytes) (enc : Option Rc4) (p : Bytes)
      → opcode < 65536
      → length body + 2 < size_limit
      → All IsByte body
      → IsState? enc
      → Runs k pending
          (read_s2c k)
          enc
          ((frame_pkt enc opcode body).0 ++ p)
          (opcode, body)
          (frame_pkt enc opcode body).1
          p
  unfolding frame_pkt
  Runs-frame_pkt opcode body enc p ho fits hb w = elim (Bool-cases (ltb 0x7fff (length body + 2))) [
    | inl large ↦ rw (s2c_header_long opcode (length body + 2) (ground arith) fits) (
        Runs-frame (128 + (length body + 2) / 65536) (long_tail opcode (length body + 2)) opcode
          body enc p (omega arith) fits w
          (Runs-header_long opcode (length body + 2) _ _ ho fits (crypt?-IsState _ enc w)))
    | inr small ↦ rw (s2c_header_short opcode (length body + 2) (ground arith)) (
        Runs-frame ((length body + 2) / 256) (short_tail opcode (length body + 2)) opcode body enc p
          (ground arith) fits w
          (Runs-header_short opcode (length body + 2) _ _ ho (ground arith)
            (crypt?-IsState _ enc w)))
  ]

  Runs-c2s_body :
      (opcode : ℕ) (body : Bytes) (d : Option Rc4) (p : Bytes)
      → length body + 4 ≤ 0xffff
      → opcode < 2 ^ 32
      → Runs k pending
          (read_c2s_body k (c2s_header opcode (length body + 4)))
          d
          (body ++ p)
          (opcode, body)
          d
          p
  unfolding read_c2s_body
  Runs-c2s_body opcode body d p h ho =
      let whole : (length body + 4) / 256 * 256 + (length body + 4) % 256 ≡ length body + 4 =
        omega arith in
      let small : (ltb (length body + 4) 4 || ltb 0x1_0000 (length body + 4 - 4)) ≡ false =
        ground arith in
      let same : length body + 4 - 4 ≡ length body = omega arith in
      rw (whole, small, same, un_le-le 4 opcode ho)
        (Runs-bind k pending (receive_body k (length body)) (λ b. pure k (opcode, b))
          (Runs-receive_body k pending delivers body d p) (Runs-pure k pending (opcode, body) d p))

  Runs-frame_c2s :
      (opcode : ℕ) (body : Bytes) (enc : Option Rc4) (p : Bytes) {frame : Bytes} {enc' : Option Rc4}
      → IsState? enc
      → frame_c2s opcode body enc ≡ ok (frame, enc')
      → Runs k pending (read_c2s k) enc (frame ++ p) (opcode, body) enc' p
  unfolding read_c2s
  Runs-frame_c2s opcode body enc p w e =
      let (fits, ho, bytes, after) = frame_c2s-eq-ok opcode body enc e in
      rw (bytes, after, append_assoc)
        (Runs-enciphered 6 (c2s_header opcode (length body + 4)) enc (read_c2s_body k) refl w
          (omega arith) (Runs-c2s_body opcode body _ p fits ho))

  -- The bridge reads back any packet that the server frames, enciphered or not, of either header
  -- form and however the network cuts it: opcode and body are the same, the reader's cipher ends in
  -- the state of the writer's, and what was sent after the packet is still to be read. The opcode
  -- has 16 bits, the size has 23, and the cipher is in a state that it can reach.
  pub read_s2c-frame_pkt :
      (opcode : ℕ) (body : Bytes) (enc : Option Rc4) (p : Bytes) (s : k.State)
      → opcode < 65536
      → length body + 2 < 0x80_0000
      → All IsByte body
      → IsState? enc
      → pending s ≡ (frame_pkt enc opcode body).0 ++ p
      → Ends k pending
          (opcode, body)
          (frame_pkt enc opcode body).1
          p
          (read_s2c k (record { sock = s; dec = enc }))
  read_s2c-frame_pkt opcode body enc p s ho fits hb w h =
      let runs = Runs-frame_pkt opcode body enc p ho fits hb w in runs.from s h

  -- The same for the packets that the bridge frames for the core, where framing succeeds.
  pub read_c2s-frame_c2s :
      (opcode : ℕ) (body : Bytes) (enc : Option Rc4) (p : Bytes) (s : k.State) {frame : Bytes}
      {enc' : Option Rc4}
      → IsState? enc
      → frame_c2s opcode body enc ≡ ok (frame, enc')
      → pending s ≡ frame ++ p
      → Ends k pending (opcode, body) enc' p (read_c2s k (record { sock = s; dec = enc }))
  read_c2s-frame_c2s opcode body enc p s w e h =
      let runs = Runs-frame_c2s opcode body enc p w e in runs.from s h
