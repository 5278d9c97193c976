-- ===== src/Wire/Frame/Batch.antt =====
-- `send_pkt` and `send_batch` of server/world_server.py: a burst written at once puts the same bytes
-- on the socket as its packets sent one by one.
use ascension_preservation.Common.{
  ℕ, ◌≡◌, Bool, true, refl, sym, ◌∙◌, Option, some, List, [], ◌∷◌, ◌++◌, append_assoc, append-nil,
  length, Bool-cases, inl, inr,
}
use ascension_preservation.Common.Bytes.{Bytes}
use ascension_preservation.Wire.Rc4.{Rc4}
use ascension_preservation.Wire.Socket.{Sender, sock_sendall, patient, archive_send_timeout}
use ascension_preservation.Wire.Frame.{frame_pkt}

-- `b"".join(frame_pkt(enc, opc, body) for opc, body in pkts)`: the cipher runs on.
pub frame_all : Option Rc4 → List (ℕ × Bytes) → Bytes × Option Rc4
frame_all enc [] = ([], enc)
frame_all enc ((opcode, body) ∷ pkts) =
    let (frame, enc') = frame_pkt enc opcode body in
    let (frames, enc'') = frame_all enc' pkts in (frame ++ frames, enc'')

module _ (k : Sender) where
  -- The socket, the cipher of this direction, and whether every write so far returned.
  pub record Out : Type 0 where
    pub sock : k.State
    pub enc : Option Rc4
    pub alive : Bool

  pub write : Bytes → Option Rc4 → Out → Out
  write buf enc' o =
      let (sent, s) = sock_sendall k buf o.sock in record { sock = s; enc = enc'; alive = sent }

  pub send_pkt : ℕ → Bytes → Out → Out
  unfolding write
  send_pkt opcode body o = let (buf, enc') = frame_pkt o.enc opcode body in write buf enc' o

  -- The number of packets that it returns, and the connection after it.
  pub send_batch : List (ℕ × Bytes) → Out → ℕ × Out
  unfolding write frame_all
  send_batch [] o = (0, o)
  send_batch (pkt ∷ pkts) o =
      let (buf, enc') = frame_all o.enc (pkt ∷ pkts) in (length (pkt ∷ pkts), write buf enc' o)

  pub send_each : List (ℕ × Bytes) → Out → Out
  send_each [] o = o
  send_each ((opcode, body) ∷ pkts) o = send_each pkts (send_pkt opcode body o)

  -- What the peer of a working socket has been sent: timeouts do not matter, writes are appended.
  pub record Writes (written : k.State → Bytes) : Type 0 where
    pub timeout : (t : Option ℕ) (s : k.State) → written (k.set_timeout t s) ≡ written s
    pub sendall : (b : Bytes) (s : k.State) → written (k.sendall b s).1 ≡ written s ++ b
    pub returns : (b : Bytes) (s : k.State) → (k.sendall b s).0 ≡ true

  module _ (written : k.State → Bytes) (w : Writes written) where
    written-sock_sendall :
        (b : Bytes) (s : k.State) → written (sock_sendall k b s).1 ≡ written s ++ b
    unfolding sock_sendall
    written-sock_sendall b s = elim (Bool-cases (patient (k.timeout s))) [
      | inl p ↦ rw p (w.sendall b s)
      | inr p ↦ rw p (w.timeout _ _ ∙ w.sendall b _ ∙ rw (w.timeout (some archive_send_timeout) s))
    ]

    send_each-frame_all :
        (pkts : List (ℕ × Bytes)) (o : Out)
        → (written (send_each pkts o).sock ≡ written o.sock ++ (frame_all o.enc pkts).0)
          × ((send_each pkts o).enc ≡ (frame_all o.enc pkts).1)
    unfolding send_each send_pkt frame_all
    send_each-frame_all [] o = (sym (append-nil _), refl)
    send_each-frame_all ((opcode, body) ∷ pkts) o =
        let ih = send_each-frame_all pkts (send_pkt opcode body o) in
        (ih.0 ∙ rw (written-sock_sendall, append_assoc), ih.1)

    -- On a socket that takes what it is given, one write of a burst and a write for each packet
    -- send the same bytes and leave the cipher in the same state.
    pub send_batch-eq-send_each :
        (pkts : List (ℕ × Bytes)) (o : Out)
        → (written (send_batch pkts o).1.sock ≡ written (send_each pkts o).sock)
          × ((send_batch pkts o).1.enc ≡ (send_each pkts o).enc)
          × ((send_batch pkts o).0 ≡ length pkts)
    unfolding send_batch
    send_batch-eq-send_each [] o = (unfold send_each in refl, unfold send_each in refl, refl)
    send_batch-eq-send_each (pkt ∷ pkts) o =
        let (same, enc) = send_each-frame_all (pkt ∷ pkts) o in
        (written-sock_sendall _ o.sock ∙ sym same, sym enc, refl)
