-- ===== src/Wire/Socket/Delivery.antt =====
-- Reads do not depend on how the network cuts a message into pieces.
use ascension_preservation.Common.{
  ℕ, zero, suc, ◌+◌, ◌-◌, ◌≤◌, ◌<◌, ◌≡◌, ◌≢◌, sym, ap, false, Option, none, some, [], ◌∷◌, ◌++◌,
  length, ltb, arith, take, drop, length-append, take-append, drop-append, append_assoc, Bool-cases,
  inl, inr,
}
use ascension_preservation.Common.Bytes.{Bytes}
use ascension_preservation.Wire.Socket.{
  Socket, Received, got, stuck, received, recv_loop, recv_exact, Sender, sock_sendall, patient,
}

-- One successful `recv`: a piece that is not empty and not longer than asked for.
pub record Piece (k : Socket) (pending : k.State → Bytes) (n : ℕ) (s : k.State) : Type 0 where
  pub first : ℕ
  pub rest : Bytes
  pub after : k.State
  pub result : k.recv n s ≡ (some (first ∷ rest), after)
  pub fits : length (first ∷ rest) ≤ n
  pub splits : (first ∷ rest) ++ pending after ≡ pending s

-- The documented behaviour of a socket whose peer has sent `pending s`: while bytes are waiting,
-- `recv n` returns the first few of them.
pub record Delivers (k : Socket) (pending : k.State → Bytes) : Type 0 where
  pub piece : (n : ℕ) (s : k.State) → 0 < n → 0 < length (pending s) → Piece k pending n s

module _ (k : Socket) where
  received-ne-stuck :
      (more : Bytes → Received × k.State) (r : Option Bytes) (s : k.State)
      → ((x : ℕ) (b : Bytes) → (more (x ∷ b)).0 ≢ stuck)
      → (received k more r s).0 ≢ stuck
  unfolding received
  received-ne-stuck more none s h = λ e. cc e
  received-ne-stuck more (some []) s h = λ e. cc e
  received-ne-stuck more (some (x ∷ b)) s h = h x b

  -- With enough fuel the loop is never stuck, whatever the socket does.
  recv_loop-ne-stuck :
      (fuel n : ℕ) (buf : Bytes) (s : k.State)
      → n ≤ length buf + fuel
      → (recv_loop k fuel n buf s).0 ≢ stuck
  unfolding recv_loop
  recv_loop-ne-stuck zero n buf s h = ground arith
  recv_loop-ne-stuck (suc fuel) n buf s h = elim (Bool-cases (ltb (length buf) n)) [
    | inl short ↦ rw short (
        received-ne-stuck _ (k.recv (n - length buf) s).0 _ λ x b.
          recv_loop-ne-stuck fuel n (buf ++ (x ∷ b)) _ (omega (arith, length-append buf (x ∷ b))))
    | inr full ↦ rw full (λ e. cc e)
  ]

  -- `recv_exact` ends: it returns the bytes or reports a closed connection.
  pub recv_exact-ne-stuck : (n : ℕ) (s : k.State) → (recv_exact k n s).0 ≢ stuck
  unfolding recv_exact
  recv_exact-ne-stuck n s = recv_loop-ne-stuck n n [] s (omega arith)

  module _ (pending : k.State → Bytes) (d : Delivers k pending) where
    abbrev Reads : ℕ → Bytes → Received × k.State → Type 0
    Reads n all (r, s) = (r ≡ got (take n all)) × (pending s ≡ drop n all)

    Reads-full :
        (n : ℕ) (buf : Bytes) (s : k.State)
        → length buf ≡ n
        → Reads n (buf ++ pending s) (got buf, s)
    Reads-full n buf s e =
        (ap got (sym (take-append n buf (pending s) e)), sym (drop-append n buf (pending s) e))

    recv_loop-Reads :
        (fuel n : ℕ) (buf : Bytes) (s : k.State)
        → length buf ≤ n
        → n ≤ length buf + fuel
        → n ≤ length buf + length (pending s)
        → Reads n (buf ++ pending s) (recv_loop k fuel n buf s)
    unfolding recv_loop received
    recv_loop-Reads zero n buf s lo hi enough =
        let e : ltb (length buf) n ≡ false = ground arith in rw e (Reads-full n buf s (omega arith))
    recv_loop-Reads (suc fuel) n buf s lo hi enough = elim (Bool-cases (ltb (length buf) n)) [
      | inl short ↦
          let p : Piece k pending (n - length buf) s =
            d.piece (n - length buf) s (ground arith) (ground arith) in
          let got_more : length (buf ++ (p.first ∷ p.rest))
              ≡ length buf + length (p.first ∷ p.rest) =
            length-append buf (p.first ∷ p.rest) in
          rw (short, p.result)
            (rw (append_assoc, p.splits) at
              (recv_loop-Reads fuel n (buf ++ (p.first ∷ p.rest)) p.after
                (ground (arith, got_more, p.fits)) (omega (arith, got_more))
                (omega (
                  arith,
                  got_more,
                  ap length p.splits,
                  length-append (p.first ∷ p.rest) (pending p.after),
                ))))
      | inr full ↦ rw full (Reads-full n buf s (ground arith))
    ]

    -- However the bytes arrive, `recv_exact n` returns the first `n` and leaves the others.
    pub recv_exact-delivers :
        (n : ℕ) (s : k.State)
        → n ≤ length (pending s)
        → ((recv_exact k n s).0 ≡ got (take n (pending s)))
          × (pending (recv_exact k n s).1 ≡ drop n (pending s))
    unfolding recv_exact
    recv_exact-delivers n s h = recv_loop-Reads n n [] s (omega arith) (omega arith) (omega arith)

module _ (k : Sender)
    (kept : (buf : Bytes) (s : k.State) → k.timeout (k.sendall buf s).1 ≡ k.timeout s)
    (restored : (t : Option ℕ) (s : k.State) → k.timeout (k.set_timeout t s) ≡ t) where
  -- A write, whether it succeeds or raises, leaves the poll timeout as it was.
  pub timeout-sock_sendall :
      (buf : Bytes) (s : k.State) → k.timeout (sock_sendall k buf s).1 ≡ k.timeout s
  unfolding sock_sendall
  timeout-sock_sendall buf s = elim (Bool-cases (patient (k.timeout s))) [
    | inl p ↦ rw p (kept buf s)
    | inr p ↦ rw p (restored _ _)
  ]
