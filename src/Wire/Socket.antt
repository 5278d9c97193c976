-- ===== src/Wire/Socket.antt =====
-- `recv_exact` and `sock_sendall` of server/world_server.py (the bridge has a copy of `recv_exact`)
-- over an abstract socket.
pub mod Delivery
use ascension_preservation.Common.{
  ℕ, zero, suc, ◌+◌, ◌-◌, ◌≤◌, ◌<◌, ◌≡◌, Bool, true, false, Option, none, some, List, [], ◌∷◌, ◌++◌,
  length, ltb, leb, if◌then◌else◌,
}
use ascension_preservation.Common.Bytes.{Bytes}

-- The operating system's socket, as far as reading goes: `recv n` is `none` where it raises
-- `socket.timeout` or `OSError`, and the empty string where the peer has closed.
pub record Socket : Type 1 where
  pub State : Type 0
  pub recv : ℕ → State → Option Bytes × State

-- `stuck` is no Python value: the loop ran out of fuel.
pub data Received : Type 0 where
  got : Bytes → Received
  closed stuck : Received

module _ (k : Socket) where
  -- What one round does with the result of `recv`; `more` is the rest of the loop.
  pub received : (Bytes → Received × k.State) → Option Bytes → k.State → Received × k.State
  received more none s = (closed, s)
  received more (some []) s = (closed, s)
  received more (some (x ∷ b)) s = more (x ∷ b)

  pub recv_loop : ℕ → ℕ → Bytes → k.State → Received × k.State
  recv_loop zero n buf s = (if ltb (length buf) n then stuck else got buf, s)
  recv_loop (suc fuel) n buf s =
      let (r, s') = k.recv (n - length buf) s in
      let next = received (λ b. recv_loop fuel n (buf ++ b) s') r s' in
      if ltb (length buf) n then next else (got buf, s)

  -- Every round adds a byte at least, so `n` rounds are enough.
  pub recv_exact : ℕ → k.State → Received × k.State
  recv_exact n s = recv_loop n n [] s

-- The sending half: a timeout in milliseconds (`None` blocks), and `sendall`, which may raise.
pub record Sender : Type 1 where
  pub State : Type 0
  pub timeout : State → Option ℕ
  pub set_timeout : Option ℕ → State → State
  -- `true` where it returns, `false` where it raises
  pub sendall : Bytes → State → Bool × State

abbrev pub archive_send_timeout : ℕ
archive_send_timeout = 30_000

-- `prev is None or prev >= ARCHIVE_SEND_TIMEOUT`
abbrev pub patient : Option ℕ → Bool
patient none = true
patient (some t) = leb archive_send_timeout t

module _ (k : Sender) where
  -- `finally` puts the old timeout back whether `sendall` returns or raises.
  unfoldable pub sock_sendall : Bytes → k.State → Bool × k.State
  sock_sendall buf s =
      let prev = k.timeout s in
      let (sent, s') = k.sendall buf (k.set_timeout (some archive_send_timeout) s) in
      if patient prev then k.sendall buf s else (sent, k.set_timeout prev s')
