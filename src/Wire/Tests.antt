-- ===== src/Wire/Tests.antt =====
-- Runs of the cipher, the socket loops and the frames on concrete bytes.
use ascension_preservation.Common.{
  take, replicate, ℕ, ◌<◌, ◌≡◌, refl, true, Option, none, some, List, [], ◌∷◌, ◌++◌, length, arith,
  ok,
}
use ascension_preservation.Common.Bytes.{Bytes}
use ascension_preservation.Wire.Rc4.{new, init, crypt?}
use ascension_preservation.Wire.Rc4.State.{new-IsState}
use ascension_preservation.Wire.Socket.{Socket, got, recv_exact, Sender}
use ascension_preservation.Wire.Socket.Delivery.{Piece, Delivers, recv_exact-delivers}
use ascension_preservation.Wire.Frame.{frame_pkt, frame_c2s, read_s2c, read_c2s}
use ascension_preservation.Wire.Session.{
  AuthSession, parse_auth_session, server_parse_auth_session, build_auth_session, auth_digest,
  verify_digest, auth_seed,
}
use ascension_preservation.Wire.Session.Rebuilt.{IsSession, parse-build_auth_session}
use ascension_preservation.Wire.Frame.Runs.{Ends}
use ascension_preservation.Wire.Frame.RoundTrip.{read_s2c-frame_pkt, read_c2s-frame_c2s}
use ascension_preservation.Wire.Frame.Batch.{
  Out, Writes, send_batch, send_each, send_batch-eq-send_each,
}

-- A socket that hands out what was sent a byte at a time.
abbrev recv_byte : ℕ → Bytes → Option Bytes × Bytes
recv_byte n [] = (some [], [])
recv_byte n (x ∷ b) = (some (x ∷ []), b)

abbrev trickle : Socket
trickle = record { State = Bytes; recv = recv_byte }

abbrev waiting : Bytes → Bytes
waiting b = b

trickle-Piece : (n : ℕ) (b : Bytes) → 0 < n → 0 < length b → Piece trickle waiting n b
trickle-Piece n [] hn h = absurd (omega arith)
trickle-Piece n (x ∷ b) hn h = record {
  first = x;
  rest = [];
  after = b;
  result = refl;
  fits = omega arith;
  splits = refl;
}

trickle-Delivers : Delivers trickle waiting
trickle-Delivers = record { piece = trickle-Piece }

-- A socket that takes what it is given: its timeout, and what was written to it.
abbrev sink : Sender
sink = record {
  State = Option ℕ × Bytes;
  timeout = λ s. s.0;
  set_timeout = λ t s. (t, s.1);
  sendall = λ b s. (true, (s.0, s.1 ++ b));
}

sink-Writes : Writes sink (λ s. s.1)
sink-Writes = record { timeout = λ t s. refl; sendall = λ b s. refl; returns = λ b s. refl }

abbrev test_key : Bytes
test_key = 1 ∷ 2 ∷ 3 ∷ 4 ∷ 5 ∷ []

abbrev test_body : Bytes
test_body = 104 ∷ 101 ∷ 108 ∷ 108 ∷ 111 ∷ []

recv_exact-delivers_example :
    ((recv_exact trickle 3 test_body).0 ≡ got (104 ∷ 101 ∷ 108 ∷ []))
    × ((recv_exact trickle 3 test_body).1 ≡ 108 ∷ 111 ∷ [])
recv_exact-delivers_example =
    recv_exact-delivers trickle waiting trickle-Delivers 3 test_body (omega arith)

-- Two packets are waiting; the first is read.
read_s2c-frame_pkt_example :
    Ends trickle waiting
      (0x1ee, test_body)
      (frame_pkt (some (init test_key)) 0x1ee test_body).1
      test_key
      (read_s2c trickle (record {
        sock = (frame_pkt (some (init test_key)) 0x1ee test_body).0 ++ test_key;
        dec = some (init test_key);
      }))
read_s2c-frame_pkt_example =
    read_s2c-frame_pkt trickle waiting trickle-Delivers 0x1ee test_body (some (init test_key))
      test_key ((frame_pkt (some (init test_key)) 0x1ee test_body).0 ++ test_key) (omega arith)
      (omega arith) (omega arith) (new-IsState test_key (unfold new in refl)) refl

framed : frame_c2s 0x37 test_body none ≡ ok (0 ∷ 9 ∷ 0x37 ∷ 0 ∷ 0 ∷ 0 ∷ test_body, none)
unfolding frame_c2s crypt?
framed = refl

read_c2s-frame_c2s_example :
    Ends trickle waiting
      (0x37, test_body)
      none
      test_key
      (read_c2s trickle
        (record { sock = (0 ∷ 9 ∷ 0x37 ∷ 0 ∷ 0 ∷ 0 ∷ test_body) ++ test_key; dec = none }))
read_c2s-frame_c2s_example =
    read_c2s-frame_c2s trickle waiting trickle-Delivers 0x37 test_body none test_key
      ((0 ∷ 9 ∷ 0x37 ∷ 0 ∷ 0 ∷ 0 ∷ test_body) ++ test_key) tt framed refl

abbrev test_out : Out sink
test_out = record { sock = (none, []); enc = some (init test_key); alive = true }

abbrev test_pkts : List (ℕ × Bytes)
test_pkts = (0x1ee, test_body) ∷ (0x129, test_key) ∷ []

send_batch-eq-send_each_example :
    ((send_batch sink test_pkts test_out).1.sock.1 ≡ (send_each sink test_pkts test_out).sock.1)
    × ((send_batch sink test_pkts test_out).1.enc ≡ (send_each sink test_pkts test_out).enc)
    × ((send_batch sink test_pkts test_out).0 ≡ 2)
send_batch-eq-send_each_example =
    send_batch-eq-send_each sink (λ s. s.1) sink-Writes test_pkts test_out

-- A session of an account "AB"; the digest stands for a hash that is a cut or a filling to 20 bytes.
abbrev first_twenty : Bytes → Bytes
first_twenty b = take 20 (b ++ replicate 20 0)

abbrev test_session : AuthSession
test_session = record {
  build = 12340;
  login_server_id = 0;
  account = 65 ∷ 66 ∷ [];
  login_server_type = 0;
  client_seed = 1 ∷ 2 ∷ 3 ∷ 4 ∷ [];
  region_id = 1;
  battlegroup_id = 2;
  realm_id = 3;
  dos_response = replicate 8 0;
  digest = replicate 20 9;
  addon_raw = 7 ∷ [];
}

abbrev signed_session : AuthSession
signed_session = record test_session {
  build = 12341;
  realm_id = 1;
  digest = auth_digest first_twenty (65 ∷ 66 ∷ []) (1 ∷ 2 ∷ 3 ∷ 4 ∷ []) auth_seed test_key;
}

signed_session-IsSession : IsSession signed_session
signed_session-IsSession = record {
  build_lt = omega arith;
  login_server_id_lt = omega arith;
  account_text = (refl, (refl, tt));
  login_server_type_lt = omega arith;
  client_seed_len = refl;
  region_id_lt = omega arith;
  battlegroup_id_lt = omega arith;
  realm_id_lt = omega arith;
  dos_response_len = refl;
  digest_len = unfold auth_digest in refl;
}

parse-build_auth_session_example :
    (packet : Bytes) × (build_auth_session test_session 12341 1 signed_session.digest ≡ ok packet)
    × (parse_auth_session packet ≡ ok signed_session)
    × (server_parse_auth_session packet ≡ ok (0, signed_session))
    × (verify_digest first_twenty signed_session test_key ≡ true)
parse-build_auth_session_example =
    parse-build_auth_session first_twenty test_session 12341 1 test_key signed_session.digest refl
      signed_session-IsSession
