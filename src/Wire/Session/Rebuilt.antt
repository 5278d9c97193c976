-- ===== src/Wire/Session/Rebuilt.antt =====
-- The session packet that the bridge rebuilds is read by the server's parser.
use ascension_preservation.Common.{
  ℕ, ◌^◌, ◌<◌, ◌≡◌, refl, sym, ap, ◌∙◌, true, false, [], ◌∷◌, ◌++◌, length, leb, le→leb, ◌==◌,
  arith, All, ok, length-append, take-append, drop-append,
}
use ascension_preservation.Common.Bytes.{
  Bytes, le, un_le, un_le-le, length-le, pack-eq-ok, unpack, eq_bytes_iff,
}
use ascension_preservation.Wire.Session.{
  AuthSession, until_zero, parse_tail, parse_auth_session, server_parse_auth_session,
  build_auth_session, auth_digest, verify_digest, auth_seed,
}

-- The fields of a session that fits the packet.
pub record IsSession (f : AuthSession) : Type 0 where
  pub build_lt : f.build < 2 ^ 32
  pub login_server_id_lt : f.login_server_id < 2 ^ 32
  pub account_text : All (λ x. (x == 0) ≡ false) f.account
  pub login_server_type_lt : f.login_server_type < 2 ^ 32
  pub client_seed_len : length f.client_seed ≡ 4
  pub region_id_lt : f.region_id < 2 ^ 32
  pub battlegroup_id_lt : f.battlegroup_id < 2 ^ 32
  pub realm_id_lt : f.realm_id < 2 ^ 32
  pub dos_response_len : length f.dos_response ≡ 8
  pub digest_len : length f.digest ≡ 20

unpack-append : (n : ℕ) (b rest : Bytes) → length b ≡ n → unpack n (b ++ rest) ≡ ok (un_le b, rest)
unfolding unpack
unpack-append n b rest e =
    let enough : leb n (length (b ++ rest)) ≡ true =
      le→leb _ _ (omega (arith, length-append b rest)) in
    rw (enough, take-append n b rest e, drop-append n b rest e) refl

unpack-le : (n v : ℕ) (rest : Bytes) → v < 256 ^ n → unpack n (le n v ++ rest) ≡ ok (v, rest)
unpack-le n v rest h =
    unpack-append n (le n v) rest (length-le n v) ∙ ap (λ (x : ℕ). ok (x, rest)) (un_le-le n v h)

until_zero_text :
    (a rest : Bytes) → All (λ x. (x == 0) ≡ false) a → until_zero (a ++ (0 ∷ rest)) ≡ ok (a, rest)
unfolding until_zero
until_zero_text [] rest h = refl
until_zero_text (x ∷ a) rest (hx, h) = rw (hx, until_zero_text a rest h)

-- The last three fields.
parse_tail_fields :
    (f : AuthSession)
    → IsSession f
    → parse_tail f.build f.login_server_id f.account f.login_server_type f.client_seed f.region_id
        f.battlegroup_id f.realm_id
        (f.dos_response ++ (f.digest ++ f.addon_raw))
      ≡ f
unfolding parse_tail
parse_tail_fields f h =
    rw
      (
        take-append 8 f.dos_response (f.digest ++ f.addon_raw) h.dos_response_len,
        drop-append 8 f.dos_response (f.digest ++ f.addon_raw) h.dos_response_len,
        take-append 20 f.digest f.addon_raw h.digest_len,
        drop-append 20 f.digest f.addon_raw h.digest_len,
      )
      refl

abbrev layout : AuthSession → Bytes
layout f =
    le 4 f.build
    ++ (le 4 f.login_server_id
        ++ (f.account
            ++ (0
                ∷ (le 4 f.login_server_type
                    ++ (f.client_seed
                        ++ (le 4 f.region_id
                            ++ (le 4 f.battlegroup_id
                                ++ (le 4 f.realm_id
                                    ++ (f.dos_response ++ (f.digest ++ f.addon_raw))))))))))

build_auth_session-layout :
    (f : AuthSession)
    → IsSession f
    → build_auth_session f f.build f.realm_id f.digest ≡ ok (layout f)
unfolding build_auth_session
build_auth_session-layout f h =
    rw
      (
        pack-eq-ok 4 f.build h.build_lt,
        pack-eq-ok 4 f.login_server_id h.login_server_id_lt,
        pack-eq-ok 4 f.login_server_type h.login_server_type_lt,
        pack-eq-ok 4 f.region_id h.region_id_lt,
        pack-eq-ok 4 f.battlegroup_id h.battlegroup_id_lt,
        pack-eq-ok 4 f.realm_id h.realm_id_lt,
      )
      refl

parse_auth_session-layout : (f : AuthSession) → IsSession f → parse_auth_session (layout f) ≡ ok f
unfolding parse_auth_session
parse_auth_session-layout f h =
    rw
      (
        unpack-le 4 f.build _ h.build_lt,
        unpack-le 4 f.login_server_id _ h.login_server_id_lt,
        until_zero_text f.account _ h.account_text,
        unpack-le 4 f.login_server_type _ h.login_server_type_lt,
        take-append 4 f.client_seed _ h.client_seed_len,
        drop-append 4 f.client_seed _ h.client_seed_len,
        unpack-le 4 f.region_id _ h.region_id_lt,
        unpack-le 4 f.battlegroup_id _ h.battlegroup_id_lt,
        unpack-le 4 f.realm_id _ h.realm_id_lt,
      )
      (ap ok (parse_tail_fields f h))

-- The server's parser takes the eight bytes of `dosResponse` as an integer.
server_parse-layout :
    (f : AuthSession)
    → IsSession f
    → server_parse_auth_session (layout f) ≡ ok (un_le f.dos_response, f)
unfolding server_parse_auth_session
server_parse-layout f h =
    rw
      (
        unpack-le 4 f.build _ h.build_lt,
        unpack-le 4 f.login_server_id _ h.login_server_id_lt,
        until_zero_text f.account _ h.account_text,
        unpack-le 4 f.login_server_type _ h.login_server_type_lt,
        take-append 4 f.client_seed _ h.client_seed_len,
        drop-append 4 f.client_seed _ h.client_seed_len,
        unpack-le 4 f.region_id _ h.region_id_lt,
        unpack-le 4 f.battlegroup_id _ h.battlegroup_id_lt,
        unpack-le 4 f.realm_id _ h.realm_id_lt,
        unpack-append 8 f.dos_response _ h.dos_response_len,
      )
      (ap (λ (g : AuthSession). ok (un_le f.dos_response, g)) (parse_tail_fields f h))

-- The bridge replaces build, realm and digest of the client's session, and signs for the key. Where
-- the fields fit the packet, building it does not raise; both parsers read from it the session with
-- the three fields replaced; and the server accepts the signature.
pub parse-build_auth_session :
    (sha1 : Bytes → Bytes) (f : AuthSession) (build realm_id : ℕ) (key40 digest : Bytes)
    → digest ≡ auth_digest sha1 f.account f.client_seed auth_seed key40
    → IsSession (record f { build = build; realm_id = realm_id; digest = digest })
    → (packet : Bytes) × (build_auth_session f build realm_id digest ≡ ok packet)
      × (parse_auth_session packet
          ≡ ok (record f { build = build; realm_id = realm_id; digest = digest }))
      × (server_parse_auth_session packet
          ≡ ok (
            un_le f.dos_response,
            record f { build = build; realm_id = realm_id; digest = digest },
          ))
      × (verify_digest sha1 (record f { build = build; realm_id = realm_id; digest = digest }) key40
          ≡ true)
unfolding build_auth_session verify_digest auth_digest
parse-build_auth_session sha1 f build realm_id key40 digest signed h =
    let g : AuthSession = record f { build = build; realm_id = realm_id; digest = digest } in
    (
      layout g,
      build_auth_session-layout g h,
      parse_auth_session-layout g h,
      server_parse-layout g h,
      (eq_bytes_iff _ digest).1 (sym signed),
    )
