-- ===== src/Wire/Session.antt =====
-- CMSG_AUTH_SESSION: `parse_auth_session`, `build_auth_session` and `auth_digest` of
-- server/ascension_bridge.py; `parse_auth_session` and `verify_digest` of server/world_server.py.
-- SHA-1 is a parameter.
pub mod Rebuilt
use ascension_preservation.Common.{
  ℕ, ◌==◌, Bool, true, List, [], ◌∷◌, ◌++◌, take, drop, if◌then◌else◌, Result, ok, err, value_error,
  ◌>>=◌,
}
use ascension_preservation.Common.Bytes.{Bytes, pack, unpack, eq_bytes}

-- The dictionary `f`. The bridge keeps `dosResponse` as bytes.
pub record AuthSession : Type 0 where
  pub build : ℕ
  pub login_server_id : ℕ
  pub account : Bytes
  pub login_server_type : ℕ
  pub client_seed : Bytes
  pub region_id : ℕ
  pub battlegroup_id : ℕ
  pub realm_id : ℕ
  pub dos_response : Bytes
  pub digest : Bytes
  pub addon_raw : Bytes

-- What precedes the first zero byte, and what follows it; `index` raises where there is none.
pub until_zero : Bytes → Result (Bytes × Bytes)
until_zero [] = err value_error
until_zero (x ∷ b) =
    let rest = (do (front, back) ← until_zero b; ok (x ∷ front, back)) in
    if x == 0 then ok ([], b) else rest

pub parse_tail : ℕ → ℕ → Bytes → ℕ → Bytes → ℕ → ℕ → ℕ → Bytes → AuthSession
parse_tail build login_server_id account login_server_type seed region battlegroup realm b =
    record {
      build = build;
      login_server_id = login_server_id;
      account = account;
      login_server_type = login_server_type;
      client_seed = seed;
      region_id = region;
      battlegroup_id = battlegroup;
      realm_id = realm;
      dos_response = take 8 b;
      digest = take 20 (drop 8 b);
      addon_raw = drop 20 (drop 8 b);
    }

-- The bridge's parser: slices do not raise, the integers and `index` do.
pub parse_auth_session : Bytes → Result AuthSession
parse_auth_session b0 = do
  (build, b1) ← unpack 4 b0
  (login_server_id, b2) ← unpack 4 b1
  (account, b3) ← until_zero b2
  (login_server_type, b4) ← unpack 4 b3
  (region, b5) ← unpack 4 (drop 4 b4)
  (battlegroup, b6) ← unpack 4 b5
  (realm, b7) ← unpack 4 b6
  ok (
      parse_tail build login_server_id account login_server_type (take 4 b4) region battlegroup
        realm b7)

-- The server's parser, which reads `dosResponse` as an integer.
pub server_parse_auth_session : Bytes → Result (ℕ × AuthSession)
server_parse_auth_session b0 = do
  (build, b1) ← unpack 4 b0
  (login_server_id, b2) ← unpack 4 b1
  (account, b3) ← until_zero b2
  (login_server_type, b4) ← unpack 4 b3
  (region, b5) ← unpack 4 (drop 4 b4)
  (battlegroup, b6) ← unpack 4 b5
  (realm, b7) ← unpack 4 b6
  (dos, b8) ← unpack 8 b7
  ok (
    dos,
    parse_tail build login_server_id account login_server_type (take 4 b4) region battlegroup realm
        b7,
  )

pub build_auth_session : AuthSession → ℕ → ℕ → Bytes → Result Bytes
build_auth_session f build realm_id digest = do
  build' ← pack 4 build
  server_id ← pack 4 f.login_server_id
  server_type ← pack 4 f.login_server_type
  region ← pack 4 f.region_id
  battlegroup ← pack 4 f.battlegroup_id
  realm ← pack 4 realm_id
  ok (
      build'
      ++ (server_id
          ++ (f.account
              ++ (0
                  ∷ (server_type
                      ++ (f.client_seed
                          ++ (region
                              ++ (battlegroup
                                  ++ (realm ++ (f.dos_response ++ (digest ++ f.addon_raw)))))))))))

-- `AUTH_SEED`
abbrev pub auth_seed : Bytes
auth_seed = 0x11 ∷ 0x22 ∷ 0x33 ∷ 0x44 ∷ []

module _ (sha1 : Bytes → Bytes) where
  unfoldable pub auth_digest : Bytes → Bytes → Bytes → Bytes → Bytes
  auth_digest account client_seed server_seed key40 =
      sha1 (account ++ ((0 ∷ 0 ∷ 0 ∷ 0 ∷ []) ++ (client_seed ++ (server_seed ++ key40))))

  pub verify_digest : AuthSession → Bytes → Bool
  verify_digest f key40 =
      eq_bytes
        (sha1 (f.account ++ ((0 ∷ 0 ∷ 0 ∷ 0 ∷ []) ++ (f.client_seed ++ (auth_seed ++ key40)))))
        f.digest
