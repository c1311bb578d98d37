-- ===== src/Security/RoundTrip.antt =====
-- An access token that is issued and presented again before it expires.
use gpca_v.Prelude.{arith, ℕ, String, true, some, ◌≡◌, refl, ◌+◌, ◌*◌, ◌/◌, ltb, leb}
use gpca_v.Env.{Env, text, Payload, payload}
use gpca_v.Run.{World, ok, reading, advanced, ◌>>=◌}
use gpca_v.Security.Tokens.{
  AccessClaims, second, is_datetime, max_timestamp, access_payload, issue_access_token,
}
use gpca_v.Security.Guards.{decode_access_token, read_decoded, claims_of}

-- an expiry whose second `fromtimestamp` reads is an instant that a `datetime` can hold
before_limit :
    (instant seconds : ℕ)
    → seconds ≡ instant / second
    → leb seconds max_timestamp ≡ true
    → is_datetime instant ≡ true
before_limit instant seconds e h = ground arith

module _ (env : Env) (secret : String) (user_id : ℕ) (role : String) (token_version ttl_seconds : ℕ)
    (s : World) where
  -- the payload that is signed, and the second at which it expires
  abbrev pub issued_payload : Payload
  issued_payload =
      access_payload env user_id role token_version ttl_seconds (env.uuid4_hex (reading 1 s))
        (env.clock (reading 0 s))

  abbrev pub expiry : ℕ
  expiry = (env.clock (reading 0 s) + ttl_seconds * second) / second

  abbrev pub issued_claims : AccessClaims
  issued_claims = record {
    user_id = user_id;
    role = text role;
    token_version = token_version;
    jti = text (env.uuid4_hex (reading 1 s));
    expires_at = expiry * second;
  }

  module _ (uuid_round : env.uuid_parse (env.uuid_text user_id) ≡ some user_id)
      (jwt_round : (now : ℕ)
        → leb (env.clock (reading 0 s)) now ≡ true
        → ltb now (expiry * second) ≡ true
        → env.jwt_decode now (env.jwt_encode issued_payload secret) secret ≡ payload issued_payload)
      (in_range : leb expiry max_timestamp ≡ true) where
    -- Issuing returns a token and its expiry; decoding that token with the same secret, in any world
    -- whose clock is not before the issuing and before the second of the expiry, gives the claims that
    -- it was issued for. PyJWT is supposed to decode what it has encoded between these times, and UUID
    -- to parse what str has printed.
    pub issue-decode :
        (later : World)
        → leb (env.clock (reading 0 s)) (env.clock later.draws) ≡ true
        → ltb (env.clock later.draws) (expiry * second) ≡ true
        → let (r, s') = issue_access_token env secret user_id role token_version ttl_seconds s in
          (r
            ≡ ok (
              env.jwt_encode issued_payload secret,
              env.clock (reading 0 s) + ttl_seconds * second,
            ))
          × (decode_access_token env secret (env.jwt_encode issued_payload secret) later
              ≡ (ok issued_claims, advanced 1 later))
    unfolding issue_access_token access_payload decode_access_token read_decoded claims_of ◌>>=◌
    issue-decode later issued early = (
      rw (before_limit (env.clock (reading 0 s) + ttl_seconds * second) expiry refl in_range) refl,
      rw (jwt_round (env.clock later.draws) issued early) (rw (uuid_round, in_range) refl),
    )
