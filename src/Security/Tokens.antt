-- ===== src/Security/Tokens.antt =====
-- api/app/security/tokens.py, over PyJWT and SHA-256 as parameters.
use gpca_v.Prelude.{
  ℕ, String, Bool, Option, none, some, ◌+◌, ◌*◌, ◌/◌, ltb, leb, not, suc, if◌then◌else◌,
}
use gpca_v.Env.{Env, Claim, missing, text, number, Payload}
use gpca_v.Errors.{overflow_error}
use gpca_v.Run.{Exec, pure, draw, raise_if, ◌>>=◌, ◌>>◌}

-- microseconds in a second
abbrev pub second : ℕ
second = 1000000

pub record AccessClaims : Type 0 where
  pub user_id : ℕ
  pub role : Claim
  pub token_version : ℕ
  pub jti : Claim
  pub expires_at : ℕ

-- the last second of the year 9999
abbrev pub max_timestamp : ℕ
max_timestamp = 253402300799

-- An instant that a `datetime` can hold: its last one is 9999-12-31T23:59:59.999999. A sum past it is
-- an OverflowError.
abbrev pub is_datetime : ℕ → Bool
is_datetime instant = ltb instant (suc max_timestamp * second)

-- A claim as a field of `AccessClaims`; `none` is a KeyError, ValueError or TypeError. What is only
-- looked up may be of any type.
abbrev pub claim_present : Claim → Option Claim
claim_present missing = none
claim_present (text s) = some (text s)
claim_present (number n) = some (number n)

-- datetime.fromtimestamp(claim, tz=UTC)
abbrev pub claim_time : Claim → Option ℕ
claim_time missing = none
claim_time (text s) = none
claim_time (number n) = if leb n max_timestamp then some (n * second) else none

module _ (env : Env) where
  -- UUID(claim)
  abbrev pub claim_uuid : Claim → Option ℕ
  claim_uuid missing = none
  claim_uuid (text s) = env.uuid_parse s
  claim_uuid (number n) = none

  -- int(claim)
  abbrev pub claim_int : Claim → Option ℕ
  claim_int missing = none
  claim_int (text s) = env.int_parse s
  claim_int (number n) = some n

  -- the payload of a token issued at `now`
  unfoldable pub access_payload : ℕ → String → ℕ → ℕ → String → ℕ → Payload
  access_payload user_id role token_version ttl_seconds jti now = record {
    sub = text (env.uuid_text user_id);
    role = text role;
    token_version = number token_version;
    jti = text jti;
    iat = number (now / second);
    exp = number ((now + ttl_seconds * second) / second);
  }

  unfoldable pub issue_access_token : String → ℕ → String → ℕ → ℕ → Exec (String × ℕ)
  unfolding access_payload
  issue_access_token secret user_id role token_version ttl_seconds = do
    now ← draw env.clock
    raise_if (not (is_datetime (now + ttl_seconds * second))) overflow_error
    jti ← draw env.uuid4_hex
    pure (
      env.jwt_encode (access_payload user_id role token_version ttl_seconds jti now) secret,
      now + ttl_seconds * second,
    )

  -- SHA-256, not Argon2.
  abbrev pub hash_refresh_token : String → ℕ
  hash_refresh_token plaintext = env.sha256 plaintext

  -- the plaintext for the client and the digest to store
  unfoldable pub generate_refresh_token : Exec (String × ℕ)
  generate_refresh_token = do
    plaintext ← draw env.token_urlsafe
    pure (plaintext, hash_refresh_token plaintext)
