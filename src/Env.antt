-- ===== src/Env.antt =====
-- What the program calls and does not implement: the clock, the random generators, SHA-256,
-- argon2, PyJWT and PostgreSQL's own functions, as the arguments of the model. A reading that
-- may differ from call to call takes the number of readings made so far.
use gpca_v.Prelude.{ℕ, String, Bool, Option}

-- argon2.PasswordHasher(memory_cost, time_cost, parallelism)
pub record PasswordHasher : Type 0 where
  pub memory_cost : ℕ
  pub time_cost : ℕ
  pub parallelism : ℕ

-- how `PasswordHasher.verify` ends: it returns, or raises Argon2Error or InvalidHashError
pub data Verdict : Type 0 where
  verified argon2_error invalid_hash_error : Verdict

-- A claim of a decoded JWT: the JSON values that the program can meet there.
pub data Claim : Type 0 where
  missing : Claim
  text : String → Claim
  number : ℕ → Claim

-- the payload of an access token, as `issue_access_token` builds it and as PyJWT returns it
pub record Payload : Type 0 where
  pub sub : Claim
  pub role : Claim
  pub token_version : Claim
  pub jti : Claim
  pub iat : Claim
  pub exp : Claim

-- how `jwt.decode` ends: ExpiredSignatureError, another PyJWTError, or the payload
pub data Decoded : Type 0 where
  expired_signature : Decoded
  invalid : Decoded
  payload : Payload → Decoded

pub record Env : Type 0 where
  -- datetime.now(UTC), in microseconds
  pub clock : ℕ → ℕ
  -- secrets.token_urlsafe(32)
  pub token_urlsafe : ℕ → String
  -- uuid.uuid7(), and uuid.uuid4().hex
  pub uuid7 : ℕ → ℕ
  pub uuid4_hex : ℕ → String
  -- hashlib.sha256(text.encode()).digest()
  pub sha256 : String → ℕ
  -- str(uuid), and UUID(text), which raises ValueError on other texts
  pub uuid_text : ℕ → String
  pub uuid_parse : String → Option ℕ
  -- int(text), which raises ValueError
  pub int_parse : String → Option ℕ
  -- the folding under which citext compares
  pub citext_lower : String → String
  -- does PostgreSQL store the text in a varchar(n), in a text column, in an inet column?
  pub varchar_ok : ℕ → String → Bool
  pub inet_ok : String → Bool
  -- hasher.hash (with a random salt), hasher.verify and hasher.check_needs_rehash, in which `none`
  -- is an InvalidHashError
  pub argon2_hash : PasswordHasher → ℕ → String → String
  pub argon2_verify : PasswordHasher → String → String → Verdict
  pub argon2_needs_rehash : PasswordHasher → String → Option Bool
  -- jwt.encode(payload, secret, algorithm="HS256"), and jwt.decode(token, secret, ...) at a time
  pub jwt_encode : Payload → String → String
  pub jwt_decode : ℕ → String → String → Decoded
