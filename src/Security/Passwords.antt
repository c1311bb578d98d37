-- ===== src/Security/Passwords.antt =====
-- api/app/security/passwords.py, over the argon2 library as a parameter.
use gpca_v.Prelude.{ℕ, String, Bool, true, false, Option, none, some}
use gpca_v.Env.{Env, PasswordHasher, Verdict, verified, argon2_error, invalid_hash_error}
use gpca_v.Run.{Exec, pure, draw}

abbrev pub min_password_length : ℕ
min_password_length = 14

abbrev pub max_password_length : ℕ
max_password_length = 1024

abbrev pub build_hasher : ℕ → ℕ → ℕ → PasswordHasher
build_hasher memory_cost time_cost parallelism = record {
  memory_cost = memory_cost;
  time_cost = time_cost;
  parallelism = parallelism;
}

-- what the two `except` clauses of `verify_password` make of a verdict
abbrev pub to_bool : Verdict → Bool
to_bool verified = true
to_bool argon2_error = false
to_bool invalid_hash_error = false

-- what the `except` clause of `needs_rehash` makes of an answer
abbrev pub rehash_answer : Option Bool → Bool
rehash_answer none = false
rehash_answer (some needed) = needed

module _ (env : Env) where
  -- a hash with a salt of its own
  unfoldable pub hash_password : PasswordHasher → String → Exec String
  hash_password hasher password = draw (λ salt. env.argon2_hash hasher salt password)

  unfoldable pub verify_password : PasswordHasher → String → String → Bool
  verify_password hasher stored_hash password =
      to_bool (env.argon2_verify hasher stored_hash password)

  unfoldable pub needs_rehash : PasswordHasher → String → Bool
  needs_rehash hasher stored_hash = rehash_answer (env.argon2_needs_rehash hasher stored_hash)

  -- `_DUMMY_HASH`, made at import; salt 0 stands for the salt of that time
  abbrev pub dummy_hash : String
  dummy_hash = env.argon2_hash (build_hasher 19456 2 1) 0 "dummy-password-for-timing-parity"

  -- one verification, whose answer is dropped
  unfoldable pub dummy_verify : PasswordHasher → Exec Bool
  unfolding verify_password
  dummy_verify hasher = pure (verify_password hasher dummy_hash "not-the-password")
