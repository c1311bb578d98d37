-- ===== src/Tests/Demo.antt =====
-- A concrete environment and a small database for the tests.
use Prim.Native.Char.{code}
use Prim.Native.String.{String, [], ◌∷◌, ◌++◌}
use mathlib.Core.List.{List}
use gpca_v.Prelude.{ℕ, zero, suc, true, false, none, some, ◌+◌, ◌*◌, leb, if◌then◌else◌}
use gpca_v.Env.{Env, verified, argon2_error, Claim, missing, text, number, payload}
use gpca_v.Config.{Settings}
use gpca_v.Run.{World}
use gpca_v.Db.Enums.{viewer, active, email_verify}
use gpca_v.Db.Models.{User, RefreshToken, AuthToken, Database}
use gpca_v.Services.Auth.Sessions.{Client}
use package.text.Mathlib.Text.{◌==◌ as str_eq}

-- the n-th random text, and a digest that tells such texts apart
abbrev pub token_of : ℕ → String
token_of zero = "t"
token_of (suc n) = "t" ++ token_of n

abbrev pub digest_of : String → ℕ
digest_of [] = 0
digest_of (c ∷ s) = code c + 128 * digest_of s

abbrev text_or : Claim → String
text_or missing = ""
text_or (text s) = s
text_or (number n) = ""

abbrev pub demo : Env
demo = record {
  clock = λ n. 5000000 + n;
  token_urlsafe = token_of;
  uuid7 = λ n. 100 + n;
  uuid4_hex = token_of;
  sha256 = digest_of;
  uuid_text = token_of;
  uuid_parse = λ s. some (if str_eq s "" then 0 else 1);
  int_parse = λ s. none;
  citext_lower = λ s. s;
  varchar_ok = λ n s. leb (digest_of s) (128 * 128 * 128);
  inet_ok = λ s. true;
  argon2_hash = λ hasher salt password. "$" ++ password;
  argon2_verify =
      λ hasher stored password. if str_eq stored ("$" ++ password) then verified else argon2_error;
  argon2_needs_rehash = λ hasher stored. some false;
  jwt_encode = λ p secret. text_or p.sub;
  jwt_decode = λ now token secret. payload (record {
    sub = text token;
    role = text "viewer";
    token_version = number 0;
    jti = text "j";
    iat = number 0;
    exp = number 9000;
  });
}

abbrev pub settings : Settings
settings = record {
  secret_key = "0123456789abcdef0123456789abcdef";
  database_url = "postgresql://localhost/gpca";
  jwt_secret = "0123456789abcdef0123456789abcdef";
  flask_env = "production";
  log_level = "INFO";
  frontend_origin = "http://localhost:5173";
  jwt_access_ttl_seconds = 900;
  jwt_refresh_ttl_days = 30;
  argon2_memory_cost_kib = 19456;
  argon2_time_cost = 2;
  argon2_parallelism = 1;
  db_connect_timeout_seconds = 5;
  ses_from_address = none;
}

abbrev pub ada : User
ada = record {
  id = 1;
  email = "ada";
  password_hash = some "$pw";
  first_name = "Ada";
  last_name = "L";
  display_name = none;
  role = viewer;
  status = active;
  token_version = 0;
  email_verified_at = none;
  phone = none;
  city = none;
  state_province = none;
  state_code = none;
  country_code = none;
  member_since = none;
  last_login_at = none;
  deleted_at = none;
}

-- a refresh token "r", live, and one "q", revoked, of the same family
abbrev pub live_row : RefreshToken
live_row = record {
  id = 2;
  user_id = 1;
  token_hash = digest_of "r";
  family_id = 7;
  expires_at = 9000000;
  revoked_at = none;
  replaced_by_id = none;
  user_agent = none;
  ip = none;
}

abbrev pub spent_row : RefreshToken
spent_row = record live_row {
  id = 3;
  token_hash = digest_of "q";
  revoked_at = some 4000000;
  replaced_by_id = some 2;
}

-- a verification token "v", live
abbrev pub verify_row : AuthToken
verify_row = record {
  id = 4;
  user_id = 1;
  purpose = email_verify;
  token_hash = digest_of "v";
  expires_at = 9000000;
  consumed_at = none;
}

-- and one "u", consumed
abbrev pub used_row : AuthToken
used_row = record verify_row { id = 5; token_hash = digest_of "u"; consumed_at = some 4000000 }

abbrev pub db : Database
db = record {
  users = List.◌∷◌ ada List.[];
  refresh_tokens = List.◌∷◌ live_row (List.◌∷◌ spent_row List.[]);
  auth_tokens = List.◌∷◌ verify_row (List.◌∷◌ used_row List.[]);
}

abbrev pub start : World
start = record { db = db; draws = 10; pending = List.[]; sent = List.[] }

abbrev pub browser : Client
browser = record { user_agent = some "ua"; ip = some "::1" }
