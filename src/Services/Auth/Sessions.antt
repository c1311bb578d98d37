-- ===== src/Services/Auth/Sessions.antt =====
-- Sessions in api/app/services/auth.py: login, rotation of refresh tokens, and logout.
use gpca_v.Prelude.{
  ℕ, String, not, Option, none, some, ◌+◌, ◌*◌, ◌||◌, leb, is_some, is_none, suc, if◌then◌else◌,
}
use gpca_v.Env.{Env}
use gpca_v.Config.{Settings}
use gpca_v.Errors.{authentication_failed, refresh_rejected, runtime_error, overflow_error}
use gpca_v.Run.{Exec, pure, raise, draw, modify, raise_if, ◌>>=◌, ◌>>◌}
use gpca_v.Db.Enums.{role_value, is_active}
use gpca_v.Db.Models.{User, RefreshToken}
use gpca_v.Db.Users
use gpca_v.Db.RefreshTokens
use gpca_v.Db.RefreshTokens.{revoked_now}
use gpca_v.Security.Passwords.{hash_password, verify_password, needs_rehash, dummy_verify}
use gpca_v.Security.Tokens.{
  second, is_datetime, issue_access_token, generate_refresh_token, hash_refresh_token,
}
use gpca_v.Services.Auth.Mail.{get_hasher}
use text.Mathlib.Text.{◌==◌ as str_eq}

-- access token, refresh token, seconds until the first expires
abbrev pub TokenPair : Type 0
TokenPair = String × String × ℕ

-- `text or None`
abbrev pub or_none : Option String → Option String
or_none none = none
or_none (some text) = if str_eq text "" then none else some text

-- where a request came from, as `issue_session` records it
pub record Client : Type 0 where
  pub user_agent : Option String
  pub ip : Option String

module _ (env : Env) (settings : Settings) where
  abbrev pub refresh_ttl : ℕ
  refresh_ttl = settings.jwt_refresh_ttl_days * 86400 * second

  -- Mints an access token and a refresh token, in the given family or a new one. `now + timedelta` past
  -- the last datetime raises.
  unfoldable pub issue_session : User → Option ℕ → Client → Exec TokenPair
  issue_session user family_id client = do
    access ←
        issue_access_token env settings.jwt_secret user.id (role_value user.role) user.token_version
          settings.jwt_access_ttl_seconds
    generated ← generate_refresh_token env
    now ← draw env.clock
    raise_if (not (is_datetime (now + refresh_ttl))) overflow_error
    RefreshTokens.add env family_id λ id family. record {
      id = id;
      user_id = user.id;
      token_hash = generated.1;
      family_id = family;
      expires_at = now + refresh_ttl;
      revoked_at = none;
      replaced_by_id = none;
      user_agent = or_none client.user_agent;
      ip = or_none client.ip;
    }
    pure (access.0, generated.0, settings.jwt_access_ttl_seconds)

  -- the hash of an account whose parameters are out of date is written anew
  unfoldable pub upgrade_hash : User → String → String → Exec (Unit {0})
  upgrade_hash user stored_hash password =
      if needs_rehash env (get_hasher settings) stored_hash
      then (do
        upgraded ← hash_password env (get_hasher settings) password
        modify (Users.assign (λ u. record u { password_hash = some upgraded }) user.id))
      else pure tt

  unfoldable pub check_password : User → Option String → String → Client → Exec TokenPair
  unfolding upgrade_hash
  check_password user none password client = do
    dummy_verify env (get_hasher settings)
    raise authentication_failed
  check_password user (some stored_hash) password client = do
    raise_if (not (verify_password env (get_hasher settings) stored_hash password))
        authentication_failed
    raise_if (not (is_active user.status)) authentication_failed
    upgrade_hash user stored_hash password
    now ← draw env.clock
    modify (Users.assign (λ u. record u { last_login_at = some now }) user.id)
    issue_session user none client

  unfoldable pub check_account : Option User → String → Client → Exec TokenPair
  unfolding check_password
  check_account none password client = do
    dummy_verify env (get_hasher settings)
    raise authentication_failed
  check_account (some user) password client = check_password user user.password_hash password client

  -- Verifies credentials and opens a session, or raises AuthenticationFailed.
  unfoldable pub authenticate : String → String → Client → Exec TokenPair
  unfolding check_account
  authenticate email password client = do
    user ← Users.get_by_email env email
    check_account user password client

  -- The presented row is linked to the row that replaces it.
  unfoldable pub link : RefreshToken → Option RefreshToken → Exec (Unit {0})
  link row none = raise runtime_error
  link row (some replacement) = RefreshTokens.set_replaced_by row.id replacement.id

  -- The presented row is live and unexpired: it is revoked, and a pair of its family issued.
  unfoldable pub exchange : RefreshToken → Option User → Client → Exec TokenPair
  unfolding link
  exchange row none client = raise refresh_rejected
  exchange row (some user) client = do
    raise_if (is_some user.deleted_at || not (is_active user.status)) refresh_rejected
    now ← draw env.clock
    modify (RefreshTokens.assign (revoked_now now) row.id)
    issued ← issue_session user (some row.family_id) client
    replacement ← RefreshTokens.get_by_hash (hash_refresh_token env issued.1)
    link row replacement
    pure issued

  unfoldable pub rotate_row : Option RefreshToken → Client → Exec TokenPair
  unfolding exchange
  rotate_row none client = raise refresh_rejected
  rotate_row (some row) client =
      if is_some row.revoked_at
      then (do RefreshTokens.revoke_family env row.family_id; raise refresh_rejected)
      else do
        now ← draw env.clock
        raise_if (leb row.expires_at now) refresh_rejected
        user ← Users.get row.user_id
        exchange row user client

  -- Exchanges a refresh token for a new pair.
  unfoldable pub rotate_refresh_token : String → Client → Exec TokenPair
  unfolding rotate_row
  rotate_refresh_token token client = do
    row ← RefreshTokens.get_by_hash (hash_refresh_token env token)
    rotate_row row client

module _ (env : Env) where
  unfoldable pub revoke_row : Option RefreshToken → Exec (Unit {0})
  revoke_row none = pure tt
  revoke_row (some row) =
      if is_none row.revoked_at
      then (do now ← draw env.clock; modify (RefreshTokens.assign (revoked_now now) row.id))
      else pure tt

  -- Logs out one session.
  unfoldable pub revoke_refresh_token : String → Exec (Unit {0})
  unfolding revoke_row
  revoke_refresh_token token = do
    row ← RefreshTokens.get_by_hash (hash_refresh_token env token)
    revoke_row row

  -- `user.token_version += 1`, from the value that the object holds
  abbrev pub bumped : User → User → User
  bumped user u = record u { token_version = suc user.token_version }

  -- Logs out everywhere.
  unfoldable pub revoke_all_sessions : User → Exec (Unit {0})
  revoke_all_sessions user = do
    RefreshTokens.revoke_all_for_user env user.id
    modify (Users.assign (bumped user) user.id)
