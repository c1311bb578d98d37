-- ===== src/Security/Guards.antt =====
-- api/app/security/decorators.py: the route guards.
use gpca_v.Prelude.{ℕ, String, not, ◌||◌, Option, none, some, ltb, ◌==◌, is_some, is_none}
use gpca_v.Env.{Env, Claim, Payload, Decoded, expired_signature, invalid, payload}
use gpca_v.Config.{Settings}
use gpca_v.Errors.{
  Exn, http, token_expired, token_invalid, authentication_failed, refresh_rejected, integrity_error,
  data_error, multiple_results, runtime_error, overflow_error, raise_unauthorized, raise_forbidden,
}
use gpca_v.Run.{World, Result, ok, err, Exec, pure, raise, draw, raise_if, ◌>>=◌, ◌>>◌}
use gpca_v.Run.Scope.{session_scope}
use gpca_v.Db.Enums.{UserRole, viewer, member, admin, is_active}
use gpca_v.Db.Models.{User}
use gpca_v.Db.Users
use gpca_v.Security.Header.{strip, before_space, after_space, lowers_to, bearer_codes, is_empty}
use gpca_v.Security.Tokens.{AccessClaims, claim_present, claim_time, claim_uuid, claim_int}

-- `_ROLE_RANK`
abbrev pub role_rank : UserRole → ℕ
role_rank viewer = 0
role_rank member = 1
role_rank admin = 2

-- f"This action requires the {minimum.value} role."
abbrev pub role_required : UserRole → String
role_required viewer = "This action requires the viewer role."
role_required member = "This action requires the member role."
role_required admin = "This action requires the admin role."

-- `request.headers.get("Authorization", "")`
abbrev pub header_text : Option String → String
header_text none = ""
header_text (some text) = text

unfoldable pub bearer_token : Option String → Exec String
bearer_token authorization = do
  let header = header_text authorization
  let token = strip (after_space header)
  raise_if (not (lowers_to bearer_codes (before_space header)) || is_empty token)
      (raise_unauthorized "A bearer token is required.")
  pure token

-- the two `except` clauses of `_load_current_user`
abbrev pub token_error : Exn → Exn
token_error token_expired = raise_unauthorized "Access token has expired."
token_error token_invalid = raise_unauthorized "Access token is not valid."
token_error (http e) = http e
token_error authentication_failed = authentication_failed
token_error refresh_rejected = refresh_rejected
token_error integrity_error = integrity_error
token_error data_error = data_error
token_error multiple_results = multiple_results
token_error runtime_error = runtime_error
token_error overflow_error = overflow_error

abbrev pub catch {ℓ} : {A : Type ℓ} → (Exn → Exn) → Result A × World → Result A × World
catch f (ok a, s) = (ok a, s)
catch f (err e, s) = (err (f e), s)

-- the claims of a payload; a missing or wrongly shaped one is a TokenInvalid
abbrev pub build_claims :
    Option ℕ → Option Claim → Option ℕ → Option Claim → Option ℕ → Option AccessClaims
build_claims (some u) (some r) (some v) (some j) (some e) =
    some (record { user_id = u; role = r; token_version = v; jti = j; expires_at = e })
build_claims _ _ _ _ _ = none

abbrev pub or_raise {ℓ} : {A : Type ℓ} → Exn → Option A → Exec A
or_raise e none = raise e
or_raise e (some a) = pure a

module _ (env : Env) where
  unfoldable pub claims_of : Payload → Option AccessClaims
  claims_of p =
      build_claims (claim_uuid env p.sub) (claim_present p.role) (claim_int env p.token_version)
        (claim_present p.jti) (claim_time p.exp)

  unfoldable pub read_decoded : Decoded → Exec AccessClaims
  read_decoded expired_signature = raise token_expired
  read_decoded invalid = raise token_invalid
  read_decoded (payload p) = or_raise token_invalid (claims_of p)

  -- `decode_access_token` of api/app/security/tokens.py; PyJWT reads the clock
  unfoldable pub decode_access_token : String → String → Exec AccessClaims
  unfolding read_decoded claims_of
  decode_access_token secret token = do
    decoded ← draw (λ n. env.jwt_decode (env.clock n) token secret)
    read_decoded decoded

  -- the checks on the account that the token names
  unfoldable pub admit : ℕ → Option User → Exec User
  admit token_version none = raise (raise_unauthorized "Access token is not valid.")
  admit token_version (some user) = do
    raise_if (is_some user.deleted_at) (raise_unauthorized "Access token is not valid.")
    raise_if (not (is_active user.status)) (raise_unauthorized "Access token is not valid.")
    raise_if (not (user.token_version == token_version))
        (raise_unauthorized "Access token is no longer valid.")
    pure user

  -- the argument of `decode_access_token` is evaluated inside the `try` too
  unfoldable pub read_claims : Settings → Option String → Exec AccessClaims
  unfolding bearer_token decode_access_token
  read_claims settings authorization s =
      catch token_error ((bearer_token authorization >>= decode_access_token settings.jwt_secret) s)

  -- Resolves the caller from the access token, or raises.
  unfoldable pub load_current_user : Settings → Option String → Exec User
  unfolding read_claims admit
  load_current_user settings authorization = do
    claims ← read_claims settings authorization
    session_scope (do user ← Users.get claims.user_id; admit claims.token_version user)

  module _ {ℓ} {A : Type ℓ} (settings : Settings) (authorization : Option String) where
    -- `require_auth`: the view runs with the account on `g`
    unfoldable pub require_auth : (User → Exec A) → Exec A
    require_auth view = do user ← load_current_user settings authorization; view user

    unfoldable pub require_role : UserRole → (User → Exec A) → Exec A
    require_role minimum view = do
      user ← load_current_user settings authorization
      raise_if (ltb (role_rank user.role) (role_rank minimum))
          (raise_forbidden (role_required minimum))
      view user

    unfoldable pub require_admin : (User → Exec A) → Exec A
    unfolding require_role
    require_admin = require_role admin

    unfoldable pub require_verified_email : (User → Exec A) → Exec A
    require_verified_email view = do
      user ← load_current_user settings authorization
      raise_if (is_none user.email_verified_at)
          (raise_forbidden "Verify your email address to do this.")
      view user
