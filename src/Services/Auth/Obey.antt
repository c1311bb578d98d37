-- ===== src/Services/Auth/Obey.antt =====
-- The services of api/app/services/auth.py and the logics of actions: tokens and sessions.
pub mod Accounts
use gpca_v.Prelude.{ℕ, String, Option, none, some, refl}
use gpca_v.Env.{Env, PasswordHasher}
use gpca_v.Config.{Settings}
use gpca_v.Run.{modify}
use gpca_v.Db.Enums.{AuthTokenPurpose}
use gpca_v.Db.Models.{User, RefreshToken, AuthToken}
use gpca_v.Db.Users
use gpca_v.Db.RefreshTokens
use gpca_v.Db.RefreshTokens.{revoked_now}
use gpca_v.Services.Auth.Logic.{
  Logic, Obeys, Obeys-bind, Obeys-assign_user, Obeys-assign_refresh, logic_rules,
}
use gpca_v.Security.Passwords.{hash_password, dummy_verify}
use gpca_v.Security.Tokens.{issue_access_token, generate_refresh_token}
use gpca_v.Services.Auth.SingleUse.{
  issue_single_use_token, redeem, check_row, consume_single_use_token,
}
use gpca_v.Services.Auth.Sessions.{
  Client, issue_session, upgrade_hash, check_password, check_account, authenticate, link, exchange,
  rotate_row, rotate_refresh_token, revoke_row, revoke_refresh_token, bumped, revoke_all_sessions,
}

module _ (env : Env) {logic : Logic env} where
  pub issue_single_use_token-Obeys :
      (user_id : ℕ) (purpose : AuthTokenPurpose) (ttl : ℕ)
      → Obeys logic (issue_single_use_token env user_id purpose ttl)
  unfolding issue_single_use_token
  issue_single_use_token-Obeys user_id purpose ttl = search logic_rules

  redeem-Obeys : (row : AuthToken) (user : Option User) → Obeys logic (redeem env row user)
  unfolding redeem
  redeem-Obeys row none = search logic_rules
  redeem-Obeys row (some user) = search logic_rules

  check_row-Obeys :
      (purpose : AuthTokenPurpose) (row : Option AuthToken)
      → Obeys logic (check_row env purpose row)
  unfolding check_row
  check_row-Obeys purpose none = search logic_rules
  check_row-Obeys purpose (some row) = search (logic_rules, redeem-Obeys) depth 8

  pub consume_single_use_token-Obeys :
      (token : String) (purpose : AuthTokenPurpose)
      → Obeys logic (consume_single_use_token env token purpose)
  unfolding consume_single_use_token
  consume_single_use_token-Obeys token purpose = search (logic_rules, check_row-Obeys)

  pub hash_password-Obeys :
      (hasher : PasswordHasher) (password : String)
      → Obeys logic (hash_password env hasher password)
  unfolding hash_password
  hash_password-Obeys hasher password = search logic_rules

  pub dummy_verify-Obeys : (hasher : PasswordHasher) → Obeys logic (dummy_verify env hasher)
  unfolding dummy_verify
  dummy_verify-Obeys hasher = search logic_rules

  pub issue_access_token-Obeys :
      (secret : String) (user_id : ℕ) (role : String) (token_version ttl_seconds : ℕ)
      → Obeys logic (issue_access_token env secret user_id role token_version ttl_seconds)
  unfolding issue_access_token
  issue_access_token-Obeys secret user_id role token_version ttl_seconds = search logic_rules

  pub generate_refresh_token-Obeys : Obeys logic (generate_refresh_token env)
  unfolding generate_refresh_token
  generate_refresh_token-Obeys = search logic_rules

pub ruleset service_rules = (
  logic_rules, issue_single_use_token-Obeys, consume_single_use_token-Obeys, hash_password-Obeys,
  dummy_verify-Obeys, issue_access_token-Obeys, generate_refresh_token-Obeys,
)

module _ (env : Env) (settings : Settings) {logic : Logic env} where
  pub issue_session-Obeys :
      (user : User) (family_id : Option ℕ) (client : Client)
      → Obeys logic (issue_session env settings user family_id client)
  unfolding issue_session
  issue_session-Obeys user family_id client = search service_rules depth 8

  pub set_hash-Obeys :
      (hash : String) (user_id : ℕ)
      → Obeys logic (modify (Users.assign (λ u. record u { password_hash = some hash }) user_id))
  set_hash-Obeys hash user_id = Obeys-assign_user _ user_id (λ u. (refl, refl, refl))

  set_login-Obeys :
      (now user_id : ℕ)
      → Obeys logic (modify (Users.assign (λ u. record u { last_login_at = some now }) user_id))
  set_login-Obeys now user_id = Obeys-assign_user _ user_id (λ u. (refl, refl, refl))

  upgrade_hash-Obeys :
      (user : User) (stored_hash password : String)
      → Obeys logic (upgrade_hash env settings user stored_hash password)
  unfolding upgrade_hash
  upgrade_hash-Obeys user stored_hash password = search (service_rules, set_hash-Obeys) depth 8

  check_password-Obeys :
      (user : User) (hash : Option String) (password : String) (client : Client)
      → Obeys logic (check_password env settings user hash password client)
  unfolding check_password
  check_password-Obeys user none password client = search service_rules
  check_password-Obeys user (some hash) password client =
      search (service_rules, upgrade_hash-Obeys, set_login-Obeys, issue_session-Obeys) depth 9

  check_account-Obeys :
      (user : Option User) (password : String) (client : Client)
      → Obeys logic (check_account env settings user password client)
  unfolding check_account
  check_account-Obeys none password client = search service_rules
  check_account-Obeys (some user) password client =
      check_password-Obeys user user.password_hash password client

  pub authenticate-Obeys :
      (email password : String) (client : Client)
      → Obeys logic (authenticate env settings email password client)
  unfolding authenticate
  authenticate-Obeys email password client = search (service_rules, check_account-Obeys)

  pub link-Obeys :
      (row : RefreshToken) (replacement : Option RefreshToken)
      → Obeys logic (link env settings row replacement)
  unfolding link
  link-Obeys row none = search logic_rules
  link-Obeys row (some r) = search logic_rules

  revoke_one-Obeys : (now id : ℕ) → Obeys logic (modify (RefreshTokens.assign (revoked_now now) id))
  revoke_one-Obeys now id =
      Obeys-assign_refresh _ id (λ t. (refl, refl, refl, refl, λ h. refl)) (λ t. refl)

  exchange-Obeys :
      (row : RefreshToken) (user : Option User) (client : Client)
      → Obeys logic (exchange env settings row user client)
  unfolding exchange
  exchange-Obeys row none client = search logic_rules
  exchange-Obeys row (some user) client =
      search (service_rules, issue_session-Obeys, link-Obeys, revoke_one-Obeys) depth 10

  pub rotate_row-Obeys :
      (row : Option RefreshToken) (client : Client)
      → Obeys logic (rotate_row env settings row client)
  unfolding rotate_row
  rotate_row-Obeys none client = search logic_rules
  rotate_row-Obeys (some row) client = search (service_rules, exchange-Obeys) depth 9

  pub rotate-Obeys :
      (token : String) (client : Client)
      → Obeys logic (rotate_refresh_token env settings token client)
  unfolding rotate_refresh_token
  rotate-Obeys token client = search (service_rules, rotate_row-Obeys)

  revoke_row-Obeys : (row : Option RefreshToken) → Obeys logic (revoke_row env row)
  unfolding revoke_row
  revoke_row-Obeys none = search logic_rules
  revoke_row-Obeys (some row) = search (service_rules, revoke_one-Obeys) depth 8

  pub revoke-Obeys : (token : String) → Obeys logic (revoke_refresh_token env token)
  unfolding revoke_refresh_token
  revoke-Obeys token = search (service_rules, revoke_row-Obeys)

  bump-Obeys : (user : User) → Obeys logic (modify (Users.assign (bumped env user) user.id))
  bump-Obeys user = Obeys-assign_user _ user.id (λ u. (refl, refl, refl))

  pub revoke_all-Obeys : (user : User) → Obeys logic (revoke_all_sessions env user)
  unfolding revoke_all_sessions
  revoke_all-Obeys user = search (service_rules, bump-Obeys)
