-- ===== src/Services/Auth/Accounts.antt =====
-- Accounts in api/app/services/auth.py: registration and the verification of an address.
use gpca_v.Prelude.{
  ℕ, String, Bool, true, false, Option, none, some, is_some, is_none, if◌then◌else◌,
}
use gpca_v.Env.{Env}
use gpca_v.Config.{Settings}
use gpca_v.Run.{Exec, pure, draw, modify, ◌>>=◌, ◌>>◌}
use gpca_v.Db.Enums.{viewer, active, email_verify}
use gpca_v.Db.Models.{User}
use gpca_v.Db.Users
use gpca_v.Security.Passwords.{hash_password, dummy_verify}
use gpca_v.Services.Auth.Mail.{email_verify_ttl, get_hasher, deferred_email}
use gpca_v.Services.Auth.SingleUse.{issue_single_use_token, consume_single_use_token}

-- the body of a registration
pub record Registration : Type 0 where
  pub email : String
  pub password : String
  pub first_name : String
  pub last_name : String

-- the row that `register` stages, before its key is drawn
abbrev pub new_user : Registration → String → ℕ → User
new_user form password_hash id = record {
  id = id;
  email = form.email;
  password_hash = some password_hash;
  first_name = form.first_name;
  last_name = form.last_name;
  display_name = none;
  role = viewer;
  status = active;
  token_version = 0;
  email_verified_at = none;
  phone = none;
  city = none;
  state_province = none;
  state_code = none;
  country_code = none;
  member_since = none;
  last_login_at = none;
  deleted_at = none;
}

module _ (env : Env) where
  -- a fresh verification token, and the message that carries it
  unfoldable pub send_verification : ℕ → String → String → Exec (Unit {0})
  send_verification user_id email first_name = do
    token ← issue_single_use_token env user_id email_verify email_verify_ttl
    deferred_email (record {
      to = email;
      template = "verify_email";
      first_name = first_name;
      token = some token;
    })

  unfoldable pub register_new : Settings → Registration → Exec (Unit {0})
  unfolding send_verification
  register_new settings form = do
    password_hash ← hash_password env (get_hasher settings) form.password
    user ← Users.add env (new_user form password_hash)
    send_verification user.id form.email form.first_name

  unfoldable pub register_existing : Settings → Registration → User → Exec (Unit {0})
  register_existing settings form existing = do
    dummy_verify env (get_hasher settings)
    deferred_email (record {
      to = form.email;
      template = "register_existing_account";
      first_name = existing.first_name;
      token = none;
    })

  unfoldable pub register_found : Settings → Registration → Option User → Exec (Unit {0})
  unfolding register_new register_existing
  register_found settings form none = register_new settings form
  register_found settings form (some existing) = register_existing settings form existing

  -- Creates an account, or pretends to.
  unfoldable pub register : Settings → Registration → Exec (Unit {0})
  unfolding register_found
  register settings form = do
    existing ← Users.get_by_email env form.email
    register_found settings form existing

  unfoldable pub mark_verified : Option User → Exec Bool
  mark_verified none = pure false
  mark_verified (some user) =
      if is_none user.email_verified_at
      then (do
        now ← draw env.clock
        modify (Users.assign (λ u. record u { email_verified_at = some now }) user.id)
        pure true)
      else pure true

  -- Marks an address verified. True when the token was redeemed.
  unfoldable pub verify_email : String → Exec Bool
  unfolding mark_verified
  verify_email token = do user ← consume_single_use_token env token email_verify; mark_verified user

  -- Issues a fresh verification link; a no-op for an already-verified account.
  unfoldable pub resend_verification : User → Exec (Unit {0})
  unfolding send_verification
  resend_verification user =
      if is_some user.email_verified_at
      then pure tt
      else send_verification user.id user.email user.first_name
