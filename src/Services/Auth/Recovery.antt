-- ===== src/Services/Auth/Recovery.antt =====
-- Password reset in api/app/services/auth.py.
use gpca_v.Prelude.{String, Bool, true, false, Option, none, some}
use gpca_v.Env.{Env}
use gpca_v.Config.{Settings}
use gpca_v.Run.{Exec, pure, draw, modify, ◌>>=◌, ◌>>◌}
use gpca_v.Db.Enums.{password_reset}
use gpca_v.Db.Models.{User}
use gpca_v.Db.Users
use gpca_v.Security.Passwords.{hash_password}
use gpca_v.Services.Auth.Mail.{password_reset_ttl, get_hasher, deferred_email}
use gpca_v.Services.Auth.SingleUse.{issue_single_use_token, consume_single_use_token}
use gpca_v.Services.Auth.Sessions.{revoke_all_sessions}

module _ (env : Env) where
  unfoldable pub send_reset : Option User → Exec (Unit {0})
  send_reset none = do draw env.token_urlsafe; pure tt
  send_reset (some user) = do
    token ← issue_single_use_token env user.id password_reset password_reset_ttl
    deferred_email (record {
      to = user.email;
      template = "password_reset";
      first_name = user.first_name;
      token = some token;
    })

  -- Mints a reset link, or pretends to.
  unfoldable pub request_password_reset : String → Exec (Unit {0})
  unfolding send_reset
  request_password_reset email = do user ← Users.get_by_email env email; send_reset user

  unfoldable pub set_password : Settings → String → Option User → Exec Bool
  set_password settings new_password none = pure false
  set_password settings new_password (some user) = do
    password_hash ← hash_password env (get_hasher settings) new_password
    modify (Users.assign (λ u. record u { password_hash = some password_hash }) user.id)
    revoke_all_sessions env user
    deferred_email (record {
      to = user.email;
      template = "password_changed";
      first_name = user.first_name;
      token = none;
    })
    pure true

  -- Sets a new password from a reset token. True when it was redeemed.
  unfoldable pub reset_password : Settings → String → String → Exec Bool
  unfolding set_password
  reset_password settings token new_password = do
    user ← consume_single_use_token env token password_reset
    set_password settings new_password user
