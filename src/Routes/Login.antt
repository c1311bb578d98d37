-- ===== src/Routes/Login.antt =====
-- The login endpoint: every refusal reads the same and changes nothing.
use gpca_v.Prelude.{
  String, Bool, true, false, ◌&&◌, Option, none, some, ◌≡◌, refl, arith, Bool-cases, inl, inr,
}
use gpca_v.Env.{Env}
use gpca_v.Config.{Settings}
use gpca_v.Errors.{authentication_failed, raise_unauthorized}
use gpca_v.Messages
use gpca_v.Run.{World, err, ◌>>=◌}
use gpca_v.Run.Scope.{session_scope}
use gpca_v.Db.Enums.{is_active}
use gpca_v.Db.Models.{User}
use gpca_v.Db.Integrity.{IsWellFormed}
use gpca_v.Db.Lookup.{account_of, get_by_email_lem}
use gpca_v.Security.Passwords.{verify_password, dummy_verify}
use gpca_v.Services.Auth.Mail.{get_hasher}
use gpca_v.Services.Auth.Sessions.{Client, authenticate, check_account, check_password}
use gpca_v.Routes.Auth.{login_view}

module _ (env : Env) (settings : Settings) (password : String) where
  abbrev hash_matches : Option String → Bool
  hash_matches none = false
  hash_matches (some stored) = verify_password env (get_hasher settings) stored password

  -- May this account log in with the password? It must exist, have a password, have this one, and be
  -- active.
  abbrev pub may_log_in : Option User → Bool
  may_log_in none = false
  may_log_in (some user) = hash_matches user.password_hash && is_active user.status

  check_password_refused :
      (user : User) (hash : Option String) (client : Client) (s : World)
      → (hash_matches hash && is_active user.status) ≡ false
      → check_password env settings user hash password client s ≡ (err authentication_failed, s)
  unfolding check_password dummy_verify ◌>>=◌
  check_password_refused user none client s h = refl
  check_password_refused user (some stored) client s h =
      elim (Bool-cases (verify_password env (get_hasher settings) stored password)) [
        | inr wrong ↦ rw wrong refl
        | inl right ↦ rw (right, inactive right h) refl
      ]
    where
      inactive :
          hash_matches (some stored) ≡ true
          → (hash_matches (some stored) && is_active user.status) ≡ false
          → is_active user.status ≡ false
      inactive p q = ground arith

  check_account_refused :
      (o : Option User) (client : Client) (s : World)
      → may_log_in o ≡ false
      → check_account env settings o password client s ≡ (err authentication_failed, s)
  unfolding check_account dummy_verify ◌>>=◌
  check_account_refused none client s h = refl
  check_account_refused (some user) client s h =
      check_password_refused user user.password_hash client s h

module _ (env : Env) (settings : Settings) (email password : String) (client : Client) (s : World)
    (w : IsWellFormed env.citext_lower s.db) where
  pub authenticate_lem :
      authenticate env settings email password client s
      ≡ check_account env settings (account_of env email s.db) password client s
  unfolding authenticate ◌>>=◌
  authenticate_lem = rw (get_by_email_lem env s w email) refl

  -- An unknown address, an account without a password, a wrong password and an account that is not
  -- active lead to one and the same refusal, and nothing is changed by the attempt.
  pub login_refused :
      may_log_in env settings password (account_of env email s.db) ≡ false
      → login_view env settings email password client s
        ≡ (err (raise_unauthorized Messages.login_failed), s)
  unfolding login_view session_scope ◌>>=◌
  login_refused h =
      rw authenticate_lem (
        rw (check_account_refused env settings password (account_of env email s.db) client s h)
          refl)
