-- ===== src/Routes/Auth.antt =====
-- api/app/routes/auth.py. The body of a request has been validated before the view runs.
use gpca_v.Prelude.{String, not, ◌&&◌, Option, none, some, ◌==◌, if◌then◌else◌}
use gpca_v.Env.{Env}
use gpca_v.Config.{Settings}
use gpca_v.Errors.{
  Exn, http, token_expired, token_invalid, authentication_failed, refresh_rejected, integrity_error,
  data_error, multiple_results, runtime_error, overflow_error, raise_unauthorized,
}
use gpca_v.Messages
use gpca_v.Run.{World, Result, ok, err, Exec, pure, raise, gets, modify, raise_if, ◌>>=◌, ◌>>◌}
use gpca_v.Run.Scope.{session_scope}
use gpca_v.Db.Models.{User, user_clash}
use gpca_v.Db.Table.{any}
use gpca_v.Db.Users
use gpca_v.Responses.{
  Response, respond, ok_response, no_content, accepted_response, message_response,
  token_pair_response,
}
use gpca_v.Security.Guards.{require_auth, catch}
use gpca_v.Services.Auth.Mail.{flush_pending_emails}
use gpca_v.Services.Auth.Sessions.{
  TokenPair, Client, authenticate, rotate_refresh_token, revoke_refresh_token, revoke_all_sessions,
}
use gpca_v.Services.Auth.Accounts
use gpca_v.Services.Auth.Accounts.{Registration}
use gpca_v.Services.Auth.Recovery

abbrev pub login_error : Exn → Exn
login_error authentication_failed = raise_unauthorized Messages.login_failed
login_error (http e) = http e
login_error token_expired = token_expired
login_error token_invalid = token_invalid
login_error refresh_rejected = refresh_rejected
login_error integrity_error = integrity_error
login_error data_error = data_error
login_error multiple_results = multiple_results
login_error runtime_error = runtime_error
login_error overflow_error = overflow_error

abbrev pub token_pair : TokenPair → Response
token_pair issued = ok_response (token_pair_response issued.0 "bearer" issued.2 issued.1)

-- `except errors.RefreshRejected: issued = None`
abbrev pub except_rejected : Result TokenPair × World → Result (Option TokenPair) × World
except_rejected (ok issued, s) = (ok (some issued), s)
except_rejected (err refresh_rejected, s) = (ok none, s)
except_rejected (err (http e), s) = (err (http e), s)
except_rejected (err token_expired, s) = (err token_expired, s)
except_rejected (err token_invalid, s) = (err token_invalid, s)
except_rejected (err authentication_failed, s) = (err authentication_failed, s)
except_rejected (err integrity_error, s) = (err integrity_error, s)
except_rejected (err data_error, s) = (err data_error, s)
except_rejected (err multiple_results, s) = (err multiple_results, s)
except_rejected (err runtime_error, s) = (err runtime_error, s)
except_rejected (err overflow_error, s) = (err overflow_error, s)

abbrev pub refreshed : Option TokenPair → Exec Response
refreshed none = raise (raise_unauthorized Messages.refresh_failed)
refreshed (some issued) = pure (token_pair issued)

module _ (env : Env) where
  -- `session.merge(user)`: the attributes of the detached object are copied over its row, or
  -- staged as a new row where the key is gone.
  unfoldable pub merge_row : User → Option User → Exec (Unit {0})
  merge_row user none = Users.insert env user
  merge_row user (some row) = do
    clash ←
        gets
          (λ s. any (λ v. not (v.id == user.id) && user_clash env.citext_lower user v) s.db.users)
    raise_if clash integrity_error
    modify (Users.assign (λ _. user) user.id)

  unfoldable pub merge : User → Exec (Unit {0})
  unfolding merge_row
  merge user = do row ← Users.get user.id; merge_row user row

module _ (env : Env) (settings : Settings) where
  unfoldable pub register_view : Registration → Exec Response
  register_view form = do
    session_scope (Accounts.register env settings form)
    flush_pending_emails
    pure (respond (accepted_response Messages.accepted) 202)

  unfoldable pub verify_email_view : String → Exec Response
  verify_email_view token = do
    redeemed ← session_scope (Accounts.verify_email env token)
    if redeemed
        then pure (ok_response (message_response Messages.verified))
        else pure (respond (message_response Messages.verify_failed) 400)

  -- the view of an account that the guard has resolved
  unfoldable pub resend_body : User → Exec Response
  resend_body user = do
    session_scope (merge env user >> Accounts.resend_verification env user)
    flush_pending_emails
    pure (respond (accepted_response Messages.accepted) 202)

  unfoldable pub resend_verification_view : Option String → Exec Response
  unfolding resend_body
  resend_verification_view authorization = require_auth env settings authorization resend_body

  unfoldable pub login_view : String → String → Client → Exec Response
  login_view email password client = do
    issued ←
        λ s. catch login_error (session_scope (authenticate env settings email password client) s)
    pure (token_pair issued)

  -- The rejection is caught inside the transaction, which therefore commits.
  unfoldable pub refresh_view : String → Client → Exec Response
  refresh_view token client = do
    issued ← session_scope (λ s. except_rejected (rotate_refresh_token env settings token client s))
    refreshed issued

  unfoldable pub logout_view : String → Exec Response
  logout_view token = do session_scope (revoke_refresh_token env token); pure no_content

  unfoldable pub logout_all_body : User → Exec Response
  logout_all_body user = do
    session_scope (merge env user >> revoke_all_sessions env user)
    pure no_content

  unfoldable pub logout_all_view : Option String → Exec Response
  unfolding logout_all_body
  logout_all_view authorization = require_auth env settings authorization logout_all_body

  unfoldable pub forgot_password_view : String → Exec Response
  forgot_password_view email = do
    session_scope (Recovery.request_password_reset env email)
    flush_pending_emails
    pure (respond (accepted_response Messages.reset_requested) 202)

  unfoldable pub reset_password_view : String → String → Exec Response
  reset_password_view token new_password = do
    redeemed ← session_scope (Recovery.reset_password env settings token new_password)
    flush_pending_emails
    if redeemed
        then pure (ok_response (message_response Messages.reset_done))
        else pure (respond (message_response Messages.reset_failed) 400)
