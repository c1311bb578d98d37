-- ===== src/Tests/Endpoints.antt =====
-- The guard and the endpoints on the small database.
use gpca_v.Prelude.{true, false, not, ◌&&◌, some, none, [], ◌∷◌, ◌≡◌, refl, ◌==◌}
use gpca_v.Errors.{data_error, raise_unauthorized}
use gpca_v.Env.{text}
use gpca_v.Messages
use gpca_v.Run.{ok, err, advanced, ◌>>=◌}
use gpca_v.Run.Scope.{flush_refused}
use gpca_v.Db.Models.{is_live_for, User, user_clash}
use gpca_v.Db.Table.{select, any, find, update}
use gpca_v.Db.Users.{by_id}
use gpca_v.Db.Users
use gpca_v.Db.RefreshTokens.{in_family, held_by, revoke_where}
use gpca_v.Db.Lookup.{account_of}
use gpca_v.Security.Passwords.{needs_rehash, verify_password}
use gpca_v.Security.Tokens.{AccessClaims}
use gpca_v.Security.Guards.{
  read_claims, bearer_token, decode_access_token, read_decoded, claims_of, load_current_user,
}
use gpca_v.Security.Header.{lowers_to, before_space, strip, after_space}
use gpca_v.Security.Admission.{verdict_on, guard_verdict}
use gpca_v.Services.Auth.Sessions.{Client}
use gpca_v.Services.Auth.Accounts.{Registration}
use gpca_v.Services.Auth.Everywhere.{sessions_ended}
use gpca_v.Responses.{respond, accepted_response, no_content}
use gpca_v.Routes.Auth.{
  login_view, register_view, forgot_password_view, refresh_view, logout_all_body,
}
use gpca_v.Routes.Login.{may_log_in, login_refused}
use gpca_v.Routes.UserAgent.{login_fails_on_long_agent}
use gpca_v.Routes.Uniform.{
  mailed, already_registered, reset_mail, IsFresh, register_existing_lem, forgot_uniform,
}
use gpca_v.Routes.Refresh.{refresh_commits_revocation}
use gpca_v.Routes.Register.{registered, inserted, verify_link, register_creates}
use gpca_v.Db.Enums.{email_verify}
use gpca_v.Services.Auth.Mail.{email_verify_ttl}
use gpca_v.Services.Auth.Issue.{single_use_row}
use gpca_v.Routes.LogoutAll.{merged, logout_all_overwrites}
use gpca_v.Tests.Demo.{demo, settings, start, ada, spent_row, browser}
use gpca_v.Tests.Sessions.{start-IsWellFormed, spent_known}

start_in_range : flush_refused start.db ≡ false
unfolding flush_refused any
start_in_range = refl

ada_by_email : account_of demo "ada" start.db ≡ some ada
unfolding account_of find
ada_by_email = refl

wrong_password : may_log_in demo settings "bad" (account_of demo "ada" start.db) ≡ false
unfolding account_of find verify_password
wrong_password = refl

login_refused_example :
    login_view demo settings "ada" "bad" browser start
    ≡ (err (raise_unauthorized Messages.login_failed), start)
login_refused_example =
    login_refused demo settings "ada" "bad" browser start start-IsWellFormed wrong_password

abbrev wordy : Client
wordy = record { user_agent = some "a long user agent"; ip = none }

right_password :
    verify_password demo (record { memory_cost = 19456; time_cost = 2; parallelism = 1 }) "$pw" "pw"
    ≡ true
unfolding verify_password
right_password = refl

login_fails_on_long_agent_example :
    ((login_view demo settings "ada" "pw" wordy start).0 ≡ err data_error)
    × ((login_view demo settings "ada" "pw" wordy start).1.db ≡ start.db)
unfolding needs_rehash
login_fails_on_long_agent_example =
    login_fails_on_long_agent demo settings wordy refl refl ada "$pw" "ada" "pw" start
      start-IsWellFormed ada_by_email refl right_password refl (refl, refl)

abbrev form : Registration
form = record { email = "ada"; password = "pw"; first_name = "A"; last_name = "B" }

register_existing_lem_example : register_view demo settings form start ≡ (
  ok (respond (accepted_response Messages.accepted) 202),
  mailed (record start { pending = already_registered form ada ∷ [] }),
)
register_existing_lem_example =
    register_existing_lem demo settings form ada start start-IsWellFormed start_in_range
      ada_by_email

start-IsFresh : IsFresh demo start
unfolding any
start-IsFresh = record { id = refl; digest = refl }

forgot_uniform_example :
    let (r, s') = forgot_password_view demo settings "ada" start in
    (r ≡ ok (respond (accepted_response Messages.reset_requested) 202))
    × (s'.db.users ≡ start.db.users)
    × (s'.db.refresh_tokens ≡ start.db.refresh_tokens)
    × (s'.sent ≡ reset_mail demo start (account_of demo "ada" start.db))
forgot_uniform_example =
    forgot_uniform demo settings "ada" start start-IsWellFormed start_in_range start-IsFresh

refresh_commits_revocation_example :
    let (r, s') = refresh_view demo settings "q" browser start in
    (r ≡ err (raise_unauthorized Messages.refresh_failed))
    × (any (in_family 7) s'.db.refresh_tokens ≡ false)
refresh_commits_revocation_example =
    refresh_commits_revocation demo settings "q" browser start start-IsWellFormed start_in_range
      spent_row spent_known refl

-- the guard's copy, read before a password reset
abbrev stale : User
stale = record ada { password_hash = some "$old" }

stale_known : by_id 1 start.db ≡ some ada
unfolding by_id find
stale_known = refl

stale_alone :
    any (λ v. not (v.id == 1) && user_clash demo.citext_lower stale v) start.db.users ≡ false
unfolding any
stale_alone = refl

stale_in_range : flush_refused (sessions_ended demo stale (merged stale start)).db ≡ false
unfolding flush_refused any Users.assign update revoke_where
stale_in_range = refl

logout_all_overwrites_example :
    let (r, s') = logout_all_body demo settings stale start in
    (r ≡ ok no_content)
    × (any (held_by 1) s'.db.refresh_tokens ≡ false)
    × (by_id 1 s'.db ≡ some (record ada { password_hash = some "$old"; token_version = 1 }))
logout_all_overwrites_example =
    logout_all_overwrites demo settings stale ada start stale_known stale_alone stale_in_range

abbrev claims : AccessClaims
claims = record {
  user_id = 1;
  role = text "viewer";
  token_version = 0;
  jti = text "j";
  expires_at = 9000000000;
}

claims_read : read_claims demo settings (some "Bearer t") start ≡ (ok claims, advanced 1 start)
unfolding read_claims bearer_token decode_access_token read_decoded claims_of lowers_to before_space
    strip after_space ◌>>=◌
claims_read = refl

guard_verdict_example :
    load_current_user demo settings (some "Bearer t") start
    ≡ (verdict_on 0 (by_id 1 start.db), advanced 1 start)
guard_verdict_example =
    guard_verdict demo settings (some "Bearer t") start (advanced 1 start) claims start_in_range
      claims_read

-- a registration that the names' columns hold, of an address without an account
abbrev bob : Registration
bob = record { email = "bob"; password = "pw"; first_name = "B"; last_name = "C" }

bob_unknown : account_of demo "bob" start.db ≡ none
unfolding account_of find
bob_unknown = refl

bob_new :
    any (user_clash demo.citext_lower (registered demo settings bob start)) start.db.users ≡ false
unfolding any
bob_new = refl

bob-IsFresh : IsFresh demo (inserted demo settings bob start)
unfolding any
bob-IsFresh = record { id = refl; digest = refl }

register_creates_example :
    let (r, s') = register_view demo settings bob start in
    (r ≡ ok (respond (accepted_response Messages.accepted) 202))
    × (by_id 111 s'.db ≡ some (registered demo settings bob start))
    × (select (is_live_for 111 email_verify) s'.db.auth_tokens
        ≡ single_use_row demo 111 email_verify email_verify_ttl (inserted demo settings bob start)
          ∷ [])
    × (s'.sent ≡ verify_link demo settings bob start ∷ [])
register_creates_example =
    register_creates demo settings bob start start-IsWellFormed start_in_range bob_unknown refl
      bob_new bob-IsFresh
