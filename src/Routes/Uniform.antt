-- ===== src/Routes/Uniform.antt =====
-- Registration and the request of a password reset answer alike whether or not the address has an
-- account.
use mathlib.Core.List.{append_assoc, append-nil}
use gpca_v.Prelude.{
  String, false, Option, none, some, List, [], ◌∷◌, ◌++◌, ◌≡◌, refl, ◌==◌, ap, ◌∙◌,
}
use gpca_v.Env.{Env}
use gpca_v.Config.{Settings}
use gpca_v.Messages
use gpca_v.Run.{World, Email, ok, advanced, reading, ◌>>=◌}
use gpca_v.Run.Scope.{session_scope, settle, flush_refused}
use gpca_v.Db.Models.{User}
use gpca_v.Db.Table.{any}
use gpca_v.Db.Integrity.{IsWellFormed}
use gpca_v.Db.Lookup.{account_of, account_of-stored, get_by_email_lem}
use gpca_v.Db.Insert.{with_auth}
use gpca_v.Db.AuthTokens.{consume_where}
use gpca_v.Db.Enums.{password_reset}
use gpca_v.Services.Auth.Mail.{password_reset_ttl}
use gpca_v.Services.Auth.SingleUse.{issue_single_use_token}
use gpca_v.Services.Auth.Issue.{issue_supersedes, single_use_row, superseded}
use gpca_v.Security.Passwords.{dummy_verify}
use gpca_v.Services.Auth.Mail.{flush_pending_emails, send_each}
use gpca_v.Services.Auth.Accounts
use gpca_v.Services.Auth.Accounts.{Registration, register_found, register_existing}
use gpca_v.Services.Auth.Recovery
use gpca_v.Responses.{respond, accepted_response}
use gpca_v.Routes.Auth.{register_view, forgot_password_view}

-- the world after the queue has been sent
abbrev pub mailed : World → World
mailed s = record s { pending = []; sent = s.sent ++ s.pending }

send_each_lem :
    (queue : List Email) (s : World)
    → send_each queue s ≡ (ok tt, record s { sent = s.sent ++ queue })
unfolding send_each
send_each_lem [] s = rw (append-nil s.sent) refl
send_each_lem (message ∷ rest) s =
    send_each_lem rest (record s { sent = s.sent ++ message ∷ [] })
    ∙ ap (λ l. (ok tt, record s { sent = l })) (append_assoc s.sent (message ∷ []) rest)

-- Every queued message is sent, in order, and the queue is empty afterwards.
pub flush_sends_all : (s : World) → flush_pending_emails s ≡ (ok tt, mailed s)
unfolding flush_pending_emails ◌>>=◌
flush_sends_all s = send_each_lem s.pending (record s { pending = [] })

-- the message to the owner of an address that is registered already
abbrev pub already_registered : Registration → User → Email
already_registered form existing = record {
  to = form.email;
  template = "register_existing_account";
  first_name = existing.first_name;
  token = none;
}

module _ (env : Env) (settings : Settings) (form : Registration) (existing : User) (s : World)
    (w : IsWellFormed env.citext_lower s.db) (in_range : flush_refused s.db ≡ false)
    (taken : account_of env form.email s.db ≡ some existing) where
  -- Registering an address that has an account answers 202 with the usual text, changes no table, and
  -- sends the owner the message about it.
  pub register_existing_lem : register_view env settings form s ≡ (
    ok (respond (accepted_response Messages.accepted) 202),
    mailed (record s { pending = s.pending ++ already_registered form existing ∷ [] }),
  )
  unfolding register_view session_scope settle Accounts.register register_found register_existing
      dummy_verify ◌>>=◌
  register_existing_lem =
      rw (get_by_email_lem env s w form.email, taken, in_range, flush_sends_all) refl

-- the next token digest and the next key are not those of a stored single-use token
pub record IsFresh (env : Env) (s : World) : Type 0 where
  pub id : any (λ t. env.uuid7 (reading 3 s) == t.id) s.db.auth_tokens ≡ false
  pub digest :
      any (λ t. env.sha256 (env.token_urlsafe (reading 1 s)) == t.token_hash) s.db.auth_tokens
      ≡ false

abbrev pub reset_link : Env → World → User → Email
reset_link env s user = record {
  to = user.email;
  template = "password_reset";
  first_name = user.first_name;
  token = some (env.token_urlsafe (reading 1 s));
}

-- the emails that a request for a reset sends
abbrev pub reset_mail : Env → World → Option User → List Email
reset_mail env s none = []
reset_mail env s (some user) = reset_link env s user ∷ []

module _ (env : Env) (settings : Settings) (email : String) (s : World)
    (w : IsWellFormed env.citext_lower s.db) (in_range : flush_refused s.db ≡ false)
    (fresh : IsFresh env s) where
  -- what a request for a reset does to the world
  abbrev pub reset_requested_world : Option User → World
  reset_requested_world none = mailed (record (advanced 1 s) {})
  reset_requested_world (some user) =
      let s' =
        with_auth (single_use_row env user.id password_reset password_reset_ttl s)
          (superseded env user.id password_reset password_reset_ttl s) in
      mailed (record s' { pending = s'.pending ++ reset_link env s user ∷ [] })

  forgot_unknown :
      account_of env email s.db ≡ none
      → forgot_password_view env settings email s ≡ (
        ok (respond (accepted_response Messages.reset_requested) 202),
        reset_requested_world none,
      )
  unfolding forgot_password_view session_scope settle Recovery.request_password_reset
      Recovery.send_reset ◌>>=◌
  forgot_unknown unknown =
      rw (get_by_email_lem env s w email, unknown, in_range, flush_sends_all) refl

  forgot_known :
      (user : User)
      → account_of env email s.db ≡ some user
      → forgot_password_view env settings email s ≡ (
        ok (respond (accepted_response Messages.reset_requested) 202),
        reset_requested_world (some user),
      )
  unfolding forgot_password_view session_scope settle Recovery.request_password_reset
      Recovery.send_reset flush_refused consume_where ◌>>=◌
  forgot_known user known =
      rw (get_by_email_lem env s w email, known, issued, in_range, flush_sends_all) refl
    where
      issued : issue_single_use_token env user.id password_reset password_reset_ttl s ≡ (
        ok (env.token_urlsafe (reading 1 s)),
        with_auth
            (single_use_row env user.id password_reset password_reset_ttl s)
            (superseded env user.id password_reset password_reset_ttl s),
      )
      issued =
          let (returns, world, only) =
            issue_supersedes env user.id password_reset password_reset_ttl s
              (account_of-stored env email s.db known) fresh.id fresh.digest in
          λ i. (returns i, world i)

  forgot_cases :
      (o : Option User)
      → account_of env email s.db ≡ o
      → forgot_password_view env settings email s
        ≡ (ok (respond (accepted_response Messages.reset_requested) 202), reset_requested_world o)
  forgot_cases none unknown = forgot_unknown unknown
  forgot_cases (some user) known = forgot_known user known

  -- the tables that a request for a reset leaves alone
  pub reset_mail_lem :
      (o : Option User)
      → let s' = reset_requested_world o in
        (s'.db.users ≡ s.db.users)
        × (s'.db.refresh_tokens ≡ s.db.refresh_tokens)
        × (s'.sent ≡ s.sent ++ (s.pending ++ reset_mail env s o))
  unfolding consume_where
  reset_mail_lem none = (refl, refl, rw (append-nil s.pending) refl)
  reset_mail_lem (some user) = (refl, refl, refl)

  -- Asking for a password reset answers 202 with the same text whether or not the address has an
  -- account, leaves the accounts and the refresh tokens alone, and sends a reset link to the account
  -- alone. The key and the digest of the next token are supposed to be new, and every stored token
  -- version to fit its column.
  pub forgot_uniform :
      let (r, s') = forgot_password_view env settings email s in
      (r ≡ ok (respond (accepted_response Messages.reset_requested) 202))
      × (s'.db.users ≡ s.db.users)
      × (s'.db.refresh_tokens ≡ s.db.refresh_tokens)
      × (s'.sent ≡ s.sent ++ (s.pending ++ reset_mail env s (account_of env email s.db)))
  forgot_uniform = rw (forgot_cases (account_of env email s.db) refl) (
      let (users, refresh, sent) = reset_mail_lem (account_of env email s.db) in
      (refl, users, refresh, sent))
