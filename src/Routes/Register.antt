-- ===== src/Routes/Register.antt =====
-- Registering an address that no account has.
use gpca_v.Prelude.{
  true, false, none, some, [], ◌∷◌, ◌++◌, ◌≡◌, refl, is_none, ==_refl, sym, ap, ◌∙◌,
}
use gpca_v.Env.{Env}
use gpca_v.Config.{Settings}
use gpca_v.Messages
use gpca_v.Run.{World, Email, ok, advanced, reading, ◌>>=◌}
use gpca_v.Run.Scope.{session_scope, settle, flush_refused}
use gpca_v.Db.Enums.{email_verify}
use gpca_v.Db.Models.{User, user_clash, is_live_for}
use gpca_v.Db.Table.{any, select, find}
use gpca_v.Db.Users
use gpca_v.Db.Users.{by_id, user_storable}
use gpca_v.Db.AuthTokens.{consume_where}
use gpca_v.Db.Insert.{with_user, with_auth, insert_user_ok}
use gpca_v.Db.Integrity.{IsWellFormed}
use gpca_v.Db.Lookup.{account_of, get_by_email_lem}
use gpca_v.Security.Passwords.{hash_password}
use gpca_v.Services.Auth.Mail.{get_hasher, email_verify_ttl}
use gpca_v.Services.Auth.SingleUse.{issue_single_use_token}
use gpca_v.Services.Auth.Issue.{issue_supersedes, single_use_row, superseded}
use gpca_v.Services.Auth.Accounts
use gpca_v.Services.Auth.Accounts.{
  Registration, new_user, register_found, register_new, send_verification,
}
use gpca_v.Responses.{respond, accepted_response}
use gpca_v.Routes.Auth.{register_view}
use gpca_v.Routes.Uniform.{mailed, IsFresh, flush_sends_all}

module _ (env : Env) (settings : Settings) (form : Registration) (s : World) where
  -- the row of the new account
  abbrev pub registered : User
  registered =
      new_user form (env.argon2_hash (get_hasher settings) (reading 0 s) form.password)
        (env.uuid7 (reading 1 s))

  -- the world after its INSERT
  abbrev pub inserted : World
  inserted = with_user registered (advanced 2 s)

  abbrev pub verify_link : Email
  verify_link = record {
    to = form.email;
    template = "verify_email";
    first_name = form.first_name;
    token = some (env.token_urlsafe (reading 1 inserted));
  }

  -- the world at the commit
  abbrev pub committed : World
  committed =
      let s' =
        with_auth (single_use_row env registered.id email_verify email_verify_ttl inserted)
          (superseded env registered.id email_verify email_verify_ttl inserted) in
      record s' { pending = s'.pending ++ verify_link ∷ [] }

  module _ (w : IsWellFormed env.citext_lower s.db) (in_range : flush_refused s.db ≡ false)
      (unknown : account_of env form.email s.db ≡ none) (fits : user_storable env registered ≡ true)
      (new : any (user_clash env.citext_lower registered) s.db.users ≡ false)
      (fresh : IsFresh env inserted) where
    stored : is_none (by_id registered.id inserted.db) ≡ false
    unfolding by_id find
    stored = rw (==_refl registered.id) refl

    issued : issue_single_use_token env registered.id email_verify email_verify_ttl inserted ≡ (
      ok (env.token_urlsafe (reading 1 inserted)),
      with_auth
          (single_use_row env registered.id email_verify email_verify_ttl inserted)
          (superseded env registered.id email_verify email_verify_ttl inserted),
    )
    issued =
        let (returns, world, only) =
          issue_supersedes env registered.id email_verify email_verify_ttl inserted stored fresh.id
            fresh.digest in
        λ i. (returns i, world i)

    one_live :
        select (is_live_for registered.id email_verify) committed.db.auth_tokens
        ≡ single_use_row env registered.id email_verify email_verify_ttl inserted ∷ []
    one_live =
        let (returns, world, only) =
          issue_supersedes env registered.id email_verify email_verify_ttl inserted stored fresh.id
            fresh.digest in
        ap (λ s'. select (is_live_for registered.id email_verify) s'.db.auth_tokens) (sym world)
        ∙ only

    register_lem :
        register_view env settings form s
        ≡ (ok (respond (accepted_response Messages.accepted) 202), mailed committed)
    unfolding register_view session_scope settle Accounts.register register_found register_new
        send_verification Users.add hash_password flush_refused any consume_where ◌>>=◌
    register_lem =
        rw (get_by_email_lem env s w form.email, unknown)
          (rw (insert_user_ok env (advanced 2 s) registered fits new)
            (rw issued (rw (in_range, flush_sends_all) refl)))

    -- Registering an address that no account has answers 202 with the text that a known address gets,
    -- stores the account unverified under its key, and sends the link of a live verification token; the
    -- names are supposed to fit, and the key, the address and the token drawn to be new.
    pub register_creates :
        let (r, s') = register_view env settings form s in
        (r ≡ ok (respond (accepted_response Messages.accepted) 202))
        × (by_id registered.id s'.db ≡ some registered)
        × (select (is_live_for registered.id email_verify) s'.db.auth_tokens
            ≡ single_use_row env registered.id email_verify email_verify_ttl inserted ∷ [])
        × (s'.sent ≡ s.sent ++ (s.pending ++ verify_link ∷ []))
    unfolding by_id find consume_where
    register_creates = rw register_lem (refl, rw (==_refl registered.id) refl, one_live, refl)
