-- ===== src/Routes/UserAgent.antt =====
-- A User-Agent header that the column `refresh_tokens.user_agent` cannot hold: nothing between the
-- header and the INSERT shortens it.
use gpca_v.Prelude.{
  ℕ, String, true, false, none, some, ◌≡◌, refl, Bool-cases, inl, inr, ap, ◌∙◌, if◌then◌else◌,
}
use gpca_v.Env.{Env}
use gpca_v.Config.{Settings}
use gpca_v.Errors.{data_error}
use gpca_v.Run.{World, Result, ok, err, reading, advanced, ◌>>=◌}
use gpca_v.Run.Scope.{session_scope, settle}
use gpca_v.Run.Laws.{err-injective}
use gpca_v.Db.Enums.{is_active}
use gpca_v.Db.Models.{User, Database}
use gpca_v.Db.RefreshTokens
use gpca_v.Db.RefreshTokens.{null_or, refresh_storable}
use gpca_v.Db.Insert.{insert_refresh_unfit}
use gpca_v.Db.Integrity.{IsWellFormed}
use gpca_v.Db.Lookup.{account_of}
use gpca_v.Security.Passwords.{verify_password, needs_rehash, hash_password}
use gpca_v.Security.Tokens.{issue_access_token, generate_refresh_token}
use gpca_v.Services.Auth.Mail.{get_hasher}
use gpca_v.Services.Auth.Sessions.{
  TokenPair, Client, or_none, check_account, check_password, issue_session,
}
use gpca_v.Services.Auth.Rotation.{InTime, issued_row}
use gpca_v.Routes.Auth.{login_view}
use gpca_v.Routes.Login.{authenticate_lem}

module _ (env : Env) (settings : Settings) (client : Client) {agent : String}
    (given : or_none client.user_agent ≡ some agent)
    (too_long : env.varchar_ok 400 agent ≡ false) where
  unstorable :
      (user : User) (family_id : ℕ) (s : World)
      → refresh_storable env (issued_row env settings user family_id client s) ≡ false
  unstorable user family_id s = rw given (rw too_long refl)

  issue_session_too_long :
      (user : User) (s : World)
      → InTime env settings s
      → (issue_session env settings user none client s).0 ≡ err data_error
  unfolding issue_session issue_access_token generate_refresh_token RefreshTokens.add ◌>>=◌
  issue_session_too_long user s (soon, kept) =
      rw (soon, kept) rw
        (insert_refresh_unfit env (advanced 6 s)
          (issued_row env settings user (env.uuid7 (reading 5 s)) client s)
          (unstorable user (env.uuid7 (reading 5 s)) s))
        refl

  -- the world in which the session is issued: the clock is read before, and a salt if the hash is old
  abbrev pub issuing : String → World → World
  issuing stored s =
      if needs_rehash env (get_hasher settings) stored then advanced 2 s else advanced 1 s

  check_password_too_long :
      (user : User) (stored password : String) (s : World)
      → verify_password env (get_hasher settings) stored password ≡ true
      → is_active user.status ≡ true
      → InTime env settings (issuing stored s)
      → (check_password env settings user (some stored) password client s).0 ≡ err data_error
  unfolding check_password hash_password ◌>>=◌
  check_password_too_long user stored password s right active in_time =
      elim (Bool-cases (needs_rehash env (get_hasher settings) stored)) [
        | inl old ↦ rw (right, active, old) (issue_session_too_long user _ (rw old at in_time))
        | inr new ↦ rw (right, active, new) (issue_session_too_long user _ (rw new at in_time))
      ]

  settle_error :
      (before : Database) (r : Result TokenPair × World)
      → r.0 ≡ err data_error
      → settle before r ≡ (err data_error, record r.1 { db = before })
  unfolding settle
  settle_error before (ok a, s) h = cc
  settle_error before (err e, s) h = ap (λ x. (err x, record s { db = before })) (err-injective h)

  -- A caller whose password is right and whose account is active is answered by an uncaught DataError,
  -- and the transaction is rolled back, when the User-Agent header does not fit the column and the
  -- expiries of the new tokens lie before the year 10000.
  pub login_fails_on_long_agent :
      (user : User) (stored email password : String) (s : World)
      → IsWellFormed env.citext_lower s.db
      → account_of env email s.db ≡ some user
      → user.password_hash ≡ some stored
      → verify_password env (get_hasher settings) stored password ≡ true
      → is_active user.status ≡ true
      → InTime env settings (issuing stored s)
      → ((login_view env settings email password client s).0 ≡ err data_error)
        × ((login_view env settings email password client s).1.db ≡ s.db)
  unfolding login_view session_scope ◌>>=◌
  login_fails_on_long_agent user stored email password s w known has_hash right active in_time =
      rw (authenticate_lem env settings email password client s w) (
        rw known (
          rw (settle_error s.db (check_account env settings (some user) password client s) failed)
            (refl, refl)))
    where
      failed : (check_account env settings (some user) password client s).0 ≡ err data_error
      failed =
          unfold check_account in
          ap (λ hash. (check_password env settings user hash password client s).0) has_hash
          ∙ check_password_too_long user stored password s right active in_time
