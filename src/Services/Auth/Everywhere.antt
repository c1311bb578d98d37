-- ===== src/Services/Auth/Everywhere.antt =====
-- Logout everywhere and password reset: every session of the account ends.
use mathlib.Core.Option
use gpca_v.Prelude.{
  ℕ, String, true, false, none, some, [], ◌∷◌, ◌++◌, ◌≡◌, refl, arith, ◌==◌, suc, if◌then◌else◌,
  ◌∙◌, ap, ==_refl,
}
use gpca_v.Env.{Env}
use gpca_v.Config.{Settings}
use gpca_v.Run.{World, Email, ok, reading, advanced, ◌>>=◌}
use gpca_v.Db.Enums.{password_reset}
use gpca_v.Db.Models.{User, AuthToken}
use gpca_v.Db.Table.{any}
use gpca_v.Db.Table.Laws.{any-update_unset, touch}
use gpca_v.Db.Users
use gpca_v.Db.Users.{by_id}
use gpca_v.Db.RefreshTokens
use gpca_v.Db.RefreshTokens.{held_by, revoked_now, revoke_where}
use gpca_v.Db.AuthTokens
use gpca_v.Db.Integrity.{IsWellFormed, by_id-assign, by_id-id}
use gpca_v.Db.Lookup.{auth_of}
use gpca_v.Security.Passwords.{hash_password}
use gpca_v.Services.Auth.Mail.{get_hasher}
use gpca_v.Services.Auth.Sessions.{bumped, revoke_all_sessions}
use gpca_v.Services.Auth.Recovery.{reset_password}
use gpca_v.Services.Auth.Redeem.{redeemable, row_consumed, consume_redeemed}

-- the world in which every session of an account has ended
abbrev pub sessions_ended : Env → User → World → World
sessions_ended env user s = record (advanced 1 s) {
  db =
      Users.assign (bumped env user) user.id
        (revoke_where (held_by user.id) (env.clock (reading 0 s)) s.db);
}

pub revoke_all_sessions_lem :
    (env : Env) (user : User) (s : World)
    → revoke_all_sessions env user s ≡ (ok tt, sessions_ended env user s)
unfolding revoke_all_sessions RefreshTokens.revoke_all_for_user ◌>>=◌
revoke_all_sessions_lem env user s = refl

-- Afterwards the account holds no live refresh token.
pub sessions_ended_dead :
    (env : Env) (user : User) (s : World)
    → any (held_by user.id) (sessions_ended env user s).db.refresh_tokens ≡ false
unfolding Users.assign revoke_where
sessions_ended_dead env user s =
    any-update_unset (held_by user.id) (held_by user.id) (revoked_now (env.clock s.draws))
      s.db.refresh_tokens (λ t h. h) (λ t. ground arith)

-- Its row has the next version, and the other rows are unchanged.
pub sessions_ended_users :
    (env : Env) (user : User) (s : World) (n : ℕ)
    → by_id n (sessions_ended env user s).db
      ≡ Option.map (touch (λ u. u.id == user.id) (bumped env user)) (by_id n s.db)
unfolding revoke_where by_id
sessions_ended_users env user s n =
    by_id-assign (bumped env user) n user.id
      (revoke_where (held_by user.id) (env.clock s.draws) s.db) (λ u. refl)

-- Logout everywhere succeeds: the account holds no live refresh token, its row carries the successor
-- of the version that the caller's copy has, every other account is unchanged, and no single-use
-- token and no email is touched.
pub logout_everywhere :
    (env : Env) (user : User) (s : World)
    → let (r, s') = revoke_all_sessions env user s in
      (r ≡ ok tt)
      × (any (held_by user.id) s'.db.refresh_tokens ≡ false)
      × ((n : ℕ)
          → by_id n s'.db
            ≡ Option.map
                (λ u.
                  if u.id == user.id
                  then record u { token_version = suc user.token_version }
                  else u)
                (by_id n s.db))
      × (s'.db.auth_tokens ≡ s.db.auth_tokens)
      × (s'.pending ≡ s.pending)
unfolding revoke_all_sessions RefreshTokens.revoke_all_for_user ◌>>=◌ Users.assign revoke_where
logout_everywhere env user s =
    (refl, sessions_ended_dead env user s, sessions_ended_users env user s, refl, refl)

-- the world after the redemption, in which the new hash has been written
abbrev pub password_set : Env → Settings → String → User → World → World
password_set env settings new_password user s = record (advanced 1 s) {
  db =
      Users.assign
        (λ u. record u {
          password_hash = some (env.argon2_hash (get_hasher settings) (reading 0 s) new_password);
        })
        user.id s.db;
}

abbrev pub changed_notice : User → Email
changed_notice user = record {
  to = user.email;
  template = "password_changed";
  first_name = user.first_name;
  token = none;
}

-- the world in which a password has been reset
abbrev pub password_was_reset : Env → Settings → String → AuthToken → User → World → World
password_was_reset env settings new_password row user s =
    let s' =
      sessions_ended env user
        (password_set env settings new_password user (row_consumed env row s)) in
    record s' { pending = s'.pending ++ changed_notice user ∷ [] }

module _ (env : Env) (settings : Settings) (token new_password : String) (row : AuthToken)
    (user : User) (s : World) (w : IsWellFormed env.citext_lower s.db)
    (known : auth_of (env.sha256 token) s.db ≡ some row)
    (owner : by_id row.user_id s.db ≡ some user)
    (good : redeemable (env.clock s.draws) password_reset row user ≡ true) where
  reset_password_lem :
      reset_password env settings token new_password s
      ≡ (ok true, password_was_reset env settings new_password row user s)
  unfolding reset_password hash_password revoke_all_sessions RefreshTokens.revoke_all_for_user ◌>>=◌
  reset_password_lem =
      rw (consume_redeemed env password_reset token s w row user known owner good) refl

  -- the account under its own key, before and after each step
  own_row : by_id user.id s.db ≡ some user
  own_row = ap (λ n. by_id n s.db) (by_id-id row.user_id s.db owner) ∙ owner

  reset_row :
      by_id user.id (password_was_reset env settings new_password row user s).db
      ≡ some (record user {
        password_hash = some (env.argon2_hash (get_hasher settings) (reading 2 s) new_password);
        token_version = suc user.token_version;
      })
  reset_row =
      sessions_ended_users env user
        (password_set env settings new_password user (row_consumed env row s)) user.id
      ∙ rw
          (by_id-assign
            (λ (u : User). record u {
              password_hash =
                  some (env.argon2_hash (get_hasher settings) (reading 2 s) new_password);
            })
            user.id user.id (row_consumed env row s).db (λ u. refl))
          (rw (unchanged own_row) (rw (==_refl user.id) (rw (==_refl user.id) refl)))
    where
      unchanged :
          by_id user.id s.db ≡ some user → by_id user.id (row_consumed env row s).db ≡ some user
      unchanged h = unfold by_id AuthTokens.assign in h

  -- A reset with a token that can be redeemed succeeds: the row of the account has the hash of the new
  -- password and the next token version and is otherwise the same, the account holds no live refresh
  -- token, and the notice to its address is the last email in the queue.
  pub reset_ends_sessions :
      let (r, s') = reset_password env settings token new_password s in
      (r ≡ ok true)
      × (by_id user.id s'.db
          ≡ some (record user {
            password_hash = some (env.argon2_hash (get_hasher settings) (reading 2 s) new_password);
            token_version = suc user.token_version;
          }))
      × (any (held_by user.id) s'.db.refresh_tokens ≡ false)
      × (s'.pending ≡ s.pending ++ changed_notice user ∷ [])
  reset_ends_sessions = rw reset_password_lem (
    refl,
    reset_row,
    sessions_ended_dead env user
        (password_set env settings new_password user (row_consumed env row s)),
    refl,
  )
