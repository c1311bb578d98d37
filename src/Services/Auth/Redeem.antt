-- ===== src/Services/Auth/Redeem.antt =====
-- `consume_single_use_token`: exactly when it redeems a token, and that it does so once.
use gpca_v.Prelude.{
  ℕ, String, Bool, true, false, ◌&&◌, Option, none, some, List, ◌≡◌, refl, arith, ◌==◌, leb, ltb,
  is_none, is_some, if◌then◌else◌, Option-cases, inl, inr, ap, ◌∙◌, ==_refl,
}
use gpca_v.Env.{Env}
use gpca_v.Config.{Settings}
use gpca_v.Run.{World, ok, advanced, ◌>>=◌}
use gpca_v.Db.Enums.{AuthTokenPurpose, same_purpose}
use gpca_v.Db.Models.{User, AuthToken, Database}
use gpca_v.Db.Table.Laws.{find-update}
use gpca_v.Db.Users
use gpca_v.Db.Users.{by_id}
use gpca_v.Db.AuthTokens
use gpca_v.Db.AuthTokens.{consumed_now}
use gpca_v.Db.Integrity.{IsWellFormed}
use gpca_v.Db.Lookup.{auth_of, get_auth_lem}
use gpca_v.Services.Auth.SingleUse.{consume_single_use_token, check_row}
use gpca_v.Services.Auth.Finality.{IsConsumed, consumed_for_good}
use gpca_v.Services.Auth.Serve.{Service, serve, consume-IsWellFormed}

-- A token row can be redeemed at a time, for a purpose, by an account.
abbrev pub redeemable : ℕ → AuthTokenPurpose → AuthToken → User → Bool
redeemable now purpose row user =
    same_purpose row.purpose purpose
    && is_none row.consumed_at
    && ltb now row.expires_at
    && is_none user.deleted_at

abbrev of_user : ℕ → AuthTokenPurpose → AuthToken → Option User → Option User
of_user now purpose row none = none
of_user now purpose row (some user) = if redeemable now purpose row user then some user else none

abbrev pub of_row : ℕ → AuthTokenPurpose → Option AuthToken → Database → Option User
of_row now purpose none db = none
of_row now purpose (some row) db = of_user now purpose row (by_id row.user_id db)

-- The account that a token redeems to: the account of the row with its digest, if the row can be
-- redeemed at that time.
abbrev pub redeems_to : Env → ℕ → AuthTokenPurpose → String → Database → Option User
redeems_to env now purpose token db = of_row now purpose (auth_of (env.sha256 token) db) db

-- the world in which a row has been redeemed
abbrev pub row_consumed : Env → AuthToken → World → World
row_consumed env row s = record (advanced 2 s) {
  db = AuthTokens.assign (consumed_now (env.clock (advanced 1 s).draws)) row.id s.db;
}

module _ (env : Env) (purpose : AuthTokenPurpose) (s : World) where
  check_row_result :
      (row : Option AuthToken)
      → (check_row env purpose row s).0 ≡ ok (of_row (env.clock s.draws) purpose row s.db)
  unfolding check_row Users.get ◌>>=◌
  check_row_result none = refl
  check_row_result (some row) = elim (Option-cases (by_id row.user_id s.db)) [
    | inl gone ↦ rw gone (ground arith)
    | inr (user, e) ↦ rw e (ground arith)
  ]

  checks_pass :
      (now : ℕ) (row : AuthToken) (user : User)
      → redeemable now purpose row user ≡ true
      → (same_purpose row.purpose purpose ≡ true)
        × (is_some row.consumed_at ≡ false)
        × (leb row.expires_at now ≡ false)
        × (is_some user.deleted_at ≡ false)
  checks_pass now row user h = ground arith

  check_row_world :
      (row : AuthToken) (user : User)
      → by_id row.user_id s.db ≡ some user
      → redeemable (env.clock s.draws) purpose row user ≡ true
      → check_row env purpose (some row) s ≡ (ok (some user), row_consumed env row s)
  unfolding check_row Users.get ◌>>=◌
  check_row_world row user e h =
      let (purposes, live, early, kept) = checks_pass (env.clock s.draws) row user h in
      rw (purposes, live, early, e, kept) refl

  -- a call that returns no account writes nothing
  check_row_refused :
      (row : Option AuthToken)
      → of_row (env.clock s.draws) purpose row s.db ≡ none
      → (check_row env purpose row s).1.db ≡ s.db
  unfolding check_row Users.get ◌>>=◌
  check_row_refused none = λ h. refl
  check_row_refused (some row) = elim (Option-cases (by_id row.user_id s.db)) [
    | inl gone ↦ rw gone (λ h. ground arith)
    | inr (user, e) ↦ rw e (λ h. ground arith)
  ]

module _ (env : Env) (purpose : AuthTokenPurpose) (token : String) (s : World)
    (w : IsWellFormed env.citext_lower s.db) where
  consume_lem :
      consume_single_use_token env token purpose s
      ≡ check_row env purpose (auth_of (env.sha256 token) s.db) s
  unfolding consume_single_use_token ◌>>=◌
  consume_lem = rw (get_auth_lem s w (env.sha256 token)) refl

  -- A call returns the account that the token redeems to when the clock is read, and never raises.
  pub consume-redeems_to :
      (consume_single_use_token env token purpose s).0
      ≡ ok (redeems_to env (env.clock s.draws) purpose token s.db)
  consume-redeems_to =
      ap (λ r. r.0) consume_lem ∙ check_row_result env purpose s (auth_of (env.sha256 token) s.db)

  -- A call that returns no account leaves the database as it was.
  pub consume_refused :
      redeems_to env (env.clock s.draws) purpose token s.db ≡ none
      → (consume_single_use_token env token purpose s).1.db ≡ s.db
  consume_refused h =
      ap (λ r. r.1.db) consume_lem
      ∙ check_row_refused env purpose s (auth_of (env.sha256 token) s.db) h

  pub consume_redeemed :
      (row : AuthToken) (user : User)
      → auth_of (env.sha256 token) s.db ≡ some row
      → by_id row.user_id s.db ≡ some user
      → redeemable (env.clock s.draws) purpose row user ≡ true
      → consume_single_use_token env token purpose s ≡ (ok (some user), row_consumed env row s)
  consume_redeemed row user known owner h =
      consume_lem ∙ (rw known (check_row_world env purpose s row user owner h))

  pub IsConsumed-after :
      (row : AuthToken)
      → auth_of (env.sha256 token) s.db ≡ some row
      → IsConsumed (env.sha256 token) (row_consumed env row s).db
  unfolding auth_of AuthTokens.assign
  IsConsumed-after row known = (
    consumed_now (env.clock (advanced 1 s).draws) row,
    find-update (λ (t : AuthToken). t.token_hash == env.sha256 token) (λ t. t.id == row.id)
          (consumed_now (env.clock (advanced 1 s).draws)) s.db.auth_tokens (λ t. refl)
        ∙ rw known (rw (==_refl row.id) refl),
    refl,
  )

  -- A token that has been redeemed is redeemed never again, for either purpose, after any sequence of
  -- service calls.
  pub redeemed_once :
      (row : AuthToken) (user : User)
      → auth_of (env.sha256 token) s.db ≡ some row
      → by_id row.user_id s.db ≡ some user
      → redeemable (env.clock s.draws) purpose row user ≡ true
      → (calls : List Service) (settings : Settings) (again : AuthTokenPurpose)
      → let s' = serve env settings calls (consume_single_use_token env token purpose s).1 in
        ((consume_single_use_token env token purpose s).0 ≡ ok (some user))
        × (consume_single_use_token env token again s' ≡ (ok none, s'))
  redeemed_once row user known owner h calls settings again = (
    ap (λ r. r.0) (consume_redeemed row user known owner h),
    consumed_for_good env settings calls (consume_single_use_token env token purpose s).1
        (consume-IsWellFormed env token purpose s w) token again
        (rw (consume_redeemed row user known owner h) (IsConsumed-after row known)),
  )
