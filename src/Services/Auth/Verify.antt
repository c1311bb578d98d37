-- ===== src/Services/Auth/Verify.antt =====
-- `verify_email`: what a verification link does, and that it does so once.
use gpca_v.Prelude.{
  ℕ, String, true, false, none, some, List, ◌≡◌, refl, is_none, if◌then◌else◌, Bool-cases, inl, inr,
  ap, ◌∙◌, ==_refl,
}
use gpca_v.Env.{Env}
use gpca_v.Config.{Settings}
use gpca_v.Run.{World, ok, ◌>>=◌}
use gpca_v.Db.Enums.{email_verify}
use gpca_v.Db.Models.{User, AuthToken}
use gpca_v.Db.Users
use gpca_v.Db.Users.{by_id}
use gpca_v.Db.AuthTokens
use gpca_v.Db.Integrity.{IsWellFormed, IsWellFormed-IsStable, by_id-assign, by_id-id}
use gpca_v.Db.Lookup.{auth_of}
use gpca_v.Services.Auth.SingleUse.{consume_single_use_token}
use gpca_v.Services.Auth.Accounts.{mark_verified, verify_email}
use gpca_v.Services.Auth.Obey.Accounts.{verify_email-Obeys}
use gpca_v.Services.Auth.Preserve.{keeping}
use gpca_v.Services.Auth.Serve.{Service, serve}
use gpca_v.Services.Auth.Finality.{IsConsumed, IsConsumed-IsStable, consumed_for_good}
use gpca_v.Services.Auth.Redeem.{redeemable, row_consumed, consume_redeemed, IsConsumed-after}

-- the account with its address verified, at this time if it was not before
abbrev pub verified_at : ℕ → User → User
verified_at now user =
    if is_none user.email_verified_at then record user { email_verified_at = some now } else user

module _ (env : Env) (settings : Settings) (token : String) (row : AuthToken) (user : User)
    (s : World) (w : IsWellFormed env.citext_lower s.db)
    (known : auth_of (env.sha256 token) s.db ≡ some row)
    (owner : by_id row.user_id s.db ≡ some user)
    (good : redeemable (env.clock s.draws) email_verify row user ≡ true) where
  -- the world in which the token has been consumed and the account has not been written
  abbrev redeemed : World
  redeemed = row_consumed env row s

  verify_lem : verify_email env token s ≡ mark_verified env (some user) redeemed
  unfolding verify_email ◌>>=◌
  verify_lem = rw (consume_redeemed env email_verify token s w row user known owner good) refl

  own_row : by_id user.id redeemed.db ≡ some user
  own_row =
      unfold by_id AuthTokens.assign in
      (ap (λ n. by_id n s.db) (by_id-id row.user_id s.db owner) ∙ owner)

  marked :
      let (r, s') = mark_verified env (some user) redeemed in
      (r ≡ ok true)
      × (by_id user.id s'.db ≡ some (verified_at (env.clock redeemed.draws) user))
      × IsConsumed (env.sha256 token) s'.db
  unfolding mark_verified ◌>>=◌
  marked = elim (Bool-cases (is_none user.email_verified_at)) [
    | inl new ↦ rw new (refl, written, IsConsumed-assigned)
    | inr old ↦ rw old (refl, own_row, IsConsumed-after env email_verify token s w row known)
  ]
    where
      written :
          by_id user.id (
            Users.assign
              (λ u. record u { email_verified_at = some (env.clock redeemed.draws) })
              user.id
              redeemed.db)
          ≡ some (record user { email_verified_at = some (env.clock redeemed.draws) })
      written =
          by_id-assign _ user.id user.id redeemed.db (λ u. refl)
          ∙ rw own_row (rw (==_refl user.id) refl)

      IsConsumed-assigned : IsConsumed (env.sha256 token) (
          Users.assign
            (λ u. record u { email_verified_at = some (env.clock redeemed.draws) })
            user.id
            redeemed.db)
      IsConsumed-assigned =
          (IsConsumed-IsStable env (env.sha256 token)).assign_user redeemed.db _ user.id
            (λ u. (refl, refl, refl)) (IsConsumed-after env email_verify token s w row known)

  marked_by_link :
      let (r, s') = verify_email env token s in
      (r ≡ ok true)
      × (by_id user.id s'.db ≡ some (verified_at (env.clock redeemed.draws) user))
      × IsConsumed (env.sha256 token) s'.db
  marked_by_link = rw verify_lem marked

  unredeemed :
      (s' : World)
      → consume_single_use_token env token email_verify s' ≡ (ok none, s')
      → (verify_email env token s').0 ≡ ok false
  unfolding verify_email mark_verified ◌>>=◌
  unredeemed s' h = rw h refl

  -- A verification link that can be redeemed verifies the address of its account, whose row is then
  -- otherwise the same, and after any sequence of service calls the same link is refused.
  pub verify_once :
      (calls : List Service)
      → let (r, s') = verify_email env token s in
        (r ≡ ok true)
        × (by_id user.id s'.db ≡ some (verified_at (env.clock redeemed.draws) user))
        × ((verify_email env token (serve env settings calls s')).0 ≡ ok false)
  verify_once calls = (
    marked_by_link.0,
    marked_by_link.1,
    unredeemed (serve env settings calls (verify_email env token s).1) (
        consumed_for_good env settings calls (verify_email env token s).1
          ((verify_email-Obeys env settings {logic = keeping env (IsWellFormed-IsStable env)}
              token).by.at
            s w)
          token email_verify marked_by_link.2),
  )
