-- ===== src/Security/Opened.antt =====
-- `require_verified_email` once the address is verified.
use gpca_v.Prelude.{
  ℕ, String, true, false, Option, some, ◌≡◌, refl, arith, is_none, is_some, ==_refl, inl, inr, ap,
  ◌∙◌, [], Bool-cases, if◌then◌else◌,
}
use gpca_v.Env.{Env}
use gpca_v.Config.{Settings}
use gpca_v.Errors.{raise_forbidden}
use gpca_v.Run.{World, Exec, ok, err, ◌>>=◌}
use gpca_v.Run.Scope.{flush_refused}
use gpca_v.Db.Enums.{is_active, email_verify}
use gpca_v.Db.Models.{User, AuthToken}
use gpca_v.Db.Users.{by_id}
use gpca_v.Db.Integrity.{IsWellFormed}
use gpca_v.Db.Lookup.{auth_of}
use gpca_v.Security.Tokens.{AccessClaims}
use gpca_v.Security.Guards.{read_claims, load_current_user, require_verified_email}
use gpca_v.Security.Admission.{verdict_on, guard_verdict}
use gpca_v.Services.Auth.Accounts.{verify_email}
use gpca_v.Services.Auth.Redeem.{redeemable, row_consumed}
use gpca_v.Services.Auth.Verify.{verified_at, verify_once}

-- an account that the guard admits is admitted with its address verified
verified_verdict :
    (now : ℕ) (user : User)
    → is_some user.deleted_at ≡ false
    → is_active user.status ≡ true
    → verdict_on user.token_version (some (verified_at now user)) ≡ ok (verified_at now user)
verified_verdict now user kept active = elim (Bool-cases (is_none user.email_verified_at)) [
  | inl new ↦ rw new (rw (kept, active, ==_refl user.token_version) refl)
  | inr old ↦ rw old (rw (kept, active, ==_refl user.token_version) refl)
]

has_address : (now : ℕ) (user : User) → is_none (verified_at now user).email_verified_at ≡ false
has_address now user = elim (Bool-cases (is_none user.email_verified_at)) [
  | inl new ↦ rw new refl
  | inr old ↦ rw old old
]

module _ {ℓ} {A : Type ℓ} (env : Env) (settings : Settings) (authorization : Option String)
    (view : User → Exec A) where
  -- the guard, by what `load_current_user` gives
  verified_email_lem :
      (s s₁ : World) (user : User)
      → load_current_user env settings authorization s ≡ (ok user, s₁)
      → require_verified_email env settings authorization view s ≡ (
          if is_none user.email_verified_at
          then (err (raise_forbidden "Verify your email address to do this."), s₁)
          else view user s₁)
  unfolding require_verified_email ◌>>=◌
  verified_email_lem s s₁ user h = rw h (ground arith)

  module _ (claims : AccessClaims) (token : String) (row : AuthToken) (user : User) (s s₁ : World)
      (w : IsWellFormed env.citext_lower s.db) (known : auth_of (env.sha256 token) s.db ≡ some row)
      (owner : by_id row.user_id s.db ≡ some user)
      (good : redeemable (env.clock s.draws) email_verify row user ≡ true)
      (kept : is_some user.deleted_at ≡ false) (active : is_active user.status ≡ true)
      (in_range : flush_refused s₁.db ≡ false) (same_db : s₁.db ≡ (verify_email env token s).1.db)
      (read : read_claims env settings authorization (verify_email env token s).1 ≡ (ok claims, s₁))
      (of_user : claims.user_id ≡ user.id)
      (version : claims.token_version ≡ user.token_version) where
    row_now :
        by_id claims.user_id s₁.db
        ≡ some (verified_at (env.clock (row_consumed env row s).draws) user)
    row_now =
        ap (λ n. by_id n s₁.db) of_user
        ∙ ap (λ db. by_id user.id db) same_db
        ∙ (verify_once env settings token row user s w known owner good []).1

    -- Once the link of an active account has been redeemed, an access token with the account's version
    -- opens the views that ask for a verified address: they run with the account as it is stored then.
    pub verification_opens :
        require_verified_email env settings authorization view (verify_email env token s).1
        ≡ view (verified_at (env.clock (row_consumed env row s).draws) user) s₁
    verification_opens =
        verified_email_lem (verify_email env token s).1 s₁
          (verified_at (env.clock (row_consumed env row s).draws) user)
          (guard_verdict env settings authorization (verify_email env token s).1 s₁ claims in_range
              read
            ∙ rw (row_now, version)
                (rw (verified_verdict (env.clock (row_consumed env row s).draws) user kept active)
                  refl))
        ∙ rw (has_address (env.clock (row_consumed env row s).draws) user) refl
