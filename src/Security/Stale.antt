-- ===== src/Security/Stale.antt =====
-- An access token issued before a logout everywhere.
use mathlib.Core.Option
use gpca_v.Prelude.{
  ℕ, String, false, Option, some, ◌≡◌, refl, arith, ◌==◌, suc, is_some, ==_refl, ◌⊎◌, inl, inr, ap,
  ◌∙◌, Bool-cases,
}
use gpca_v.Env.{Env}
use gpca_v.Config.{Settings}
use gpca_v.Errors.{raise_unauthorized}
use gpca_v.Run.{World, Result, ok, err}
use gpca_v.Run.Scope.{flush_refused}
use gpca_v.Db.Enums.{is_active}
use gpca_v.Db.Models.{User}
use gpca_v.Db.Table.Laws.{touch}
use gpca_v.Db.Users.{by_id}
use gpca_v.Db.Integrity.{by_id-id}
use gpca_v.Security.Tokens.{AccessClaims}
use gpca_v.Security.Guards.{read_claims, load_current_user}
use gpca_v.Security.Admission.{verdict_on, guard_verdict}
use gpca_v.Services.Auth.Sessions.{bumped, revoke_all_sessions}
use gpca_v.Services.Auth.Everywhere.{sessions_ended_users, revoke_all_sessions_lem}

suc_differs : (n : ℕ) → (suc n == n) ≡ false
suc_differs n = ground arith

-- the two refusals of a token whose account has moved on
abbrev pub IsRefused : Result User → Type 0
IsRefused r =
    (r ≡ err (raise_unauthorized "Access token is not valid."))
    ⊎ (r ≡ err (raise_unauthorized "Access token is no longer valid."))

outdated :
    (env : Env) (user row : User)
    → IsRefused (verdict_on user.token_version (some (bumped env user row)))
outdated env user row = elim (Bool-cases (is_some row.deleted_at)) [
  | inl gone ↦ inl (rw gone refl)
  | inr kept ↦ elim (Bool-cases (is_active row.status)) [
    | inl active ↦ inr (rw (kept, active, suc_differs user.token_version) refl)
    | inr inactive ↦ inl (rw (kept, inactive) refl)
  ]
]

module _ (env : Env) (settings : Settings) (authorization : Option String) (user row : User)
    (claims : AccessClaims) (s s₁ : World) (stored : by_id user.id s.db ≡ some row)
    (in_range : flush_refused s₁.db ≡ false)
    (same_db : s₁.db ≡ (revoke_all_sessions env user s).1.db)
    (read : read_claims env settings authorization (revoke_all_sessions env user s).1
      ≡ (ok claims, s₁))
    (of_user : claims.user_id ≡ user.id) (version : claims.token_version ≡ user.token_version) where
  row_now : by_id claims.user_id s₁.db ≡ some (bumped env user row)
  row_now =
      ap (λ n. by_id n s₁.db) of_user
      ∙ ap (λ db. by_id user.id db) same_db
      ∙ ap (λ r. by_id user.id r.1.db) (revoke_all_sessions_lem env user s)
      ∙ sessions_ended_users env user s user.id
      ∙ ap (Option.map (touch (λ u. u.id == user.id) (bumped env user))) stored
      ∙ rw (by_id-id user.id s.db stored) (rw (==_refl user.id) refl)

  -- After a logout everywhere the guard refuses an access token that carries the version which the
  -- account had then.
  pub logout_ends_access :
      IsRefused (load_current_user env settings authorization (revoke_all_sessions env user s).1).0
  logout_ends_access =
      rw
        (guard_verdict env settings authorization (revoke_all_sessions env user s).1 s₁ claims
          in_range read)
        (rw (row_now, version) (outdated env user row))
