-- ===== src/Security/Admission.antt =====
-- Whom the guard of api/app/security/decorators.py lets in.
use gpca_v.Prelude.{
  ℕ, String, false, not, Option, none, some, ◌≡◌, refl, arith, ◌==◌, is_some, if◌then◌else◌,
}
use gpca_v.Env.{Env}
use gpca_v.Config.{Settings}
use gpca_v.Errors.{raise_unauthorized}
use gpca_v.Run.{World, Result, ok, err, ◌>>=◌}
use gpca_v.Run.Scope.{session_scope, settle, flush_refused}
use gpca_v.Db.Enums.{is_active}
use gpca_v.Db.Models.{User}
use gpca_v.Db.Users
use gpca_v.Db.Users.{by_id}
use gpca_v.Security.Tokens.{AccessClaims}
use gpca_v.Security.Guards.{read_claims, admit, load_current_user}

-- What the guard decides of claims and the stored accounts: the account, or the refusal's text.
abbrev pub verdict_on : ℕ → Option User → Result User
verdict_on version none = err (raise_unauthorized "Access token is not valid.")
verdict_on version (some user) =
    if is_some user.deleted_at
    then err (raise_unauthorized "Access token is not valid.")
    else if not (is_active user.status)
    then err (raise_unauthorized "Access token is not valid.")
    else if user.token_version == version
    then ok user
    else err (raise_unauthorized "Access token is no longer valid.")

admit_lem :
    (env : Env) (version : ℕ) (o : Option User) (s : World)
    → admit env version o s ≡ (verdict_on version o, s)
unfolding admit ◌>>=◌
admit_lem env version none s = refl
admit_lem env version (some user) s = ground arith

module _ (env : Env) (settings : Settings) (authorization : Option String) (s s₁ : World)
    (claims : AccessClaims) (in_range : flush_refused s₁.db ≡ false)
    (read : read_claims env settings authorization s ≡ (ok claims, s₁)) where
  settled : (r : Result User) → settle s₁.db (r, s₁) ≡ (r, s₁)
  unfolding settle
  settled (ok user) = rw in_range refl
  settled (err e) = refl

  -- With readable claims the guard decides by the stored row of the account that they name: it must
  -- exist, not be deleted, be active, and carry the version of the claims.
  pub guard_verdict :
      load_current_user env settings authorization s
      ≡ (verdict_on claims.token_version (by_id claims.user_id s₁.db), s₁)
  unfolding load_current_user session_scope Users.get ◌>>=◌
  guard_verdict =
      rw read (rw (admit_lem env claims.token_version (by_id claims.user_id s₁.db) s₁) (settled _))
