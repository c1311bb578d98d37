-- ===== src/Routes/Refresh.antt =====
-- The refresh endpoint commits what the refusal of a reused token has revoked.
use gpca_v.Prelude.{String, true, false, some, ◌≡◌, refl, is_some}
use gpca_v.Env.{Env}
use gpca_v.Config.{Settings}
use gpca_v.Errors.{raise_unauthorized}
use gpca_v.Messages
use gpca_v.Run.{World, err, ◌>>=◌}
use gpca_v.Run.Scope.{session_scope, settle, flush_refused}
use gpca_v.Db.Models.{RefreshToken}
use gpca_v.Db.Table.{any}
use gpca_v.Db.RefreshTokens.{in_family, revoke_where}
use gpca_v.Db.Integrity.{IsWellFormed}
use gpca_v.Db.Lookup.{refresh_of}
use gpca_v.Services.Auth.Sessions.{Client}
use gpca_v.Services.Auth.Reuse.{rotate_reused, family_revoked, family_revoked_dead}
use gpca_v.Routes.Auth.{refresh_view}

module _ (env : Env) (settings : Settings) (token : String) (client : Client) (s : World)
    (w : IsWellFormed env.citext_lower s.db) (in_range : flush_refused s.db ≡ false)
    (row : RefreshToken) (known : refresh_of (env.sha256 token) s.db ≡ some row)
    (used : is_some row.revoked_at ≡ true) where
  refresh_reused :
      refresh_view env settings token client s
      ≡ (err (raise_unauthorized Messages.refresh_failed), family_revoked env row.family_id s)
  unfolding refresh_view session_scope settle flush_refused revoke_where ◌>>=◌
  refresh_reused = rw (rotate_reused env settings token client s w row known used, in_range) refl

  -- A refresh with a revoked token ends in the 401 of the endpoint, and the revocation of the family is
  -- not rolled back with it: no token of the family is live.
  pub refresh_commits_revocation :
      let (r, s') = refresh_view env settings token client s in
      (r ≡ err (raise_unauthorized Messages.refresh_failed))
      × (any (in_family row.family_id) s'.db.refresh_tokens ≡ false)
  refresh_commits_revocation = rw refresh_reused (refl, family_revoked_dead env row.family_id s)
