-- ===== src/Services/Auth/Logout.antt =====
-- `revoke_refresh_token`: logging out one session.
use gpca_v.Prelude.{
  String, true, false, some, List, ◌≡◌, refl, arith, ◌==◌, is_none, is_some, Bool-cases, inl, inr,
  ◌∙◌, ==_refl,
}
use gpca_v.Env.{Env}
use gpca_v.Config.{Settings}
use gpca_v.Errors.{refresh_rejected}
use gpca_v.Run.{World, ok, err, ◌>>=◌}
use gpca_v.Db.Models.{RefreshToken}
use gpca_v.Db.Table.Laws.{find-update}
use gpca_v.Db.RefreshTokens
use gpca_v.Db.RefreshTokens.{revoked_now}
use gpca_v.Db.Integrity.{IsWellFormed, IsWellFormed-IsStable}
use gpca_v.Db.Lookup.{refresh_of, get_refresh_lem}
use gpca_v.Services.Auth.Sessions.{Client, revoke_refresh_token, revoke_row, rotate_refresh_token}
use gpca_v.Services.Auth.Obey.{revoke-Obeys}
use gpca_v.Services.Auth.Preserve.{keeping}
use gpca_v.Services.Auth.Serve.{Service, serve}
use gpca_v.Services.Auth.Finality.{IsRevoked, revoked_for_good}

module _ (env : Env) (token : String) (s : World) (w : IsWellFormed env.citext_lower s.db)
    (row : RefreshToken) (known : refresh_of (env.sha256 token) s.db ≡ some row) where
  revoke_lem : revoke_refresh_token env token s ≡ revoke_row env (some row) s
  unfolding revoke_refresh_token ◌>>=◌
  revoke_lem = rw (get_refresh_lem s w (env.sha256 token), known) refl

  row-IsRevoked :
      ((revoke_row env (some row) s).0 ≡ ok tt)
      × IsRevoked (env.sha256 token) row.family_id (revoke_row env (some row) s).1.db
  unfolding revoke_row RefreshTokens.assign refresh_of ◌>>=◌
  row-IsRevoked = elim (Bool-cases (is_none row.revoked_at)) [
    | inl live ↦ rw live (
      refl,
      (
        revoked_now (env.clock s.draws) row,
        find-update (λ (t : RefreshToken). t.token_hash == env.sha256 token) (λ t. t.id == row.id)
              (revoked_now (env.clock s.draws)) s.db.refresh_tokens (λ t. refl)
            ∙ rw known (rw (==_refl row.id) refl),
        refl,
        refl,
      ),
    )
    | inr used ↦ rw used (refl, (row, known, refl, spent row used))
  ]
    where
      spent : (t : RefreshToken) → is_none t.revoked_at ≡ false → is_some t.revoked_at ≡ true
      spent t h = ground arith

  IsRevoked-now_on :
      ((revoke_refresh_token env token s).0 ≡ ok tt)
      × IsRevoked (env.sha256 token) row.family_id (revoke_refresh_token env token s).1.db
  IsRevoked-now_on = rw revoke_lem row-IsRevoked

  -- A logout with a known refresh token succeeds, also when the token was revoked before, and after any
  -- sequence of service calls the token cannot be exchanged.
  pub logout_for_good :
      (settings : Settings) (calls : List Service) (client : Client)
      → ((revoke_refresh_token env token s).0 ≡ ok tt)
        × ((rotate_refresh_token env settings token client
              (serve env settings calls (revoke_refresh_token env token s).1)).0
            ≡ err refresh_rejected)
  logout_for_good settings calls client = (
    IsRevoked-now_on.0,
    revoked_for_good env settings calls (revoke_refresh_token env token s).1
        ((revoke-Obeys env settings {logic = keeping env (IsWellFormed-IsStable env)} token).by.at s
          w)
        token row.family_id client IsRevoked-now_on.1,
  )
