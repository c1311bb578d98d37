-- ===== src/Services/Auth/Reuse.antt =====
-- Reuse detection in `rotate_refresh_token`: what a presented token leads to, case by case.
use gpca_v.Prelude.{
  ℕ, String, true, false, Option, none, some, ◌≡◌, refl, arith, ◌==◌, leb, suc, is_some,
}
use gpca_v.Env.{Env}
use gpca_v.Config.{Settings}
use gpca_v.Errors.{refresh_rejected}
use gpca_v.Run.{World, err, ◌>>=◌}
use gpca_v.Db.Models.{RefreshToken}
use gpca_v.Db.Table.{any}
use gpca_v.Db.Table.Laws.{find-update, any-update_unset, touch}
use gpca_v.Db.Users
use gpca_v.Db.Users.{by_id}
use gpca_v.Db.RefreshTokens
use gpca_v.Db.RefreshTokens.{in_family, revoked_now, revoke_where}
use gpca_v.Db.Integrity.{IsWellFormed}
use gpca_v.Db.Lookup.{refresh_of, get_refresh_lem}
use gpca_v.Services.Auth.Sessions.{Client, rotate_refresh_token, rotate_row, exchange}
use mathlib.Core.Option

-- the world in which `rotate_refresh_token` has revoked a family
abbrev pub family_revoked : Env → ℕ → World → World
family_revoked env family_id s = record s {
  db = revoke_where (in_family family_id) (env.clock s.draws) s.db;
  draws = suc s.draws;
}

module _ (env : Env) (settings : Settings) (token : String) (client : Client) (s : World)
    (w : IsWellFormed env.citext_lower s.db) where
  -- The token is known: the rest is decided by its row.
  rotate_found :
      (o : Option RefreshToken)
      → refresh_of (env.sha256 token) s.db ≡ o
      → rotate_refresh_token env settings token client s ≡ rotate_row env settings o client s
  unfolding rotate_refresh_token ◌>>=◌
  rotate_found o e = rw (get_refresh_lem s w (env.sha256 token), e) refl

  pub rotate_unknown :
      refresh_of (env.sha256 token) s.db ≡ none
      → rotate_refresh_token env settings token client s ≡ (err refresh_rejected, s)
  unfolding rotate_row ◌>>=◌
  rotate_unknown e = rw (rotate_found none e) refl

  pub rotate_reused :
      (row : RefreshToken)
      → refresh_of (env.sha256 token) s.db ≡ some row
      → is_some row.revoked_at ≡ true
      → rotate_refresh_token env settings token client s
        ≡ (err refresh_rejected, family_revoked env row.family_id s)
  unfolding rotate_row RefreshTokens.revoke_family ◌>>=◌
  rotate_reused row e used = rw (rotate_found (some row) e, used) refl

  pub rotate_expired :
      (row : RefreshToken)
      → refresh_of (env.sha256 token) s.db ≡ some row
      → is_some row.revoked_at ≡ false
      → leb row.expires_at (env.clock s.draws) ≡ true
      → rotate_refresh_token env settings token client s
        ≡ (err refresh_rejected, record s { draws = suc s.draws })
  unfolding rotate_row ◌>>=◌
  rotate_expired row e live late = rw (rotate_found (some row) e, live, late) refl

  pub rotate_live :
      (row : RefreshToken)
      → refresh_of (env.sha256 token) s.db ≡ some row
      → is_some row.revoked_at ≡ false
      → leb row.expires_at (env.clock s.draws) ≡ false
      → rotate_refresh_token env settings token client s
        ≡ exchange env settings row
            (by_id row.user_id s.db)
            client
            (record s { draws = suc s.draws })
  unfolding rotate_row Users.get ◌>>=◌
  rotate_live row e live late = rw (rotate_found (some row) e, live, late) refl

-- Afterwards no token of the family is live.
pub family_revoked_dead :
    (env : Env) (family_id : ℕ) (s : World)
    → any (in_family family_id) (family_revoked env family_id s).db.refresh_tokens ≡ false
unfolding revoke_where
family_revoked_dead env family_id s =
    any-update_unset (in_family family_id) (in_family family_id) (revoked_now (env.clock s.draws))
      s.db.refresh_tokens (λ t h. h) (λ t. ground arith)

-- Every digest still names the row that it named, revoked now if it was a live one of the family.
pub family_revoked_rows :
    (env : Env) (family_id : ℕ) (s : World) (digest : ℕ)
    → refresh_of digest (family_revoked env family_id s).db
      ≡ Option.map
          (touch (in_family family_id) (revoked_now (env.clock s.draws)))
          (refresh_of digest s.db)
unfolding revoke_where refresh_of
family_revoked_rows env family_id s digest =
    find-update (λ t. t.token_hash == digest) (in_family family_id)
      (revoked_now (env.clock s.draws)) s.db.refresh_tokens (λ t. refl)

module _ (env : Env) (settings : Settings) (token : String) (client : Client) (s : World)
    (w : IsWellFormed env.citext_lower s.db) (row : RefreshToken)
    (known : refresh_of (env.sha256 token) s.db ≡ some row)
    (used : is_some row.revoked_at ≡ true) where
  -- A revoked token is refused, and afterwards no token of its family is live; each digest names the
  -- row that it named, with the revocation time set if that row was a live one of the family and
  -- unchanged otherwise; the accounts, the single-use tokens and the emails are as before.
  pub reuse_revokes_family :
      let (r, s') = rotate_refresh_token env settings token client s in
      (r ≡ err refresh_rejected)
      × (any (in_family row.family_id) s'.db.refresh_tokens ≡ false)
      × ((digest : ℕ)
          → refresh_of digest s'.db
            ≡ Option.map
                (touch (in_family row.family_id) (revoked_now (env.clock s.draws)))
                (refresh_of digest s.db))
      × (s'.db.users ≡ s.db.users)
      × (s'.db.auth_tokens ≡ s.db.auth_tokens)
      × (s'.pending ≡ s.pending)
      × (s'.sent ≡ s.sent)
  unfolding revoke_where
  reuse_revokes_family = rw (rotate_reused env settings token client s w row known used) (
    refl,
    family_revoked_dead env row.family_id s,
    family_revoked_rows env row.family_id s,
    refl,
    refl,
    refl,
    refl,
  )
