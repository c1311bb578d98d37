-- ===== src/Routes/Refused.antt =====
-- The refresh endpoint: every token that cannot be exchanged gets the same answer.
use gpca_v.Prelude.{
  ℕ, String, Bool, true, false, not, ◌&&◌, ◌||◌, Option, none, some, ◌≡◌, refl, arith, ltb, leb,
  suc, is_none, is_some, Bool-cases, Option-cases, inl, inr, ap, ◌∙◌, sym,
}
use gpca_v.Env.{Env}
use gpca_v.Config.{Settings}
use gpca_v.Errors.{refresh_rejected, raise_unauthorized}
use gpca_v.Messages
use gpca_v.Run.{World, err, ◌>>=◌}
use gpca_v.Run.Scope.{session_scope, settle, flush_refused}
use gpca_v.Db.Enums.{is_active}
use gpca_v.Db.Models.{User, RefreshToken, Database}
use gpca_v.Db.Users.{by_id}
use gpca_v.Db.RefreshTokens.{revoke_where}
use gpca_v.Db.Integrity.{IsWellFormed}
use gpca_v.Db.Lookup.{refresh_of}
use gpca_v.Services.Auth.Sessions.{Client, rotate_refresh_token, exchange}
use gpca_v.Services.Auth.Reuse.{
  rotate_unknown, rotate_reused, rotate_expired, rotate_live, family_revoked,
}
use gpca_v.Routes.Auth.{refresh_view}

abbrev may_hold : Option User → Bool
may_hold none = false
may_hold (some user) = not (is_some user.deleted_at) && is_active user.status

-- Can the token of this row be exchanged at a time? It must be known, live, unexpired, and of an
-- account that is not deleted and is active.
abbrev pub exchangeable : ℕ → Option RefreshToken → Database → Bool
exchangeable now none db = false
exchangeable now (some row) db =
    is_none row.revoked_at && ltb now row.expires_at && may_hold (by_id row.user_id db)

module _ (env : Env) (settings : Settings) (client : Client) (s : World)
    (in_range : flush_refused s.db ≡ false) where
  exchange_refused :
      (row : RefreshToken) (o : Option User)
      → may_hold o ≡ false
      → exchange env settings row o client (record s { draws = suc s.draws })
        ≡ (err refresh_rejected, record s { draws = suc s.draws })
  unfolding exchange ◌>>=◌
  exchange_refused row none h = refl
  exchange_refused row (some user) h = rw (denied user h) refl
    where
      denied :
          (u : User)
          → (not (is_some u.deleted_at) && is_active u.status) ≡ false
          → (is_some u.deleted_at || not (is_active u.status)) ≡ true
      denied u k = ground arith

  -- a rotation that is refused, in a world whose commit goes through
  abbrev Refused : String → Type 0
  Refused token =
      (s' : World) × (rotate_refresh_token env settings token client s ≡ (err refresh_rejected, s'))
      × (flush_refused s'.db ≡ false)

  module _ (token : String) (w : IsWellFormed env.citext_lower s.db) where
    row-Refused :
        (row : RefreshToken)
        → refresh_of (env.sha256 token) s.db ≡ some row
        → exchangeable (env.clock s.draws) (some row) s.db ≡ false
        → Refused token
    unfolding flush_refused revoke_where
    row-Refused row known h = elim (Bool-cases (is_some row.revoked_at)) [
      | inl used ↦ (
        family_revoked env row.family_id s,
        rotate_reused env settings token client s w row known used,
        in_range,
      )
      | inr live ↦ elim (Bool-cases (leb row.expires_at (env.clock s.draws))) [
        | inl late ↦ (
          record s { draws = suc s.draws },
          rotate_expired env settings token client s w row known live late,
          in_range,
        )
        | inr early ↦ (
          record s { draws = suc s.draws },
          rotate_live env settings token client s w row known live early
              ∙ exchange_refused row (by_id row.user_id s.db) (owner live early h),
          in_range,
        )
      ]
    ]
      where
        owner :
            is_some row.revoked_at ≡ false
            → leb row.expires_at (env.clock s.draws) ≡ false
            → exchangeable (env.clock s.draws) (some row) s.db ≡ false
            → may_hold (by_id row.user_id s.db) ≡ false
        owner a b c = ground arith

    rotate-Refused :
        exchangeable (env.clock s.draws) (refresh_of (env.sha256 token) s.db) s.db ≡ false
        → Refused token
    rotate-Refused h = elim (Option-cases (refresh_of (env.sha256 token) s.db)) [
      | inl unknown ↦ (s, rotate_unknown env settings token client s w unknown, in_range)
      | inr (row, known) ↦
          row-Refused row known (ap (λ o. exchangeable (env.clock s.draws) o s.db) (sym known) ∙ h)
    ]

    answered :
        Refused token
        → (refresh_view env settings token client s).0
          ≡ err (raise_unauthorized Messages.refresh_failed)
    unfolding refresh_view session_scope settle ◌>>=◌
    answered (s', refused, commits) = rw (refused, commits) refl

    -- A refresh token that is unknown, revoked, expired, or of an account that is gone, deleted or not
    -- active gets one and the same 401 from the refresh endpoint.
    pub refresh_refused :
        exchangeable (env.clock s.draws) (refresh_of (env.sha256 token) s.db) s.db ≡ false
        → (refresh_view env settings token client s).0
          ≡ err (raise_unauthorized Messages.refresh_failed)
    refresh_refused h = answered (rotate-Refused h)
