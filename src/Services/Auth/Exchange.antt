-- ===== src/Services/Auth/Exchange.antt =====
-- `rotate_refresh_token` when it succeeds: what it returns and what it leaves behind.
use gpca_v.Prelude.{
  String, true, false, some, ◌≡◌, refl, arith, ◌==◌, leb, is_some, is_none, ◌∙◌, ap, ==_refl,
}
use gpca_v.Env.{Env}
use gpca_v.Config.{Settings}
use gpca_v.Run.{World, ok, advanced, ◌>>=◌}
use gpca_v.Db.Models.{User, RefreshToken, refresh_clash}
use gpca_v.Security.Tokens.{access_payload}
use gpca_v.Db.Table.{any, update}
use gpca_v.Db.Table.Laws.{any-update_same, find-any}
use gpca_v.Db.Insert.{insert_refresh_ok, with_refresh}
use gpca_v.Db.Users.{by_id}
use gpca_v.Db.RefreshTokens
use gpca_v.Db.RefreshTokens.{revoked_now, refresh_storable}
use gpca_v.Db.Integrity.{IsWellFormed, IsWellFormed-IsStable, by_id-id}
use gpca_v.Db.Lookup.{refresh_of, get_refresh_lem}
use gpca_v.Services.Auth.Sessions.{Client, issue_session, link, exchange, rotate_refresh_token}
use gpca_v.Services.Auth.Rotation.{
  InTime, issued_row, issued_pair, issue_session_lem, refresh_of-new,
}
use gpca_v.Services.Auth.Finality.{refresh_of-update, refresh_of-insert}
use gpca_v.Services.Auth.Replay.{row_spent, barred}
use gpca_v.Services.Auth.Reuse.{rotate_live}

module _ (env : Env) (settings : Settings) (row : RefreshToken) (user : User) (client : Client)
    (s : World) where
  -- the row of the new token, for an exchange that begins in `s`
  abbrev pub successor : RefreshToken
  successor = issued_row env settings user row.family_id client (row_spent env row s)

  -- the world in which it is stored
  abbrev pub stored : World
  stored = with_refresh successor (advanced 5 (row_spent env row s))

  -- and the world in which the presented row is linked to it
  abbrev pub exchanged : World
  exchanged = record stored {
    db =
        RefreshTokens.assign (λ t. record t { replaced_by_id = some successor.id }) row.id
          stored.db;
  }

  module _ (w : IsWellFormed env.citext_lower s.db) (owned : is_none (by_id user.id s.db) ≡ false)
      (good : barred user ≡ false) (fits : refresh_storable env successor ≡ true)
      (new : any (refresh_clash successor) s.db.refresh_tokens ≡ false)
      (in_time : InTime env settings (row_spent env row s)) where
    still_new : any (refresh_clash successor) (row_spent env row s).db.refresh_tokens ≡ false
    unfolding RefreshTokens.assign
    still_new =
        any-update_same (refresh_clash successor) (λ t. t.id == row.id)
          (revoked_now (env.clock s.draws)) s.db.refresh_tokens (λ t. refl)
        ∙ new

    stored-IsWellFormed : IsWellFormed env.citext_lower stored.db
    unfolding RefreshTokens.assign by_id
    stored-IsWellFormed =
        (IsWellFormed-IsStable env).insert_refresh (row_spent env row s).db successor still_new
          owned
          ((IsWellFormed-IsStable env).update_refresh s.db (λ t. t.id == row.id)
            (revoked_now (env.clock s.draws)) (λ t. (refl, refl, refl, refl, λ h. refl)) (λ t. refl)
            w)

    session_lem :
        issue_session env settings user (some row.family_id) client (row_spent env row s)
        ≡ (ok (issued_pair env settings user (row_spent env row s)), stored)
    unfolding RefreshTokens.assign by_id
    session_lem =
        issue_session_lem env settings user row.family_id client (row_spent env row s) in_time
        ∙ rw
            (insert_refresh_ok env (advanced 5 (row_spent env row s)) successor fits still_new
              owned)
            refl

    found_lem :
        RefreshTokens.get_by_hash successor.token_hash stored ≡ (ok (some successor), stored)
    found_lem =
        get_refresh_lem stored stored-IsWellFormed successor.token_hash
        ∙ rw (refresh_of-new successor (advanced 5 (row_spent env row s))) refl

    -- The exchange of a copy of a row.
    pub exchange_lem :
        exchange env settings row (some user) client s
        ≡ (ok (issued_pair env settings user (row_spent env row s)), exchanged)
    unfolding exchange link RefreshTokens.set_replaced_by ◌>>=◌ any access_payload update
    exchange_lem = rw good (rw session_lem (rw found_lem (rw (==_refl successor.id) refl)))

module _ (env : Env) (settings : Settings) (row : RefreshToken) (user : User) (client : Client)
    (s : World) (w : IsWellFormed env.citext_lower s.db) (live : is_some row.revoked_at ≡ false)
    (early : leb row.expires_at (env.clock s.draws) ≡ false)
    (owner : by_id row.user_id s.db ≡ some user) (good : barred user ≡ false)
    (fits : refresh_storable env (successor env settings row user client (advanced 1 s)) ≡ true)
    (new : any
        (refresh_clash (successor env settings row user client (advanced 1 s)))
        s.db.refresh_tokens
      ≡ false)
    (in_time : InTime env settings (row_spent env row (advanced 1 s))) where
  owned : is_none (by_id user.id s.db) ≡ false
  owned = ap is_none (ap (λ n. by_id n s.db) (by_id-id row.user_id s.db owner) ∙ owner)

  module _ (token : String) (known : refresh_of (env.sha256 token) s.db ≡ some row) where
    abbrev pub replaced : RefreshToken
    replaced = record row {
      revoked_at = some (env.clock (advanced 1 s).draws);
      replaced_by_id = some (successor env settings row user client (advanced 1 s)).id;
    }

    spent_known :
        refresh_of (env.sha256 token) (row_spent env row (advanced 1 s)).db
        ≡ some (revoked_now (env.clock (advanced 1 s).draws) row)
    unfolding RefreshTokens.assign
    spent_known =
        refresh_of-update (env.sha256 token) s.db (λ t. t.id == row.id)
          (revoked_now (env.clock (advanced 1 s).draws)) (λ t. (refl, refl, refl, refl, λ h. refl))
          known
        ∙ rw (==_refl row.id) refl

    replaced_known :
        refresh_of (env.sha256 token) (exchanged env settings row user client (advanced 1 s)).db
        ≡ some replaced
    unfolding RefreshTokens.assign
    replaced_known =
        refresh_of-update (env.sha256 token) (stored env settings row user client (advanced 1 s)).db
          (λ t. t.id == row.id) _ (λ t. (refl, refl, refl, refl, λ h. h))
          (refresh_of-insert (env.sha256 token) (row_spent env row (advanced 1 s)).db
            (successor env settings row user client (advanced 1 s))
            (still_new env settings row user client (advanced 1 s) w owned good fits new in_time)
            spent_known)
        ∙ rw (==_refl row.id) refl

    other_row : ((successor env settings row user client (advanced 1 s)).id == row.id) ≡ false
    unfolding refresh_of
    other_row = ground (
      arith,
      find-any (λ t. t.token_hash == env.sha256 token)
          (refresh_clash (successor env settings row user client (advanced 1 s)))
          s.db.refresh_tokens known new,
    )

    successor_known :
        refresh_of
          (successor env settings row user client (advanced 1 s)).token_hash
          (exchanged env settings row user client (advanced 1 s)).db
        ≡ some (successor env settings row user client (advanced 1 s))
    unfolding RefreshTokens.assign
    successor_known =
        refresh_of-update (successor env settings row user client (advanced 1 s)).token_hash
          (stored env settings row user client (advanced 1 s)).db (λ t. t.id == row.id) _
          (λ t. (refl, refl, refl, refl, λ h. h))
          (refresh_of-new (successor env settings row user client (advanced 1 s))
            (advanced 5 (row_spent env row (advanced 1 s))))
        ∙ rw other_row refl

    rotated : rotate_refresh_token env settings token client s ≡ (
      ok (issued_pair env settings user (row_spent env row (advanced 1 s))),
      exchanged env settings row user client (advanced 1 s),
    )
    rotated =
        rotate_live env settings token client s w row known live early
        ∙ rw owner
            (exchange_lem env settings row user client (advanced 1 s) w owned good fits new in_time)

    -- A live and unexpired refresh token of an active account is exchanged for a pair, if the row of the
    -- new token fits its columns and has a fresh key and a fresh digest, and the expiries of both new
    -- tokens lie before the year 10000: the presented row is revoked and linked to the new one, which is
    -- stored live, and the accounts are as before.
    pub rotation_succeeds :
        let (r, s') = rotate_refresh_token env settings token client s in
        let pair = issued_pair env settings user (row_spent env row (advanced 1 s)) in
        (r ≡ ok pair)
        × (refresh_of (env.sha256 token) s'.db ≡ some replaced)
        × (refresh_of (env.sha256 pair.1) s'.db
            ≡ some (successor env settings row user client (advanced 1 s)))
        × (s'.db.users ≡ s.db.users)
    unfolding RefreshTokens.assign
    rotation_succeeds = rw rotated (refl, replaced_known, successor_known, refl)
