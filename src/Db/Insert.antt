-- ===== src/Db/Insert.antt =====
-- An INSERT stores its row, or raises and changes nothing.
use gpca_v.Prelude.{true, false, ◌∷◌, ◌≡◌, refl, ◌⊎◌, inl, inr, is_none, Bool-cases}
use gpca_v.Env.{Env}
use gpca_v.Errors.{Exn, integrity_error, data_error}
use gpca_v.Run.{World, ok, err, ◌>>=◌}
use gpca_v.Db.Models.{User, RefreshToken, AuthToken, user_clash, refresh_clash, auth_clash}
use gpca_v.Db.Table.{any}
use gpca_v.Db.Users
use gpca_v.Db.Users.{by_id, user_storable}
use gpca_v.Db.RefreshTokens
use gpca_v.Db.RefreshTokens.{refresh_storable, is_orphan}
use gpca_v.Db.AuthTokens

abbrev pub with_user : User → World → World
with_user u s = record s { db = record s.db { users = u ∷ s.db.users } }

abbrev pub with_refresh : RefreshToken → World → World
with_refresh t s = record s { db = record s.db { refresh_tokens = t ∷ s.db.refresh_tokens } }

abbrev pub with_auth : AuthToken → World → World
with_auth t s = record s { db = record s.db { auth_tokens = t ∷ s.db.auth_tokens } }

module _ (env : Env) (s : World) where
  pub insert_user_ok :
      (u : User)
      → user_storable env u ≡ true
      → any (user_clash env.citext_lower u) s.db.users ≡ false
      → Users.insert env u s ≡ (ok tt, with_user u s)
  unfolding Users.insert ◌>>=◌
  insert_user_ok u fits new = rw (fits, new) refl

  pub insert_refresh_ok :
      (t : RefreshToken)
      → refresh_storable env t ≡ true
      → any (refresh_clash t) s.db.refresh_tokens ≡ false
      → is_orphan t s.db ≡ false
      → RefreshTokens.insert env t s ≡ (ok tt, with_refresh t s)
  unfolding RefreshTokens.insert ◌>>=◌
  insert_refresh_ok t fits new owned = rw (fits, new, owned) refl

  pub insert_refresh_unfit :
      (t : RefreshToken)
      → refresh_storable env t ≡ false
      → RefreshTokens.insert env t s ≡ (err data_error, s)
  unfolding RefreshTokens.insert ◌>>=◌
  insert_refresh_unfit t bad = rw bad refl

  pub insert_refresh_cases :
      (t : RefreshToken)
      → ((RefreshTokens.insert env t s ≡ (ok tt, with_refresh t s))
          × (any (refresh_clash t) s.db.refresh_tokens ≡ false))
        ⊎ ((e : Exn) × (RefreshTokens.insert env t s ≡ (err e, s)))
  unfolding RefreshTokens.insert ◌>>=◌
  insert_refresh_cases t = elim (Bool-cases (refresh_storable env t)) [
    | inr bad ↦ inr (data_error, rw bad refl)
    | inl fits ↦ elim (Bool-cases (any (refresh_clash t) s.db.refresh_tokens)) [
      | inl clash ↦ inr (integrity_error, rw (fits, clash) refl)
      | inr new ↦ elim (Bool-cases (is_orphan t s.db)) [
        | inl orphan ↦ inr (integrity_error, rw (fits, new, orphan) refl)
        | inr owned ↦ inl (rw (fits, new, owned) refl, new)
      ]
    ]
  ]

  pub insert_auth_ok :
      (t : AuthToken)
      → any (auth_clash t) s.db.auth_tokens ≡ false
      → is_none (by_id t.user_id s.db) ≡ false
      → AuthTokens.insert env t s ≡ (ok tt, with_auth t s)
  unfolding AuthTokens.insert ◌>>=◌
  insert_auth_ok t new owned = rw (new, owned) refl
