-- ===== src/Routes/LogoutAll.antt =====
-- Logout everywhere as an endpoint: the guard's copy of the account is merged back over its row.
use gpca_v.Prelude.{
  true, false, not, ◌&&◌, some, ◌≡◌, refl, ◌==◌, suc, is_some, List, [], ◌∷◌, Bool-cases, inl, inr,
  arith, ==_refl, ap, ◌∙◌,
}
use mathlib.Core.Option
use gpca_v.Env.{Env}
use gpca_v.Config.{Settings}
use gpca_v.Run.{World, ok, ◌>>=◌}
use gpca_v.Run.Scope.{session_scope, settle, flush_refused}
use gpca_v.Db.Models.{User, user_clash}
use gpca_v.Db.Table.{any, find, update}
use gpca_v.Db.Users
use gpca_v.Db.Users.{by_id}
use gpca_v.Db.RefreshTokens.{held_by}
use gpca_v.Db.Table.Laws.{touch}
use gpca_v.Services.Auth.Sessions.{bumped}
use gpca_v.Services.Auth.Everywhere.{
  sessions_ended, revoke_all_sessions_lem, sessions_ended_users, sessions_ended_dead,
}
use gpca_v.Responses.{no_content}
use gpca_v.Routes.Auth.{logout_all_body, merge, merge_row}

-- the world in which the copy has been merged
abbrev pub merged : User → World → World
merged user s = record s { db = Users.assign (λ _. user) user.id s.db }

find-overwritten :
    (user : User) (l : List User)
    → is_some (find (λ u. u.id == user.id) l) ≡ true
    → find (λ u. u.id == user.id) (update (λ u. u.id == user.id) (λ _. user) l) ≡ some user
unfolding find update
find-overwritten user [] h = cc
find-overwritten user (u ∷ l) h = elim (Bool-cases (u.id == user.id)) [
  | inl same ↦ rw same (rw (==_refl user.id) refl)
  | inr other ↦ rw other (rw other (find-overwritten user l (skip other h)))
]
  where
    skip :
        (u.id == user.id) ≡ false
        → is_some (find (λ u. u.id == user.id) (u ∷ l)) ≡ true
        → is_some (find (λ u. u.id == user.id) l) ≡ true
    skip o h = ground arith

module _ (env : Env) (settings : Settings) (user row : User) (s : World)
    (stored : by_id user.id s.db ≡ some row)
    (no_clash : any (λ v. not (v.id == user.id) && user_clash env.citext_lower user v) s.db.users
      ≡ false)
    (in_range : flush_refused (sessions_ended env user (merged user s)).db ≡ false) where
  logout_all_lem :
      logout_all_body env settings user s ≡ (ok no_content, sessions_ended env user (merged user s))
  unfolding logout_all_body merge merge_row Users.get session_scope settle ◌>>=◌
  logout_all_lem =
      rw (stored, no_clash) (rw (revoke_all_sessions_lem env user (merged user s), in_range) refl)

  row_after :
      by_id user.id (sessions_ended env user (merged user s)).db
      ≡ some (record user { token_version = suc user.token_version })
  row_after =
      sessions_ended_users env user (merged user s) user.id
      ∙ ap (Option.map (touch (λ u. u.id == user.id) (bumped env user))) overwritten
      ∙ rw (==_refl user.id) refl
    where
      overwritten : by_id user.id (merged user s).db ≡ some user
      overwritten =
          unfold by_id Users.assign in
          find-overwritten user s.db.users (ap is_some (unfold by_id in stored))

  -- Logout everywhere answers 204 and ends every session of the account; the row of the account is
  -- then the copy that the guard read in its own transaction, with the next version, whatever columns
  -- of the row have changed since. The row must still be there, no other live account may have the
  -- address of the copy, and the next version must fit its column.
  pub logout_all_overwrites :
      let (r, s') = logout_all_body env settings user s in
      (r ≡ ok no_content)
      × (any (held_by user.id) s'.db.refresh_tokens ≡ false)
      × (by_id user.id s'.db ≡ some (record user { token_version = suc user.token_version }))
  logout_all_overwrites =
      rw logout_all_lem (refl, sessions_ended_dead env user (merged user s), row_after)
