-- ===== src/Db/Integrity.antt =====
-- The constraints that the schema states, as one predicate of the database.
use gpca_v.Prelude.{
  ◌∙◌, ℕ, String, Bool, true, false, Option, none, some, ◌∷◌, ◌≡◌, refl, ap, arith, ◌==◌, is_none,
  is_some, ==_iff,
}
use mathlib.Core.Option
use gpca_v.Db.Models.{
  User, RefreshToken, AuthToken, Database, user_clash, refresh_clash, auth_clash,
}
use gpca_v.Db.Table.{find, update, any, All, NoClash}
use gpca_v.Db.Table.Laws.{find-holds, All-update_touch, touch, find-update, All-map}
use gpca_v.Db.Table.Unique.{NoClash-insert, NoClash-update}
use gpca_v.Db.Keys.{
  user_clash-touch, refresh_clash-touch, auth_clash-touch, refers-update, refers-insert,
}
use gpca_v.Db.Stable.{IsStable, KeepsKeys, KeepsToken}
use gpca_v.Env.{Env}
use gpca_v.Db.Users
use gpca_v.Db.Users.{by_id}
use gpca_v.Db.RefreshTokens
use gpca_v.Db.RefreshTokens.{refers, is_orphan}
use gpca_v.Db.AuthTokens.{consumed_now}

-- The unique indexes hold, no token is without its account, and no refresh token refers to one that is
-- not there.
pub record IsWellFormed (lower : String → String) (db : Database) : Type 0 where
  pub users : NoClash (user_clash lower) db.users
  pub refresh : NoClash refresh_clash db.refresh_tokens
  pub auth : NoClash auth_clash db.auth_tokens
  pub refresh_owned : All (λ t. is_some (by_id t.user_id db) ≡ true) db.refresh_tokens
  pub replaced : All (λ t. refers t.replaced_by_id db.refresh_tokens ≡ true) db.refresh_tokens
  pub auth_owned : All (λ t. is_some (by_id t.user_id db) ≡ true) db.auth_tokens

-- an assignment changes the account that is found by its key, and no other
pub by_id-assign :
    (f : User → User) (n user_id : ℕ) (db : Database)
    → ((u : User) → (f u).id ≡ u.id)
    → by_id n (Users.assign f user_id db) ≡ Option.map (touch (λ u. u.id == user_id) f) (by_id n db)
unfolding by_id Users.assign
by_id-assign f n user_id db same =
    find-update (λ u. u.id == n) (λ u. u.id == user_id) f db.users (λ u. rw (same u) refl)

-- The account that a key finds has that key.
pub by_id-id : (n : ℕ) (db : Database) {u : User} → by_id n db ≡ some u → u.id ≡ n
unfolding by_id
by_id-id n db {u} h = (==_iff u.id n).0 (find-holds (λ x. x.id == n) db.users h)

is_some-map {ℓ} : {A : Type ℓ} (g : A → A) (o : Option A) → is_some (Option.map g o) ≡ is_some o
is_some-map g none = refl
is_some-map g (some x) = refl

-- An account that exists goes on to exist.
pub known-assign :
    (f : User → User) (n user_id : ℕ) (db : Database)
    → ((u : User) → (f u).id ≡ u.id)
    → is_some (by_id n (Users.assign f user_id db)) ≡ is_some (by_id n db)
known-assign f n user_id db same =
    rw (by_id-assign f n user_id db same) (is_some-map _ (by_id n db))

known-insert :
    (u : User) (n : ℕ) (db : Database)
    → is_some (by_id n db) ≡ true
    → is_some (by_id n (record db { users = u ∷ db.users })) ≡ true
unfolding by_id find
known-insert u n db h = ground arith

module _ {lower : String → String} {db : Database} (w : IsWellFormed lower db) where
  -- an assignment that leaves the key, the address and the deletion alone
  assign_user-IsWellFormed :
      (f : User → User) (user_id : ℕ) → KeepsKeys f → IsWellFormed lower (Users.assign f user_id db)
  assign_user-IsWellFormed f user_id keeps = record {
    users =
        unfold Users.assign in
        NoClash-update (user_clash lower) _ f db.users (user_clash-touch lower _ f keeps) w.users;
    refresh = unfold Users.assign in w.refresh;
    auth = unfold Users.assign in w.auth;
    refresh_owned =
        unfold Users.assign in
        All-map (λ t h. known-assign f t.user_id user_id db (λ u. (keeps u).0) ∙ h)
          db.refresh_tokens w.refresh_owned;
    replaced = unfold Users.assign in w.replaced;
    auth_owned =
        unfold Users.assign in
        All-map (λ t h. known-assign f t.user_id user_id db (λ u. (keeps u).0) ∙ h) db.auth_tokens
          w.auth_owned;
  }

  insert_user-IsWellFormed :
      (u : User)
      → any (user_clash lower u) db.users ≡ false
      → IsWellFormed lower (record db { users = u ∷ db.users })
  insert_user-IsWellFormed u new = record {
    users = NoClash-insert (user_clash lower) u db.users new w.users;
    refresh = w.refresh;
    auth = w.auth;
    refresh_owned =
        All-map (λ t h. known-insert u t.user_id db h) db.refresh_tokens w.refresh_owned;
    replaced = w.replaced;
    auth_owned = All-map (λ t h. known-insert u t.user_id db h) db.auth_tokens w.auth_owned;
  }

  -- an UPDATE of refresh tokens that leaves the keys, the digests and the accounts alone
  update_refresh-IsWellFormed :
      (p : RefreshToken → Bool) (f : RefreshToken → RefreshToken)
      → KeepsToken f
      → ((t : RefreshToken) → (f t).replaced_by_id ≡ t.replaced_by_id)
      → IsWellFormed lower (record db { refresh_tokens = update p f db.refresh_tokens })
  unfolding by_id
  update_refresh-IsWellFormed p f keeps same = record {
    users = w.users;
    refresh =
        NoClash-update refresh_clash p f db.refresh_tokens (refresh_clash-touch p f keeps)
          w.refresh;
    auth = w.auth;
    refresh_owned =
        All-update_touch p f db.refresh_tokens (λ t h. rw ((keeps t).2) h) w.refresh_owned;
    replaced =
        All-update_touch p f db.refresh_tokens
          (λ t h. ap (λ o. refers o (update p f db.refresh_tokens)) (same t) ∙ h)
          (All-map (λ t h. refers-update p f t.replaced_by_id db.refresh_tokens keeps ∙ h)
            db.refresh_tokens w.replaced);
    auth_owned = w.auth_owned;
  }

  insert_refresh-IsWellFormed :
      (t : RefreshToken)
      → any (refresh_clash t) db.refresh_tokens ≡ false
      → is_orphan t db ≡ false
      → IsWellFormed lower (record db { refresh_tokens = t ∷ db.refresh_tokens })
  unfolding by_id
  insert_refresh-IsWellFormed t new owned = record {
    users = w.users;
    refresh = NoClash-insert refresh_clash t db.refresh_tokens new w.refresh;
    auth = w.auth;
    refresh_owned = (ground arith, w.refresh_owned);
    replaced = (
      ground arith,
      All-map (λ u h. refers-insert t u.replaced_by_id db.refresh_tokens h) db.refresh_tokens
          w.replaced,
    );
    auth_owned = w.auth_owned;
  }

  -- the UPDATE of a reference, to a stored row
  replace_refresh-IsWellFormed :
      (id replacement_id : ℕ)
      → refers (some replacement_id) db.refresh_tokens ≡ true
      → IsWellFormed lower
          (RefreshTokens.assign (λ t. record t { replaced_by_id = some replacement_id }) id db)
  unfolding by_id RefreshTokens.assign
  replace_refresh-IsWellFormed id n known =
      let f = λ (t : RefreshToken). record t { replaced_by_id = some n } in
      let keeps : KeepsToken f = λ t. (refl, refl, refl, refl, λ h. h) in
      record {
        users = w.users;
        refresh =
            NoClash-update refresh_clash (λ t. t.id == id) f db.refresh_tokens
              (refresh_clash-touch (λ t. t.id == id) f keeps) w.refresh;
        auth = w.auth;
        refresh_owned =
            All-update_touch (λ t. t.id == id) f db.refresh_tokens (λ t h. h) w.refresh_owned;
        replaced =
            All-update_touch (λ t. t.id == id) f db.refresh_tokens
              (λ t h. refers-update (λ u. u.id == id) f (some n) db.refresh_tokens keeps ∙ known)
              (All-map
                (λ t h.
                  refers-update (λ u. u.id == id) f t.replaced_by_id db.refresh_tokens keeps ∙ h)
                db.refresh_tokens w.replaced);
        auth_owned = w.auth_owned;
      }

  -- the marking of single-use tokens as consumed
  consume-IsWellFormed :
      (p : AuthToken → Bool) (now : ℕ)
      → IsWellFormed lower (record db { auth_tokens = update p (consumed_now now) db.auth_tokens })
  unfolding by_id
  consume-IsWellFormed p now = record {
    users = w.users;
    refresh = w.refresh;
    auth =
        NoClash-update auth_clash p (consumed_now now) db.auth_tokens (auth_clash-touch p now)
          w.auth;
    refresh_owned = w.refresh_owned;
    replaced = w.replaced;
    auth_owned = All-update_touch p (consumed_now now) db.auth_tokens (λ t h. h) w.auth_owned;
  }

  insert_auth-IsWellFormed :
      (t : AuthToken)
      → any (auth_clash t) db.auth_tokens ≡ false
      → is_none (by_id t.user_id db) ≡ false
      → IsWellFormed lower (record db { auth_tokens = t ∷ db.auth_tokens })
  unfolding by_id
  insert_auth-IsWellFormed t new owned = record {
    users = w.users;
    refresh = w.refresh;
    auth = NoClash-insert auth_clash t db.auth_tokens new w.auth;
    refresh_owned = w.refresh_owned;
    replaced = w.replaced;
    auth_owned = (ground arith, w.auth_owned);
  }

pub IsWellFormed-IsStable : (env : Env) → IsStable env (IsWellFormed env.citext_lower)
IsWellFormed-IsStable env = record {
  assign_user = λ db f user_id keeps w. assign_user-IsWellFormed w f user_id keeps;
  insert_user = λ db u new w. insert_user-IsWellFormed w u new;
  update_refresh = λ db p f keeps same w. update_refresh-IsWellFormed w p f keeps same;
  insert_refresh = λ db t new owned w. insert_refresh-IsWellFormed w t new owned;
  replace_refresh = λ db id n known w. replace_refresh-IsWellFormed w id n known;
  consume_auth = λ db p now w. consume-IsWellFormed w p now;
  insert_auth = λ db t new owned w. insert_auth-IsWellFormed w t new owned;
}
