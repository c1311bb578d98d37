-- ===== src/Db/Stable.antt =====
-- The interface between the statements of the repositories and a property of the database: a
-- property that is stable survives every statement that the program issues.
use gpca_v.Prelude.{some, ℕ, Bool, true, false, ◌∷◌, ◌≡◌, is_none, is_some}
use gpca_v.Env.{Env}
use gpca_v.Db.Models.{
  User, RefreshToken, AuthToken, Database, user_clash, refresh_clash, auth_clash,
}
use gpca_v.Db.Table.{update, any}
use gpca_v.Db.Users
use gpca_v.Db.Users.{by_id}
use gpca_v.Db.RefreshTokens
use gpca_v.Db.RefreshTokens.{refers, is_orphan}
use gpca_v.Db.AuthTokens.{consumed_now}

-- an assignment to an account that leaves its key, its address and its deletion alone
abbrev pub KeepsKeys : (User → User) → Type 0
KeepsKeys f =
    (u : User) → ((f u).id ≡ u.id) × ((f u).email ≡ u.email) × ((f u).deleted_at ≡ u.deleted_at)

-- an assignment to a refresh token that leaves all but the marks on it alone, and unsets none
abbrev pub KeepsToken : (RefreshToken → RefreshToken) → Type 0
KeepsToken f =
    (t : RefreshToken)
    → ((f t).id ≡ t.id)
      × ((f t).token_hash ≡ t.token_hash)
      × ((f t).user_id ≡ t.user_id)
      × ((f t).family_id ≡ t.family_id)
      × (is_some t.revoked_at ≡ true → is_some (f t).revoked_at ≡ true)

pub record IsStable (env : Env) (P : Database → Type 0) : Type 0 where
  pub assign_user :
      (db : Database) (f : User → User) (user_id : ℕ)
      → KeepsKeys f
      → P db
      → P (Users.assign f user_id db)
  pub insert_user :
      (db : Database) (u : User)
      → any (user_clash env.citext_lower u) db.users ≡ false
      → P db
      → P (record db { users = u ∷ db.users })
  pub update_refresh :
      (db : Database) (p : RefreshToken → Bool) (f : RefreshToken → RefreshToken)
      → KeepsToken f
      → ((t : RefreshToken) → (f t).replaced_by_id ≡ t.replaced_by_id)
      → P db
      → P (record db { refresh_tokens = update p f db.refresh_tokens })
  pub insert_refresh :
      (db : Database) (t : RefreshToken)
      → any (refresh_clash t) db.refresh_tokens ≡ false
      → is_orphan t db ≡ false
      → P db
      → P (record db { refresh_tokens = t ∷ db.refresh_tokens })
  pub replace_refresh :
      (db : Database) (id replacement_id : ℕ)
      → refers (some replacement_id) db.refresh_tokens ≡ true
      → P db
      → P (RefreshTokens.assign (λ t. record t { replaced_by_id = some replacement_id }) id db)
  pub consume_auth :
      (db : Database) (p : AuthToken → Bool) (now : ℕ)
      → P db
      → P (record db { auth_tokens = update p (consumed_now now) db.auth_tokens })
  pub insert_auth :
      (db : Database) (t : AuthToken)
      → any (auth_clash t) db.auth_tokens ≡ false
      → is_none (by_id t.user_id db) ≡ false
      → P db
      → P (record db { auth_tokens = t ∷ db.auth_tokens })
