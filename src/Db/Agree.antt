-- ===== src/Db/Agree.antt =====
-- The statements of the repositories on databases with the same rows in another order.
pub mod Reads
use mathlib.Core.List.{Permᴰ}
use gpca_v.Prelude.{
  ℕ, String, Bool, Option, none, some, List, [], ◌∷◌, ◌≡◌, refl, sym, ap, ◌∙◌, is_none, ◌==◌, arith,
}
use gpca_v.Env.{Env}
use gpca_v.Errors.{multiple_results}
use gpca_v.Run.{World, Result, ok, err, Exec, pure, gets, draw, modify, one_or_none, ◌>>=◌}
use gpca_v.Run.Agrees.{
  on, Follows, Agrees, Agrees-pure, Agrees-gets, Agrees-modify, Agrees-bind, Agrees-raise_if,
  Agrees-draw, agrees_rules,
}
use gpca_v.Db.Enums.{AuthTokenPurpose}
use gpca_v.Db.Models.{
  User, RefreshToken, AuthToken, Database, user_clash, refresh_clash, auth_clash, is_live_for,
}
use gpca_v.Db.Table.{any, length, select}
use gpca_v.Db.Table.Order.{length-perm, select-perm, any-perm}
use gpca_v.Db.Reorder.{
  IsReordering, assign_user-IsReordering, assign_row-IsReordering, insert_user-IsReordering,
  update_refresh-IsReordering, insert_refresh-IsReordering, update_auth-IsReordering,
  insert_auth-IsReordering,
}
use gpca_v.Db.Users
use gpca_v.Db.Users.{by_id, answers_to, user_storable}
use gpca_v.Db.RefreshTokens
use gpca_v.Db.RefreshTokens.{refers, is_orphan, refresh_storable, revoked_now, in_family, held_by}
use gpca_v.Db.AuthTokens
use gpca_v.Db.AuthTokens.{consumed_now}
use gpca_v.Db.Agree.Reads.{IsTable, Agrees-one, Agrees-count, Agrees-any, Agrees-missing}

users-IsTable : IsTable (λ db. db.users)
users-IsTable db db' h = h.rows.users

refresh-IsTable : IsTable (λ db. db.refresh_tokens)
refresh-IsTable db db' h = h.rows.refresh_tokens

auth-IsTable : IsTable (λ db. db.auth_tokens)
auth-IsTable db db' h = h.rows.auth_tokens

pub Users_get-Agrees : (user_id : ℕ) → Agrees (Users.get user_id)
unfolding Users.get
Users_get-Agrees user_id = Agrees-gets _ λ s db h. sym (h.known user_id)

pub assign_user-Agrees :
    (f : User → User) (user_id : ℕ)
    → ((u : User) → (f u).id ≡ u.id)
    → Agrees (modify (Users.assign f user_id))
assign_user-Agrees f user_id same =
    Agrees-modify _ λ db db' h. assign_user-IsReordering h f user_id same

pub assign_row-Agrees : (user : User) → Agrees (modify (Users.assign (λ _. user) user.id))
assign_row-Agrees user = Agrees-modify _ λ db db' h. assign_row-IsReordering h user

pub get_refresh-Agrees : (token_hash : ℕ) → Agrees (RefreshTokens.get_by_hash token_hash)
unfolding RefreshTokens.get_by_hash
get_refresh-Agrees token_hash =
    Agrees-one (λ t. t.token_hash == token_hash) (λ db. db.refresh_tokens) refresh-IsTable

pub assign_refresh-Agrees :
    (f : RefreshToken → RefreshToken) (id : ℕ) → Agrees (modify (RefreshTokens.assign f id))
unfolding RefreshTokens.assign
assign_refresh-Agrees f id =
    Agrees-modify _ λ db db' h. update_refresh-IsReordering h (λ t. t.id == id) f

refers-perm : (o : Option ℕ) {a b : List RefreshToken} → Permᴰ a b → refers o a ≡ refers o b
refers-perm none h = refl
refers-perm (some n) h = any-perm (λ t. t.id == n) h

pub set_replaced_by-Agrees :
    (id replacement_id : ℕ) → Agrees (RefreshTokens.set_replaced_by id replacement_id)
unfolding RefreshTokens.set_replaced_by
set_replaced_by-Agrees id n =
    Agrees-bind _ _ (Agrees-gets _ λ s db h. sym (refers-perm (some n) h.rows.refresh_tokens))
      λ known. Agrees-bind _ _ (search agrees_rules) λ _. assign_refresh-Agrees _ id

is_orphan-Agrees : (t : RefreshToken) → Agrees (gets (λ s. is_orphan t s.db))
is_orphan-Agrees t = Agrees-gets _ λ s db h.
    rw
      (
        refers-perm t.replaced_by_id (Permᴰ.cons {a = t} {b = t} refl h.rows.refresh_tokens),
        h.known t.user_id,
      )
      refl

revoke_where-Agrees :
    (p : RefreshToken → Bool) (now : ℕ) → Agrees (modify (RefreshTokens.revoke_where p now))
unfolding RefreshTokens.revoke_where
revoke_where-Agrees p now =
    Agrees-modify _ λ db db' h. update_refresh-IsReordering h p (revoked_now now)

pub get_auth-Agrees : (token_hash : ℕ) → Agrees (AuthTokens.get_by_hash token_hash)
unfolding AuthTokens.get_by_hash
get_auth-Agrees token_hash =
    Agrees-one (λ t. t.token_hash == token_hash) (λ db. db.auth_tokens) auth-IsTable

pub consume_auth-Agrees : (now id : ℕ) → Agrees (modify (AuthTokens.assign (consumed_now now) id))
unfolding AuthTokens.assign
consume_auth-Agrees now id =
    Agrees-modify _ λ db db' h. update_auth-IsReordering h (λ t. t.id == id) (consumed_now now)

consume_where-Agrees :
    (p : AuthToken → Bool) (now : ℕ) → Agrees (modify (AuthTokens.consume_where p now))
unfolding AuthTokens.consume_where
consume_where-Agrees p now =
    Agrees-modify _ λ db db' h. update_auth-IsReordering h p (consumed_now now)

ruleset statement_rules = (agrees_rules, Agrees-missing, revoke_where-Agrees, consume_where-Agrees)

module _ (env : Env) where
  pub get_by_email-Agrees : (email : String) → Agrees (Users.get_by_email env email)
  unfolding Users.get_by_email
  get_by_email-Agrees email = Agrees-one (answers_to env email) (λ db. db.users) users-IsTable

  pub insert_user-Agrees : (u : User) → Agrees (Users.insert env u)
  unfolding Users.insert
  insert_user-Agrees u = Agrees-bind _ _ (search agrees_rules) λ _.
      Agrees-bind _ _ (Agrees-any (user_clash env.citext_lower u) (λ db. db.users) users-IsTable)
        λ clash.
          Agrees-bind _ _ (search agrees_rules)
            λ _. Agrees-modify _ λ db db' h. insert_user-IsReordering h u

  pub add_user-Agrees : (row : ℕ → User) → Agrees (Users.add env row)
  unfolding Users.add pure
  add_user-Agrees row =
      Agrees-bind _ _ (search agrees_rules)
        λ id. Agrees-bind _ _ (insert_user-Agrees (row id)) λ _. Agrees-pure (row id)

  pub revoke_family-Agrees : (family_id : ℕ) → Agrees (RefreshTokens.revoke_family env family_id)
  unfolding RefreshTokens.revoke_family
  revoke_family-Agrees family_id = Agrees-bind _ _ (search agrees_rules) λ now.
      Agrees-count (in_family family_id) (λ db. db.refresh_tokens) refresh-IsTable
        (λ n. modify (RefreshTokens.revoke_where (in_family family_id) now) >>= λ _. pure n)
        (λ n. search statement_rules)

  pub revoke_all_for_user-Agrees :
      (user_id : ℕ) → Agrees (RefreshTokens.revoke_all_for_user env user_id)
  unfolding RefreshTokens.revoke_all_for_user
  revoke_all_for_user-Agrees user_id = Agrees-bind _ _ (search agrees_rules) λ now.
      Agrees-count (held_by user_id) (λ db. db.refresh_tokens) refresh-IsTable
        (λ n. modify (RefreshTokens.revoke_where (held_by user_id) now) >>= λ _. pure n)
        (λ n. search statement_rules)

  insert_refresh-Agrees : (t : RefreshToken) → Agrees (RefreshTokens.insert env t)
  unfolding RefreshTokens.insert
  insert_refresh-Agrees t = Agrees-bind _ _ (search agrees_rules) λ _.
      Agrees-bind _ _ (Agrees-any (refresh_clash t) (λ db. db.refresh_tokens) refresh-IsTable)
        λ clash. Agrees-bind _ _ (search agrees_rules) λ _.
          Agrees-bind _ _ (is_orphan-Agrees t) λ orphan.
            Agrees-bind _ _ (search agrees_rules)
              λ _. Agrees-modify _ λ db db' h. insert_refresh-IsReordering h t

  family_or_new-Agrees : (family : Option ℕ) → Agrees (RefreshTokens.family_or_new env family)
  unfolding RefreshTokens.family_or_new
  family_or_new-Agrees none = search agrees_rules
  family_or_new-Agrees (some family_id) = search agrees_rules

  pub add_refresh-Agrees :
      (family : Option ℕ) (row : ℕ → ℕ → RefreshToken) → Agrees (RefreshTokens.add env family row)
  unfolding RefreshTokens.add
  add_refresh-Agrees family row = search (agrees_rules, insert_refresh-Agrees, family_or_new-Agrees)

  pub consume_outstanding-Agrees :
      (user_id : ℕ) (purpose : AuthTokenPurpose)
      → Agrees (AuthTokens.consume_outstanding env user_id purpose)
  unfolding AuthTokens.consume_outstanding
  consume_outstanding-Agrees user_id purpose =
      Agrees-count (is_live_for user_id purpose) (λ db. db.auth_tokens) auth-IsTable
        (λ n. draw env.clock >>= λ now.
          modify (AuthTokens.consume_where (is_live_for user_id purpose) now) >>= λ _. pure n)
        (λ n. search statement_rules)

  insert_auth-Agrees : (t : AuthToken) → Agrees (AuthTokens.insert env t)
  unfolding AuthTokens.insert
  insert_auth-Agrees t =
      Agrees-bind _ _ (Agrees-any (auth_clash t) (λ db. db.auth_tokens) auth-IsTable) λ clash.
        Agrees-bind _ _ (search agrees_rules) λ _.
          Agrees-bind _ _ (Agrees-missing t.user_id) λ orphan.
            Agrees-bind _ _ (search agrees_rules)
              λ _. Agrees-modify _ λ db db' h. insert_auth-IsReordering h t

  pub add_auth-Agrees : (row : ℕ → AuthToken) → Agrees (AuthTokens.add env row)
  unfolding AuthTokens.add
  add_auth-Agrees row = search (agrees_rules, insert_auth-Agrees)

pub ruleset repository_agrees = (
  agrees_rules, Users_get-Agrees, get_by_email-Agrees, add_user-Agrees, get_refresh-Agrees,
  revoke_family-Agrees, revoke_all_for_user-Agrees, add_refresh-Agrees, get_auth-Agrees,
  consume_auth-Agrees, consume_outstanding-Agrees, add_auth-Agrees,
)
