-- ===== src/Db/Users.antt =====
-- db/gpca_db/repositories/users.py
use gpca_v.Prelude.{ℕ, String, Bool, ◌&&◌, not, Option, ◌∷◌, ◌==◌, is_none}
use gpca_v.Env.{Env}
use gpca_v.Errors.{integrity_error, data_error}
use gpca_v.Run.{Exec, ok, gets, draw, modify, raise_if, one_or_none, ◌>>=◌, ◌>>◌}
use gpca_v.Db.Models.{User, Database, user_clash}
use gpca_v.Db.Table.{select, find, update, any}
use text.Mathlib.Text.{◌==◌ as str_eq}

-- the row of a primary key
unfoldable pub by_id : ℕ → Database → Option User
by_id user_id db = find (λ u. u.id == user_id) db.users

-- By primary key, including soft-deleted rows.
unfoldable pub get : ℕ → Exec (Option User)
unfolding by_id
get user_id = gets (λ s. by_id user_id s.db)

-- An assignment to a mapped object is an UPDATE of its row.
unfoldable pub assign : (User → User) → ℕ → Database → Database
assign f user_id db = record db { users = update (λ u. u.id == user_id) f db.users }

module _ (env : Env) where
  abbrev pub answers_to : String → User → Bool
  answers_to email u =
      str_eq (env.citext_lower u.email) (env.citext_lower email) && is_none u.deleted_at

  -- Live accounts only.
  unfoldable pub get_by_email : String → Exec (Option User)
  get_by_email email = do rows ← gets (λ s. select (answers_to email) s.db.users); one_or_none rows

  -- the texts of a row that an INSERT of this program can give
  abbrev pub user_storable : User → Bool
  user_storable u = env.varchar_ok 100 u.first_name && env.varchar_ok 100 u.last_name

  -- the INSERT: a text that does not fit is refused before the indexes are asked
  unfoldable pub insert : User → Exec (Unit {0})
  insert u = do
    raise_if (not (user_storable u)) data_error
    clash ← gets (λ s. any (user_clash env.citext_lower u) s.db.users)
    raise_if clash integrity_error
    modify (λ db. record db { users = u ∷ db.users })

  -- Stages a row and flushes; its key is drawn by the flush.
  unfoldable pub add : (ℕ → User) → Exec User
  add row = do id ← draw env.uuid7; insert (row id); λ s. (ok (row id), s)
