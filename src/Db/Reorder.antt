-- ===== src/Db/Reorder.antt =====
-- Two databases with the same rows in another order. PostgreSQL promises no order, and the tables of
-- the model are lists.
use mathlib.Core.List.{Permᴰ}
use mathlib.Core.Option
use gpca_v.Prelude.{
  ℕ, String, Bool, some, if◌then◌else◌, ◌∷◌, ◌≡◌, refl, sym, ap, ◌∙◌, arith, ◌==◌, ==_iff,
}
use gpca_v.Db.Models.{User, RefreshToken, AuthToken, Database, user_clash}
use gpca_v.Db.Table.{find, update}
use gpca_v.Db.Table.Laws.{touch}
use gpca_v.Db.Table.Order.{update-perm, find-perm}
use gpca_v.Db.Users
use gpca_v.Db.Users.{by_id}
use gpca_v.Db.Overwrite.{assign_row_lem, row_keeps_id}
use gpca_v.Db.Integrity.{IsWellFormed, by_id-assign}

-- each table has the same rows
pub record IsShuffle (db db' : Database) : Type 0 where
  pub users : Permᴰ db.users db'.users
  pub refresh_tokens : Permᴰ db.refresh_tokens db'.refresh_tokens
  pub auth_tokens : Permᴰ db.auth_tokens db'.auth_tokens

-- and a key finds the same account
pub record IsReordering (db db' : Database) : Type 0 where
  pub rows : IsShuffle db db'
  pub known : (n : ℕ) → by_id n db ≡ by_id n db'

pub IsShuffle-IsReordering :
    (lower : String → String) {db db' : Database}
    → IsWellFormed lower db
    → IsShuffle db db'
    → IsReordering db db'
unfolding by_id
IsShuffle-IsReordering lower {db} w h = record {
  rows = h;
  known = λ n.
      find-perm (user_clash lower) (λ u. u.id == n)
        (λ y z py pz. ground (arith, ==_iff y.id n, ==_iff z.id n)) h.users w.users;
}

module _ {db db' : Database} (h : IsReordering db db') where
  pub assign_user-IsReordering :
      (f : User → User) (user_id : ℕ)
      → ((u : User) → (f u).id ≡ u.id)
      → IsReordering (Users.assign f user_id db) (Users.assign f user_id db')
  unfolding Users.assign
  assign_user-IsReordering f user_id same = record {
    rows = record {
      users = update-perm (λ u. u.id == user_id) f h.rows.users;
      refresh_tokens = h.rows.refresh_tokens;
      auth_tokens = h.rows.auth_tokens;
    };
    known = λ n.
        by_id-assign f n user_id db same
        ∙ ap (Option.map (touch (λ u. u.id == user_id) f)) (h.known n)
        ∙ sym (by_id-assign f n user_id db' same);
  }

  -- a whole row that is written over the row of its key
  pub assign_row-IsReordering :
      (user : User)
      → IsReordering (Users.assign (λ _. user) user.id db) (Users.assign (λ _. user) user.id db')
  assign_row-IsReordering user =
      rw (assign_row_lem user db, assign_row_lem user db')
        (assign_user-IsReordering (touch (λ u. u.id == user.id) (λ _. user)) user.id
          (row_keeps_id user))

  pub insert_user-IsReordering :
      (u : User)
      → IsReordering (record db { users = u ∷ db.users }) (record db' { users = u ∷ db'.users })
  unfolding by_id find
  insert_user-IsReordering u = record {
    rows = record {
      users = Permᴰ.cons refl h.rows.users;
      refresh_tokens = h.rows.refresh_tokens;
      auth_tokens = h.rows.auth_tokens;
    };
    known = λ n. ap (λ o. if u.id == n then some u else o) (h.known n);
  }

  pub update_refresh-IsReordering :
      (p : RefreshToken → Bool) (f : RefreshToken → RefreshToken)
      → IsReordering
          (record db { refresh_tokens = update p f db.refresh_tokens })
          (record db' { refresh_tokens = update p f db'.refresh_tokens })
  unfolding by_id
  update_refresh-IsReordering p f = record {
    rows = record {
      users = h.rows.users;
      refresh_tokens = update-perm p f h.rows.refresh_tokens;
      auth_tokens = h.rows.auth_tokens;
    };
    known = h.known;
  }

  pub insert_refresh-IsReordering :
      (t : RefreshToken)
      → IsReordering
          (record db { refresh_tokens = t ∷ db.refresh_tokens })
          (record db' { refresh_tokens = t ∷ db'.refresh_tokens })
  unfolding by_id
  insert_refresh-IsReordering t = record {
    rows = record {
      users = h.rows.users;
      refresh_tokens = Permᴰ.cons refl h.rows.refresh_tokens;
      auth_tokens = h.rows.auth_tokens;
    };
    known = h.known;
  }

  pub update_auth-IsReordering :
      (p : AuthToken → Bool) (f : AuthToken → AuthToken)
      → IsReordering
          (record db { auth_tokens = update p f db.auth_tokens })
          (record db' { auth_tokens = update p f db'.auth_tokens })
  unfolding by_id
  update_auth-IsReordering p f = record {
    rows = record {
      users = h.rows.users;
      refresh_tokens = h.rows.refresh_tokens;
      auth_tokens = update-perm p f h.rows.auth_tokens;
    };
    known = h.known;
  }

  pub insert_auth-IsReordering :
      (t : AuthToken)
      → IsReordering
          (record db { auth_tokens = t ∷ db.auth_tokens })
          (record db' { auth_tokens = t ∷ db'.auth_tokens })
  unfolding by_id
  insert_auth-IsReordering t = record {
    rows = record {
      users = h.rows.users;
      refresh_tokens = h.rows.refresh_tokens;
      auth_tokens = Permᴰ.cons refl h.rows.auth_tokens;
    };
    known = h.known;
  }
