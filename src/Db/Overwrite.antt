-- ===== src/Db/Overwrite.antt =====
-- A whole account that is written over the row of its key, as `session.merge` does.
use gpca_v.Prelude.{
  ℕ, String, Bool, true, false, List, [], ◌∷◌, ◌≡◌, refl, sym, ap, ◌∙◌, arith, ◌==◌, ==_iff,
  Bool-cases, inl, inr, is_some,
}
use gpca_v.Db.Models.{User, Database, user_clash}
use gpca_v.Db.Table.{update}
use gpca_v.Db.Table.Laws.{touch, All-map}
use gpca_v.Db.Table.Replace.{others_clash, NoClash-replace}
use gpca_v.Db.Users
use gpca_v.Db.Users.{by_id}
use gpca_v.Db.Integrity.{IsWellFormed, known-assign}
use text.Mathlib.Text.{◌==◌ as str_eq}
use text.Mathlib.TextEquality.{eq_iff}

update-touch :
    (p : User → Bool) (f : User → User) (rows : List User)
    → update p f rows ≡ update p (touch p f) rows
unfolding update
update-touch p f [] = refl
update-touch p f (u ∷ rows) = elim (Bool-cases (p u)) [
  | inl hit ↦ rw hit (ap (λ l. f u ∷ l) (update-touch p f rows))
  | inr miss ↦ rw miss (ap (λ l. u ∷ l) (update-touch p f rows))
]

pub assign_row_lem :
    (user : User) (db : Database)
    → Users.assign (λ _. user) user.id db
      ≡ Users.assign (touch (λ u. u.id == user.id) (λ _. user)) user.id db
unfolding Users.assign
assign_row_lem user db =
    ap (λ l. record db { users = l }) (update-touch (λ u. u.id == user.id) (λ _. user) db.users)

pub row_keeps_id : (user u : User) → (touch (λ v. v.id == user.id) (λ _. user) u).id ≡ u.id
row_keeps_id user u = elim (Bool-cases (u.id == user.id)) [
  | inl hit ↦ rw hit (sym ((==_iff u.id user.id).0 hit))
  | inr miss ↦ rw miss refl
]

str_eq_comm : (a b : String) → str_eq a b ≡ str_eq b a
str_eq_comm a b = elim (Bool-cases (str_eq a b)) [
  | inl same ↦ rw same (sym ((eq_iff b a).1 (sym ((eq_iff a b).0 same))))
  | inr other ↦ elim (Bool-cases (str_eq b a)) [
    | inl same ↦ absurd (ground (arith, (eq_iff a b).1 (sym ((eq_iff b a).0 same))))
    | inr other' ↦ rw (other, other') refl
  ]
]

user_clash-flip :
    (lower : String → String) (a b : User) → user_clash lower a b ≡ user_clash lower b a
user_clash-flip lower a b =
    ground (arith, str_eq_comm (lower a.email) (lower b.email), ==_iff a.id b.id, ==_iff b.id a.id)

user_clash-key :
    (lower : String → String) (n : ℕ) (y z : User)
    → (y.id == n) ≡ true
    → (z.id == n) ≡ true
    → user_clash lower y z ≡ true
user_clash-key lower n y z py pz = ground (arith, ==_iff y.id n, ==_iff z.id n)

-- The unique indexes hold afterwards if the account clashes with no other row.
pub overwrite-IsWellFormed :
    (lower : String → String) (user : User) (db : Database)
    → others_clash (user_clash lower) (λ v. v.id == user.id) user db.users ≡ false
    → IsWellFormed lower db
    → IsWellFormed lower (Users.assign (λ _. user) user.id db)
overwrite-IsWellFormed lower user db free w = record {
  users =
      unfold Users.assign in
      NoClash-replace (user_clash lower) (λ v. v.id == user.id) user db.users
        (user_clash-key lower user.id) (λ y. user_clash-flip lower y user) free w.users;
  refresh = unfold Users.assign in w.refresh;
  auth = unfold Users.assign in w.auth;
  refresh_owned =
      unfold Users.assign in
      All-map (λ t h. still_known t.user_id h) db.refresh_tokens w.refresh_owned;
  replaced = unfold Users.assign in w.replaced;
  auth_owned =
      unfold Users.assign in All-map (λ t h. still_known t.user_id h) db.auth_tokens w.auth_owned;
}
  where
    still_known :
        (n : ℕ)
        → is_some (by_id n db) ≡ true
        → is_some (by_id n (Users.assign (λ _. user) user.id db)) ≡ true
    still_known n h = rw (assign_row_lem user db) (
        known-assign (touch (λ u. u.id == user.id) (λ _. user)) n user.id db (row_keeps_id user)
        ∙ h)
