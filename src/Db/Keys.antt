-- ===== src/Db/Keys.antt =====
-- What a write to some rows leaves of the unique indexes and of the references among the rows.
use gpca_v.Prelude.{
  Bool-cases, inl, inr, ◌∙◌, ℕ, String, Bool, true, false, Option, none, some, ◌∷◌, ◌≡◌, refl, ap,
  List, arith, ◌==◌,
}
use gpca_v.Db.Models.{User, RefreshToken, AuthToken, user_clash, refresh_clash, auth_clash}
use gpca_v.Db.Table.{update, any}
use gpca_v.Db.Table.Laws.{touch, touch_keeps, any-update_same}
use gpca_v.Db.Stable.{KeepsKeys, KeepsToken}
use gpca_v.Db.RefreshTokens.{refers}
use gpca_v.Db.AuthTokens.{consumed_now}

module _ (lower : String → String) where
  user_clash-cong :
      (a b c d : User)
      → a.id ≡ c.id
      → a.email ≡ c.email
      → a.deleted_at ≡ c.deleted_at
      → b.id ≡ d.id
      → b.email ≡ d.email
      → b.deleted_at ≡ d.deleted_at
      → user_clash lower a b ≡ user_clash lower c d
  user_clash-cong a b c d ai ae ad bi be bd = rw (ai, ae, ad, bi, be, bd) refl

  pub user_clash-touch :
      (p : User → Bool) (f : User → User)
      → KeepsKeys f
      → (y z : User) → user_clash lower y z ≡ false
      → user_clash lower (touch p f y) (touch p f z) ≡ false
  user_clash-touch p f keeps y z h =
      user_clash-cong (touch p f y) (touch p f z) y z (touch_keeps (λ u. u.id) p f y (keeps y).0)
        (touch_keeps (λ u. u.email) p f y (keeps y).1)
        (touch_keeps (λ u. u.deleted_at) p f y (keeps y).2)
        (touch_keeps (λ u. u.id) p f z (keeps z).0) (touch_keeps (λ u. u.email) p f z (keeps z).1)
        (touch_keeps (λ u. u.deleted_at) p f z (keeps z).2)
      ∙ h

pub refresh_clash-touch :
    (p : RefreshToken → Bool) (f : RefreshToken → RefreshToken)
    → KeepsToken f
    → (y z : RefreshToken) → refresh_clash y z ≡ false
    → refresh_clash (touch p f y) (touch p f z) ≡ false
refresh_clash-touch p f keeps y z h =
    rw
      (
        touch_keeps (λ (t : RefreshToken). t.id) p f y (keeps y).0,
        touch_keeps (λ (t : RefreshToken). t.id) p f z (keeps z).0,
        touch_keeps (λ (t : RefreshToken). t.token_hash) p f y (keeps y).1,
        touch_keeps (λ (t : RefreshToken). t.token_hash) p f z (keeps z).1,
      )
      h

pub refers-update :
    (p : RefreshToken → Bool) (f : RefreshToken → RefreshToken) (o : Option ℕ)
    (rows : List RefreshToken)
    → KeepsToken f
    → refers o (update p f rows) ≡ refers o rows
refers-update p f none rows keeps = refl
refers-update p f (some n) rows keeps =
    any-update_same (λ t. t.id == n) p f rows (λ t. ap (λ i. i == n) (keeps t).0)

pub refers-insert :
    (t : RefreshToken) (o : Option ℕ) (rows : List RefreshToken)
    → refers o rows ≡ true
    → refers o (t ∷ rows) ≡ true
unfolding any
refers-insert t none rows h = refl
refers-insert t (some n) rows h = ground arith

pub auth_clash-touch :
    (p : AuthToken → Bool) (now : ℕ) (y z : AuthToken)
    → auth_clash y z ≡ false
    → auth_clash (touch p (consumed_now now) y) (touch p (consumed_now now) z) ≡ false
auth_clash-touch p now y z h = elim (Bool-cases (p y)) [
  | inl py ↦ elim (Bool-cases (p z)) [
    | inl pz ↦ rw (py, pz) (ground arith)
    | inr pz ↦ rw (py, pz) (ground arith)
  ]
  | inr py ↦ elim (Bool-cases (p z)) [
    | inl pz ↦ rw (py, pz) (ground arith)
    | inr pz ↦ rw (py, pz) h
  ]
]
