-- ===== src/Run/Keeps.antt =====
-- What an action keeps true of the database, whether it returns or raises: one rule for each way to
-- build an action.
use gpca_v.Prelude.{Bool-cases, inl, inr, ℕ, Bool, true, false, List, [], ◌∷◌, if◌then◌else◌}
use gpca_v.Errors.{Exn}
use gpca_v.Db.Models.{Database}
use gpca_v.Run
use gpca_v.Run.{
  World, Result, ok, err, Exec, pure, raise, gets, draw, modify, raise_if, one_or_none, ◌>>=◌,
}
use gpca_v.Run.Scope.{settle, session_scope, flush_refused}

pub record Keeps {ℓ κ} {A : Type ℓ} (P : Database → Type κ) (m : Exec A) : Type κ where
  pub at : (s : World) → P s.db → P (m s).1.db

module _ {ℓ κ} {A : Type ℓ} where
  kept_by_settle :
      (P : Database → Type κ) (before : Database) (r : Result A × World)
      → P before
      → P r.1.db
      → P (settle before r).1.db
  unfolding settle
  kept_by_settle P before (ok a, s) h h' = elim (Bool-cases (flush_refused s.db)) [
    | inl refused ↦ rw refused h
    | inr fits ↦ rw fits h'
  ]
  kept_by_settle P before (err e, s) h h' = h

module _ {ℓ κ} {A : Type ℓ} {P : Database → Type κ} where
  pub Keeps-pure : (a : A) → Keeps P (pure a)
  unfolding pure
  Keeps-pure a = record { at = λ s h. h }

  pub Keeps-raise : (e : Exn) → Keeps P (raise {A = A} e)
  unfolding raise
  Keeps-raise e = record { at = λ s h. h }

  pub Keeps-gets : (f : World → A) → Keeps P (gets f)
  unfolding gets
  Keeps-gets f = record { at = λ s h. h }

  pub Keeps-draw : (f : ℕ → A) → Keeps P (draw f)
  unfolding draw
  Keeps-draw f = record { at = λ s h. h }

  pub Keeps-if : (b : Bool) (m n : Exec A) → Keeps P m → Keeps P n → Keeps P (if b then m else n)
  Keeps-if true m n km kn = km
  Keeps-if false m n km kn = kn

  pub Keeps-session_scope : (m : Exec A) → Keeps P m → Keeps P (session_scope m)
  unfolding session_scope
  Keeps-session_scope m km = record { at = λ s h. kept_by_settle P s.db (m s) h (km.at s h) }

module _ {ℓ κ} {A : Type ℓ} {P : Database → Type κ} where
  pub Keeps-one_or_none : (rows : List A) → Keeps P (one_or_none rows)
  unfolding one_or_none
  Keeps-one_or_none [] = record { at = λ s h. h }
  Keeps-one_or_none (x ∷ []) = record { at = λ s h. h }
  Keeps-one_or_none (x ∷ y ∷ rest) = record { at = λ s h. h }

module _ {κ} {P : Database → Type κ} where
  pub Keeps-modify :
      (f : Database → Database) → ((db : Database) → P db → P (f db)) → Keeps P (modify f)
  unfolding modify
  Keeps-modify f keeps = record { at = λ s h. keeps s.db h }

  pub Keeps-raise_if : (c : Bool) (e : Exn) → Keeps P (raise_if c e)
  unfolding raise_if
  Keeps-raise_if c e = record { at = λ s h. h }

module _ {ℓ μ κ} {A : Type ℓ} {B : Type μ} {P : Database → Type κ} where
  pub Keeps-bind :
      (m : Exec A) (f : A → Exec B) → Keeps P m → ((a : A) → Keeps P (f a)) → Keeps P (m >>= f)
  unfolding ◌>>=◌
  Keeps-bind m f km kf = record { at = λ s h. next (m s) (km.at s h) }
    where
      next : (r : Result A × World) → P r.1.db → P (Run.continue f r).1.db
      next (ok a, s') h = (kf a).at s' h
      next (err e, s') h = h

pub ruleset keeps_rules = (
  Keeps-pure, Keeps-raise, Keeps-gets, Keeps-draw, Keeps-if, Keeps-one_or_none, Keeps-raise_if,
  Keeps-bind,
)
