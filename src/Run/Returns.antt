-- ===== src/Run/Returns.antt =====
-- What holds of every value that an action returns, whatever it meets; what it raises is left open.
use gpca_v.Prelude.{Bool, true, false, if◌then◌else◌}
use gpca_v.Errors.{Exn}
use gpca_v.Run.{World, Result, ok, err, Exec, pure, raise, ◌>>=◌, continue}

abbrev pub Good {ℓ κ} : {A : Type ℓ} → (A → Type κ) → Result A → Type κ
Good P (ok a) = P a
Good P (err e) = Unit

pub record Returns {ℓ κ} {A : Type ℓ} (P : A → Type κ) (m : Exec A) : Type (ℓ ⊔ κ) where
  pub at : (s : World) → Good P (m s).0

module _ {ℓ κ} {A : Type ℓ} {P : A → Type κ} where
  pub Returns-pure : (a : A) → P a → Returns P (pure a)
  unfolding pure
  Returns-pure a h = record { at = λ s. h }

  pub Returns-raise : (e : Exn) → Returns P (raise {A = A} e)
  unfolding raise
  Returns-raise e = record { at = λ s. tt }

  pub Returns-if :
      (b : Bool) (m n : Exec A) → Returns P m → Returns P n → Returns P (if b then m else n)
  Returns-if true m n hm hn = hm
  Returns-if false m n hm hn = hn

module _ {ℓ κ μ} {A : Type ℓ} {B : Type κ} {P : B → Type μ} where
  continued :
      (f : A → Exec B)
      → ((a : A) → Returns P (f a))
      → (r : Result A × World) → Good P (continue f r).0
  continued f h (ok a, s) = (h a).at s
  continued f h (err e, s) = tt

  pub Returns-bind :
      (m : Exec A) (f : A → Exec B) → ((a : A) → Returns P (f a)) → Returns P (m >>= f)
  unfolding ◌>>=◌
  Returns-bind m f h = record { at = λ s. continued f h (m s) }

pub ruleset returns_rules = (Returns-pure, Returns-raise, Returns-if, Returns-bind)
