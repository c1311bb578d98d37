-- ===== src/Run.antt =====
-- A request as state and exceptions: the session's view of the database, the readings taken from
-- outside, the queue of emails on `g` and the emails handed to `send_email`. What was written
-- before a raise stays written, until `session_scope` rolls it back.
pub mod Scope
pub mod Keeps
pub mod Returns
pub mod Laws
pub mod Agrees
use gpca_v.Prelude.{
  ℕ, zero, suc, Bool, true, false, String, Option, none, some, List, [], ◌∷◌, if◌then◌else◌,
}
use gpca_v.Errors.{Exn, multiple_results}
use gpca_v.Db.Models.{Database}

-- the arguments of `send_email`, the context's two keys taken apart
pub record Email : Type 0 where
  pub to : String
  pub template : String
  pub first_name : String
  pub token : Option String

pub record World : Type 0 where
  pub db : Database
  pub draws : ℕ
  pub pending : List Email
  pub sent : List Email

-- the number of the reading that comes after `k` more
abbrev pub reading : ℕ → World → ℕ
reading zero s = s.draws
reading (suc k) s = suc (reading k s)

-- the world after `k` more readings
abbrev pub advanced : ℕ → World → World
advanced k s = record s { draws = reading k s }

pub data Result {ℓ} (A : Type ℓ) : Type ℓ where
  ok : A → Result A
  err : Exn → Result A

abbrev pub Exec {ℓ} : Type ℓ → Type ℓ
Exec A = World → Result A × World

module _ {ℓ} {A : Type ℓ} where
  unfoldable pub pure : A → Exec A
  pure a s = (ok a, s)

  unfoldable pub raise : Exn → Exec A
  raise e s = (err e, s)

  unfoldable pub gets : (World → A) → Exec A
  gets f s = (ok (f s), s)

  -- one reading from outside, which differs from every later one
  unfoldable pub draw : (ℕ → A) → Exec A
  draw f s = (ok (f s.draws), record s { draws = suc s.draws })

-- SQLAlchemy's `one_or_none()`
unfoldable pub one_or_none {ℓ} : {A : Type ℓ} → List A → Exec (Option A)
unfolding pure raise
one_or_none [] = pure none
one_or_none (x ∷ []) = pure (some x)
one_or_none (x ∷ y ∷ _) = raise multiple_results

-- an UPDATE of the session's tables
unfoldable pub modify : (Database → Database) → Exec (Unit {0})
modify f s = (ok tt, record s { db = f s.db })

unfoldable pub raise_if : Bool → Exn → Exec (Unit {0})
raise_if c e s = (if c then err e else ok tt, s)

module _ {ℓ κ} {A : Type ℓ} {B : Type κ} where
  abbrev pub continue : (A → Exec B) → Result A × World → Result B × World
  continue f (ok a, s) = f a s
  continue f (err e, s) = (err e, s)

  infixl 5 ◌>>=◌
  -- opening this opens every action above
  unfoldable pub ◌>>=◌ : Exec A → (A → Exec B) → Exec B
  unfolding pure raise gets draw modify raise_if one_or_none
  ◌>>=◌ m f s = continue f (m s)

infixl 5 ◌>>◌
abbrev pub ◌>>◌ {ℓ κ} : {A : Type ℓ} {B : Type κ} → Exec A → Exec B → Exec B
m >> k = m >>= λ _. k
