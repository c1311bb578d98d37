-- ===== src/Db/Table.antt =====
-- A table as the list of its rows, and the statements that the repositories build on it. A unique
-- index is a test `clash` on two rows; an INSERT that clashes with a stored row is refused.
pub mod Laws
pub mod Unique
pub mod Order
pub mod Replace
use gpca_v.Prelude.{
  ℕ, suc, Bool, true, false, ◌||◌, Option, none, some, List, [], ◌∷◌, ◌≡◌, if◌then◌else◌,
}

abbrev pub length {ℓ} : {A : Type ℓ} → List A → ℕ
length [] = 0
length (x ∷ xs) = suc (length xs)

module _ {ℓ} {A : Type ℓ} where
  -- `SELECT ... WHERE p`, in the order of the table
  unfoldable pub select : (A → Bool) → List A → List A
  select p [] = []
  select p (x ∷ rows) = if p x then x ∷ select p rows else select p rows

  -- the first row that meets `p`
  unfoldable pub find : (A → Bool) → List A → Option A
  find p [] = none
  find p (x ∷ rows) = if p x then some x else find p rows

  -- `UPDATE ... SET f WHERE p`
  unfoldable pub update : (A → Bool) → (A → A) → List A → List A
  update p f [] = []
  update p f (x ∷ rows) = (if p x then f x else x) ∷ update p f rows

  unfoldable pub any : (A → Bool) → List A → Bool
  any p [] = false
  any p (x ∷ rows) = p x || any p rows

  abbrev pub All {κ} : (A → Type κ) → List A → Type κ
  All P [] = Unit
  All P (x ∷ rows) = P x × All P rows

  -- No two rows stand in conflict: what a table's unique indexes enforce.
  abbrev pub NoClash : (A → A → Bool) → List A → Type 0
  NoClash clash [] = Unit
  NoClash clash (x ∷ rows) = All (λ y. clash x y ≡ false) rows × NoClash clash rows
