-- ===== src/Db/Table/Unique.antt =====
-- Unique indexes: INSERT and UPDATE keep them, and a search by an indexed key finds one row at most.
use gpca_v.Prelude.{
  Bool, true, false, Option, none, some, List, [], ◌∷◌, ◌≡◌, refl, arith, Bool-cases, inl, inr,
}
use gpca_v.Db.Table.{select, find, update, any, All, NoClash}
use gpca_v.Db.Table.Laws.{touch}

-- a search result of at most one row, as a list
abbrev pub at_most_one {ℓ} : {A : Type ℓ} → Option A → List A
at_most_one none = []
at_most_one (some x) = x ∷ []

module _ {ℓ} {A : Type ℓ} where
  pub All-any-false :
      (clash : A → A → Bool) (x : A) (rows : List A)
      → any (clash x) rows ≡ false
      → All (λ y. clash x y ≡ false) rows
  unfolding any
  All-any-false clash x [] h = tt
  All-any-false clash x (y ∷ rows) h = ground (arith, All-any-false clash x rows)

  pub NoClash-insert :
      (clash : A → A → Bool) (x : A) (rows : List A)
      → any (clash x) rows ≡ false
      → NoClash clash rows
      → NoClash clash (x ∷ rows)
  NoClash-insert clash x rows h n = (All-any-false clash x rows h, n)

  -- none of the rows after `x` meets a condition under which two rows clash
  All-select_nil :
      (clash : A → A → Bool) (p : A → Bool) (x : A) (rows : List A)
      → ((y z : A) → p y ≡ true → p z ≡ true → clash y z ≡ true)
      → p x ≡ true
      → All (λ y. clash x y ≡ false) rows
      → select p rows ≡ []
  unfolding select
  All-select_nil clash p x [] key px h = refl
  All-select_nil clash p x (y ∷ rows) key px h =
      ground (arith, key x y px, All-select_nil clash p x rows key px h.1)

  -- A search by a unique key returns the first match and no other.
  pub select_unique :
      (clash : A → A → Bool) (p : A → Bool) (rows : List A)
      → ((y z : A) → p y ≡ true → p z ≡ true → clash y z ≡ true)
      → NoClash clash rows
      → select p rows ≡ at_most_one (find p rows)
  unfolding select find
  select_unique clash p [] key n = refl
  select_unique clash p (x ∷ rows) key n = ground (
    arith,
    λ (px : p x ≡ true). All-select_nil clash p x rows key px n.0,
    select_unique clash p rows key n.1,
  )

  -- An update that makes no two rows clash that did not clash before keeps the index.
  All-update :
      (clash : A → A → Bool) (p : A → Bool) (f : A → A) (x : A) (rows : List A)
      → ((y z : A) → clash y z ≡ false → clash (touch p f y) (touch p f z) ≡ false)
      → All (λ y. clash x y ≡ false) rows
      → All (λ y. clash (touch p f x) y ≡ false) (update p f rows)
  unfolding update
  All-update clash p f x [] mono h = tt
  All-update clash p f x (y ∷ rows) mono h = (mono x y h.0, All-update clash p f x rows mono h.1)

  pub NoClash-update :
      (clash : A → A → Bool) (p : A → Bool) (f : A → A) (rows : List A)
      → ((y z : A) → clash y z ≡ false → clash (touch p f y) (touch p f z) ≡ false)
      → NoClash clash rows
      → NoClash clash (update p f rows)
  unfolding update
  NoClash-update clash p f [] mono n = tt
  NoClash-update clash p f (x ∷ rows) mono n =
      (All-update clash p f x rows mono n.0, NoClash-update clash p f rows mono n.1)

  find-clear :
      (r q : A → Bool) (rows : List A) {y : A}
      → All (λ z. r z ≡ false) rows
      → find q rows ≡ some y
      → r y ≡ false
  unfolding find
  find-clear r q [] h f = cc
  find-clear r q (x ∷ rows) h f = elim (Bool-cases (q x)) [
    | inl e ↦ ground (arith, h.0)
    | inr e ↦ find-clear r q rows h.1 (rw e at f)
  ]

  -- Two searches that find rows which clash have found the same row.
  pub find_clash :
      (clash : A → A → Bool) (p q : A → Bool) (rows : List A) {x y : A}
      → NoClash clash rows
      → find p rows ≡ some x
      → find q rows ≡ some y
      → clash x y ≡ true
      → clash y x ≡ true
      → some x ≡ some y
  unfolding find
  find_clash clash p q [] n f g c d = cc
  find_clash clash p q (z ∷ rows) {x} {y} n f g c d = elim (Bool-cases (p z)) [
    | inl e ↦ elim (Bool-cases (q z)) [
      | inl k ↦ ground arith
      | inr k ↦ ground (arith, find-clear (clash z) q rows n.0 (rw k at g))
    ]
    | inr e ↦ elim (Bool-cases (q z)) [
      | inl k ↦ ground (arith, find-clear (clash z) p rows n.0 (rw e at f))
      | inr k ↦ find_clash clash p q rows n.1 (rw e at f) (rw k at g) c d
    ]
  ]
