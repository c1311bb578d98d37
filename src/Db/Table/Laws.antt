-- ===== src/Db/Table/Laws.antt =====
-- Rows that are selected, found and updated.
use mathlib.Core.Option
use gpca_v.Prelude.{
  is_none, Bool, true, false, none, some, List, [], ◌∷◌, ◌≡◌, refl, arith, if◌then◌else◌,
  Bool-cases, inl, inr,
}
use gpca_v.Db.Table.{select, find, update, any, All}

module _ {ℓ} {A : Type ℓ} where
  -- what `update p f` does to one row
  abbrev pub touch : (A → Bool) → (A → A) → A → A
  touch p f x = if p x then f x else x

  pub touch_keeps {κ} :
      {B : Type κ} (g : A → B) (p : A → Bool) (f : A → A) (x : A)
      → g (f x) ≡ g x
      → g (touch p f x) ≡ g x
  touch_keeps g p f x same = elim (Bool-cases (p x)) [ inl e ↦ rw e same | inr e ↦ rw e refl ]

  pub find-holds : (p : A → Bool) (rows : List A) {x : A} → find p rows ≡ some x → p x ≡ true
  unfolding find
  find-holds p [] h = cc
  find-holds p (y ∷ rows) h = elim (Bool-cases (p y)) [
    | inl e ↦ ground arith
    | inr e ↦ find-holds p rows (rw e at h)
  ]

  -- what holds of no row does not hold of the row that is found
  pub find-any :
      (p q : A → Bool) (rows : List A) {x : A}
      → find p rows ≡ some x
      → any q rows ≡ false
      → q x ≡ false
  unfolding find any
  find-any p q [] h n = cc
  find-any p q (y ∷ rows) h n = elim (Bool-cases (p y)) [
    | inl e ↦ ground arith
    | inr e ↦ find-any p q rows (rw e at h) (ground arith)
  ]

  -- where a row meets `q`, a search by `q` finds one
  pub find-other :
      (p q : A → Bool) (rows : List A) {x : A}
      → find p rows ≡ some x
      → q x ≡ true
      → is_none (find q rows) ≡ false
  unfolding find
  find-other p q [] h k = cc
  find-other p q (y ∷ rows) h k = elim (Bool-cases (p y)) [
    | inl e ↦ ground arith
    | inr e ↦ elim (Bool-cases (q y)) [
      | inl f ↦ rw f refl
      | inr f ↦ rw f (find-other p q rows (rw e at h) k)
    ]
  ]

  -- An update that leaves the search key of every row alone moves no row.
  pub find-update :
      (k p : A → Bool) (f : A → A) (rows : List A)
      → ((x : A) → k (f x) ≡ k x)
      → find k (update p f rows) ≡ Option.map (touch p f) (find k rows)
  unfolding find update
  find-update k p f [] keeps = refl
  find-update k p f (x ∷ rows) keeps = ground (arith, keeps x, find-update k p f rows keeps)

  -- When the update unsets what it looks for, none is left.
  pub any-update_unset :
      (q p : A → Bool) (f : A → A) (rows : List A)
      → ((x : A) → q x ≡ true → p x ≡ true)
      → ((x : A) → q (f x) ≡ false)
      → any q (update p f rows) ≡ false
  unfolding any update
  any-update_unset q p f [] covers unsets = refl
  any-update_unset q p f (x ∷ rows) covers unsets =
      ground (arith, covers x, unsets x, any-update_unset q p f rows covers unsets)

  -- An update changes nothing about what it does not read.
  pub any-update_same :
      (q p : A → Bool) (f : A → A) (rows : List A)
      → ((x : A) → q (f x) ≡ q x)
      → any q (update p f rows) ≡ any q rows
  unfolding any update
  any-update_same q p f [] same = refl
  any-update_same q p f (x ∷ rows) same = ground (arith, same x, any-update_same q p f rows same)

  -- If no row meets any of three conditions, none meets what they imply.
  pub any-three :
      (a b c r : A → Bool) (rows : List A)
      → ((x : A) → a x ≡ false → b x ≡ false → c x ≡ false → r x ≡ false)
      → any a rows ≡ false
      → any b rows ≡ false
      → any c rows ≡ false
      → any r rows ≡ false
  unfolding any
  any-three a b c r [] cover ha hb hc = refl
  any-three a b c r (x ∷ rows) cover ha hb hc =
      ground (arith, cover x, any-three a b c r rows cover)

  pub select-none : (p : A → Bool) (rows : List A) → any p rows ≡ false → select p rows ≡ []
  unfolding any select
  select-none p [] h = refl
  select-none p (x ∷ rows) h = ground (arith, select-none p rows)

  pub find-none : (p : A → Bool) (rows : List A) → any p rows ≡ false → find p rows ≡ none
  unfolding any find
  find-none p [] h = refl
  find-none p (x ∷ rows) h = ground (arith, find-none p rows)

  pub All-map {κ μ} :
      {P : A → Type κ} {Q : A → Type μ} (f : (x : A) → P x → Q x) (rows : List A)
      → All P rows
      → All Q rows
  All-map f [] h = tt
  All-map f (x ∷ rows) h = (f x h.0, All-map f rows h.1)

  pub All-update_touch {κ} :
      {P : A → Type κ} (p : A → Bool) (f : A → A) (rows : List A)
      → ((x : A) → P x → P (f x))
      → All P rows
      → All P (update p f rows)
  unfolding update
  All-update_touch p f [] keeps h = tt
  All-update_touch {P} p f (x ∷ rows) keeps h = (touched (p x), All-update_touch p f rows keeps h.1)
    where
      touched : (b : Bool) → P (if b then f x else x)
      touched true = keeps x h.0
      touched false = h.0
