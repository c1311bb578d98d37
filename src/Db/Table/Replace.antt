-- ===== src/Db/Table/Replace.antt =====
-- A row that is written over the row of its key, after a test that it clashes with no other row.
use gpca_v.Prelude.{
  Bool, true, false, not, ◌&&◌, List, [], ◌∷◌, ◌≡◌, ◌∙◌, arith, Bool-cases, inl, inr,
}
use gpca_v.Db.Table.{update, any, All, NoClash}

module _ {ℓ} {A : Type ℓ} (clash : A → A → Bool) (p : A → Bool) (new : A) where
  -- the test
  abbrev pub others_clash : List A → Bool
  others_clash = any (λ v. not (p v) && clash new v)

  -- The rows after the one that is replaced have other keys.
  All-new :
      (x : A) (rows : List A)
      → ((y : A) → p y ≡ true → clash x y ≡ true)
      → All (λ y. clash x y ≡ false) rows
      → others_clash rows ≡ false
      → All (λ y. clash new y ≡ false) (update p (λ _. new) rows)
  unfolding update any
  All-new x [] key h free = tt
  All-new x (y ∷ rows) key h free = elim (Bool-cases (p y)) [
    | inl same ↦ absurd (ground (arith, key y same, h.0))
    | inr other ↦ rw other (ground arith, All-new x rows key h.1 (ground arith))
  ]

  -- The rows after another one do not clash with it, before and after.
  All-kept :
      (x : A) (rows : List A)
      → clash x new ≡ false
      → All (λ y. clash x y ≡ false) rows
      → All (λ y. clash x y ≡ false) (update p (λ _. new) rows)
  unfolding update
  All-kept x [] h k = tt
  All-kept x (y ∷ rows) h k = elim (Bool-cases (p y)) [
    | inl same ↦ rw same (h, All-kept x rows h k.1)
    | inr other ↦ rw other (k.0, All-kept x rows h k.1)
  ]

  pub NoClash-replace :
      (rows : List A)
      → ((y z : A) → p y ≡ true → p z ≡ true → clash y z ≡ true)
      → ((y : A) → clash y new ≡ clash new y)
      → others_clash rows ≡ false
      → NoClash clash rows
      → NoClash clash (update p (λ _. new) rows)
  unfolding update any
  NoClash-replace [] key flip free n = tt
  NoClash-replace (x ∷ rows) key flip free n = elim (Bool-cases (p x)) [
    | inl same ↦ rw same (
      All-new x rows (λ y. key x y same) n.0 (ground arith),
      NoClash-replace rows key flip (ground arith) n.1,
    )
    | inr other ↦ rw other (
      All-kept x rows (flip x ∙ ground arith) n.0,
      NoClash-replace rows key flip (ground arith) n.1,
    )
  ]
