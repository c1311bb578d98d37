-- ===== src/Db/Table/Order.antt =====
-- A table without the order of its rows: what the statements make of two tables with the same rows.
use mathlib.Core.List.{Permᴰ}
use mathlib.Core.List.Permᴰ
use gpca_v.Prelude.{
  suc, Bool, true, false, Option, none, some, List, [], ◌∷◌, ◌≡◌, ◌≤◌, refl, sym, ap, ◌∙◌, arith,
  if◌then◌else◌,
}
use gpca_v.Db.Table.{length, select, find, update, any, NoClash}
use gpca_v.Db.Table.Unique.{at_most_one, select_unique}

module _ {ℓ} {A : Type ℓ} where
  pub length-perm : {a b : List A} → Permᴰ a b → length a ≡ length b
  length-perm Permᴰ.nil = refl
  length-perm (Permᴰ.cons _ h) = ap suc (length-perm h)
  length-perm (Permᴰ.swap _ _) = refl
  length-perm (Permᴰ.trans h k) = length-perm h ∙ length-perm k

  kept :
      (b : Bool) {x y : A} {r r' : List A}
      → x ≡ y
      → Permᴰ r r'
      → Permᴰ (if b then x ∷ r else r) (if b then y ∷ r' else r')
  kept true e h = Permᴰ.cons e h
  kept false e h = h

  exchanged :
      (b c : Bool) {x y x' y' : A} (r : List A)
      → x ≡ y'
      → y ≡ x'
      → Permᴰ
          (if b then x ∷ (if c then y ∷ r else r) else if c then y ∷ r else r)
          (if c then x' ∷ (if b then y' ∷ r else r) else if b then y' ∷ r else r)
  exchanged true true r e f = Permᴰ.swap e f
  exchanged true false r e f = Permᴰ.cons e (Permᴰ.refl r)
  exchanged false true r e f = Permᴰ.cons f (Permᴰ.refl r)
  exchanged false false r e f = Permᴰ.refl r

  module _ (p : A → Bool) where
    pub select-perm : {a b : List A} → Permᴰ a b → Permᴰ (select p a) (select p b)
    unfolding select
    select-perm Permᴰ.nil = Permᴰ.nil
    select-perm (Permᴰ.cons {b = y} e h) = rw (ap p e) (kept (p y) e (select-perm h))
    select-perm (Permᴰ.swap {a' = x'} {b' = y'} {l = l} e f) =
        rw (ap p e, ap p f) (exchanged (p y') (p x') (select p l) e f)
    select-perm (Permᴰ.trans h k) = Permᴰ.trans (select-perm h) (select-perm k)

    pub any-perm : {a b : List A} → Permᴰ a b → any p a ≡ any p b
    unfolding any
    any-perm Permᴰ.nil = refl
    any-perm (Permᴰ.cons e h) = rw (ap p e, any-perm h) refl
    any-perm (Permᴰ.swap e f) = rw (ap p e, ap p f) (ground arith)
    any-perm (Permᴰ.trans h k) = any-perm h ∙ any-perm k

    pub update-perm : (f : A → A) {a b : List A} → Permᴰ a b → Permᴰ (update p f a) (update p f b)
    unfolding update
    update-perm f Permᴰ.nil = Permᴰ.nil
    update-perm f (Permᴰ.cons e h) =
        Permᴰ.cons (ap (λ x. if p x then f x else x) e) (update-perm f h)
    update-perm f (Permᴰ.swap {l = l} e e') =
        Permᴰ.swap (ap (λ x. if p x then f x else x) e) (ap (λ x. if p x then f x else x) e')
    update-perm f (Permᴰ.trans h k) = Permᴰ.trans (update-perm f h) (update-perm f k)

  abbrev head : List A → Option A
  head [] = none
  head (x ∷ rest) = some x

  head-perm : {a b : List A} → Permᴰ a b → length a ≤ 1 → head a ≡ head b
  head-perm Permᴰ.nil h = refl
  head-perm (Permᴰ.cons e _) h = ap some e
  head-perm (Permᴰ.swap _ _) h = absurd (omega arith)
  head-perm (Permᴰ.trans p q) h = head-perm p h ∙ head-perm q (rw⁻¹ (length-perm p) h)

  find-head : (p : A → Bool) (rows : List A) → find p rows ≡ head (select p rows)
  unfolding find select
  find-head p [] = refl
  find-head p (x ∷ rows) = ground (arith, find-head p rows)

  one_at_most : (o : Option A) → length (at_most_one o) ≤ 1
  one_at_most none = omega arith
  one_at_most (some x) = omega arith

  -- a search by a unique key finds the same row in every order
  pub find-perm :
      (clash : A → A → Bool) (p : A → Bool)
      → ((y z : A) → p y ≡ true → p z ≡ true → clash y z ≡ true)
      → {a b : List A} → Permᴰ a b
      → NoClash clash a
      → find p a ≡ find p b
  find-perm clash p key {a} {b} h n =
      find-head p a
      ∙ head-perm (select-perm p h) (rw (select_unique clash p a key n) (one_at_most (find p a)))
      ∙ sym (find-head p b)
