-- ===== src/Prelude/TextOrder.antt =====
-- The order of texts, by code points from the left: Python's `<` on `str`.
use Prim.Native.Char.{code}
use Prim.Native.String.{String, [], ◌∷◌, compare, then}
use Prim.Native.String.compare
use Prim.Native.Nat.{ℕ, Ordering, compare as compare_ℕ}
use Prim.Native.Nat.Ordering.{lt, eq, gt}
use mathlib.Core.Path.{◌≡◌, refl, sym, ◌∙◌}
use native.Mathlib.Omega.{arith}

abbrev pub flip : Ordering → Ordering
flip lt = gt
flip eq = eq
flip gt = lt

flip_ℕ : (a b : ℕ) → compare_ℕ b a ≡ flip (compare_ℕ a b)
flip_ℕ a b = ground arith

trans_ℕ : (a b c : ℕ) → compare_ℕ a b ≡ lt → compare_ℕ b c ≡ lt → compare_ℕ a c ≡ lt
trans_ℕ a b c h k = ground arith

then-flip : (x y : Ordering) → then (flip x) (flip y) ≡ flip (then x y)
then-flip lt y = refl
then-flip eq y = refl
then-flip gt y = refl

pub compare-flip : (s t : String) → compare t s ≡ flip (compare s t)
compare-flip [] [] = refl
compare-flip [] (d ∷ t) = rw (compare.cons-nil d t, compare.nil-cons d t) refl
compare-flip (c ∷ s) [] = rw (compare.cons-nil c s, compare.nil-cons c s) refl
compare-flip (c ∷ s) (d ∷ t) =
    rw
      (
        compare.cons-cons d c t s,
        compare.cons-cons c d s t,
        flip_ℕ (code c) (code d),
        compare-flip s t,
      )
      (then-flip (compare_ℕ (code c) (code d)) (compare s t))

-- a step of a lexicographic comparison
then_trans :
    (a b c : ℕ) (x y z : Ordering)
    → (x ≡ lt → y ≡ lt → z ≡ lt)
    → then (compare_ℕ a b) x ≡ lt
    → then (compare_ℕ b c) y ≡ lt
    → then (compare_ℕ a c) z ≡ lt
then_trans a b c x y z next h k = ground arith

pub compare_trans : (s t u : String) → compare s t ≡ lt → compare t u ≡ lt → compare s u ≡ lt
compare_trans [] t (e ∷ u) h k = compare.nil-cons e u
compare_trans [] [] [] h k = h
compare_trans [] (d ∷ t) [] h k = cc (compare.cons-nil d t)
compare_trans (c ∷ s) [] u h k = cc (compare.cons-nil c s)
compare_trans (c ∷ s) (d ∷ t) [] h k = cc (compare.cons-nil d t)
compare_trans (c ∷ s) (d ∷ t) (e ∷ u) h k =
    compare.cons-cons c e s u
    ∙ then_trans (code c) (code d) (code e) (compare s t) (compare t u) (compare s u)
        (compare_trans s t u) (sym (compare.cons-cons c d s t) ∙ h)
        (sym (compare.cons-cons d e t u) ∙ k)
