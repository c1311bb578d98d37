-- ===== src/Prelude/Decimal.antt =====
-- `str(n)` of a number: its decimal digits.
use Prim.Native.Nat.{ℕ, zero, suc, ◌/◌, ◌%◌, ◌<◌}
use Prim.Native.String.{String, ◌++◌}
use mathlib.Core.Logic.{dite}
use mathlib.Core.Path.{◌≡◌, refl}
use mathlib.Core.WellFounded.{Acc, WellFounded}
use gpca_v.Prelude.Tests.{◌==◌, if◌then◌else◌}
use native.Mathlib.Decide.{dec_lt}
use native.Mathlib.Omega.{arith}

acc_below : (k n : ℕ) → n < k → Acc ◌<◌ n
acc_below zero n h = absurd (omega arith)
acc_below (suc k) n h = Acc.intro n λ m lt. acc_below k m (omega arith)

lt_wf : WellFounded ◌<◌
unfolding acc_below
lt_wf = record { apply = λ n. acc_below (suc n) n (omega arith) }

abbrev tenth_lt : {n : ℕ} → 9 < n → n / 10 < n
tenth_lt h = omega arith

abbrev digit : ℕ → String
digit d =
    if d == 0
    then "0"
    else if d == 1
    then "1"
    else if d == 2
    then "2"
    else if d == 3
    then "3"
    else if d == 4
    then "4"
    else if d == 5
    then "5"
    else if d == 6
    then "6"
    else if d == 7
    then "7"
    else if d == 8
    then "8"
    else "9"

digits : (n : ℕ) → Acc ◌<◌ n → String → String
digits n (Acc.intro _ smaller) rest =
    dite (dec_lt 9 n)
      (λ h. digits (n / 10) (smaller (n / 10) (tenth_lt h)) (digit (n % 10) ++ rest))
      (λ _. digit n ++ rest)

unfoldable pub decimal : ℕ → String
unfolding digits lt_wf dec_lt
decimal n = digits n (lt_wf.apply n) ""

decimal_runs : decimal 1070 ≡ "1070"
unfolding decimal
decimal_runs = refl
