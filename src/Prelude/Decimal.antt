-- ===== src/Prelude/Decimal.antt =====
-- Decimal numerals, as printf writes them with %d.
use Prim.Native.Nat.{ℕ, zero, suc, ◌+◌, ◌-◌, ◌*◌, ◌/◌, ◌%◌, ◌^◌, ◌<◌, ◌≤◌}
use mathlib.Core.Path.{◌≡◌, refl, ap, sym, ◌∙◌}
use mathlib.Core.Bool.{true}
use mathlib.Core.Logic.{inl, inr}
use mathlib.Core.List.{List, [], ◌∷◌, ◌++◌}
use native.Mathlib.Omega.{arith}
use native.Mathlib.Nat.{pow-suc}
use wserver.Prelude.Lists.{length, length-append}
use wserver.Prelude.Tests.{◌==◌, if◌then◌else◌, Bool-cases}

-- The digits of `n`, with fuel.
decimal_digits : ℕ → ℕ → List ℕ
decimal_digits zero n = []
decimal_digits (suc k) n =
    let before = decimal_digits k (n / 10) in
    if n / 10 == 0 then (48 + n % 10) ∷ [] else before ++ (48 + n % 10) ∷ []

unfoldable pub decimal : ℕ → List ℕ
unfolding decimal_digits
decimal n = decimal_digits (n + 1) n

-- The number that a numeral stands for, after `a`.
value : ℕ → List ℕ → ℕ
value a [] = a
value a (c ∷ cs) = value (a * 10 + (c - 48)) cs

value-append : (a : ℕ) (xs : List ℕ) (c : ℕ) → value a (xs ++ c ∷ []) ≡ value a xs * 10 + (c - 48)
unfolding value
value-append a [] c = refl
value-append a (x ∷ xs) c = value-append (a * 10 + (x - 48)) xs c

value-decimal_digits : (k n : ℕ) → n < k → value 0 (decimal_digits k n) ≡ n
unfolding decimal_digits value
value-decimal_digits zero n h = absurd (omega arith)
value-decimal_digits (suc k) n h = elim (Bool-cases (n / 10 == 0)) [
  | inl e ↦ rw e (ground (arith, e))
  | inr e ↦
      let small : n / 10 < k = ground (arith, e) in
      rw e (
        value-append 0 (decimal_digits k (n / 10)) (48 + n % 10)
        ∙ omega (arith, value-decimal_digits k (n / 10) small))
]

-- Different numbers have different numerals.
pub decimal-injective : (m n : ℕ) → decimal m ≡ decimal n → m ≡ n
unfolding decimal
decimal-injective m n e =
    sym (value-decimal_digits (m + 1) m (omega arith))
    ∙ ap (value 0) e
    ∙ value-decimal_digits (n + 1) n (omega arith)

length-decimal_digits : (k n w : ℕ) → n < k → n < 10 ^ suc w → length (decimal_digits k n) ≤ suc w
unfolding decimal_digits
length-decimal_digits zero n w h p = absurd (omega arith)
length-decimal_digits (suc k) n zero h p =
    let e : (n / 10 == 0) ≡ true = ground (arith, pow-suc 10 0) in rw e (omega arith)
length-decimal_digits (suc k) n (suc w) h p = elim (Bool-cases (n / 10 == 0)) [
  | inl e ↦ rw e (omega arith)
  | inr e ↦
      let small : n / 10 < k = ground (arith, e) in
      let ih = length-decimal_digits k (n / 10) w small (omega (arith, pow-suc 10 (suc w))) in
      rw e (omega (arith, ih, length-append (decimal_digits k (n / 10)) ((48 + n % 10) ∷ [])))
]

pub length-decimal : (n w : ℕ) → n < 10 ^ suc w → length (decimal n) ≤ suc w
unfolding decimal
length-decimal n w = length-decimal_digits (n + 1) n w (omega arith)
