-- ===== src/LogStream/Digits.antt =====
-- convert on numbers that are not negative: the text is the numeral of the number.
use native.Mathlib.Nat.{
  div-add-mod', mod-lt, div-lt_iff_lt-mul, div-lt_self, pow-zero, pow-suc, zero-div,
}
use wserver.Prelude.{
  ℕ, zero, suc, ◌+◌, ◌-◌, ◌*◌, ◌/◌, ◌%◌, ◌^◌, ◌≡◌, ◌≢◌, ◌<◌, ◌≤◌, inl, inr, refl, sym, ap, subst,
  ◌∙◌, Bool, true, false, some, List, [], ◌∷◌, ◌++◌, length, length-append, get_elem?, codes, stop,
  out_of_bounds, Returns, Returns-bind, Bool-cases, ◌==◌, ltb, if◌then◌else◌, arith, append-nil,
}
use wserver.LogStream.{
  nonnegative, negative, digits, digit_at, quotient, digit_loop, reverse, convert,
}

-- The value of a digit's character, and of a numeral.
abbrev pub digit : ℕ → ℕ
digit c = if ltb c 58 then c - 48 else c - 55

abbrev pub numeral : ℕ → ℕ → List ℕ → ℕ
numeral base a [] = a
numeral base a (c ∷ cs) = numeral base (a * base + digit c) cs

numeral_last :
    (base a : ℕ) (xs : List ℕ) (c : ℕ)
    → numeral base a (xs ++ c ∷ []) ≡ numeral base a xs * base + digit c
numeral_last base a [] c = refl
numeral_last base a (x ∷ xs) c = numeral_last base (a * base + digit x) xs c

digit_char : (i : ℕ) → i < 16 → (c : ℕ) × (get_elem? digits i ≡ some c) × (digit c ≡ i)
digit_char zero h = (48, refl, refl)
digit_char (suc zero) h = (49, refl, refl)
digit_char (suc (suc zero)) h = (50, refl, refl)
digit_char (suc (suc (suc zero))) h = (51, refl, refl)
digit_char (suc (suc (suc (suc zero)))) h = (52, refl, refl)
digit_char (suc (suc (suc (suc (suc zero))))) h = (53, refl, refl)
digit_char (suc (suc (suc (suc (suc (suc zero)))))) h = (54, refl, refl)
digit_char (suc (suc (suc (suc (suc (suc (suc zero))))))) h = (55, refl, refl)
digit_char (suc (suc (suc (suc (suc (suc (suc (suc zero)))))))) h = (56, refl, refl)
digit_char (suc (suc (suc (suc (suc (suc (suc (suc (suc zero))))))))) h = (57, refl, refl)
digit_char (suc (suc (suc (suc (suc (suc (suc (suc (suc (suc zero)))))))))) h = (65, refl, refl)
digit_char (suc (suc (suc (suc (suc (suc (suc (suc (suc (suc (suc zero))))))))))) h =
    (66, refl, refl)
digit_char (suc (suc (suc (suc (suc (suc (suc (suc (suc (suc (suc (suc zero)))))))))))) h =
    (67, refl, refl)
digit_char (suc (suc (suc (suc (suc (suc (suc (suc (suc (suc (suc (suc (suc zero))))))))))))) h =
    (68, refl, refl)
digit_char (suc (suc (suc (suc (suc (suc (suc (suc (suc (suc (suc (suc (suc (suc zero))))))))))))))
      h =
    (69, refl, refl)
digit_char
      (suc (suc (suc (suc (suc (suc (suc (suc (suc (suc (suc (suc (suc (suc (suc zero)))))))))))))))
      h =
    (70, refl, refl)
digit_char
      (suc
        (suc (suc (suc (suc (suc (suc (suc (suc (suc (suc (suc (suc (suc (suc (suc i))))))))))))))))
      h =
    absurd (omega arith)

-- The digits of `n`, the last one first; there are no more than `w` where `n` is below base ^ w.
record Digits (base n : ℕ) (cs : List ℕ) : Type 0 where
  value : numeral base 0 (reverse cs) ≡ n
  short : (w : ℕ) → n < base ^ suc w → length cs ≤ suc w

div_pow : (base n w : ℕ) → 0 < base → n < base ^ suc w → n / base < base ^ w
div_pow base n w z h =
    (div-lt_iff_lt-mul {k = base} {x = n} {y = base ^ w} z).1
      (subst (λ x. n < x) (pow-suc base w) h)

module _ (base n c : ℕ) (few : 1 < base) (d : digit c ≡ n % base) where
  last_Digits : n / base ≡ 0 → Digits base n (c ∷ [])
  unfolding reverse
  last_Digits z = record {
    value = ap (λ x. 0 * base + x) d ∙ ap (λ x. x * base + n % base) (sym z) ∙ div-add-mod' n base;
    short = λ w h. omega arith;
  }

  more_Digits : (cs : List ℕ) → n / base ≢ 0 → Digits base (n / base) cs → Digits base n (c ∷ cs)
  unfolding reverse
  more_Digits cs z ds = record {
    value =
        numeral_last base 0 (reverse cs) c
        ∙ ap (λ x. x * base + digit c) ds.value
        ∙ ap (λ x. n / base * base + x) d
        ∙ div-add-mod' n base;
    short = short;
  }
    where
      short : (w : ℕ) → n < base ^ suc w → length (c ∷ cs) ≤ suc w
      short zero h = absurd (z (omega (arith, div_pow base n 0 (omega arith) h, pow-zero base)))
      short (suc w) h =
          let b : n / base < base ^ suc w = div_pow base n (suc w) (omega arith) h in
          omega (arith, ds.short w b)

positive_div : (n base : ℕ) → n / base ≢ 0 → 0 < n
positive_div zero base z = absurd (z (zero-div base))
positive_div (suc n) base z = omega arith

smaller_div : (n base k : ℕ) → 1 < base → n < suc k → n / base ≢ 0 → n / base < k
smaller_div n base k few h z = let p = positive_div n base z in omega (arith, div-lt_self p few)

-- The loop, with as many rounds as the number and one more.
digit_loop_correct :
    (k base n : ℕ)
    → 1 < base
    → base ≤ 16
    → n < k
    → Returns (Digits base n) (digit_loop k base (nonnegative n))
unfolding digit_loop digit_at quotient
digit_loop_correct zero base n few many h = absurd (omega arith)
digit_loop_correct (suc k) base n few many h =
    let below : n % base < base = mod-lt n (omega arith) in
    let (c, e, d) = digit_char (n % base) (omega (arith, below)) in
    elim (Bool-cases (n / base == 0)) [
      | inl z ↦ rw (e, z) (_, refl, last_Digits base n c few d (ground (arith, z)))
      | inr z ↦
          let some_left : n / base ≢ 0 = ground (arith, z) in
          let smaller : n / base < k = smaller_div n base k few h some_left in
          rw (e, z)
            (Returns-bind (Digits base (n / base)) (Digits base n)
              (digit_loop k base (nonnegative (n / base))) _
              (digit_loop_correct k base (n / base) few many smaller)
              λ cs ds. (_, refl, more_Digits base n c few d cs some_left ds))
    ]

length-reverse : (cs : List ℕ) → length (reverse cs) ≡ length cs
unfolding reverse
length-reverse [] = refl
length-reverse (c ∷ cs) = omega (arith, length-append (reverse cs) (c ∷ []), length-reverse cs)

abbrev pub base_of : Bool → ℕ
base_of is_hex = if is_hex then 16 else 10

abbrev pub prefix_of : Bool → List ℕ
prefix_of is_hex = if is_hex then codes "0x" else []

-- The text of a number: its prefix, and a numeral of no more than 20 digits.
pub record Converted (n : ℕ) (is_hex : Bool) (text : List ℕ) : Type 0 where
  pub figures : List ℕ
  pub text_is : text ≡ prefix_of is_hex ++ figures
  pub value : numeral (base_of is_hex) 0 figures ≡ n
  pub short : n < 2 ^ 64 → length text ≤ 22

-- convert on a number that is not negative: the call ends with no access out of bounds, the text is
-- "0x" for a hexadecimal number and nothing else, and then a numeral whose value is the number, and
-- a 64-bit number takes 22 characters at most.
pub convert_correct :
    (n : ℕ) (is_hex : Bool) → Returns (Converted n is_hex) (convert (nonnegative n) is_hex)
unfolding convert
convert_correct n true =
    Returns-bind (Digits 16 n) (Converted n true) (digit_loop (n + 1) 16 (nonnegative n)) _
      (digit_loop_correct (n + 1) 16 n (omega arith) (omega arith) (omega arith))
      λ cs d. (
        _,
        refl,
        record {
          figures = reverse cs;
          text_is = refl;
          value = d.value;
          short = λ h. omega (arith, d.short 15 h, length-reverse cs);
        },
      )
convert_correct n false =
    Returns-bind (Digits 10 n) (Converted n false) (digit_loop (n + 1) 10 (nonnegative n)) _
      (digit_loop_correct (n + 1) 10 n (omega arith) (omega arith) (omega arith))
      λ cs d. (
        _,
        refl,
        record {
          figures = reverse cs;
          text_is = ap reverse (append-nil cs);
          value = d.value;
          short = λ h. omega (
            arith,
            d.short 19 (omega arith),
            length-reverse cs,
            ap length (append-nil cs),
            length-reverse (cs ++ []),
          );
        },
      )

negative_stops : (k n : ℕ) → 0 < n → n < k → digit_loop k 10 (negative n) ≡ stop out_of_bounds
unfolding digit_loop digit_at quotient
negative_stops zero n p h = absurd (omega arith)
negative_stops (suc k) n p h = elim (Bool-cases (n % 10 == 0)) [
  | inr e ↦ rw e refl
  | inl e ↦
      let z : n % 10 ≡ 0 = ground (arith, e) in
      let left : (n / 10 == 0) ≡ false = ground (arith, z) in
      rw (e, left, negative_stops k (n / 10) (omega arith) (omega arith)) refl
]

-- convert on a negative number reads the array of digits out of its bounds, for every number.
pub convert-negative : (n : ℕ) → 0 < n → convert (negative n) false ≡ stop out_of_bounds
unfolding convert
convert-negative n p = rw (negative_stops (n + 1) n p (omega arith)) refl
