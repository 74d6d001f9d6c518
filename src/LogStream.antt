-- ===== src/LogStream.antt =====
-- base/LogStream.h and base/LogStream.cpp: the fixed buffer and the conversion of numbers.
-- A number is its sign and its magnitude.
pub mod Digits
pub mod Bounds
pub mod Texts
mod Tests
use wserver.Prelude.{
  ℕ, zero, suc, ◌+◌, ◌-◌, ◌/◌, ◌%◌, ◌≡◌, Bool, true, false, Option, none, some, List, [], ◌∷◌, ◌++◌,
  length, take, get_elem?, codes, replicate, Exec, done, stop, out_of_bounds, out_of_fuel, or_stop,
  ◌>>=◌, ◌==◌, ltb, leb, if◌then◌else◌,
}
use wserver.Buffer.{copy_to}

pub data Number : Type 0 where
  nonnegative negative : ℕ → Number

abbrev pub digits : List ℕ
digits = codes "0123456789ABCDEF"

abbrev pub magnitude : Number → ℕ
magnitude (nonnegative n) = n
magnitude (negative n) = n

-- `digits[tmp % mod]`: the remainder of a negative number is negative, or 0.
unfoldable pub digit_at : ℕ → Number → Option ℕ
digit_at base (nonnegative n) = get_elem? digits (n % base)
digit_at base (negative n) = if n % base == 0 then get_elem? digits 0 else none

-- `tmp /= mod`, which rounds towards 0.
unfoldable pub quotient : ℕ → Number → Number
quotient base (nonnegative n) = nonnegative (n / base)
quotient base (negative n) = negative (n / base)

-- The do-while loop: the digits, the last one first.
unfoldable pub digit_loop : ℕ → ℕ → Number → Exec (List ℕ)
digit_loop zero base t = stop out_of_fuel
digit_loop (suc k) base t =
    let rest = digit_loop k base (quotient base t) in
    do
      c ← or_stop (digit_at base t) out_of_bounds
      if magnitude (quotient base t) == 0 then done (c ∷ []) else (do cs ← rest; done (c ∷ cs))

unfoldable pub reverse : List ℕ → List ℕ
reverse [] = []
reverse (c ∷ cs) = reverse cs ++ c ∷ []

abbrev pub is_negative : Number → Bool
is_negative (nonnegative n) = false
is_negative (negative n) = true

-- convert: the characters before the NUL, whose number it returns.
unfoldable pub convert : Number → Bool → Exec (List ℕ)
convert t true = do cs ← digit_loop (magnitude t + 1) 16 t; done (codes "0x" ++ reverse cs)
convert t false = do
  cs ← digit_loop (magnitude t + 1) 10 t
  done (reverse (cs ++ (if is_negative t then codes "-" else [])))

-- FixedBuffer<SIZE>: the array, of which `cur_index` bytes are in use.
pub record FixedBuffer : Type 0 where
  pub cur_index : ℕ
  pub buf : List ℕ

unfoldable pub available : FixedBuffer → ℕ
available b = length b.buf - b.cur_index

-- strncpy(3) of as many bytes as the message has: behind its first NUL it writes NULs.
unfoldable pub strncpy : List ℕ → List ℕ
strncpy [] = []
strncpy (c ∷ cs) = let rest = strncpy cs in c ∷ (if c == 0 then replicate (length cs) 0 else rest)

unfoldable pub append : FixedBuffer → List ℕ → Exec FixedBuffer
append b msg = do
  written ← copy_to b.buf b.cur_index (strncpy msg)
  done (record { cur_index = b.cur_index + length msg; buf = written })

abbrev pub k_max_numeric_size : ℕ
k_max_numeric_size = 48

-- formatInteger: the characters and the NUL are written at the index, and it advances by the former.
unfoldable pub format_integer : FixedBuffer → Number → Bool → Exec FixedBuffer
format_integer b t is_hex =
    let write : Exec FixedBuffer = do
      cs ← convert t is_hex
      written ← copy_to b.buf b.cur_index (cs ++ 0 ∷ [])
      done (record { cur_index = b.cur_index + length cs; buf = written })
    in if ltb k_max_numeric_size (available b) then write else done b

-- The bytes from data(), as many as length() says.
unfoldable pub text_of : FixedBuffer → List ℕ
text_of b = take b.cur_index b.buf

-- The operators <<: for a truth value, for an integer type, for a pointer, for a character, and for a
-- string; and a chain of the last one.
unfoldable pub put_bool : Bool → FixedBuffer → Exec FixedBuffer
put_bool v b = append b (if v then codes "1" else codes "0")

unfoldable pub put_integer : Number → FixedBuffer → Exec FixedBuffer
put_integer n b = format_integer b n false

unfoldable pub put_pointer : ℕ → FixedBuffer → Exec FixedBuffer
put_pointer p b = format_integer b (nonnegative p) true

-- For a floating-point type; `text` is what "%.12g" makes of it, of which snprintf writes what fits
-- before a NUL into 48 bytes.
unfoldable pub put_double : List ℕ → FixedBuffer → Exec FixedBuffer
put_double text b =
    let write : Exec FixedBuffer = do
      written ← copy_to b.buf b.cur_index (take (k_max_numeric_size - 1) text ++ 0 ∷ [])
      done (record { cur_index = b.cur_index + length text; buf = written })
    in if ltb k_max_numeric_size (available b) then write else done b

unfoldable pub put_char : ℕ → FixedBuffer → Exec FixedBuffer
put_char c b = append b (c ∷ [])

unfoldable pub put_string : List ℕ → FixedBuffer → Exec FixedBuffer
put_string msg b = append b msg

unfoldable pub put_strings : List (List ℕ) → FixedBuffer → Exec FixedBuffer
put_strings [] b = done b
put_strings (p ∷ ps) b = put_string p b >>= put_strings ps
