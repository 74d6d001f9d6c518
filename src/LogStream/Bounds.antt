-- ===== src/LogStream/Bounds.antt =====
-- formatInteger and the bounds of the fixed buffer.
use wserver.Prelude.{
  ℕ, ◌+◌, ◌^◌, ◌≡◌, ◌<◌, ◌≤◌, refl, inl, inr, [], ◌∷◌, ◌++◌, length, length-append, Returns,
  Returns-bind, Bool, Bool-cases, ltb, arith,
}
use wserver.Buffer.Append.{copy_to_lem, length-overwrite}
use wserver.LogStream.{nonnegative, FixedBuffer, available, convert, format_integer}
use wserver.LogStream.Digits.{Converted, convert_correct}

-- The index stays inside the array, whose size is fixed.
pub record Formatted (b b' : FixedBuffer) : Type 0 where
  pub inside : b'.cur_index ≤ length b'.buf
  pub size : length b'.buf ≡ length b.buf
  pub onward : b.cur_index ≤ b'.cur_index

-- formatInteger on a number of 64 bits that is not negative: whatever room is left, no byte is
-- written outside the array, the NUL included, and the index stays inside it.
pub format_integer_correct :
    (b : FixedBuffer) (n : ℕ) (is_hex : Bool)
    → b.cur_index ≤ length b.buf
    → n < 2 ^ 64
    → Returns (Formatted b) (format_integer b (nonnegative n) is_hex)
unfolding format_integer available
format_integer_correct b n is_hex h small = elim (Bool-cases (ltb 48 (available b))) [
  | inr e ↦ rw e (b, refl, record { inside = h; size = refl; onward = omega arith })
  | inl e ↦
      let room : 48 < available b = ground (arith, e) in
      rw e (
        Returns-bind (Converted n is_hex) (Formatted b) (convert (nonnegative n) is_hex) _
          (convert_correct n is_hex)
          λ cs c.
            let l = length-append cs (0 ∷ []) in
            let fits : b.cur_index + length (cs ++ 0 ∷ []) ≤ length b.buf =
              omega (arith, l, c.short small, room) in
            let size = length-overwrite b.buf b.cur_index (cs ++ 0 ∷ []) fits in
            rw (copy_to_lem b.buf b.cur_index (cs ++ 0 ∷ []) fits) (
              _,
              refl,
              record { inside = omega (arith, size, l, fits); size = size; onward = omega arith },
            ))
]
