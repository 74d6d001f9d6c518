-- ===== src/LogStream/Tests.antt =====
-- A few numbers.
use wserver.Prelude.{ℕ, ◌≡◌, refl, true, false, replicate, codes, done, Returns, arith}
use wserver.LogStream.{
  FixedBuffer, format_integer, nonnegative, digit_at, quotient, digit_loop, reverse, convert,
}
use wserver.LogStream.Digits.{Converted, convert_correct}
use wserver.LogStream.Bounds.{Formatted, format_integer_correct}

hex_255 : convert (nonnegative 255) true ≡ done (codes "0xFF")
unfolding convert digit_loop digit_at quotient reverse
hex_255 = refl

convert_correct_example : Returns (Converted 1060 false) (convert (nonnegative 1060) false)
convert_correct_example = convert_correct 1060 false

abbrev nearly_full : FixedBuffer
nearly_full = record { cur_index = 30; buf = replicate {A = ℕ} 80 0 }

format_integer_correct_example :
    Returns (Formatted nearly_full) (format_integer nearly_full (nonnegative 1060) false)
format_integer_correct_example =
    format_integer_correct nearly_full 1060 false (omega arith) (omega arith)
