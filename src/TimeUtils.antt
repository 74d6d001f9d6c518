-- ===== src/TimeUtils.antt =====
-- base/timeUtils.h and base/timeUtils.cpp: the text of the current time. What put_time writes for a
-- second, as "%F %T", is a parameter.
mod Tests
use native.Mathlib.Nat.{div-add-mod, mul-add-mod_self_left, mod-eq_of_lt, mod-lt, mul_comm}
use wserver.Prelude.{
  ℕ, ◌+◌, ◌*◌, ◌/◌, ◌%◌, ◌≡◌, ◌≤◌, ◌<◌, refl, sym, ap, ◌∙◌, List, ◌++◌, codes, arith,
}
use wserver.Prelude.Decimal.{decimal}

-- `current_seconds` and `current_microseconds`, where the clock shows `now` microseconds.
unfoldable pub current_seconds : ℕ → ℕ
current_seconds now = now / 1000000

-- What is written behind the colon; `setfill` has no width to fill.
unfoldable pub fraction : ℕ → ℕ
unfolding current_seconds
fraction now = now % current_seconds now

unfoldable pub time_stamp : (ℕ → List ℕ) → ℕ → List ℕ
time_stamp put_time now = (put_time (current_seconds now) ++ codes ":") ++ decimal (fraction now)

-- The microseconds taken modulo the seconds.
fraction_lem : (s m : ℕ) → m < s → (s * 1000000 + m) % s ≡ m
fraction_lem s m h = mul-add-mod_self_left s 1000000 m ∙ mod-eq_of_lt h

-- timeStamp, from the twelfth of January 1970 on, when a million seconds had gone by: although it takes
-- the microseconds since the epoch modulo the seconds since the epoch, the number behind the colon is
-- that of the microseconds of the second.
pub time_stamp-fraction :
    (put_time : ℕ → List ℕ) (now : ℕ)
    → 1000000 ≤ now / 1000000
    → time_stamp put_time now ≡ (put_time (now / 1000000) ++ codes ":") ++ decimal (now % 1000000)
unfolding time_stamp fraction current_seconds
time_stamp-fraction put_time now h =
    let s = now / 1000000 in
    let m = now % 1000000 in
    let whole : s * 1000000 + m ≡ now = omega arith in
    let same : now % s ≡ m = ap (λ x. x % s) (sym whole) ∙ fraction_lem s m (omega arith) in
    ap (λ x. (put_time s ++ codes ":") ++ decimal x) same
