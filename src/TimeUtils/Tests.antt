-- ===== src/TimeUtils/Tests.antt =====
-- A time in 2023.
use wserver.Prelude.{◌/◌, ◌%◌, ◌≡◌, ◌++◌, codes, arith}
use wserver.Prelude.Decimal.{decimal}
use wserver.TimeUtils.{time_stamp, time_stamp-fraction}

time_stamp-fraction_example :
    time_stamp decimal 1700000000000042
    ≡ (decimal (1700000000000042 / 1000000) ++ codes ":") ++ decimal (1700000000000042 % 1000000)
time_stamp-fraction_example = time_stamp-fraction decimal 1700000000000042 (omega arith)
