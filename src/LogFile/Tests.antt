-- ===== src/LogFile/Tests.antt =====
-- A log file with a roll size of four bytes.
use wserver.Prelude.{ℕ, codes, ◌>>=◌, refl, true, false, some, List, [], ◌∷◌, Returns, arith}
use wserver.FileUtil.{AppendFile, Taken, write_loop}
use wserver.Prelude.Decimal.{decimal}
use wserver.LogFile.{LogFile, Env, append, new}
use wserver.LogFile.Names.{append_all}
use wserver.LogFile.Distinct.{Ordered, files, append_all-Ordered}
use wserver.LogFile.Rolling.{IsLog, Appended, append-text_of}

abbrev first : AppendFile
first = record { name = 100; text = 1 ∷ 2 ∷ []; writed_bytes = 2; flushed = 0 }

abbrev small : LogFile
small = record {
  roll_size = 4;
  flush_interval = 3;
  check_every_n = 1024;
  cnt = 0;
  start_of_period = 0;
  last_roll = 100;
  last_flush = 100;
  file = some first;
  closed = [];
}

small-IsLog : IsLog small
small-IsLog = record { current = first; present = refl; period = refl }

abbrev at_200 : Env
at_200 = record { now = 200; later = 200; opens = true }

abbrev in_two : List Taken
in_two = record { most = 1; err = false } ∷ []

append-text_of_example :
    Returns
      (Appended at_200 small (write_loop (7 ∷ 8 ∷ 9 ∷ []) in_two).0)
      (append at_200 in_two (7 ∷ 8 ∷ 9 ∷ []) small)
append-text_of_example =
    append-text_of at_200 (7 ∷ 8 ∷ 9 ∷ []) in_two small small-IsLog (omega arith) refl

abbrev at_100 : Env
at_100 = record { now = 100; later = 100; opens = true }

-- Three messages, each of which fills a file; the second comes in the second of the file before.
abbrev messages : List (Env × List Taken × List ℕ)
messages =
    (at_200, in_two, 7 ∷ 8 ∷ 9 ∷ []) ∷ (at_200, [], 7 ∷ 8 ∷ 9 ∷ []) ∷ (at_100, [], 1 ∷ []) ∷ []

append_all-Ordered_example :
    Returns
      (λ l.
        Ordered decimal
          (codes "wserver")
          (codes "host")
          42
          (files decimal (codes "wserver") (codes "host") 42 l))
      (new 2 3 1024 at_100 >>= append_all messages)
append_all-Ordered_example =
    append_all-Ordered decimal (codes "wserver") (codes "host") 42 2 3 1024 at_100 messages
      (omega arith) refl (refl, (refl, (refl, tt)))
