-- ===== src/CurrentThread.antt =====
-- base/CurrentThread.h and base/CurrentThread.cpp: the id of a thread and its text, which are made
-- when the id is first asked for. gettid(2) is an argument; an id has five digits at least as "%5d"
-- writes it, and the text has room for all of them.
use wserver.Prelude.{ℕ, ◌-◌, List, [], ◌++◌, length, replicate, ◌==◌, if◌then◌else◌}
use wserver.Prelude.Decimal.{decimal}

pub record CurrentThread : Type 0 where
  pub cached_tid : ℕ
  pub tid_string : List ℕ

unfoldable pub new : CurrentThread
new = record { cached_tid = 0; tid_string = [] }

-- `"%5d"`: blanks up to five characters, and the numeral.
unfoldable pub padded : ℕ → List ℕ
padded n = replicate (5 - length (decimal n)) 32 ++ decimal n

unfoldable pub cache_tid : ℕ → CurrentThread → CurrentThread
cache_tid gettid t =
    if t.cached_tid == 0 then record { cached_tid = gettid; tid_string = padded gettid } else t

-- tid(): the id, and the thread with its cache.
unfoldable pub tid : ℕ → CurrentThread → ℕ × CurrentThread
tid gettid t = let t' = if t.cached_tid == 0 then cache_tid gettid t else t in (t'.cached_tid, t')
