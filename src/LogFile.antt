-- ===== src/LogFile.antt =====
-- base/LogFile.h and base/LogFile.cpp: the files of the log, one after the other.
-- `now` is what the clock says in append_unlocked, `later` what it says in rollFile, `opens` whether
-- fopen succeeds. The mutex is always there, and each call holds it.
pub mod Rolling
pub mod Names
pub mod Distinct
mod Tests
use wserver.Prelude.{
  ℕ, ◌+◌, ◌-◌, ◌*◌, ◌/◌, ◌≡◌, Bool, true, false, Option, none, some, List, [], ◌∷◌, ◌++◌, Exec,
  done, stop, null_deref, or_stop, ◌>>=◌, ltb, leb, if◌then◌else◌,
}
use wserver.FileUtil.{AppendFile, Taken, open_file, append_file, flush_file}

-- `closed` are the files before `file`, the oldest first, as fclose left them.
pub record LogFile : Type 0 where
  pub roll_size : ℕ
  pub flush_interval : ℕ
  pub check_every_n : ℕ
  pub cnt : ℕ
  pub start_of_period : ℕ
  pub last_roll : ℕ
  pub last_flush : ℕ
  pub file : Option AppendFile
  pub closed : List AppendFile

abbrev pub k_roll_per_seconds : ℕ
k_roll_per_seconds = 86400

-- `now / kRollPerSeconds * kRollPerSeconds`
abbrev pub period_of : ℕ → ℕ
period_of now = now / k_roll_per_seconds * k_roll_per_seconds

-- What the clock and fopen give one call.
pub record Env : Type 0 where
  pub now : ℕ
  pub later : ℕ
  pub opens : Bool

abbrev pub close_file : Option AppendFile → List AppendFile
close_file none = []
close_file (some f) = flush_file f ∷ []

unfoldable pub roll_file : Env → LogFile → Exec LogFile
roll_file env l =
    let roll : Exec LogFile = do
      f ← open_file env.later env.opens
      done (record l {
        last_roll = env.later;
        last_flush = env.later;
        start_of_period = period_of env.later;
        file = some f;
        closed = l.closed ++ close_file l.file;
      })
    in if ltb l.last_roll env.later then roll else done l

unfoldable pub new : ℕ → ℕ → ℕ → Env → Exec LogFile
new roll_size flush_interval check_every_n env = roll_file env (record {
  roll_size = roll_size;
  flush_interval = flush_interval;
  check_every_n = check_every_n;
  cnt = 0;
  start_of_period = 0;
  last_roll = 0;
  last_flush = 0;
  file = none;
  closed = [];
})

unfoldable pub flush : LogFile → Exec LogFile
flush l = do f ← or_stop l.file null_deref; done (record l { file = some (flush_file f) })

-- The part of append_unlocked that runs once in `m_check_every_N` messages.
unfoldable pub check_period : Env → LogFile → Exec LogFile
check_period env l =
    let rolled = roll_file env l in
    let flushed = flush (record l { last_flush = env.now }) in
    if ltb l.start_of_period (period_of env.now)
    then rolled
    else if ltb l.flush_interval (env.now - l.last_flush)
    then flushed
    else done l

-- append_unlocked, on the file that is open.
unfoldable pub append_to : Env → List Taken → List ℕ → LogFile → AppendFile → Exec LogFile
append_to env taken msg l f =
    let f' = append_file f msg taken in
    let l' = record l { file = some f' } in
    let rolled = roll_file env l' in
    let checked = check_period env (record l' { cnt = 0 }) in
    if ltb l.roll_size f'.writed_bytes
    then rolled
    else if leb l.check_every_n (l.cnt + 1)
    then checked
    else done (record l' { cnt = l.cnt + 1 })

unfoldable pub append : Env → List Taken → List ℕ → LogFile → Exec LogFile
append env taken msg l = do f ← or_stop l.file null_deref; append_to env taken msg l f
