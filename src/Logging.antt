-- ===== src/Logging.antt =====
-- base/Logging.h and base/Logging.cpp: a log statement, from its level to the log of the front ends.
-- The text of timeStamp() is an argument, and so is the text of the thread's id, as tidString() has it.
pub mod Line
pub mod Output
pub mod Delivery
mod Tests
use wserver.Prelude.{
  ℕ, ◌≡◌, Bool, true, false, List, [], ◌∷◌, codes, replicate, Exec, done, stop, fatal, ◌>>=◌, leb,
  if◌then◌else◌,
}
use wserver.LogStream.{
  FixedBuffer, Number, nonnegative, text_of, put_strings, put_integer, put_char,
}
use wserver.AsyncLog.{AsyncLog}
use wserver.AsyncLog

pub data LogLevel : Type 0 where
  log_debug log_info log_error log_fatal : LogLevel

abbrev pub log_level_name : LogLevel → List ℕ
log_level_name log_debug = codes "DEBUG"
log_level_name log_info = codes "INFO"
log_level_name log_error = codes "ERROR"
log_level_name log_fatal = codes "FATAL"

abbrev pub rank : LogLevel → ℕ
rank log_debug = 0
rank log_info = 1
rank log_error = 2
rank log_fatal = 3

-- The conditions of the macros; `g` is g_loglevel.
unfoldable pub is_logged : LogLevel → LogLevel → Bool
is_logged g log_debug = leb (rank g) (rank log_debug)
is_logged g log_info = leb (rank g) (rank log_info)
is_logged g log_error = true
is_logged g log_fatal = true

pub record Logger : Type 0 where
  pub stream : FixedBuffer
  pub level : LogLevel
  pub line : ℕ
  pub basename : List ℕ

-- What a log statement gives the constructor of Logger, and the texts of the time and of the thread.
pub record Site : Type 0 where
  pub level : LogLevel
  pub basename : List ℕ
  pub line : ℕ
  pub func : List ℕ
  pub time : List ℕ
  pub tid : List ℕ

-- Logger::Impl::Impl, with a buffer of `size` bytes.
unfoldable pub impl : ℕ → Site → Exec Logger
impl size s = do
  timed ← put_strings (s.time ∷ codes " " ∷ []) (record { cur_index = 0; buf = replicate size 0 })
  b ← put_strings (s.tid ∷ codes " " ∷ log_level_name s.level ∷ codes " " ∷ []) timed
  done (record { stream = b; level = s.level; line = s.line; basename = s.basename })

-- Logger::Logger.
unfoldable pub new : ℕ → Site → Exec Logger
new size s = do
  l ← impl size s
  b ← put_strings (s.func ∷ codes " " ∷ []) l.stream
  done (record l { stream = b })

unfoldable pub finish : Logger → Exec FixedBuffer
finish l = do
  b ← put_strings (codes " - " ∷ l.basename ∷ codes ":" ∷ []) l.stream
  numbered ← put_integer (nonnegative l.line) b
  put_char 10 numbered

-- The end of the destructor, where `g_flush` is what the flush function does to the log: a call that
-- never returns is a `stop` of its own.
unfoldable pub abort_if_fatal : (AsyncLog → Exec AsyncLog) → LogLevel → AsyncLog → Exec AsyncLog
abort_if_fatal g_flush log_fatal a = do flushed ← g_flush a; stop fatal
abort_if_fatal g_flush _ a = done a

-- Logger::~Logger, with the output function of defaultOutputFunc, whose log is started already; `larger` is the size of the log's
-- buffers.
unfoldable pub destroy : (AsyncLog → Exec AsyncLog) → ℕ → AsyncLog → Logger → Exec AsyncLog
destroy g_flush larger a l = do
  b ← finish l
  a' ← AsyncLog.append larger (text_of b) a
  abort_if_fatal g_flush l.level a'

-- A statement `LOG_X << parts`.
unfoldable pub log_line :
    (AsyncLog → Exec AsyncLog) → ℕ → ℕ → LogLevel → Site → List (List ℕ) → AsyncLog → Exec AsyncLog
log_line g_flush size larger g s parts a =
    let write : Exec AsyncLog = do
      l ← new size s
      b ← put_strings parts l.stream
      destroy g_flush larger a (record l { stream = b })
    in if is_logged g s.level then write else done a
