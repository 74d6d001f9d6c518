-- ===== src/Logging/Tests.antt =====
-- A line of the server.
use wserver.Prelude.{
  ℕ, ◌≡◌, refl, List, [], ◌∷◌, codes, false, Exec, done, ◌>>=◌, if◌then◌else◌, some, arith,
}
use wserver.LogStream.Digits.{Converted}
use wserver.LogStream.{strncpy}
use wserver.AsyncLog
use wserver.AsyncLog.{AsyncLog}
use wserver.Logging.{Site, log_fatal, log_info, is_logged, abort_if_fatal, log_line}
use wserver.AsyncLog.{append_to}
use wserver.AsyncLog.System
use wserver.AsyncLog.System.{System, start, thread_func}
use wserver.Logging.Output.{
  Globals, initial, init_routine, pthread_once, default_output_func, Reach, begin, line, back_end,
}
use wserver.Logging.Line.{line_text, log_line_correct}

abbrev site : Site
site = record {
  level = log_fatal;
  basename = codes "Epoll.cpp";
  line = 57;
  func = codes "poll";
  time = codes "12:00";
  tid = codes " 1234";
}

abbrev empty_log : AsyncLog
empty_log = record { cur_buffer = some []; next_buffer = some []; buffers = [] }

-- A flush function of the user.
abbrev no_flush : AsyncLog → Exec AsyncLog
no_flush a = done a

log_line_correct_example :
    (number : List ℕ) × Converted 57 false number
    × (log_line no_flush 200 400 log_info site (codes "no" ∷ codes " events" ∷ []) empty_log ≡ (
        if is_logged log_info log_fatal
        then (AsyncLog.append 400
              (line_text site (codes "no" ∷ codes " events" ∷ []) number)
              empty_log
            >>= abort_if_fatal no_flush log_fatal)
        else done empty_log))
unfolding strncpy
log_line_correct_example =
    log_line_correct no_flush 200 400 log_info site (codes "no" ∷ codes " events" ∷ []) empty_log
      (omega arith) (omega arith)

-- A first message, and the first step of the log's thread.
abbrev two_steps : (g : Globals) × Reach 4 [] g (1 ∷ 2 ∷ [])
unfolding initial default_output_func pthread_once init_routine start System.new AsyncLog.append
    append_to strncpy thread_func
two_steps = (_, back_end (line (1 ∷ 2 ∷ []) begin refl) refl refl)
