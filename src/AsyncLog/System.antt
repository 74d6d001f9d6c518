-- ===== src/AsyncLog/System.antt =====
-- base/AsyncLog.cpp: the threads that log and the thread that writes the file, step by step. A step
-- of a front end is a call of append, which holds the mutex; the back end takes the buffers while it
-- holds the mutex, and writes them without it. The back end may take at any time: its wait ends with
-- a signal or with the time.
pub mod Ending
pub mod Stopping
pub mod Writing
pub mod Held
pub mod Lines
use wserver.Prelude.{
  ℕ, zero, suc, ◌≡◌, Bool, true, false, none, some, List, [], ◌∷◌, ◌++◌, Exec, done, ◌>>=◌,
  if◌then◌else◌,
}
use wserver.LogStream.{strncpy}
use wserver.AsyncLog.{Pointer, AsyncLog, Backend, append, collect, write_out}

-- Where threadFunc is: before the condition of its loop, before it takes the buffers, with what it
-- has taken, or behind its last flush.
pub data Phase : Type 0 where
  testing gathering ended : Phase
  writing : List Pointer → Phase

pub record System : Type 0 where
  pub log : AsyncLog
  pub backend : Backend
  pub phase : Phase
  pub running : Bool
  pub flush : Bool

-- The constructor, and the buffers that threadFunc makes before its loop.
unfoldable pub new : System
new = record {
  log = record { cur_buffer = some []; next_buffer = some []; buffers = [] };
  backend = record { new_buffer_1 = some []; new_buffer_2 = some []; output = [] };
  phase = testing;
  running = false;
  flush = false;
}

-- start, which sets m_running before it makes the thread and waits until it runs.
unfoldable pub start : System → System
start s = record s { running = true }

abbrev pub started : System
started = start new

pub data Action : Type 0 where
  front_end : List ℕ → Action
  back_end flushes stops : Action

-- The assignment of flush, before its wait.
unfoldable pub flush_log : System → System
flush_log s = record s { flush = true }

unfoldable pub stop_log : System → System
stop_log s = record s { running = false }

unfoldable pub take_buffers : System → System
take_buffers s =
    let c = collect s.log s.backend in
    record s { log = c.0; backend = c.1.0; phase = writing c.1.1 }

unfoldable pub write_buffers : List ℕ → List Pointer → System → Exec System
write_buffers notice taken s = do
  b ← write_out notice taken s.backend
  done (record s { backend = b; phase = testing; running = if s.flush then false else s.running })

-- A step of threadFunc.
unfoldable pub thread_func : List ℕ → Phase → System → Exec System
thread_func notice testing s = done (record s { phase = if s.running then gathering else ended })
thread_func notice gathering s = done (take_buffers s)
thread_func notice (writing taken) s = write_buffers notice taken s
thread_func notice ended s = done s

module _ (size : ℕ) (notice : List ℕ) where
  unfoldable pub act : Action → System → Exec System
  act (front_end msg) s = do l ← append size msg s.log; done (record s { log = l })
  act back_end s = thread_func notice s.phase s
  act flushes s = done (flush_log s)
  act stops s = done (stop_log s)

  abbrev pub logged_by : Action → List ℕ
  logged_by (front_end msg) = strncpy msg
  logged_by _ = []

  -- The states after the start, whatever the order of the threads' steps, with the bytes of
  -- all messages that the front ends have logged so far, each as strncpy copies it.
  pub data Reach : System → List ℕ → Type 0 where
    begin : Reach started []
    step :
        {s s' : System} {logged : List ℕ}
        → Reach s logged
        → (a : Action) → act a s ≡ done s'
        → Reach s' (logged ++ logged_by a)

-- The next `n` steps of the back end, while no front end steps.
unfoldable pub back_ends : List ℕ → ℕ → System → Exec System
back_ends notice zero s = done s
back_ends notice (suc n) s = thread_func notice s.phase s >>= back_ends notice n
