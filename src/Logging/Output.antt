-- ===== src/Logging/Output.antt =====
-- base/Logging.cpp: defaultOutputFunc, and the log that its first call makes and starts. A step is a call
-- of it, which append makes one, or a step of the log's thread; pthread_once runs the routine in one call
-- and lets the other ones wait for it.
use wserver.Prelude.{
  ℕ, ◌≡◌, Bool, true, false, Option, none, some, List, [], ◌++◌, Exec, done, fatal, null_deref,
  require, or_stop, ◌>>=◌, ◌>>◌, ◌==◌, if◌then◌else◌,
}
use wserver.LogStream.{strncpy}
use wserver.AsyncLog
use wserver.AsyncLog.System
use wserver.AsyncLog.System.{System, start, thread_func}

-- `once` says that init_routine has run.
pub record Globals : Type 0 where
  pub once : Bool
  pub asylog : Option System

unfoldable pub initial : Globals
initial = record { once = false; asylog = none }

unfoldable pub init_routine : Globals → Globals
init_routine g = record g { asylog = some (start System.new) }

unfoldable pub pthread_once : Globals → Globals
pthread_once g = if g.once then g else record (init_routine g) { once = true }

-- `ret` is what pthread_once returns.
unfoldable pub default_output_func : ℕ → ℕ → List ℕ → Globals → Exec Globals
default_output_func ret larger msg g = do
  require (ret == 0) fatal
  s ← or_stop (pthread_once g).asylog null_deref
  l ← AsyncLog.append larger msg s.log
  done (record (pthread_once g) { asylog = some (record s { log = l }) })

-- The states of a process from its start, with the bytes of all messages given to defaultOutputFunc so
-- far, each as strncpy copies it.
pub data Reach (larger : ℕ) (notice : List ℕ) : Globals → List ℕ → Type 0 where
  begin : Reach larger notice initial []
  line :
      {g g' : Globals} {logged : List ℕ} (msg : List ℕ)
      → Reach larger notice g logged
      → default_output_func 0 larger msg g ≡ done g'
      → Reach larger notice g' (logged ++ strncpy msg)
  back_end :
      {g : Globals} {logged : List ℕ} {s s' : System}
      → Reach larger notice g logged
      → g.asylog ≡ some s
      → thread_func notice s.phase s ≡ done s'
      → Reach larger notice (record g { asylog = some s' }) logged
