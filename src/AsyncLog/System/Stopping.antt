-- ===== src/AsyncLog/System/Stopping.antt =====
-- How the log ends after stop: what is in the file then, and what is not.
use wserver.Prelude.{ℕ, ◌≡◌, Bool, false, some, List, [], ◌++◌, done}
use wserver.AsyncLog.{AsyncLog, Backend}
use wserver.AsyncLog.Rounds.{log, backend}
use wserver.AsyncLog.System.{Phase, gathering, ended, System, back_ends}
use wserver.AsyncLog.System.Held.{Held}
use wserver.AsyncLog.System.Ending.{waiting}

-- What stop leaves in the shared buffers: what it found there, but where the back end was about to
-- take them.
abbrev pub kept_back : Phase → AsyncLog → AsyncLog
kept_back gathering l = log [] [] (some [])
kept_back _ l = l

pub record Stopped (s s' : System) (logged : List ℕ) : Type 0 where
  pub phase : s'.phase ≡ ended
  pub left : s'.log ≡ kept_back s.phase s.log
  pub file : s'.backend.output ++ waiting s'.log ≡ logged

abbrev at : Bool → AsyncLog → Backend → Phase → System
at f l b p = record { log = l; backend = b; phase = p; running = false; flush = f }

-- Three steps from `p`.
abbrev Stops : List ℕ → Bool → AsyncLog → Backend → Phase → List ℕ → Type 0
Stops notice f l b p logged =
    (c : Backend) × (back_ends notice 3 (at f l b p) ≡ done (at f (kept_back p l) c ended))
    × (c.output ++ waiting (kept_back p l) ≡ logged)
