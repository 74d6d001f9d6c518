-- ===== src/Logging/Delivery.antt =====
-- The log that the lines of a process go to is made and started once.
use wserver.Prelude.{ℕ, ◌≡◌, ◌≢◌, true, false, some, List, []}
use wserver.AsyncLog
use wserver.AsyncLog.{AsyncLog}
use wserver.AsyncLog.System
use wserver.AsyncLog.System.{ended, System}
use wserver.Logging.Output.{Globals, initial, Reach}

-- The log runs.
pub record Runs (s : System) : Type 0 where
  pub running : s.running ≡ true
  pub flush : s.flush ≡ false
  pub phase : s.phase ≢ ended

-- The log of the process, and what it was given.
pub record Started (larger : ℕ) (notice : List ℕ) (g : Globals) (logged : List ℕ) : Type 0 where
  pub system : System
  pub current : g.asylog ≡ some system
  pub once : g.once ≡ true
  pub runs : Runs system
  pub reached : System.Reach larger notice system logged

-- The process has given its log nothing, and has none.
abbrev pub Fresh : Globals → List ℕ → Type 0
Fresh g logged = (g ≡ initial) × (logged ≡ [])
