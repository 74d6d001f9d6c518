-- ===== src/AsyncLog/System/Writing.antt =====
-- How what is logged comes into the file, while the log runs.
use wserver.Prelude.{ℕ, ◌≡◌, true, false, List, Returns}
use wserver.AsyncLog.{AsyncLog, Backend}
use wserver.AsyncLog.Rounds.{backend}
use wserver.AsyncLog.System.{Phase, System, back_ends}
use wserver.AsyncLog.System.Held.{Held}

abbrev at : AsyncLog → Backend → Phase → System
at l b p = record { log = l; backend = b; phase = p; running = true; flush = false }

abbrev Written : List ℕ → AsyncLog → Backend → Phase → List ℕ → Type 0
Written notice l b p logged =
    Returns (λ s. s.backend.output ≡ logged) (back_ends notice 4 (at l b p))
