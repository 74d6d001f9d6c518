-- ===== src/AsyncLog/System/Lines.antt =====
-- Every byte that is logged is in the file, on its way or waiting, whatever the order of the steps.
use wserver.Prelude.{ℕ, ◌≡◌, List, [], ◌++◌}
use wserver.AsyncLog.{AsyncLog, Backend}
use wserver.AsyncLog.Rounds.{backend}
use wserver.AsyncLog.System.{Phase, testing, gathering, ended, writing, System}
use wserver.AsyncLog.System.Held.{Held, bytes_of, shared_of, taken_of, own_of}

abbrev pub Idle : Backend → List ℕ → Type 0
Idle b bytes = (b ≡ backend b.output) × (bytes ≡ [])

abbrev pub Working : Phase → Backend → List ℕ → Type 0
Working testing b bytes = Idle b bytes
Working gathering b bytes = Idle b bytes
Working ended b bytes = Idle b bytes
Working (writing ps) b bytes =
    (f : Held) × (ps ≡ taken_of f) × (b ≡ own_of f b.output) × (bytes ≡ bytes_of f)

pub record Conserved (s : System) (logged : List ℕ) : Type 0 where
  pub held : Held
  pub shared : s.log ≡ shared_of held
  pub on_its_way : List ℕ
  pub back : Working s.phase s.backend on_its_way
  pub total : (s.backend.output ++ on_its_way) ++ bytes_of held ≡ logged
