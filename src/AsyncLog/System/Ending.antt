-- ===== src/AsyncLog/System/Ending.antt =====
-- How the log ends after flush: what is in the file then, and what is not.
use wserver.Prelude.{
  ℕ, ◌≡◌, sym, ap, ◌∙◌, true, false, none, some, List, [], ◌∷◌, ◌++◌, done, append-nil,
}
use wserver.AsyncLog.{Pointer, AsyncLog, Backend}
use wserver.AsyncLog.Rounds.{log, backend}
use wserver.AsyncLog.System.{Phase, ended, writing, System, back_ends}
use wserver.AsyncLog.System.Held.{Held, one, two, bytes_of, shared_of}

abbrev pub pointed : List Pointer → List ℕ
pointed [] = []
pointed (none ∷ ps) = pointed ps
pointed (some b ∷ ps) = b ++ pointed ps

-- The bytes that wait in the shared buffers.
abbrev pub waiting : AsyncLog → List ℕ
waiting l = pointed (l.buffers ++ l.cur_buffer ∷ [])

-- What flush leaves in the shared buffers: nothing, but where the back end is writing already.
abbrev pub left_behind : Phase → AsyncLog → AsyncLog
left_behind (writing ps) l = l
left_behind _ l = log [] [] (some [])

pub record Ended (s s' : System) (logged : List ℕ) : Type 0 where
  pub phase : s'.phase ≡ ended
  pub flush : s'.flush ≡ true
  pub left : s'.log ≡ left_behind s.phase s.log
  pub file : s'.backend.output ++ waiting s'.log ≡ logged

abbrev at : AsyncLog → Backend → Phase → System
at l b p = record { log = l; backend = b; phase = p; running = true; flush = true }

abbrev over : AsyncLog → List ℕ → System
over l out = record { log = l; backend = backend out; phase = ended; running = false; flush = true }

pub waiting-shared_of : (h : Held) → waiting (shared_of h) ≡ bytes_of h
waiting-shared_of (one c) = append-nil c
waiting-shared_of (two d c) =
    ap (λ x. d ++ x) (append-nil c) ∙ ap (λ x. x ++ c) (sym (append-nil d))

-- Four steps from `p`: what is in the file, and that it and what is left are all.
abbrev Ends : List ℕ → AsyncLog → Backend → Phase → List ℕ → Type 0
Ends notice l b p logged =
    (out : List ℕ) × (back_ends notice 4 (at l b p) ≡ done (over (left_behind p l) out))
    × (out ++ waiting (left_behind p l) ≡ logged)

pub all_written :
    (out way last logged : List ℕ)
    → way ≡ []
    → (out ++ way) ++ last ≡ logged
    → (out ++ last) ++ [] ≡ logged
all_written out way last logged e t =
    append-nil (out ++ last)
    ∙ ap (λ x. x ++ last) (sym (append-nil out) ∙ ap (λ x. out ++ x) (sym e))
    ∙ t
