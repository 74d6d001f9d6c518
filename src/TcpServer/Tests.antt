-- ===== src/TcpServer/Tests.antt =====
-- Servers with two loops, for the theorems.
use wserver.Prelude.{
  ℕ, zero, suc, true, false, ◌%◌, ◌≡◌, ◌==◌, refl, ◌<◌, none, some, List, [], ◌∷◌, get_elem?,
  if◌then◌else◌, Returns, arith,
}
use wserver.EventLoopThreadPool
use wserver.TcpServer.{TcpServer, new, start, set_threads, find, Task, listen}
use wserver.Acceptor
use wserver.Acceptor.{AcceptResult, failed, econnaborted, handle_read}
use wserver.TcpServer.{new_connection}
use wserver.TcpConnection.{k_connected}
use wserver.TcpServer.Lifetime.{
  Life, entered, run_task, keeping, keep, handlers, task, event, act, Reach, begin, later,
}
use wserver.TcpServer.Lifetime.Alive.{Cared, Reach-Cared}
use wserver.TcpServer.Accepting.{Burst, handle_read-Burst}
use wserver.TcpServer.Ledger.{Event, accepted, closed, Ledger}
use wserver.TcpServer.Table.{Represents}

abbrev server : TcpServer
server = start (7 ∷ 8 ∷ []) (set_threads 2 (new 1 (119 ∷ [])))

abbrev ledger : Ledger
ledger = record { next = 1; turn = 0; entry = λ i. none; told = [] }

abbrev loop_of : ℕ → ℕ
loop_of k = if k % 2 == 0 then 7 else 8

abbrev before : List (ℕ × Task)
before = (1, listen) ∷ []

either : (m : ℕ) → m < 2 → get_elem? {A = ℕ} (7 ∷ 8 ∷ []) m ≡ some (if m == 0 then 7 else 8)
either zero h = refl
either (suc zero) h = refl
either (suc (suc m)) h = absurd (omega arith)

server-Represents : Represents loop_of before server ledger
unfolding start set_threads new find EventLoopThreadPool.start EventLoopThreadPool.set_thread_nums
    EventLoopThreadPool.new
server-Represents = record {
  ids = refl;
  turns = refl;
  loops = λ k. either (k % 2) (omega arith);
  entries = λ i b. refl;
  fresh = λ i b. refl;
  posted = refl;
}

abbrev events : List Event
events = accepted 20 ∷ accepted 21 ∷ closed 1 ∷ closed 1 ∷ accepted 20 ∷ []

-- Two connections, an error behind which one more waits.
abbrev arriving : List AcceptResult
arriving =
    Acceptor.accepted 20 ∷ Acceptor.accepted 21 ∷ failed econnaborted ∷ Acceptor.accepted 22 ∷ []

handle_read-Burst_example :
    Returns
      (Burst loop_of before ledger arriving)
      (handle_read (some new_connection) arriving server)
handle_read-Burst_example =
    handle_read-Burst loop_of before ledger arriving server server-Represents (refl, tt)
      (omega arith)

-- A connection that is kept and waits for its timer.
abbrev waiting : Life
waiting = record {
  state = k_connected;
  alive = true;
  timeout = false;
  in_map = true;
  loop_tasks = [];
  removals = 0;
  timer = true;
}

waiting-Reach : Reach waiting
unfolding entered act run_task keep handlers
waiting-Reach = later (later begin task refl refl) (event (keeping ∷ [])) refl refl

Reach-Cared_example : Cared waiting
Reach-Cared_example = Reach-Cared waiting waiting-Reach
