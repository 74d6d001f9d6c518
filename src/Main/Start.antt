-- ===== src/Main/Start.antt =====
-- The program from the start of main: the server begins as the empty ledger, and the turns go on.
use wserver.Prelude.{
  ℕ, zero, suc, ◌%◌, ◌^◌, ◌≡◌, ◌<◌, refl, none, some, List, [], ◌∷◌, length, get_elem?, get_or,
  take, take-all, ◌-◌, Returns, arith,
}
use wserver.Acceptor.Drain.{connections}
use wserver.EventLoopThreadPool
use wserver.TcpServer
use wserver.TcpServer.{TcpServer, Task, listen, conn_name, find, new_connection}
use wserver.TcpServer.Ledger.{Ledger}
use wserver.TcpServer.Table.{Represents}
use wserver.Main.{main}
use wserver.Main.Turns.{Turn, MainLoop, turns, AreKnown, arrived, Kept, turns-Kept}

-- What loop() starts from.
abbrev pub started : ℕ → List ℕ → MainLoop
started loop fresh = record { server = (main loop fresh).server; waiting = []; refused = [] }

-- The server as it starts: no connection, the first id, the first loop.
abbrev pub empty_ledger : Ledger
empty_ledger = record { next = 1; turn = 0; entry = λ i. none; told = [] }

-- The loops in turn.
abbrev pub round_robin : List ℕ → ℕ → ℕ
round_robin loops k = get_or loops (k % 4) 0

get_elem?-get_or : (xs : List ℕ) (i : ℕ) → i < length xs → get_elem? xs i ≡ some (get_or xs i 0)
get_elem?-get_or [] i h = absurd (omega (arith, h))
get_elem?-get_or (x ∷ xs) zero h = refl
get_elem?-get_or (x ∷ xs) (suc i) h = get_elem?-get_or xs i (omega (arith, h))

main-Represents :
    (loop : ℕ) (fresh : List ℕ)
    → length fresh ≡ 4
    → Represents (round_robin fresh) ((loop, listen) ∷ []) (main loop fresh).server empty_ledger
unfolding main TcpServer.start TcpServer.new EventLoopThreadPool.start EventLoopThreadPool.new find
main-Represents loop fresh e =
    let all : take 4 fresh ≡ fresh = take-all 4 fresh (omega (arith, e)) in
    record {
      ids = refl;
      turns = rw (all, e) refl;
      loops = λ k. rw (all, e) (get_elem?-get_or fresh (k % 4) (omega (arith, e)));
      entries = λ i b. refl;
      fresh = λ i b. refl;
      posted = refl;
    }

-- The program from the start of main, once startLoop has given four loops: the loop accepts
-- connections, as long as accept fails with known errors only and there are fewer results of accept
-- than an int has ids, and connections are removed, each id below 2 ^ 31, in any order. No turn stops.
-- There is a history of accepted and closed connections, on the empty ledger, with which the server
-- agrees at the end: the ids from 1 on are used once each, the four loops take the connections in
-- turn, the map has the entries of those that are open, and each loop was told of its own, behind the
-- main loop's listen. And every descriptor that arrived is in that history, or was closed at once, or
-- still waits in the kernel, exactly as often as it arrived.
pub main-Kept :
    (loop : ℕ) (fresh : List ℕ) (ts : List Turn)
    → length fresh ≡ 4
    → AreKnown ts
    → length (arrived ts) < 2 ^ 31 - 1
    → Returns
        (Kept
          (round_robin fresh)
          ((loop, listen) ∷ [])
          empty_ledger
          (started loop fresh)
          (connections (arrived ts)))
        (turns ts (started loop fresh))
main-Kept loop fresh ts e k room =
    turns-Kept (round_robin fresh) ((loop, listen) ∷ []) ts (started loop fresh) empty_ledger
      (main-Represents loop fresh e) tt k (omega (arith, room))
