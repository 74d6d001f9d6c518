-- ===== src/Main/Turns.antt =====
-- The turns of the main loop behind main's start: connections arrive at the acceptor, and others end.
use wserver.Prelude.{
  ℕ, suc, ◌+◌, ◌^◌, ◌≡◌, ◌<◌, refl, ap, some, List, [], ◌∷◌, ◌++◌, length, length-append, Exec,
  done, ◌>>=◌, Returns, Returns-map, ◌==◌, if◌then◌else◌, arith,
}
use wserver.Acceptor.{AcceptResult, accepted, failed, handle_read}
use wserver.Acceptor.Drain.{Known, connections}
use wserver.TcpServer.{TcpServer, Task, conn_name, find, new_connection}
use wserver.TcpServer.Ledger.{Event, closed, close-next, Ledger, close, happen, replay, drop_found}
use wserver.TcpServer.Table.{Represents, dropped_one}
use wserver.TcpServer.Accepting.{events, next-events, handle_read-Burst}

-- `arrive`: the listening socket is reported readable, and accept(2) gives these results behind those
-- that an earlier run left. `leave`: removeConnectionInLoop runs for the connection with the id.
pub data Turn : Type 0 where
  arrive : List AcceptResult → Turn
  leave : ℕ → Turn

-- The server, the results of accept that are still to be asked for, and the descriptors that were
-- closed at once.
pub record MainLoop : Type 0 where
  pub server : TcpServer
  pub waiting : List AcceptResult
  pub refused : List ℕ

abbrev pub turn : Turn → MainLoop → Exec MainLoop
turn (arrive rs) m = do
  a ← handle_read (some new_connection) (m.waiting ++ rs) m.server
  done (record { server = a.state; waiting = a.waiting; refused = m.refused ++ a.closed })
turn (leave i) m =
    let found = find (conn_name m.server.name i) m.server.connections in
    done (record m { server = drop_found found m.server })

abbrev pub turns : List Turn → MainLoop → Exec MainLoop
turns [] m = done m
turns (t ∷ ts) m = turn t m >>= turns ts

-- Connections arrive with errors that Socket::accept knows, and ids are values of an int.
abbrev pub AreKnown : List Turn → Type 0
AreKnown [] = Unit {0}
AreKnown (arrive rs ∷ ts) = Known rs × AreKnown ts
AreKnown (leave i ∷ ts) = (i < 2 ^ 31) × AreKnown ts

abbrev pub arrived : List Turn → List AcceptResult
arrived [] = []
arrived (arrive rs ∷ ts) = rs ++ arrived ts
arrived (leave i ∷ ts) = arrived ts

-- The descriptors that entered the table.
abbrev pub entered : List Event → List ℕ
entered [] = []
entered (Event.accepted fd ∷ es) = fd ∷ entered es
entered (closed i ∷ es) = entered es

-- How often `x` stands in a list.
abbrev pub times : ℕ → List ℕ → ℕ
times x [] = 0
times x (y ∷ ys) = if x == y then suc (times x ys) else times x ys

times-append : (x : ℕ) (ys zs : List ℕ) → times x (ys ++ zs) ≡ times x ys + times x zs
times-append x [] zs = omega arith
times-append x (y ∷ ys) zs = ground (arith, times-append x ys zs)

connections-append :
    (rs ss : List AcceptResult) → connections (rs ++ ss) ≡ connections rs ++ connections ss
connections-append [] ss = refl
connections-append (accepted fd ∷ rs) ss = ap (λ x. fd ∷ x) (connections-append rs ss)
connections-append (failed e ∷ rs) ss = connections-append rs ss

Known-append : (rs ss : List AcceptResult) → Known rs → Known ss → Known (rs ++ ss)
Known-append [] ss h k = k
Known-append (accepted fd ∷ rs) ss h k = Known-append rs ss h k
Known-append (failed e ∷ rs) ss h k = (h.0, Known-append rs ss h.1 k)

entered-events : (fds : List ℕ) (es : List Event) → entered (events fds ++ es) ≡ fds ++ entered es
entered-events [] es = refl
entered-events (fd ∷ fds) es = ap (λ x. fd ∷ x) (entered-events fds es)

replay-append :
    (loop_of : ℕ → ℕ) (es fs : List Event) (l : Ledger)
    → replay loop_of (es ++ fs) l ≡ replay loop_of fs (replay loop_of es l)
replay-append loop_of [] fs l = refl
replay-append loop_of (e ∷ es) fs l = replay-append loop_of es fs (happen loop_of e l)

module _ (loop_of : ℕ → ℕ) (before : List (ℕ × Task)) where
  -- The server is as a ledger says on which some events have happened, and every connection that
  -- arrived has entered, or was closed at once, or still waits, as often as it arrived.
  pub record Kept (l : Ledger) (m : MainLoop) (all : List ℕ) (m' : MainLoop) : Type 0 where
    pub history : List Event
    pub table : Represents loop_of before m'.server (replay loop_of history l)
    pub each_once :
        (fd : ℕ)
        → times fd (entered history) + times fd m'.refused + times fd (connections m'.waiting)
          ≡ times fd m.refused + times fd (connections m.waiting) + times fd all

  arrive_then :
      (rs : List AcceptResult) (all : List ℕ) (m : MainLoop) (l : Ledger)
      (a : TcpServer × List AcceptResult × List ℕ) (handed : List ℕ)
      → handed ++ (a.2 ++ connections a.1) ≡ connections (m.waiting ++ rs)
      → (m' : MainLoop)
      → Kept
          (replay loop_of (events handed) l)
          (record { server = a.0; waiting = a.1; refused = m.refused ++ a.2 })
          all
          m'
      → Kept l m (connections rs ++ all) m'
  arrive_then rs all m l a handed e m' p = record {
    history = events handed ++ p.history;
    table = rw (replay-append loop_of (events handed) p.history l) p.table;
    each_once = λ fd. omega (
      arith,
      p.each_once fd,
      ap (times fd) (entered-events handed p.history),
      times-append fd handed (entered p.history),
      times-append fd handed (a.2 ++ connections a.1),
      times-append fd a.2 (connections a.1),
      times-append fd m.refused a.2,
      ap (times fd) e,
      ap (times fd) (connections-append m.waiting rs),
      times-append fd (connections m.waiting) (connections rs),
      times-append fd (connections rs) all,
    );
  }

  pub turns-Kept :
      (ts : List Turn) (m : MainLoop) (l : Ledger)
      → Represents loop_of before m.server l
      → Known m.waiting
      → AreKnown ts
      → l.next + length m.waiting + length (arrived ts) < 2 ^ 31
      → Returns (Kept l m (connections (arrived ts))) (turns ts m)
  turns-Kept [] m l r w k room =
      (m, refl, record { history = []; table = r; each_once = λ fd. omega arith })
  turns-Kept (arrive rs ∷ ts) m l r w k room =
      let size = length-append m.waiting rs in
      let more = length-append rs (arrived ts) in
      let (a, e, b) =
        handle_read-Burst loop_of before l (m.waiting ++ rs) m.server r
          (Known-append m.waiting rs w k.0) (omega arith) in
      let m₁ : MainLoop = record {
        server = a.state;
        waiting = a.waiting;
        refused = m.refused ++ a.closed;
      } in
      let l₁ = replay loop_of (events b.handed) l in
      rw (e, connections-append rs (arrived ts))
        (Returns-map (Kept l₁ m₁ (connections (arrived ts))) _ (turns ts m₁)
          (turns-Kept ts m₁ l₁ b.table b.known k.1
            (omega (arith, next-events loop_of b.handed l, b.rest)))
          (arrive_then rs (connections (arrived ts)) m l (a.state, a.waiting, a.closed) b.handed
            b.each_once))
  turns-Kept (leave i ∷ ts) m l r w k room =
      let found = find (conn_name m.server.name i) m.server.connections in
      let m₁ : MainLoop = record m { server = drop_found found m.server } in
      let l₁ = close i (l.entry i) l in
      Returns-map (Kept l₁ m₁ (connections (arrived ts))) (Kept l m (connections (arrived ts)))
        (turns ts m₁)
        (turns-Kept ts m₁ l₁
          (rw (r.entries i k.0) (dropped_one loop_of before m.server l i (l.entry i) r k.0)) w k.1
          (omega (arith, close-next i (l.entry i) l)))
        λ m' p. record { history = closed i ∷ p.history; table = p.table; each_once = p.each_once }
