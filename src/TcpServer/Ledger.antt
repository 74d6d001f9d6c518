-- ===== src/TcpServer/Ledger.antt =====
-- An abstract server: the open connections as a function of their ids, and what the loops are told.
use wserver.Prelude.{
  ℕ, ◌+◌, ◌^◌, ◌<◌, ◌==◌, Option, none, some, List, [], ◌∷◌, ◌++◌, ◌≡◌, refl, ap, Exec, done, ◌>>=◌,
  if◌then◌else◌,
}
use wserver.TcpServer.{
  Conn, Task, connect_established, connect_destroyed, TcpServer, conn_name, find, new_connection,
  remove_connection_in_loop,
}

-- What happens to a server: accept gives a descriptor, or the peer of the connection with the id
-- closes.
pub data Event : Type 0 where
  accepted closed : ℕ → Event

abbrev pub accepts : List Event → ℕ
accepts [] = 0
accepts (accepted fd ∷ es) = 1 + accepts es
accepts (closed i ∷ es) = accepts es

-- The ids that close are values of an int.
abbrev pub Ids : List Event → Type 0
Ids [] = Unit {0}
Ids (accepted fd ∷ es) = Ids es
Ids (closed i ∷ es) = (i < 2 ^ 31) × Ids es

-- What a loop is told of a connection: its id and its descriptor.
pub data Told : Type 0 where
  opened dropped : ℕ → ℕ → Told

-- An open connection is its descriptor and its loop.
pub record Ledger : Type 0 where
  pub next : ℕ
  pub turn : ℕ
  pub entry : ℕ → Option (ℕ × ℕ)
  pub told : List (ℕ × Told)

abbrev pub update : (ℕ → Option (ℕ × ℕ)) → ℕ → Option (ℕ × ℕ) → ℕ → Option (ℕ × ℕ)
update f q w p = if q == p then w else f p

abbrev pub close : ℕ → Option (ℕ × ℕ) → Ledger → Ledger
close i none l = l
close i (some (fd, loop)) l = record l {
  entry = update l.entry i none;
  told = l.told ++ (loop, dropped i fd) ∷ [];
}

pub close-next : (i : ℕ) (o : Option (ℕ × ℕ)) (l : Ledger) → (close i o l).next ≡ l.next
close-next i none l = refl
close-next i (some (fd, loop)) l = refl

module _ (loop_of : ℕ → ℕ) where
  abbrev pub happen : Event → Ledger → Ledger
  happen (accepted fd) l = record l {
    next = l.next + 1;
    turn = l.turn + 1;
    entry = update l.entry l.next (some (fd, loop_of l.turn));
    told = l.told ++ (loop_of l.turn, opened l.next fd) ∷ [];
  }
  happen (closed i) l = close i (l.entry i) l

  abbrev pub replay : List Event → Ledger → Ledger
  replay [] l = l
  replay (e ∷ es) l = replay es (happen e l)

-- The same events for the server of the source.
abbrev pub drop_found : Option Conn → TcpServer → TcpServer
drop_found none s = s
drop_found (some c) s = remove_connection_in_loop c s

abbrev pub serve_one : Event → TcpServer → Exec TcpServer
serve_one (accepted fd) s = new_connection fd s
serve_one (closed i) s = done (drop_found (find (conn_name s.name i) s.connections) s)

abbrev pub serve : List Event → TcpServer → Exec TcpServer
serve [] s = done s
serve (e ∷ es) s = serve_one e s >>= serve es

abbrev pub conn : List ℕ → ℕ → ℕ × ℕ → Conn
conn name i (fd, loop) = record { name = conn_name name i; fd = fd; loop = loop }

abbrev pub task : List ℕ → ℕ × Told → ℕ × Task
task name (loop, opened i fd) = (loop, connect_established (conn name i (fd, loop)))
task name (loop, dropped i fd) = (loop, connect_destroyed (conn name i (fd, loop)))

abbrev pub tasks : List ℕ → List (ℕ × Told) → List (ℕ × Task)
tasks name [] = []
tasks name (t ∷ ts) = task name t ∷ tasks name ts

pub tasks-append :
    (name : List ℕ) (ts us : List (ℕ × Told))
    → tasks name (ts ++ us) ≡ tasks name ts ++ tasks name us
tasks-append name [] us = refl
tasks-append name (t ∷ ts) us = ap (λ r. task name t ∷ r) (tasks-append name ts us)
