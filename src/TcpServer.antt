-- ===== src/TcpServer.antt =====
-- TcpServer.h and TcpServer.cpp: the connections of the server, by their names.
-- The server runs in the main loop. What it hands to the loops of the connections is recorded, in
-- order, with the loop. A connection is a value: its name, its descriptor and its loop.
pub mod Accepting
pub mod Ledger
pub mod Lifetime
pub mod Names
pub mod Table
mod Tests
use wserver.Prelude.{
  ℕ, ◌+◌, ◌-◌, ◌^◌, ◌≡◌, Bool, true, false, Option, none, some, List, [], ◌∷◌, ◌++◌, take, codes,
  bytes_eq, Exec, done, stop, overflow, require, ◌>>=◌, ◌>>◌, ltb, if◌then◌else◌,
}
use wserver.Prelude.Decimal.{decimal}
use wserver.EventLoopThreadPool
use wserver.EventLoopThreadPool.{EventLoopThreadPool, get_next_loop, set_thread_nums}

pub record Conn : Type 0 where
  pub name : List ℕ
  pub fd : ℕ
  pub loop : ℕ

-- What a loop is given to run: the methods of a connection, removeConnectionInLoop, or
-- Acceptor::listen.
pub data Task : Type 0 where
  connect_established connect_destroyed remove_connection : Conn → Task
  listen : Task

pub record TcpServer : Type 0 where
  pub main_loop : ℕ
  pub name : List ℕ
  pub pool : EventLoopThreadPool
  pub started : Bool
  pub next_conn_id : ℕ
  pub connections : List Conn
  pub posted : List (ℕ × Task)

unfoldable pub new : ℕ → List ℕ → TcpServer
new main_loop name = record {
  main_loop = main_loop;
  name = name;
  pool = EventLoopThreadPool.new;
  started = false;
  next_conn_id = 1;
  connections = [];
  posted = [];
}

-- `m_name + buf`, where snprintf has written into `char buf[32]`.
unfoldable pub conn_name : List ℕ → ℕ → List ℕ
conn_name name id = name ++ take 31 (codes "#conn-id: " ++ decimal id)

-- The map: `m_connections[conn_name] = conn`, erase, and a lookup.
unfoldable pub put : Conn → List Conn → List Conn
put c [] = c ∷ []
put c (d ∷ ds) = if bytes_eq d.name c.name then c ∷ ds else d ∷ put c ds

unfoldable pub erase : List ℕ → List Conn → List Conn
erase n [] = []
erase n (d ∷ ds) = if bytes_eq d.name n then erase n ds else d ∷ erase n ds

unfoldable pub find : List ℕ → List Conn → Option Conn
find n [] = none
find n (d ∷ ds) = if bytes_eq d.name n then some d else find n ds

abbrev pub post : ℕ → Task → TcpServer → TcpServer
post loop task s = record s { posted = s.posted ++ (loop, task) ∷ [] }

-- The id goes into the name, and is then counted up.
unfoldable pub new_connection : ℕ → TcpServer → Exec TcpServer
new_connection fd s = do
  require (ltb s.next_conn_id (2 ^ 31 - 1)) overflow
  r ← get_next_loop s.pool
  let c : Conn = record { name = conn_name s.name s.next_conn_id; fd = fd; loop = r.0 }
  done (
      post r.0 (connect_established c) (record s {
        next_conn_id = s.next_conn_id + 1;
        pool = r.1;
        connections = put c s.connections;
      }))

-- removeConnection, in the loop of the connection.
unfoldable pub hand_removal : Conn → TcpServer → TcpServer
hand_removal c s = post s.main_loop (remove_connection c) s

unfoldable pub remove_connection_in_loop : Conn → TcpServer → TcpServer
remove_connection_in_loop c s =
    post c.loop (connect_destroyed c) (record s { connections = erase c.name s.connections })

unfoldable pub post_all : List Conn → TcpServer → TcpServer
post_all [] s = s
post_all (c ∷ cs) s = post_all cs (post c.loop (connect_destroyed c) s)

-- The destructor.
unfoldable pub destroy : TcpServer → TcpServer
destroy s = post_all s.connections (record s { connections = [] })

-- start: `fresh` are the loops of the new threads.
unfoldable pub start : List ℕ → TcpServer → TcpServer
start fresh s =
    post s.main_loop listen
      (record s { started = true; pool = EventLoopThreadPool.start fresh s.pool })

unfoldable pub set_threads : ℕ → TcpServer → TcpServer
set_threads nums s = record s { pool = set_thread_nums nums s.pool }
