-- ===== src/Main.antt =====
-- main.cpp: the program, from the level of its log and the server that it starts to the turns of the
-- main loop. The loops of the I/O threads are given by their addresses.
mod Tests
pub mod Turns
pub mod Start
use wserver.Prelude.{ℕ, List, codes}
use wserver.Logging.{LogLevel, log_error}
use wserver.TcpServer
use wserver.TcpServer.{TcpServer}

pub record Program : Type 0 where
  pub loglevel : LogLevel
  pub server : TcpServer

-- main, up to the call of loop(): `loop` is the main loop, `fresh` are those that startLoop returns.
unfoldable pub main : ℕ → List ℕ → Program
main loop fresh = record {
  loglevel = log_error;
  server = TcpServer.start fresh (TcpServer.new loop (codes "myserver"));
}
