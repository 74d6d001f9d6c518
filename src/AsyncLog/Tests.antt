-- ===== src/AsyncLog/Tests.antt =====
-- Two messages in buffers of four bytes, and a round.
use wserver.Prelude.{true, false, [], ◌∷◌, none, some}
use wserver.AsyncLog.Rounds.{log}
use wserver.AsyncLog.System.{System, writing}

-- One message is being written, and one has come after it.
abbrev late : System
late = record {
  log = log [] (4 ∷ 5 ∷ []) (some []);
  backend = record { new_buffer_1 = none; new_buffer_2 = some []; output = [] };
  phase = writing (some (1 ∷ 2 ∷ 3 ∷ []) ∷ []);
  running = true;
  flush = false;
}
