-- ===== src/TcpConnection.antt =====
-- TcpConnection.h and TcpConnection.cpp: one connection, with its HTTP context, its channel and the
-- epoll of its loop. The handlers run in the thread of that loop, which assertInLoopThread checks.
-- What a handler asks of the socket, of the timers and of the server is recorded, in order.
mod Tests
pub mod Close
pub mod Traffic
pub mod Effects
pub mod Read
pub mod Serve
pub mod Abort
pub mod Keeping
pub mod Session
pub mod Opening
pub mod Life
use wserver.Prelude.{
  ℕ, ◌≡◌, ◌<◌, Bool, true, false, not, ◌&&◌, List, [], ◌∷◌, ◌++◌, Exec, done, stop, fatal, ◌>>=◌,
  ◌==◌, ltb, if◌then◌else◌, codes,
}
use wserver.Buffer.{
  Buffer, Count, bytes, minus_one, ReadResult, WriteResult, readable_bytes, read_from_fd,
  write_to_fd,
}
use wserver.HttpContext.{HttpContext, reset, is_keep_alive}
use wserver.HttpContext.Response.{work}
use wserver.Buffer
use wserver.HttpContext
use wserver.Channel
use wserver.Channel.{
  set_read_handler, set_write_handler, set_error_handler, set_close_handler, Channel, Handler,
  on_close, on_error, on_read, on_write, handle_event, enable_reading, enable_writing, disable_all,
  is_writing,
}
use wserver.Epoll.{Kernel, Epoll, update_channel, remove}
use wserver.TimerHeap.{default_time_delay}

pub data StateE : Type 0 where
  k_connecting k_connected k_disconnected k_disconnecting : StateE

-- Requests that leave the connection: bytes written to the socket, shutdown(2) of its writing side,
-- `runAfter` with closeLongConnection, and `m_close_callback`, which is TcpServer::removeConnection.
pub data Effect : Type 0 where
  sent : List ℕ → Effect
  shutdown_write : Effect
  close_after : ℕ → Effect
  close_callback : Effect
  queue_shutdown : Effect

-- `address` is that of the channel. The two buffers are those of the context.
pub record TcpConnection : Type 0 where
  pub state : StateE
  pub alive : Bool
  pub timeout : Bool
  pub context : HttpContext
  pub address : ℕ
  pub channel : Channel
  pub effects : List Effect

-- The constructor, for the descriptor `fd`, with its channel at `address`.
unfoldable pub new : ℕ → ℕ → TcpConnection
new address fd =
    let c = set_read_handler true (Channel.new fd) in
    record {
      state = k_connecting;
      alive = false;
      timeout = false;
      context = HttpContext.new Buffer.new Buffer.new;
      address = address;
      channel = set_close_handler true (set_error_handler true (set_write_handler true c));
      effects = [];
    }

unfoldable pub state_to_string : StateE → List ℕ
state_to_string k_connecting = codes "kConnecting"
state_to_string k_connected = codes "kConnected"
state_to_string k_disconnected = codes "kDisconnected"
state_to_string k_disconnecting = codes "kDisconnecting"

-- What the system gives one run of a handler: the results of read(2) and write(2), and the text of
-- timeStamp().
pub record Io : Type 0 where
  pub reads : List ReadResult
  pub writes : List WriteResult
  pub now : List ℕ

abbrev pub is_connected : StateE → Bool
is_connected k_connected = true
is_connected _ = false

-- `m_state == kConnected || m_state == kDisconnecting`
abbrev pub is_open : StateE → Bool
is_open k_connected = true
is_open k_disconnecting = true
is_open _ = false

-- The connection waits for closeLongConnection.
abbrev pub is_kept : TcpConnection → Bool
is_kept t = t.alive && not t.timeout

abbrev pub emit : Effect → TcpConnection → TcpConnection
emit x t = record t { effects = t.effects ++ x ∷ [] }

-- A connection that the request asks to keep is closed by a timer.
unfoldable pub keep : TcpConnection → TcpConnection
keep t =
    if not t.alive && is_keep_alive t.context
    then emit (close_after default_time_delay) (record t { alive = true })
    else t

module _ (k : Kernel) where
  abbrev pub World : Type 0
  World = TcpConnection × Epoll k

  -- The channel is given new events, and update() is called.
  unfoldable pub set_channel : Channel → World → Exec World
  set_channel c w = do
    r ← update_channel k w.0.address c w.1
    done (record w.0 { channel = r.0 }, r.1)

  unfoldable pub connect_established : World → Exec World
  connect_established (t, e) =
      set_channel (enable_reading t.channel) (record t { state = k_connected }, e)

  unfoldable pub connect_destroyed : World → Exec World
  connect_destroyed (t, e) = do
    w ←
        if is_connected t.state
        then set_channel (disable_all t.channel) (record t { state = k_disconnected }, e)
        else done (t, e)
    r ← remove k w.0.address w.0.channel w.1
    done (record w.0 { channel = r.0 }, r.1)

  unfoldable pub handle_close : World → Exec World
  handle_close (t, e) =
      let close : Exec World = do
        w ← set_channel (disable_all t.channel) (record t { state = k_disconnected }, e)
        let t' = if t.alive then w.0 else emit shutdown_write w.0
        done (emit close_callback t', w.1)
      in if is_kept t then done (t, e) else if is_open t.state then close else stop fatal

  unfoldable pub close_long_connection : World → Exec World
  close_long_connection (t, e) = handle_close (record t { timeout = true }, e)

  -- handleError: the error of the socket is logged.
  unfoldable pub handle_error : World → Exec World
  handle_error w = handle_close w

  -- The tests of handleWrite, after `n` bytes or an error, on what is left in the output buffer.
  unfoldable pub after_write : Count → World → Exec World
  after_write minus_one w = handle_error w
  after_write (bytes n) (t, e) =
      let left = readable_bytes t.context.output_buffer in
      if (n == 0) && (left == 0)
      then handle_close (t, e)
      else if n == 0
      then handle_error (t, e)
      else if ltb 0 left
      then set_channel (enable_writing t.channel) (t, e)
      else if is_kept t
      then set_channel (enable_reading t.channel) (record t { context = reset t.context }, e)
      else handle_close (t, e)

  unfoldable pub handle_write : List WriteResult → World → Exec World
  handle_write writes (t, e) =
      let r = write_to_fd t.context.output_buffer writes in
      after_write r.1
        (emit (sent r.2) (record t { context = record t.context { output_buffer = r.0 } }), e)

  -- The tests of handleRead, after `n` bytes or an error.
  unfoldable pub after_read : Io → Count → World → Exec World
  after_read io minus_one w = handle_error w
  after_read io (bytes n) (t, e) =
      let answer : Exec World = do
        c ← work t.context io.now
        handle_write io.writes (keep (record t { context = c }), e)
      in if n == 0 then handle_close (t, e) else answer

  unfoldable pub handle_read : Io → World → Exec World
  handle_read io (t, e) = do
    r ← read_from_fd t.context.input_buffer io.reads
    after_read io r.1 (record t { context = record t.context { input_buffer = r.0 } }, e)

  -- The handlers that the constructor gives to the channel; the results of the write handler's own
  -- calls are `writes`.
  unfoldable pub run_handler : Io → List WriteResult → Handler → World → Exec World
  run_handler io writes on_close w = handle_close w
  run_handler io writes on_error w = handle_error w
  run_handler io writes on_read w = handle_read io w
  run_handler io writes on_write w = handle_write writes w

  unfoldable pub run_handlers : Io → List WriteResult → List Handler → World → Exec World
  run_handlers io writes [] w = done w
  run_handlers io writes (h ∷ hs) w = do
    w' ← run_handler io writes h w
    run_handlers io writes hs w'

  -- The loop's call of Channel::handleEvent.
  unfoldable pub on_event : Io → List WriteResult → World → Exec World
  on_event io writes (t, e) = run_handlers io writes (handle_event t.channel) (t, e)

  unfoldable pub shutdown_in_loop : World → Exec World
  shutdown_in_loop (t, e) = done (if is_writing t.channel then t else emit shutdown_write t, e)

  -- shutdown, called in the loop's thread or in another one, where runInLoop queues the call.
  unfoldable pub shutdown : Bool → World → Exec World
  shutdown in_loop (t, e) =
      let t' = record t { state = k_disconnecting } in
      if is_connected t.state
      then (if in_loop then shutdown_in_loop (t', e) else done (emit queue_shutdown t', e))
      else done (t, e)
