-- ===== src/TcpServer/Lifetime.antt =====
-- TcpServer.cpp and TcpConnection.cpp: the references to one connection, from newConnection to its
-- destructor, while the server lives. The map of the server, the functors with a shared_ptr and the
-- timer of a kept connection hold it; the functor of connectEstablished has a raw pointer. An event
-- comes to a connection only while its channel is registered, which it is in k_connected. Its handlers
-- call handleClose and set the timer of a kept connection, any number of times and in any order.
pub mod Alive
use wserver.Prelude.{
  ℕ, zero, suc, ◌+◌, ◌-◌, ◌≡◌, Bool, true, false, not, ◌&&◌, ◌||◌, List, [], ◌∷◌, ◌++◌, Exec, done,
  stop, use_after_free, fatal, require, ◌>>=◌, ◌>>◌, ltb, if◌then◌else◌,
}
use wserver.TcpConnection.{
  StateE, k_connecting, k_connected, k_disconnected, k_disconnecting, is_connected, is_open,
}

pub data LoopTask : Type 0 where
  established destroyed : LoopTask

-- `removals` counts the functors of removeConnectionInLoop that wait in the main loop.
pub record Life : Type 0 where
  pub state : StateE
  pub alive : Bool
  pub timeout : Bool
  pub in_map : Bool
  pub loop_tasks : List LoopTask
  pub removals : ℕ
  pub timer : Bool

-- newConnection.
unfoldable pub entered : Life
entered = record {
  state = k_connecting;
  alive = false;
  timeout = false;
  in_map = true;
  loop_tasks = established ∷ [];
  removals = 0;
  timer = false;
}

abbrev pub any_destroyed : List LoopTask → Bool
any_destroyed [] = false
any_destroyed (established ∷ ts) = any_destroyed ts
any_destroyed (destroyed ∷ ts) = true

-- A shared_ptr to the connection is left.
abbrev pub is_held : Life → Bool
is_held l = (l.in_map || any_destroyed l.loop_tasks) || (ltb 0 l.removals || l.timer)

abbrev pub is_disconnected : StateE → Bool
is_disconnected k_disconnected = true
is_disconnected _ = false

-- A shared_ptr goes: the destructor runs with the last one.
unfoldable pub release : Life → Exec Life
release l = if is_held l then done l else if is_disconnected l.state then done l else stop fatal

unfoldable pub handle_close : Life → Exec Life
handle_close l =
    if l.alive && not l.timeout
    then done l
    else if is_open l.state
    then done (record l { state = k_disconnected; removals = l.removals + 1 })
    else stop fatal

unfoldable pub connect_destroyed : Life → Life
connect_destroyed l = record l { state = if is_connected l.state then k_disconnected else l.state }

-- The first functor of the connection's loop.
unfoldable pub run_task : List LoopTask → Life → Exec Life
run_task [] l = done l
run_task (established ∷ ts) l = do
  require (is_held l) use_after_free
  done (record l { state = k_connected; loop_tasks = ts })
run_task (destroyed ∷ ts) l = release (record (connect_destroyed l) { loop_tasks = ts })

-- What the handlers of an event do to the references: a call of handleClose, or handleRead with a
-- request that asks to be kept.
pub data Call : Type 0 where
  closing keeping : Call

-- handleRead of a request that asks to be kept: runAfter with a shared_ptr.
unfoldable pub keep : Life → Life
keep l = if l.alive then l else record l { alive = true; timer = true }

unfoldable pub handlers : List Call → Life → Exec Life
handlers [] l = done l
handlers (closing ∷ cs) l = handle_close l >>= handlers cs
handlers (keeping ∷ cs) l = handlers cs (keep l)

-- closeLongConnection, called by the timer, which is gone then.
unfoldable pub close_long_connection : Life → Exec Life
close_long_connection l = do
  l' ← handle_close (record l { timeout = true })
  release (record l' { timer = false })

-- removeConnectionInLoop, in the main loop.
unfoldable pub remove_in_loop : ℕ → Life → Life
remove_in_loop zero l = l
remove_in_loop (suc n) l = record l {
  in_map = false;
  removals = n;
  loop_tasks = l.loop_tasks ++ destroyed ∷ [];
}

pub data Action : Type 0 where
  task expiry removal : Action
  event : List Call → Action

-- No handler of the event calls behind handleClose.
abbrev pub closes_last : List Call → Bool
closes_last [] = true
closes_last (closing ∷ []) = true
closes_last (closing ∷ c ∷ cs) = false
closes_last (keeping ∷ cs) = closes_last cs

abbrev pub is_single : Action → Bool
is_single (event cs) = closes_last cs
is_single _ = true

unfoldable pub act : Action → Life → Exec Life
act task l = run_task l.loop_tasks l
act (event cs) l = let ran = handlers cs l in if is_connected l.state then ran else done l
act expiry l = if l.timer then close_long_connection l else done l
act removal l = done (remove_in_loop l.removals l)

-- The states reached by steps whose events do nothing behind handleClose.
pub data Reach : Life → Type 0 where
  begin : Reach entered
  later : {l l' : Life} → Reach l → (a : Action) → is_single a ≡ true → act a l ≡ done l' → Reach l'
