-- ===== src/EventLoopThreadPool.antt =====
-- EventLoopThreadPool.h and EventLoopThreadPool.cpp: the loops of the I/O threads, taken in turn.
-- A loop is a number, its address; startLoop, which gives one, is the list handed to `start`.
pub mod Turns
use wserver.Prelude.{
  ℕ, zero, suc, ◌+◌, ◌%◌, ◌≡◌, Bool, true, false, Option, none, some, List, [], ◌∷◌, ◌++◌, length,
  get_elem?, take, Exec, done, stop, out_of_bounds, or_stop, ◌>>=◌,
}

pub record EventLoopThreadPool : Type 0 where
  pub started : Bool
  pub thread_nums : ℕ
  pub next : ℕ
  pub loops : List ℕ

abbrev pub default_thread_nums : ℕ
default_thread_nums = 4

unfoldable pub new : EventLoopThreadPool
new = record { started = false; thread_nums = default_thread_nums; next = 0; loops = [] }

unfoldable pub set_thread_nums : ℕ → EventLoopThreadPool → EventLoopThreadPool
set_thread_nums n p = record p { thread_nums = n }

-- start: `fresh` are the loops that the threads make, one after the other.
unfoldable pub start : List ℕ → EventLoopThreadPool → EventLoopThreadPool
start fresh p = record p { started = true; loops = p.loops ++ take p.thread_nums fresh }

-- getNextLoop; with no loops the access is out of bounds, and the remainder is by 0.
unfoldable pub get_next_loop : EventLoopThreadPool → Exec (ℕ × EventLoopThreadPool)
get_next_loop p = do
  l ← or_stop (get_elem? p.loops p.next) out_of_bounds
  done (l, record p { next = (p.next + 1) % length p.loops })

-- `n` calls of getNextLoop, and what they return.
unfoldable pub calls : ℕ → EventLoopThreadPool → Exec (List ℕ × EventLoopThreadPool)
calls zero p = done ([], p)
calls (suc n) p = do r ← get_next_loop p; rest ← calls n r.1; done (r.0 ∷ rest.0, rest.1)
