-- ===== src/AsyncLog.antt =====
-- base/AsyncLog.h and base/AsyncLog.cpp: the buffers between the threads that log and the thread that
-- writes the file. A buffer is the bytes in it, a unique_ptr to one an Option; `size` is the size of
-- a buffer. Each operation holds the mutex where it touches the shared buffers.
pub mod Rounds
pub mod System
mod Tests
use wserver.Prelude.{
  ℕ, suc, ◌+◌, ◌≡◌, Bool, Option, none, some, List, [], ◌∷◌, ◌++◌, length, take, Exec, done, stop,
  out_of_bounds, null_deref, require, or_stop, ◌>>=◌, ◌>>◌, ltb, leb, if◌then◌else◌,
}
use wserver.LogStream.{strncpy}

abbrev pub Pointer : Type 0
Pointer = Option (List ℕ)

pub record AsyncLog : Type 0 where
  pub cur_buffer : Pointer
  pub next_buffer : Pointer
  pub buffers : List Pointer

-- The variables of threadFunc, and the bytes given to the log file.
pub record Backend : Type 0 where
  pub new_buffer_1 : Pointer
  pub new_buffer_2 : Pointer
  pub output : List ℕ

-- FixedBuffer::append through a pointer.
unfoldable pub append_to : ℕ → Pointer → List ℕ → Exec Pointer
append_to size p msg = do
  b ← or_stop p null_deref
  require (leb (length b + length msg) size) out_of_bounds
  done (some (b ++ strncpy msg))

-- The branch of append where the current buffer has no room.
unfoldable pub append_next : ℕ → List ℕ → AsyncLog → Exec AsyncLog
append_next size msg s =
    let pushed = s.buffers ++ s.cur_buffer ∷ [] in
    elim s.next_buffer [
      | none ↦ (do
        c ← append_to size none msg
        done (record { cur_buffer = c; next_buffer = some []; buffers = pushed }))
      | some b ↦ (do
        c ← append_to size (some b) msg
        done (record { cur_buffer = c; next_buffer = none; buffers = pushed }))
    ]

unfoldable pub append : ℕ → List ℕ → AsyncLog → Exec AsyncLog
append size msg s =
    let here : Exec AsyncLog = do
      c ← append_to size s.cur_buffer msg
      done (record s { cur_buffer = c })
    in do
      b ← or_stop s.cur_buffer null_deref
      if leb (length b + length msg) size then here else append_next size msg s

-- `output.append(buffer->data(), buffer->length())` for each buffer.
unfoldable pub write_all : List Pointer → List ℕ → Exec (List ℕ)
write_all [] out = done out
write_all (p ∷ ps) out = do b ← or_stop p null_deref; write_all ps (out ++ b)

-- A spare buffer that was given away is taken back from the end of the list, and reset.
unfoldable pub refill : Pointer → List Pointer → Exec (Pointer × List Pointer)
refill (some b) ps = done (some b, ps)
refill none [] = stop out_of_bounds
refill none (p ∷ []) = do b ← or_stop p null_deref; done (some [], [])
refill none (p ∷ q ∷ ps) = do r ← refill none (q ∷ ps); done (r.0, p ∷ r.1)

abbrev pub first_of : Pointer → Pointer → Pointer
first_of none q = q
first_of (some b) q = some b

abbrev pub left_of : Pointer → Pointer → Pointer
left_of none q = none
left_of (some b) q = q

-- What a round of threadFunc does while it holds the mutex: the buffers it takes, in order.
unfoldable pub collect : AsyncLog → Backend → AsyncLog × (Backend × List Pointer)
collect s b = (
  record {
    cur_buffer = b.new_buffer_1;
    next_buffer = first_of s.next_buffer b.new_buffer_2;
    buffers = [];
  },
  (
    record b { new_buffer_1 = none; new_buffer_2 = left_of s.next_buffer b.new_buffer_2 },
    s.buffers ++ s.cur_buffer ∷ [],
  ),
)

-- What it does with them then; `notice` is the line about dropped messages.
unfoldable pub write_out : List ℕ → List Pointer → Backend → Exec Backend
write_out notice all b =
    let full = ltb 20 (length all) in
    let kept = if full then take 2 all else all in
    let start = if full then b.output ++ notice else b.output in
    do
      out ← write_all kept start
      one ← refill b.new_buffer_1 (take 2 kept)
      two ← refill b.new_buffer_2 one.1
      done (record { new_buffer_1 = one.0; new_buffer_2 = two.0; output = out })

-- A round of threadFunc that no other thread comes between.
unfoldable pub round : List ℕ → AsyncLog → Backend → Exec (AsyncLog × Backend)
round notice s b = let c = collect s b in write_out notice c.1.1 c.1.0 >>= λ b'. done (c.0, b')
