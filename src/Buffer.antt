-- ===== src/Buffer.antt =====
-- Buffer.h and Buffer.cpp: the byte buffer between a socket and the HTTP parser.
-- `m_buffer`, `m_read_index` and `m_write_index` are the fields below (`m_fd` is never used). The
-- sources of a system call are a list of its results, one for each call; see `read_from_fd`.
mod Tests
pub mod Append
pub mod Line
pub mod Io
pub mod Drain
use wserver.Prelude.{
  ℕ, zero, suc, ◌+◌, ◌-◌, ◌%◌, ◌^◌, ◌≤◌, ◌<◌, min, Bool, true, false, ◌&&◌, List, [], ◌∷◌, ◌++◌,
  length, get_or, take, drop, replicate, Exec, done, stop, out_of_bounds, ◌>>=◌, ltb, leb, ◌==◌,
  if◌then◌else◌,
}

pub record Buffer : Type 0 where
  pub read_index : ℕ
  pub write_index : ℕ
  pub storage : List ℕ

abbrev pub initial_size : ℕ
initial_size = 1024

unfoldable pub new : Buffer
new = record { read_index = 0; write_index = 0; storage = replicate initial_size 0 }

-- `a - b` on std::size_t. The callers convert to int, which keeps the value below 2 ^ 31.
unfoldable pub size_sub : ℕ → ℕ → ℕ
size_sub a b = (a + 2 ^ 64 - b) % 2 ^ 64

unfoldable pub writable_bytes : Buffer → ℕ
writable_bytes b = size_sub (length b.storage) b.write_index

unfoldable pub pre_writable_bytes : Buffer → ℕ
pre_writable_bytes b = b.read_index

unfoldable pub readable_bytes : Buffer → ℕ
readable_bytes b = size_sub b.write_index b.read_index

-- The bytes at the indices from `i` up to `j`.
abbrev pub slice : List ℕ → ℕ → ℕ → List ℕ
slice xs i j = take (j - i) (drop i xs)

-- The bytes `vs` written over those at `i`, in range.
abbrev pub overwrite : List ℕ → ℕ → List ℕ → List ℕ
overwrite xs i vs = take i xs ++ (vs ++ drop (i + length vs) xs)

-- `std::copy` of `vs` to the position `i` of the vector.
unfoldable pub copy_to : List ℕ → ℕ → List ℕ → Exec (List ℕ)
copy_to xs i vs =
    if leb (i + length vs) (length xs) then done (overwrite xs i vs) else stop out_of_bounds

-- `std::vector<char>::resize`.
unfoldable pub resize : List ℕ → ℕ → List ℕ
resize xs n = take n xs ++ replicate (n - length xs) 0

-- The bytes that a reader of the buffer sees.
abbrev pub contents : Buffer → List ℕ
contents b = slice b.storage b.read_index b.write_index

-- clearUselessData, and the first branch of makeSpace, which is the same code.
unfoldable pub clear_useless_data : Buffer → Exec Buffer
clear_useless_data b = do
  moved ← copy_to b.storage 0 (contents b)
  done (record { read_index = 0; write_index = readable_bytes b; storage = moved })

unfoldable pub make_space : Buffer → ℕ → Exec Buffer
make_space b len =
    if leb len (pre_writable_bytes b + writable_bytes b)
    then clear_useless_data b
    else done (record b { storage = resize b.storage (b.write_index + len) })

unfoldable pub ensure_enough_space : Buffer → ℕ → Exec Buffer
ensure_enough_space b len = if ltb (writable_bytes b) len then make_space b len else done b

-- `append(const char* msg, int len)`, the `len` bytes at `msg` being the list.
unfoldable pub append : Buffer → List ℕ → Exec Buffer
append b msg = do
  b' ← ensure_enough_space b (length msg)
  written ← copy_to b'.storage b'.write_index msg
  done (record b' { write_index = b'.write_index + length msg; storage = written })

-- setContent: one byte at a time, with no check of the room left.
unfoldable pub set_content : Buffer → List ℕ → Exec Buffer
set_content b [] = done b
set_content b (c ∷ request) =
    let rest = λ (s : List ℕ).
      set_content (record b { write_index = b.write_index + 1; storage = s }) request in
    copy_to b.storage b.write_index (c ∷ []) >>= rest

unfoldable pub retrieve_all : Buffer → Buffer
retrieve_all b = record b { read_index = 0; write_index = 0 }

abbrev pub cr : ℕ
cr = 13

abbrev pub lf : ℕ
lf = 10

-- The `for` of getAnHTTPLine at the index `i`, with `k` indices left below `m_write_index`.
unfoldable pub scan_line : Buffer → ℕ → ℕ → List ℕ × Buffer
scan_line b zero i = ([], b)
scan_line b (suc k) i =
    let rest = scan_line b k (suc i) in
    let at = λ (j : ℕ). get_or b.storage j 0 in
    if (at i == cr) && (ltb (i + 1) b.write_index && (at (i + 1) == lf))
    then (slice b.storage b.read_index (i + 2), record b { read_index = i + 2 })
    else if i == b.write_index - 1
    then (slice b.storage b.read_index i, b)
    else rest

unfoldable pub get_an_http_line : Buffer → List ℕ × Buffer
get_an_http_line b = scan_line b (b.write_index - b.read_index) b.read_index

-- What one call of read(fd, tmp, 1024) gives. After the results of a list the socket has no more
-- bytes, and read fails with EAGAIN.
pub data ReadResult : Type 0 where
  got : List ℕ → ReadResult
  eof interrupted again failed : ReadResult

-- The value of readFromFd: a count, or -1.
pub data Count : Type 0 where
  bytes : ℕ → Count
  minus_one : Count

unfoldable pub read_loop : Buffer → ℕ → List ReadResult → Exec (Buffer × Count)
read_loop b all [] = done (b, bytes all)
read_loop b all (again ∷ rs) = done (b, bytes all)
read_loop b all (interrupted ∷ rs) = read_loop b all rs
read_loop b all (failed ∷ rs) = done (b, minus_one)
read_loop b all (eof ∷ rs) = done (b, bytes 0)
read_loop b all (got chunk ∷ rs) =
    let rest = λ (b' : Buffer). read_loop b' (all + length chunk) rs in append b chunk >>= rest

unfoldable pub read_from_fd : Buffer → List ReadResult → Exec (Buffer × Count)
read_from_fd b rs = read_loop b 0 rs

-- What one call of write(fd, p, n) gives: `takes m` when the socket has room for `m` bytes, of which
-- the call takes at most `n`. After the results of a list the socket is full: EAGAIN.
pub data WriteResult : Type 0 where
  takes : ℕ → WriteResult
  interrupted again failed : WriteResult

-- `m_read_index += bytes`, and both indices back to 0 once they meet.
unfoldable pub advance : Buffer → ℕ → Buffer
advance b n =
    let b' = record b { read_index = b.read_index + n } in
    if b'.read_index == b'.write_index then record b' { read_index = 0; write_index = 0 } else b'

-- The bytes that went to the socket are the last component.
unfoldable pub write_loop : Buffer → ℕ → List ℕ → List WriteResult → Buffer × Count × List ℕ
write_loop b all sent [] = (b, bytes all, sent)
write_loop b all sent (WriteResult.again ∷ ws) = (b, bytes all, sent)
write_loop b all sent (WriteResult.interrupted ∷ ws) = write_loop b all sent ws
write_loop b all sent (WriteResult.failed ∷ ws) = (b, minus_one, sent)
write_loop b all sent (takes m ∷ ws) =
    let n = min m (readable_bytes b) in
    let rest = write_loop (advance b n) (all + n) (sent ++ take n (contents b)) ws in
    if n == 0 then (b, bytes all, sent) else rest

unfoldable pub write_to_fd : Buffer → List WriteResult → Buffer × Count × List ℕ
write_to_fd b ws = write_loop b 0 [] ws
