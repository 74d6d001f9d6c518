-- ===== src/Buffer/Tests.antt =====
-- Runs of the buffer, and the theorems at concrete inputs.
use wserver.Prelude.{◌≡◌, refl, [], ◌∷◌, codes, done, stop, out_of_bounds, Returns, arith}
use wserver.Buffer.{
  Buffer, copy_to, size_sub, writable_bytes, pre_writable_bytes, readable_bytes, clear_useless_data,
  make_space, ensure_enough_space, append, set_content, scan_line, get_an_http_line, ReadResult,
  got, eof, bytes, read_loop, read_from_fd, WriteResult, takes, write_to_fd, cr, lf,
}
use wserver.Buffer.Append.{IsValid, Appended, append_correct}
use wserver.Buffer.Line.{TookLine, get_an_http_line_correct}
use wserver.Buffer.Io.{Received, read_from_fd_correct, Sent, write_to_fd_correct}

-- Eight bytes of storage, of which "b" and a line end are to be read.
abbrev pub small : Buffer
small = record {
  read_index = 1;
  write_index = 4;
  storage = b'a' ∷ b'b' ∷ cr ∷ lf ∷ 0 ∷ 0 ∷ 0 ∷ 0 ∷ [];
}

small-IsValid : IsValid small
small-IsValid = record { ordered = omega arith; inside = omega arith; small = omega arith }

append_moves :
    append small (codes "vwxyz")
    ≡ done (record { read_index = 0; write_index = 8; storage = b'b' ∷ cr ∷ lf ∷ codes "vwxyz" })
unfolding append ensure_enough_space make_space clear_useless_data copy_to writable_bytes
    pre_writable_bytes readable_bytes size_sub
append_moves = refl

-- setContent does not make room: past the end of the storage it writes out of bounds.
set_content_overflow : set_content small (codes "vwxyz") ≡ stop out_of_bounds
unfolding set_content copy_to
set_content_overflow = refl

line_taken : (get_an_http_line small).0 ≡ b'b' ∷ cr ∷ lf ∷ []
unfolding get_an_http_line scan_line
line_taken = refl

-- The peer sends a request and closes: the bytes are there, and the value is 0.
eof_hides_bytes :
    read_from_fd small (got (codes "xy") ∷ eof ∷ [])
    ≡ done (
      record small { write_index = 6; storage = b'a' ∷ b'b' ∷ cr ∷ lf ∷ b'x' ∷ b'y' ∷ 0 ∷ 0 ∷ [] },
      bytes 0,
    )
unfolding read_from_fd read_loop append ensure_enough_space copy_to writable_bytes size_sub
eof_hides_bytes = refl

append_correct_example : Returns (Appended small (codes "vwxyz")) (append small (codes "vwxyz"))
append_correct_example = append_correct small (codes "vwxyz") small-IsValid (omega arith)

get_an_http_line_correct_example : TookLine small (get_an_http_line small)
get_an_http_line_correct_example = get_an_http_line_correct small small-IsValid

read_from_fd_correct_example :
    Returns
      (Received small 0 (got (codes "xy") ∷ ReadResult.interrupted ∷ got (codes "z") ∷ []))
      (read_from_fd small (got (codes "xy") ∷ ReadResult.interrupted ∷ got (codes "z") ∷ []))
read_from_fd_correct_example =
    read_from_fd_correct small (got (codes "xy") ∷ ReadResult.interrupted ∷ got (codes "z") ∷ [])
      small-IsValid (omega arith)

write_to_fd_correct_example :
    Sent small []
      (takes 2 ∷ WriteResult.again ∷ [])
      (write_to_fd small (takes 2 ∷ WriteResult.again ∷ []))
write_to_fd_correct_example =
    write_to_fd_correct small (takes 2 ∷ WriteResult.again ∷ []) small-IsValid
