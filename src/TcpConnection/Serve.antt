-- ===== src/TcpConnection/Serve.antt =====
-- A whole request that arrives on an open connection is answered.
use wserver.Prelude.{
  ℕ, suc, ◌+◌, ◌≡◌, ◌<◌, ◌^◌, ◌∙◌, true, false, List, ◌++◌, length, Returns, Returns-bind, arith,
  ◌==◌,
}
use wserver.Buffer.{bytes, contents, read_from_fd}
use wserver.Buffer.Append.{IsValid}
use wserver.Buffer.Io.{Received, received, outcome, read_from_fd_correct}
use wserver.HttpContext.{check_request_line}
use wserver.HttpContext.Response.{work, version_text, found_page}
use wserver.HttpContext.Parse.{Request, IsRequest, request_text}
use wserver.HttpContext.Work.{Answered, work-request_text}
use wserver.Epoll.{Kernel}
use wserver.TcpConnection.{Io, is_open, World, after_read, handle_read}
use wserver.TcpConnection.Close.{Watched}
use wserver.TcpConnection.Read.{Responded, respond, with_context}

abbrev pub answer : Request → List ℕ → List ℕ
answer r now = version_text r.version ++ found_page r.uri now

module _ (k : Kernel) where
  -- handleRead on an open connection that waits for a request line, on which channel, epoll and kernel
  -- agree, with valid buffers and room: if the bytes that were there and those that arrive before the
  -- socket runs dry are a well-formed request and any bytes after it, then the response to it, the
  -- status line of its version and the page for its URI, is written to the socket or waits in the
  -- output buffer, behind what went before and with nothing else; the connection keeps its state, or
  -- it is disconnected and the server is told once.
  pub handle_read-request_text :
      (io : Io) (w : World k) (r : Request) (rest : List ℕ) (n : ℕ)
      → Watched k w
      → is_open w.0.state ≡ true
      → IsValid w.0.context.input_buffer
      → IsValid w.0.context.output_buffer
      → w.0.context.check_state ≡ check_request_line
      → contents w.0.context.input_buffer ++ received io.reads ≡ request_text r rest
      → IsRequest r
      → outcome 0 io.reads ≡ bytes (suc n)
      → w.0.context.input_buffer.write_index + length (received io.reads) < 2 ^ 31
      → w.0.context.output_buffer.write_index + length (answer r io.now) < 2 ^ 31
      → Returns (Responded k (answer r io.now) w) (handle_read k io w)
  unfolding handle_read after_read
  handle_read-request_text io w r rest n h o vi vo s t is some_bytes fits room =
      Returns-bind (Received w.0.context.input_buffer 0 io.reads) (Responded k (answer r io.now) w)
        (read_from_fd w.0.context.input_buffer io.reads) _
        (read_from_fd_correct w.0.context.input_buffer io.reads vi fits)
        λ b p.
          let c = record w.0.context { input_buffer = b.0 } in
          let text = answer r io.now in
          let served : Returns (Responded k text w)
              (after_read k io (bytes (suc n)) (with_context k w c)) =
            rw (nonzero n) (
              Returns-bind (Answered c text) (Responded k text w) (work c io.now) _
                (work-request_text c r rest io.now p.valid vo s (p.same ∙ t) is room)
                λ d a. respond k io.writes w d text h o a.valid a.sent) in
          rw (p.count ∙ some_bytes) served
    where
      nonzero : (n : ℕ) → (suc n == 0) ≡ false
      nonzero n = ground arith
