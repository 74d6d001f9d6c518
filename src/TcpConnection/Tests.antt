-- ===== src/TcpConnection/Tests.antt =====
-- The theorems on a connection to which "GET /hello HTTP/1.1" is sent, and on which errors arrive.
use wserver.Prelude.{
  ℕ, ◌≡◌, refl, inr, true, false, none, some, [], ◌∷◌, ◌++◌, codes, stop, fatal, ◌>>=◌, Returns,
  arith,
}
use wserver.Buffer.{Buffer, ReadResult, WriteResult, got, eof, takes, cr, lf}
use wserver.Buffer.Append.{IsValid}
use wserver.HttpContext.{HttpContext, get, head, http_1_0, http_1_1}
use wserver.HttpContext.Response.{found_page}
use wserver.HttpContext.Request.{keep_alive_header}
use wserver.HttpContext.Parse.{Request, IsRequest, request_text}
use wserver.Channel.{Channel, k_added, k_read_event}
use wserver.Epoll.{put}
use wserver.Epoll.Table.{table_kernel}
use wserver.TcpConnection.{
  new, close_long_connection, connect_established, k_connected, Io, World, handle_close,
  connect_destroyed, handle_write, handle_read, on_event,
}
use wserver.TcpConnection.Close.{Gone, connect_destroyed-handle_close}
use wserver.TcpConnection.Traffic.{Wrote, handle_write_correct}
use wserver.TcpConnection.Read.{Served, Responded, handle_read_correct}
use wserver.TcpConnection.Serve.{answer, handle_read-request_text}
use wserver.TcpConnection.Life.{Over, connect_destroyed-Over}
use wserver.Epoll.{Epoll}
use wserver.TcpConnection.Session.{Exchange, answers, converse}
use wserver.TcpConnection.Abort.{on_event-error_readable}

abbrev hello : Request
hello = record {
  method = get;
  uri = codes "/hello";
  version = http_1_1;
  headers = keep_alive_header ∷ [];
}

hello-IsRequest : IsRequest hello
hello-IsRequest = record {
  word = record { nonempty = λ e. cc; plain = (refl, (refl, (refl, (refl, (refl, (refl, tt)))))) };
  no_cr = omega arith;
  headers = (tt, tt);
}

abbrev empty : Buffer
empty = record { read_index = 0; write_index = 0; storage = [] }

empty-IsValid : IsValid empty
empty-IsValid = record { ordered = omega arith; inside = omega arith; small = omega arith }

abbrev fresh : HttpContext
unfolding wserver.HttpContext.new
fresh = wserver.HttpContext.new empty empty

abbrev watched_channel : ℕ → Channel
watched_channel revents = record {
  fd = 7;
  events = k_read_event;
  revents = revents;
  index = k_added;
  read_handler = true;
  write_handler = true;
  error_handler = true;
  close_callback = true;
}

-- A connected connection whose channel has these ready events.
abbrev connected : ℕ → World table_kernel
connected revents = (
  record {
    state = k_connected;
    alive = false;
    timeout = false;
    context = fresh;
    address = 0xC0;
    channel = watched_channel revents;
    effects = [];
  },
  record {
    channels = put (λ j. none) 7 (some 0xC0);
    capacity = 16;
    kernel = put (λ j. none) 7 (some k_read_event);
  },
)

abbrev request_arrives : Io
request_arrives = record {
  reads = got (request_text hello []) ∷ ReadResult.again ∷ [];
  writes = takes 20 ∷ takes 200 ∷ [];
  now = [];
}

abbrev peer_closes : Io
peer_closes = record { reads = eof ∷ []; writes = []; now = [] }

connect_destroyed-handle_close_example :
    Returns
      (Gone table_kernel (connected 1))
      (handle_close table_kernel (connected 1) >>= connect_destroyed table_kernel)
connect_destroyed-handle_close_example =
    connect_destroyed-handle_close table_kernel (connected 1) (refl, refl) refl refl refl

handle_write_correct_example :
    Returns
      (Wrote table_kernel (connected 4))
      (handle_write table_kernel (takes 20 ∷ []) (connected 4))
unfolding fresh
handle_write_correct_example =
    handle_write_correct table_kernel (takes 20 ∷ []) (connected 4) (refl, refl) refl empty-IsValid

handle_read_correct_example :
    Returns
      (Served table_kernel (connected 1))
      (handle_read table_kernel request_arrives (connected 1))
unfolding fresh
handle_read_correct_example =
    handle_read_correct table_kernel request_arrives (connected 1) (refl, refl) refl empty-IsValid
      empty-IsValid (λ e. cc) (omega arith) (omega arith)

handle_read-request_text_example :
    Returns
      (Responded table_kernel (answer hello []) (connected 1))
      (handle_read table_kernel request_arrives (connected 1))
unfolding found_page fresh
handle_read-request_text_example =
    handle_read-request_text table_kernel request_arrives (connected 1) hello [] 46 (refl, refl)
      refl empty-IsValid empty-IsValid refl refl hello-IsRequest refl (omega arith) (omega arith)

on_event-error_readable_example : on_event table_kernel peer_closes [] (connected 0x9) ≡ stop fatal
unfolding fresh
on_event-error_readable_example =
    on_event-error_readable table_kernel peer_closes [] (connected 0x9) (refl, refl) refl refl
      empty-IsValid refl refl refl refl refl (inr refl) (omega arith)

-- A second request, with no header, that arrives in two pieces; the response goes out in two.
abbrev again : Request
again = record { method = head; uri = codes "/x"; version = http_1_0; headers = [] }

again-IsRequest : IsRequest again
again-IsRequest = record {
  word = record { nonempty = λ e. cc; plain = (refl, (refl, tt)) };
  no_cr = omega arith;
  headers = tt;
}

abbrev takes_all : Io
takes_all = record {
  reads = got (request_text hello []) ∷ ReadResult.again ∷ [];
  writes = takes 20 ∷ WriteResult.interrupted ∷ takes 2000 ∷ [];
  now = [];
}

abbrev takes_again : Io
takes_again = record {
  reads =
      got (codes "HEAD /x HT")
      ∷ ReadResult.interrupted
      ∷ got (codes "TP/1.0" ++ cr ∷ lf ∷ cr ∷ lf ∷ [])
      ∷ [];
  writes = takes 20 ∷ takes 2000 ∷ [];
  now = [];
}

hello-Exchange : Exchange hello takes_all
unfolding found_page
hello-Exchange = record {
  request = hello-IsRequest;
  arrives = refl;
  some_bytes = (46, refl);
  fits = omega arith;
  clean = tt;
  taken = refl;
  room = omega arith;
}

again-Exchange : Exchange again takes_again
unfolding found_page
again-Exchange = record {
  request = again-IsRequest;
  arrives = refl;
  some_bytes = (19, refl);
  fits = omega arith;
  clean = tt;
  taken = refl;
  room = omega arith;
}

abbrev empty_epoll : Epoll table_kernel
empty_epoll = record { channels = λ j. none; capacity = 16; kernel = λ j. none }

connect_destroyed-Over_example :
    Returns (Over table_kernel 7 (answers ((hello, takes_all) ∷ (again, takes_again) ∷ []))) (
      (connect_established table_kernel (new 0xC0 7, empty_epoll)
        >>= converse table_kernel ((hello, takes_all) ∷ (again, takes_again) ∷ []))
      >>= λ w. close_long_connection table_kernel w >>= connect_destroyed table_kernel)
connect_destroyed-Over_example =
    connect_destroyed-Over table_kernel 0xC0 7 empty_epoll hello takes_all
      ((again, takes_again) ∷ []) refl refl refl hello-Exchange (again-Exchange, tt)
