-- ===== src/Channel.antt =====
-- Channel.h and Channel.cpp: a descriptor, the events it waits for, and its handlers.
-- The event masks are uint32_t numbers, with the values of <sys/epoll.h>.
use Prim.Native.Nat.{bit_and, bit_xor}
use wserver.Prelude.{ℕ, ◌^◌, Bool, true, false, not, ◌&&◌, List, [], ◌∷◌, ◌++◌, ◌==◌}

abbrev pub epollin : ℕ
epollin = 0x001

abbrev pub epollpri : ℕ
epollpri = 0x002

abbrev pub epollout : ℕ
epollout = 0x004

abbrev pub epollerr : ℕ
epollerr = 0x008

abbrev pub epollhup : ℕ
epollhup = 0x010

abbrev pub epollrdhup : ℕ
epollrdhup = 0x2000

abbrev pub epollet : ℕ
epollet = 2 ^ 31

abbrev pub k_none_event : ℕ
k_none_event = 0

-- EPOLLIN | EPOLLPRI | EPOLLET
abbrev pub k_read_event : ℕ
k_read_event = 0x80000003

-- EPOLLOUT | EPOLLET
abbrev pub k_write_event : ℕ
k_write_event = 0x80000004

-- `m_index`: kNew, kAdded or kDeleted.
pub data Index : Type 0 where
  k_new k_added k_deleted : Index

-- The handlers that are set; `m_loop` is the one loop of the model.
pub record Channel : Type 0 where
  pub fd : ℕ
  pub events : ℕ
  pub revents : ℕ
  pub index : Index
  pub read_handler : Bool
  pub write_handler : Bool
  pub error_handler : Bool
  pub close_callback : Bool

unfoldable pub new : ℕ → Channel
new fd = record {
  fd = fd;
  events = 0;
  revents = 0;
  index = k_new;
  read_handler = false;
  write_handler = false;
  error_handler = false;
  close_callback = false;
}

-- setReadHandler, setWriteHandler, setErrorHandler and setCloseHandler; `set` says whether the function
-- can be called.
unfoldable pub set_read_handler : Bool → Channel → Channel
set_read_handler set c = record c { read_handler = set }

unfoldable pub set_write_handler : Bool → Channel → Channel
set_write_handler set c = record c { write_handler = set }

unfoldable pub set_error_handler : Bool → Channel → Channel
set_error_handler set c = record c { error_handler = set }

unfoldable pub set_close_handler : Bool → Channel → Channel
set_close_handler set c = record c { close_callback = set }

-- `mask & m` as a condition.
abbrev pub has : ℕ → ℕ → Bool
has mask m = not (bit_and mask m == 0)

pub data Handler : Type 0 where
  on_close on_error on_read on_write : Handler

abbrev pub call_if : Bool → Handler → List Handler
call_if true h = h ∷ []
call_if false h = []

-- handleEvent: the handlers that run, in order. None of them changes `m_revents`.
unfoldable pub handle_event : Channel → List Handler
handle_event c =
    let r = c.revents in
    call_if ((has r epollhup && not (has r epollin)) && c.close_callback) on_close
    ++ (call_if (has r epollerr && c.error_handler) on_error
        ++ (call_if (has r 0x2003 && c.read_handler) on_read
            ++ call_if (has r epollout && c.write_handler) on_write))

-- The assignments of enableReading, enableWriting and disableAll; each then calls update().
unfoldable pub enable_reading : Channel → Channel
enable_reading c = record c { events = k_read_event }

unfoldable pub enable_writing : Channel → Channel
enable_writing c = record c { events = k_write_event }

unfoldable pub disable_all : Channel → Channel
disable_all c = record c { events = k_none_event }

-- `m_events &= ~kReadEvent`
unfoldable pub disable_reading : Channel → Channel
disable_reading c = record c { events = bit_and c.events (bit_xor k_read_event 0xFFFFFFFF) }

-- `m_events &= ~kNoneEvent`, which clears no bit.
unfoldable pub disable_writing : Channel → Channel
disable_writing c = record c { events = bit_and c.events (bit_xor k_none_event 0xFFFFFFFF) }

unfoldable pub is_writing : Channel → Bool
is_writing c = has c.events k_write_event

unfoldable pub is_none_event : Channel → Bool
is_none_event c = c.events == k_none_event

unfoldable pub is_et_mode : Channel → Bool
is_et_mode c = has c.events epollet
