-- ===== src/Socket.antt =====
-- Socket.h and Socket.cpp: a descriptor, and the system calls on it, which are recorded in order. A
-- call other than close(2) only logs its error.
pub mod Closing
use wserver.Prelude.{ℕ, Bool, true, false, List, [], ◌∷◌, ◌++◌, if◌then◌else◌}

-- `closes ok`: close(2), and whether it succeeds; the numbers are the values of an option.
pub data SysCall : Type 0 where
  closes : Bool → SysCall
  binds listens shuts_writing shuts_both sets_nonblock : SysCall
  tcp_nodelay so_keepalive so_reuseaddr so_reuseport : ℕ → SysCall

pub record Socket : Type 0 where
  pub sockfd : ℕ
  pub closed : Bool
  pub calls : List SysCall

abbrev pub call : SysCall → Socket → Socket
call c s = record s { calls = s.calls ++ c ∷ [] }

-- `on ? 1 : 0`
abbrev pub optval : Bool → ℕ
optval on = if on then 1 else 0

-- Socket::Socket() with the descriptor of socket(2).
unfoldable pub new : ℕ → Socket
new fd = record { sockfd = fd; closed = false; calls = [] }

unfoldable pub bind : Socket → Socket
bind s = call binds s

unfoldable pub listen : Socket → Socket
listen s = call listens s

unfoldable pub shutdown_write : Socket → Socket
shutdown_write s = call shuts_writing s

unfoldable pub shutdown : Socket → Socket
shutdown s = call shuts_both s

unfoldable pub set_tcp_no_delay : Bool → Socket → Socket
set_tcp_no_delay on s = call (tcp_nodelay (optval on)) s

unfoldable pub set_tcp_keep_alive : Bool → Socket → Socket
set_tcp_keep_alive on s = call (so_keepalive (optval on)) s

-- setNonBlock does not look at `on`.
unfoldable pub set_non_block : Bool → Socket → Socket
set_non_block on s = call sets_nonblock s

unfoldable pub set_reuse_addr : Bool → Socket → Socket
set_reuse_addr on s = call (so_reuseaddr (optval on)) s

unfoldable pub set_reuse_port : Bool → Socket → Socket
set_reuse_port on s = call (so_reuseport (optval on)) s

-- Socket::Socket(int, bool), for the descriptor of a client.
unfoldable pub new_client : ℕ → Bool → Socket
new_client fd closed =
    set_tcp_no_delay true (set_non_block true (record { sockfd = fd; closed = closed; calls = [] }))

unfoldable pub close : Bool → Socket → Socket
close ok s = if s.closed then s else record (call (closes ok) s) { closed = ok }

-- The destructor.
unfoldable pub destroy : Bool → Socket → Socket
destroy ok s = if s.closed then s else call (closes ok) s

pub data Operation : Type 0 where
  op_bind op_listen op_shutdown op_shutdown_write : Operation
  op_close op_no_delay op_keep_alive op_non_block op_reuse_addr op_reuse_port : Bool → Operation

unfoldable pub apply : Operation → Socket → Socket
apply op_bind s = bind s
apply op_listen s = listen s
apply op_shutdown s = shutdown s
apply op_shutdown_write s = shutdown_write s
apply (op_close ok) s = close ok s
apply (op_no_delay on) s = set_tcp_no_delay on s
apply (op_keep_alive on) s = set_tcp_keep_alive on s
apply (op_non_block on) s = set_non_block on s
apply (op_reuse_addr on) s = set_reuse_addr on s
apply (op_reuse_port on) s = set_reuse_port on s

-- The operations of an owner, one after the other.
unfoldable pub apply_all : List Operation → Socket → Socket
apply_all [] s = s
apply_all (o ∷ os) s = apply_all os (apply o s)
