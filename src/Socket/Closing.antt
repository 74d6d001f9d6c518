-- ===== src/Socket/Closing.antt =====
-- A descriptor is given back to the system once.
use wserver.Prelude.{
  ℕ, ◌+◌, ◌≡◌, refl, ◌∙◌, Bool, true, false, List, [], ◌∷◌, ◌++◌, if◌then◌else◌, arith,
}
use wserver.Socket.{
  SysCall, closes, binds, listens, shuts_writing, shuts_both, sets_nonblock, tcp_nodelay,
  so_keepalive, so_reuseaddr, so_reuseport, Socket, call, new, bind, listen, shutdown_write,
  shutdown, set_tcp_no_delay, set_tcp_keep_alive, set_non_block, set_reuse_addr, set_reuse_port,
  new_client, close, destroy, Operation, op_bind, op_listen, op_shutdown, op_shutdown_write,
  op_close, op_no_delay, op_keep_alive, op_non_block, op_reuse_addr, op_reuse_port, apply,
  apply_all,
}

-- How often close(2) succeeds.
abbrev pub weight : SysCall → ℕ
weight (closes true) = 1
weight _ = 0

abbrev pub closings : List SysCall → ℕ
closings [] = 0
closings (c ∷ cs) = weight c + closings cs

closings-append :
    (cs : List SysCall) (c : SysCall) → closings (cs ++ c ∷ []) ≡ closings cs + weight c
closings-append [] c = omega arith
closings-append (d ∷ cs) c = omega (arith, closings-append cs c)

-- `m_closed` says whether close(2) has succeeded.
Counted : Socket → Type 0
Counted s = closings s.calls ≡ (if s.closed then 1 else 0)

call-Counted : (c : SysCall) (s : Socket) → weight c ≡ 0 → Counted s → Counted (call c s)
unfolding Counted
call-Counted c s w h = omega (arith, closings-append s.calls c) ∙ h

closed_or_not :
    (ok was : Bool) (fd : ℕ) (cs : List SysCall)
    → Counted (record { sockfd = fd; closed = was; calls = cs })
    → Counted (close ok (record { sockfd = fd; closed = was; calls = cs }))
unfolding Counted close
closed_or_not ok true fd cs h = h
closed_or_not true false fd cs h = omega (arith, closings-append cs (closes true), h)
closed_or_not false false fd cs h = omega (arith, closings-append cs (closes false), h)

apply-Counted : (o : Operation) (s : Socket) → Counted s → Counted (apply o s)
unfolding apply bind listen shutdown shutdown_write set_tcp_no_delay set_tcp_keep_alive
    set_non_block set_reuse_addr set_reuse_port
apply-Counted op_bind s h = call-Counted binds s refl h
apply-Counted op_listen s h = call-Counted listens s refl h
apply-Counted op_shutdown s h = call-Counted shuts_both s refl h
apply-Counted op_shutdown_write s h = call-Counted shuts_writing s refl h
apply-Counted (op_close ok) s h = closed_or_not ok s.closed s.sockfd s.calls h
apply-Counted (op_no_delay on) s h = call-Counted (tcp_nodelay (if on then 1 else 0)) s refl h
apply-Counted (op_keep_alive on) s h = call-Counted (so_keepalive (if on then 1 else 0)) s refl h
apply-Counted (op_non_block on) s h = call-Counted sets_nonblock s refl h
apply-Counted (op_reuse_addr on) s h = call-Counted (so_reuseaddr (if on then 1 else 0)) s refl h
apply-Counted (op_reuse_port on) s h = call-Counted (so_reuseport (if on then 1 else 0)) s refl h

apply_all-Counted : (os : List Operation) (s : Socket) → Counted s → Counted (apply_all os s)
unfolding apply_all
apply_all-Counted [] s h = h
apply_all-Counted (o ∷ os) s h = apply_all-Counted os (apply o s) (apply-Counted o s h)

destroyed :
    (was : Bool) (fd : ℕ) (cs : List SysCall)
    → Counted (record { sockfd = fd; closed = was; calls = cs })
    → closings (destroy true (record { sockfd = fd; closed = was; calls = cs })).calls ≡ 1
unfolding Counted destroy
destroyed true fd cs h = h
destroyed false fd cs h = omega (arith, closings-append cs (closes true), h)

destroyed_once : (s : Socket) → Counted s → closings (destroy true s).calls ≡ 1
destroyed_once s h = destroyed s.closed s.sockfd s.calls h

-- A socket of the server, after any operations in any order, some of whose calls of close(2) may fail,
-- and a destructor whose call succeeds: the descriptor was given back exactly once.
pub destroy-apply_all :
    (os : List Operation) (fd : ℕ) → closings (destroy true (apply_all os (new fd))).calls ≡ 1
unfolding Counted new
destroy-apply_all os fd =
    destroyed_once (apply_all os (new fd)) (apply_all-Counted os (new fd) refl)

-- The same for the socket of a client.
pub destroy-apply_all_client :
    (os : List Operation) (fd : ℕ)
    → closings (destroy true (apply_all os (new_client fd false))).calls ≡ 1
unfolding Counted new_client set_tcp_no_delay set_non_block
destroy-apply_all_client os fd =
    destroyed_once (apply_all os (new_client fd false))
      (apply_all-Counted os (new_client fd false) refl)
