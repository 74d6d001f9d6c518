-- ===== src/TcpServer/Accepting.antt =====
-- The accept loop with newConnection as its callback: a burst of connections enters the table.
use wserver.Prelude.{
  ℕ, ◌+◌, ◌^◌, ◌≡◌, ◌<◌, ◌≤◌, ◌⊎◌, refl, sym, subst, some, List, [], ◌∷◌, ◌++◌, length, Returns,
  Returns-map, arith,
}
use wserver.Acceptor.{AcceptResult, max_fd, Accepted, handle_read}
use wserver.Acceptor.Drain.{connections, Known, AllBelow, Drained, handle_read-Drained}
use wserver.TcpServer.{TcpServer, Task, new_connection}
use wserver.TcpServer.Ledger.{Event, accepted, Ledger, happen, replay}
use wserver.TcpServer.Table.{Represents, accepted_one}

-- The events of a burst.
abbrev pub events : List ℕ → List Event
events [] = []
events (fd ∷ fds) = accepted fd ∷ events fds

replay-events :
    (loop_of : ℕ → ℕ) (fds : List ℕ) (fd : ℕ) (l : Ledger)
    → replay loop_of (events (fds ++ fd ∷ [])) l
      ≡ happen loop_of (accepted fd) (replay loop_of (events fds) l)
replay-events loop_of [] fd l = refl
replay-events loop_of (x ∷ fds) fd l = replay-events loop_of fds fd (happen loop_of (accepted x) l)

pub next-events :
    (loop_of : ℕ → ℕ) (fds : List ℕ) (l : Ledger)
    → (replay loop_of (events fds) l).next ≡ l.next + length fds
next-events loop_of [] l = omega arith
next-events loop_of (x ∷ fds) l =
    omega (arith, next-events loop_of fds (happen loop_of (accepted x) l))

module _ (loop_of : ℕ → ℕ) (before : List (ℕ × Task)) (l : Ledger) where
  -- The table after the connections of `fds`.
  abbrev pub Entered : List ℕ → TcpServer → Type 0
  Entered fds s = Represents loop_of before s (replay loop_of (events fds) l)

  one_enters :
      (n : ℕ)
      → l.next + n < 2 ^ 31
      → (fds : List ℕ) (s : TcpServer) (fd : ℕ) → length fds < n
      → Entered fds s
      → Returns (Entered (fds ++ fd ∷ [])) (new_connection fd s)
  one_enters n room fds s fd h r =
      subst (λ m. Returns (λ s'. Represents loop_of before s' m) (new_connection fd s))
        (sym (replay-events loop_of fds fd l))
        (accepted_one loop_of before s (replay loop_of (events fds) l) fd r
          (omega (arith, next-events loop_of fds l)))

  -- What a run of the accept loop leaves.
  pub record Burst (rs : List AcceptResult) (a : Accepted TcpServer) : Type 0 where
    pub handed : List ℕ
    pub table : Represents loop_of before a.state (replay loop_of (events handed) l)
    pub each_once : handed ++ (a.closed ++ connections a.waiting) ≡ connections rs
    pub small : AllBelow max_fd handed
    pub known : Known a.waiting
    pub rest : length handed + length a.waiting ≤ length rs
    pub refused : (a.closed ≡ []) ⊎ ((fd : ℕ) × (a.closed ≡ fd ∷ []) × (max_fd < fd))

  -- handleRead with newConnection as its callback, on a server that is as a ledger says, while accept
  -- fails with known errors only and the int of the ids has room: it returns. The descriptors that have
  -- entered the table, each under its own id and told to its loop as on the ledger, then the one that
  -- was closed, and then those that still wait, are those of all connections, in order; every one that
  -- has entered is at most MAXFD, and no more than one was closed, which is larger.
  pub handle_read-Burst :
      (rs : List AcceptResult) (s : TcpServer)
      → Represents loop_of before s l
      → Known rs
      → l.next + length rs < 2 ^ 31
      → Returns (Burst rs) (handle_read (some new_connection) rs s)
  handle_read-Burst rs s r k room =
      Returns-map (Drained new_connection Entered (length rs) (one_enters (length rs) room) [] rs)
        (Burst rs) (handle_read (some new_connection) rs s)
        (handle_read-Drained new_connection Entered (length rs) (one_enters (length rs) room) rs []
          s k (omega arith) r)
        λ a d. record {
          handed = d.handed;
          table = d.state;
          each_once = d.each_once;
          small = d.small;
          known = d.known;
          rest = d.rest;
          refused = d.refused;
        }
