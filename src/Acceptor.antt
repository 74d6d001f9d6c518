-- ===== src/Acceptor.antt =====
-- Acceptor.h and Acceptor.cpp, and Socket::accept of Socket.cpp: the loop that accepts connections.
-- The callback is a parameter that changes a state of its own.
pub mod Drain
pub mod Listening
use wserver.Prelude.{
  ℕ, ◌≡◌, Bool, true, false, Option, none, some, List, [], ◌∷◌, ◌++◌, Exec, done, stop, fatal,
  ◌>>=◌, ltb, if◌then◌else◌,
}

-- The values of errno that Socket::accept tells apart.
pub data Errno : Type 0 where
  eagain econnaborted eintr eproto eperm emfile other : Errno

-- What one call of accept(2) gives. Behind the results of a list no connection waits: EAGAIN.
pub data AcceptResult : Type 0 where
  accepted : ℕ → AcceptResult
  failed : Errno → AcceptResult

abbrev pub is_known : Errno → Bool
is_known other = false
is_known _ = true

-- Socket::accept: `none` is a negative value.
unfoldable pub accept : AcceptResult → Exec (Option ℕ)
accept (accepted fd) = done (some fd)
accept (failed e) = if is_known e then done none else stop fatal

abbrev pub max_fd : ℕ
max_fd = 100000

-- What a run of handleRead leaves: the state of the callback's owner, the descriptors that were
-- closed, and the results that were not asked for.
pub record Accepted {ℓ} (S : Type ℓ) : Type ℓ where
  pub state : S
  pub closed : List ℕ
  pub waiting : List AcceptResult

module _ {ℓ} {S : Type ℓ} (callback : Option (ℕ → S → Exec S)) where
  -- `m_new_conn_callback(connfd)`, or close(2) where there is none.
  unfoldable pub hand_over : ℕ → S → Exec (S × List ℕ)
  hand_over fd s = elim callback [
    | none ↦ done (s, fd ∷ [])
    | some f ↦ (do s' ← f fd s; done (s', []))
  ]

  -- handleRead.
  unfoldable pub handle_read : List AcceptResult → S → Exec (Accepted S)
  handle_read [] s = done (record { state = s; closed = []; waiting = [] })
  handle_read (r ∷ rs) s =
      let next = λ (h : S × List ℕ). handle_read rs h.0 >>= λ a.
      done (record { state = a.state; closed = h.1 ++ a.closed; waiting = a.waiting }) in
      accept r >>= λ o. elim o [
        | none ↦ done (record { state = s; closed = []; waiting = rs })
        | some fd ↦
            if ltb max_fd fd
            then done (record { state = s; closed = fd ∷ []; waiting = rs })
            else (hand_over fd s >>= next)
      ]
