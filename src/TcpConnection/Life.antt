-- ===== src/TcpConnection/Life.antt =====
-- The whole life of a kept connection, to the timer that closes it and the functor that destroys it.
use wserver.Prelude.{
  ℕ, ◌+◌, ◌≡◌, sym, ap, ◌∙◌, Bool, true, none, List, [], ◌∷◌, ◌++◌, append-nil, ◌>>=◌, Returns,
  Returns-map, Returns-bind, arith,
}
use wserver.HttpContext.{close, keep_alive}
use wserver.HttpContext.Parse.{Request, headers_effect}
use wserver.Channel.{k_new, k_read_event}
use wserver.Epoll.{Kernel, Epoll}
use wserver.Epoll.Registration.{interest}
use wserver.Epoll.Restored.{dropped}
use wserver.TcpConnection.{
  k_disconnected, Effect, close_callback, Io, World, is_open, new, connect_established,
  connect_destroyed, close_long_connection,
}
use wserver.TcpConnection.Close.{
  Closed, Gone, farewell, close_long_connection_correct, connect_destroyed-Closed,
}
use wserver.TcpConnection.Effects.{closings, closings-append, wire, wire-append}
use wserver.TcpConnection.Session.{Exchange, Exchanges, Turns, answers, converse}
use wserver.TcpConnection.Opening.{Answering, connect_established-answers}

-- What a connection that was kept asks for when it closes.
farewell-wire :
    (k : Kernel) (xs : List Effect) (alive : Bool)
    → alive ≡ true
    → wire (xs ++ farewell k alive) ≡ wire xs
farewell-wire k xs alive e =
    ap (λ a. wire (xs ++ farewell k a)) e
    ∙ wire-append xs (close_callback ∷ [])
    ∙ append-nil (wire xs)

farewell-closings :
    (k : Kernel) (xs : List Effect) (alive : Bool)
    → alive ≡ true
    → closings (xs ++ farewell k alive) ≡ closings xs + 1
farewell-closings k xs alive e =
    ap (λ a. closings (xs ++ farewell k a)) e ∙ closings-append xs (close_callback ∷ [])

module _ (k : Kernel) where
  -- What is left of a connection on the descriptor `fd` that has sent `text`.
  pub record Over (fd : ℕ) (text : List ℕ) (w : World k) : Type 0 where
    pub state : w.0.state ≡ k_disconnected
    pub index : w.0.channel.index ≡ k_new
    pub entry : w.1.channels fd ≡ none
    pub registered : k.registered w.1.kernel fd ≡ none
    pub wire : wire w.0.effects ≡ text
    pub told : closings w.0.effects ≡ 1

  timer_closes :
      (fd : ℕ) (text : List ℕ) (w : World k)
      → Answering k fd text w
      → Returns (Over fd text) (close_long_connection k w >>= connect_destroyed k)
  timer_closes fd text w a =
      let r = a.ready in
      let unlisted : interest w.0.channel.index 0 ≡ none =
        dropped k w.0.channel.index w.0.channel.events w.0.address k_read_event _ _ r.watched
          r.registered in
      Returns-bind (Closed k w) (Over fd text) (close_long_connection k w) (connect_destroyed k)
        (close_long_connection_correct k w r.watched (ap is_open r.state))
        λ w' c.
          Returns-map (Gone k w) (Over fd text) (connect_destroyed k w')
            (connect_destroyed-Closed k w w' unlisted c)
            λ w'' g. record {
              state = g.state;
              index = g.index;
              entry = ap w''.1.channels (sym a.at_fd) ∙ g.entry;
              registered = ap (k.registered w''.1.kernel) (sym a.at_fd) ∙ g.registered;
              wire = ap wire g.effects ∙ farewell-wire k w.0.effects w.0.alive a.alive ∙ a.wire;
              told =
                  ap closings g.effects
                  ∙ farewell-closings k w.0.effects w.0.alive a.alive
                  ∙ omega (arith, a.told);
            }

  -- A connection on a descriptor that is in neither table of its loop, from its constructor on:
  -- connectEstablished; handleRead once for each of the well-formed requests `r` and `ts`, of which the
  -- first one asks to keep the connection, each arrives whole before the socket runs dry, and each has
  -- its whole response taken by the socket, in any number of pieces; then the timer that the first one
  -- set, closeLongConnection; and the functor that the server queues, connectDestroyed. Every call
  -- returns. All that was ever written to the socket are the responses, in the order of the requests,
  -- the server was told once that the connection closed, the connection is disconnected, and its
  -- descriptor is neither registered with the kernel nor listed.
  pub connect_destroyed-Over :
      (address fd : ℕ) (e : Epoll k) (r : Request) (io : Io) (ts : Turns)
      → k.registered e.kernel fd ≡ none
      → e.channels fd ≡ none
      → headers_effect r.headers close ≡ keep_alive
      → Exchange r io
      → Exchanges ts
      → Returns (Over fd (answers ((r, io) ∷ ts))) (
          (connect_established k (new address fd, e) >>= converse k ((r, io) ∷ ts)) >>= λ w.
          close_long_connection k w >>= connect_destroyed k)
  connect_destroyed-Over address fd e r io ts n m asks x xs =
      Returns-bind (Answering k fd (answers ((r, io) ∷ ts))) (Over fd (answers ((r, io) ∷ ts)))
        (connect_established k (new address fd, e) >>= converse k ((r, io) ∷ ts)) _
        (connect_established-answers k address fd e r io ts n m asks x xs)
        (timer_closes fd (answers ((r, io) ∷ ts)))
