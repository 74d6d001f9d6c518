-- ===== src/TcpConnection/Opening.antt =====
-- A connection from its constructor on: connectEstablished, and the requests that follow.
use wserver.Prelude.{
  ℕ, ◌≡◌, ◌∙◌, refl, sym, ap, subst, true, none, List, [], ◌∷◌, ◌++◌, inr, length-replicate, ◌>>=◌,
  Returns, Returns-map, Returns-bind, arith,
}
use wserver.Buffer
use wserver.Buffer.{initial_size}
use wserver.HttpContext
use wserver.HttpContext.{close, keep_alive}
use wserver.HttpContext.Parse.{Request, headers_effect}
use wserver.Channel.{Channel, k_read_event, enable_reading}
use wserver.Channel
use wserver.Epoll.{Kernel, Epoll}
use wserver.TcpConnection.{k_connected, Io, World, new, connect_established}
use wserver.TcpConnection.Close.{Rewatched, set_channel_lem}
use wserver.TcpConnection.Effects.{closings, wire}
use wserver.TcpConnection.Keeping.{IsClear}
use wserver.TcpConnection.Session.{
  Exchange, Exchanges, Turns, answers, Ready, Conversed, converse, converse-answers,
}

new-IsClear : IsClear Buffer.new
unfolding Buffer.new
new-IsClear = record {
  valid = record {
    ordered = omega arith;
    inside = omega arith;
    small = omega (arith, length-replicate {A = ℕ} initial_size 0);
  };
  read_index = refl;
  write_index = refl;
}

module _ (k : Kernel) where
  -- A connection that waits for its first request.
  record Opened (fd : ℕ) (w : World k) : Type 0 where
    ready : Ready k w
    at_fd : w.0.channel.fd ≡ fd
    connection : w.0.context.connection ≡ close
    effects : w.0.effects ≡ []

  connect_established-Opened :
      (address fd : ℕ) (e : Epoll k)
      → k.registered e.kernel fd ≡ none
      → e.channels fd ≡ none
      → Returns (Opened fd) (connect_established k (new address fd, e))
  unfolding connect_established enable_reading new Channel.new HttpContext.new
      Channel.set_close_handler Channel.set_error_handler Channel.set_write_handler
      Channel.set_read_handler
  connect_established-Opened address fd e n m =
      let t = new address fd in
      let w : World k = (record t { state = k_connected }, e) in
      Returns-map (Rewatched k k_read_event w) (Opened fd) _
        (set_channel_lem k k_read_event w (n, m))
        λ w' r. record {
          ready = record {
            watched = r.watched;
            registered = ap (k.registered w'.1.kernel) r.fd ∙ r.registered;
            state = ap (λ x. x.state) r.same;
            timeout = ap (λ x. x.timeout) r.same;
            check_state = ap (λ x. x.context.check_state) r.same;
            input = subst (λ x. IsClear x.context.input_buffer) (sym r.same) new-IsClear;
            output = subst (λ x. IsClear x.context.output_buffer) (sym r.same) new-IsClear;
          };
          at_fd = r.fd;
          connection = ap (λ x. x.context.connection) r.same;
          effects = ap (λ x. x.effects) r.same;
        }

  -- What a connection has come to when it has answered `text`.
  pub record Answering (fd : ℕ) (text : List ℕ) (w : World k) : Type 0 where
    pub ready : Ready k w
    pub at_fd : w.0.channel.fd ≡ fd
    pub alive : w.0.alive ≡ true
    pub wire : wire w.0.effects ≡ text
    pub told : closings w.0.effects ≡ 0

  -- A connection from its constructor on, with a descriptor that is in neither table of its loop:
  -- connectEstablished, and then handleRead once for each of the requests `r` and `ts`. They are
  -- well-formed, and a header of the first one asks to keep the connection; each arrives whole before
  -- the socket runs dry, and the calls of write take the whole response, in any number of pieces.
  -- Then every call returns, and all that was ever written to the socket are the responses, in the
  -- order of the requests; the connection is connected, kept, registered with its loop as its channel
  -- says, and waits for one more request, and the server was not told that it closed.
  pub connect_established-answers :
      (address fd : ℕ) (e : Epoll k) (r : Request) (io : Io) (ts : Turns)
      → k.registered e.kernel fd ≡ none
      → e.channels fd ≡ none
      → headers_effect r.headers close ≡ keep_alive
      → Exchange r io
      → Exchanges ts
      → Returns
          (Answering fd (answers ((r, io) ∷ ts)))
          (connect_established k (new address fd, e) >>= converse k ((r, io) ∷ ts))
  connect_established-answers address fd e r io ts n m asks x xs =
      Returns-bind (Opened fd) (Answering fd (answers ((r, io) ∷ ts)))
        (connect_established k (new address fd, e)) (converse k ((r, io) ∷ ts))
        (connect_established-Opened address fd e n m)
        λ w o.
          Returns-map (Conversed k (answers ((r, io) ∷ ts)) w)
            (Answering fd (answers ((r, io) ∷ ts))) (converse k ((r, io) ∷ ts) w)
            (converse-answers k r io ts w o.ready
              (inr (ap (headers_effect r.headers) o.connection ∙ asks)) x xs)
            λ w' c. record {
              ready = c.ready;
              at_fd = c.fd ∙ o.at_fd;
              alive = c.alive;
              wire = c.wire ∙ ap (λ xs. wire xs ++ answers ((r, io) ∷ ts)) o.effects;
              told = c.told ∙ ap closings o.effects;
            }
