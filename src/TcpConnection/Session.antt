-- ===== src/TcpConnection/Session.antt =====
-- Requests that follow each other on one connection, each answered before the one behind it arrives.
use wserver.Prelude.{
  some, ℕ, suc, ◌≡◌, ◌<◌, ◌^◌, ◌⊎◌, inl, inr, refl, sym, ap, subst, ◌∙◌, true, false, List, [], ◌∷◌,
  ◌++◌, length, Exec, done, ◌>>=◌, Returns, Returns-map, Returns-bind, ◌==◌, arith, append_assoc,
  append-nil,
}
use wserver.Buffer.{bytes, contents, read_from_fd}
use wserver.Buffer.Append.{IsValid}
use wserver.Buffer.Io.{NeverFails, Received, received, outcome, read_from_fd_correct}
use wserver.Buffer.Drain.{left}
use wserver.HttpContext.{
  HttpContext, HttpVersion, http_1_0, http_1_1, check_request_line, keep_alive,
}
use wserver.HttpContext.Response.{version_text, found_page, work}
use wserver.HttpContext.Parse.{Request, IsRequest, request_text, headers_effect}
use wserver.HttpContext.Work.{Finished, work-Finished}
use wserver.Epoll.{Kernel}
use wserver.TcpConnection.{
  k_connected, sent, Io, World, keep, handle_write, after_read, handle_read,
}
use wserver.TcpConnection.Close.{Watched}
use wserver.TcpConnection.Effects.{closings, closings-append, wire, wire-append, keep-Kept}
use wserver.TcpConnection.Serve.{answer}
use wserver.Channel.{k_read_event}
use wserver.TcpConnection.Keeping.{
  interest-read_event, IsClear, contents-IsClear, keep-alive, handle_write-drained, retrieved,
  reset-lem,
}

-- The system's part in one turn: the request arrives whole, the socket then runs dry, and the calls
-- of write take the whole response, in any number of pieces.
pub record Exchange (r : Request) (io : Io) : Type 0 where
  pub request : IsRequest r
  pub arrives : received io.reads ≡ request_text r []
  pub some_bytes : (n : ℕ) × (outcome 0 io.reads ≡ bytes (suc n))
  pub fits : length (received io.reads) < 2 ^ 31
  pub clean : NeverFails io.writes
  pub taken : left (length (answer r io.now)) io.writes ≡ 0
  pub room : length (answer r io.now) < 2 ^ 31

abbrev pub Turns : Type 0
Turns = List (Request × Io)

abbrev pub Exchanges : Turns → Type 0
Exchanges [] = Unit {0}
Exchanges (t ∷ ts) = Exchange t.0 t.1 × Exchanges ts

-- The responses, one behind the other.
abbrev pub answers : Turns → List ℕ
answers [] = []
answers (t ∷ ts) = answer t.0 t.1.now ++ answers ts

answer-nonempty : (r : Request) (now : List ℕ) → (length (answer r now) == 0) ≡ false
answer-nonempty r now = go r.version
  where
    go : (v : HttpVersion) → (length (version_text v ++ found_page r.uri now) == 0) ≡ false
    go http_1_0 = ground arith
    go http_1_1 = ground arith

module _ (k : Kernel) where
  -- A connection between two requests.
  pub record Ready (w : World k) : Type 0 where
    pub watched : Watched k w
    pub registered : k.registered w.1.kernel w.0.channel.fd ≡ some k_read_event
    pub state : w.0.state ≡ k_connected
    pub timeout : w.0.timeout ≡ false
    pub check_state : w.0.context.check_state ≡ check_request_line
    pub input : IsClear w.0.context.input_buffer
    pub output : IsClear w.0.context.output_buffer

  -- What a run of requests leaves: a connection that waits for one more, with the bytes `text` on the
  -- wire behind those that were there, and of which the server was not told that it closed.
  pub record Conversed (text : List ℕ) (w w' : World k) : Type 0 where
    pub ready : Ready w'
    pub alive : w'.0.alive ≡ true
    pub fd : w'.0.channel.fd ≡ w.0.channel.fd
    pub wire : wire w'.0.effects ≡ wire w.0.effects ++ text
    pub told : closings w'.0.effects ≡ closings w.0.effects

  -- handleRead from the parsed request on.
  reply :
      (r : Request) (io : Io) (w : World k) (d : HttpContext)
      → Ready w
      → (w.0.alive ≡ true) ⊎ (d.connection ≡ keep_alive)
      → Exchange r io
      → IsValid d.input_buffer
      → IsValid d.output_buffer
      → contents d.output_buffer ≡ answer r io.now
      → Returns
          (Conversed (answer r io.now) w)
          (handle_write k io.writes (keep (record w.0 { context = d }), w.1))
  reply r io w d p a x vi vo e =
      let t = record w.0 { context = d } in
      let kept = keep-Kept t in
      let alive = keep-alive t a in
      let out : contents (keep t).context.output_buffer ≡ answer r io.now =
        ap (λ c. contents c.output_buffer) kept.context ∙ e in
      Returns-map _ (Conversed (answer r io.now) w) (handle_write k io.writes (keep t, w.1))
        (handle_write-drained k io.writes (keep t, w.1) (rw (kept.address, kept.channel) p.watched)
          (rw (alive.0, alive.1, p.timeout) refl) (rw kept.context vo)
          (rw out (answer-nonempty r io.now)) x.clean (rw out x.taken))
        λ w' q.
          let c = record (keep t).context { output_buffer = q.0 } in
          let gone = contents (keep t).context.output_buffer in
          let same = q.2.same in
          let ready : Ready w' = record {
            watched = q.2.watched;
            registered =
                ap (k.registered w'.1.kernel) q.2.fd
                ∙ q.2.registered
                ∙ interest-read_event (keep t).channel.index;
            state = ap (λ x. x.state) same ∙ kept.state ∙ p.state;
            timeout = ap (λ x. x.timeout) same ∙ alive.1 ∙ p.timeout;
            check_state = ap (λ x. x.context.check_state) same ∙ (reset-lem c).0;
            input =
                subst (λ x. IsClear x.context.input_buffer) (sym same)
                  (retrieved c (rw kept.context vi));
            output =
                subst IsClear (sym (ap (λ x. x.context.output_buffer) same ∙ (reset-lem c).1)) q.1;
          } in
          record {
            ready = ready;
            alive = ap (λ x. x.alive) same ∙ alive.0;
            fd = q.2.fd ∙ ap (λ c. c.fd) kept.channel;
            wire =
                ap (λ x. wire x.effects) same
                ∙ wire-append (keep t).effects (sent gone ∷ [])
                ∙ ap (λ x. wire (keep t).effects ++ x) (append-nil gone ∙ out)
                ∙ ap (λ x. x ++ answer r io.now) kept.wire;
            told =
                ap (λ x. closings x.effects) same
                ∙ closings-append (keep t).effects (sent gone ∷ [])
                ∙ omega (arith, kept.told);
          }

  turn :
      (r : Request) (io : Io) (w : World k)
      → Ready w
      → (w.0.alive ≡ true) ⊎ (headers_effect r.headers w.0.context.connection ≡ keep_alive)
      → Exchange r io
      → Returns (Conversed (answer r io.now) w) (handle_read k io w)
  unfolding handle_read after_read
  turn r io w p a x =
      let in_empty = contents-IsClear w.0.context.input_buffer p.input in
      let out_empty = contents-IsClear w.0.context.output_buffer p.output in
      Returns-bind (Received w.0.context.input_buffer 0 io.reads) (Conversed (answer r io.now) w)
        (read_from_fd w.0.context.input_buffer io.reads) _
        (read_from_fd_correct w.0.context.input_buffer io.reads p.input.valid
          (omega (arith, x.fits, p.input.write_index)))
        λ b g.
          let c = record w.0.context { input_buffer = b.0 } in
          let whole : contents b.0 ≡ request_text r [] =
            g.same ∙ ap (λ xs. xs ++ received io.reads) in_empty ∙ x.arrives in
          rw (g.count ∙ x.some_bytes.1, nonzero x.some_bytes.0)
            (Returns-bind (Finished c r [] (answer r io.now)) (Conversed (answer r io.now) w)
              (work c io.now) _
              (work-Finished c r [] io.now g.valid p.output.valid p.check_state whole x.request
                (omega (arith, x.room, p.output.write_index)))
              λ d f.
                reply r io w d p (elim a [ inl e ↦ inl e | inr e ↦ inr (f.connection ∙ e) ]) x
                  f.input f.answered.valid
                  (f.answered.sent ∙ ap (λ xs. xs ++ answer r io.now) out_empty))
    where
      nonzero : (n : ℕ) → (suc n == 0) ≡ false
      nonzero n = ground arith

  -- handleRead for each of the turns.
  unfoldable pub converse : Turns → World k → Exec (World k)
  converse [] w = done w
  converse (t ∷ ts) w = do w' ← handle_read k t.1 w; converse ts w'

  Conversed-trans :
      (xs ys : List ℕ) (w w' w'' : World k)
      → Conversed xs w w'
      → Conversed ys w' w''
      → Conversed (xs ++ ys) w w''
  Conversed-trans xs ys w w' w'' p q = record {
    ready = q.ready;
    alive = q.alive;
    fd = q.fd ∙ p.fd;
    wire = q.wire ∙ ap (λ x. x ++ ys) p.wire ∙ append_assoc (wire w.0.effects) xs ys;
    told = q.told ∙ p.told;
  }

  kept_turns :
      (ts : Turns) (w : World k)
      → Ready w
      → w.0.alive ≡ true
      → Exchanges ts
      → Returns (Conversed (answers ts) w) (converse ts w)
  unfolding converse
  kept_turns [] w p a x =
      (w, refl, record { ready = p; alive = a; fd = refl; wire = sym (append-nil _); told = refl })
  kept_turns (t ∷ ts) w p a x =
      Returns-bind (Conversed (answer t.0 t.1.now) w) (Conversed (answers (t ∷ ts)) w)
        (handle_read k t.1 w) (converse ts) (turn t.0 t.1 w p (inl a) x.0)
        λ w' q.
          Returns-map (Conversed (answers ts) w') (Conversed (answers (t ∷ ts)) w) (converse ts w')
            (kept_turns ts w' q.ready q.alive x.1)
            λ w'' u. Conversed-trans (answer t.0 t.1.now) (answers ts) w w' w'' q u

  -- handleRead, once for each of the requests `r` and `ts`, on a connection between two requests: it is
  -- connected, its timer has not fired, it waits for a request line, its buffers are empty, and channel,
  -- epoll and kernel agree. The first request is well-formed and its headers, or an earlier request, ask
  -- to keep the connection; each request behind it is well-formed, whatever its headers say; each
  -- arrives whole before the socket runs dry, and the calls of write take the whole response, in any
  -- number of pieces. Then every run ends without an abort, the bytes that go on the wire are exactly
  -- the responses, in the order of the requests, the connection is kept and between two requests
  -- again, and the server is not told that it closed.
  pub converse-answers :
      (r : Request) (io : Io) (ts : Turns) (w : World k)
      → Ready w
      → (w.0.alive ≡ true) ⊎ (headers_effect r.headers w.0.context.connection ≡ keep_alive)
      → Exchange r io
      → Exchanges ts
      → Returns (Conversed (answers ((r, io) ∷ ts)) w) (converse ((r, io) ∷ ts) w)
  unfolding converse
  converse-answers r io ts w p a x xs =
      Returns-bind (Conversed (answer r io.now) w) (Conversed (answers ((r, io) ∷ ts)) w)
        (handle_read k io w) (converse ts) (turn r io w p a x)
        λ w' q.
          Returns-map (Conversed (answers ts) w') (Conversed (answers ((r, io) ∷ ts)) w)
            (converse ts w') (kept_turns ts w' q.ready q.alive xs)
            λ w'' u. Conversed-trans (answer r io.now) (answers ts) w w' w'' q u
