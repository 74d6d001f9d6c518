-- ===== src/TcpConnection/Read.antt =====
-- handleRead on an open connection: from the bytes that arrive to the response that goes out.
use wserver.Prelude.{
  ℕ, suc, ◌+◌, ◌≡◌, ◌≢◌, ◌<◌, ◌^◌, ◌⊎◌, inl, inr, refl, sym, ap, ◌∙◌, true, List, [], ◌∷◌, ◌++◌,
  length, Returns, Returns-map, Returns-bind, Bool-cases, ◌==◌, arith, append_assoc, append-nil,
}
use wserver.Buffer.{Count, bytes, minus_one, WriteResult, contents, read_from_fd}
use wserver.Buffer.Append.{IsValid}
use wserver.Buffer.Io.{Received, received, read_from_fd_correct}
use wserver.HttpContext.{HttpContext, check_end}
use wserver.HttpContext.Response.{response, work}
use wserver.HttpContext.Reply.{Replied, work_total}
use wserver.Epoll.{Kernel}
use wserver.TcpConnection.{
  k_disconnected, Effect, sent, Io, is_open, World, handle_close, handle_error, handle_write,
  after_read, handle_read, keep,
}
use wserver.TcpConnection.Close.{Watched, farewell}
use wserver.TcpConnection.Traffic.{Continued, closing, Wrote, handle_write_correct}
use wserver.TcpConnection.Effects.{
  closings, closings-append, closings-farewell, wire, wire-append, wire-farewell, keep-Kept,
}

module _ (k : Kernel) where
  -- A handler leaves the connection as open as it was, or it disconnects it and tells the server once.
  pub record Served (w w' : World k) : Type 0 where
    pub watched : Watched k w'
    pub valid : IsValid w'.0.context.output_buffer
    pub fate :
        ((w'.0.state ≡ w.0.state) × (closings w'.0.effects ≡ closings w.0.effects))
        ⊎ ((w'.0.state ≡ k_disconnected) × (closings w'.0.effects ≡ suc (closings w.0.effects)))

  told :
      (xs ys zs : List Effect) (n : ℕ)
      → zs ≡ xs ++ ys
      → closings ys ≡ n
      → closings zs ≡ closings xs + n
  told xs ys zs n e c = ap closings e ∙ closings-append xs ys ∙ ap (λ x. closings xs + x) c

  Continued-Served :
      (w w' : World k) → IsValid w.0.context.output_buffer → Continued k w w' → Served w w'
  Continued-Served w w' v (inl s) = record {
    watched = s.watched;
    valid = rw s.output v;
    fate = inl (s.state, ap closings s.effects);
  }
  Continued-Served w w' v (inr c) =
      let n =
        told w.0.effects (farewell k w.0.alive) w'.0.effects 1 c.effects
          (closings-farewell k w.0.alive) in
      record { watched = c.watched; valid = rw c.context v; fate = inr (c.state, omega (arith, n)) }

  Wrote-Served : (w w' : World k) → Wrote k w w' → Served w w'
  Wrote-Served w w' p = record {
    watched = p.watched;
    valid = p.valid;
    fate = elim p.fate [
      | inl s ↦ inl (s.0, told w.0.effects (sent p.gone ∷ []) w'.0.effects 0 s.1 refl ∙ omega arith)
      | inr c ↦ inr (
        c.0,
        told w.0.effects (sent p.gone ∷ farewell k w.0.alive) w'.0.effects 1 c.1
              (closings-farewell k w.0.alive)
            ∙ omega arith,
      )
    ];
  }

  -- The connection with the bytes that arrived, and with the response to them.
  abbrev pub with_context : World k → HttpContext → World k
  with_context w c = (record w.0 { context = c }, w.1)

  -- The bytes that went to the socket so far, and those that wait in the output buffer.
  abbrev pub outgoing : World k → List ℕ
  outgoing w = wire w.0.effects ++ contents w.0.context.output_buffer

  -- The connection is served, and the bytes `text` went out or wait behind those that waited.
  pub record Responded (text : List ℕ) (w w' : World k) : Type 0 where
    pub served : Served w w'
    pub whole : outgoing w' ≡ outgoing w ++ text

  outgoing-sent :
      (w w' : World k) (gone : List ℕ)
      → wire w'.0.effects ≡ wire w.0.effects ++ gone
      → gone ++ contents w'.0.context.output_buffer ≡ contents w.0.context.output_buffer
      → outgoing w' ≡ outgoing w
  outgoing-sent w w' gone e h =
      ap (λ x. x ++ contents w'.0.context.output_buffer) e
      ∙ append_assoc (wire w.0.effects) gone (contents w'.0.context.output_buffer)
      ∙ ap (λ x. wire w.0.effects ++ x) h

  Wrote-outgoing : (w w' : World k) → Wrote k w w' → outgoing w' ≡ outgoing w
  Wrote-outgoing w w' p =
      outgoing-sent w w' p.gone
        (elim p.fate [
          | inl s ↦
              ap wire s.1
              ∙ wire-append w.0.effects (sent p.gone ∷ [])
              ∙ ap (λ x. wire w.0.effects ++ x) (append-nil p.gone)
          | inr c ↦
              ap wire c.1
              ∙ wire-append w.0.effects (sent p.gone ∷ farewell k w.0.alive)
              ∙ ap (λ x. wire w.0.effects ++ x) (wire-farewell k p.gone w.0.alive)
        ])
        p.whole

  pub respond :
      (writes : List WriteResult) (w : World k) (c : HttpContext) (text : List ℕ)
      → Watched k w
      → is_open w.0.state ≡ true
      → IsValid c.output_buffer
      → contents c.output_buffer ≡ contents w.0.context.output_buffer ++ text
      → Returns (Responded text w) (handle_write k writes (keep (record w.0 { context = c }), w.1))
  respond writes w c text h o v e =
      let t = record w.0 { context = c } in
      let p = keep-Kept t in
      Returns-map (Wrote k (keep t, w.1)) (Responded text w) (handle_write k writes (keep t, w.1))
        (handle_write_correct k writes (keep t, w.1) (rw (p.address, p.channel) h) (rw p.state o)
          (rw p.context v))
        λ w' q.
          let s = Wrote-Served (keep t, w.1) w' q in
          record {
            served = record {
              watched = s.watched;
              valid = s.valid;
              fate = elim s.fate [
                | inl a ↦ inl (a.0 ∙ p.state, a.1 ∙ p.told)
                | inr a ↦ inr (a.0, a.1 ∙ ap suc p.told)
              ];
            };
            whole =
                Wrote-outgoing (keep t, w.1) w' q
                ∙ ap (λ x. x ++ contents (keep t).context.output_buffer) p.wire
                ∙ ap (λ x. wire w.0.effects ++ contents x.output_buffer) p.context
                ∙ ap (λ x. wire w.0.effects ++ x) e
                ∙ sym (append_assoc (wire w.0.effects) (contents w.0.context.output_buffer) text);
          }

  failing :
      (w : World k) (c : HttpContext)
      → Watched k w
      → is_open w.0.state ≡ true
      → IsValid w.0.context.output_buffer
      → c.output_buffer ≡ w.0.context.output_buffer
      → Returns (Served w) (handle_close k (with_context w c))
  failing w c h o v e =
      let w₁ = with_context w c in
      Returns-map (Continued k w₁) (Served w) (handle_close k w₁) (closing k w₁ h o) λ w' r.
        let s = Continued-Served w₁ w' (rw e v) r in
        record { watched = s.watched; valid = s.valid; fate = s.fate }

  -- The rest of handleRead, by the value of readFromFd.
  after_read_correct :
      (io : Io) (n : Count) (w : World k) (c : HttpContext)
      → Watched k w
      → is_open w.0.state ≡ true
      → IsValid w.0.context.output_buffer
      → c.output_buffer ≡ w.0.context.output_buffer
      → Returns (Replied c io.now) (work c io.now)
      → Returns (Served w) (after_read k io n (with_context w c))
  unfolding after_read handle_error
  after_read_correct io minus_one w c h o v e replied = failing w c h o v e
  after_read_correct io (bytes n) w c h o v e replied = elim (Bool-cases (n == 0)) [
    | inl z ↦ rw z (failing w c h o v e)
    | inr z ↦ rw z (
        Returns-bind (Replied c io.now) (Served w) (work c io.now) _ replied λ d r.
          Returns-map (Responded _ w) (Served w) _
            (respond io.writes w d _ h o r.output
              (r.sent ∙ ap (λ x. contents x ++ response d io.now) e))
            λ w' q. q.served)
  ]

  -- handleRead on an open connection on which channel, epoll and kernel agree, with valid buffers, a
  -- context that is not at CHECK_STATE_END, and room for what arrives and for a response: whatever
  -- bytes arrive and whatever the calls of read and write give, it ends without an abort; the
  -- connection keeps its state, or it is disconnected and the server is told exactly once more; and
  -- channel, epoll and kernel agree.
  pub handle_read_correct :
      (io : Io) (w : World k)
      → Watched k w
      → is_open w.0.state ≡ true
      → IsValid w.0.context.input_buffer
      → IsValid w.0.context.output_buffer
      → w.0.context.check_state ≢ check_end
      → w.0.context.input_buffer.write_index + length (received io.reads) < 2 ^ 31
      → w.0.context.output_buffer.write_index + (259 + length io.now) < 2 ^ 31
      → Returns (Served w) (handle_read k io w)
  unfolding handle_read
  handle_read_correct io w h o vi vo n fits room =
      Returns-bind (Received w.0.context.input_buffer 0 io.reads) (Served w)
        (read_from_fd w.0.context.input_buffer io.reads) _
        (read_from_fd_correct w.0.context.input_buffer io.reads vi fits)
        λ r p.
          let c = record w.0.context { input_buffer = r.0 } in
          after_read_correct io r.1 w c h o vo refl (work_total c io.now p.valid vo n room)
