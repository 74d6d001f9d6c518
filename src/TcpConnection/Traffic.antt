-- ===== src/TcpConnection/Traffic.antt =====
-- handleWrite and handleRead on an open connection: they end, and what they leave.
use wserver.Prelude.{
  ℕ, ◌≡◌, ◌⊎◌, inl, inr, refl, ap, ◌∙◌, true, List, [], ◌∷◌, ◌++◌, Returns, Returns-map, Bool-cases,
  ◌==◌, ltb, append_assoc,
}
use wserver.Buffer.{Count, bytes, minus_one, WriteResult, contents, readable_bytes, write_to_fd}
use wserver.Buffer.Append.{IsValid}
use wserver.Buffer.Io.{Sent, write_to_fd_correct}
use wserver.HttpContext.{HttpContext, reset}
use wserver.Channel.{enable_reading, enable_writing}
use wserver.Epoll.{Kernel}
use wserver.TcpConnection.{
  k_disconnected, sent, is_open, is_kept, World, set_channel, handle_close, handle_error,
  handle_write, after_write, emit,
}
use wserver.TcpConnection.Close.{
  Watched, Rewatched, set_channel_lem, Closed, HandledClose, handle_close_correct, farewell,
}

reset_output : (c : HttpContext) → (reset c).output_buffer ≡ c.output_buffer
unfolding reset
reset_output c = refl

module _ (k : Kernel) where
  -- A handler leaves the connection as open as it was, or it closes it and says so, once.
  pub record Stayed (w w' : World k) : Type 0 where
    pub watched : Watched k w'
    pub state : w'.0.state ≡ w.0.state
    pub effects : w'.0.effects ≡ w.0.effects
    pub output : w'.0.context.output_buffer ≡ w.0.context.output_buffer

  abbrev pub Continued : World k → World k → Type 0
  Continued w w' = Stayed w w' ⊎ Closed k w w'

  pub closing :
      (w : World k)
      → Watched k w
      → is_open w.0.state ≡ true
      → Returns (Continued w) (handle_close k w)
  closing w h o =
      Returns-map (HandledClose k w) (Continued w) (handle_close k w) (handle_close_correct k w h o)
        λ w' r. elim r [
          | inl kept ↦
              inl (rw kept.1 (record { watched = h; state = refl; effects = refl; output = refl }))
          | inr closed ↦ inr closed.1
        ]

  waiting :
      (ev : ℕ) (context : HttpContext) (w : World k)
      → Watched k w
      → context.output_buffer ≡ w.0.context.output_buffer
      → Returns (Continued w) (
          set_channel k
            (record w.0.channel { events = ev })
            (record w.0 { context = context }, w.1))
  waiting ev context w h out =
      let w₀ : World k = (record w.0 { context = context }, w.1) in
      Returns-map (Rewatched k ev w₀) (Continued w)
        (set_channel k (record w.0.channel { events = ev }) w₀) (set_channel_lem k ev w₀ h)
        λ w' r. inl (record {
          watched = r.watched;
          state = ap (λ t. t.state) r.same;
          effects = ap (λ t. t.effects) r.same;
          output = ap (λ t. t.context.output_buffer) r.same ∙ out;
        })

  after_write_correct :
      (n : Count) (w : World k)
      → Watched k w
      → is_open w.0.state ≡ true
      → Returns (Continued w) (after_write k n w)
  unfolding after_write handle_error enable_reading enable_writing
  after_write_correct minus_one w h o = closing w h o
  after_write_correct (bytes n) w h o =
      let left = readable_bytes w.0.context.output_buffer in
      elim (Bool-cases (n == 0)) [
        | inl z ↦ elim (Bool-cases (left == 0)) [
          | inl e ↦ rw (z, e) (closing w h o)
          | inr e ↦ rw (z, e) (closing w h o)
        ]
        | inr z ↦ elim (Bool-cases (ltb 0 left)) [
          | inl e ↦ rw (z, e) (waiting _ w.0.context w h refl)
          | inr e ↦ elim (Bool-cases (is_kept w.0)) [
            | inl a ↦ rw (z, e, a) (waiting _ (reset w.0.context) w h (reset_output w.0.context))
            | inr a ↦ rw (z, e, a) (closing w h o)
          ]
        ]
      ]

  -- What handleWrite leaves, `gone` being the bytes that went out: what is left in the output buffer
  -- comes behind them, and the connection is as open as it was, or it was closed.
  pub record Wrote (w w' : World k) : Type 0 where
    pub gone : List ℕ
    pub whole : gone ++ contents w'.0.context.output_buffer ≡ contents w.0.context.output_buffer
    pub valid : IsValid w'.0.context.output_buffer
    pub watched : Watched k w'
    pub fate :
        ((w'.0.state ≡ w.0.state) × (w'.0.effects ≡ w.0.effects ++ sent gone ∷ []))
        ⊎ ((w'.0.state ≡ k_disconnected)
            × (w'.0.effects ≡ w.0.effects ++ sent gone ∷ farewell k w.0.alive))

  -- handleWrite on an open connection on which channel, epoll and kernel agree, with a valid output
  -- buffer: whatever the calls of write give, it ends without an abort. The bytes that went out, and
  -- then those that the buffer keeps, are the bytes that were to be sent; the connection keeps its
  -- state, or it is disconnected and the server is told once.
  pub handle_write_correct :
      (writes : List WriteResult) (w : World k)
      → Watched k w
      → is_open w.0.state ≡ true
      → IsValid w.0.context.output_buffer
      → Returns (Wrote w) (handle_write k writes w)
  unfolding handle_write
  handle_write_correct writes w h o v =
      let r = write_to_fd w.0.context.output_buffer writes in
      let p : Sent w.0.context.output_buffer [] writes r =
        write_to_fd_correct w.0.context.output_buffer writes v in
      let w₁ : World k = (
        emit (sent r.2) (record w.0 { context = record w.0.context { output_buffer = r.0 } }),
        w.1,
      ) in
      Returns-map (Continued w₁) (Wrote w) (after_write k r.1 w₁) (after_write_correct r.1 w₁ h o)
        λ w' c. elim c [
          | inl s ↦ record {
            gone = r.2;
            whole = rw s.output p.whole;
            valid = rw s.output p.valid;
            watched = s.watched;
            fate = inl (s.state, s.effects);
          }
          | inr d ↦ record {
            gone = r.2;
            whole = rw d.context p.whole;
            valid = rw d.context p.valid;
            watched = d.watched;
            fate = inr (
              d.state,
              d.effects ∙ append_assoc w.0.effects (sent r.2 ∷ []) (farewell k w.0.alive),
            );
          }
        ]
