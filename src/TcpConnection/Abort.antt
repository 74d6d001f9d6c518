-- ===== src/TcpConnection/Abort.antt =====
-- An event that reports an error together with readable bytes.
use wserver.Prelude.{
  ◌+◌, ◌≡◌, ◌≢◌, ◌<◌, ◌^◌, ◌⊎◌, inl, inr, refl, ◌∙◌, Bool, true, false, ◌&&◌, List, ◌∷◌, ◌++◌,
  length, Exec, stop, fatal, ◌>>=◌, arith,
}
use wserver.Buffer.{bytes, minus_one, WriteResult}
use wserver.Buffer.Append.{IsValid}
use wserver.Buffer.Io.{received, outcome, read_from_fd_correct}
use wserver.Channel.{
  Channel, on_close, on_error, on_read, on_write, call_if, has, epollerr, epollhup, epollin,
  epollout, handle_event,
}
use wserver.Epoll.{Kernel}
use wserver.TcpConnection.{
  k_disconnected, Io, is_open, is_kept, World, handle_close, handle_error, after_read, handle_read,
  run_handler, run_handlers, on_event,
}
use wserver.TcpConnection.Close.{Watched, Closed, handle_close_correct}

events_lem :
    (c : Channel)
    → c.error_handler ≡ true
    → c.read_handler ≡ true
    → has c.revents epollin ≡ true
    → has c.revents epollerr ≡ true
    → has c.revents 0x2003 ≡ true
    → handle_event c
      ≡ on_error ∷ on_read ∷ call_if (has c.revents epollout && c.write_handler) on_write
unfolding handle_event
events_lem c he hr r_in err readable = ground arith

hangup_lem :
    (c : Channel)
    → c.close_callback ≡ true
    → c.error_handler ≡ true
    → has c.revents epollhup ≡ true
    → has c.revents epollin ≡ false
    → has c.revents epollerr ≡ true
    → handle_event c
      ≡ on_close
        ∷ on_error
        ∷ (call_if (has c.revents 0x2003 && c.read_handler) on_read
            ++ call_if (has c.revents epollout && c.write_handler) on_write)
unfolding handle_event
hangup_lem c hc he up not_in err = ground arith

module _ (k : Kernel) where
  closed_twice :
      (w : World k) → w.0.state ≡ k_disconnected → w.0.alive ≡ false → handle_close k w ≡ stop fatal
  unfolding handle_close
  closed_twice w s a = rw (s, a) refl

  -- After a first call of handleClose on an open connection that is not kept alive, what follows runs
  -- on a disconnected one.
  after_close :
      (w : World k) (f : World k → Exec (World k))
      → Watched k w
      → is_open w.0.state ≡ true
      → w.0.alive ≡ false
      → ((w' : World k) → Closed k w w' → f w' ≡ stop fatal)
      → (handle_close k w >>= f) ≡ stop fatal
  after_close w f h o a go =
      let (w', e, r) = handle_close_correct k w h o in
      let open_now : is_kept w.0 ≡ false = rw a refl in
      elim r [ inl kept ↦ absurd (clash kept.0 open_now) | inr closed ↦ rw e (go w' closed.1) ]
    where
      clash : {b : Bool} → b ≡ true → b ≢ false
      clash p = λ q. cc

  aborts_again :
      (w w' : World k) → w.0.alive ≡ false → Closed k w w' → handle_close k w' ≡ stop fatal
  aborts_again w w' a c = closed_twice w' c.state (c.alive ∙ a)

  -- An event with EPOLLHUP and EPOLLERR and without EPOLLIN, on an open connection that is not kept
  -- alive, whose handlers are set, and on which channel, epoll and kernel agree: the close handler and
  -- then the error handler close it, and the second call aborts the server.
  pub on_event-hangup_error :
      (io : Io) (writes : List WriteResult) (w : World k)
      → Watched k w
      → is_open w.0.state ≡ true
      → w.0.alive ≡ false
      → w.0.channel.close_callback ≡ true
      → w.0.channel.error_handler ≡ true
      → has w.0.channel.revents epollhup ≡ true
      → has w.0.channel.revents epollin ≡ false
      → has w.0.channel.revents epollerr ≡ true
      → on_event k io writes w ≡ stop fatal
  unfolding on_event run_handlers run_handler handle_error
  on_event-hangup_error io writes w h o a hc he up not_in err =
      let list = hangup_lem w.0.channel hc he up not_in err in
      rw list (after_close w _ h o a λ w' c. rw (aborts_again w w' a c) refl)

  read_after_close :
      (io : Io) (w w' : World k)
      → IsValid w.0.context.input_buffer
      → w.0.alive ≡ false
      → (outcome 0 io.reads ≡ minus_one) ⊎ (outcome 0 io.reads ≡ bytes 0)
      → w.0.context.input_buffer.write_index + length (received io.reads) < 2 ^ 31
      → Closed k w w'
      → handle_read k io w' ≡ stop fatal
  unfolding handle_read after_read handle_error
  read_after_close io w w' v a ends fits c =
      let (r, e, p) =
        read_from_fd_correct w'.0.context.input_buffer io.reads (rw c.context v)
          (rw c.context fits) in
      let again =
        closed_twice (record w'.0 { context = record w'.0.context { input_buffer = r.0 } }, w'.1)
          c.state (c.alive ∙ a) in
      elim ends [ inl m ↦ rw (e, p.count ∙ m) again | inr z ↦ rw (e, p.count ∙ z) again ]

  -- An event with EPOLLERR and EPOLLIN, on an open connection that is not kept alive, whose handlers
  -- are set, with a valid input buffer and room, and on which channel, epoll and kernel agree: where
  -- reading fails or finds the end, the error handler closes the connection, the read handler closes it
  -- again, and the second call aborts the server.
  pub on_event-error_readable :
      (io : Io) (writes : List WriteResult) (w : World k)
      → Watched k w
      → is_open w.0.state ≡ true
      → w.0.alive ≡ false
      → IsValid w.0.context.input_buffer
      → w.0.channel.error_handler ≡ true
      → w.0.channel.read_handler ≡ true
      → has w.0.channel.revents epollin ≡ true
      → has w.0.channel.revents epollerr ≡ true
      → has w.0.channel.revents 0x2003 ≡ true
      → (outcome 0 io.reads ≡ minus_one) ⊎ (outcome 0 io.reads ≡ bytes 0)
      → w.0.context.input_buffer.write_index + length (received io.reads) < 2 ^ 31
      → on_event k io writes w ≡ stop fatal
  unfolding on_event run_handlers run_handler handle_error
  on_event-error_readable io writes w h o a v he hr r_in err readable ends fits =
      let list : handle_event w.0.channel
          ≡ on_error
            ∷ on_read
            ∷ call_if (has w.0.channel.revents epollout && w.0.channel.write_handler) on_write =
        events_lem w.0.channel he hr r_in err readable in
      rw list (after_close w _ h o a λ w' c. rw (read_after_close io w w' v a ends fits c) refl)
