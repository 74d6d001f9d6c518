-- ===== src/TcpConnection/Keeping.antt =====
-- handleWrite where the socket takes the whole response of a connection that is kept.
use wserver.Prelude.{
  ℕ, ◌≡◌, ◌⊎◌, inl, inr, refl, some, true, false, List, [], ◌∷◌, length, Returns, Returns-map,
  Bool-cases, ◌==◌, arith,
}
use wserver.Buffer.{Buffer, bytes, contents, readable_bytes, WriteResult, write_to_fd}
use wserver.Buffer.Append.{IsValid, length-contents, readable_bytes_lem}
use wserver.Buffer.Io.{NeverFails}
use wserver.Buffer.Drain.{left, IsTrim, write_to_fd-Drained}
use wserver.HttpContext.{HttpContext, check_request_line, keep_alive, is_keep_alive, reset}
use wserver.Epoll.Registration.{interest}
use wserver.Channel.{Index, k_new, k_added, k_deleted, enable_reading, k_read_event}
use wserver.Epoll.{Kernel}
use wserver.TcpConnection.{
  sent, TcpConnection, is_kept, World, emit, keep, set_channel, after_write, handle_write,
}
use wserver.TcpConnection.Close.{Watched, Rewatched, set_channel_lem}

-- A buffer that holds nothing, with both indices at 0.
pub record IsClear (b : Buffer) : Type 0 where
  pub valid : IsValid b
  pub read_index : b.read_index ≡ 0
  pub write_index : b.write_index ≡ 0

nil : (xs : List ℕ) → length xs ≡ 0 → xs ≡ []
nil [] e = refl
nil (x ∷ xs) e = absurd (omega (arith, e))

pub contents-IsClear : (b : Buffer) → IsClear b → contents b ≡ []
contents-IsClear b c = nil (contents b) (omega (arith, length-contents b c.valid, c.write_index))

readable_bytes-IsClear : (b : Buffer) → IsClear b → readable_bytes b ≡ 0
readable_bytes-IsClear b c = omega (arith, readable_bytes_lem b c.valid, c.write_index)

-- A connection that is kept after the request just parsed.
pub keep-alive :
    (t : TcpConnection)
    → (t.alive ≡ true) ⊎ (t.context.connection ≡ keep_alive)
    → ((keep t).alive ≡ true) × ((keep t).timeout ≡ t.timeout)
unfolding keep is_keep_alive
keep-alive t (inl a) = rw a (refl, refl)
keep-alive t (inr c) = elim (Bool-cases t.alive) [
  | inl a ↦ rw a (refl, refl)
  | inr a ↦ rw (a, c) (refl, refl)
]

pub retrieved : (c : HttpContext) → IsValid c.input_buffer → IsClear (reset c).input_buffer
unfolding reset
retrieved c v = record {
  valid = record { ordered = omega arith; inside = omega arith; small = v.small };
  read_index = refl;
  write_index = refl;
}

pub reset-lem :
    (c : HttpContext)
    → ((reset c).check_state ≡ check_request_line) × ((reset c).output_buffer ≡ c.output_buffer)
unfolding reset
reset-lem c = (refl, refl)

-- Whatever was known of a channel, it is then registered for reading.
pub interest-read_event : (i : Index) → interest i k_read_event ≡ some k_read_event
interest-read_event k_new = refl
interest-read_event k_added = refl
interest-read_event k_deleted = refl

module _ (k : Kernel) where
  after_write-kept :
      (n : ℕ) (w : World k)
      → (n == 0) ≡ false
      → readable_bytes w.0.context.output_buffer ≡ 0
      → is_kept w.0 ≡ true
      → after_write k (bytes n) w
        ≡ set_channel k
            (enable_reading w.0.channel)
            (record w.0 { context = reset w.0.context }, w.1)
  unfolding after_write
  after_write-kept n w e z a = rw (e, z, a) refl

  -- The connection once the bytes of its output buffer are on the wire.
  abbrev pub emptied : World k → Buffer → World k
  emptied w b = (
    emit (sent (contents w.0.context.output_buffer))
        (record w.0 { context = record w.0.context { output_buffer = b } }),
    w.1,
  )

  abbrev pub reset_world : World k → World k
  reset_world w = (record w.0 { context = reset w.0.context }, w.1)

  pub handle_write-drained :
      (writes : List WriteResult) (w : World k)
      → Watched k w
      → is_kept w.0 ≡ true
      → IsValid w.0.context.output_buffer
      → (length (contents w.0.context.output_buffer) == 0) ≡ false
      → NeverFails writes
      → left (length (contents w.0.context.output_buffer)) writes ≡ 0
      → Returns
          (λ w'. (b : Buffer) × IsClear b × Rewatched k k_read_event (reset_world (emptied w b)) w')
          (handle_write k writes w)
  unfolding handle_write enable_reading
  handle_write-drained writes w h a v n clean all =
      let out = w.0.context.output_buffer in
      let trim : IsTrim out = λ e. absurd (ground (arith, length-contents out v)) in
      let d = write_to_fd-Drained out writes v trim clean all in
      let b = (write_to_fd out writes).0 in
      let clear : IsClear b = record {
        valid = d.valid;
        read_index = d.read_index;
        write_index = d.write_index;
      } in
      rw
        (
          d.count,
          d.sent,
          after_write-kept (length (contents out)) (emptied w b) n (readable_bytes-IsClear b clear)
              a,
        )
        (Returns-map (Rewatched k k_read_event (reset_world (emptied w b))) _ _
          (set_channel_lem k k_read_event (reset_world (emptied w b)) h) λ w' r. (b, clear, r))
