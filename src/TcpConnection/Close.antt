-- ===== src/TcpConnection/Close.antt =====
-- handleClose, closeLongConnection and connectDestroyed: the end of a connection.
use wserver.Prelude.{
  ℕ, ◌≡◌, ◌≢◌, ◌⊎◌, inl, inr, refl, ap, ◌∙◌, Bool, true, false, not, ◌&&◌, none, some, List, [],
  ◌∷◌, ◌++◌, done, Returns, Returns-map, Returns-bind, Bool-cases, ◌>>=◌, if◌then◌else◌,
  append_assoc,
}
use wserver.Channel.{k_new, k_added, disable_all}
use wserver.Epoll.{Kernel, update_channel}
use wserver.Epoll.Registration.{
  Tracks, Updated, update_channel_correct, interest, remove_lem, same_fd,
}
use wserver.TcpConnection.{
  k_disconnected, Effect, shutdown_write, close_callback, is_open, is_kept, World, set_channel,
  handle_close, close_long_connection, connect_destroyed, emit,
}

module _ (k : Kernel) where
  abbrev pub Watched : World k → Type 0
  Watched w = Tracks k w.0.address w.0.channel w.1

  -- What a change of the channel's events to `ev` leaves.
  pub record Rewatched (ev : ℕ) (w w' : World k) : Type 0 where
    pub watched : Watched w'
    pub same : w'.0 ≡ record w.0 { channel = w'.0.channel }
    pub events : w'.0.channel.events ≡ ev
    pub fd : w'.0.channel.fd ≡ w.0.channel.fd
    pub entry : w'.1.channels w.0.channel.fd ≡ some w.0.address
    pub registered : k.registered w'.1.kernel w.0.channel.fd ≡ interest w.0.channel.index ev

  pub set_channel_lem :
      (ev : ℕ) (w : World k)
      → Watched w
      → Returns (Rewatched ev w) (set_channel k (record w.0.channel { events = ev }) w)
  unfolding set_channel
  set_channel_lem ev w h =
      Returns-bind (Updated k w.0.address ev w.0.channel w.1) (Rewatched ev w)
        (update_channel k w.0.address (record w.0.channel { events = ev }) w.1) _
        (update_channel_correct k w.0.address ev w.0.channel w.1 h)
        λ r u. (
          _,
          refl,
          record {
            watched = u.tracks;
            same = refl;
            events = u.events;
            fd = u.fd;
            entry = u.entry;
            registered = u.registered w.0.channel.fd ∙ rw (same_fd k w.0.channel.fd) refl;
          },
        )

  -- The requests that closing a connection makes.
  abbrev pub farewell : Bool → List Effect
  farewell alive = (if alive then [] else shutdown_write ∷ []) ++ close_callback ∷ []

  pub record Closed (w w' : World k) : Type 0 where
    pub watched : Watched w'
    pub state : w'.0.state ≡ k_disconnected
    pub quiet : w'.0.channel.events ≡ 0
    pub effects : w'.0.effects ≡ w.0.effects ++ farewell w.0.alive
    pub context : w'.0.context ≡ w.0.context
    pub alive : w'.0.alive ≡ w.0.alive
    pub address : w'.0.address ≡ w.0.address
    pub fd : w'.0.channel.fd ≡ w.0.channel.fd
    pub entry : w'.1.channels w.0.channel.fd ≡ some w.0.address
    pub registered : k.registered w'.1.kernel w.0.channel.fd ≡ interest w.0.channel.index 0

  abbrev pub HandledClose : World k → World k → Type 0
  HandledClose w w' = ((is_kept w.0 ≡ true) × (w' ≡ w)) ⊎ ((is_kept w.0 ≡ false) × Closed w w')

  pub handle_close-kept : (w : World k) → is_kept w.0 ≡ true → handle_close k w ≡ done w
  unfolding handle_close
  handle_close-kept w e = rw e refl

  handle_close-open :
      (w : World k)
      → is_kept w.0 ≡ false
      → is_open w.0.state ≡ true
      → handle_close k w ≡ (
          set_channel k (disable_all w.0.channel) (record w.0 { state = k_disconnected }, w.1)
          >>= λ w'.
              done
                (emit close_callback (if w.0.alive then w'.0 else emit shutdown_write w'.0), w'.1))
  unfolding handle_close
  handle_close-open w e o = rw (e, o) refl

  leave_Closed :
      (alive : Bool) (w w' : World k)
      → w.0.alive ≡ alive
      → Rewatched 0 (record w.0 { state = k_disconnected }, w.1) w'
      → Closed w (emit close_callback (if alive then w'.0 else emit shutdown_write w'.0), w'.1)
  leave_Closed true w w' a r = record {
    watched = r.watched;
    state = ap (λ t. t.state) r.same;
    quiet = r.events;
    effects = rw a (ap (λ t. t.effects ++ close_callback ∷ []) r.same);
    context = ap (λ t. t.context) r.same;
    alive = ap (λ t. t.alive) r.same;
    address = ap (λ t. t.address) r.same;
    fd = r.fd;
    entry = r.entry;
    registered = r.registered;
  }
  leave_Closed false w w' a r = record {
    watched = r.watched;
    state = ap (λ t. t.state) r.same;
    quiet = r.events;
    effects = rw a (
        ap (λ t. (t.effects ++ shutdown_write ∷ []) ++ close_callback ∷ []) r.same
        ∙ append_assoc w.0.effects (shutdown_write ∷ []) (close_callback ∷ []));
    context = ap (λ t. t.context) r.same;
    alive = ap (λ t. t.alive) r.same;
    address = ap (λ t. t.address) r.same;
    fd = r.fd;
    entry = r.entry;
    registered = r.registered;
  }

  -- handleClose on an open connection on which channel, epoll and kernel agree: a connection that
  -- waits for its timer is left as it is; any other one is disconnected, its channel waits for no
  -- event, its writing side is shut down unless it was kept alive, and the server is told once.
  pub handle_close_correct :
      (w : World k)
      → Watched w
      → is_open w.0.state ≡ true
      → Returns (HandledClose w) (handle_close k w)
  unfolding disable_all
  handle_close_correct w h o = elim (Bool-cases (is_kept w.0)) [
    | inl e ↦ rw (handle_close-kept w e) (w, refl, inl (e, refl))
    | inr e ↦ rw (handle_close-open w e o) (
        Returns-bind (Rewatched 0 (record w.0 { state = k_disconnected }, w.1)) (HandledClose w)
          (set_channel k (disable_all w.0.channel) (record w.0 { state = k_disconnected }, w.1)) _
          (set_channel_lem 0 (record w.0 { state = k_disconnected }, w.1) h)
          λ w' r. (_, refl, inr (e, leave_Closed w.0.alive w w' refl r)))
  ]

  -- closeLongConnection on an open connection on which channel, epoll and kernel agree: it is closed,
  -- whether or not it waited for its timer.
  pub close_long_connection_correct :
      (w : World k)
      → Watched w
      → is_open w.0.state ≡ true
      → Returns (Closed w) (close_long_connection k w)
  unfolding close_long_connection
  close_long_connection_correct w h o =
      let late : World k = (record w.0 { timeout = true }, w.1) in
      Returns-map (HandledClose late) (Closed w) (handle_close k late)
        (handle_close_correct late h o)
        λ w' r. elim r [
          | inl kept ↦ absurd (not_kept w.0.alive kept.0)
          | inr closed ↦ record {
            watched = closed.1.watched;
            state = closed.1.state;
            quiet = closed.1.quiet;
            effects = closed.1.effects;
            context = closed.1.context;
            alive = closed.1.alive;
            address = closed.1.address;
            fd = closed.1.fd;
            entry = closed.1.entry;
            registered = closed.1.registered;
          }
        ]
    where
      not_kept : (alive : Bool) → (alive && not true) ≢ true
      not_kept true = λ e. cc
      not_kept false = λ e. cc

  pub record Gone (w w' : World k) : Type 0 where
    pub index : w'.0.channel.index ≡ k_new
    pub state : w'.0.state ≡ k_disconnected
    pub entry : w'.1.channels w.0.channel.fd ≡ none
    pub registered : k.registered w'.1.kernel w.0.channel.fd ≡ none
    pub effects : w'.0.effects ≡ w.0.effects ++ farewell w.0.alive

  pub connect_destroyed-Closed :
      (w w' : World k)
      → interest w.0.channel.index 0 ≡ none
      → Closed w w'
      → Returns (Gone w) (connect_destroyed k w')
  unfolding connect_destroyed
  connect_destroyed-Closed w w' i c =
      let entry : w'.1.channels w'.0.channel.fd ≡ some w'.0.address =
        rw (c.fd, c.address) c.entry in
      rw (c.state, remove_lem k w'.0.address w'.0.channel w'.1 c.quiet entry)
        (
          _,
          refl,
          record {
            index = refl;
            state = refl;
            entry = rw (c.fd, same_fd k w.0.channel.fd) refl;
            registered = c.registered ∙ i;
            effects = c.effects;
          },
        )

  -- handleClose on an open connection on which channel, epoll and kernel agree, which is registered and
  -- does not wait for its timer, and then connectDestroyed, which the server queues: both return, the
  -- socket is no longer registered with the kernel, nor listed, the connection is disconnected, and the
  -- server was told once.
  pub connect_destroyed-handle_close :
      (w : World k)
      → Watched w
      → is_open w.0.state ≡ true
      → w.0.channel.index ≡ k_added
      → is_kept w.0 ≡ false
      → Returns (Gone w) (handle_close k w >>= connect_destroyed k)
  connect_destroyed-handle_close w h o i e =
      Returns-bind (HandledClose w) (Gone w) (handle_close k w) (connect_destroyed k)
        (handle_close_correct w h o)
        λ w' r. elim r [
          | inl kept ↦ absurd (clash kept.0 e)
          | inr closed ↦ connect_destroyed-Closed w w' (rw i refl) closed.1
        ]
    where
      clash : {b : Bool} → b ≡ true → b ≢ false
      clash p = λ q. cc
