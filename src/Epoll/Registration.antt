-- ===== src/Epoll/Registration.antt =====
-- The three places that know of a channel agree: its index, `m_channels`, and the kernel.
use wserver.Prelude.{
  ℕ, ◌≡◌, ◌≢◌, inl, inr, refl, sym, ap, ◌∙◌, true, false, Option, none, some, Exec, done, Returns,
  Returns-bind, Bool-cases, ◌>>=◌, ◌==◌, if◌then◌else◌, arith,
}
use wserver.Channel.{Channel, Index, k_new, k_added, k_deleted, is_none_event, disable_all}
use wserver.Epoll.{
  ctl_add, ctl_mod, ctl_del, Kernel, Epoll, put, is_some, update, update_channel, remove_channel,
  remove,
}

-- What is known of a channel with this index, these events and this address: its registration with
-- the kernel, and its entry in `m_channels`.
abbrev pub Held : Index → ℕ → ℕ → Option ℕ → Option ℕ → Type 0
Held k_new ev id reg entry = (reg ≡ none) × (entry ≡ none)
Held k_added ev id reg entry = (reg ≡ some ev) × (entry ≡ some id)
Held k_deleted ev id reg entry = (reg ≡ none) × (entry ≡ some id)

-- The registration that updateChannel leaves: one without events is dropped, but only of a channel
-- that is registered.
abbrev pub interest : Index → ℕ → Option ℕ
interest k_added ev = if ev == 0 then none else some ev
interest _ ev = some ev

module _ (k : Kernel) where
  abbrev pub Tracks : ℕ → Channel → Epoll k → Type 0
  Tracks id c e = Held c.index c.events id (k.registered e.kernel c.fd) (e.channels c.fd)

  -- What updateChannel leaves of a channel whose events were set to `ev`.
  pub record Updated (id ev : ℕ) (c : Channel) (e : Epoll k) (r : Channel × Epoll k) : Type 0 where
    pub tracks : Tracks id r.0 r.1
    pub entry : r.1.channels c.fd ≡ some id
    pub fd : r.0.fd ≡ c.fd
    pub events : r.0.events ≡ ev
    pub registered :
        (j : ℕ)
        → k.registered r.1.kernel j
          ≡ (if c.fd == j then interest c.index ev else k.registered e.kernel j)
    pub others : (j : ℕ) → c.fd ≢ j → r.1.channels j ≡ e.channels j

  add_lem :
      (c : Channel) (e : Epoll k)
      → k.registered e.kernel c.fd ≡ none
      → update k ctl_add c e ≡ done (record e { kernel = (k.ctl ctl_add c.fd c.events e.kernel).1 })
  unfolding update
  add_lem c e h = rw (k.add_succeeds e.kernel c.fd c.events h) refl

  mod_lem :
      (c : Channel) (e : Epoll k) (old : ℕ)
      → k.registered e.kernel c.fd ≡ some old
      → update k ctl_mod c e ≡ done (record e { kernel = (k.ctl ctl_mod c.fd c.events e.kernel).1 })
  unfolding update
  mod_lem c e old h = rw (k.mod_succeeds e.kernel c.fd c.events old h) refl

  del_lem :
      (c : Channel) (e : Epoll k)
      → update k ctl_del c e ≡ done (record e { kernel = (k.ctl ctl_del c.fd c.events e.kernel).1 })
  unfolding update
  del_lem c e = elim (Bool-cases (k.ctl ctl_del c.fd c.events e.kernel).0) [
    | inl ok ↦ rw ok refl
    | inr failed ↦ rw failed refl
  ]

  pub same_fd : (fd : ℕ) → (fd == fd) ≡ true
  same_fd fd = ground arith

  differ : (a b : ℕ) → a ≢ b → (a == b) ≡ false
  differ a b n = ground arith

  -- updateChannel by the index of the channel.
  step_new :
      (id : ℕ) (c : Channel) (e : Epoll k)
      → c.index ≡ k_new
      → k.registered e.kernel c.fd ≡ none
      → update_channel k id c e
        ≡ done (
          record c { index = k_added },
          record e {
            channels = put e.channels c.fd (some id);
            kernel = (k.ctl ctl_add c.fd c.events e.kernel).1;
          },
        )
  unfolding update_channel
  step_new id c e i h =
      let added =
        add_lem (record c { index = k_added })
          (record e { channels = put e.channels c.fd (some id) }) h in
      ground (arith, added)

  step_deleted :
      (id : ℕ) (c : Channel) (e : Epoll k)
      → c.index ≡ k_deleted
      → k.registered e.kernel c.fd ≡ none
      → update_channel k id c e
        ≡ done (
          record c { index = k_added },
          record e { kernel = (k.ctl ctl_add c.fd c.events e.kernel).1 },
        )
  unfolding update_channel
  step_deleted id c e i h =
      let added = add_lem (record c { index = k_added }) e h in ground (arith, added)

  step_drop :
      (id : ℕ) (c : Channel) (e : Epoll k)
      → c.index ≡ k_added
      → (c.events == 0) ≡ true
      → update_channel k id c e
        ≡ done (
          record c { index = k_deleted },
          record e { kernel = (k.ctl ctl_del c.fd c.events e.kernel).1 },
        )
  unfolding update_channel is_none_event
  step_drop id c e i z = ground (arith, del_lem c e)

  step_change :
      (id : ℕ) (c : Channel) (e : Epoll k) (old : ℕ)
      → c.index ≡ k_added
      → (c.events == 0) ≡ false
      → k.registered e.kernel c.fd ≡ some old
      → update_channel k id c e
        ≡ done (c, record e { kernel = (k.ctl ctl_mod c.fd c.events e.kernel).1 })
  unfolding update_channel is_none_event
  step_change id c e old i z h = ground (arith, mod_lem c e old h)

  module _ (id ev : ℕ) (c : Channel) (e : Epoll k) where
    abbrev reg : Option ℕ
    reg = k.registered e.kernel c.fd

    updated :
        (i : Index)
        → c.index ≡ i
        → Held i c.events id reg (e.channels c.fd)
        → Returns (Updated id ev c e) (update_channel k id (record c { events = ev }) e)
    updated k_new i (r, m) =
        let kept = k.add_registers e.kernel c.fd ev in
        rw (step_new id (record c { events = ev }) e i r) (
          _,
          refl,
          record {
            tracks = (kept c.fd r ∙ rw (same_fd c.fd) refl, rw (same_fd c.fd) refl);
            entry = rw (same_fd c.fd) refl;
            fd = refl;
            events = refl;
            registered = λ j.
                kept j r
                ∙ ap (λ x. if c.fd == j then interest x ev else k.registered e.kernel j) (sym i);
            others = λ j n. ground arith;
          },
        )
    updated k_deleted i (r, m) =
        let kept = k.add_registers e.kernel c.fd ev in
        rw (step_deleted id (record c { events = ev }) e i r) (
          _,
          refl,
          record {
            tracks = (kept c.fd r ∙ rw (same_fd c.fd) refl, m);
            entry = m;
            fd = refl;
            events = refl;
            registered = λ j.
                kept j r
                ∙ ap (λ x. if c.fd == j then interest x ev else k.registered e.kernel j) (sym i);
            others = λ j n. refl;
          },
        )
    updated k_added i (r, m) = elim (Bool-cases (ev == 0)) [
      | inl z ↦
          let kept = k.del_registers e.kernel c.fd ev c.events in
          rw (step_drop id (record c { events = ev }) e i z) (
            _,
            refl,
            record {
              tracks = (kept c.fd r ∙ rw (same_fd c.fd) refl, m);
              entry = m;
              fd = refl;
              events = refl;
              registered = λ j. kept j r ∙ ground (arith, i);
              others = λ j n. refl;
            },
          )
      | inr z ↦
          let kept = k.mod_registers e.kernel c.fd ev c.events in
          let held : Held k_added ev id (k.registered (k.ctl ctl_mod c.fd ev e.kernel).1 c.fd)
              (e.channels c.fd) =
            (kept c.fd r ∙ rw (same_fd c.fd) refl, m) in
          rw (step_change id (record c { events = ev }) e c.events i z r) (
            _,
            refl,
            record {
              tracks = rw i held;
              entry = m;
              fd = refl;
              events = refl;
              registered = λ j. kept j r ∙ ground (arith, i);
              others = λ j n. refl;
            },
          )
    ]

    -- update(), after the events of a channel were set: where the index, `m_channels` and the kernel
    -- agree on the channel they agree again, and no failure of epoll_ctl ends the process. A channel
    -- with no event left is dropped from the kernel if it was registered; in every other case it is
    -- registered with its events. No other descriptor is touched.
    pub update_channel_correct :
        Tracks id c e
        → Returns (Updated id ev c e) (update_channel k id (record c { events = ev }) e)
    update_channel_correct t = updated c.index refl t

  -- disableAll() and then remove(), as the destructors and connectDestroyed call them.
  unfoldable pub retire : ℕ → Channel → Epoll k → Exec (Channel × Epoll k)
  unfolding disable_all
  retire id c e = do r ← update_channel k id (disable_all c) e; remove k id r.0 r.1

  pub remove_lem :
      (id : ℕ) (c : Channel) (e : Epoll k)
      → c.events ≡ 0
      → e.channels c.fd ≡ some id
      → remove k id c e
        ≡ done (record c { index = k_new }, record e { channels = put e.channels c.fd none })
  unfolding remove remove_channel is_none_event
  remove_lem id c e z m =
      let mine : (id == id) ≡ true = same_fd id in
      let quiet : (c.events == 0) ≡ true = ground arith in
      let listed : is_some (e.channels c.fd) id ≡ true = rw m mine in rw (listed, quiet) refl

  -- A channel that is no longer registered nor listed.
  pub record Retired (id : ℕ) (c : Channel) (e : Epoll k) (r : Channel × Epoll k) : Type 0 where
    pub index : r.0.index ≡ k_new
    pub entry : r.1.channels c.fd ≡ none
    pub registered :
        (j : ℕ)
        → k.registered r.1.kernel j
          ≡ (if c.fd == j then interest c.index 0 else k.registered e.kernel j)
    pub others : (j : ℕ) → c.fd ≢ j → r.1.channels j ≡ e.channels j

  -- disableAll() and remove() on a channel on which the index, `m_channels` and the kernel agree:
  -- the channel is new again and its entry is gone, and no other descriptor is touched. If it was
  -- registered, the kernel has forgotten it; if it was not, disableAll() has registered it with no
  -- events, and the kernel keeps that registration.
  pub retire_correct :
      (id : ℕ) (c : Channel) (e : Epoll k)
      → Tracks id c e
      → Returns (Retired id c e) (retire id c e)
  unfolding retire
  retire_correct id c e t =
      Returns-bind (Updated id 0 c e) (Retired id c e) (update_channel k id (disable_all c) e) _
        (update_channel_correct id 0 c e t)
        λ r u. rw (remove_lem id r.0 r.1 u.events (rw u.fd u.entry)) (
          _,
          refl,
          record {
            index = refl;
            entry = rw (u.fd, same_fd c.fd) refl;
            registered = u.registered;
            others = λ j n. rw (u.fd, differ c.fd j n) (u.others j n);
          },
        )
