-- ===== src/EventLoop/Registry.antt =====
-- The bodies of the constructor and of the destructor of EventLoop: the loop of a thread, and the channel on its
-- eventfd; and updateChannel, removeChannel and assertInLoopThread, with the thread that calls them.
-- `t_loopInThisThread` is a function of the threads. A loop and a channel are their addresses.
use wserver.Prelude.{
  ℕ, ◌≡◌, ◌≢◌, refl, sym, ap, ◌∙◌, Bool, true, false, not, ◌&&◌, ◌||◌, Option, none, some, Exec,
  done, stop, fatal, require, ◌>>=◌, ◌>>◌, ◌==◌, if◌then◌else◌, Returns, Bool-cases, inl, inr,
  arith,
}
use wserver.Channel
use wserver.Channel.{Channel, k_read_event, enable_reading, disable_all}
use wserver.Epoll
use wserver.Epoll.{Kernel, Epoll, put}
use wserver.Epoll.Registration.{retire}
use wserver.Epoll.Restored.{Alike, retire-update_channel}
use wserver.EventLoop
use wserver.EventLoop.{EventLoop, check_removal, is_current, is_member}

-- A loop at `address`, made by the thread `tid`, with its wakeup channel at `wakeup_channel`.
pub record Loop : Type 0 where
  pub address : ℕ
  pub tid : ℕ
  pub state : EventLoop
  pub wakeup_channel : ℕ
  pub channel : Channel

abbrev pub Registry : Type 0
Registry = ℕ → Option ℕ

unfoldable pub get_event_loop_of_current_thread : ℕ → Registry → Option ℕ
get_event_loop_of_current_thread caller t_loop = t_loop caller

-- assertInLoopThread, with abortNotInLoopThread; `caller` is CurrentThread::tid().
unfoldable pub assert_in_loop_thread : ℕ → Loop → Exec (Unit {0})
assert_in_loop_thread caller l = require (l.tid == caller) fatal

abbrev pub occupied : Option ℕ → Bool
occupied none = false
occupied (some l) = true

module _ (k : Kernel) where
  -- `owner` is the channel's ownerLoop().
  unfoldable pub update_channel : ℕ → ℕ → Loop → ℕ → Channel → Epoll k → Exec (Channel × Epoll k)
  update_channel caller owner l id c e = do
    require (owner == l.address) fatal
    assert_in_loop_thread caller l
    Epoll.update_channel k id c e

  -- Channel::remove, and removeChannel, which it calls.
  unfoldable pub remove : ℕ → ℕ → Loop → ℕ → Channel → Epoll k → Exec (Channel × Epoll k)
  remove caller owner l id c e = do
    assert_in_loop_thread caller l
    require (owner == l.address) fatal
    assert_in_loop_thread caller l
    checked ← check_removal id l.state
    Epoll.remove k id c e

  -- The constructor from eventfd(2) on, whose failure is `none`, in the thread `caller`: `e` is the
  -- epoll in which the member m_timer_heap has registered its channel already.
  unfoldable pub construct :
      ℕ → ℕ → ℕ → Option ℕ → Registry → Epoll k → Exec (Loop × Registry × Epoll k)
  unfolding enable_reading
  construct caller address channel none t_loop e = stop fatal
  construct caller address channel (some fd) t_loop e =
      let l : Loop = record {
        address = address;
        tid = caller;
        state = EventLoop.new;
        wakeup_channel = channel;
        channel = record (Channel.new fd) { read_handler = true };
      } in
      let register : Exec (Loop × Registry × Epoll k) = do
        r ← update_channel caller address l channel (enable_reading l.channel) e
        done (record l { channel = r.0 }, put t_loop caller (some address), r.1)
      in if occupied (t_loop caller) then stop fatal else register

  -- The destructor behind disableAll().
  abbrev pub finish : ℕ → Loop → Registry → Channel × Epoll k → Exec (Registry × Epoll k)
  finish caller l t_loop r = do
    q ← remove caller l.address l l.wakeup_channel r.0 r.1
    done (put t_loop caller none, q.1)

  -- The body of the destructor, in the thread `caller`; m_timer_heap goes behind it.
  unfoldable pub destroy : ℕ → Loop → Registry → Epoll k → Exec (Registry × Epoll k)
  destroy caller l t_loop e = do
    r ← update_channel caller l.address l l.wakeup_channel (disable_all l.channel) e
    finish caller l t_loop r

  module _ (caller : ℕ) (l : Loop) (own : l.tid ≡ caller) where
    same_loop : (l.address == l.address) ≡ true
    same_loop = ground arith

    same_thread : (l.tid == caller) ≡ true
    same_thread = ground (arith, own)

    update_channel-own :
        (id : ℕ) (c : Channel) (e : Epoll k)
        → update_channel caller l.address l id c e ≡ Epoll.update_channel k id c e
    unfolding update_channel assert_in_loop_thread
    update_channel-own id c e = rw (same_loop, same_thread) refl

    check_removal-idle :
        (id : ℕ) → l.state.event_handling ≡ false → check_removal id l.state ≡ done l.state
    unfolding check_removal
    check_removal-idle id h =
        ap
          (λ b.
            if b
              && (not (is_current l.state.current_active_channel id)
                  || is_member id l.state.active_channels)
            then stop fatal
            else done l.state)
          h

    remove-own :
        (id : ℕ) (c : Channel) (e : Epoll k)
        → l.state.event_handling ≡ false
        → remove caller l.address l id c e ≡ Epoll.remove k id c e
    unfolding remove assert_in_loop_thread
    remove-own id c e h = rw (same_loop, same_thread, check_removal-idle id h) refl

    then_removed :
        (t_loop : Registry) (x : Exec (Channel × Epoll k)) (q : Channel × Epoll k)
        → l.state.event_handling ≡ false
        → (x >>= λ r. Epoll.remove k l.wakeup_channel r.0 r.1) ≡ done q
        → (x >>= finish caller l t_loop) ≡ done (put t_loop caller none, q.1)
    then_removed t_loop (done r) q h e = rw (remove-own l.wakeup_channel r.0 r.1 h, e) refl
    then_removed t_loop (stop x) q h e = absurd (cc)

    destroy-retire :
        (t_loop : Registry) (e : Epoll k) (q : Channel × Epoll k)
        → l.state.event_handling ≡ false
        → retire k l.wakeup_channel l.channel e ≡ done q
        → destroy caller l t_loop e ≡ done (put t_loop caller none, q.1)
    unfolding destroy retire
    destroy-retire t_loop e q h r =
        rw (update_channel-own l.wakeup_channel (disable_all l.channel) e)
          (then_removed t_loop _ q h r)

  destroy-elsewhere :
      (caller : ℕ) (l : Loop) (t_loop : Registry) (e : Epoll k)
      → l.tid ≢ caller
      → destroy caller l t_loop e ≡ stop fatal
  unfolding destroy update_channel assert_in_loop_thread
  destroy-elsewhere caller l t_loop e n =
      let there : (l.address == l.address) ≡ true = ground arith in
      let other : (l.tid == caller) ≡ false = ground (arith, n) in rw (there, other) refl

  -- What is left of a thread that has made a loop, from `t_loop` and `e`.
  pub record Registered (caller address : ℕ) (t_loop : Registry) (e : Epoll k)
      (r : Loop × Registry × Epoll k) : Type 0 where
    pub current : get_event_loop_of_current_thread caller r.1 ≡ some address
    pub others :
        (j : ℕ)
        → caller ≢ j
        → get_event_loop_of_current_thread j r.1 ≡ get_event_loop_of_current_thread j t_loop
    pub second :
        (a c : ℕ) (fd : Option ℕ) (e' : Epoll k) → construct caller a c fd r.1 e' ≡ stop fatal
    pub elsewhere : (j : ℕ) → caller ≢ j → destroy j r.0 r.1 r.2 ≡ stop fatal
    pub gone :
        Returns (λ q. ((j : ℕ) → q.0 j ≡ t_loop j) × Alike k e q.1) (destroy caller r.0 r.1 r.2)

  construct-second :
      (caller address a c : ℕ) (fd : Option ℕ) (t_loop : Registry) (e : Epoll k)
      → t_loop caller ≡ some address
      → construct caller a c fd t_loop e ≡ stop fatal
  unfolding construct
  construct-second caller address a c none t_loop e h = refl
  construct-second caller address a c (some fd) t_loop e h = rw h refl

  put_same : (t_loop : Registry) (j : ℕ) (v : Option ℕ) → put t_loop j v j ≡ v
  put_same t_loop j v = let e : (j == j) ≡ true = ground arith in rw e refl

  put_other : (t_loop : Registry) (i j : ℕ) (v : Option ℕ) → i ≢ j → put t_loop i v j ≡ t_loop j
  put_other t_loop i j v n = let e : (i == j) ≡ false = ground (arith, n) in rw e refl

  restored :
      (t_loop : Registry) (i : ℕ) (v : Option ℕ)
      → t_loop i ≡ none
      → (j : ℕ) → put (put t_loop i v) i none j ≡ t_loop j
  restored t_loop i v h j = elim (Bool-cases (i == j)) [
    | inl e ↦ let same : i ≡ j = ground (arith, e) in rw e (sym h ∙ ap t_loop same)
    | inr e ↦ rw e refl
  ]

  -- EventLoop::EventLoop from eventfd(2) on, in a thread that has no loop, with a descriptor that is in
  -- neither table of the epoll: it returns, and the loop of the thread is the new one, while the other
  -- threads have theirs. From there a second loop in this thread stops the process, and so does the
  -- destructor in another thread; the body of the destructor in this one returns, and leaves the epoll
  -- as it was before and each thread with the loop that it had.
  pub construct-Registered :
      (caller address channel fd : ℕ) (t_loop : Registry) (e : Epoll k)
      → t_loop caller ≡ none
      → k.registered e.kernel fd ≡ none
      → e.channels fd ≡ none
      → Returns
          (Registered caller address t_loop e)
          (construct caller address channel (some fd) t_loop e)
  unfolding construct get_event_loop_of_current_thread Channel.new EventLoop.new
  construct-Registered caller address channel fd t_loop e h n m =
      let (r, updated, (q, retired, alike)) =
        retire-update_channel k channel k_read_event
          (record (Channel.new fd) { read_handler = true }) e n m in
      let l : Loop = record {
        address = address;
        tid = caller;
        state = EventLoop.new;
        wakeup_channel = channel;
        channel = record (Channel.new fd) { read_handler = true };
      } in
      rw (h, update_channel-own caller l refl, updated)
        (
          _,
          refl,
          record {
            current = put_same t_loop caller (some address);
            others = λ j x. put_other t_loop caller j (some address) x;
            second = λ a c f e'.
                construct-second caller address a c f (put t_loop caller (some address)) e'
                  (put_same t_loop caller (some address));
            elsewhere = λ j x.
                destroy-elsewhere j (record l { channel = r.0 }) (put t_loop caller (some address))
                  r.1 x;
            gone = (
              _,
              destroy-retire caller (record l { channel = r.0 }) refl
                  (put t_loop caller (some address)) r.1 q refl retired,
              (restored t_loop caller (some address) h, alike),
            );
          },
        )
