-- ===== src/EventLoopThread/Handover.antt =====
-- startLoop returns the loop of the new thread: no wakeup is lost, and none is needed.
use wserver.Prelude.{
  ℕ, ◌≡◌, ◌<◌, ◌⊎◌, inl, inr, refl, sym, ap, subst, ◌∙◌, true, Option, some, done, Returns,
  Returns-map,
}
use wserver.CountDownLatch
use wserver.CountDownLatch.{CountDownLatch, wait, count_down}
use wserver.EventLoopThread.{
  returned, Threads, new, start_loop, can_run, wake_latch, wake_cond, Next, main_steps, child_steps,
  Reach, begin, later, latch_wakes, cond_wakes,
}
use wserver.EventLoopThread.Shapes.{
  left, Shape, fresh, no_tid, with_tid, counted, checked, waits, looped_latch, looped_checked,
  looped_waits, leaves, returns, shape, Moved, main_moves, child_moves, latch_woken, cond_woken,
}

done_inj : {A : Type 0} {x y : A} → done x ≡ done y → x ≡ y
done_inj e = cc

module _ (tid address : ℕ) where
  main-Next :
      (c : Shape)
      → 0 < tid
      → can_run (shape tid address c).main (shape tid address c) ≡ true
      → (s' : Threads) × Next tid address (shape tid address c) s'
  main-Next c h r = let (s', e, m) = main_moves tid address c h r in (s', main_steps r e)

  stepped :
      (c : Shape) (s' : Threads)
      → 0 < tid
      → Next tid address (shape tid address c) s'
      → Moved tid address (shape tid address c) s'
  stepped c s' h (main_steps r e) =
      let (x, d, m) = main_moves tid address c h r in
      subst (Moved tid address (shape tid address c)) (done_inj (sym d ∙ e)) m
  stepped c s' h (child_steps r e) =
      subst (Moved tid address (shape tid address c)) e (child_moves tid address c r)

  Reach-shape :
      (s : Threads) → 0 < tid → Reach tid address s → (c : Shape) × (s ≡ shape tid address c)
  unfolding new CountDownLatch.new
  Reach-shape s h begin = (fresh, refl)
  Reach-shape s h (later {s = s0} r n) =
      let (c, e) = Reach-shape s0 h r in
      let (d, same, less) = stepped c s h (subst (λ x. Next tid address x s) e n) in (d, same)
  Reach-shape s h (latch_wakes {s = s0} r) =
      let (c, e) = Reach-shape s0 h r in
      let (d, f) = latch_woken tid address c in (d, ap wake_latch e ∙ f)
  Reach-shape s h (cond_wakes {s = s0} r) =
      let (c, e) = Reach-shape s0 h r in
      let (d, f) = cond_woken tid address c in (d, ap wake_cond e ∙ f)

  -- Before startLoop has returned, one of the threads can step.
  shape_steps :
      (c : Shape)
      → 0 < tid
      → ((shape tid address c).main ≡ returned (some address))
        ⊎ ((s' : Threads) × Next tid address (shape tid address c) s')
  shape_steps returns h = inl refl
  shape_steps fresh h = inr (main-Next fresh h refl)
  shape_steps (no_tid a) h = inr (_, child_steps refl refl)
  shape_steps (with_tid a) h = inr (_, child_steps refl refl)
  shape_steps counted h = inr (main-Next counted h refl)
  shape_steps checked h = inr (main-Next checked h refl)
  shape_steps (waits a) h = inr (_, child_steps refl refl)
  shape_steps looped_latch h = inr (main-Next looped_latch h refl)
  shape_steps looped_checked h = inr (main-Next looped_checked h refl)
  shape_steps looped_waits h = inr (main-Next looped_waits h refl)
  shape_steps leaves h = inr (main-Next leaves h refl)

  shape_result :
      (c : Shape) (l : Option ℕ) → (shape tid address c).main ≡ returned l → l ≡ some address
  shape_result fresh l e = cc e
  shape_result (no_tid a) l e = cc e
  shape_result (with_tid a) l e = cc e
  shape_result counted l e = cc e
  shape_result checked l e = cc e
  shape_result (waits a) l e = cc e
  shape_result looped_latch l e = cc e
  shape_result looped_checked l e = cc e
  shape_result looped_waits l e = cc e
  shape_result leaves l e = cc e
  shape_result returns l e = cc e

  -- What holds in a reachable state.
  pub record Handover (s : Threads) : Type 0 where
    pub result : (l : Option ℕ) → s.main ≡ returned l → l ≡ some address
    pub steps : (s.main ≡ returned (some address)) ⊎ ((s' : Threads) × Next tid address s s')
    pub runs : can_run s.main s ≡ true → Returns (λ s'. left s' < left s) (start_loop s.main s)
    pub falls : (s' : Threads) → Next tid address s s' → left s' < left s

  shape-Handover : (c : Shape) → 0 < tid → Handover (shape tid address c)
  shape-Handover c h = record {
    result = shape_result c;
    steps = shape_steps c h;
    runs = λ r.
        Returns-map (Moved tid address (shape tid address c)) _
          (start_loop (shape tid address c).main (shape tid address c))
          (main_moves tid address c h r) λ s' m. (let (d, same, less) = m in less);
    falls = λ s' n. (let (d, same, less) = stepped c s' h n in less);
  }

  -- A state that the two threads can reach in any order of their steps, with waits that may also end by
  -- themselves, where the id of the new thread is not 0: what startLoop has returned is the loop of the
  -- new thread; before that, one of the threads can take a step, and a step of startLoop does not stop
  -- at a LOG_FATAL line; and `left` falls at each step, so that they are not many: no wakeup is lost.
  pub Reach-Handover : (s : Threads) → 0 < tid → Reach tid address s → Handover s
  Reach-Handover s h r =
      let (c, e) = Reach-shape s h r in subst Handover (sym e) (shape-Handover c h)
