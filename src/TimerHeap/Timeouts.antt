-- ===== src/TimerHeap/Timeouts.antt =====
-- handleTimeoutEvents: exactly the timers that have expired are handled, the earliest first.
use mathlib.Core.HLevel.{×_prop, Unit-prop}
use mathlib.Core.List.{Permᴰ, map}
use mathlib.Core.List.Perm
use mathlib.Core.Logic.{∥∥₁_elim}
use native.Mathlib.Bridge.{le_prop}
use wserver.Prelude.{
  ℕ, zero, suc, ◌+◌, ◌≤◌, ◌<◌, ◌≡◌, refl, sym, ap, subst, ◌∙◌, inl, inr, false, some, List, [], ◌∷◌,
  ◌++◌, Perm, append-nil, append_assoc, length, done, Returns, Returns-map, Returns-bind,
  Bool-cases, ltb, ltb→lt, ltb_false→le, ◌==◌, arith,
}
use wserver.Prelude.Arrays.{length-perm}
use wserver.TimerHeap.{Timer, Slot, TimerHeap, pop, timeout_loop, handle_timeout_events}
use wserver.TimerHeap.Order.{NonNull, time, key, IsHeap, deref_lem, root_least}
use wserver.TimerHeap.Up.{IsValid}
use wserver.TimerHeap.Expire.{Popped, pop_correct}

-- No slot is due before `lo`.
abbrev pub AtLeast : ℕ → List Slot → Type 0
AtLeast lo [] = Unit {0}
AtLeast lo (s ∷ h) = (lo ≤ time s) × AtLeast lo h

AtLeast-prop : (lo : ℕ) (h : List Slot) → IsProp (AtLeast lo h)
AtLeast-prop lo [] = Unit-prop
AtLeast-prop lo (s ∷ h) = ×_prop le_prop (AtLeast-prop lo h)

AtLeast-permᴰ : (lo : ℕ) {h h' : List Slot} → Permᴰ h h' → AtLeast lo h → AtLeast lo h'
AtLeast-permᴰ lo Permᴰ.nil a = a
AtLeast-permᴰ lo (Permᴰ.cons e p) a = (rw (← e) a.0, AtLeast-permᴰ lo p a.1)
AtLeast-permᴰ lo (Permᴰ.swap e f) a = (rw (← f) a.1.0, (rw (← e) a.0, a.1.1))
AtLeast-permᴰ lo (Permᴰ.trans p q) a = AtLeast-permᴰ lo q (AtLeast-permᴰ lo p a)

AtLeast-perm : (lo : ℕ) (h h' : List Slot) → Perm h h' → AtLeast lo h → AtLeast lo h'
AtLeast-perm lo h h' p a = ∥∥₁_elim p (AtLeast-prop lo h') (λ q. AtLeast-permᴰ lo q a)

AtLeast-keys : (lo : ℕ) (h : List Slot) → ((i : ℕ) → i < length h → lo ≤ key h i) → AtLeast lo h
AtLeast-keys lo [] f = tt
AtLeast-keys lo (s ∷ h) f = (f 0 (omega arith), AtLeast-keys lo h λ i p. f (suc i) (omega arith))

AtLeast-mono : (lo lo' : ℕ) (h : List Slot) → lo' ≤ lo → AtLeast lo h → AtLeast lo' h
AtLeast-mono lo lo' [] p a = tt
AtLeast-mono lo lo' (s ∷ h) p a = (omega arith, AtLeast-mono lo lo' h p a.1)

root_AtLeast : (h : List Slot) → IsHeap h → AtLeast (key h 0) h
root_AtLeast h v = AtLeast-keys (key h 0) h λ i p. root_least h i v p

-- The times rise along the list, from `lo` up to `now` at most.
abbrev pub Rising : ℕ → ℕ → List Timer → Type 0
Rising lo now [] = Unit {0}
Rising lo now (t ∷ ts) = (lo ≤ t.expire_time) × (t.expire_time ≤ now) × Rising t.expire_time now ts

-- What the loop leaves, `new` being the timers that it handled.
pub record Expired (lo now : ℕ) (h : List Slot) (new : List Timer) (h' : List Slot) : Type 0 where
  pub heap : IsHeap h'
  pub nonnull : NonNull h'
  pub perm : Perm (map some new ++ h') h
  pub rising : Rising lo now new
  pub later : AtLeast (suc now) h'

abbrev Ends : ℕ → ℕ → List Slot → List Timer → List Slot × List Timer → Type 0
Ends lo now h fired r = (new : List Timer) × (r.1 ≡ fired ++ new) × Expired lo now h new r.0

stops_early :
    (lo now : ℕ) (h : List Slot) (fired : List Timer)
    → IsHeap h
    → NonNull h
    → AtLeast (suc now) h
    → Returns (Ends lo now h fired) (done (h, fired))
stops_early lo now h fired v w a = (
  _,
  refl,
  (
    [],
    sym (append-nil fired),
    record { heap = v; nonnull = w; perm = Perm.rfl; rising = tt; later = a },
  ),
)

timeout_loop_correct :
    (k lo now : ℕ) (h : List Slot) (fired : List Timer)
    → length h < k
    → IsHeap h
    → NonNull h
    → AtLeast lo h
    → Returns (Ends lo now h fired) (timeout_loop k now h fired)
unfolding timeout_loop
timeout_loop_correct zero lo now h fired f v w a = absurd (omega arith)
timeout_loop_correct (suc k) lo now [] fired f v w a = stops_early lo now [] fired v w tt
timeout_loop_correct (suc k) lo now (s ∷ tl) fired f v w a =
    let h = s ∷ tl in
    let (t, at, root) = deref_lem h 0 w (omega arith) in
    let same : time s ≡ t.expire_time = ap time root in
    let inner : (suc (length tl) == 0) ≡ false = ground arith in
    rw (inner, at)
      (elim (Bool-cases (ltb now t.expire_time)) [
        | inl not_yet ↦
            let lower : suc now ≤ key h 0 = omega (arith, ltb→lt now t.expire_time not_yet) in
            rw not_yet (
              stops_early lo now h fired v w
                (AtLeast-mono (key h 0) (suc now) h lower (root_AtLeast h v)))
        | inr due ↦ rw due (
            Returns-bind (Popped h) (Ends lo now h fired) (pop h) _
              (pop_correct h v w (omega arith))
              λ h' p.
                let least =
                  AtLeast-perm (key h 0) h (s ∷ h') (Perm.symm p.perm) (root_AtLeast h v) in
                let least' : AtLeast t.expire_time h' =
                  AtLeast-mono (key h 0) t.expire_time h' (omega arith) least.1 in
                Returns-map (Ends t.expire_time now h' (fired ++ t ∷ [])) (Ends lo now h fired) _
                  (timeout_loop_correct k t.expire_time now h' (fired ++ t ∷ [])
                    (omega (arith, length-perm p.perm)) p.heap p.nonnull least')
                  λ r (new, e, x). (
                    t ∷ new,
                    e ∙ append_assoc fired (t ∷ []) new,
                    record {
                      heap = x.heap;
                      nonnull = x.nonnull;
                      perm =
                          Perm.trans (Perm.cons (some t) x.perm)
                            (subst (λ u. Perm (u ∷ h') h) root p.perm);
                      rising = (omega (arith, a.0), ltb_false→le now t.expire_time due, x.rising);
                      later = x.later;
                    },
                  ))
      ])

pub record HandledTimeouts (now : ℕ) (t : TimerHeap) (r : TimerHeap × List Timer) : Type 0 where
  pub expired : Expired 0 now t.min_heap r.1 r.0.min_heap
  pub armed : r.0.armed ≡ t.armed

-- handleTimeoutEvents on a heap with no null slot: the loop ends, and the callbacks that ran are
-- those of the timers due at `now` or before, each once and in the order of their times; the timers
-- that are left are due later, and they form a heap again. The timerfd is not set.
pub handle_timeout_events_correct :
    (t : TimerHeap) (now : ℕ)
    → IsValid t
    → Returns (HandledTimeouts now t) (handle_timeout_events t now)
unfolding handle_timeout_events
handle_timeout_events_correct t now v =
    Returns-bind (Ends 0 now t.min_heap []) (HandledTimeouts now t) _ _
      (timeout_loop_correct (length t.min_heap + 1) 0 now t.min_heap [] (omega arith) v.heap
        v.nonnull (AtLeast-keys 0 t.min_heap λ i p. omega arith))
      λ r (new, e, x). (_, refl, record { expired = rw e x; armed = refl })
