-- ===== src/TimerHeap/Up.antt =====
-- percolateUp restores the heap, and addTimerInLoop keeps it.
use mathlib.Core.List.Perm
use wserver.Prelude.{
  ℕ, zero, suc, ◌+◌, ◌-◌, ◌≤◌, ◌<◌, ◌≡◌, ◌≢◌, refl, ap, inl, inr, false, Option, none, some, List,
  [], ◌∷◌, ◌++◌, Perm, length, length-append, Returns, Returns-map, Returns-bind, Bool-cases, ltb,
  ◌==◌, arith,
}
use wserver.Prelude.Arrays.{
  exchange, get_or-exchange, length-exchange, perm-exchange, get_or-append,
}
use wserver.TimerHeap.{Timer, Slot, TimerHeap, percolate_up, set_timer, add_timer_in_loop}
use wserver.TimerHeap.Order.{
  NonNull, time, key, parent, IsHeap, less_lem, swap_lem, NonNull-exchange, Sifted,
}

-- Only the edge above `i` may be out of order.
record RisesFrom (h : List Slot) (i : ℕ) : Type 0 where
  inside : i < length h
  edges : (c : ℕ) → 0 < c → c < length h → c ≢ i → key h (parent c) ≤ key h c
  above : (c : ℕ) → 0 < c → c < length h → parent c ≡ i → 0 < i → key h (parent i) ≤ key h c

risen :
    (h : List Slot) (i : ℕ)
    → RisesFrom h i
    → 0 < i
    → key h i < key h (parent i)
    → RisesFrom (exchange none h i (parent i)) (parent i)
risen h i v p q =
    let size = length-exchange none h i (parent i) in
    let at = λ (c : ℕ). get_or-exchange none h i (parent i) c v.inside (omega (arith, v.inside)) in
    record {
      inside = omega (arith, v.inside);
      edges = λ c a b n. ground (
        arith,
        ap time (at c),
        ap time (at (parent c)),
        size,
        v.edges c,
        v.edges (parent i),
        v.above c,
      );
      above = λ c a b e z. ground (
        arith,
        ap time (at c),
        ap time (at (parent (parent i))),
        size,
        v.edges c,
        v.edges (parent i),
      );
    }

percolate_up_restores :
    (k : ℕ) (h : List Slot) (i : ℕ)
    → i < k
    → NonNull h
    → RisesFrom h i
    → Returns (Sifted h) (percolate_up k h i)
unfolding percolate_up
percolate_up_restores zero h i f v r = absurd (omega arith)
percolate_up_restores (suc k) h zero f v r =
    (h, refl, record { heap = λ c a b. r.edges c a b (omega arith); nonnull = v; perm = Perm.rfl })
percolate_up_restores (suc k) h (suc i) f v r =
    let i' = suc i in
    let up = parent i' in
    let hi = r.inside in
    let hu : up < length h = omega arith in
    let inner : (i' == 0) ≡ false = ground arith in
    rw (inner, less_lem h i' up v hi hu)
      (elim (Bool-cases (ltb (key h i') (key h up))) [
        | inl lower ↦
            rw (lower, swap_lem h i' up hi hu)
              (Returns-map (Sifted (exchange none h i' up)) (Sifted h) _
                (percolate_up_restores k (exchange none h i' up) up (omega arith)
                  (NonNull-exchange h i' up v hi hu) (risen h i' r (omega arith) (ground arith)))
                λ h' s. record {
                  heap = s.heap;
                  nonnull = s.nonnull;
                  perm = Perm.trans s.perm (perm-exchange none h i' up hi hu);
                })
        | inr settled ↦ rw settled (
          h,
          refl,
          record { heap = λ c a b. ground (arith, r.edges c a b); nonnull = v; perm = Perm.rfl },
        )
      ])

NonNull-append : (h h' : List Slot) → NonNull h → NonNull h' → NonNull (h ++ h')
NonNull-append [] h' v w = w
NonNull-append (s ∷ h) h' v w = (v.0, NonNull-append h h' v.1 w)

pub perm-append_one : (h : List Slot) (s : Slot) → Perm (h ++ s ∷ []) (s ∷ h)
perm-append_one [] s = Perm.refl (s ∷ [])
perm-append_one (x ∷ h) s = Perm.trans (Perm.cons x (perm-append_one h s)) (Perm.swap s x h)

-- The timers of a state, in heap order.
pub record IsValid (t : TimerHeap) : Type 0 where
  pub heap : IsHeap t.min_heap
  pub nonnull : NonNull t.min_heap

-- What addTimerInLoop leaves.
pub record Added (t : TimerHeap) (timer : Timer) (due : Option ℕ) (t' : TimerHeap) : Type 0 where
  pub valid : IsValid t'
  pub perm : Perm t'.min_heap (some timer ∷ t.min_heap)
  pub armed : t'.armed ≡ due

grown_RisesFrom : (h : List Slot) (s : Slot) → IsHeap h → RisesFrom (h ++ s ∷ []) (length h)
grown_RisesFrom h s v =
    let size = length-append h (s ∷ []) in
    record {
      inside = omega (arith, size);
      edges = λ c a b n. ground (
        arith,
        size,
        v c,
        ap time (get_or-append none h (s ∷ []) c (omega (arith, size))),
        ap time (get_or-append none h (s ∷ []) (parent c) (omega (arith, size))),
      );
      above = λ c a b e z. absurd (omega (arith, size));
    }

-- addTimerInLoop on a heap with no null slot: the call returns, exactly the new timer is added, with
-- the time `now + delay`, the heap order holds again, and the timerfd is set for the new delay.
pub add_timer_in_loop_correct :
    (t : TimerHeap) (now cb delay : ℕ)
    → IsValid t
    → Returns
        (Added t (record { expire_time = now + delay; cb = cb }) (set_timer now delay))
        (add_timer_in_loop t now cb delay)
unfolding add_timer_in_loop
add_timer_in_loop_correct t now cb delay v =
    let timer : Timer = record { expire_time = now + delay; cb = cb } in
    let h = t.min_heap in
    let grown = h ++ some timer ∷ [] in
    let size = length-append h (some timer ∷ []) in
    let last : length grown - 1 ≡ length h = omega arith in
    rw last (
      Returns-bind (Sifted grown) (Added t timer (set_timer now delay)) _ _
        (percolate_up_restores (length grown) grown (length h) (omega arith)
          (NonNull-append h (some timer ∷ []) v.nonnull (tt, tt))
          (grown_RisesFrom h (some timer) v.heap))
        λ h' s. (
          _,
          refl,
          record {
            valid = record { heap = s.heap; nonnull = s.nonnull };
            perm = Perm.trans s.perm (perm-append_one h (some timer));
            armed = refl;
          },
        ))
