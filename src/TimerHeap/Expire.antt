-- ===== src/TimerHeap/Expire.antt =====
-- pop, and handleTimeoutEvents: the timers that have expired are taken, the earliest first.
use mathlib.Core.List.Perm
use wserver.Prelude.{
  ℕ, zero, suc, ◌-◌, ◌≤◌, ◌<◌, ◌≡◌, ◌≢◌, refl, ap, true, none, List, [], ◌∷◌, ◌++◌, Perm, length,
  length-take, get_or, set, take, done, Returns, Returns-map, ltb, lt→ltb, arith,
}
use wserver.Prelude.Arrays.{get_or-take}
use wserver.TimerHeap.{Slot, swap, percolate_down, pop}
use wserver.TimerHeap.Order.{NonNull, NonNull-get_or, time, key, parent, IsHeap, swap_lem, Sifted}
use wserver.TimerHeap.Up.{perm-append_one}
use wserver.TimerHeap.Down.{SinksFrom, percolate_down_restores}

take-set : (h : List Slot) (n : ℕ) (s : Slot) → take n (set h n s) ≡ take n h
take-set h zero s = refl
take-set [] (suc n) s = refl
take-set (x ∷ h) (suc n) s = ap (◌∷◌ x) (take-set h n s)

take-last : (h : List Slot) (n : ℕ) → length h ≡ suc n → take n h ++ get_or h n none ∷ [] ≡ h
take-last [] n e = absurd (omega arith)
take-last (x ∷ []) zero e = refl
take-last (x ∷ y ∷ h) zero e = absurd (omega arith)
take-last (x ∷ h) (suc n) e = ap (◌∷◌ x) (take-last h n (omega arith))

NonNull-take : (n : ℕ) (h : List Slot) → NonNull h → NonNull (take n h)
NonNull-take zero h v = tt
NonNull-take (suc n) [] v = tt
NonNull-take (suc n) (s ∷ h) v = (v.0, NonNull-take n h v.1)

-- What pop hands to percolateDown: the last slot in the place of the first.
module _ (s : Slot) (tl : List Slot) (n : ℕ) (size : length tl ≡ suc n) where
  abbrev cut : List Slot
  cut = get_or tl n none ∷ take n tl

  cut-perm : Perm (s ∷ cut) (s ∷ tl)
  cut-perm =
      let moved = perm-append_one (take n tl) (get_or tl n none) in
      let whole = take-last tl n size in Perm.cons s (Perm.symm (rw whole at moved))

  length-cut : length cut ≡ suc n
  length-cut = omega (arith, length-take n tl)

  key-cut : (c : ℕ) → c < n → key cut (suc c) ≡ key (s ∷ tl) (suc c)
  key-cut c h = ap time (get_or-take none tl n c h)

  cut-SinksFrom : IsHeap (s ∷ tl) → SinksFrom cut 0
  cut-SinksFrom v = record {
    edges = λ c a b d. edge c (parent c) refl a b d;
    below = λ c a b e z. absurd (omega arith);
  }
    where
      edge : (c p : ℕ) → parent c ≡ p → 0 < c → c < length cut → p ≢ 0 → key cut p ≤ key cut c
      edge zero p e a b d = absurd (omega arith)
      edge (suc c) zero e a b d = absurd (d refl)
      edge (suc c) (suc p) e a b d =
          let ordered = v (suc c) a (omega (arith, length-cut)) in
          let ordered' : key (s ∷ tl) (suc p) ≤ key (s ∷ tl) (suc c) = rw e at ordered in
          omega
            (arith, key-cut c (omega (arith, length-cut)), key-cut p (omega (arith, length-cut)))

  pop-cut : pop (s ∷ tl) ≡ percolate_down (suc (suc n)) cut 0
  unfolding pop
  pop-cut =
      let last : suc (length tl) - 1 ≡ suc n = omega arith in
      let some_left : ltb 0 (suc (suc n)) ≡ true = lt→ltb 0 (suc (suc n)) (omega arith) in
      rw
        (
          last,
          swap_lem (none ∷ tl) 0 (suc n) (omega arith) (omega arith),
          take-set tl n none,
          size,
          some_left,
        )
        refl

pop_one : (s : Slot) → pop (s ∷ []) ≡ done []
unfolding pop swap percolate_down
pop_one s = refl

-- What pop leaves.
pub record Popped (h h' : List Slot) : Type 0 where
  pub heap : IsHeap h'
  pub nonnull : NonNull h'
  pub perm : Perm (get_or h 0 none ∷ h') h

-- pop on a heap with no null slot that is not empty: the call returns, exactly the root is gone, and
-- the heap order holds.
pub pop_correct : (h : List Slot) → IsHeap h → NonNull h → 0 < length h → Returns (Popped h) (pop h)
pop_correct [] v w p = elim p [ ]
pop_correct (s ∷ []) v w p =
    (_, pop_one s, record { heap = λ c a b. absurd (omega arith); nonnull = tt; perm = Perm.rfl })
pop_correct (s ∷ x ∷ rest) v w p =
    let tl = x ∷ rest in
    let n = length rest in
    rw (pop-cut s tl n refl) (
      Returns-map (Sifted (cut s tl n refl)) (Popped (s ∷ tl)) _
        (percolate_down_restores (suc (suc n)) (cut s tl n refl) 0
          (omega (arith, length-cut s tl n refl)) (omega arith)
          (NonNull-get_or tl n w.1 (omega arith), NonNull-take n tl w.1)
          (cut-SinksFrom s tl n refl v))
        λ h' r. record {
          heap = r.heap;
          nonnull = r.nonnull;
          perm = Perm.trans (Perm.cons s r.perm) (cut-perm s tl n refl);
        })
