-- ===== src/TimerHeap/Order.antt =====
-- The heap order, on vectors with no null slot.

use wserver.Prelude.{
  ℕ, zero, suc, ◌-◌, ◌/◌, ◌≤◌, ◌<◌, ◌≡◌, refl, none, some, List, [], ◌∷◌, Perm, length, get_or, set,
  done, ltb, lt→ltb, arith,
}
use wserver.Prelude.Arrays.{exchange}
use wserver.TimerHeap.{Timer, Slot, deref, less, swap}

abbrev pub IsOwned : Slot → Type 0
IsOwned none = ⊥
IsOwned (some t) = Unit {0}

-- No slot is null.
abbrev pub NonNull : List Slot → Type 0
NonNull [] = Unit {0}
NonNull (s ∷ h) = IsOwned s × NonNull h

abbrev pub time : Slot → ℕ
time none = 0
time (some t) = t.expire_time

abbrev pub key : List Slot → ℕ → ℕ
key h i = time (get_or h i none)

abbrev pub parent : ℕ → ℕ
parent c = (c - 1) / 2

-- No timer expires before its parent.
abbrev pub IsHeap : List Slot → Type 0
IsHeap h = (c : ℕ) → 0 < c → c < length h → key h (parent c) ≤ key h c

pub deref_lem :
    (h : List Slot) (i : ℕ)
    → NonNull h
    → i < length h
    → (t : Timer) × (deref h i ≡ done t) × (get_or h i none ≡ some t)
unfolding deref
deref_lem [] i v p = elim p [ ]
deref_lem (none ∷ h) zero v p = absurd v.0
deref_lem (some t ∷ h) zero v p = (t, refl, refl)
deref_lem (s ∷ h) (suc i) v p = deref_lem h i v.1 (omega arith)

pub less_lem :
    (h : List Slot) (i j : ℕ)
    → NonNull h
    → i < length h
    → j < length h
    → less h i j ≡ done (ltb (key h i) (key h j))
unfolding less
less_lem h i j v p q =
    let (s, a, b) = deref_lem h i v p in let (t, c, d) = deref_lem h j v q in rw (a, c, b, d) refl

pub swap_lem :
    (h : List Slot) (i j : ℕ)
    → i < length h
    → j < length h
    → swap h i j ≡ done (exchange none h i j)
unfolding swap
swap_lem h i j p q = rw (lt→ltb i (length h) p, lt→ltb j (length h) q) refl

pub NonNull-get_or : (h : List Slot) (i : ℕ) → NonNull h → i < length h → IsOwned (get_or h i none)
NonNull-get_or [] i v p = elim p [ ]
NonNull-get_or (s ∷ h) zero v p = v.0
NonNull-get_or (s ∷ h) (suc i) v p = NonNull-get_or h i v.1 (omega arith)

pub NonNull-set : (h : List Slot) (i : ℕ) (s : Slot) → NonNull h → IsOwned s → NonNull (set h i s)
NonNull-set [] i s v w = tt
NonNull-set (x ∷ h) zero s v w = (w, v.1)
NonNull-set (x ∷ h) (suc i) s v w = (v.0, NonNull-set h i s v.1 w)

pub NonNull-exchange :
    (h : List Slot) (i j : ℕ)
    → NonNull h
    → i < length h
    → j < length h
    → NonNull (exchange none h i j)
NonNull-exchange h i j v p q =
    NonNull-set (set h i (get_or h j none)) j (get_or h i none)
      (NonNull-set h i (get_or h j none) v (NonNull-get_or h j v q)) (NonNull-get_or h i v p)

-- A heap of the same timers.
pub record Sifted (h h' : List Slot) : Type 0 where
  pub heap : IsHeap h'
  pub nonnull : NonNull h'
  pub perm : Perm h' h

root_least_below :
    (k : ℕ) (h : List Slot) (i : ℕ) → IsHeap h → i < k → i < length h → key h 0 ≤ key h i
root_least_below zero h i v p q = absurd (omega arith)
root_least_below (suc k) h zero v p q = omega arith
root_least_below (suc k) h (suc i) v p q = omega (
  arith,
  v (suc i) (omega arith) q,
  root_least_below k h (parent (suc i)) v (omega arith) (omega arith),
)

-- No timer expires before the root.
pub root_least : (h : List Slot) (i : ℕ) → IsHeap h → i < length h → key h 0 ≤ key h i
root_least h i v p = root_least_below (suc i) h i v (omega arith) p
