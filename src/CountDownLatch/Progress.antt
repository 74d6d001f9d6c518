-- ===== src/CountDownLatch/Progress.antt =====
-- A call of wait can always return once the count is 0, wherever the other threads stand.
use wserver.Prelude.{
  ℕ, ◌≡◌, ◌≢◌, ◌⊎◌, refl, ap, subst, ◌∙◌, inl, inr, Bool, true, false, none, Option-cases, ◌==◌,
  arith,
}
use wserver.Mutex.{end_guard, unlock}
use wserver.CountDownLatch.{wait, count_down}
use wserver.CountDownLatch.Monitor.{
  Pc, outside, to_wait, at_wait, asleep, awake, leaving, through, to_down, at_down, counted, back,
  Monitor, update, latch, tested, counts, takes, leaves, Step, lock_wait, test, relock, end_wait,
  down, end_down, Steps, stay, more, Reach,
}
use wserver.CountDownLatch.Safety.{is_inside, Safe, Reach-Safe}

first : {i : ℕ} {s t u : Monitor} → Step i s t → Steps t u → Steps s u
first p stay = more _ stay p
first p (more i r q) = more i (first p r) q

update_same : (f : ℕ → Pc) (i : ℕ) (p : Pc) → update f i p i ≡ p
update_same f i p = let e : (i == i) ≡ true = ground arith in rw e refl

update_other : (f : ℕ → Pc) (i j : ℕ) (p : Pc) → i ≢ j → update f i p j ≡ f j
update_other f i j p n = let e : (i == j) ≡ false = ground (arith, n) in rw e refl

-- The threads can go on so that the call of the thread `i` returns.
abbrev pub CanReturn : ℕ → Monitor → Type 0
CanReturn i s = (t : Monitor) × Steps s t × (t.pc i ≡ through)

by : {i j : ℕ} {s t : Monitor} → Step j s t → CanReturn i t → CanReturn i s
by p (u, r, e) = (u, first p r, e)

-- The thread is in a call of wait.
abbrev pub waits : Pc → Bool
waits to_wait = true
waits at_wait = true
waits asleep = true
waits awake = true
waits leaving = true
waits _ = false

from_leaving : (i : ℕ) (s : Monitor) → s.pc i ≡ leaving → CanReturn i s
from_leaving i s e = by (end_wait e) (_, stay, update_same s.pc i through)

-- With a count of 0 the loop of wait ends, and countDown wakes nobody.
test_zero :
    (i : ℕ) (s : Monitor)
    → s.pc i ≡ at_wait
    → s.count ≡ 0
    → Step i s (record s { pc = update s.pc i leaving })
unfolding wait
test_zero i s e z =
    let ends : (wait (latch s)).0 ≡ true = rw z refl in
    subst (λ b. Step i s (tested i b s)) ends (test e)

counts_zero :
    (i : ℕ) (s : Monitor) → s.count ≡ 0 → counts i s ≡ record s { pc = update s.pc i counted }
unfolding count_down
counts_zero i s z = let e : (s.count == 0) ≡ true = ground (arith, z) in rw e refl

from_at_wait : (i : ℕ) (s : Monitor) → s.pc i ≡ at_wait → s.count ≡ 0 → CanReturn i s
from_at_wait i s e z = by (test_zero i s e z) (from_leaving i _ (update_same s.pc i leaving))

-- The thread waits for the mutex, to test the count.
abbrev Queues : ℕ → Monitor → Type 0
Queues i s = (s.pc i ≡ to_wait) ⊎ (s.pc i ≡ awake)

from_free : (i : ℕ) (s : Monitor) → Queues i s → s.mutex.holder ≡ none → s.count ≡ 0 → CanReturn i s
from_free i s (inl e) h z =
    by (lock_wait e h) (from_at_wait i (takes i at_wait s) (update_same s.pc i at_wait) z)
from_free i s (inr e) h z =
    by (relock e h) (from_at_wait i (takes i at_wait s) (update_same s.pc i at_wait) z)

-- Another thread moves.
still-Queues :
    (i j : ℕ) (s : Monitor) (p : Pc)
    → j ≢ i
    → Queues i s
    → (update s.pc j p i ≡ to_wait) ⊎ (update s.pc j p i ≡ awake)
still-Queues i j s p n (inl e) = inl (update_other s.pc j i p n ∙ e)
still-Queues i j s p n (inr e) = inr (update_other s.pc j i p n ∙ e)

-- The thread `j`, which only has to end its guard, gives up the mutex.
past_leaving :
    (i j : ℕ) (s : Monitor) → j ≢ i → Queues i s → s.count ≡ 0 → s.pc j ≡ leaving → CanReturn i s
unfolding end_guard unlock
past_leaving i j s n q z e =
    by (end_wait e) (from_free i (leaves j through s) (still-Queues i j s through n q) refl z)

past_counted :
    (i j : ℕ) (s : Monitor) → j ≢ i → Queues i s → s.count ≡ 0 → s.pc j ≡ counted → CanReturn i s
unfolding end_guard unlock
past_counted i j s n q z e =
    by (end_down e) (from_free i (leaves j back s) (still-Queues i j s back n q) refl z)

-- The thread `j`, which holds the mutex, gives it up.
past :
    (i j : ℕ) (s : Monitor) (p : Pc)
    → j ≢ i
    → Queues i s
    → s.count ≡ 0
    → s.pc j ≡ p
    → is_inside p ≡ true
    → CanReturn i s
past i j s leaving n q z e h = past_leaving i j s n q z e
past i j s counted n q z e h = past_counted i j s n q z e
past i j s at_wait n q z e h = by (test_zero j s e z) (
    past_leaving i j (record s { pc = update s.pc j leaving }) n (still-Queues i j s leaving n q) z
      (update_same s.pc j leaving))
past i j s at_down n q z e h = by (subst (Step j s) (counts_zero j s z) (down e)) (
    past_counted i j (record s { pc = update s.pc j counted }) n (still-Queues i j s counted n q) z
      (update_same s.pc j counted))
past i j s outside n q z e h = absurd (cc)
past i j s to_wait n q z e h = absurd (cc)
past i j s asleep n q z e h = absurd (cc)
past i j s awake n q z e h = absurd (cc)
past i j s through n q z e h = absurd (cc)
past i j s to_down n q z e h = absurd (cc)
past i j s back n q z e h = absurd (cc)

queued :
    (i : ℕ) (s : Monitor)
    → Safe s
    → Queues i s
    → is_inside (s.pc i) ≡ false
    → s.count ≡ 0
    → CanReturn i s
queued i s a q o z = elim (Option-cases s.mutex.holder) [
  | inl h ↦ from_free i s q h z
  | inr (j, h) ↦
      let inside = a.free j h in
      past i j s (s.pc j) (λ e. clash (subst (λ k. is_inside (s.pc k) ≡ true) e inside) o) q z refl
        inside
]
  where
    clash : {b : Bool} → b ≡ true → b ≢ false
    clash p = λ e. cc

waiting :
    (i : ℕ) (s : Monitor) (p : Pc)
    → Safe s
    → s.count ≡ 0
    → s.pc i ≡ p
    → waits p ≡ true
    → CanReturn i s
waiting i s to_wait a z e h = queued i s a (inl e) (ap is_inside e) z
waiting i s awake a z e h = queued i s a (inr e) (ap is_inside e) z
waiting i s at_wait a z e h = from_at_wait i s e z
waiting i s leaving a z e h = from_leaving i s e
waiting i s asleep a z e h = absurd (omega (arith, a.counting i e))
waiting i s outside a z e h = absurd (cc)
waiting i s through a z e h = absurd (cc)
waiting i s to_down a z e h = absurd (cc)
waiting i s at_down a z e h = absurd (cc)
waiting i s counted a z e h = absurd (cc)
waiting i s back a z e h = absurd (cc)

-- Any number of threads that call wait and countDown of a latch, in any order of their steps: once
-- the count is 0, a thread that is in a call of wait, wherever it stands and whoever holds the mutex,
-- can return from it: there are steps of the threads after which it has, and in none of them a wait
-- ends without a broadcast.
pub Reach-CanReturn :
    (n i : ℕ) (s : Monitor) → Reach n s → s.count ≡ 0 → waits (s.pc i) ≡ true → CanReturn i s
Reach-CanReturn n i s r z h = waiting i s (s.pc i) (Reach-Safe n s r) z refl h
