-- ===== src/CountDownLatch/Safety.antt =====
-- What holds of every run of the threads: one thread at a time is inside, and no wakeup is lost.
use wserver.Prelude.{
  ℕ, ◌-◌, ◌≡◌, ◌≢◌, ◌<◌, refl, sym, ap, subst, ◌∙◌, inl, inr, Bool, true, false, Option, none, some,
  Bool-cases, ◌==◌, ltb, arith,
}
use wserver.Mutex.{guard, end_guard, lock, unlock}
use wserver.CountDownLatch.{wait, count_down}
use wserver.CountDownLatch.Monitor.{
  Pc, outside, to_wait, at_wait, asleep, awake, leaving, through, to_down, at_down, counted, back,
  Monitor, update, broadcast, latch, tested, counts, takes, leaves, Step, call_wait, lock_wait,
  test, relock, end_wait, call_down, lock_down, down, end_down, Reach, begin, later, wake,
}

-- The thread is between the two ends of a guard, and does not wait on the condition.
abbrev pub is_inside : Pc → Bool
is_inside at_wait = true
is_inside leaving = true
is_inside at_down = true
is_inside counted = true
is_inside _ = false

-- The thread holds the mutex, or it does not.
abbrev Holds : Bool → Option ℕ → ℕ → Type 0
Holds true h j = h ≡ some j
Holds false h j = h ≢ some j

-- What the count says of where a thread stands.
abbrev Counts : Pc → ℕ → Type 0
Counts asleep c = 0 < c
Counts leaving c = c ≡ 0
Counts through c = c ≡ 0
Counts _ c = Unit {0}

abbrev Fits : Option ℕ → ℕ → ℕ → Pc → Type 0
Fits h c j p = Holds (is_inside p) h j × Counts p c

abbrev All : Monitor → Type 0
All s = (j : ℕ) → Fits s.mutex.holder s.count j (s.pc j)

some_inj : {i j : ℕ} → some i ≡ some j → i ≡ j
some_inj e = cc

none-some : {j : ℕ} → none ≢ some j
none-some e = cc

-- The others, when `i` takes the mutex or leaves it.
taken : (i j : ℕ) (b : Bool) → (i == j) ≡ false → Holds b none j → Holds b (some i) j
taken i j true n h = absurd (none-some h)
taken i j false n h = λ e. ground (arith, some_inj e)

left : (i j : ℕ) (b : Bool) → (i == j) ≡ false → Holds b (some i) j → Holds b none j
left i j true n h = ground (arith, some_inj h)
left i j false n h = none-some

-- The one thread that moves, and the others.
each :
    (i : ℕ) (p : Pc) (f : ℕ → Pc) (h : Option ℕ) (c : ℕ)
    → Fits h c i p
    → ((j : ℕ) → (i == j) ≡ false → Fits h c j (f j))
    → (j : ℕ) → Fits h c j (update f i p j)
each i p f h c one others j = elim (Bool-cases (i == j)) [
  | inl e ↦ let same : i ≡ j = ground (arith, e) in rw e (subst (λ k. Fits h c k p) same one)
  | inr e ↦ rw e (others j e)
]

moves :
    (i : ℕ) (s : Monitor) (p q : Pc)
    → s.pc i ≡ q
    → is_inside p ≡ is_inside q
    → Counts p s.count
    → All s
    → All (record s { pc = update s.pc i p })
moves i s p q e b c a =
    each i p s.pc s.mutex.holder s.count
      (subst (λ x. Holds x s.mutex.holder i) (ap is_inside e ∙ sym b) (a i).0, c) λ j n. a j

enters :
    (i : ℕ) (s : Monitor) (p : Pc)
    → s.mutex.holder ≡ none
    → is_inside p ≡ true
    → Counts p s.count
    → All s
    → All (takes i p s)
unfolding guard lock
enters i s p e b c a =
    each i p s.pc (some i) s.count (rw b refl, c)
      λ j n. (
        taken i j (is_inside (s.pc j)) n (subst (λ h. Holds (is_inside (s.pc j)) h j) e (a j).0),
        (a j).1,
      )

exits :
    (i : ℕ) (s : Monitor) (p q : Pc)
    → s.pc i ≡ q
    → is_inside q ≡ true
    → is_inside p ≡ false
    → Counts p s.count
    → All s
    → All (leaves i p s)
unfolding end_guard unlock
exits i s p q e inside out c a =
    let held : s.mutex.holder ≡ some i =
      subst (λ b. Holds b s.mutex.holder i) (ap is_inside e ∙ inside) (a i).0 in
    each i p s.pc none s.count (rw out none-some, c)
      λ j n. (
        left i j (is_inside (s.pc j)) n (subst (λ h. Holds (is_inside (s.pc j)) h j) held (a j).0),
        (a j).1,
      )

tests : (i : ℕ) (s : Monitor) → s.pc i ≡ at_wait → All s → All (tested i (wait (latch s)).0 s)
unfolding wait
tests i s e a = elim (Bool-cases (ltb 0 s.count)) [
  | inl p ↦ rw p (exits i s asleep at_wait e refl refl (ground (arith, p)) a)
  | inr p ↦ rw p (moves i s leaving at_wait e refl (ground (arith, p)) a)
]

-- A thread other than the one that counts: after a broadcast, and where some count is left.
roused : (h : Option ℕ) (c j : ℕ) (p : Pc) → Fits h c j p → Fits h (c - 1) j (broadcast p)
roused h c j asleep f = (f.0, tt)
roused h c j leaving f = (f.0, omega (arith, f.1))
roused h c j through f = (f.0, omega (arith, f.1))
roused h c j outside f = f
roused h c j to_wait f = f
roused h c j at_wait f = f
roused h c j awake f = f
roused h c j to_down f = f
roused h c j at_down f = f
roused h c j counted f = f
roused h c j back f = f

lowered : (h : Option ℕ) (c j : ℕ) (p : Pc) → 1 < c → Fits h c j p → Fits h (c - 1) j p
lowered h c j asleep l f = (f.0, omega (arith, l))
lowered h c j leaving l f = (f.0, omega (arith, f.1))
lowered h c j through l f = (f.0, omega (arith, f.1))
lowered h c j outside l f = f
lowered h c j to_wait l f = f
lowered h c j at_wait l f = f
lowered h c j awake l f = f
lowered h c j to_down l f = f
lowered h c j at_down l f = f
lowered h c j counted l f = f
lowered h c j back l f = f

counting : (i : ℕ) (s : Monitor) → s.pc i ≡ at_down → All s → All (counts i s)
unfolding count_down
counting i s e a = elim (Bool-cases (s.count == 0)) [
  | inl z ↦ rw z (moves i s counted at_down e refl tt a)
  | inr z ↦ elim (Bool-cases (s.count == 1)) [
    | inl o ↦
        rw (z, o)
          (each i counted (λ j. broadcast (s.pc j)) s.mutex.holder (s.count - 1) (held, tt)
            λ j n. roused s.mutex.holder s.count j (s.pc j) (a j))
    | inr o ↦
        rw (z, o)
          (each i counted s.pc s.mutex.holder (s.count - 1) (held, tt)
            λ j n. lowered s.mutex.holder s.count j (s.pc j) (ground (arith, z, o)) (a j))
  ]
]
  where
    held : s.mutex.holder ≡ some i
    held = subst (λ b. Holds b s.mutex.holder i) (ap is_inside e) (a i).0

Step-All : (i : ℕ) (s t : Monitor) → Step i s t → All s → All t
Step-All i s _ (call_wait e) a = moves i s to_wait outside e refl tt a
Step-All i s _ (lock_wait e h) a = enters i s at_wait h refl tt a
Step-All i s _ (test e) a = tests i s e a
Step-All i s _ (relock e h) a = enters i s at_wait h refl tt a
Step-All i s _ (end_wait e) a =
    exits i s through leaving e refl refl (subst (λ p. Counts p s.count) e (a i).1) a
Step-All i s _ (call_down e) a = moves i s to_down outside e refl tt a
Step-All i s _ (lock_down e h) a = enters i s at_down h refl tt a
Step-All i s _ (down e) a = counting i s e a
Step-All i s _ (end_down e) a = exits i s back counted e refl refl tt a

Reach-All : (n : ℕ) (s : Monitor) → Reach n s → All s
Reach-All n s begin = λ j. (none-some, tt)
Reach-All n s (later {s = s0} i r p) = Step-All i s0 s p (Reach-All n s0 r)
Reach-All n _ (wake {s = s0} i r e) = moves i s0 awake asleep e refl tt (Reach-All n s0 r)

-- What holds between any two steps.
pub record Safe (s : Monitor) : Type 0 where
  pub exclusive : (i j : ℕ) → is_inside (s.pc i) ≡ true → is_inside (s.pc j) ≡ true → i ≡ j
  pub held : (i : ℕ) → is_inside (s.pc i) ≡ true → s.mutex.holder ≡ some i
  pub free : (i : ℕ) → s.mutex.holder ≡ some i → is_inside (s.pc i) ≡ true
  pub counting : (i : ℕ) → s.pc i ≡ asleep → 0 < s.count
  pub finished : (i : ℕ) → s.pc i ≡ through → s.count ≡ 0

holder_is : {h : Option ℕ} {j : ℕ} (b : Bool) → Holds b h j → h ≡ some j → b ≡ true
holder_is true h e = refl
holder_is false h e = absurd (h e)

-- Any number of threads that call wait and countDown of a latch, in any order of their steps: no two
-- of them are between the ends of a guard at once, the holder of the mutex is the one that is; a
-- thread only waits on the condition while the count is above 0, so that no wakeup is lost; and a
-- call of wait has only returned once the count is 0.
pub Reach-Safe : (n : ℕ) (s : Monitor) → Reach n s → Safe s
Reach-Safe n s r =
    let a = Reach-All n s r in
    let held : (i : ℕ) → is_inside (s.pc i) ≡ true → s.mutex.holder ≡ some i =
      λ i e. subst (λ b. Holds b s.mutex.holder i) e (a i).0 in
    record {
      exclusive = λ i j p q. some_inj (sym (held i p) ∙ held j q);
      held = held;
      free = λ i e. holder_is (is_inside (s.pc i)) (a i).0 e;
      counting = λ i e. subst (λ p. Counts p s.count) e (a i).1;
      finished = λ i e. subst (λ p. Counts p s.count) e (a i).1;
    }
