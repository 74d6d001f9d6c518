-- ===== src/TimerHeap/Down.antt =====
-- percolateDown restores the heap.
use mathlib.Core.List.Perm
use wserver.Prelude.{
  ℕ, zero, suc, ◌+◌, ◌*◌, ◌≤◌, ◌<◌, ◌≡◌, ◌≢◌, ◌⊎◌, refl, ap, ◌∙◌, inl, inr, false, none, List,
  length, done, Returns, Returns-map, Bool-cases, ltb, leb, leb→le, ltb→lt, ◌==◌, if◌then◌else◌,
  arith,
}
use wserver.Prelude.Arrays.{exchange, get_or-exchange, length-exchange, perm-exchange}
use wserver.TimerHeap.{Slot, choose, percolate_down}
use wserver.TimerHeap.Order.{
  NonNull, time, key, parent, less_lem, swap_lem, NonNull-exchange, Sifted,
}

-- Only the edges below `i` may be out of order.
pub record SinksFrom (h : List Slot) (i : ℕ) : Type 0 where
  pub edges : (c : ℕ) → 0 < c → c < length h → parent c ≢ i → key h (parent c) ≤ key h c
  pub below : (c : ℕ) → 0 < c → c < length h → parent c ≡ i → 0 < i → key h (parent i) ≤ key h c

-- What the two comparisons pick: `i` itself, or a child that expires strictly before it; and nothing
-- among `i` and its children expires before what is picked.
record Picked (h : List Slot) (i next : ℕ) : Type 0 where
  inside : next < length h
  which : (next ≡ i) ⊎ ((0 < next) × (parent next ≡ i) × (key h next < key h i))
  least : (c : ℕ) → 0 < c → c < length h → parent c ≡ i → key h next ≤ key h c

abbrev earlier : List Slot → ℕ → ℕ → ℕ
earlier h child next =
    if ltb child (length h) then (if ltb (key h child) (key h next) then child else next) else next

choose_lem :
    (h : List Slot) (child next : ℕ)
    → NonNull h
    → next < length h
    → choose h child next ≡ done (earlier h child next)
unfolding choose
choose_lem h child next v p = elim (Bool-cases (ltb child (length h))) [
  | inl here ↦ rw (here, less_lem h child next v (ltb→lt child (length h) here) p) refl
  | inr missing ↦ rw missing refl
]

earlier_lem :
    (h : List Slot) (child next : ℕ)
    → next < length h
    → (earlier h child next < length h)
      × ((earlier h child next ≡ next)
          ⊎ ((earlier h child next ≡ child) × (key h child < key h next)))
      × (key h (earlier h child next) ≤ key h next)
      × (child < length h → key h (earlier h child next) ≤ key h child)
earlier_lem h child next p = ground arith

child_cases : (c i : ℕ) → 0 < c → parent c ≡ i → (c ≡ 2 * i + 1) ⊎ (c ≡ 2 * i + 2)
child_cases c i p e = omega arith

picked_which :
    (h : List Slot) (i n n' : ℕ)
    → (n ≡ i) ⊎ ((n ≡ 2 * i + 1) × (key h (2 * i + 1) < key h i))
    → (n' ≡ n) ⊎ ((n' ≡ 2 * i + 2) × (key h (2 * i + 2) < key h n))
    → (n' ≡ i) ⊎ ((0 < n') × (parent n' ≡ i) × (key h n' < key h i))
picked_which h i n n' (inl a) (inl b) = inl (b ∙ a)
picked_which h i n n' (inl a) (inr (b, lt)) = inr (omega arith, omega arith, rw b (rw a at lt))
picked_which h i n n' (inr (a, lt)) (inl b) = inr (omega arith, omega arith, rw (b, a) lt)
picked_which h i n n' (inr (a, lt)) (inr (b, lt')) =
    let lt'' : key h (2 * i + 2) < key h (2 * i + 1) = rw a at lt' in
    inr (omega arith, omega arith, rw b (omega arith))

picked :
    (h : List Slot) (i : ℕ)
    → i < length h
    → Picked h i (earlier h (2 * i + 2) (earlier h (2 * i + 1) i))
picked h i p =
    let n = earlier h (2 * i + 1) i in
    let n' = earlier h (2 * i + 2) n in
    let (in1, w1, le1, c1) = earlier_lem h (2 * i + 1) i p in
    let (in2, w2, le2, c2) = earlier_lem h (2 * i + 2) n in1 in
    record {
      inside = in2;
      which = picked_which h i n n' w1 w2;
      least = λ c a b e. elim (child_cases c i a e) [
        | inl l ↦ rw l (omega (arith, c1 (rw l at b), le2))
        | inr r ↦ rw r (c2 (rw r at b))
      ];
    }

sunk :
    (h : List Slot) (i m : ℕ)
    → SinksFrom h i
    → i < length h
    → m < length h
    → 0 < m
    → parent m ≡ i
    → key h m < key h i
    → ((c : ℕ) → 0 < c → c < length h → parent c ≡ i → key h m ≤ key h c)
    → SinksFrom (exchange none h i m) m
sunk h i m v hi hm pos child below least =
    let size = length-exchange none h i m in
    let at = λ (c : ℕ). get_or-exchange none h i m c hi hm in
    record {
      edges = λ c a b n.
          ground
            (arith, ap time (at c), ap time (at (parent c)), size, v.edges c, v.below m, least c);
      below = λ c a b e z. ground (arith, ap time (at c), ap time (at (parent m)), size, v.edges c);
    }

Picked-child :
    (h : List Slot) (i m : ℕ)
    → Picked h i m
    → (m == i) ≡ false
    → (0 < m) × (parent m ≡ i) × (key h m < key h i)
Picked-child h i m p e = ground (arith, p.which)

pub percolate_down_restores :
    (k : ℕ) (h : List Slot) (i : ℕ)
    → length h < k + i
    → 0 < k
    → NonNull h
    → SinksFrom h i
    → Returns (Sifted h) (percolate_down k h i)
unfolding percolate_down
percolate_down_restores zero h i f z v s = absurd (omega arith)
percolate_down_restores (suc k) h i f z v s = elim (Bool-cases (leb (length h) i)) [
  | inl past ↦ rw past (
    h,
    refl,
    record {
      heap = λ c a b. s.edges c a b (omega (arith, leb→le (length h) i past));
      nonnull = v;
      perm = Perm.rfl;
    },
  )
  | inr inside ↦
      let hi : i < length h = ground arith in
      let n = earlier h (2 * i + 1) i in
      let m = earlier h (2 * i + 2) n in
      let p = picked h i hi in
      let hm = p.inside in
      rw
        (
          inside,
          choose_lem h (2 * i + 1) i v hi,
          choose_lem h (2 * i + 2) n v (earlier_lem h (2 * i + 1) i hi).0,
        )
        (elim (Bool-cases (m == i)) [
          | inl stays ↦ rw stays (
            h,
            refl,
            record {
              heap = λ c a b. ground (arith, s.edges c a b, p.least c a b);
              nonnull = v;
              perm = Perm.rfl;
            },
          )
          | inr sinks ↦
              let (pos, child, below) = Picked-child h i m p sinks in
              rw (sinks, swap_lem h i m hi hm)
                (Returns-map (Sifted (exchange none h i m)) (Sifted h) _
                  (percolate_down_restores k (exchange none h i m) m
                    (omega (arith, length-exchange none h i m)) (omega arith)
                    (NonNull-exchange h i m v hi hm) (sunk h i m s hi hm pos child below p.least))
                  λ h' r. record {
                    heap = r.heap;
                    nonnull = r.nonnull;
                    perm = Perm.trans r.perm (perm-exchange none h i m hi hm);
                  })
        ])
]
