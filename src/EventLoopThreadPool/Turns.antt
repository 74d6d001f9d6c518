-- ===== src/EventLoopThreadPool/Turns.antt =====
-- The loops that successive calls of getNextLoop return.
use native.Mathlib.Nat.{mod-add-mod, mod-lt, mod-eq_of_lt}
use wserver.Prelude.{
  ℕ, zero, suc, ◌+◌, ◌%◌, ◌≡◌, ◌<◌, refl, sym, ap, ◌∙◌, some, List, [], ◌∷◌, length, get_elem?,
  Returns, Returns-bind, arith,
}
use wserver.EventLoopThreadPool.{EventLoopThreadPool, get_next_loop, calls}

get_elem?-some : (xs : List ℕ) (i : ℕ) → i < length xs → (a : ℕ) × (get_elem? xs i ≡ some a)
get_elem?-some [] i h = absurd (omega arith)
get_elem?-some (x ∷ xs) zero h = (x, refl)
get_elem?-some (x ∷ xs) (suc i) h = get_elem?-some xs i (omega arith)

-- What `n` calls return and leave.
pub record Turned (n : ℕ) (p : EventLoopThreadPool) (r : List ℕ × EventLoopThreadPool)
    : Type 0 where
  pub size : length r.0 ≡ n
  pub turns : (i : ℕ) → i < n → get_elem? r.0 i ≡ get_elem? p.loops ((p.next + i) % length p.loops)
  pub next : r.1.next ≡ (p.next + n) % length p.loops
  pub loops : r.1.loops ≡ p.loops

advanced : (a i n : ℕ) → ((a + 1) % n + i) % n ≡ (a + suc i) % n
advanced a i n = mod-add-mod (a + 1) n i ∙ ap (λ x. x % n) (omega arith)

one_more :
    (n : ℕ) (p : EventLoopThreadPool) (l : ℕ) (r : List ℕ × EventLoopThreadPool)
    → p.next < length p.loops
    → get_elem? p.loops p.next ≡ some l
    → Turned n (record p { next = (p.next + 1) % length p.loops }) r
    → Turned (suc n) p (l ∷ r.0, r.1)
one_more n p l r h e t = record {
  size = omega (arith, t.size);
  turns = turn;
  next = t.next ∙ advanced p.next n (length p.loops);
  loops = t.loops;
}
  where
    turn :
        (i : ℕ)
        → i < suc n
        → get_elem? (l ∷ r.0) i ≡ get_elem? p.loops ((p.next + i) % length p.loops)
    turn zero b =
        sym e
        ∙ ap (λ x. get_elem? p.loops x)
            (sym (mod-eq_of_lt h) ∙ ap (λ x. x % length p.loops) (omega arith))
    turn (suc i) b =
        t.turns i (omega arith) ∙ ap (λ x. get_elem? p.loops x) (advanced p.next i (length p.loops))

-- `n` calls of getNextLoop on a pool that has loops: none fails, and they return the loops in turn,
-- from the one that is next and again from the first behind the last.
pub calls_correct :
    (n : ℕ) (p : EventLoopThreadPool) → p.next < length p.loops → Returns (Turned n p) (calls n p)
unfolding calls get_next_loop
calls_correct zero p h = (
  _,
  refl,
  record {
    size = refl;
    turns = λ i b. absurd (omega arith);
    next = sym (mod-eq_of_lt h) ∙ ap (λ x. x % length p.loops) (omega arith);
    loops = refl;
  },
)
calls_correct (suc n) p h =
    let (l, e) = get_elem?-some p.loops p.next h in
    let q = record p { next = (p.next + 1) % length p.loops } in
    rw e (
      Returns-bind (Turned n q) (Turned (suc n) p) (calls n q) _
        (calls_correct n q (mod-lt (p.next + 1) (omega arith)))
        λ r t. (_, refl, one_more n p l r h e t))
