-- ===== src/Acceptor/Drain.antt =====
-- What one run of handleRead accepts, and what it leaves waiting.
use wserver.Prelude.{
  ℕ, ◌+◌, ◌≡◌, ◌≤◌, ◌<◌, ◌⊎◌, inl, inr, refl, sym, ap, subst, true, some, List, length,
  length-append, [], ◌∷◌, ◌++◌, Exec, ltb, Bool-cases, Returns, Returns-bind, append-nil,
  append_assoc, arith,
}
use wserver.Acceptor.{
  AcceptResult, accepted, failed, is_known, accept, max_fd, Accepted, hand_over, handle_read,
}

abbrev pub connections : List AcceptResult → List ℕ
connections [] = []
connections (accepted fd ∷ rs) = fd ∷ connections rs
connections (failed e ∷ rs) = connections rs

-- No result has an errno that Socket::accept does not know.
abbrev pub Known : List AcceptResult → Type 0
Known [] = Unit {0}
Known (accepted fd ∷ rs) = Known rs
Known (failed e ∷ rs) = (is_known e ≡ true) × Known rs

abbrev pub AllBelow : ℕ → List ℕ → Type 0
AllBelow n [] = Unit {0}
AllBelow n (x ∷ xs) = (x ≤ n) × AllBelow n xs

-- A callback `f` that returns, `n` times at most, and what then holds: `P` of the descriptors that it
-- was given and of its state.
module _ {S : Type 0} (f : ℕ → S → Exec S) (P : List ℕ → S → Type 0) (n : ℕ)
    (runs : (given : List ℕ) (s : S) (fd : ℕ)
      → length given < n
      → P given s
      → Returns (P (given ++ fd ∷ [])) (f fd s)) where
  -- What a run leaves, after the descriptors `before` were given.
  pub record Drained (before : List ℕ) (rs : List AcceptResult) (a : Accepted S) : Type 0 where
    pub handed : List ℕ
    pub state : P (before ++ handed) a.state
    pub each_once : handed ++ (a.closed ++ connections a.waiting) ≡ connections rs
    pub small : AllBelow max_fd handed
    pub known : Known a.waiting
    pub rest : length handed + length a.waiting ≤ length rs
    pub refused : (a.closed ≡ []) ⊎ ((fd : ℕ) × (a.closed ≡ fd ∷ []) × (max_fd < fd))

  -- A run that hands nothing over and stops.
  stopped :
      (before : List ℕ) (s : S) (rs all : List AcceptResult)
      → P before s
      → Known rs
      → length rs ≤ length all
      → connections rs ≡ connections all
      → Drained before all (record { state = s; closed = []; waiting = rs })
  stopped before s rs all p k h e = record {
    handed = [];
    state = subst (λ x. P x s) (sym (append-nil before)) p;
    each_once = e;
    small = tt;
    known = k;
    rest = omega arith;
    refused = inl refl;
  }

  too_large :
      (before : List ℕ) (s : S) (rs : List AcceptResult) (fd : ℕ)
      → P before s
      → Known rs
      → max_fd < fd
      → Drained before (accepted fd ∷ rs) (record { state = s; closed = fd ∷ []; waiting = rs })
  too_large before s rs fd p k h = record {
    handed = [];
    state = subst (λ x. P x s) (sym (append-nil before)) p;
    each_once = refl;
    small = tt;
    known = k;
    rest = omega arith;
    refused = inr (fd, refl, h);
  }

  one_more :
      (before : List ℕ) (rs : List AcceptResult) (fd : ℕ) (a : Accepted S)
      → fd ≤ max_fd
      → Drained (before ++ fd ∷ []) rs a
      → Drained before (accepted fd ∷ rs) a
  one_more before rs fd a h d = record {
    handed = fd ∷ d.handed;
    state = subst (λ x. P x a.state) (append_assoc before (fd ∷ []) d.handed) d.state;
    each_once = ap (λ x. fd ∷ x) d.each_once;
    small = (h, d.small);
    known = d.known;
    rest = omega (arith, d.rest);
    refused = d.refused;
  }

  -- handleRead while accept fails with known errors only: it returns.
  pub handle_read-Drained :
      (rs : List AcceptResult) (before : List ℕ) (s : S)
      → Known rs
      → length before + length rs ≤ n
      → P before s
      → Returns (Drained before rs) (handle_read (some f) rs s)
  unfolding handle_read hand_over accept
  handle_read-Drained [] before s k b p = (_, refl, stopped before s [] [] p tt (omega arith) refl)
  handle_read-Drained (failed e ∷ rs) before s k b p =
      rw k.0 (_, refl, stopped before s rs (failed e ∷ rs) p k.1 (omega arith) refl)
  handle_read-Drained (accepted fd ∷ rs) before s k b p = elim (Bool-cases (ltb max_fd fd)) [
    | inl e ↦ rw e (_, refl, too_large before s rs fd p k (ground (arith, e)))
    | inr e ↦
        let (s', given, p') = runs before s fd (omega arith) p in
        rw (e, given)
          (Returns-bind (Drained (before ++ fd ∷ []) rs) (Drained before (accepted fd ∷ rs))
            (handle_read (some f) rs s') _
            (handle_read-Drained rs (before ++ fd ∷ []) s' k
              (omega (arith, length-append before (fd ∷ []))) p')
            λ a d. (_, refl, one_more before rs fd a (ground (arith, e)) d))
  ]
