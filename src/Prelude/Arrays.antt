-- ===== src/Prelude/Arrays.antt =====
-- Lists used as arrays: reads with a default, exchanges of two entries, and permutations.
use mathlib.Core.List.{List, [], ◌∷◌, ◌++◌, Perm, Permᴰ}
use mathlib.Core.List.Perm
use mathlib.Core.Logic.{∥∥₁_elim}
use mathlib.Core.Path.{◌≡◌, refl, ap, ◌∙◌}
use native.Mathlib.Nat.{ℕ_set}
use native.Mathlib.Omega.{arith}
use Prim.Native.Nat.{ℕ, zero, suc, ◌<◌}
use wserver.Prelude.Tests.{◌==◌, if◌then◌else◌}
use wserver.Prelude.Lists.{length, get_or, set, take, length-set}

module _ {ℓ} {A : Type ℓ} where
  -- std::swap(a[i], a[j]).
  abbrev pub exchange : A → List A → ℕ → ℕ → List A
  exchange d xs i j = set (set xs i (get_or xs j d)) j (get_or xs i d)

  pub get_or-set :
      (d : A) (xs : List A) (i j : ℕ) (v : A)
      → i < length xs
      → get_or (set xs i v) j d ≡ (if i == j then v else get_or xs j d)
  get_or-set d [] i j v h = elim h [ ]
  get_or-set d (x ∷ xs) zero zero v h = refl
  get_or-set d (x ∷ xs) (suc i) (suc j) v h = ground (arith, get_or-set d xs i j v)
  get_or-set d (x ∷ xs) zero (suc j) v h = ground arith
  get_or-set d (x ∷ xs) (suc i) zero v h = ground arith

  pub get_or-append :
      (d : A) (xs ys : List A) (i : ℕ) → i < length xs → get_or (xs ++ ys) i d ≡ get_or xs i d
  get_or-append d [] ys i h = elim h [ ]
  get_or-append d (x ∷ xs) ys zero h = refl
  get_or-append d (x ∷ xs) ys (suc i) h = get_or-append d xs ys i (omega arith)

  pub get_or-take : (d : A) (xs : List A) (n i : ℕ) → i < n → get_or (take n xs) i d ≡ get_or xs i d
  get_or-take d xs zero i h = elim h [ ]
  get_or-take d [] (suc n) i h = refl
  get_or-take d (x ∷ xs) (suc n) zero h = refl
  get_or-take d (x ∷ xs) (suc n) (suc i) h = get_or-take d xs n i (omega arith)

  pub length-exchange : (d : A) (xs : List A) (i j : ℕ) → length (exchange d xs i j) ≡ length xs
  length-exchange d xs i j = length-set (set xs i (get_or xs j d)) j _ ∙ length-set xs i _

  -- What is read after an exchange.
  pub get_or-exchange :
      (d : A) (xs : List A) (i j c : ℕ)
      → i < length xs
      → j < length xs
      → get_or (exchange d xs i j) c d
        ≡ (if j == c then get_or xs i d else if i == c then get_or xs j d else get_or xs c d)
  get_or-exchange d xs i j c hi hj = rw (
    get_or-set d (set xs i (get_or xs j d)) j c (get_or xs i d) (rw length-set hj),
    get_or-set d xs i c (get_or xs j d) hi,
  )

  -- A write puts one entry in the place of another.
  pub perm-set :
      (d : A) (xs : List A) (i : ℕ) (v : A)
      → i < length xs
      → Perm (get_or xs i d ∷ set xs i v) (v ∷ xs)
  perm-set d [] i v h = elim h [ ]
  perm-set d (x ∷ xs) zero v h = Perm.swap v x xs
  perm-set d (x ∷ xs) (suc i) v h =
      Perm.trans (Perm.swap x (get_or xs i d) (set xs i v))
        (Perm.trans (Perm.cons x (perm-set d xs i v (omega arith))) (Perm.swap v x xs))

  pub perm-exchange :
      (d : A) (xs : List A) (i j : ℕ) → i < length xs → j < length xs → Perm (exchange d xs i j) xs
  perm-exchange d xs i j hi hj =
      let ys = set xs i (get_or xs j d) in
      let same : get_or ys j d ≡ get_or xs j d =
        ground (arith, get_or-set d xs i j (get_or xs j d)) in
      let last = perm-set d ys j (get_or xs i d) (rw length-set hj) in
      Perm.cons_inv (Perm.trans (rw same at last) (perm-set d xs i (get_or xs j d) hi))

  lengthᴰ : {xs ys : List A} → Permᴰ xs ys → length xs ≡ length ys
  lengthᴰ Permᴰ.nil = refl
  lengthᴰ (Permᴰ.cons _ p) = ap suc (lengthᴰ p)
  lengthᴰ (Permᴰ.swap _ _) = refl
  lengthᴰ (Permᴰ.trans p q) = lengthᴰ p ∙ lengthᴰ q

  pub length-perm : {xs ys : List A} → Perm xs ys → length xs ≡ length ys
  length-perm p = ∥∥₁_elim p (ℕ_set _ _) lengthᴰ
