-- ===== src/TcpServer/Names.antt =====
-- The names of connections are different, and the map by them.
use wserver.Prelude.{
  ℕ, ◌^◌, ◌<◌, ◌≡◌, ◌≢◌, inl, inr, refl, sym, ap, ◌∙◌, Bool, true, false, none, some, List, [], ◌∷◌,
  ◌++◌, length-append, take, take-all, append_cancel_left, codes, bytes_eq, ◌==◌, if◌then◌else◌,
  Bool-cases, arith,
}
use wserver.Prelude.Decimal.{decimal, decimal-injective, length-decimal}
use wserver.TcpServer.{Conn, conn_name, put, erase, find}

pub bytes_eq_refl : (xs : List ℕ) → bytes_eq xs xs ≡ true
bytes_eq_refl [] = refl
bytes_eq_refl (x ∷ xs) = ground (arith, bytes_eq_refl xs)

bytes_eq→eq : (xs ys : List ℕ) → bytes_eq xs ys ≡ true → xs ≡ ys
bytes_eq→eq [] [] h = refl
bytes_eq→eq [] (y ∷ ys) h = cc
bytes_eq→eq (x ∷ xs) [] h = cc
bytes_eq→eq (x ∷ xs) (y ∷ ys) h = ground (arith, bytes_eq→eq xs ys)

bytes_ne : (xs ys : List ℕ) → xs ≢ ys → bytes_eq xs ys ≡ false
bytes_ne xs ys n = elim (Bool-cases (bytes_eq xs ys)) [
  | inl e ↦ absurd (n (bytes_eq→eq xs ys e))
  | inr e ↦ e
]

whole :
    (id : ℕ)
    → id < 2 ^ 31
    → take 31 (codes "#conn-id: " ++ decimal id) ≡ codes "#conn-id: " ++ decimal id
whole id h = take-all 31 (codes "#conn-id: " ++ decimal id) (
    omega
      (arith, length-append (codes "#conn-id: ") (decimal id), length-decimal id 9 (omega arith)))

-- snprintf cuts no name, and different ids have different names.
pub conn_name-injective :
    (name : List ℕ) (i j : ℕ)
    → i < 2 ^ 31
    → j < 2 ^ 31
    → conn_name name i ≡ conn_name name j
    → i ≡ j
unfolding conn_name
conn_name-injective name i j p q e =
    let cut =
      append_cancel_left name (take 31 (codes "#conn-id: " ++ decimal i))
        (take 31 (codes "#conn-id: " ++ decimal j)) e in
    decimal-injective i j (
      append_cancel_left (codes "#conn-id: ") (decimal i) (decimal j)
        (sym (whole i p) ∙ cut ∙ whole j q))

if-inner :
    {A : Type 0} (b : Bool) (x z y : A)
    → (if b then x else y) ≡ (if b then x else (if b then z else y))
if-inner true x z y = refl
if-inner false x z y = refl

if-same : {A : Type 0} (b : Bool) (x : A) → x ≡ (if b then x else x)
if-same true x = refl
if-same false x = refl

other_name : (l m n : List ℕ) → bytes_eq l n ≡ true → bytes_eq l m ≡ false → bytes_eq m n ≡ false
other_name l m n h e = bytes_ne m n λ eq. cc (ap (bytes_eq l) eq, h, e)

pub find-put :
    (c : Conn) (n : List ℕ) (cs : List Conn)
    → find n (put c cs) ≡ (if bytes_eq c.name n then some c else find n cs)
unfolding find put
find-put c n [] = refl
find-put c n (d ∷ ds) = elim (Bool-cases (bytes_eq d.name c.name)) [
  | inl e ↦ rw e (
      rw (ap (λ m. bytes_eq m n) (bytes_eq→eq d.name c.name e))
        (if-inner (bytes_eq c.name n) (some c) (some d) (find n ds)))
  | inr e ↦ rw e (elim (Bool-cases (bytes_eq d.name n)) [
    | inl h ↦ rw h (rw (other_name d.name c.name n h e) refl)
    | inr h ↦ rw h (find-put c n ds)
  ])
]

pub find-erase :
    (m n : List ℕ) (cs : List Conn)
    → find n (erase m cs) ≡ (if bytes_eq m n then none else find n cs)
unfolding find erase
find-erase m n [] = if-same (bytes_eq m n) none
find-erase m n (d ∷ ds) = elim (Bool-cases (bytes_eq d.name m)) [
  | inl e ↦ rw e (
      find-erase m n ds
      ∙ rw (ap (λ k. bytes_eq k n) (bytes_eq→eq d.name m e))
          (if-inner (bytes_eq m n) none (some d) (find n ds)))
  | inr e ↦ rw e (elim (Bool-cases (bytes_eq d.name n)) [
    | inl h ↦ rw h (rw (other_name d.name m n h e) refl)
    | inr h ↦ rw h (find-erase m n ds)
  ])
]

-- Names of connections are compared as their ids are.
pub bytes_eq-conn_name :
    (name : List ℕ) (i j : ℕ)
    → i < 2 ^ 31
    → j < 2 ^ 31
    → bytes_eq (conn_name name i) (conn_name name j) ≡ (i == j)
bytes_eq-conn_name name i j p q = elim (Bool-cases (i == j)) [
  | inl e ↦
      let same : i ≡ j = ground (arith, e) in rw e (rw same (bytes_eq_refl (conn_name name j)))
  | inr e ↦ rw e (
      bytes_ne (conn_name name i) (conn_name name j)
        λ eq. (let same = conn_name-injective name i j p q eq in ground (arith, e)))
]
