-- ===== src/Buffer/Line.antt =====
-- getAnHTTPLine, against the first CR LF of the bytes that a reader sees.
use mathlib.Core.Option
use wserver.Prelude.{
  ℕ, zero, suc, ◌+◌, ◌-◌, ◌≤◌, ◌<◌, ◌≡◌, refl, ◌∙◌, inl, inr, Bool, true, false, ◌&&◌, Option, none,
  some, List, [], ◌∷◌, length, take, drop, get_or, drop-drop, drop-take, take-take, Bool-cases,
  Option-cases, lt→ltb, ◌==◌, if◌then◌else◌, arith,
}
use wserver.Buffer.{Buffer, slice, contents, cr, lf, scan_line, get_an_http_line}
use wserver.Buffer.Append.{IsValid, length-contents}

-- The index behind the first CR LF.
unfoldable pub line_end : List ℕ → Option ℕ
line_end [] = none
line_end (a ∷ []) = none
line_end (a ∷ b ∷ rest) =
    if (a == cr) && (b == lf) then some 2 else Option.map suc (line_end (b ∷ rest))

-- The line that the call returns, and the bytes that stay: without a CR LF, nothing is taken, and
-- the last byte is left out of what is returned.
abbrev pub line_of : Option ℕ → List ℕ → List ℕ
line_of (some n) c = take n c
line_of none c = take (length c - 1) c

abbrev pub rest_of : Option ℕ → List ℕ → List ℕ
rest_of (some n) c = drop n c
rest_of none c = c

pub line_end-le : (c : List ℕ) (n : ℕ) → line_end c ≡ some n → (2 ≤ n) × (n ≤ length c)
unfolding line_end
line_end-le [] n e = cc
line_end-le (a ∷ []) n e = cc
line_end-le (a ∷ b ∷ rest) n e = elim (Option-cases (line_end (b ∷ rest))) [
  | inl none_yet ↦ ground (arith, none_yet)
  | inr (m, later) ↦ ground (arith, later, line_end-le (b ∷ rest) m later)
]

drop-lt : (xs : List ℕ) (i : ℕ) → i < length xs → drop i xs ≡ get_or xs i 0 ∷ drop (suc i) xs
drop-lt [] i h = elim h [ ]
drop-lt (x ∷ xs) zero h = refl
drop-lt (x ∷ xs) (suc i) h = drop-lt xs i (omega arith)

slice-lt :
    (xs : List ℕ) (i j : ℕ)
    → i < j
    → j ≤ length xs
    → slice xs i j ≡ get_or xs i 0 ∷ slice xs (suc i) j
slice-lt xs i j h k =
    let size : j - i ≡ suc (j - suc i) = omega arith in rw (size, drop-lt xs i (omega arith)) refl

pub slice-none : (xs : List ℕ) (i j : ℕ) → j ≤ i → slice xs i j ≡ []
slice-none xs i j h = let none_left : j - i ≡ 0 = omega arith in rw none_left refl

-- What the loop returns from the index `i`, by the first line end of the bytes from there.
abbrev found : Buffer → ℕ → Option ℕ → List ℕ × Buffer
found b i (some n) = (slice b.storage b.read_index (i + n), record b { read_index = i + n })
found b i none = (slice b.storage b.read_index (b.write_index - 1), b)

found-suc : (b : Buffer) (i : ℕ) (o : Option ℕ) → found b (suc i) o ≡ found b i (Option.map suc o)
found-suc b i none = refl
found-suc b i (some n) = let same : suc i + n ≡ i + suc n = omega arith in rw same refl

-- One round of the loop, with the later rounds shut.
module _ (b : Buffer) (i : ℕ) where
  abbrev at_end : Bool
  at_end = (get_or b.storage i 0 == cr) && (get_or b.storage (suc i) 0 == lf)

  scan_line-last : suc i ≡ b.write_index → scan_line b 1 i ≡ found b i none
  unfolding scan_line
  scan_line-last e = ground arith

  scan_line-found :
      (k : ℕ) → suc i < b.write_index → at_end ≡ true → scan_line b (suc k) i ≡ found b i (some 2)
  unfolding scan_line
  scan_line-found k h e =
      let next : i + 1 ≡ suc i = omega arith in rw (next, lt→ltb (suc i) b.write_index h, e) refl

  scan_line-on :
      (k : ℕ)
      → suc i < b.write_index
      → at_end ≡ false
      → scan_line b (suc k) i ≡ scan_line b k (suc i)
  unfolding scan_line
  scan_line-on k h e =
      let next : i + 1 ≡ suc i = omega arith in
      let inner : (i == b.write_index - 1) ≡ false = ground arith in
      rw (next, lt→ltb (suc i) b.write_index h, e, inner) refl

line_end-on :
    (a c : ℕ) (rest : List ℕ)
    → line_end (a ∷ c ∷ rest)
      ≡ (if (a == cr) && (c == lf) then some 2 else Option.map suc (line_end (c ∷ rest)))
unfolding line_end
line_end-on a c rest = refl

line_end-nil : line_end [] ≡ none
unfolding line_end
line_end-nil = refl

line_end-one : (a : ℕ) → line_end (a ∷ []) ≡ none
unfolding line_end
line_end-one a = refl

scan_line_lem :
    (b : Buffer) (k i : ℕ)
    → IsValid b
    → i + suc k ≡ b.write_index
    → scan_line b (suc k) i ≡ found b i (line_end (slice b.storage i b.write_index))
scan_line_lem b zero i v e =
    rw
      (
        slice-lt b.storage i b.write_index (omega arith) v.inside,
        slice-none b.storage (suc i) b.write_index (omega arith),
        line_end-one (get_or b.storage i 0),
      )
      (scan_line-last b i (omega arith))
scan_line_lem b (suc k) i v e =
    let first = slice-lt b.storage i b.write_index (omega arith) v.inside in
    let second = slice-lt b.storage (suc i) b.write_index (omega arith) v.inside in
    let step =
      line_end-on (get_or b.storage i 0) (get_or b.storage (suc i) 0)
        (slice b.storage (suc (suc i)) b.write_index) in
    rw (first, second, step)
      (elim (Bool-cases (at_end b i)) [
        | inl here ↦ rw here (scan_line-found b i (suc k) (omega arith) here)
        | inr later ↦
            rw (later, ← second)
              (scan_line-on b i (suc k) (omega arith) later
                ∙ scan_line_lem b k (suc i) v (omega arith)
                ∙ found-suc b i (line_end (slice b.storage (suc i) b.write_index)))
      ])

-- What a call of getAnHTTPLine returns and leaves.
pub record TookLine (b : Buffer) (r : List ℕ × Buffer) : Type 0 where
  pub line : r.0 ≡ line_of (line_end (contents b)) (contents b)
  pub rest : contents r.1 ≡ rest_of (line_end (contents b)) (contents b)
  pub valid : IsValid r.1

slice-prefix :
    (b : Buffer) (n j : ℕ)
    → n ≡ j - b.read_index
    → n ≤ b.write_index - b.read_index
    → slice b.storage b.read_index j ≡ take n (contents b)
slice-prefix b n j e h =
    rw (take-take n (b.write_index - b.read_index) (drop b.read_index b.storage) h, e) refl

pub slice-suffix :
    (b : Buffer) (n : ℕ) → slice b.storage (b.read_index + n) b.write_index ≡ drop n (contents b)
slice-suffix b n =
    let size : b.write_index - (b.read_index + n) ≡ b.write_index - b.read_index - n =
      omega arith in
    rw
      (
        drop-take n (b.write_index - b.read_index) (drop b.read_index b.storage),
        drop-drop b.read_index n b.storage,
        size,
      )
      refl

found-TookLine :
    (b : Buffer)
    → IsValid b
    → b.read_index < b.write_index
    → (o : Option ℕ) → line_end (contents b) ≡ o
    → TookLine b (found b b.read_index o)
found-TookLine b v h none e = record {
  line = rw e (
      slice-prefix b (length (contents b) - 1) (b.write_index - 1)
        (omega (arith, length-contents b v)) (omega (arith, length-contents b v)));
  rest = rw e refl;
  valid = v;
}
found-TookLine b v h (some n) e =
    let (lo, hi) = line_end-le (contents b) n e in
    let size = length-contents b v in
    record {
      line = rw e (slice-prefix b n (b.read_index + n) (omega arith) (omega arith));
      rest = rw e (slice-suffix b n);
      valid = record { ordered = omega arith; inside = v.inside; small = v.small };
    }

nothing_left : (b : Buffer) → IsValid b → b.read_index ≡ b.write_index → TookLine b ([], b)
nothing_left b v e =
    let empty : contents b ≡ [] = slice-none b.storage b.read_index b.write_index (omega arith) in
    let missing : line_end (contents b) ≡ none = rw empty line_end-nil in
    record { line = rw (missing, empty) refl; rest = rw missing refl; valid = v }

-- getAnHTTPLine on a valid buffer: if the bytes to read hold a CR LF, the line up to the first one
-- is returned with it and taken out; if not, all bytes but the last are returned, and none taken.
pub get_an_http_line_correct : (b : Buffer) → IsValid b → TookLine b (get_an_http_line b)
unfolding get_an_http_line scan_line
get_an_http_line_correct b v = by_rounds (b.write_index - b.read_index) refl
  where
    by_rounds : (k : ℕ) → b.write_index - b.read_index ≡ k → TookLine b (scan_line b k b.read_index)
    by_rounds zero e = nothing_left b v (omega (arith, v.ordered))
    by_rounds (suc k) e =
        rw (scan_line_lem b k b.read_index v (omega arith))
          (found-TookLine b v (omega arith) (line_end (contents b)) refl)
