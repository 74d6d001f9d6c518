-- ===== src/HttpContext/Lines.antt =====
-- parseLine on a request: a line that ends in CR LF is taken out and marked.
use wserver.Prelude.{
  ℕ, zero, suc, ◌+◌, ◌-◌, ◌≤◌, ◌≡◌, ◌≢◌, refl, ap, ◌∙◌, inl, inr, none, some, List, [], ◌∷◌, ◌++◌,
  length, take, drop, length-append, length-drop, take-append_left, drop-append_left, append_assoc,
  Option-cases, arith,
}
use wserver.Buffer.{Buffer, contents, cr, lf, get_an_http_line}
use wserver.Buffer.Append.{IsValid}
use wserver.Buffer.Line.{line_end, line_end-le, get_an_http_line_correct}
use wserver.HttpContext.{HttpContext, LineState, line_ok, mark_end, parse_line}

-- No CR stands in the bytes.
abbrev pub NoCr : List ℕ → Type 0
NoCr [] = Unit {0}
NoCr (c ∷ cs) = (c ≢ cr) × NoCr cs

line_end-crlf :
    (line rest : List ℕ) → NoCr line → line_end (line ++ cr ∷ lf ∷ rest) ≡ some (length line + 2)
unfolding line_end
line_end-crlf [] rest h = refl
line_end-crlf (c ∷ []) rest h = ground arith
line_end-crlf (c ∷ d ∷ line) rest h = ground (arith, line_end-crlf (d ∷ line) rest h.1)

mark_end-crlf :
    (line : List ℕ) → NoCr line → mark_end (line ++ cr ∷ lf ∷ []) ≡ (line ++ 0 ∷ 0 ∷ [], line_ok)
unfolding mark_end
mark_end-crlf [] h = refl
mark_end-crlf (c ∷ []) h = ground arith
mark_end-crlf (c ∷ d ∷ line) h = ground (arith, mark_end-crlf (d ∷ line) h.1)

-- A request line or header, whole in the buffer.
pub parse_line-crlf :
    (c : HttpContext) (line rest : List ℕ)
    → IsValid c.input_buffer
    → contents c.input_buffer ≡ line ++ cr ∷ lf ∷ rest
    → NoCr line
    → (b : Buffer) × (parse_line c
        ≡ (record c { new_line = line ++ 0 ∷ 0 ∷ []; input_buffer = b }, line_ok))
      × IsValid b
      × (contents b ≡ rest)
unfolding parse_line
parse_line-crlf c line rest v e h =
    let t = get_an_http_line_correct c.input_buffer v in
    let end = ap line_end e ∙ line_end-crlf line rest h in
    let size = length-append line (cr ∷ lf ∷ []) in
    let whole = append_assoc line (cr ∷ lf ∷ []) rest in
    let taken : (get_an_http_line c.input_buffer).0 ≡ line ++ cr ∷ lf ∷ [] =
      rw (t.line, end, e, ← whole)
        (take-append_left (line ++ cr ∷ lf ∷ []) rest (length line + 2) (omega arith)) in
    let left : contents (get_an_http_line c.input_buffer).1 ≡ rest =
      rw (t.rest, end, e, ← whole)
        (drop-append_left (line ++ cr ∷ lf ∷ []) rest (length line + 2) (omega arith)) in
    ((get_an_http_line c.input_buffer).1, rw (taken, mark_end-crlf line h) refl, t.valid, left)

pub line_end-take : (m : ℕ) (c : List ℕ) → line_end c ≡ none → line_end (take m c) ≡ none
unfolding line_end
line_end-take zero c e = refl
line_end-take (suc m) [] e = refl
line_end-take (suc zero) (a ∷ c) e = refl
line_end-take (suc (suc m)) (a ∷ []) e = refl
line_end-take (suc (suc m)) (a ∷ b ∷ c) e = elim (Option-cases (line_end (b ∷ c))) [
  | inl later ↦ ground (arith, later, line_end-take (suc m) (b ∷ c) later)
  | inr (n, later) ↦ absurd (ground (arith, later))
]

pub mark_end-open : (c : List ℕ) → line_end c ≡ none → (mark_end c).1 ≢ line_ok
unfolding line_end mark_end
mark_end-open [] e = λ h. cc
mark_end-open (a ∷ []) e = λ h. cc
mark_end-open (a ∷ b ∷ c) e = elim (Option-cases (line_end (b ∷ c))) [
  | inl later ↦ ground (arith, later, mark_end-open (b ∷ c) later)
  | inr (n, later) ↦ absurd (ground (arith, later))
]

-- What parseLine does to the buffer.
pub record LineRead (c : HttpContext) (r : HttpContext × LineState) : Type 0 where
  pub valid : IsValid r.0.input_buffer
  pub shorter :
      r.1 ≡ line_ok → length (contents r.0.input_buffer) + 2 ≤ length (contents c.input_buffer)

pub parse_line_correct : (c : HttpContext) → IsValid c.input_buffer → LineRead c (parse_line c)
unfolding parse_line
parse_line_correct c v =
    let t = get_an_http_line_correct c.input_buffer v in
    let bytes = contents c.input_buffer in
    record {
      valid = t.valid;
      shorter = λ ok. elim (Option-cases (line_end bytes)) [
        | inl missing ↦
            let taken = (get_an_http_line c.input_buffer).0 in
            let open_end : line_end taken ≡ none =
              rw (t.line, missing) (line_end-take (length bytes - 1) bytes missing) in
            absurd (mark_end-open taken open_end ok)
        | inr (n, at) ↦
            let (lo, hi) = line_end-le bytes n at in
            let left : contents (get_an_http_line c.input_buffer).1 ≡ drop n bytes =
              rw (t.rest, at) refl in
            rw left (omega (arith, length-drop n bytes))
      ];
    }
