-- ===== src/HttpContext/Termination.antt =====
-- handleHttpRequest: which calls return, and how.
use wserver.Prelude.{
  ℕ, zero, suc, ◌+◌, ◌≤◌, ◌≡◌, ◌≢◌, refl, ◌⊎◌, inl, inr, true, length, Exec, done, stop,
  out_of_fuel, Returns, Returns-map, ◌∙◌, if◌then◌else◌, Bool-cases, arith,
}
use wserver.Buffer.{contents}
use wserver.Buffer.Append.{IsValid}
use wserver.HttpContext.{
  HttpContext, LineState, line_ok, line_bad, line_open, CheckState, check_request_line,
  check_header, check_body, check_end, no_request, get_request, bad_request, parse_line, token_end,
  get, head, parse_uri_version, parse_request_line, parse_message_header, parse_message_body,
  request_loop, handle_http_request, is_bad, is_body,
}
use wserver.HttpContext.Lines.{parse_line_correct}

-- What the parsers of one line leave alone, and their ways out.
record LineParsed (c d : HttpContext) : Type 0 where
  input : d.input_buffer ≡ c.input_buffer
  output : d.output_buffer ≡ c.output_buffer
  way :
      (d.request_state ≡ bad_request)
      ⊎ ((d.request_state ≡ no_request) × (d.check_state ≢ check_end))

parse_uri_version-LineParsed : (c : HttpContext) (end : ℕ) → LineParsed c (parse_uri_version c end)
unfolding parse_uri_version
parse_uri_version-LineParsed c end = ground arith

parse_request_line-LineParsed : (c : HttpContext) → LineParsed c (parse_request_line c)
unfolding parse_request_line
parse_request_line-LineParsed c =
    let end = token_end c.new_line 0 in
    let as_get = parse_uri_version-LineParsed (record c { method = get }) end in
    let as_head = parse_uri_version-LineParsed (record c { method = head }) end in
    ground (arith, as_get, as_head)

parse_message_header-LineParsed :
    (c : HttpContext) → c.check_state ≢ check_end → LineParsed c (parse_message_header c)
unfolding parse_message_header
parse_message_header-LineParsed c h = ground arith

-- How handleHttpRequest leaves a context.
pub record Handled (c d : HttpContext) : Type 0 where
  pub valid : IsValid d.input_buffer
  pub output : d.output_buffer ≡ c.output_buffer
  pub way :
      ((d.request_state ≡ get_request) × (d.check_state ≡ check_end))
      ⊎ ((d.request_state ≡ no_request) × (d.check_state ≢ check_end))
      ⊎ (d.request_state ≡ bad_request)

Handled-trans :
    {c d e : HttpContext} → d.output_buffer ≡ c.output_buffer → Handled d e → Handled c e
Handled-trans p h = record { valid = h.valid; output = h.output ∙ p; way = h.way }

-- Rounds enough for the lines that are left, and for the body.
abbrev Enough : ℕ → HttpContext → Type 0
Enough k c = (length (contents c.input_buffer) + 2 ≤ k) ⊎ ((1 ≤ k) × (c.check_state ≡ check_body))

-- The rounds of the loop, by the state, with the later rounds shut.
module _ (k : ℕ) (c : HttpContext) where
  abbrev later : HttpContext → Exec HttpContext
  later d = request_loop (parse_line d).1 k (parse_line d).0

  pub round-request_line :
      c.check_state ≡ check_request_line
      → request_loop line_ok (suc k) c ≡ (
          if is_bad (parse_request_line c)
          then done (parse_request_line c)
          else later (parse_request_line c))
  unfolding request_loop
  round-request_line e = ground arith

  pub round-header :
      c.check_state ≡ check_header
      → let d = parse_message_header c in
        request_loop line_ok (suc k) c
        ≡ (if is_bad d then done d else if is_body d then request_loop line_ok k d else later d)
  unfolding request_loop
  round-header e = ground arith

  pub round-body :
      c.check_state ≡ check_body → request_loop line_ok (suc k) c ≡ done (parse_message_body c)
  unfolding request_loop
  round-body e = ground arith

  pub round-end :
      c.check_state ≡ check_end → request_loop line_ok (suc k) c ≡ request_loop line_ok k c
  unfolding request_loop
  round-end e = ground arith

CheckState-cases :
    (s : CheckState)
    → (s ≡ check_request_line) ⊎ (s ≡ check_header) ⊎ (s ≡ check_body) ⊎ (s ≡ check_end)
CheckState-cases s = ground arith

abbrev Total : ℕ → Type 0
Total k =
    (st : LineState) (c : HttpContext)
    → IsValid c.input_buffer
    → c.check_state ≢ check_end
    → (st ≡ line_ok → Enough k c)
    → Returns (Handled c) (request_loop st k c)

bad_Handled :
    (c d : HttpContext)
    → IsValid c.input_buffer
    → LineParsed c d
    → is_bad d ≡ true
    → Returns (Handled c) (done d)
bad_Handled c d v p b =
    (d, refl, record { valid = rw p.input v; output = p.output; way = inr (inr (ground arith)) })

-- The next round, after a line that leaves the context as `d`.
later-ends :
    (k : ℕ) (c d : HttpContext)
    → Total k
    → IsValid c.input_buffer
    → LineParsed c d
    → d.request_state ≢ bad_request
    → length (contents c.input_buffer) + 2 ≤ suc k
    → Returns (Handled c) (later k c d)
unfolding parse_line
later-ends k c d total v p good f =
    let v' : IsValid d.input_buffer = rw p.input v in
    let r = parse_line_correct d v' in
    let same : length (contents d.input_buffer) ≡ length (contents c.input_buffer) = rw p.input in
    Returns-map (Handled (parse_line d).0) (Handled c) (later k c d)
      (total (parse_line d).1 (parse_line d).0 r.valid ground (arith, p.way)
        (λ ok. inl (omega (arith, r.shorter ok))))
      λ e h. Handled-trans p.output h

body_Handled : (c : HttpContext) → IsValid c.input_buffer → Handled c (parse_message_body c)
unfolding parse_message_body
body_Handled c v = record { valid = v; output = refl; way = inl (refl, refl) }

header-ends :
    (k : ℕ) (c : HttpContext)
    → IsValid c.input_buffer
    → c.check_state ≡ check_header
    → Total k
    → length (contents c.input_buffer) + 2 ≤ suc k
    → Returns (Handled c) (request_loop line_ok (suc k) c)
header-ends k c v e total f =
    let d = parse_message_header c in
    let p = parse_message_header-LineParsed c (ground arith) in
    rw (round-header k c e) (elim (Bool-cases (is_bad d)) [
      | inl b ↦ rw b (bad_Handled c d v p b)
      | inr g ↦ rw g (elim (Bool-cases (is_body d)) [
        | inl at_body ↦ rw at_body (
            Returns-map (Handled d) (Handled c) (request_loop line_ok k d)
              (total line_ok d (rw p.input v) (ground arith) λ ok. inr (omega arith, ground arith))
              λ x h. Handled-trans p.output h)
        | inr more ↦ rw more (later-ends k c d total v p (ground arith) f)
      ])
    ])

request_loop-ends : (k : ℕ) → Total k
unfolding request_loop
request_loop-ends k line_open c v h f =
    (_, refl, record { valid = v; output = refl; way = inr (inl (refl, h)) })
request_loop-ends k line_bad c v h f =
    (_, refl, record { valid = v; output = refl; way = inr (inr refl) })
request_loop-ends zero line_ok c v h f = absurd (omega (arith, f refl))
request_loop-ends (suc k) line_ok c v h f = elim (CheckState-cases c.check_state) [
  | inl e ↦
      let d = parse_request_line c in
      let p = parse_request_line-LineParsed c in
      let f' : length (contents c.input_buffer) + 2 ≤ suc k = ground (arith, f refl) in
      rw (round-request_line k c e) (elim (Bool-cases (is_bad d)) [
        | inl b ↦ rw b (bad_Handled c d v p b)
        | inr g ↦ rw g (later-ends k c d (request_loop-ends k) v p (ground arith) f')
      ])
  | inr (inl e) ↦ header-ends k c v e (request_loop-ends k) (ground (arith, f refl))
  | inr (inr (inl e)) ↦ rw (round-body k c e) (_, refl, body_Handled c v)
  | inr (inr (inr e)) ↦ absurd (h e)
]

-- handleHttpRequest in any state but CHECK_STATE_END, on a valid input buffer: the loop ends. The
-- response buffer is untouched, the input buffer is valid, and the request is complete exactly in
-- the state CHECK_STATE_END; otherwise more bytes are wanted, or the request is bad.
pub handle_http_request_total :
    (c : HttpContext)
    → IsValid c.input_buffer
    → c.check_state ≢ check_end
    → Returns (Handled c) (handle_http_request c)
unfolding handle_http_request parse_line
handle_http_request_total c v h =
    let r = parse_line_correct c v in
    let d = (parse_line c).0 in
    Returns-map (Handled d) (Handled c)
      (request_loop (parse_line c).1 (length (contents d.input_buffer) + 3) d)
      (request_loop-ends (length (contents d.input_buffer) + 3) (parse_line c).1 d r.valid h
        (λ ok. inl (omega arith)))
      λ e p. Handled-trans refl p

same_state :
    (c : HttpContext) → c.check_state ≡ check_end → (parse_line c).0.check_state ≡ check_end
unfolding parse_line
same_state c e = e

stuck :
    (k : ℕ) (c : HttpContext)
    → c.check_state ≡ check_end
    → request_loop line_ok k c ≡ stop out_of_fuel
unfolding request_loop
stuck zero c e = refl
stuck (suc k) c e = round-end k c e ∙ stuck k c e

-- In the state CHECK_STATE_END a whole line in the buffer makes the loop of handleHttpRequest run
-- for ever: no number of rounds ends it.
pub handle_http_request_stuck :
    (c : HttpContext) (k : ℕ)
    → c.check_state ≡ check_end
    → (parse_line c).1 ≡ line_ok
    → request_loop (parse_line c).1 k (parse_line c).0 ≡ stop out_of_fuel
handle_http_request_stuck c k e ok = rw ok (stuck k (parse_line c).0 (same_state c e))
