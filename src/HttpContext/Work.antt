-- ===== src/HttpContext/Work.antt =====
-- work(): from the bytes of a request to the bytes of its response.
use wserver.Prelude.{
  ℕ, ◌+◌, ◌-◌, ◌^◌, ◌<◌, ◌≡◌, ◌≢◌, ◌⊎◌, refl, sym, ap, subst, ◌∙◌, inl, inr, none, List, ◌++◌,
  length, codes, Returns, Returns-map, Returns-bind, arith,
}
use wserver.Buffer.{contents, append, get_an_http_line}
use wserver.Buffer.Append.{IsValid, Appended, append_correct}
use wserver.Buffer.Line.{line_end, get_an_http_line_correct}
use wserver.HttpContext.{
  HttpContext, LineState, line_ok, line_bad, line_open, check_request_line, no_request, get_request,
  bad_request, mark_end, parse_line, request_loop, handle_http_request,
}
use wserver.HttpContext.Response.{version_text, crlf, found_page, response, get_http_response, work}
use wserver.HttpContext.Lines.{mark_end-open, line_end-take}
use wserver.HttpContext.Parse.{
  Request, IsRequest, request_text, asked, headers_effect, Complete,
  handle_http_request-request_text,
}

abbrev pub refusal : List ℕ
refusal = codes "400 Bad Request" ++ crlf ++ codes "Connection: close" ++ crlf ++ crlf

pub response-get_request :
    (c : HttpContext) (now : List ℕ)
    → c.request_state ≡ get_request
    → response c now ≡ version_text c.version ++ found_page c.uri now
unfolding response
response-get_request c now e = rw (e, response) refl

pub response-refusal :
    (c : HttpContext) (now : List ℕ)
    → (c.request_state ≡ no_request) ⊎ (c.request_state ≡ bad_request)
    → response c now ≡ version_text c.version ++ refusal
unfolding response
response-refusal c now (inl e) = rw (e, response) refl
response-refusal c now (inr e) = rw (e, response) refl

-- What work leaves: the response behind the bytes that were to be sent before.
pub record Answered (c : HttpContext) (text : List ℕ) (d : HttpContext) : Type 0 where
  pub valid : IsValid d.output_buffer
  pub sent : contents d.output_buffer ≡ contents c.output_buffer ++ text

-- The response to the context `d`, and nothing else of it changed.
record Written (c d : HttpContext) (text : List ℕ) (d' : HttpContext) : Type 0 where
  answered : Answered c text d'
  kept : d' ≡ record d { output_buffer = d'.output_buffer }

get_http_response_correct :
    (c d : HttpContext) (now text : List ℕ)
    → d.output_buffer ≡ c.output_buffer
    → response d now ≡ text
    → IsValid c.output_buffer
    → c.output_buffer.write_index + length text < 2 ^ 31
    → Returns (Written c d text) (get_http_response d now)
unfolding get_http_response
get_http_response_correct c d now text o e v h = rw e (
    Returns-bind (Appended d.output_buffer text) (Written c d text) (append d.output_buffer text) _
      (append_correct d.output_buffer text (rw o v) (rw o h))
      λ b a.
        let answered : Answered c text (record d { output_buffer = b }) = record {
          valid = a.valid;
          sent = a.same ∙ ap (λ x. contents x ++ text) o;
        } in
        (_, refl, record { answered = answered; kept = refl }))

-- What work leaves of a context whose input held the request `r` and the bytes `rest`.
pub record Finished (c : HttpContext) (r : Request) (rest text : List ℕ) (d : HttpContext)
    : Type 0 where
  pub answered : Answered c text d
  pub connection : d.connection ≡ headers_effect r.headers c.connection
  pub input : IsValid d.input_buffer
  pub left : contents d.input_buffer ≡ rest

pub work-Finished :
    (c : HttpContext) (r : Request) (rest now : List ℕ)
    → IsValid c.input_buffer
    → IsValid c.output_buffer
    → c.check_state ≡ check_request_line
    → contents c.input_buffer ≡ request_text r rest
    → IsRequest r
    → c.output_buffer.write_index + length (version_text r.version ++ found_page r.uri now) < 2 ^ 31
    → Returns (Finished c r rest (version_text r.version ++ found_page r.uri now)) (work c now)
unfolding work
work-Finished c r rest now v w e t is h =
    let text = version_text r.version ++ found_page r.uri now in
    Returns-bind (Complete (asked c r) r.headers rest) (Finished c r rest text)
      (handle_http_request c) _ (handle_http_request-request_text c r rest v e t is)
      λ d p.
        let same : response d now ≡ text =
          response-get_request d now p.request_state
          ∙ ap (λ x. version_text x ++ found_page d.uri now) p.version
          ∙ ap (λ x. version_text r.version ++ found_page x now) p.uri in
        Returns-map (Written c d text) (Finished c r rest text) (get_http_response d now)
          (get_http_response_correct c d now text p.output same w h)
          λ d' q. record {
            answered = q.answered;
            connection = ap (λ x. x.connection) q.kept ∙ p.connection;
            input = subst (λ x. IsValid x.input_buffer) (sym q.kept) p.valid;
            left = ap (λ x. contents x.input_buffer) q.kept ∙ p.left;
          }

-- work on a context that waits for a request line, with valid buffers, where the input holds a
-- well-formed request and any bytes after it: the response is the status line of the request's
-- version and the page for its URI, behind the bytes that the output buffer held.
pub work-request_text :
    (c : HttpContext) (r : Request) (rest now : List ℕ)
    → IsValid c.input_buffer
    → IsValid c.output_buffer
    → c.check_state ≡ check_request_line
    → contents c.input_buffer ≡ request_text r rest
    → IsRequest r
    → c.output_buffer.write_index + length (version_text r.version ++ found_page r.uri now) < 2 ^ 31
    → Returns (Answered c (version_text r.version ++ found_page r.uri now)) (work c now)
work-request_text c r rest now v w e t is h =
    let text = version_text r.version ++ found_page r.uri now in
    Returns-map (Finished c r rest text) (Answered c text) (work c now)
      (work-Finished c r rest now v w e t is h) λ d p. p.answered

-- What handleHttpRequest leaves where no line is whole.
record Refused (c d : HttpContext) : Type 0 where
  state : (d.request_state ≡ no_request) ⊎ (d.request_state ≡ bad_request)
  version : d.version ≡ c.version
  output : d.output_buffer ≡ c.output_buffer

LineState-cases : (s : LineState) → s ≢ line_ok → (s ≡ line_open) ⊎ (s ≡ line_bad)
LineState-cases s h = ground arith

refused :
    (c : HttpContext)
    → IsValid c.input_buffer
    → line_end (contents c.input_buffer) ≡ none
    → Returns (Refused c) (handle_http_request c)
unfolding handle_http_request request_loop parse_line
refused c v e =
    let t = get_an_http_line_correct c.input_buffer v in
    let line = (get_an_http_line c.input_buffer).0 in
    let open_end : line_end line ≡ none =
      rw (t.line, e)
        (line_end-take (length (contents c.input_buffer) - 1) (contents c.input_buffer) e) in
    elim (LineState-cases (mark_end line).1 (mark_end-open line open_end)) [
      | inl o ↦ rw o (_, refl, record { state = inl refl; version = refl; output = refl })
      | inr b ↦ rw b (_, refl, record { state = inr refl; version = refl; output = refl })
    ]

-- work where the bytes that have arrived hold no whole line: although the rest of the request may
-- still be on its way, the response "400 Bad Request" is appended.
pub work-incomplete :
    (c : HttpContext) (now : List ℕ)
    → IsValid c.input_buffer
    → IsValid c.output_buffer
    → line_end (contents c.input_buffer) ≡ none
    → c.output_buffer.write_index + length (version_text c.version ++ refusal) < 2 ^ 31
    → Returns (Answered c (version_text c.version ++ refusal)) (work c now)
unfolding work
work-incomplete c now v w e h =
    Returns-bind (Refused c) (Answered c (version_text c.version ++ refusal))
      (handle_http_request c) _ (refused c v e)
      λ d p.
        let same : response d now ≡ version_text c.version ++ refusal =
          response-refusal d now p.state ∙ ap (λ x. version_text x ++ refusal) p.version in
        let text = version_text c.version ++ refusal in
        Returns-map (Written c d text) (Answered c text) (get_http_response d now)
          (get_http_response_correct c d now text p.output same w h) λ d' q. q.answered
