-- ===== src/HttpContext/Reply.antt =====
-- work() on any context that is not at CHECK_STATE_END: it ends, with a response of bounded length.
use wserver.Prelude.{
  ℕ, ◌+◌, ◌^◌, ◌<◌, ◌≤◌, ◌≡◌, ◌≢◌, refl, ap, ◌∙◌, inl, inr, List, ◌++◌, length, length-append,
  codes, Returns, Returns-bind, Bool-cases, bytes_eq, arith,
}
use wserver.Buffer.{contents, append}
use wserver.Buffer.Append.{IsValid, Appended, append_correct}
use wserver.HttpContext.{
  HttpContext, HttpVersion, http_1_0, http_1_1, check_end, handle_http_request,
}
use wserver.HttpContext.Response.{
  version_text, html_page, favicon_page, found_page, response, get_http_response, work,
}
use wserver.HttpContext.Termination.{Handled, handle_http_request_total}
use wserver.HttpContext.Work.{refusal, response-get_request, response-refusal}

version_bound : (v : HttpVersion) → length (version_text v) ≡ 9
version_bound http_1_0 = refl
version_bound http_1_1 = refl

html_bound : (now : List ℕ) → length (html_page now) ≤ 250 + length now
html_bound now = let e = length-append now (codes "</body></html>") in omega (arith, e)

found_page_bound : (uri now : List ℕ) → length (found_page uri now) ≤ 250 + length now
unfolding found_page favicon_page
found_page_bound uri now = elim (Bool-cases (bytes_eq uri (codes "/"))) [
  | inl a ↦ rw a (html_bound now)
  | inr a ↦ elim (Bool-cases (bytes_eq uri (codes "/favicon.ico"))) [
    | inl b ↦ rw (a, b) (omega arith)
    | inr b ↦ elim (Bool-cases (bytes_eq uri (codes "/hello"))) [
      | inl c ↦ rw (a, b, c) (omega arith)
      | inr c ↦ rw (a, b, c) (omega arith)
    ]
  ]
]

response_bound :
    (c d : HttpContext) (now : List ℕ) → Handled c d → length (response d now) ≤ 259 + length now
response_bound c d now h = elim h.way [
  | inl g ↦
      rw
        (
          response-get_request d now g.0,
          length-append (version_text d.version) (found_page d.uri now),
          version_bound d.version,
        )
        (omega (arith, found_page_bound d.uri now))
  | inr (inl n) ↦ refused (response-refusal d now (inl n.0))
  | inr (inr b) ↦ refused (response-refusal d now (inr b))
]
  where
    refused :
        response d now ≡ version_text d.version ++ refusal
        → length (response d now) ≤ 259 + length now
    refused e =
        rw (e, length-append (version_text d.version) refusal, version_bound d.version)
          (omega arith)

-- What work leaves: the response for the parsed request behind the bytes that were to be sent.
pub record Replied (c : HttpContext) (now : List ℕ) (d : HttpContext) : Type 0 where
  pub input : IsValid d.input_buffer
  pub output : IsValid d.output_buffer
  pub sent : contents d.output_buffer ≡ contents c.output_buffer ++ response d now

-- work on valid buffers, in any state but CHECK_STATE_END and while the output indices stay below
-- 2 ^ 31: the call ends, whatever bytes arrived, both buffers are valid, and the response to the
-- state that the parser reached stands behind the bytes that were to be sent before.
pub work_total :
    (c : HttpContext) (now : List ℕ)
    → IsValid c.input_buffer
    → IsValid c.output_buffer
    → c.check_state ≢ check_end
    → c.output_buffer.write_index + (259 + length now) < 2 ^ 31
    → Returns (Replied c now) (work c now)
unfolding work get_http_response response
work_total c now v w n room =
    Returns-bind (Handled c) (Replied c now) (handle_http_request c) _
      (handle_http_request_total c v n)
      λ d h.
        let fits : d.output_buffer.write_index + length (response d now) < 2 ^ 31 =
          rw h.output (omega (arith, response_bound c d now h, room)) in
        Returns-bind (Appended d.output_buffer (response d now)) (Replied c now)
          (append d.output_buffer (response d now)) _
          (append_correct d.output_buffer (response d now) (rw h.output w) fits)
          λ b a. (
            _,
            refl,
            record {
              input = h.valid;
              output = a.valid;
              sent = a.same ∙ ap (λ x. contents x ++ response d now) h.output;
            },
          )
