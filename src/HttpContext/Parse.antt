-- ===== src/HttpContext/Parse.antt =====
-- handleHttpRequest reads back every request that is written as the source expects it.
use wserver.Prelude.{
  ℕ, zero, suc, ◌+◌, ◌≤◌, ◌≡◌, refl, sym, ◌∙◌, List, [], ◌∷◌, ◌++◌, length, length-append,
  append_assoc, append-nil, done, Returns, Returns-map, arith,
}
use wserver.Buffer.{contents, cr, lf}
use wserver.Buffer.Append.{IsValid}
use wserver.HttpContext.{
  HttpContext, Method, get, head, HttpVersion, http_1_0, http_1_1, Connection, line_ok,
  check_request_line, check_header, check_body, check_end, no_request, get_request, parse_line,
  parse_message_body, request_loop, handle_http_request, line_parsed,
}
use wserver.HttpContext.Lines.{NoCr, parse_line-crlf}
use wserver.HttpContext.Termination.{round-request_line, round-header, round-body}
use wserver.HttpContext.Request.{
  IsToken, Header, keep_alive_header, other_header, header_text, header_effect, IsHeader,
  request_line, method_name, version_name, parse_request_line_lem, parse_message_header_lem,
  parse_message_header-empty,
}

abbrev pub IsHeaders : List Header → Type 0
IsHeaders [] = Unit {0}
IsHeaders (h ∷ hs) = IsHeader h × IsHeaders hs

abbrev pub headers_text : List Header → List ℕ → List ℕ
headers_text [] rest = cr ∷ lf ∷ rest
headers_text (h ∷ hs) rest = header_text h ++ cr ∷ lf ∷ headers_text hs rest

abbrev pub headers_effect : List Header → Connection → Connection
headers_effect [] k = k
headers_effect (h ∷ hs) k = headers_effect hs (header_effect h k)

-- What a whole request leaves.
pub record Complete (c : HttpContext) (hs : List Header) (rest : List ℕ) (d : HttpContext)
    : Type 0 where
  pub method : d.method ≡ c.method
  pub version : d.version ≡ c.version
  pub uri : d.uri ≡ c.uri
  pub connection : d.connection ≡ headers_effect hs c.connection
  pub request_state : d.request_state ≡ get_request
  pub check_state : d.check_state ≡ check_end
  pub valid : IsValid d.input_buffer
  pub left : contents d.input_buffer ≡ rest
  pub output : d.output_buffer ≡ c.output_buffer

header-NoCr : (h : Header) → IsHeader h → NoCr (header_text h)
header-NoCr keep_alive_header v = omega arith
header-NoCr (other_header text) v = v.no_cr

-- The two rounds for the empty line.
empty_line :
    (k : ℕ) (c : HttpContext)
    → c.check_state ≡ check_header
    → c.new_line ≡ 0 ∷ 0 ∷ []
    → request_loop line_ok (suc (suc k)) c
      ≡ done (record c { check_state = check_end; request_state = get_request })
unfolding parse_message_body
empty_line k c e n =
    let d = record c { check_state = check_body; request_state = no_request } in
    round-header (suc k) c e ∙ rw (parse_message_header-empty c n) (round-body k d refl)

-- One round for a header, up to the call of parseLine.
header_line :
    (k : ℕ) (c : HttpContext) (h : Header)
    → c.check_state ≡ check_header
    → c.new_line ≡ header_text h ++ 0 ∷ 0 ∷ []
    → IsHeader h
    → let d = record c { connection = header_effect h c.connection; request_state = no_request } in
      request_loop line_ok (suc k) c ≡ request_loop (parse_line d).1 k (parse_line d).0
header_line k c h e n v = round-header k c e ∙ rw (parse_message_header_lem c h n v) (ground arith)

length-headers_text :
    (hs : List Header) (rest : List ℕ) → length hs + 2 ≤ length (headers_text hs rest)
length-headers_text [] rest = omega arith
length-headers_text (h ∷ hs) rest = omega (
  arith,
  length-append (header_text h) (cr ∷ lf ∷ headers_text hs rest),
  length-headers_text hs rest,
)

headers_parsed :
    (k : ℕ) (c : HttpContext) (hs : List Header) (rest : List ℕ)
    → IsValid c.input_buffer
    → c.check_state ≡ check_header
    → contents c.input_buffer ≡ headers_text hs rest
    → IsHeaders hs
    → length hs + 2 ≤ k
    → Returns (Complete c hs rest) (request_loop (parse_line c).1 k (parse_line c).0)
headers_parsed (suc (suc k)) c [] rest v e t hs f =
    let (b, p, v', left) = parse_line-crlf c [] rest v t tt in
    let d = record c { new_line = 0 ∷ 0 ∷ []; input_buffer = b } in
    rw (p, empty_line k d e refl)
      (
        _,
        refl,
        record {
          method = refl;
          version = refl;
          uri = refl;
          connection = refl;
          request_state = refl;
          check_state = refl;
          valid = v';
          left = left;
          output = refl;
        },
      )
headers_parsed (suc k) c (h ∷ hs) rest v e t valid f =
    let (b, p, v', left) =
      parse_line-crlf c (header_text h) (headers_text hs rest) v t (header-NoCr h valid.0) in
    let d = record c { new_line = header_text h ++ 0 ∷ 0 ∷ []; input_buffer = b } in
    let d' = record d { connection = header_effect h c.connection; request_state = no_request } in
    rw (p, header_line k d h e refl valid.0)
      (Returns-map (Complete d' hs rest) (Complete c (h ∷ hs) rest) _
        (headers_parsed k d' hs rest v' e left valid.1 (omega arith))
        λ x done. record {
          method = done.method;
          version = done.version;
          uri = done.uri;
          connection = done.connection;
          request_state = done.request_state;
          check_state = done.check_state;
          valid = done.valid;
          left = done.left;
          output = done.output;
        })
headers_parsed zero c hs rest v e t valid f = absurd (omega arith)
headers_parsed (suc zero) c [] rest v e t hs f = absurd (omega arith)

NoCr-append : (xs ys : List ℕ) → NoCr xs → NoCr ys → NoCr (xs ++ ys)
NoCr-append [] ys h k = k
NoCr-append (x ∷ xs) ys h k = (h.0, NoCr-append xs ys h.1 k)

request_line-append :
    (m : Method) (uri : List ℕ) (v : HttpVersion) (end : List ℕ)
    → request_line m uri v [] ++ end ≡ request_line m uri v end
request_line-append m uri v end = simp (append_assoc, append-nil)

request_line-NoCr :
    (m : Method) (uri : List ℕ) (v : HttpVersion) → NoCr uri → NoCr (request_line m uri v [])
request_line-NoCr m uri v h =
    NoCr-append (method_name m) _ (method m) (
      omega arith,
      NoCr-append uri _ h (omega arith, NoCr-append (version_name v) [] (version v) tt),
    )
  where
    method : (m : Method) → NoCr (method_name m)
    method get = omega arith
    method head = omega arith

    version : (v : HttpVersion) → NoCr (version_name v)
    version http_1_0 = omega arith
    version http_1_1 = omega arith

request_line_step :
    (k : ℕ) (c : HttpContext) (m : Method) (uri : List ℕ) (v : HttpVersion)
    → c.check_state ≡ check_request_line
    → c.new_line ≡ request_line m uri v (0 ∷ 0 ∷ [])
    → IsToken uri
    → let d = line_parsed (record c { method = m; uri = uri }) v in
      request_loop line_ok (suc k) c ≡ request_loop (parse_line d).1 k (parse_line d).0
request_line_step k c m uri v e n t =
    round-request_line k c e ∙ rw (parse_request_line_lem c m uri v n t) refl

-- A request: a method, an URI that is one word, a version, and headers.
pub record Request : Type 0 where
  pub method : Method
  pub uri : List ℕ
  pub version : HttpVersion
  pub headers : List Header

pub record IsRequest (r : Request) : Type 0 where
  pub word : IsToken r.uri
  pub no_cr : NoCr r.uri
  pub headers : IsHeaders r.headers

abbrev pub request_text : Request → List ℕ → List ℕ
request_text r rest = request_line r.method r.uri r.version (cr ∷ lf ∷ headers_text r.headers rest)

abbrev pub asked : HttpContext → Request → HttpContext
asked c r = record c { method = r.method; uri = r.uri; version = r.version }

-- handleHttpRequest, waiting for a request line on a valid buffer that holds a well-formed request
-- and any bytes after it, ends with the request complete: its method, URI and version are those of
-- the request, the connection is kept alive if a header says so (else as it was), the bytes after
-- the request stay in the buffer, and the response buffer is as it was.
pub handle_http_request-request_text :
    (c : HttpContext) (r : Request) (rest : List ℕ)
    → IsValid c.input_buffer
    → c.check_state ≡ check_request_line
    → contents c.input_buffer ≡ request_text r rest
    → IsRequest r
    → Returns (Complete (asked c r) r.headers rest) (handle_http_request c)
unfolding handle_http_request
handle_http_request-request_text c r rest v e t is =
    let line = request_line r.method r.uri r.version [] in
    let after = headers_text r.headers rest in
    let whole = t ∙ sym (request_line-append r.method r.uri r.version (cr ∷ lf ∷ after)) in
    let (b, p, v', left) =
      parse_line-crlf c line after v whole (request_line-NoCr r.method r.uri r.version is.no_cr) in
    let d = record c { new_line = line ++ 0 ∷ 0 ∷ []; input_buffer = b } in
    let marked = request_line-append r.method r.uri r.version (0 ∷ 0 ∷ []) in
    let d' = line_parsed (record d { method = r.method; uri = r.uri }) r.version in
    let k = length (contents b) + 2 in
    let fuel : length (contents b) + 3 ≡ suc k = omega arith in
    let enough : length r.headers + 2 ≤ k =
      rw left (omega (arith, length-headers_text r.headers rest)) in
    rw (p, fuel, request_line_step k d r.method r.uri r.version e marked is.word)
      (Returns-map (Complete d' r.headers rest) (Complete (asked c r) r.headers rest) _
        (headers_parsed k d' r.headers rest v' refl left is.headers enough)
        λ x done. record {
          method = done.method;
          version = done.version;
          uri = done.uri;
          connection = done.connection;
          request_state = done.request_state;
          check_state = done.check_state;
          valid = done.valid;
          left = done.left;
          output = done.output;
        })
