-- ===== src/HttpContext.antt =====
-- HttpContext.h and HttpContext.cpp: the state machine that parses a request.
-- `m_status_code` and `m_status_message` are written by two setters that nothing calls, and are
-- left out.
mod Favicon
mod Tests
pub mod Response
pub mod Lines
pub mod Termination
pub mod Request
pub mod Parse
pub mod Work
pub mod Reply
use wserver.Prelude.{
  ℕ, zero, suc, ◌+◌, ◌-◌, ◌≡◌, Bool, true, false, not, ◌&&◌, ◌||◌, List, [], ◌∷◌, ◌++◌, length,
  take, drop, get_or, codes, bytes_eq, Exec, done, stop, out_of_fuel, ◌>>=◌, ltb, leb, ◌==◌,
  if◌then◌else◌,
}
use wserver.Buffer.{Buffer, slice, contents, cr, lf, append, get_an_http_line, retrieve_all}

pub data Method : Type 0 where
  get head : Method

pub data CheckState : Type 0 where
  check_request_line check_header check_body check_end : CheckState

pub data LineState : Type 0 where
  line_ok line_bad line_open : LineState

pub data RequestState : Type 0 where
  no_request get_request bad_request forbidden_request : RequestState
  internal_error closed_connection : RequestState

pub data HttpVersion : Type 0 where
  http_1_0 http_1_1 : HttpVersion

pub data Connection : Type 0 where
  close keep_alive : Connection

pub record HttpContext : Type 0 where
  pub method : Method
  pub version : HttpVersion
  pub connection : Connection
  pub request_state : RequestState
  pub check_state : CheckState
  pub uri : List ℕ
  pub new_line : List ℕ
  pub input_buffer : Buffer
  pub output_buffer : Buffer

unfoldable pub new : Buffer → Buffer → HttpContext
new input output = record {
  method = get;
  version = http_1_0;
  connection = close;
  request_state = no_request;
  check_state = check_request_line;
  uri = [];
  new_line = [];
  input_buffer = input;
  output_buffer = output;
}

unfoldable pub reset : HttpContext → HttpContext
unfolding retrieve_all
reset c = record c {
  method = get;
  version = http_1_0;
  connection = keep_alive;
  request_state = no_request;
  check_state = check_request_line;
  uri = [];
  new_line = [];
  input_buffer = retrieve_all c.input_buffer;
}

unfoldable pub is_keep_alive : HttpContext → Bool
is_keep_alive c = elim c.connection [ keep_alive ↦ true | close ↦ false ]

-- The loop of parseLine: CR LF becomes two NULs, and a CR before another byte is an error.
unfoldable pub mark_end : List ℕ → List ℕ × LineState
mark_end [] = ([], line_open)
mark_end (a ∷ []) = (a ∷ [], line_open)
mark_end (a ∷ b ∷ rest) =
    let later = mark_end (b ∷ rest) in
    if a == cr
    then (if b == lf then (0 ∷ 0 ∷ rest, line_ok) else (a ∷ b ∷ rest, line_bad))
    else (a ∷ later.0, later.1)

unfoldable pub parse_line : HttpContext → HttpContext × LineState
parse_line c =
    let taken = get_an_http_line c.input_buffer in
    let marked = mark_end taken.0 in
    (record c { new_line = marked.0; input_buffer = taken.1 }, marked.1)

-- `while (p(line[end])) ++end;` over the bytes of the line from `end` on. At the index size() a
-- std::string reads NUL, at which each of the tests below is false.
unfoldable pub scan : (ℕ → Bool) → List ℕ → ℕ → ℕ
scan p [] end = end
scan p (c ∷ cs) end = if p c then scan p cs (suc end) else end

abbrev pub in_token : ℕ → Bool
in_token c = not (c == b' ') && not (c == 0)

abbrev pub is_space : ℕ → Bool
is_space c = (c == b' ') && not (c == 0)

unfoldable pub token_end : List ℕ → ℕ → ℕ
token_end line end = scan in_token (drop end line) end

unfoldable pub skip_spaces : List ℕ → ℕ → ℕ
skip_spaces line end = scan is_space (drop end line) end

abbrev pub bad : HttpContext → HttpContext
bad c = record c { request_state = bad_request }

-- The end of parseRequestLine, once the version is known.
abbrev pub line_parsed : HttpContext → HttpVersion → HttpContext
line_parsed c v = record c { version = v; check_state = check_header; request_state = no_request }

-- parseRequestLine from the comparison of the version on.
abbrev pub parse_version : HttpContext → List ℕ → HttpContext
parse_version c text =
    if bytes_eq text (codes "HTTP/1.0")
    then line_parsed c http_1_0
    else if bytes_eq text (codes "HTTP/1.1")
    then line_parsed c http_1_1
    else bad c

-- parseRequestLine from "get URI" on, with `end` behind the method.
unfoldable pub parse_uri_version : HttpContext → ℕ → HttpContext
parse_uri_version c end =
    let line = c.new_line in
    let uri_start = skip_spaces line end in
    let uri_end = token_end line uri_start in
    let start = skip_spaces line uri_end in
    let text = slice line start (token_end line start) in
    parse_version (record c { uri = slice line uri_start uri_end }) text

unfoldable pub parse_request_line : HttpContext → HttpContext
parse_request_line c =
    let end = token_end c.new_line 0 in
    let text = slice c.new_line 0 end in
    if bytes_eq text (codes "GET")
    then parse_uri_version (record c { method = get }) end
    else if bytes_eq text (codes "HEAD")
    then parse_uri_version (record c { method = head }) end
    else bad c

-- tolower() of the C locale.
abbrev pub to_lower : ℕ → ℕ
to_lower c = if leb b'A' c && leb c b'Z' then c + 32 else c

-- `strncasecmp(s, t, n) == 0`; both arguments end with a NUL behind their last byte.
unfoldable pub strncasecmp_eq : ℕ → List ℕ → List ℕ → Bool
strncasecmp_eq zero s t = true
strncasecmp_eq (suc n) [] [] = true
strncasecmp_eq (suc n) [] (b ∷ t) = b == 0
strncasecmp_eq (suc n) (a ∷ s) [] = a == 0
strncasecmp_eq (suc n) (a ∷ s) (b ∷ t) =
    (to_lower a == to_lower b) && ((a == 0) || strncasecmp_eq n s t)

-- `!m_new_line.empty() && m_new_line[0] == '\0'`
abbrev pub starts_with_nul : List ℕ → Bool
starts_with_nul [] = false
starts_with_nul (c ∷ cs) = c == 0

unfoldable pub parse_message_header : HttpContext → HttpContext
parse_message_header c =
    let line = c.new_line in
    let start = scan (λ b. b == b' ') (drop 11 line) 11 in
    let ok = record c { request_state = no_request } in
    if starts_with_nul line
    then record c { check_state = check_body; request_state = no_request }
    else if strncasecmp_eq 11 line (codes "Connection:")
    then (if strncasecmp_eq 10 (drop start line) (codes "Keep-Alive")
        then record ok { connection = keep_alive }
        else bad c)
    else ok

unfoldable pub parse_message_body : HttpContext → HttpContext
parse_message_body c = record c { check_state = check_end; request_state = get_request }

abbrev pub is_bad : HttpContext → Bool
is_bad c = elim c.request_state [ bad_request ↦ true | _ ↦ false ]

abbrev pub is_body : HttpContext → Bool
is_body c = elim c.check_state [ check_body ↦ true | _ ↦ false ]

-- The `while` of handleHttpRequest, with what follows it. In the state CHECK_STATE_END none of the
-- branches is taken, and nothing changes.
unfoldable pub request_loop : LineState → ℕ → HttpContext → Exec HttpContext
request_loop line_open k c = done (record c { request_state = no_request })
request_loop line_bad k c = done (bad c)
request_loop line_ok zero c = stop out_of_fuel
request_loop line_ok (suc k) c =
    let next = λ (d : HttpContext). let r = parse_line d in request_loop r.1 k r.0 in
    elim c.check_state [
      | check_request_line ↦
          let d = parse_request_line c in let more = next d in if is_bad d then done d else more
      | check_header ↦
          let d = parse_message_header c in
          let more = next d in
          let same = request_loop line_ok k d in
          if is_bad d then done d else if is_body d then same else more
      | check_body ↦ done (parse_message_body c)
      | check_end ↦ request_loop line_ok k c
    ]

-- The loop takes a round for each line, of two bytes at least, and two more for the body.
unfoldable pub handle_http_request : HttpContext → Exec HttpContext
handle_http_request c =
    let r = parse_line c in request_loop r.1 (length (contents r.0.input_buffer) + 3) r.0
