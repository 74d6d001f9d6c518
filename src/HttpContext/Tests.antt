-- ===== src/HttpContext/Tests.antt =====
-- Runs of the request parser, and the theorems at concrete inputs.
use wserver.Prelude.{
  ℕ, ◌≡◌, refl, List, [], ◌∷◌, ◌++◌, codes, length, stop, out_of_fuel, Returns, arith,
}
use wserver.Buffer.{Buffer, scan_line, get_an_http_line}
use wserver.Buffer.Append.{IsValid}
use wserver.Buffer.Line.{line_end}
use wserver.HttpContext.{
  HttpContext, new, get, http_1_1, line_ok, check_end, bad_request, mark_end, parse_line, scan,
  strncasecmp_eq, parse_message_header, request_loop, handle_http_request, http_1_0,
}
use wserver.HttpContext.Response.{version_text, work}
use wserver.HttpContext.Favicon.{favicon, c_string}
use wserver.HttpContext.Termination.{handle_http_request_stuck}
use wserver.HttpContext.Reply.{Replied, work_total}
use wserver.HttpContext.Work.{refusal, Answered, work-incomplete}
use wserver.HttpContext.Request.{keep_alive_header, other_header}
use wserver.HttpContext.Parse.{
  Request, IsRequest, request_text, asked, Complete, handle_http_request-request_text,
}

-- A buffer that holds exactly these bytes.
abbrev holding : List ℕ → Buffer
holding text = record { read_index = 0; write_index = length text; storage = text }

abbrev index_request : Request
index_request = record {
  method = get;
  uri = codes "/hello";
  version = http_1_1;
  headers = other_header (codes "Host: a") ∷ keep_alive_header ∷ [];
}

index_request-IsRequest : IsRequest index_request
unfolding strncasecmp_eq
index_request-IsRequest = record {
  word = record { nonempty = λ e. cc; plain = (refl, (refl, (refl, (refl, (refl, (refl, tt)))))) };
  no_cr = omega arith;
  headers = (record { no_cr = omega arith; started = refl; foreign = refl }, (tt, tt));
}

abbrev asking : HttpContext
unfolding new
asking = new (holding (request_text index_request (codes "next"))) (holding [])

holding-IsValid : IsValid (holding (request_text index_request (codes "next")))
holding-IsValid = record { ordered = omega arith; inside = omega arith; small = omega arith }

-- The array of 555 bytes has a NUL behind its first eight, so these are all that is sent.
favicon_cut : length (c_string favicon) ≡ 8
unfolding favicon c_string
favicon_cut = refl

-- A client that asks for the connection to be closed is refused.
close_refused :
    (parse_message_header
      (record asking { new_line = codes "Connection: close" ++ 0 ∷ 0 ∷ [] })).request_state
    ≡ bad_request
unfolding new parse_message_header strncasecmp_eq scan
close_refused = refl

handle_http_request-request_text_example :
    Returns
      (Complete (asked asking index_request) index_request.headers (codes "next"))
      (handle_http_request asking)
unfolding new
handle_http_request-request_text_example =
    handle_http_request-request_text asking index_request (codes "next") holding-IsValid refl refl
      index_request-IsRequest

-- A context whose request was answered, with another request in the buffer.
abbrev answered : HttpContext
unfolding new
answered = record asking { check_state = check_end }

answered_line : (parse_line answered).1 ≡ line_ok
unfolding new parse_line mark_end get_an_http_line scan_line
answered_line = refl

handle_http_request_stuck_example :
    request_loop (parse_line answered).1 100 (parse_line answered).0 ≡ stop out_of_fuel
unfolding new
handle_http_request_stuck_example = handle_http_request_stuck answered 100 refl answered_line

-- Half of a request line.
abbrev halfway : HttpContext
unfolding new
halfway = new (holding (codes "GET /hel")) (holding [])

work-incomplete_example :
    Returns (Answered halfway (version_text http_1_0 ++ refusal)) (work halfway [])
unfolding new line_end
work-incomplete_example =
    work-incomplete halfway []
      (record { ordered = omega arith; inside = omega arith; small = omega arith })
      (record { ordered = omega arith; inside = omega arith; small = omega arith }) refl
      (omega arith)

work_total_example : Returns (Replied asking []) (work asking [])
unfolding asking
work_total_example =
    work_total asking [] holding-IsValid
      (record { ordered = omega arith; inside = omega arith; small = omega arith }) (λ e. cc)
      (omega arith)
