-- ===== src/HttpContext/Request.antt =====
-- A request as the source expects it, written out; and what one parsed line of it gives.
use native.Mathlib.Numerals.{add-one}
use wserver.Prelude.{
  ℕ, suc, ◌+◌, ◌-◌, ◌≡◌, ◌≢◌, refl, sym, ap, ◌∙◌, Bool, true, false, List, [], ◌∷◌, ◌++◌, length,
  drop, drop-drop, take-append_left, drop-append_left, codes, bytes_eq, arith,
}
use wserver.Buffer.{slice}
use wserver.HttpContext.{
  HttpContext, Method, get, head, HttpVersion, http_1_0, http_1_1, Connection, keep_alive, in_token,
  is_space, scan, token_end, skip_spaces, line_parsed, parse_version, parse_uri_version,
  parse_request_line, parse_message_header, strncasecmp_eq, starts_with_nul, no_request, check_body,
}
use wserver.HttpContext.Lines.{NoCr}

abbrev pub Every : (ℕ → Bool) → List ℕ → Type 0
Every p [] = Unit {0}
Every p (c ∷ cs) = (p c ≡ true) × Every p cs

-- A word between spaces.
pub record IsToken (w : List ℕ) : Type 0 where
  pub nonempty : w ≢ []
  pub plain : Every in_token w

abbrev pub method_name : Method → List ℕ
method_name get = codes "GET"
method_name head = codes "HEAD"

abbrev pub version_name : HttpVersion → List ℕ
version_name http_1_0 = codes "HTTP/1.0"
version_name http_1_1 = codes "HTTP/1.1"

-- The request line, with `end` behind it.
abbrev pub request_line : Method → List ℕ → HttpVersion → List ℕ → List ℕ
request_line m uri v end = method_name m ++ b' ' ∷ (uri ++ b' ' ∷ (version_name v ++ end))

scan-append :
    (p : ℕ → Bool) (xs : List ℕ) (y : ℕ) (ys : List ℕ) (i : ℕ)
    → Every p xs
    → p y ≡ false
    → scan p (xs ++ y ∷ ys) i ≡ i + length xs
unfolding scan
scan-append p [] y ys i h e = rw e (omega arith)
scan-append p (x ∷ xs) y ys i h e = rw h.0 (scan-append p xs y ys (suc i) h.1 e ∙ omega arith)

-- A token of the line at the index `i`.
pub record Token (line : List ℕ) (i : ℕ) (w rest : List ℕ) : Type 0 where
  pub end : token_end line i ≡ i + length w
  pub text : slice line i (i + length w) ≡ w
  pub left : drop (i + length w) line ≡ rest

Token-at :
    (line : List ℕ) (i : ℕ) (w : List ℕ) (y : ℕ) (rest : List ℕ)
    → drop i line ≡ w ++ y ∷ rest
    → Every in_token w
    → in_token y ≡ false
    → Token line i w (y ∷ rest)
unfolding token_end
Token-at line i w y rest e h f = record {
  end = rw e (scan-append in_token w y rest i h f);
  text = rw e (take-append_left w (y ∷ rest) (i + length w - i) (omega arith));
  left =
      sym (drop-drop i (length w) line)
      ∙ ap (drop (length w)) e
      ∙ drop-append_left w (y ∷ rest) (length w) refl;
}

skip_one :
    (line : List ℕ) (i : ℕ) (w rest : List ℕ)
    → drop i line ≡ b' ' ∷ (w ++ rest)
    → IsToken w
    → (skip_spaces line i ≡ suc i) × (drop (suc i) line ≡ w ++ rest)
unfolding skip_spaces scan
skip_one line i [] rest e h = absurd (h.nonempty refl)
skip_one line i (c ∷ w) rest e h =
    let not_space : is_space c ≡ false = ground (arith, h.plain.0) in
    let step : i + 1 ≡ suc i = add-one i in
    (rw (e, not_space), ap (λ n. drop n line) (sym step) ∙ sym (drop-drop i 1 line) ∙ ap (drop 1) e)

bytes_eq_self : (xs : List ℕ) → bytes_eq xs xs ≡ true
bytes_eq_self [] = refl
bytes_eq_self (x ∷ xs) = ground (arith, bytes_eq_self xs)

version_IsToken : (v : HttpVersion) → IsToken (version_name v)
version_IsToken http_1_0 = record {
  nonempty = λ e. cc;
  plain = (refl, (refl, (refl, (refl, (refl, (refl, (refl, (refl, tt))))))));
}
version_IsToken http_1_1 = record {
  nonempty = λ e. cc;
  plain = (refl, (refl, (refl, (refl, (refl, (refl, (refl, (refl, tt))))))));
}

-- The rest of the request line from the blank behind the method on.
parse_uri_version_lem :
    (c : HttpContext) (i : ℕ) (uri : List ℕ) (v : HttpVersion)
    → drop i c.new_line ≡ b' ' ∷ (uri ++ b' ' ∷ (version_name v ++ 0 ∷ 0 ∷ []))
    → IsToken uri
    → parse_uri_version c i ≡ line_parsed (record c { uri = uri }) v
unfolding parse_uri_version
parse_uri_version_lem c i uri v e h =
    let line = c.new_line in
    let (skip, at) = skip_one line i uri (b' ' ∷ (version_name v ++ 0 ∷ 0 ∷ [])) e h in
    let t = Token-at line (suc i) uri (b' ') (version_name v ++ 0 ∷ 0 ∷ []) at h.plain refl in
    let (skip', at') =
      skip_one line (suc i + length uri) (version_name v) (0 ∷ 0 ∷ []) t.left (version_IsToken v) in
    let t' =
      Token-at line (suc (suc i + length uri)) (version_name v) 0 (0 ∷ []) at'
        (version_IsToken v).plain refl in
    rw (skip, t.end, t.text, skip', t'.end, t'.text) (by_version v)
  where
    by_version :
        (v : HttpVersion)
        → parse_version (record c { uri = uri }) (version_name v)
          ≡ line_parsed (record c { uri = uri }) v
    by_version http_1_0 = refl
    by_version http_1_1 = refl

-- parseRequestLine on a line that parseLine has marked.
pub parse_request_line_lem :
    (c : HttpContext) (m : Method) (uri : List ℕ) (v : HttpVersion)
    → c.new_line ≡ request_line m uri v (0 ∷ 0 ∷ [])
    → IsToken uri
    → parse_request_line c ≡ line_parsed (record c { method = m; uri = uri }) v
unfolding parse_request_line
parse_request_line_lem c get uri v e h =
    let t =
      Token-at c.new_line 0 (codes "GET") (b' ') (uri ++ b' ' ∷ (version_name v ++ 0 ∷ 0 ∷ [])) e
        (refl, (refl, (refl, tt))) refl in
    rw (t.end, t.text) (parse_uri_version_lem (record c { method = get }) 3 uri v t.left h)
parse_request_line_lem c head uri v e h =
    let t =
      Token-at c.new_line 0 (codes "HEAD") (b' ') (uri ++ b' ' ∷ (version_name v ++ 0 ∷ 0 ∷ [])) e
        (refl, (refl, (refl, (refl, tt)))) refl in
    rw (t.end, t.text) (parse_uri_version_lem (record c { method = head }) 4 uri v t.left h)

-- A header line: the one that the server reads, or another one.
pub data Header : Type 0 where
  keep_alive_header : Header
  other_header : List ℕ → Header

abbrev pub header_text : Header → List ℕ
header_text keep_alive_header = codes "Connection: Keep-Alive"
header_text (other_header text) = text

-- Any line but an empty one, with no CR, that does not start with a NUL nor as a Connection header.
pub record IsOther (text : List ℕ) : Type 0 where
  pub no_cr : NoCr text
  pub started : starts_with_nul (text ++ 0 ∷ 0 ∷ []) ≡ false
  pub foreign : strncasecmp_eq 11 (text ++ 0 ∷ 0 ∷ []) (codes "Connection:") ≡ false

abbrev pub IsHeader : Header → Type 0
IsHeader keep_alive_header = Unit {0}
IsHeader (other_header text) = IsOther text

abbrev pub header_effect : Header → Connection → Connection
header_effect keep_alive_header k = keep_alive
header_effect (other_header text) k = k

other_header_lem :
    (c : HttpContext) (text : List ℕ)
    → c.new_line ≡ text ++ 0 ∷ 0 ∷ []
    → IsOther text
    → parse_message_header c ≡ record c { request_state = no_request }
unfolding parse_message_header
other_header_lem c text e v =
    let started : starts_with_nul c.new_line ≡ false = rw e v.started in
    let foreign : strncasecmp_eq 11 c.new_line (codes "Connection:") ≡ false = rw e v.foreign in
    rw (started, foreign) refl

pub parse_message_header_lem :
    (c : HttpContext) (h : Header)
    → c.new_line ≡ header_text h ++ 0 ∷ 0 ∷ []
    → IsHeader h
    → parse_message_header c
      ≡ record c { connection = header_effect h c.connection; request_state = no_request }
unfolding parse_message_header strncasecmp_eq scan
parse_message_header_lem c keep_alive_header e v = rw e refl
parse_message_header_lem c (other_header text) e v = other_header_lem c text e v

-- The empty line ends the headers.
pub parse_message_header-empty :
    (c : HttpContext)
    → c.new_line ≡ 0 ∷ 0 ∷ []
    → parse_message_header c ≡ record c { check_state = check_body; request_state = no_request }
unfolding parse_message_header
parse_message_header-empty c e =
    let empty : starts_with_nul c.new_line ≡ true = rw e refl in rw empty refl
