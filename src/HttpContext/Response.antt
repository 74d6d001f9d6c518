-- ===== src/HttpContext/Response.antt =====
-- getHttpResponse and work of HttpContext.cpp: the responses. `timeStamp()` is the argument `now`.
use wserver.Prelude.{ℕ, List, [], ◌∷◌, ◌++◌, codes, bytes_eq, Exec, done, ◌>>=◌, if◌then◌else◌}
use wserver.Buffer.{cr, lf, append}
use wserver.HttpContext.{
  HttpContext, HttpVersion, http_1_0, http_1_1, get_request, bad_request, no_request,
  forbidden_request, internal_error, closed_connection, handle_http_request,
}
use wserver.HttpContext.Favicon.{favicon, c_string}

abbrev pub version_text : HttpVersion → List ℕ
version_text http_1_0 = codes "HTTP/1.0 "
version_text http_1_1 = codes "HTTP/1.1 "

abbrev pub crlf : List ℕ
crlf = cr ∷ lf ∷ []

abbrev pub html_page : List ℕ → List ℕ
html_page now =
    codes "200 OK"
    ++ crlf
    ++ codes "Content-Type: text/html"
    ++ crlf
    ++ codes "Header: QWQ-SERVER"
    ++ crlf
    ++ codes "Connection: close"
    ++ crlf
    ++ crlf
    ++ codes "<html><head><title>This is title</title></head><body><h1>Hello</h1>Now is "
    ++ now
    ++ codes "</body></html>"

abbrev pub hello_page : List ℕ
hello_page =
    codes "200 OK"
    ++ crlf
    ++ codes "Content-Type: text/plain"
    ++ crlf
    ++ codes "Connection: close"
    ++ crlf
    ++ codes "Header: QWQ-SERVER"
    ++ crlf
    ++ crlf
    ++ codes "<html><head>"
    ++ codes "hello, world!"
    ++ lf ∷ []
    ++ codes "</head></html>"

-- `char favicon[555]` is given to std::string as a C string.
unfoldable pub favicon_page : List ℕ
unfolding favicon c_string
favicon_page =
    codes "200 OK"
    ++ crlf
    ++ codes "Content-Type: image/png"
    ++ crlf
    ++ codes "Connection: close"
    ++ crlf
    ++ codes "Header: QWQ-SERVER"
    ++ crlf
    ++ crlf
    ++ c_string favicon

unfoldable pub found_page : List ℕ → List ℕ → List ℕ
found_page uri now =
    if bytes_eq uri (codes "/")
    then html_page now
    else if bytes_eq uri (codes "/favicon.ico")
    then favicon_page
    else if bytes_eq uri (codes "/hello")
    then hello_page
    else codes "404 Not Found" ++ crlf ++ crlf

unfoldable pub response : HttpContext → List ℕ → List ℕ
response c now = version_text c.version ++ elim c.request_state [
  | get_request ↦ found_page c.uri now
  | bad_request ↦ codes "400 Bad Request" ++ crlf ++ codes "Connection: close" ++ crlf ++ crlf
  | no_request ↦ codes "400 Bad Request" ++ crlf ++ codes "Connection: close" ++ crlf ++ crlf
  | forbidden_request ↦ codes "403 Forbidden Error" ++ crlf ++ crlf
  | internal_error ↦ codes "500 Internal Server Error" ++ crlf ++ crlf
  | closed_connection ↦ []
]

unfoldable pub get_http_response : HttpContext → List ℕ → Exec HttpContext
get_http_response c now = do
  output ← append c.output_buffer (response c now)
  done (record c { output_buffer = output })

unfoldable pub work : HttpContext → List ℕ → Exec HttpContext
work c now = do parsed ← handle_http_request c; get_http_response parsed now
