-- ===== src/Web/Http/Replies.antt =====
-- The replies of runtime/src/web/http.cpp: the status lines, the stock bodies, reply::stock and
-- reply::to_buffer.
use simple.Prelude.{
  ℕ, ◌/◌, ◌%◌, ◌+◌, zero, suc, ◌==◌, ltb, if◌then◌else◌, List, [], ◌∷◌, ◌++◌, length, codes,
}
use simple.Web.Http.{Header, Reply}

abbrev pub crlf : List ℕ
crlf = 13 ∷ 10 ∷ []

abbrev pub name_value_separator : List ℕ
name_value_separator = codes ": "

-- The value for a status in a switch whose default is the last entry.
unfoldable pub switch : List (ℕ × List ℕ) → ℕ → List ℕ
switch [] status = []
switch (entry ∷ entries) status = elim entries [
  | [] ↦ entry.1
  | x ∷ xs ↦ let rest = switch entries status in if status == entry.0 then entry.1 else rest
]

abbrev pub status_lines : List (ℕ × List ℕ)
status_lines =
    (101, codes "HTTP/1.1 101 Switching Protocols" ++ crlf)
    ∷ (200, codes "HTTP/1.1 200 OK" ++ crlf)
    ∷ (201, codes "HTTP/1.1 201 Created" ++ crlf)
    ∷ (202, codes "HTTP/1.1 202 Accepted" ++ crlf)
    ∷ (204, codes "HTTP/1.1 204 No Content" ++ crlf)
    ∷ (300, codes "HTTP/1.1 300 Multiple Choices" ++ crlf)
    ∷ (301, codes "HTTP/1.1 301 Moved Permanently" ++ crlf)
    ∷ (302, codes "HTTP/1.1 302 Moved Temporarily" ++ crlf)
    ∷ (304, codes "HTTP/1.1 304 Not Modified" ++ crlf)
    ∷ (400, codes "HTTP/1.1 400 Bad Request" ++ crlf)
    ∷ (401, codes "HTTP/1.1 401 Unauthorized" ++ crlf)
    ∷ (403, codes "HTTP/1.1 403 Forbidden" ++ crlf)
    ∷ (404, codes "HTTP/1.1 404 Not Found" ++ crlf)
    ∷ (500, codes "HTTP/1.1 500 Internal Server Error" ++ crlf)
    ∷ (501, codes "HTTP/1.1 501 Not Implemented" ++ crlf)
    ∷ (502, codes "HTTP/1.1 502 Bad Gateway" ++ crlf)
    ∷ (503, codes "HTTP/1.1 503 Service Unavailable" ++ crlf)
    ∷ (500, codes "HTTP/1.1 500 Internal Server Error" ++ crlf)
    ∷ []

unfoldable pub to_string_view : ℕ → List ℕ
to_string_view status = switch status_lines status

abbrev pub bodies : List (ℕ × List ℕ)
bodies =
    (101, [])
    ∷ (200, [])
    ∷ (
      201,
      codes "<html><head><title>Created</title></head><body><h1>201 Created</h1></body></html>",
    )
    ∷ (
      202,
      codes "<html><head><title>Accepted</title></head><body><h1>202 Accepted</h1></body></html>",
    )
    ∷ (
      204,
      codes "<html><head><title>No Content</title></head><body><h1>204 Content</h1></body></html>",
    )
    ∷ (
      300,
      codes
          "<html><head><title>Multiple Choices</title></head><body><h1>300 Multiple Choices</h1></body></html>",
    )
    ∷ (
      301,
      codes
          "<html><head><title>Moved Permanently</title></head><body><h1>301 Moved Permanently</h1></body></html>",
    )
    ∷ (
      302,
      codes
          "<html><head><title>Moved Temporarily</title></head><body><h1>302 Moved Temporarily</h1></body></html>",
    )
    ∷ (
      304,
      codes
          "<html><head><title>Not Modified</title></head><body><h1>304 Not Modified</h1></body></html>",
    )
    ∷ (
      400,
      codes
          "<html><head><title>Bad Request</title></head><body><h1>400 Bad Request</h1></body></html>",
    )
    ∷ (
      401,
      codes
          "<html><head><title>Unauthorized</title></head><body><h1>401 Unauthorized</h1></body></html>",
    )
    ∷ (
      403,
      codes "<html><head><title>Forbidden</title></head><body><h1>403 Forbidden</h1></body></html>",
    )
    ∷ (
      404,
      codes "<html><head><title>Not Found</title></head><body><h1>404 Not Found</h1></body></html>",
    )
    ∷ (
      500,
      codes
          "<html><head><title>Internal Server Error</title></head><body><h1>500 Internal Server Error</h1></body></html>",
    )
    ∷ (
      501,
      codes
          "<html><head><title>Not Implemented</title></head><body><h1>501 Not Implemented</h1></body></html>",
    )
    ∷ (
      502,
      codes
          "<html><head><title>Bad Gateway</title></head><body><h1>502 Bad Gateway</h1></body></html>",
    )
    ∷ (
      503,
      codes
          "<html><head><title>Service Unavailable</title></head><body><h1>503 Service Unavailable</h1></body></html>",
    )
    ∷ (
      500,
      codes
          "<html><head><title>Internal Server Error</title></head><body><h1>500 Internal Server Error</h1></body></html>",
    )
    ∷ []

unfoldable pub to_replies : ℕ → List ℕ
to_replies status = switch bodies status

-- std::to_string: the decimal digits, of which a number has at most as many as it is plus one.
unfoldable pub digits : ℕ → ℕ → List ℕ
digits zero n = []
digits (suc f) n =
    let rest = digits f (n / 10) in (if ltb n 10 then [] else rest) ++ ((n % 10 + 48) ∷ [])

unfoldable pub to_string : ℕ → List ℕ
to_string n = digits (n + 1) n

unfoldable pub stock : ℕ → Reply
stock status = record {
  status = status;
  headers =
      record { name = codes "Content-Length"; value = to_string (length (to_replies status)) }
      ∷ record { name = codes "Content-Type"; value = codes "text/html" }
      ∷ [];
  content = to_replies status;
}

unfoldable pub append_headers : List Header → List ℕ
append_headers [] = []
append_headers (h ∷ headers) =
    h.name ++ (name_value_separator ++ (h.value ++ (crlf ++ append_headers headers)))

unfoldable pub to_buffer : Reply → List ℕ
to_buffer rep = to_string_view rep.status ++ (append_headers rep.headers ++ (crlf ++ rep.content))
