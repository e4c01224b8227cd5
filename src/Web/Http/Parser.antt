-- ===== src/Web/Http/Parser.antt =====
-- parser_line, parser_header_body and the two functions parser of runtime/src/web/http.cpp. The socket
-- is the bytes that are still to come before it is closed: network::read_until takes the bytes up to
-- the first end of a line, network::read_size takes so many, and neither is answered (with 0) when
-- the socket closes before. `none` is an exception.
use simple.Prelude.{
  ℕ, zero, suc, ◌+◌, ◌-◌, ◌*◌, ◌^◌, Bool, true, false, ltb, ◌==◌, ◌&&◌, if◌then◌else◌, Option, none,
  some, List, [], ◌∷◌, length, take, drop, codes, ◌>>=◌, checked,
}
use simple.Web.Http.{Header, Request, Reply, is_digit}
use simple.Web.Http.RequestLine.{parser_request_line}
use simple.Web.Http.ReplyLine.{parser_reply_line}
use simple.Web.Http.HeaderLine.{parser_header}

abbrev pub push_byte : ℕ → Option (List ℕ × List ℕ) → Option (List ℕ × List ℕ)
push_byte c none = none
push_byte c (some r) = some (c ∷ r.0, r.1)

-- The line in front, without its end, and what follows it.
unfoldable pub parser_line : List ℕ → Option (List ℕ × List ℕ)
parser_line [] = none
parser_line (c ∷ input) = elim input [
  | [] ↦ none
  | d ∷ rest ↦
      let longer = parser_line input in
      if c == 13 && d == 10 then some ([], rest) else push_byte c longer
]

-- network::read_size
unfoldable pub read_size : ℕ → List ℕ → Option (List ℕ × List ℕ)
read_size n input = if ltb (length input) n then none else some (take n input, drop n input)

-- std::from_chars on a size_t: the leading digits, which leave the value alone when there are none
-- or when the number is too large.
unfoldable pub digits_value : ℕ → List ℕ → ℕ
digits_value n [] = n
digits_value n (c ∷ text) =
    let rest = digits_value (n * 10 + (c - 48)) text in if is_digit c then rest else n

unfoldable pub starts_with_digit : List ℕ → Bool
starts_with_digit [] = false
starts_with_digit (c ∷ text) = is_digit c

unfoldable pub from_chars : List ℕ → ℕ → ℕ
from_chars text value =
    let n = digits_value 0 text in if starts_with_digit text && ltb n (2 ^ 64) then n else value

abbrev pub same : List ℕ → List ℕ → Bool
same [] [] = true
same [] (y ∷ ys) = false
same (x ∷ xs) [] = false
same (x ∷ xs) (y ∷ ys) = x == y && same xs ys

abbrev pub content_length : List ℕ
content_length = codes "Content-Length"

-- headers.back()
unfoldable pub last_header : List Header → Header
last_header [] = record { name = []; value = [] }
last_header (h ∷ headers) = elim headers [ [] ↦ h | x ∷ xs ↦ last_header headers ]

unfoldable pub update_body_size : List Header → ℕ → ℕ
update_body_size headers body_size =
    let h = last_header headers in
    if same h.name content_length then from_chars h.value body_size else body_size

pub record HeadersRead : Type 0 where
  pub headers : List Header
  pub body_size : ℕ
  pub rest : List ℕ

-- The loop over the header lines. Each takes two bytes at least, so `length input` rounds are enough.
unfoldable pub headers_loop : ℕ → List Header → ℕ → List ℕ → Option HeadersRead
headers_loop zero headers body_size input = none
headers_loop (suc f) headers body_size input = do
  next ← parser_line input
  elim (next.0) [
    | [] ↦ some (record { headers = headers; body_size = body_size; rest = next.1 })
    | c ∷ cs ↦
        checked (parser_header headers (next.0))
        >>= (λ hs. headers_loop f hs (update_body_size hs body_size) (next.1))
  ]

unfoldable pub read_body : ℕ → List ℕ → List ℕ → Option (List ℕ × List ℕ)
read_body body_size content input =
    if ltb 0 body_size then read_size body_size input else some (content, input)

-- The headers, the body, and the bytes that follow.
unfoldable pub parser_header_body :
    List Header → List ℕ → List ℕ → Option (List Header × (List ℕ × List ℕ))
parser_header_body headers content input = do
  read ← headers_loop (length input) headers 0 input
  body ← read_body read.body_size content read.rest
  some (read.headers, body)

unfoldable pub parse_request : Request → List ℕ → Option (Request × List ℕ)
parse_request req input = do
  line ← parser_line input
  next ← checked (parser_request_line req (line.0))
  all ← parser_header_body next.headers next.content (line.1)
  some (record next { headers = all.0; content = all.1.0 }, all.1.1)

unfoldable pub parse_reply : Reply → List ℕ → Option (Reply × List ℕ)
parse_reply rep input = do
  line ← parser_line input
  next ← checked (parser_reply_line rep (line.0))
  all ← parser_header_body next.headers next.content (line.1)
  some (record next { headers = all.0; content = all.1.0 }, all.1.1)
