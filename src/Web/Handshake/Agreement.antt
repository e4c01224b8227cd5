-- ===== src/Web/Handshake/Agreement.antt =====
-- The two sides of a handshake accept each other.
use simple.Prelude.{
  ℕ, ◌≡◌, refl, ap, ◌∙◌, ◌<◌, arith, true, false, ◌==◌, List, [], ◌∷◌, ◌++◌, All, All-append,
  append_assoc, codes, some, inl, length, none,
}
use simple.Crypt.Base64.{base64_encode}
use simple.Web.Http.{
  Header, Request, Reply, new_request, new_reply, is_ctl, is_refused, is_char, is_special, is_digit,
}
use simple.Web.Http.Fields.{IsHeader, IsPrintable, return-is_ctl}
use simple.Web.Http.Lines.{IsLine, parser_line_lem}
use simple.Web.Http.Requests.{parser_request_line_lem, IsUri, number}
use simple.Web.Http.Stock.{no_ctl, no_ctl-IsPrintable, no_refused, no_refused-IsToken}
use simple.Web.Http.Printing.{declared, header_body, IsPrintableReply, parse_reply-to_buffer}
use simple.Web.Http.Parser.{same, parse_request, parse_reply}
use simple.Web.Http.RequestLine.{parser_request_line}
use simple.Web.Http.Replies.{crlf, append_headers, to_buffer}
use simple.Web.Websocket.{WebsocketType, is_client}
use simple.Web.Handshake.{
  client_hello, empty, find_value, find_values, no_values, contains, accept_value, check_values,
  client_checks, check_reply, end_client, client_handshake, server_handshake, upgrade_reply,
  answer_values, server_open, client_open, websocket_key_name, websocket_accept_name,
  connection_name, upgrade_name, upgrade_value_right,
}
use simple.Web.Handshake.Texts.{
  base64_encode-IsPrintable, base64_encode-empty, accept_value-IsPrintable, accept_value-empty,
}

same_refl : (text : List ℕ) → same text text ≡ true
same_refl [] = refl
same_refl (c ∷ text) = ground (arith, same_refl text)

-- A header with a literal name.
named :
    (c : ℕ) (name value : List ℕ)
    → no_refused (c ∷ name) ≡ true
    → IsPrintable value
    → IsHeader (record { name = c ∷ name; value = value })
named c name value t p = record {
  first = c;
  others = name;
  name_parts = refl;
  token = no_refused-IsToken (c ∷ name) t;
  printable = p;
}

client_accepts :
    (key_base64 input tail : List ℕ) (rep : Reply)
    → parse_reply new_reply input ≡ some (rep, tail)
    → check_values key_base64 (find_values websocket_accept_name no_values rep.headers) ≡ none
    → client_checks key_base64 input ≡ client_open tail
unfolding client_checks check_reply end_client
client_accepts key_base64 input tail rep e f =
    ap (check_reply key_base64) e ∙ ap (λ failure. end_client failure tail) f

server_answers :
    (input tail : List ℕ) (req : Request)
    → parse_request new_request input ≡ some (req, tail)
    → server_handshake WebsocketType.server input
      ≡ answer_values (find_values websocket_key_name no_values req.headers) tail
unfolding server_handshake is_client
server_answers input tail req e = rw (e)

module _ (key_base64 : List ℕ) where
  upgrade_reply-IsPrintableReply : IsPrintableReply (upgrade_reply key_base64)
  unfolding upgrade_reply declared no_refused no_ctl is_refused is_ctl is_char is_special
  upgrade_reply-IsPrintableReply = record {
    known = inl refl;
    headers_ok = (
      named 67 (codes "onnection") upgrade_name refl (no_ctl-IsPrintable upgrade_name refl),
      (
        named 85 (codes "pgrade") upgrade_value_right refl
            (no_ctl-IsPrintable upgrade_value_right refl),
        (
          named 83 (codes "ec-WebSocket-Accept") (accept_value key_base64) refl
              (accept_value-IsPrintable key_base64),
          tt,
        ),
      ),
    );
    size_ok = refl;
  }

  accept_checked :
      check_values key_base64
        (find_values websocket_accept_name no_values (upgrade_reply key_base64).headers)
      ≡ none
  unfolding check_values find_values find_value upgrade_reply contains
  accept_checked = rw (accept_value-empty key_base64, same_refl (accept_value key_base64))

  client_checks-upgrade_reply :
      (tail : List ℕ)
      → client_checks key_base64 (to_buffer (upgrade_reply key_base64) ++ tail) ≡ client_open tail
  client_checks-upgrade_reply tail =
      client_accepts key_base64 (to_buffer (upgrade_reply key_base64) ++ tail) tail
        (upgrade_reply key_base64)
        (parse_reply-to_buffer (upgrade_reply key_base64) tail upgrade_reply-IsPrintableReply)
        accept_checked

uri-IsLine : (uri : List ℕ) → IsUri uri → IsLine uri
uri-IsLine [] u = tt
uri-IsLine (c ∷ uri) u = (return-is_ctl c u.0.1, uri-IsLine uri u.1)

module _ (uri host key_base64 : List ℕ) (u : IsUri uri) (h : IsPrintable host)
    (p : IsPrintable key_base64) where
  hello_line : List ℕ
  hello_line = codes "GET " ++ (uri ++ codes " HTTP/1.1")

  hello_headers : List Header
  hello_headers =
      record { name = codes "Host"; value = host }
      ∷ record { name = connection_name; value = upgrade_name }
      ∷ record { name = upgrade_name; value = upgrade_value_right }
      ∷ record { name = codes "Sec-WebSocket-Version"; value = codes "13" }
      ∷ record { name = websocket_key_name; value = key_base64 }
      ∷ []

  hello_parts :
      (tail : List ℕ)
      → client_hello uri host key_base64 ++ tail
        ≡ hello_line ++ (crlf ++ (append_headers hello_headers ++ (crlf ++ tail)))
  unfolding client_hello hello_line hello_headers append_headers
  hello_parts tail = simp (append_assoc)

  hello_headers-IsHeader : All IsHeader hello_headers
  unfolding hello_headers no_refused no_ctl is_refused is_ctl is_char is_special
  hello_headers-IsHeader = (
    named 72 (codes "ost") host refl h,
    (
      named 67 (codes "onnection") upgrade_name refl (no_ctl-IsPrintable upgrade_name refl),
      (
        named 85 (codes "pgrade") upgrade_value_right refl
            (no_ctl-IsPrintable upgrade_value_right refl),
        (
          named 83 (codes "ec-WebSocket-Version") (codes "13") refl
              (no_ctl-IsPrintable (codes "13") refl),
          (named 83 (codes "ec-WebSocket-Key") key_base64 refl p, tt),
        ),
      ),
    ),
  )

  hello_line-IsLine : IsLine hello_line
  unfolding hello_line
  hello_line-IsLine = (
    refl,
    (
      refl,
      (
        refl,
        (
          refl,
          All-append (λ c. (c == 13) ≡ false) uri (codes " HTTP/1.1") (uri-IsLine uri u)
              (refl, (refl, (refl, (refl, (refl, (refl, (refl, (refl, (refl, tt))))))))),
        ),
      ),
    ),
  )

  hello_request : Request
  hello_request = record {
    method = codes "GET";
    uri = uri;
    version_major = 1;
    version_minor = 1;
    headers = hello_headers;
    content = [];
  }

  hello_line_read : parser_request_line new_request hello_line ≡ (
    true,
    record new_request { method = codes "GET"; uri = uri; version_major = 1; version_minor = 1 },
  )
  unfolding hello_line number is_refused is_char is_ctl is_special is_digit
  hello_line_read =
      parser_request_line_lem 71 (codes "ET") uri 49 [] 49 [] (refl, (refl, (refl, tt))) u
        (refl, tt) (refl, tt) (omega arith) (omega arith)

  parse_request-hello :
      (tail : List ℕ)
      → parse_request new_request (client_hello uri host key_base64 ++ tail)
        ≡ some (hello_request, tail)
  unfolding parse_request hello_request hello_headers declared
  parse_request-hello tail = rw (
    hello_parts tail,
    parser_line_lem hello_line (append_headers hello_headers ++ (crlf ++ tail)) hello_line-IsLine,
    hello_line_read,
    header_body hello_headers [] tail hello_headers-IsHeader refl,
  )

  server_handshake-hello :
      (tail : List ℕ)
      → empty key_base64 ≡ false
      → server_handshake WebsocketType.server (client_hello uri host key_base64 ++ tail)
        ≡ (to_buffer (upgrade_reply key_base64), server_open tail)
  unfolding hello_request hello_headers find_values find_value answer_values contains
  server_handshake-hello tail e =
      server_answers (client_hello uri host key_base64 ++ tail) tail hello_request
        (parse_request-hello tail)
      ∙ rw (e)

-- A server that receives what a client sends, for any uri without spaces and control characters,
-- any host without control characters and 16 random bytes, answers with an upgrade and keeps the
-- bytes behind the request; and the client accepts that answer and keeps the bytes behind it.
pub handshake-agrees :
    (uri host key before after : List ℕ)
    → IsUri uri
    → IsPrintable host
    → length key ≡ 16
    → All (λ x. x < 256) key
    → let sent = (client_handshake WebsocketType.client host uri key []).0 in
      let answer = server_handshake WebsocketType.server (sent ++ after) in
      (answer.1 ≡ server_open after)
      × ((client_handshake WebsocketType.client host uri key (answer.0 ++ before)).1
          ≡ client_open before)
unfolding client_handshake is_client
handshake-agrees uri host [] before after u h l b = absurd (omega arith)
handshake-agrees uri host (k ∷ key) before after u h l b = (
  ap (λ a. a.1) answered,
  ap (λ a. client_checks encoded (a.0 ++ before)) answered
      ∙ client_checks-upgrade_reply encoded before,
)
  where
    encoded : List ℕ
    encoded = base64_encode (k ∷ key)

    answered :
        server_handshake WebsocketType.server
          (client_hello uri host (base64_encode (k ∷ key)) ++ after)
        ≡ (to_buffer (upgrade_reply (base64_encode (k ∷ key))), server_open after)
    answered =
        server_handshake-hello uri host (base64_encode (k ∷ key)) u h
          (base64_encode-IsPrintable (k ∷ key) b) after (base64_encode-empty k key b)
