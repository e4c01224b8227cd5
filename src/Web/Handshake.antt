-- ===== src/Web/Handshake.antt =====
-- The two functions handshake of runtime/src/web/websocket.cpp. A function that throws sends what it
-- sent before; the 16 bytes that rand_key draws are an argument.
use simple.Prelude.{
  Bool, true, false, not, ◌&&◌, ◌||◌, if◌then◌else◌, Option, none, some, List, [], ◌∷◌, ◌++◌, ℕ,
  ◌==◌, codes,
}
use simple.Crypt.Base64.{base64_encode}
use simple.Crypt.Sha1.{Sha1Context, new_sha1, sha1_init, sha1_update, sha1_final}
use simple.Web.Http.{Header, Request, Reply, new_request, new_reply}
use simple.Web.Http.Parser.{same, parse_request, parse_reply}
use simple.Web.Http.Replies.{crlf, stock, to_buffer}
use simple.Web.Websocket.{WebsocketType, is_client}
pub mod Texts
pub mod Agreement
pub mod Refusal
mod Tests

abbrev pub websocket_key_name : List ℕ
websocket_key_name = codes "Sec-WebSocket-Key"

abbrev pub websocket_accept_name : List ℕ
websocket_accept_name = codes "Sec-WebSocket-Accept"

abbrev pub connection_name : List ℕ
connection_name = codes "Connection"

abbrev pub upgrade_name : List ℕ
upgrade_name = codes "Upgrade"

abbrev pub upgrade_value_right : List ℕ
upgrade_value_right = codes "websocket"

abbrev pub handshake_guid : List ℕ
handshake_guid = codes "258EAFA5-E914-47DA-95CA-C5AB0DC85B11"

-- The reasons of std::logic_error, and an exception of the http parser.
pub data Failure : Type 0 where
  wrong_type http_error upgrade_invalid connection_invalid key_invalid accept_invalid : Failure

abbrev pub empty : List ℕ → Bool
empty [] = true
empty (c ∷ text) = false

-- The request line and the headers of the client, with fmt::format_to.
unfoldable pub client_hello : List ℕ → List ℕ → List ℕ → List ℕ
client_hello uri host key_base64 =
    codes "GET "
    ++ (uri
        ++ (codes " HTTP/1.1"
            ++ (crlf
                ++ (codes "Host: "
                    ++ (host
                        ++ (crlf
                            ++ (codes "Connection: Upgrade"
                                ++ (crlf
                                    ++ (codes "Upgrade: websocket"
                                        ++ (crlf
                                            ++ (codes "Sec-WebSocket-Version: 13"
                                                ++ (crlf
                                                    ++ (codes "Sec-WebSocket-Key: "
                                                        ++ (key_base64
                                                            ++ (crlf ++ crlf)))))))))))))))

-- The values that the loop over the headers has found; `own` is that of the key or of the accept.
pub record Values : Type 0 where
  pub own : List ℕ
  pub connection : List ℕ
  pub upgrade : List ℕ

abbrev pub no_values : Values
no_values = record { own = []; connection = []; upgrade = [] }

unfoldable pub find_value : List ℕ → Values → Header → Values
find_value own_name v h =
    if empty v.own && same h.name own_name
    then record v { own = h.value }
    else if empty v.connection && same h.name connection_name
    then record v { connection = h.value }
    else if empty v.upgrade && same h.name upgrade_name
    then record v { upgrade = h.value }
    else v

unfoldable pub find_values : List ℕ → Values → List Header → Values
find_values own_name v [] = v
find_values own_name v (h ∷ headers) = find_values own_name (find_value own_name v h) headers

abbrev pub starts_with : List ℕ → List ℕ → Bool
starts_with [] text = true
starts_with (c ∷ pattern) [] = false
starts_with (c ∷ pattern) (d ∷ text) = c == d && starts_with pattern text

-- text.find(pattern) != npos
unfoldable pub contains : List ℕ → List ℕ → Bool
contains pattern [] = starts_with pattern []
contains pattern (c ∷ text) = starts_with pattern (c ∷ text) || contains pattern text

-- The accept value for a key.
unfoldable pub accept_value : List ℕ → List ℕ
accept_value key_base64 =
    base64_encode
      (sha1_final (sha1_update (sha1_update (sha1_init new_sha1) key_base64) handshake_guid)).0

-- What the client does with the reply: a failure, or none and the bytes behind the reply.
pub data ClientEnd : Type 0 where
  client_fails : Failure → ClientEnd
  client_open : List ℕ → ClientEnd

unfoldable pub check_values : List ℕ → Values → Option Failure
check_values key_base64 v =
    if not (same v.upgrade upgrade_value_right)
    then some Failure.upgrade_invalid
    else if not (contains upgrade_name v.connection)
    then some Failure.connection_invalid
    else if empty v.own
    then some Failure.accept_invalid
    else if not (same (accept_value key_base64) v.own)
    then some Failure.accept_invalid
    else none

unfoldable pub end_client : Option Failure → List ℕ → ClientEnd
end_client (some failure) rest = client_fails failure
end_client none rest = client_open rest

unfoldable pub check_reply : List ℕ → Option (Reply × List ℕ) → ClientEnd
check_reply key_base64 none = client_fails Failure.http_error
check_reply key_base64 (some (rep, rest)) =
    end_client (check_values key_base64 (find_values websocket_accept_name no_values rep.headers))
      rest

unfoldable pub client_checks : List ℕ → List ℕ → ClientEnd
client_checks key_base64 input = check_reply key_base64 (parse_reply new_reply input)

-- What the client sends, and how it ends on the bytes that it receives.
unfoldable pub client_handshake :
    WebsocketType → List ℕ → List ℕ → List ℕ → List ℕ → List ℕ × ClientEnd
client_handshake tp host uri key input =
    if not (is_client tp)
    then ([], client_fails Failure.wrong_type)
    else (client_hello uri host (base64_encode key), client_checks (base64_encode key) input)

-- What the server sends, and how it ends.
pub data ServerEnd : Type 0 where
  server_fails : Failure → ServerEnd
  server_open : List ℕ → ServerEnd

unfoldable pub upgrade_reply : List ℕ → Reply
upgrade_reply key_base64 = record new_reply {
  status = 101;
  headers =
      record { name = connection_name; value = upgrade_name }
      ∷ record { name = upgrade_name; value = upgrade_value_right }
      ∷ record { name = websocket_accept_name; value = accept_value key_base64 }
      ∷ [];
}

unfoldable pub bad_request : Failure → List ℕ × ServerEnd
bad_request failure = (to_buffer (stock 400), server_fails failure)

unfoldable pub answer_values : Values → List ℕ → List ℕ × ServerEnd
answer_values v rest =
    if not (same v.upgrade upgrade_value_right)
    then bad_request Failure.upgrade_invalid
    else if not (contains upgrade_name v.connection)
    then bad_request Failure.connection_invalid
    else if empty v.own
    then bad_request Failure.key_invalid
    else (to_buffer (upgrade_reply v.own), server_open rest)

unfoldable pub server_handshake : WebsocketType → List ℕ → List ℕ × ServerEnd
server_handshake tp input =
    if is_client tp
    then ([], server_fails Failure.wrong_type)
    else elim (parse_request new_request input) [
      | none ↦ ([], server_fails Failure.http_error)
      | some r ↦ answer_values (find_values websocket_key_name no_values r.0.headers) r.1
    ]
