-- ===== src/Web/Handshake/Refusal.antt =====
-- A handshake that the server refuses.
use simple.Prelude.{ℕ, ◌≡◌, refl, sym, ap, ◌∙◌, arith, List, ◌++◌, some, inr, inl}
use simple.Web.Http.{Request, new_request}
use simple.Web.Http.Parser.{parse_request}
use simple.Web.Http.Replies.{stock, to_buffer}
use simple.Web.Http.Stock.{parse_reply-stock}
use simple.Web.Http.Lines.{IsAmong, statuses}
use simple.Web.Websocket.{WebsocketType, is_client}
use simple.Web.Handshake.{
  Failure, find_value, find_values, no_values, check_values, client_checks, check_reply, end_client,
  server_handshake, answer_values, bad_request, server_fails, client_fails, Values,
  websocket_key_name, websocket_accept_name,
}

refused_values :
    (v : Values) (rest : List ℕ) (failure : Failure)
    → (answer_values v rest).1 ≡ server_fails failure
    → (answer_values v rest).0 ≡ to_buffer (stock 400)
unfolding answer_values bad_request
refused_values v rest failure e = ground arith

stock_checked :
    (key_base64 : List ℕ)
    → check_values key_base64 (find_values websocket_accept_name no_values (stock 400).headers)
      ≡ some Failure.upgrade_invalid
unfolding check_values find_values find_value stock
stock_checked key_base64 = refl

server_refuses :
    (input rest : List ℕ) (req : Request)
    → parse_request new_request input ≡ some (req, rest)
    → server_handshake WebsocketType.server input
      ≡ answer_values (find_values websocket_key_name no_values req.headers) rest
unfolding server_handshake is_client
server_refuses input rest req e = rw (e)

client_refuses :
    (key_base64 tail : List ℕ)
    → client_checks key_base64 (to_buffer (stock 400) ++ tail)
      ≡ client_fails Failure.upgrade_invalid
unfolding client_checks check_reply end_client
client_refuses key_base64 tail =
    ap (check_reply key_base64) (parse_reply-stock 400 tail among)
    ∙ ap (λ failure. end_client failure tail) (stock_checked key_base64)
  where
    among : IsAmong 400 statuses
    among = inr (inr (inr (inr (inr (inr (inr (inr (inr (inl refl)))))))))

-- When the server takes in a whole request and refuses it, whatever the reason, it has answered, and
-- a client that receives the answer, whatever its key and whatever bytes come behind, fails too.
pub client_checks-refused :
    (input rest : List ℕ) (req : Request) (failure : Failure) (key_base64 tail : List ℕ)
    → parse_request new_request input ≡ some (req, rest)
    → (server_handshake WebsocketType.server input).1 ≡ server_fails failure
    → client_checks key_base64 ((server_handshake WebsocketType.server input).0 ++ tail)
      ≡ client_fails Failure.upgrade_invalid
client_checks-refused input rest req failure key_base64 tail e f =
    ap (λ text. client_checks key_base64 (text ++ tail)) answered ∙ client_refuses key_base64 tail
  where
    answered : (server_handshake WebsocketType.server input).0 ≡ to_buffer (stock 400)
    answered =
        ap (λ a. a.0) (server_refuses input rest req e)
        ∙ refused_values (find_values websocket_key_name no_values req.headers) rest failure
            (ap (λ a. a.1) (sym (server_refuses input rest req e)) ∙ f)
