-- ===== src/Web/Tests.antt =====
-- The theorems of the HTTP parser and of the websocket at concrete inputs.
use simple.Prelude.{◌<◌, arith, All, none, false, List, ℕ}
use simple.Web.Websocket.{
  WebsocketType, is_websocket_control, write_frame, write_split, read_message, received,
}
use simple.Web.Websocket.Frames.{IsKey}
use simple.Web.Websocket.Messages.{read-write_split}
use simple.Web.Websocket.Limits.{write_split_endless, read_message-control}
use simple.Prelude.{◌≡◌, refl, true, inl, inr, [], ◌∷◌, ◌++◌, codes, some}
use simple.Web.Http.{
  Reply, new_reply, new_request, is_char, is_ctl, is_special, is_digit, is_refused,
}
use simple.Web.Http.RequestLine.{parser_request_line}
use simple.Web.Http.Replies.{stock, to_buffer}
use simple.Web.Http.Parser.{parse_reply, from_chars, digits_value, starts_with_digit}
use simple.Web.Http.Lines.{IsAmong, statuses}
use simple.Web.Http.Printing.{declared, IsPrintableReply, parse_reply-to_buffer}
use simple.Web.Http.Stock.{parse_reply-stock}
use simple.Web.Http.Requests.{number, parser_request_line_lem}

abbrev known_404 : IsAmong 404 statuses
known_404 = inr (inr (inr (inr (inr (inr (inr (inr (inr (inr (inr (inr (inl refl))))))))))))

parse_reply-stock_example :
    parse_reply new_reply (to_buffer (stock 404) ++ codes "HTTP") ≡ some (stock 404, codes "HTTP")
parse_reply-stock_example = parse_reply-stock 404 (codes "HTTP") known_404

-- 200, with a body of two bytes.
abbrev greeting : Reply
greeting = record {
  status = 200;
  headers = record { name = codes "Content-Length"; value = codes "2" } ∷ [];
  content = codes "hi";
}

greeting-IsPrintableReply : IsPrintableReply greeting
unfolding is_refused is_char is_ctl is_special declared from_chars digits_value starts_with_digit
    is_digit
greeting-IsPrintableReply = record {
  known = inr (inl refl);
  headers_ok = (
    record {
      first = 67;
      others = codes "ontent-Length";
      name_parts = refl;
      token = (
        refl,
        (
          refl,
          (
            refl,
            (
              refl,
              (refl, (refl, (refl, (refl, (refl, (refl, (refl, (refl, (refl, (refl, tt)))))))))),
            ),
          ),
        ),
      );
      printable = (refl, tt);
    },
    tt,
  );
  size_ok = refl;
}

parse_reply-to_buffer_example :
    parse_reply new_reply (to_buffer greeting ++ codes "HTTP") ≡ some (greeting, codes "HTTP")
parse_reply-to_buffer_example =
    parse_reply-to_buffer greeting (codes "HTTP") greeting-IsPrintableReply

-- GET /a HTTP/1.1
parser_request_line_lem_example : parser_request_line new_request (codes "GET /a HTTP/1.1") ≡ (
  true,
  record new_request {
    method = codes "GET";
    uri = codes "/a";
    version_major = 1;
    version_minor = 1;
  },
)
unfolding is_refused is_char is_ctl is_special is_digit number
parser_request_line_lem_example =
    parser_request_line_lem 71 (codes "ET") (codes "/a") 49 [] 49 [] (refl, (refl, (refl, tt)))
      ((refl, refl), ((refl, refl), tt)) (refl, tt) (refl, tt) (omega arith) (omega arith)

-- A key, and a message of four bytes.
abbrev key : List ℕ
key = 18 ∷ 52 ∷ 200 ∷ 7 ∷ []

key-IsKey : IsKey key
key-IsKey = record {
  four = refl;
  bytes = (omega arith, (omega arith, (omega arith, (omega arith, tt))));
}

abbrev note : List ℕ
note = codes "note"

note_bytes : All (λ x. x < 256) note
note_bytes = (omega arith, (omega arith, (omega arith, (omega arith, tt))))

-- In pieces of at most three bytes.
read-write_split_example :
    (bytes : List ℕ) × ((write_split 5 WebsocketType.client (λ n. key) 1 note 3 ≡ some bytes)
      × (read_message WebsocketType.server (bytes ++ codes "x") ≡ received (1, (note, codes "x"))))
read-write_split_example =
    read-write_split WebsocketType.client (λ n. key) (λ n. key-IsKey) 3 (omega arith) 1 note
      (codes "x") (omega arith) refl note_bytes (omega arith)

write_split_endless_example : write_split 1000 WebsocketType.client (λ n. key) 1 note 0 ≡ none
unfolding is_websocket_control
write_split_endless_example =
    write_split_endless 1000 WebsocketType.client (λ n. key) 1 note refl (omega arith)

read_message-control_example :
    read_message WebsocketType.server (
      write_frame WebsocketType.client key 1 false note
      ++ (write_frame WebsocketType.client key 9 true note ++ []))
    ≡ received (9, (note ++ note, []))
unfolding is_websocket_control
read_message-control_example =
    read_message-control WebsocketType.client key key 1 9 note note [] (omega arith) refl refl
      (omega arith) refl key-IsKey key-IsKey note_bytes note_bytes (omega arith) (omega arith)
