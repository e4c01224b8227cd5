-- ===== src/Web/Handshake/Tests.antt =====
-- Handshakes at small inputs.
use simple.Prelude.{ℕ, ◌≡◌, ◌<◌, refl, arith, List, [], ◌++◌, All, codes, some}
use simple.Crypt.Base64.{
  base64_encode, encode_chars, encode_loop, encode_rest, encode_step, pad, three_to_four,
}
use simple.Crypt.Blocks.{absorb, block_loop, keep_rest, overwrite, pad_length}
use simple.Crypt.Sha1.{
  extend, sha1_blk, sha1_f1, sha1_f2, sha1_f3, sha1_final, sha1_fn, sha1_init, sha1_transform,
  sha1_update, step0, step0_rounds, step1_rounds,
}
use simple.Crypt.Words.{
  bytes_to_word32_be, get_32_bit_be, left_rotate, put_32_bit_be, put_64_bit_be,
}
use simple.Web.Http.{Request, new_request, is_ctl, is_char, is_special, is_refused, is_digit}
use simple.Web.Http.Parser.{parse_request, parser_line, parser_header_body, headers_loop, read_body}
use simple.Web.Http.RequestLine.{
  parser_request_line, request_loop, request_step, expect_request, is_version_minor,
}
use simple.Web.Http.Replies.{crlf}
use simple.Web.Http.Requests.{IsUri}
use simple.Web.Http.Fields.{IsPrintable}
use simple.Web.Websocket.{WebsocketType, is_client}
use simple.Web.Handshake.{
  Failure, client_handshake, server_handshake, client_checks, client_open, client_fails,
  server_open, server_fails, answer_values, bad_request, find_values, accept_value,
}
use simple.Web.Handshake.Agreement.{handshake-agrees}
use simple.Web.Handshake.Refusal.{client_checks-refused}

-- The example of RFC 6455.
accept_value_test :
    accept_value (codes "dGhlIHNhbXBsZSBub25jZQ==") ≡ codes "s3pPLMBiTxaQ9kYGzzhZRbK+xOo="
unfolding accept_value base64_encode encode_chars encode_loop encode_rest encode_step pad
    three_to_four absorb block_loop keep_rest overwrite pad_length extend sha1_blk sha1_f1 sha1_f2
    sha1_f3 sha1_final sha1_fn sha1_init sha1_transform sha1_update step0 step0_rounds step1_rounds
    bytes_to_word32_be get_32_bit_be left_rotate put_32_bit_be put_64_bit_be
accept_value_test = refl

abbrev key : List ℕ
key = codes "the sample nonce"

key_bytes : All (λ x. x < 256) key
key_bytes = ground arith

chat-IsUri : IsUri (codes "/chat")
unfolding is_ctl
chat-IsUri = ground arith

local-IsPrintable : IsPrintable (codes "local")
unfolding is_ctl
local-IsPrintable = ground arith

handshake-agrees_example :
    let sent = (client_handshake WebsocketType.client (codes "local") (codes "/chat") key []).0 in
    let answer = server_handshake WebsocketType.server (sent ++ codes "x") in
    (answer.1 ≡ server_open (codes "x"))
    × ((client_handshake WebsocketType.client
          (codes "local")
          (codes "/chat")
          key
          (answer.0 ++ codes "y")).1
        ≡ client_open (codes "y"))
handshake-agrees_example =
    handshake-agrees (codes "/chat") (codes "local") key (codes "y") (codes "x") chat-IsUri
      local-IsPrintable refl key_bytes

abbrev plain : List ℕ
plain = codes "GET / HTTP/1.1" ++ (crlf ++ crlf)

abbrev plain_request : Request
plain_request = record new_request {
  method = codes "GET";
  uri = codes "/";
  version_major = 1;
  version_minor = 1;
}

plain_parsed : parse_request new_request plain ≡ some (plain_request, [])
unfolding parse_request parser_line parser_header_body headers_loop read_body parser_request_line
    request_loop request_step expect_request is_version_minor is_refused is_char is_ctl is_special
    is_digit
plain_parsed = refl

plain_refused :
    (server_handshake WebsocketType.server plain).1 ≡ server_fails Failure.upgrade_invalid
unfolding server_handshake is_client answer_values bad_request find_values parse_request parser_line
    parser_header_body headers_loop read_body parser_request_line request_loop request_step
    expect_request is_version_minor is_refused is_char is_ctl is_special is_digit
plain_refused = refl

client_checks-refused_example :
    client_checks key ((server_handshake WebsocketType.server plain).0 ++ codes "z")
    ≡ client_fails Failure.upgrade_invalid
client_checks-refused_example =
    client_checks-refused plain [] plain_request Failure.upgrade_invalid key (codes "z")
      plain_parsed plain_refused
