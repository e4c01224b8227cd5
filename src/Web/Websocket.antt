-- ===== src/Web/Websocket.antt =====
-- The frames of runtime/src/web/websocket.cpp, on a little-endian machine. An opcode is the number
-- that the enum stands for. The random key of each frame is an argument. What `read` takes from the
-- socket is the list of the bytes that come before it closes; the allocation of its buffer is left out.
pub mod Bits
pub mod Frames
pub mod Messages
pub mod Limits
use simple.Prelude.{
  ℕ, zero, suc, ◌+◌, ◌-◌, ◌*◌, ◌/◌, ◌%◌, ◌^◌, Bool, true, false, not, ltb, leb, ◌==◌, ◌&&◌, ◌||◌,
}
use simple.Prelude.{
  if◌then◌else◌, List, [], ◌∷◌, ◌++◌, Option, none, some, length, get_or, take, drop, bit_and,
  bit_or, bit_xor,
}
use simple.Web.Http.Parser.{read_size}

pub data WebsocketType : Type 0 where
  client server : WebsocketType

unfoldable pub is_client : WebsocketType → Bool
is_client WebsocketType.client = true
is_client WebsocketType.server = false

abbrev pub no_opcode : ℕ
no_opcode = 16

unfoldable pub is_websocket_control : ℕ → Bool
is_websocket_control op = leb 8 op

-- htonl as the four bytes in memory, and ntohl on them.
unfoldable pub htonl_bytes : ℕ → List ℕ
htonl_bytes w = w / 16777216 % 256 ∷ w / 65536 % 256 ∷ w / 256 % 256 ∷ w % 256 ∷ []

unfoldable pub ntohl_bytes : List ℕ → ℕ
ntohl_bytes bs =
    get_or bs 0 0 * 16777216 + get_or bs 1 0 * 65536 + get_or bs 2 0 * 256 + get_or bs 3 0

-- The two words change places.
unfoldable pub ws_htonll : ℕ → List ℕ
ws_htonll val = htonl_bytes (val / 2 ^ 32) ++ htonl_bytes (val % 2 ^ 32)

unfoldable pub ws_ntohll : List ℕ → ℕ
ws_ntohll bs = ntohl_bytes (drop 4 bs) + ntohl_bytes (take 4 bs) * 2 ^ 32

unfoldable pub htons_bytes : ℕ → List ℕ
htons_bytes n = n / 256 % 256 ∷ n % 256 ∷ []

unfoldable pub ntohs_bytes : List ℕ → ℕ
ntohs_bytes bs = get_or bs 0 0 * 256 + get_or bs 1 0

-- The bytes from place `i` on.
unfoldable pub umask_from : ℕ → List ℕ → List ℕ → List ℕ
umask_from i mask [] = []
umask_from i mask (c ∷ text) = bit_xor c (get_or mask (i % 4) 0) ∷ umask_from (suc i) mask text

unfoldable pub umask : List ℕ → List ℕ → List ℕ
umask text mask = umask_from 0 mask text

unfoldable pub encode_header : WebsocketType → ℕ → ℕ → Bool → List ℕ
encode_header tp op size fin =
    let head = bit_or (if fin then 0x80 else 0) op in
    let val = if is_client tp then 0x80 else 0 in
    if ltb size 0x7E
    then head ∷ bit_or val size ∷ []
    else (if leb size 0xFFFF
        then head ∷ bit_or val 0x7E ∷ htons_bytes size
        else head ∷ bit_or val 0x7F ∷ ws_htonll size)

unfoldable pub encode_body : WebsocketType → List ℕ → List ℕ → List ℕ
encode_body tp mask text = if is_client tp then mask ++ umask text mask else text

unfoldable pub write_frame : WebsocketType → List ℕ → ℕ → Bool → List ℕ → List ℕ
write_frame tp mask op fin text = encode_header tp op (length text) fin ++ encode_body tp mask text

unfoldable pub write_message : WebsocketType → List ℕ → ℕ → List ℕ → List ℕ
write_message tp mask op text = write_frame tp mask op true text

-- The loop of the second write and the last frame; `keys n` is the key of the frame after n others.
-- Each round takes payload_max bytes off, so as many rounds as bytes are enough unless it is 0.
unfoldable pub split_loop : ℕ → WebsocketType → (ℕ → List ℕ) → ℕ → ℕ → List ℕ → Option (List ℕ)
split_loop zero tp keys n payload_max text = none
split_loop (suc f) tp keys n payload_max text =
    let more = split_loop f tp keys (suc n) payload_max (drop payload_max text) in
    if not (ltb payload_max (length text))
    then some (write_frame tp (keys n) 0 true text)
    else elim more [
      | none ↦ none
      | some bytes ↦ some (write_frame tp (keys n) 0 false (take payload_max text) ++ bytes)
    ]

unfoldable pub write_split : ℕ → WebsocketType → (ℕ → List ℕ) → ℕ → List ℕ → ℕ → Option (List ℕ)
write_split fuel tp keys op text payload_max =
    let more = split_loop fuel tp keys 1 payload_max (drop payload_max text) in
    if leb (length text) payload_max || is_websocket_control op
    then some (write_message tp (keys 0) op text)
    else elim more [
      | none ↦ none
      | some bytes ↦ some (write_frame tp (keys 0) op false (take payload_max text) ++ bytes)
    ]

-- The exceptions "recv eof" and "websocket read fail", or a result.
pub data Attempt {ℓ} (A : Type ℓ) : Type ℓ where
  recv_eof read_fail : Attempt A
  received : A → Attempt A

infixl 5 ◌>>=◌
abbrev pub ◌>>=◌ {ℓ κ} : {A : Type ℓ} {B : Type κ} → Attempt A → (A → Attempt B) → Attempt B
recv_eof >>= k = recv_eof
read_fail >>= k = read_fail
received a >>= k = k a

-- network::read_size, where 0 is the end of the socket.
unfoldable pub receive : ℕ → List ℕ → Attempt (List ℕ × List ℕ)
receive n input = elim (read_size n input) [ none ↦ recv_eof | some r ↦ received r ]

abbrev pub equal : Bool → Bool → Bool
equal true b = b
equal false b = not b

unfoldable pub receive_length : ℕ → List ℕ → Attempt (ℕ × List ℕ)
receive_length len input =
    if ltb len 0x7E
    then received (len, input)
    else (if len == 0x7E
        then (do r ← receive 2 input; received (ntohs_bytes (r.0), r.1))
        else (do r ← receive 8 input; received (ws_ntohll (r.0), r.1)))

unfoldable pub receive_key : Bool → List ℕ → Attempt (List ℕ × List ℕ)
receive_key mask input = if mask then receive 4 input else received ([], input)

unfoldable pub receive_payload : ℕ → Bool → List ℕ → List ℕ → Attempt (List ℕ × List ℕ)
receive_payload len mask key input =
    if ltb 0 len
    then (do r ← receive len input; received ((if mask then umask (r.0) key else r.0), r.1))
    else received ([], input)

-- What a frame says: its opcode and fin bit, its payload, and the bytes behind it.
pub record Frame : Type 0 where
  pub fin : Bool
  pub opcode : ℕ
  pub payload : List ℕ
  pub rest : List ℕ

-- A turn of the loop of `read`, up to the payload.
unfoldable pub read_frame : WebsocketType → ℕ → List ℕ → Attempt Frame
read_frame tp last input = do
  head ← receive 1 input
  let val = get_or (head.0) 0 0
  let fin = not (bit_and val 0x80 == 0)
  let op = bit_and val 0x0F
  if (if is_websocket_control op then not fin else equal (op == 0) (last == no_opcode))
      then read_fail
      else do
        second ← receive 1 (head.1)
        let size = get_or (second.0) 0 0
        let mask = not (bit_and size 0x80 == 0)
        if not (equal mask (not (is_client tp))) then read_fail else do
          len ← receive_length (bit_and size 0x7F) (second.1)
          key ← receive_key mask (len.1)
          text ← receive_payload (len.0) mask (key.0) (key.1)
          received (record { fin = fin; opcode = op; payload = text.0; rest = text.1 })

-- The opcode and the bytes of a message, and what follows it. Each turn takes two bytes at least, so
-- as many rounds as bytes are enough.
unfoldable pub read_loop : ℕ → WebsocketType → ℕ → List ℕ → List ℕ → Attempt (ℕ × (List ℕ × List ℕ))
read_loop zero tp last buf input = recv_eof
read_loop (suc f) tp last buf input = do
  frame ← read_frame tp last input
  let full = buf ++ frame.payload
  if frame.fin
      then received ((if frame.opcode == 0 then last else frame.opcode), (full, frame.rest))
      else read_loop f tp (if frame.opcode == 0 then last else frame.opcode) full frame.rest

unfoldable pub read_message : WebsocketType → List ℕ → Attempt (ℕ × (List ℕ × List ℕ))
read_message tp input = read_loop (length input) tp no_opcode [] input
