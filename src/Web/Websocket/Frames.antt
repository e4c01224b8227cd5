-- ===== src/Web/Websocket/Frames.antt =====
-- A written frame read by the other side.
use simple.Prelude.{
  ℕ, ◌^◌, ◌<◌, ◌≤◌, ◌≡◌, refl, sym, ap, subst, ◌∙◌, arith, Bool, true, false, not, ltb, leb, ◌==◌,
  lt→ltb, Bool-cases, inl, inr, List, [], ◌∷◌, ◌++◌, length, length-append, take-append_length,
  drop-append_length, bit_or, All, if◌then◌else◌, append_assoc, none, some,
}
use simple.Web.Http.Parser.{read_size}
use simple.Web.Websocket.{
  WebsocketType, is_client, no_opcode, is_websocket_control, htons_bytes, ws_htonll, umask,
  umask_from, encode_header, encode_body, write_frame, Attempt, recv_eof, received, ◌>>=◌, receive,
  equal, receive_length, receive_key, receive_payload, Frame, read_frame,
}
use simple.Web.Websocket.Bits.{
  high_bit, low_bits, opcode_bits, htons-ntohs, length-ws_htonll, ws_htonll-ntohll,
  length-umask_from, umask_twice,
}

abbrev pub peer : WebsocketType → WebsocketType
peer WebsocketType.client = WebsocketType.server
peer WebsocketType.server = WebsocketType.client

-- A key as rand_key makes it.
pub record IsKey (key : List ℕ) : Type 0 where
  pub four : length key ≡ 4
  pub bytes : All (λ x. x < 256) key

read_size-append : (xs tail : List ℕ) → read_size (length xs) (xs ++ tail) ≡ some (xs, tail)
unfolding read_size
read_size-append xs tail = rw (enough, take-append_length xs tail, drop-append_length xs tail)
  where
    enough : ltb (length (xs ++ tail)) (length xs) ≡ false
    enough = ground (arith, length-append xs tail)

pub receive-append :
    (n : ℕ) (xs tail : List ℕ) → length xs ≡ n → receive n (xs ++ tail) ≡ received (xs, tail)
unfolding receive
receive-append n xs tail e =
    ap (λ k. receive k (xs ++ tail)) (sym e)
    ∙ ap (λ o. elim o [ none ↦ recv_eof | some r ↦ received r ]) (read_size-append xs tail)

-- The seven bits and the bytes behind them that say a length.
record SaysLength (tp : WebsocketType) (op size : ℕ) (fin : Bool) : Type 0 where
  bits : ℕ
  more : List ℕ
  small : bits < 128
  header :
      encode_header tp op size fin
      ≡ bit_or (if fin then 0x80 else 0) op ∷ bit_or (if is_client tp then 0x80 else 0) bits ∷ more
  back : (tail : List ℕ) → receive_length bits (more ++ tail) ≡ received (size, tail)

says_length :
    (tp : WebsocketType) (op size : ℕ) (fin : Bool) → size < 2 ^ 64 → SaysLength tp op size fin
unfolding encode_header receive_length htons_bytes
says_length tp op size fin h = elim (Bool-cases (ltb size 0x7E)) [
  | inl e ↦ record {
    bits = size;
    more = [];
    small = ground arith;
    header = rw (e);
    back = λ tail. rw (e);
  }
  | inr e ↦ elim (Bool-cases (leb size 0xFFFF)) [
    | inl k ↦ record {
      bits = 0x7E;
      more = htons_bytes size;
      small = omega arith;
      header = rw (e, k);
      back = λ tail.
          rw (receive-append 2 (htons_bytes size) tail refl, htons-ntohs size (ground arith));
    }
    | inr k ↦ record {
      bits = 0x7F;
      more = ws_htonll size;
      small = omega arith;
      header = rw (e, k);
      back = λ tail.
          rw (
            receive-append 8 (ws_htonll size) tail (length-ws_htonll size),
            ws_htonll-ntohll size h,
          );
    }
  ]
]

receive_payload-append :
    (key text tail : List ℕ)
    → receive_payload (length text) false key (text ++ tail) ≡ received (text, tail)
unfolding receive_payload
receive_payload-append key [] tail = refl
receive_payload-append key (c ∷ text) tail = rw (
  lt→ltb 0 (length (c ∷ text)) (omega arith),
  receive-append (length (c ∷ text)) (c ∷ text) tail refl,
)

receive_payload-umask :
    (key text tail : List ℕ)
    → All (λ x. x < 256) key
    → All (λ x. x < 256) text
    → receive_payload (length text) true key (umask text key ++ tail) ≡ received (text, tail)
unfolding receive_payload umask umask_from
receive_payload-umask key [] tail k h = refl
receive_payload-umask key (c ∷ text) tail k h = rw (
  lt→ltb 0 (length (c ∷ text)) (omega arith),
  receive-append (length (c ∷ text)) (umask_from 0 key (c ∷ text)) tail
      (length-umask_from 0 key (c ∷ text)),
  umask_twice 0 key (c ∷ text) k h,
)

sides : (tp : WebsocketType) → not (equal (is_client tp) (not (is_client (peer tp)))) ≡ false
unfolding is_client
sides WebsocketType.client = refl
sides WebsocketType.server = refl

-- What is left to read behind the first two bytes.
rest_of_frame : WebsocketType → ℕ → Bool → ℕ → List ℕ → Attempt Frame
rest_of_frame tp op fin bits input = do
  len ← receive_length bits input
  key ← receive_key (is_client tp) (len.1)
  text ← receive_payload (len.0) (is_client tp) (key.0) (key.1)
  received (record { fin = fin; opcode = op; payload = text.0; rest = text.1 })

two_bytes :
    (tp : WebsocketType) (last op : ℕ) (fin : Bool) (bits : ℕ) (input : List ℕ)
    → op < 16
    → bits < 128
    → (if is_websocket_control op then not fin else equal (op == 0) (last == no_opcode)) ≡ false
    → read_frame (peer tp) last (
        bit_or (if fin then 0x80 else 0) op
        ∷ bit_or (if is_client tp then 0x80 else 0) bits
        ∷ input)
      ≡ rest_of_frame tp op fin bits input
unfolding read_frame rest_of_frame
two_bytes tp last op fin bits input ho hb fits = rw (
  receive-append 1 (bit_or (if fin then 0x80 else 0) op ∷ []) (second ∷ input) refl,
  receive-append 1 (second ∷ []) input refl,
  high_bit fin op (omega arith),
  opcode_bits fin op ho,
  fits,
  high_bit (is_client tp) bits hb,
  low_bits (is_client tp) bits hb,
  sides tp,
)
  where
    second : ℕ
    second = bit_or (if is_client tp then 0x80 else 0) bits

rest_read :
    (tp : WebsocketType) (op : ℕ) (fin : Bool) (bits : ℕ) (more key text tail : List ℕ)
    → receive_length bits (more ++ (encode_body tp key text ++ tail))
      ≡ received (length text, encode_body tp key text ++ tail)
    → IsKey key
    → All (λ x. x < 256) text
    → rest_of_frame tp op fin bits (more ++ (encode_body tp key text ++ tail))
      ≡ received (record { fin = fin; opcode = op; payload = text; rest = tail })
unfolding rest_of_frame encode_body is_client receive_key
rest_read WebsocketType.client op fin bits more key text tail back hk ht = rw (
  back,
  append_assoc key (umask text key) tail,
  receive-append 4 key (umask text key ++ tail) hk.four,
  receive_payload-umask key text tail hk.bytes ht,
)
rest_read WebsocketType.server op fin bits more key text tail back hk ht =
    rw (back, receive_payload-append [] text tail)

-- The other side reads a written frame as it was meant, unless its opcode does not fit here.
pub read_frame-write_frame :
    (tp : WebsocketType) (last : ℕ) (key : List ℕ) (op : ℕ) (fin : Bool) (text tail : List ℕ)
    → op < 16
    → IsKey key
    → All (λ x. x < 256) text
    → length text < 2 ^ 64
    → (if is_websocket_control op then not fin else equal (op == 0) (last == no_opcode)) ≡ false
    → read_frame (peer tp) last (write_frame tp key op fin text ++ tail)
      ≡ received (record { fin = fin; opcode = op; payload = text; rest = tail })
unfolding write_frame
read_frame-write_frame tp last key op fin text tail ho hk ht hl fits =
    ap (λ h. read_frame (peer tp) last ((h ++ encode_body tp key text) ++ tail)) said.header
    ∙ ap
        (λ r. read_frame (peer tp) last (
          bit_or (if fin then 0x80 else 0) op
          ∷ bit_or (if is_client tp then 0x80 else 0) said.bits
          ∷ r))
        (append_assoc said.more (encode_body tp key text) tail)
    ∙ two_bytes tp last op fin said.bits (said.more ++ (encode_body tp key text ++ tail)) ho
        said.small fits
    ∙ rest_read tp op fin said.bits said.more key text tail
        (said.back (encode_body tp key text ++ tail)) hk ht
  where
    said : SaysLength tp op (length text) fin
    said = says_length tp op (length text) fin hl

pub length-write_frame :
    (tp : WebsocketType) (key : List ℕ) (op : ℕ) (fin : Bool) (text : List ℕ)
    → length text < 2 ^ 64
    → 1 ≤ length (write_frame tp key op fin text)
unfolding write_frame
length-write_frame tp key op fin text hl =
    subst (λ h. 1 ≤ length (h ++ encode_body tp key text)) (sym said.header) (omega arith)
  where
    said : SaysLength tp op (length text) fin
    said = says_length tp op (length text) fin hl
