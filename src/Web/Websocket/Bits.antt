-- ===== src/Web/Websocket/Bits.antt =====
-- The bits of a frame's first two bytes, the lengths in network order, and the mask.
use simple.Prelude.{
  ℕ, zero, suc, ◌+◌, ◌*◌, ◌/◌, ◌%◌, ◌^◌, ◌<◌, ◌≡◌, refl, ap₂, ap, arith, Bool, true, false, not,
  ◌==◌, List, [], ◌∷◌, ◌++◌, length, get_or, take, drop, bit_and, bit_or, All, if◌then◌else◌,
}
use simple.Prelude.Bytes.{all_below, agree, bit_xor_twice}
use simple.Web.Websocket.{
  htonl_bytes, ntohl_bytes, ws_htonll, ws_ntohll, htons_bytes, ntohs_bytes, umask_from,
}

-- The high bit is the flag, over a number below 128.
pub high_bit :
    (set : Bool) (n : ℕ)
    → n < 128
    → not (bit_and (bit_or (if set then 0x80 else 0) n) 0x80 == 0) ≡ set
unfolding all_below
high_bit true n h = rw (agree (λ m. bit_and (bit_or 0x80 m) 0x80) (λ m. 0x80) 128 refl n h)
high_bit false n h = rw (agree (λ m. bit_and (bit_or 0 m) 0x80) (λ m. 0) 128 refl n h)

pub low_bits :
    (set : Bool) (n : ℕ) → n < 128 → bit_and (bit_or (if set then 0x80 else 0) n) 0x7F ≡ n
unfolding all_below
low_bits true n h = agree (λ m. bit_and (bit_or 0x80 m) 0x7F) (λ m. m) 128 refl n h
low_bits false n h = agree (λ m. bit_and (bit_or 0 m) 0x7F) (λ m. m) 128 refl n h

pub opcode_bits :
    (set : Bool) (n : ℕ) → n < 16 → bit_and (bit_or (if set then 0x80 else 0) n) 0x0F ≡ n
unfolding all_below
opcode_bits true n h = agree (λ m. bit_and (bit_or 0x80 m) 0x0F) (λ m. m) 16 refl n h
opcode_bits false n h = agree (λ m. bit_and (bit_or 0 m) 0x0F) (λ m. m) 16 refl n h

pub htons-ntohs : (n : ℕ) → n < 65536 → ntohs_bytes (htons_bytes n) ≡ n
unfolding ntohs_bytes htons_bytes
htons-ntohs n h = omega arith

htonl-ntohl : (w : ℕ) → w < 2 ^ 32 → ntohl_bytes (htonl_bytes w) ≡ w
unfolding ntohl_bytes htonl_bytes
htonl-ntohl w h = omega arith

last_four : (w v : ℕ) → drop 4 (htonl_bytes w ++ htonl_bytes v) ≡ htonl_bytes v
unfolding htonl_bytes
last_four w v = refl

first_four : (w v : ℕ) → take 4 (htonl_bytes w ++ htonl_bytes v) ≡ htonl_bytes w
unfolding htonl_bytes
first_four w v = refl

pub length-ws_htonll : (n : ℕ) → length (ws_htonll n) ≡ 8
unfolding ws_htonll htonl_bytes
length-ws_htonll n = refl

pub ws_htonll-ntohll : (n : ℕ) → n < 2 ^ 64 → ws_ntohll (ws_htonll n) ≡ n
unfolding ws_ntohll ws_htonll
ws_htonll-ntohll n h =
    rw
      (
        last_four (n / 2 ^ 32) (n % 2 ^ 32),
        first_four (n / 2 ^ 32) (n % 2 ^ 32),
        htonl-ntohl (n % 2 ^ 32) (omega arith),
        htonl-ntohl (n / 2 ^ 32) (omega arith),
      )
      back
  where
    back : n % 2 ^ 32 + n / 2 ^ 32 * 2 ^ 32 ≡ n
    back = omega arith

pub length-umask_from : (i : ℕ) (mask text : List ℕ) → length (umask_from i mask text) ≡ length text
unfolding umask_from
length-umask_from i mask [] = refl
length-umask_from i mask (c ∷ text) = ap suc (length-umask_from (suc i) mask text)

get_or_byte : (mask : List ℕ) (i : ℕ) → All (λ x. x < 256) mask → get_or mask i 0 < 256
get_or_byte [] i h = omega arith
get_or_byte (x ∷ mask) zero h = h.0
get_or_byte (x ∷ mask) (suc i) h = get_or_byte mask i (h.1)

-- A mask that is applied twice is gone.
pub umask_twice :
    (i : ℕ) (mask text : List ℕ)
    → All (λ x. x < 256) mask
    → All (λ x. x < 256) text
    → umask_from i mask (umask_from i mask text) ≡ text
unfolding umask_from
umask_twice i mask [] k h = refl
umask_twice i mask (c ∷ text) k h =
    ap₂ (λ x xs. x ∷ xs)
      (bit_xor_twice c (get_or mask (i % 4) 0) (h.0) (get_or_byte mask (i % 4) k))
      (umask_twice (suc i) mask text k (h.1))
