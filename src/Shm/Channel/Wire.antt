-- ===== src/Shm/Channel/Wire.antt =====
-- The format of a message of shm_channel.cpp in the ring, and what sending and receiving one does
-- to the queue of bytes.
use simple.Prelude.{ℕ, ◌+◌, ◌^◌, ◌≤◌, ◌<◌}
use simple.Prelude.{List, [], ◌∷◌, ◌++◌, length, take, drop, ◌≡◌, refl, sym, ap, ap₂, ◌∙◌, arith}
use simple.Prelude.{append_assoc, length-append, take-append_length, drop-append_length}
use simple.Shm.Buffer.{ShmBuffer, readable, writable, fill, peek, read_len}
use simple.Shm.Buffer.Queue.{IsValid, contents, length-contents}
use simple.Shm.Buffer.Reading.{peek_lem, read_len-refines}
use simple.Shm.Buffer.Writing.{staged, staged_zero, fill-staged, write_len-refines}
use simple.Shm.Channel.{u32_bytes, u32_value, store_length, store_body, publish}

abbrev pub u32_max : ℕ
u32_max = 2 ^ 32

-- A message as it stands in the ring.
abbrev pub frame : List ℕ → List ℕ
frame msg = u32_bytes (length msg) ++ msg

abbrev pub frames : List (List ℕ) → List ℕ
frames [] = []
frames (m ∷ ms) = frame m ++ frames ms

pub frames-append : (xs ys : List (List ℕ)) → frames (xs ++ ys) ≡ frames xs ++ frames ys
frames-append [] ys = refl
frames-append (x ∷ xs) ys =
    ap (λ l. frame x ++ l) (frames-append xs ys)
    ∙ sym (append_assoc (frame x) (frames xs) (frames ys))

pub length-u32_bytes : (n : ℕ) → length (u32_bytes n) ≡ 4
unfolding u32_bytes
length-u32_bytes n = refl

pub u32_value-bytes : (n : ℕ) → n < u32_max → u32_value (u32_bytes n) ≡ n
unfolding u32_bytes u32_value
u32_value-bytes n h = omega arith

pub length-frame : (msg : List ℕ) → length (frame msg) ≡ 4 + length msg
length-frame msg =
    omega (arith, length-append (u32_bytes (length msg)) msg, length-u32_bytes (length msg))

-- The length has been stored and not yet the body.
pub store_length_lem :
    {b : ShmBuffer}
    → IsValid b
    → (len : ℕ) → 4 ≤ writable b
    → IsValid (store_length b len)
      × (contents (store_length b len) ≡ contents b)
      × (writable (store_length b len) ≡ writable b)
      × (staged (store_length b len) 4 ≡ u32_bytes len)
unfolding store_length
store_length_lem {b} v len h =
    let (fv, fc, fw, fs) = fill-staged v (u32_bytes len) 0 (omega (arith, length-u32_bytes len)) in
    let four : 4 ≡ 0 + length (u32_bytes len) = omega (arith, length-u32_bytes len) in
    (
      fv,
      fc,
      fw,
      ap (staged (fill b (u32_bytes len) 0).1) four
          ∙ fs
          ∙ ap (λ l. l ++ u32_bytes len) (staged_zero b),
    )

pub store_body_lem :
    {b : ShmBuffer}
    → IsValid b
    → (buf : List ℕ) → 4 + length buf ≤ writable b
    → IsValid (store_body b buf)
      × (contents (store_body b buf) ≡ contents b)
      × (writable (store_body b buf) ≡ writable b)
      × (staged (store_body b buf) (4 + length buf) ≡ staged b 4 ++ buf)
unfolding store_body
store_body_lem v buf h = fill-staged v buf 4 h

pub publish_lem :
    {b : ShmBuffer}
    → IsValid b
    → (len : ℕ) → 4 + len ≤ writable b
    → IsValid (publish b len) × (contents (publish b len) ≡ contents b ++ staged b (4 + len))
unfolding publish
publish_lem {b} v len h =
    let (pv, pc) = write_len-refines v (len + 4) (omega arith) in
    let e : len + 4 ≡ 4 + len = omega arith in (pv, pc ∙ ap (λ n. contents b ++ staged b n) e)

-- The three steps of a `try_write` that has room add one frame behind the queue.
pub send_lem :
    {b : ShmBuffer}
    → IsValid b
    → (buf : List ℕ) → 4 + length buf ≤ writable b
    → IsValid (publish (store_body (store_length b (length buf)) buf) (length buf))
      × (contents (publish (store_body (store_length b (length buf)) buf) (length buf))
          ≡ contents b ++ frame buf)
send_lem {b} v buf h =
    let (lv, lc, lw, ls) = store_length_lem v (length buf) (omega arith) in
    let (bv, bc, bw, bs) = store_body_lem lv buf (omega (arith, lw)) in
    let (pv, pc) = publish_lem bv (length buf) (omega (arith, lw, bw)) in
    (pv, pc ∙ ap₂ ◌++◌ (bc ∙ lc) (bs ∙ ap (λ l. l ++ buf) ls))

-- The front of the queue is a whole message.
module _ {b : ShmBuffer} (v : IsValid b) (msg rest : List ℕ) (small : length msg < u32_max)
    (front : contents b ≡ frame msg ++ rest) where
  pub readable_front : readable b ≡ 4 + length msg + length rest
  readable_front =
      omega (
        arith,
        length-contents b,
        ap length front,
        length-append (frame msg) rest,
        length-frame msg,
      )

  pub peek-length : (peek b 4 0).copied ≡ u32_bytes (length msg)
  peek-length =
      (peek_lem v 4 0).0
      ∙ ap (take 4) (front ∙ append_assoc (u32_bytes (length msg)) msg rest)
      ∙ ap (λ n. take n (u32_bytes (length msg) ++ (msg ++ rest)))
          (sym (length-u32_bytes (length msg)))
      ∙ take-append_length (u32_bytes (length msg)) (msg ++ rest)

  pub peeked_length : u32_value (peek b 4 0).copied ≡ length msg
  peeked_length = ap u32_value peek-length ∙ u32_value-bytes (length msg) small

  pub peeked_count : (peek b 4 0).count ≡ 4
  peeked_count = omega (arith, (peek_lem v 4 0).1, length-contents b, readable_front)

  drop_header : drop 4 (contents b) ≡ msg ++ rest
  drop_header =
      ap (drop 4) (front ∙ append_assoc (u32_bytes (length msg)) msg rest)
      ∙ ap (λ n. drop n (u32_bytes (length msg) ++ (msg ++ rest)))
          (sym (length-u32_bytes (length msg)))
      ∙ drop-append_length (u32_bytes (length msg)) (msg ++ rest)

  pub peek_body : (peek b (length msg) 4).copied ≡ msg
  peek_body =
      (peek_lem v (length msg) 4).0
      ∙ ap (take (length msg)) drop_header
      ∙ take-append_length msg rest

  pub consumed : contents (read_len b (4 + length msg)) ≡ rest
  consumed =
      (read_len-refines v (4 + length msg)).1
      ∙ ap (drop (4 + length msg)) front
      ∙ ap (λ n. drop n (frame msg ++ rest)) (sym (length-frame msg))
      ∙ drop-append_length (frame msg) rest
