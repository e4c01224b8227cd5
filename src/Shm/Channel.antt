-- ===== src/Shm/Channel.antt =====
-- runtime/src/shm/shm_channel.cpp: messages over a pair of shared ring buffers. A message is its
-- length, a uint32_t in the machine's byte order (little-endian here), and its bytes.
pub mod Wire
pub mod Link
pub mod Messages
use simple.Prelude.{
  ℕ, ◌+◌, ◌*◌, ◌/◌, ◌%◌, ◌^◌, Bool, true, false, ltb, leb, ◌==◌, if◌then◌else◌, not,
}
use simple.Prelude.{List, [], ◌∷◌, ◌++◌, length, get_or}
use simple.Shm.Buffer.{ShmBuffer, readable, writable, fill, write_len, peek, read_len}

pub record ShmChannel : Type 0 where
  pub writer : ShmBuffer
  pub reader : ShmBuffer

-- The bytes of a uint32_t, and back.
unfoldable pub u32_bytes : ℕ → List ℕ
u32_bytes n = n % 256 ∷ n / 256 % 256 ∷ n / 65536 % 256 ∷ n / 16777216 % 256 ∷ []

unfoldable pub u32_value : List ℕ → ℕ
u32_value bs =
    get_or bs 0 0 + 256 * get_or bs 1 0 + 65536 * get_or bs 2 0 + 16777216 * get_or bs 3 0

-- The three steps of `try_write` on the ring.
unfoldable pub store_length : ShmBuffer → ℕ → ShmBuffer
store_length b len = (fill b (u32_bytes len) 0).1

unfoldable pub store_body : ShmBuffer → List ℕ → ShmBuffer
store_body b buf = (fill b buf 4).1

unfoldable pub publish : ShmBuffer → ℕ → ShmBuffer
publish b len = write_len b (len + 4)

unfoldable pub try_write : ShmChannel → List ℕ → Bool × ShmChannel
try_write c buf =
    let len = length buf in
    if ltb (writable c.writer) (len + 4)
    then (false, c)
    else (true, record c { writer = publish (store_body (store_length c.writer len) buf) len })

pub record ReadOutcome : Type 0 where
  pub count : ℕ
  pub copied : List ℕ
  pub after : ShmBuffer

-- `try_read` on the ring; `has_buf` is false for a null pointer.
unfoldable pub try_receive : ShmBuffer → Bool → ℕ → ReadOutcome
try_receive b has_buf size =
    let header = peek b 4 0 in
    let len = u32_value header.copied in
    let nothing =
      λ (n : ℕ). let r : ReadOutcome = record { count = n; copied = []; after = b } in r in
    if ltb header.count 4
    then nothing 0
    else (if ltb (readable b) (4 + len)
        then nothing 0
        else (if not has_buf
            then nothing len
            else (if ltb size len then nothing 0 else record {
              count = len;
              copied = (peek b len 4).copied;
              after = read_len b (len + 4);
            })))

pub record TryRead : Type 0 where
  pub count : ℕ
  pub copied : List ℕ
  pub channel : ShmChannel

unfoldable pub try_read : ShmChannel → Bool → ℕ → TryRead
try_read c has_buf size =
    let r = try_receive c.reader has_buf size in
    record { count = r.count; copied = r.copied; channel = record c { reader = r.after } }

-- What a coroutine does next: wait until so many bytes are readable or writable, or go on.
pub data WriteStep : Type 0 where
  wait_writable : ℕ → WriteStep
  written : ShmChannel → WriteStep

-- One round of `write`: the first attempt, and each one after a wait.
unfoldable pub write_round : ShmChannel → List ℕ → WriteStep
write_round c buf =
    let r = try_write c buf in if r.0 then written r.1 else wait_writable (length buf + 4)

-- Where `read` has been suspended: before the length, or before the body of a known length.
pub data ReadPhase : Type 0 where
  at_length : ReadPhase
  at_body : ℕ → ReadPhase

pub data ReadStep : Type 0 where
  wait_readable : ReadPhase → ℕ → ReadStep
  received : List ℕ → ShmChannel → ReadStep

unfoldable pub read_body : ShmChannel → ℕ → ReadStep
read_body c len =
    if ltb (readable c.reader) (4 + len)
    then wait_readable (at_body len) (4 + len)
    else received (peek c.reader len 4).copied (record c { reader = read_len c.reader (4 + len) })

unfoldable pub read_round : ShmChannel → ReadPhase → ReadStep
read_round c at_length =
    let header = peek c.reader 4 0 in
    if ltb header.count 4 then wait_readable at_length 4 else read_body c (u32_value header.copied)
read_round c (at_body len) = read_body c len
