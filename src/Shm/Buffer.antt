-- ===== src/Shm/Buffer.antt =====
-- runtime/src/shm/shm_buffer.cpp: a ring buffer in a block of shared memory. The four counters and
-- the bytes stand in the shared block; `size` is the capacity that each process was given. A
-- size_t is a number below 2 ^ 64, and its sums and differences wrap.
pub mod Segments
pub mod Queue
pub mod Reading
pub mod Writing
use simple.Prelude.{ℕ, ◌+◌, ◌-◌, ◌%◌, ◌^◌, min, Bool, true, false, ltb, leb, ◌==◌, if◌then◌else◌}
use simple.Prelude.{List, [], ◌++◌, length, take, drop}
use simple.Prelude.Memory.{Memory, load, store}

abbrev pub size_max : ℕ
size_max = 2 ^ 64

pub record ShmBuffer : Type 0 where
  pub size : ℕ
  pub read_total : ℕ
  pub write_total : ℕ
  pub read_index : ℕ
  pub write_index : ℕ
  pub bytes : Memory

-- A block that this process creates is cleared.
unfoldable pub create : ℕ → ShmBuffer
create size = record {
  size = size;
  read_total = 0;
  write_total = 0;
  read_index = 0;
  write_index = 0;
  bytes = λ i. 0;
}

unfoldable pub readable : ShmBuffer → ℕ
readable b = ((b.write_total + size_max) - b.read_total) % size_max

unfoldable pub writable : ShmBuffer → ℕ
writable b = ((b.size + b.read_total + size_max) - b.write_total) % size_max

-- The index where a copy at `offset` from `index` begins.
unfoldable pub start : ℕ → ℕ → ℕ → ℕ
start size index offset =
    if leb size (index + offset) then (index + offset) - size else index + offset

-- The index after `len` bytes from `index` on; both copies end so.
unfoldable pub finish : ℕ → ℕ → ℕ → ℕ
finish size index len =
    if ltb (size - index) len
    then len - (size - index)
    else (if index + len == size then 0 else index + len)

-- The two memcpy calls of `read_impl`, or the one where the bytes do not run past the end.
unfoldable pub copy_out : Memory → ℕ → ℕ → ℕ → List ℕ
copy_out bytes size index len =
    if ltb (size - index) len
    then load bytes index (size - index) ++ load bytes 0 (len - (size - index))
    else load bytes index len

-- The memmove calls of `write_impl`.
unfoldable pub copy_in : Memory → ℕ → ℕ → List ℕ → Memory
copy_in bytes size index buf =
    let room = size - index in
    if ltb room (length buf)
    then store (store bytes index (take room buf)) 0 (drop room buf)
    else store bytes index buf

pub record ReadResult : Type 0 where
  pub count : ℕ
  pub copied : List ℕ
  pub index : ℕ

-- `index` is the reference parameter, which a failing call leaves alone.
unfoldable pub read_impl : ShmBuffer → ℕ → ℕ → ℕ → ReadResult
read_impl b len offset index =
    let total = readable b in
    let failed : ReadResult = record { count = 0; copied = []; index = index } in
    let n = min len (total - offset) in
    let at = start b.size b.read_index offset in
    if leb total offset
    then failed
    else (if n == 0 then failed else record {
      count = n;
      copied = copy_out b.bytes b.size at n;
      index = finish b.size at n;
    })

pub record WriteResult : Type 0 where
  pub success : Bool
  pub index : ℕ
  pub after : ShmBuffer

unfoldable pub write_impl : ShmBuffer → List ℕ → ℕ → ℕ → WriteResult
write_impl b buf offset index =
    let total = writable b in
    let len = length buf in
    let failed : WriteResult = record { success = false; index = index; after = b } in
    let at = start b.size b.write_index offset in
    if leb total offset
    then failed
    else (if ltb (total - offset) len then failed else record {
      success = true;
      index = finish b.size at len;
      after = record b { bytes = copy_in b.bytes b.size at buf };
    })

-- bool write(const void* buf, size_t len)
unfoldable pub write : ShmBuffer → List ℕ → Bool × ShmBuffer
write b buf =
    let r = write_impl b buf 0 0 in
    let after = r.after in
    if r.success
    then (
      true,
      record after {
        write_index = r.index;
        write_total = (after.write_total + length buf) % size_max;
      },
    )
    else (false, after)

-- void write(size_t len): publish what `fill` has stored.
unfoldable pub write_len : ShmBuffer → ℕ → ShmBuffer
write_len b len = if ltb (writable b) len then b else record b {
  write_index = finish b.size b.write_index len;
  write_total = (b.write_total + len) % size_max;
}

unfoldable pub fill : ShmBuffer → List ℕ → ℕ → Bool × ShmBuffer
fill b buf offset = let r = write_impl b buf offset 0 in (r.success, r.after)

pub record Received : Type 0 where
  pub count : ℕ
  pub copied : List ℕ
  pub after : ShmBuffer

-- size_t read(void* buf, size_t len)
unfoldable pub read : ShmBuffer → ℕ → Received
read b len =
    let r = read_impl b len 0 0 in
    record {
      count = r.count;
      copied = r.copied;
      after =
          if ltb 0 r.count
          then record b { read_index = r.index; read_total = (b.read_total + r.count) % size_max }
          else b;
    }

-- void read(size_t len): drop what `peek` has shown.
unfoldable pub read_len : ShmBuffer → ℕ → ShmBuffer
read_len b len =
    let n = min len (readable b) in
    if n == 0 then b else record b {
      read_index = finish b.size b.read_index n;
      read_total = (b.read_total + n) % size_max;
    }

unfoldable pub peek : ShmBuffer → ℕ → ℕ → ReadResult
peek b len offset = read_impl b len offset 0
