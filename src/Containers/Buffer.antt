-- ===== src/Containers/Buffer.antt =====
-- The class buffer and memory_buffer of runtime/include/simple/containers/buffer.hpp: bytes between
-- two positions. `fresh` is what newly allocated memory holds. Whether the bytes stand in the object
-- itself or in allocated memory shows only in `release`, which goes back to the former.
pub mod Contents
use simple.Prelude.{
  ℕ, ◌+◌, ◌-◌, ◌*◌, ◌/◌, ◌%◌, ◌^◌, min, Bool, true, false, ltb, ◌==◌, if◌then◌else◌, List, length,
  take,
}
use simple.Prelude.Memory.{Memory, load, store}

pub record MemoryBuffer : Type 0 where
  pub bytes : Memory
  pub capacity : ℕ
  pub read_at : ℕ
  pub write_at : ℕ

abbrev pub readable : MemoryBuffer → ℕ
readable b = b.write_at - b.read_at

abbrev pub writable : MemoryBuffer → ℕ
writable b = b.capacity - b.write_at

abbrev pub prependable : MemoryBuffer → ℕ
prependable b = b.read_at

unfoldable pub shrink : MemoryBuffer → MemoryBuffer
shrink b = if b.read_at == 0 then b else record b {
  bytes = store b.bytes 0 (load b.bytes b.read_at (readable b));
  read_at = 0;
  write_at = readable b;
}

unfoldable pub clear : MemoryBuffer → ℕ → MemoryBuffer
clear b prepended = let n = min prepended b.capacity in record b { read_at = n; write_at = n }

unfoldable pub written : MemoryBuffer → ℕ → MemoryBuffer
written b sz = record b { write_at = b.write_at + min sz (writable b) }

-- void read(size_t sz)
unfoldable pub skip : MemoryBuffer → ℕ → MemoryBuffer
skip b sz = record b { read_at = b.read_at + min sz (readable b) }

unfoldable pub peek : MemoryBuffer → ℕ → List ℕ
peek b sz = load b.bytes b.read_at (min sz (readable b))

unfoldable pub rpeek : MemoryBuffer → ℕ → List ℕ
rpeek b sz = let n = min sz (readable b) in load b.bytes (b.write_at - n) n

unfoldable pub prepend : MemoryBuffer → List ℕ → Bool × MemoryBuffer
prepend b buf =
    let len = length buf in
    if ltb (prependable b) len
    then (false, b)
    else (true, record b { bytes = store b.bytes (b.read_at - len) buf; read_at = b.read_at - len })

-- std::allocator<uint8_t>::max_size()
abbrev pub max_size : ℕ
max_size = 2 ^ 63 - 1

unfoldable pub new_capacity : ℕ → ℕ → ℕ
new_capacity capacity size =
    let larger = (capacity + capacity / 2) % 2 ^ 64 in
    if ltb larger size
    then size
    else (if ltb max_size larger then (if ltb max_size size then size else max_size) else larger)

unfoldable pub grow : Memory → MemoryBuffer → ℕ → MemoryBuffer
grow fresh b size = record b {
  bytes = store fresh 0 (load b.bytes 0 b.write_at);
  capacity = new_capacity b.capacity size;
}

unfoldable pub make_sure_writable : Memory → MemoryBuffer → ℕ → MemoryBuffer
make_sure_writable fresh b len =
    let sz = writable b in if ltb sz len then grow fresh b ((b.capacity + len - sz) % 2 ^ 64) else b

unfoldable pub reserve : Memory → MemoryBuffer → ℕ → MemoryBuffer
reserve fresh b size = if ltb b.capacity size then grow fresh b size else b

-- buffer::append: what the room holds of `buf`.
unfoldable pub append_here : MemoryBuffer → List ℕ → MemoryBuffer
append_here b buf =
    written (record b { bytes = store b.bytes b.write_at (take (writable b) buf) }) (length buf)

unfoldable pub append : Memory → MemoryBuffer → List ℕ → MemoryBuffer
append fresh b buf = append_here (make_sure_writable fresh b (length buf)) buf
