-- ===== src/Shm/Buffer/Queue.antt =====
-- The ring buffer of shm_buffer.cpp as a bounded queue of bytes: its invariant, and the list of the
-- bytes that were written and not yet read.
use simple.Prelude.{ℕ, ◌+◌, ◌-◌, ◌≤◌, ◌<◌, Bool, true, false, ltb, leb}
use simple.Prelude.{if◌then◌else◌, List, [], ◌++◌, refl, length, ◌≡◌, arith}
use simple.Prelude.{◌&&◌}
use simple.Shm.Circular.{window, advance}
use simple.Shm.Circular.{length-window}
use simple.Shm.Buffer.{ShmBuffer, size_max, create, readable, writable}

pub record IsValid (b : ShmBuffer) : Type 0 where
  pub nonempty : 0 < b.size
  pub fits : b.size < size_max
  pub read_total_fits : b.read_total < size_max
  pub write_total_fits : b.write_total < size_max
  pub read_index_in : b.read_index < b.size
  pub within : readable b ≤ b.size
  pub write_index_at : b.write_index ≡ advance b.size b.read_index (readable b)

-- The bytes that were written and not yet read, oldest first.
unfoldable pub contents : ShmBuffer → List ℕ
contents b = window b.bytes b.size b.read_index (readable b)

pub length-contents : (b : ShmBuffer) → length (contents b) ≡ readable b
unfolding contents
length-contents b = length-window b.bytes b.size b.read_index (readable b)

pub writable_lem : {b : ShmBuffer} → IsValid b → writable b ≡ b.size - readable b
unfolding writable readable
writable_lem v = omega arith

-- The abstract bounded queue of bytes.
abbrev pub push : ℕ → List ℕ → List ℕ → Bool × List ℕ
push capacity queue buf =
    if ltb (length queue) capacity && leb (length queue + length buf) capacity
    then (true, queue ++ buf)
    else (false, queue)

-- A block that is created is an empty queue.
pub create-IsValid : (size : ℕ) → 0 < size → size < size_max → IsValid (create size)
unfolding create readable advance
create-IsValid size h k = record {
  nonempty = h;
  fits = k;
  read_total_fits = omega arith;
  write_total_fits = omega arith;
  read_index_in = h;
  within = omega arith;
  write_index_at = ground arith;
}

pub create-contents : (size : ℕ) → contents (create size) ≡ []
unfolding create contents readable window
create-contents size = refl
