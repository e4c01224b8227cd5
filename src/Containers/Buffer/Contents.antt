-- ===== src/Containers/Buffer/Contents.antt =====
-- memory_buffer as a queue of bytes.
use simple.Prelude.{
  ℕ, zero, suc, ◌+◌, ◌-◌, ◌%◌, ◌^◌, ◌<◌, ◌≤◌, min, ◌≡◌, refl, sym, ap, ap₂, subst, take_all,
  drop-min, ◌∙◌, arith, Bool, true, false, ltb, ◌==◌, if◌then◌else◌, List, ◌∷◌, ◌++◌, length, drop,
  drop-append_length, Bool-cases, inl, inr, suc-add,
}
use simple.Prelude.Memory.{Memory, load, store, length-load, load-store, load-store_outside}
use simple.Containers.Buffer.{
  MemoryBuffer, readable, writable, prependable, shrink, written, skip, prepend, new_capacity, grow,
  make_sure_writable, append_here, append,
}

pub record IsBuffer (b : MemoryBuffer) : Type 0 where
  pub read_le : b.read_at ≤ b.write_at
  pub write_le : b.write_at ≤ b.capacity

-- The bytes that are still to be read.
abbrev pub unread : MemoryBuffer → List ℕ
unread b = load b.bytes b.read_at (readable b)

load-add : (m : Memory) (a n k : ℕ) → load m a (n + k) ≡ load m a n ++ load m (a + n) k
unfolding load
load-add m a zero k = ap₂ (load m) start count
  where
    start : a ≡ a + 0
    start = omega arith

    count : 0 + k ≡ k
    count = omega arith
load-add m a (suc n) k =
    ap (load m a) (suc-add n k)
    ∙ ap (◌∷◌ (m a)) (load-add m (suc a) n k)
    ∙ ap (λ i. m a ∷ (load m (suc a) n ++ load m i k)) next
  where
    next : suc a + n ≡ a + suc n
    next = omega arith

drop-load : (m : Memory) (a n k : ℕ) → drop n (load m a (n + k)) ≡ load m (a + n) k
drop-load m a n k =
    ap (drop n) (load-add m a n k)
    ∙ ap (λ i. drop i (load m a n ++ load m (a + n) k)) (sym (length-load m a n))
    ∙ drop-append_length (load m a n) (load m (a + n) k)

-- Memories with the same first bytes have the same bytes in between.
window : (m k : Memory) (r n : ℕ) → load m 0 (r + n) ≡ load k 0 (r + n) → load m r n ≡ load k r n
window m k r n e =
    ap (λ i. load m i n) at
    ∙ sym (drop-load m 0 r n)
    ∙ ap (drop r) e
    ∙ drop-load k 0 r n
    ∙ ap (λ i. load k i n) (sym at)
  where
    at : r ≡ 0 + r
    at = omega arith

-- More memory keeps the bytes.
grow-unread :
    (fresh : Memory) (b : MemoryBuffer) (size : ℕ)
    → IsBuffer b
    → unread (grow fresh b size) ≡ unread b
unfolding grow
grow-unread fresh b size v =
    window (store fresh 0 (load b.bytes 0 b.write_at)) b.bytes b.read_at (readable b) (
      ap (load (store fresh 0 (load b.bytes 0 b.write_at)) 0) long
      ∙ load-store fresh 0 (load b.bytes 0 b.write_at)
      ∙ ap (load b.bytes 0) (sym whole))
  where
    whole : b.read_at + readable b ≡ b.write_at
    whole = omega (arith, v.read_le)

    long : b.read_at + readable b ≡ length (load b.bytes 0 b.write_at)
    long = whole ∙ sym (length-load b.bytes 0 b.write_at)

new_capacity_enough :
    (capacity size : ℕ) → size < 2 ^ 63 → capacity ≤ size → size ≤ new_capacity capacity size
unfolding new_capacity
new_capacity_enough capacity size h k = ground arith

-- What make_sure_writable leaves.
record IsRoomy (b after : MemoryBuffer) (len : ℕ) : Type 0 where
  valid : IsBuffer after
  same : unread after ≡ unread b
  room : len ≤ writable after

grow-IsRoomy :
    (fresh : Memory) (b : MemoryBuffer) (len asked : ℕ)
    → IsBuffer b
    → asked ≡ b.write_at + len
    → asked < 2 ^ 63
    → b.capacity ≤ asked
    → b.capacity + len < 2 ^ 63
    → IsRoomy b (grow fresh b asked) len
unfolding grow
grow-IsRoomy fresh b len asked v e small more h = record {
  valid = record { read_le = v.read_le; write_le = fits };
  same = grow-unread fresh b asked v;
  room = enough;
}
  where
    larger : asked ≤ (grow fresh b asked).capacity
    larger = new_capacity_enough b.capacity asked small more

    fits : b.write_at ≤ (grow fresh b asked).capacity
    fits = omega (arith, larger, e)

    enough : len ≤ (grow fresh b asked).capacity - b.write_at
    enough = omega (arith, larger, e)

make_sure_writable-IsRoomy :
    (fresh : Memory) (b : MemoryBuffer) (len : ℕ)
    → IsBuffer b
    → b.capacity + len < 2 ^ 63
    → IsRoomy b (make_sure_writable fresh b len) len
unfolding make_sure_writable
make_sure_writable-IsRoomy fresh b len v h = elim (Bool-cases (ltb (writable b) len)) [
  | inl e ↦
      subst (λ r. IsRoomy b r len) (sym (ap (λ t. if t then grow fresh b asked else b) e)) (grown e)
  | inr e ↦
      subst (λ r. IsRoomy b r len) (sym (ap (λ t. if t then grow fresh b asked else b) e))
        (record { valid = v; same = refl; room = ground arith })
]
  where
    asked : ℕ
    asked = (b.capacity + len - writable b) % 2 ^ 64

    grown : ltb (writable b) len ≡ true → IsRoomy b (grow fresh b asked) len
    grown e =
        grow-IsRoomy fresh b len asked v (ground (arith, v.write_le))
          (ground (arith, v.write_le, v.read_le)) (ground (arith, v.write_le, e)) h

append_here_lem :
    (b : MemoryBuffer) (buf : List ℕ)
    → IsBuffer b
    → length buf ≤ writable b
    → IsBuffer (append_here b buf) × (unread (append_here b buf) ≡ unread b ++ buf)
unfolding append_here written
append_here_lem b buf v room = (
  record { read_le = omega (arith, v.read_le); write_le = omega (arith, v.write_le) },
  ap₂ (λ bs n. load (store b.bytes b.write_at bs) b.read_at n) (take_all (writable b) buf room)
        count
      ∙ load-add (store b.bytes b.write_at buf) b.read_at (readable b) (length buf)
      ∙ ap₂ (λ x y. x ++ y)
          (load-store_outside b.bytes b.write_at buf b.read_at (readable b)
            (inl (omega (arith, v.read_le))))
          (ap (λ i. load (store b.bytes b.write_at buf) i (length buf)) end
            ∙ load-store b.bytes b.write_at buf),
)
  where
    count : b.write_at + min (length buf) (writable b) - b.read_at ≡ readable b + length buf
    count = omega (arith, v.read_le, room)

    end : b.read_at + readable b ≡ b.write_at
    end = omega (arith, v.read_le)

-- On a valid buffer, with a capacity and a length below 2 ^ 63 together, appending, which grows it
-- where it has to, adds the bytes behind those to be read and keeps it valid.
pub append-unread :
    (fresh : Memory) (b : MemoryBuffer) (buf : List ℕ)
    → IsBuffer b
    → b.capacity + length buf < 2 ^ 63
    → IsBuffer (append fresh b buf) × (unread (append fresh b buf) ≡ unread b ++ buf)
unfolding append
append-unread fresh b buf v h =
    let roomy = make_sure_writable-IsRoomy fresh b (length buf) v h in
    let done =
      append_here_lem (make_sure_writable fresh b (length buf)) buf roomy.valid roomy.room in
    (done.0, done.1 ∙ ap (λ xs. xs ++ buf) roomy.same)

-- On a valid buffer skipping takes bytes off the front, and all of them where there are fewer.
pub skip-unread :
    (b : MemoryBuffer) (sz : ℕ)
    → IsBuffer b
    → IsBuffer (skip b sz) × (unread (skip b sz) ≡ drop sz (unread b))
unfolding skip
skip-unread b sz v = (
  record { read_le = omega (arith, v.read_le); write_le = v.write_le },
  ap (load b.bytes (b.read_at + n)) left
      ∙ sym (drop-load b.bytes b.read_at n (readable b - n))
      ∙ ap (λ k. drop n (load b.bytes b.read_at k)) back
      ∙ ap (λ k. drop (min sz k) (unread b)) (sym (length-load b.bytes b.read_at (readable b)))
      ∙ drop-min sz (unread b),
)
  where
    n : ℕ
    n = min sz (readable b)

    left : b.write_at - (b.read_at + n) ≡ readable b - n
    left = omega arith

    back : n + (readable b - n) ≡ readable b
    back = omega arith

-- Shrinking a valid buffer moves the bytes to the front and changes none.
pub shrink-unread :
    (b : MemoryBuffer)
    → IsBuffer b
    → IsBuffer (shrink b) × (((shrink b).read_at ≡ 0) × (unread (shrink b) ≡ unread b))
unfolding shrink
shrink-unread b v = elim (Bool-cases (b.read_at == 0)) [
  | inl e ↦ subst Kept (sym (ap (λ t. if t then b else moved) e)) (v, (ground (arith, e), refl))
  | inr e ↦ subst Kept (sym (ap (λ t. if t then b else moved) e)) (
    record { read_le = omega arith; write_le = omega (arith, v.read_le, v.write_le) },
    (refl, ap (load (store b.bytes 0 (unread b)) 0) long ∙ load-store b.bytes 0 (unread b)),
  )
]
  where
    Kept : MemoryBuffer → Type 0
    Kept r = IsBuffer r × ((r.read_at ≡ 0) × (unread r ≡ unread b))

    moved : MemoryBuffer
    moved = record b { bytes = store b.bytes 0 (unread b); read_at = 0; write_at = readable b }

    long : readable b - 0 ≡ length (unread b)
    long = omega (arith, length-load b.bytes b.read_at (readable b))

-- Prepending to a valid buffer where there is room puts the bytes in front.
pub prepend-unread :
    (b : MemoryBuffer) (buf : List ℕ)
    → IsBuffer b
    → length buf ≤ prependable b
    → ((prepend b buf).0 ≡ true)
      × (IsBuffer (prepend b buf).1 × (unread (prepend b buf).1 ≡ buf ++ unread b))
unfolding prepend
prepend-unread b buf v room =
    subst Put (sym (ap (λ t. if t then (false, b) else (true, put)) fits)) (
      refl,
      (
        record { read_le = omega (arith, v.read_le); write_le = v.write_le },
        ap (load held (b.read_at - length buf)) count
            ∙ load-add held (b.read_at - length buf) (length buf) (readable b)
            ∙ ap₂ (λ x y. x ++ y) (load-store b.bytes (b.read_at - length buf) buf)
                (ap (λ i. load held i (readable b)) end
                  ∙ load-store_outside b.bytes (b.read_at - length buf) buf b.read_at (readable b)
                      (inr (omega (arith, room)))),
      ),
    )
  where
    held : Memory
    held = store b.bytes (b.read_at - length buf) buf

    put : MemoryBuffer
    put = record b { bytes = held; read_at = b.read_at - length buf }

    Put : Bool × MemoryBuffer → Type 0
    Put r = (r.0 ≡ true) × (IsBuffer r.1 × (unread r.1 ≡ buf ++ unread b))

    fits : ltb (prependable b) (length buf) ≡ false
    fits = ground (arith, room)

    count : b.write_at - (b.read_at - length buf) ≡ length buf + readable b
    count = omega (arith, v.read_le, room)

    end : b.read_at - length buf + length buf ≡ b.read_at
    end = omega (arith, room)
