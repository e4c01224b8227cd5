-- ===== src/Shm/Buffer/Writing.antt =====
-- What the writing operations of shm_buffer.cpp do to the queue of bytes, and to the bytes that
-- `fill` has stored behind it.
use simple.Prelude.{ℕ, zero, suc, ◌+◌, ◌-◌, ◌%◌, ◌≤◌, ◌<◌, Bool, true, false}
use simple.Prelude.{List, [], ◌∷◌, ◌++◌, length, ◌≡◌, refl, sym, ap, ap₂, ◌∙◌, arith}
use simple.Prelude.{inl, inr, ◌⊎◌, dec_lt, dec_le}
use simple.Prelude.{eq-nil, subst}
use simple.Prelude.Memory.{Memory}
use simple.Shm.Circular.{window, wstore, advance, gap, advance-lt, advance-zero}
use simple.Shm.Buffer.Queue.{push}
use simple.Shm.Circular.{window-append, wstore-nil}
use simple.Shm.Circular.{window-wstore, window-wstore_outside, gap-advance_pos}
use simple.Shm.Buffer.Segments.{start_lem, finish_lem, advance-advance, copy_in_lem}
use simple.Shm.Buffer.{ShmBuffer, size_max, readable, writable, start}
use simple.Shm.Buffer.{finish, copy_in, write_impl, write, write_len, fill}
use simple.Shm.Buffer.Queue.{IsValid, contents, length-contents, writable_lem}

module _ {b : ShmBuffer} (v : IsValid b) where
  write_index_in : b.write_index < b.size
  write_index_in =
      subst (λ i. i < b.size) (sym v.write_index_at)
        (advance-lt b.size b.read_index (readable b) v.read_index_in v.within)

  -- The gap from a place behind the queue to the queue's front.
  gap_front :
      (k : ℕ)
      → 0 < readable b
      → readable b + k < b.size
      → gap b.size (advance b.size b.write_index k) b.read_index ≡ b.size - (readable b + k)
  gap_front k h l =
      ap (λ i. gap b.size (advance b.size i k) b.read_index) v.write_index_at
      ∙ ap (λ i. gap b.size i b.read_index)
          (advance-advance b.size b.read_index (readable b) k v.read_index_in (omega arith))
      ∙ gap-advance_pos b.size b.read_index (readable b + k) v.read_index_in l (omega arith)

-- A buffer with other bytes.
abbrev with_bytes : ShmBuffer → Memory → ShmBuffer
with_bytes b m = record b { bytes = m }

with_bytes-IsValid : {b : ShmBuffer} → IsValid b → (m : Memory) → IsValid (with_bytes b m)
unfolding readable
with_bytes-IsValid v m = record {
  nonempty = v.nonempty;
  fits = v.fits;
  read_total_fits = v.read_total_fits;
  write_total_fits = v.write_total_fits;
  read_index_in = v.read_index_in;
  within = v.within;
  write_index_at = v.write_index_at;
}

-- The `k` bytes behind the queue: those that `fill` stores and `write_len` publishes.
unfoldable pub staged : ShmBuffer → ℕ → List ℕ
staged b k = window b.bytes b.size b.write_index k

write_impl_fits :
    (b : ShmBuffer) (buf : List ℕ) (offset index : ℕ)
    → offset < writable b
    → offset + length buf ≤ writable b
    → write_impl b buf offset index ≡ record {
      success = true;
      index = finish b.size (start b.size b.write_index offset) (length buf);
      after = with_bytes b (copy_in b.bytes b.size (start b.size b.write_index offset) buf);
    }
unfolding write_impl
write_impl_fits b buf offset index h l = ground arith

pub write_impl_full :
    (b : ShmBuffer) (buf : List ℕ) (offset index : ℕ)
    → (writable b ≤ offset) ⊎ (writable b < offset + length buf)
    → write_impl b buf offset index ≡ record { success = false; index = index; after = b }
unfolding write_impl
write_impl_full b buf offset index h = ground arith

-- The buffer after a `fill` that fits.
abbrev filled : ShmBuffer → List ℕ → ℕ → ShmBuffer
filled b buf offset = with_bytes b (wstore b.bytes b.size (advance b.size b.write_index offset) buf)

fill-filled :
    {b : ShmBuffer}
    → IsValid b
    → (buf : List ℕ) (offset : ℕ) → offset + length buf ≤ writable b
    → (fill b buf offset).1 ≡ filled b buf offset
unfolding fill
fill-filled {b} v buf offset h = elim (dec_lt offset (writable b)) [
  | yes l ↦
      ap (λ r. r.after) (write_impl_fits b buf offset 0 l h)
      ∙ ap (λ i. with_bytes b (copy_in b.bytes b.size i buf))
          (start_lem b.size b.write_index offset (write_index_in v) (omega (arith, writable_lem v)))
      ∙ ap (with_bytes b) (
          copy_in_lem b.bytes b.size (advance b.size b.write_index offset) buf
            (advance-lt b.size b.write_index offset (write_index_in v)
              (omega (arith, writable_lem v)))
            (omega (arith, writable_lem v)))
  | no ge ↦
      ap (λ r. r.after) (write_impl_full b buf offset 0 (inl (omega arith)))
      ∙ ap (with_bytes b) (sym (wstore-nil b.bytes b.size (advance b.size b.write_index offset)))
      ∙ ap (λ bs. with_bytes b (wstore b.bytes b.size (advance b.size b.write_index offset) bs))
          (sym (eq-nil buf (omega arith)))
]

-- Storing behind the queue changes neither the queue nor what is staged before the offset.
filled-contents :
    {b : ShmBuffer}
    → IsValid b
    → (buf : List ℕ) (offset : ℕ) → offset + length buf ≤ writable b
    → contents (filled b buf offset) ≡ contents b
unfolding contents readable window
filled-contents {b} v [] offset h =
    ap (λ m. window m b.size b.read_index (readable b))
      (wstore-nil b.bytes b.size (advance b.size b.write_index offset))
filled-contents {b} v (c ∷ buf) offset h = elim (dec_lt 0 (readable b)) [
  | yes p ↦
      window-wstore_outside b.bytes b.size (advance b.size b.write_index offset) (c ∷ buf)
        b.read_index (readable b)
        (advance-lt b.size b.write_index offset (write_index_in v) (omega (arith, writable_lem v)))
        v.read_index_in
        (omega (arith, writable_lem v, gap_front v offset p (omega (arith, writable_lem v))))
        (omega (arith, writable_lem v, gap_front v offset p (omega (arith, writable_lem v))))
  | no z ↦
      let e : readable b ≡ 0 = omega arith in
      let m = wstore b.bytes b.size (advance b.size b.write_index offset) (c ∷ buf) in
      ap (window m b.size b.read_index) e ∙ sym (ap (window b.bytes b.size b.read_index) e)
]

staged_before :
    {b : ShmBuffer}
    → IsValid b
    → (buf : List ℕ) (offset : ℕ) → offset + length buf ≤ writable b
    → staged (filled b buf offset) offset ≡ staged b offset
unfolding staged
staged_before {b} v [] offset h =
    ap (λ m. window m b.size b.write_index offset)
      (wstore-nil b.bytes b.size (advance b.size b.write_index offset))
staged_before {b} v (c ∷ buf) zero h = unfold window in refl
staged_before {b} v (c ∷ buf) (suc k) h =
    let e =
      gap-advance_pos b.size b.write_index (suc k) (write_index_in v)
        (omega (arith, writable_lem v)) (omega arith) in
    window-wstore_outside b.bytes b.size (advance b.size b.write_index (suc k)) (c ∷ buf)
      b.write_index (suc k)
      (advance-lt b.size b.write_index (suc k) (write_index_in v) (omega (arith, writable_lem v)))
      (write_index_in v) (omega (arith, writable_lem v, e)) (omega (arith, writable_lem v, e))

filled-staged :
    {b : ShmBuffer}
    → IsValid b
    → (buf : List ℕ) (offset : ℕ) → offset + length buf ≤ writable b
    → staged (filled b buf offset) (offset + length buf) ≡ staged b offset ++ buf
filled-staged {b} v buf offset h =
    unfold staged in
    (window-append _ b.size b.write_index offset (length buf) (write_index_in v)
      (omega (arith, writable_lem v)))
    ∙ ap₂ ◌++◌ (staged_before v buf offset h) (
        window-wstore b.bytes b.size (advance b.size b.write_index offset) buf
          (advance-lt b.size b.write_index offset (write_index_in v)
            (omega (arith, writable_lem v)))
          (omega (arith, writable_lem v)))

-- A `fill` that fits stores `buf` at its offset behind the queue, and leaves the queue as it was.
pub fill-staged :
    {b : ShmBuffer}
    → IsValid b
    → (buf : List ℕ) (offset : ℕ) → offset + length buf ≤ writable b
    → IsValid (fill b buf offset).1
      × (contents (fill b buf offset).1 ≡ contents b)
      × (writable (fill b buf offset).1 ≡ writable b)
      × (staged (fill b buf offset).1 (offset + length buf) ≡ staged b offset ++ buf)
unfolding writable
fill-staged {b} v buf offset h =
    let e = fill-filled v buf offset h in
    (
      subst IsValid (sym e) (with_bytes-IsValid v _),
      ap contents e ∙ filled-contents v buf offset h,
      ap (λ c. ((c.size + c.read_total + size_max) - c.write_total) % size_max) e,
      ap (λ c. staged c (offset + length buf)) e ∙ filled-staged v buf offset h,
    )

-- What fill does to a valid ring: the bytes are staged and the answer is true when they fit behind an
-- offset that lies in the room; otherwise nothing is touched and the answer is false.
pub fill-refines :
    {b : ShmBuffer}
    → IsValid b
    → (buf : List ℕ) (offset : ℕ)
    → ((offset < writable b)
        × (offset + length buf ≤ writable b)
        × ((fill b buf offset).0 ≡ true)
        × IsValid (fill b buf offset).1
        × (contents (fill b buf offset).1 ≡ contents b)
        × (writable (fill b buf offset).1 ≡ writable b)
        × (staged (fill b buf offset).1 (offset + length buf) ≡ staged b offset ++ buf))
      ⊎ (((writable b ≤ offset) ⊎ (writable b < offset + length buf))
          × (fill b buf offset ≡ (false, b)))
unfolding fill
fill-refines {b} v buf offset = elim (dec_lt offset (writable b)) [
  | no out ↦ inr (
    inl (omega arith),
    ap (λ r. (r.success, r.after)) (write_impl_full b buf offset 0 (inl (omega arith))),
  )
  | yes l ↦ elim (dec_le (offset + length buf) (writable b)) [
    | no long ↦ inr (
      inr (omega arith),
      ap (λ r. (r.success, r.after)) (write_impl_full b buf offset 0 (inr (omega arith))),
    )
    | yes fits ↦
        let (fv, fc, fw, fs) = fill-staged v buf offset fits in
        inl (l, fits, ap (λ r. r.success) (write_impl_fits b buf offset 0 l fits), fv, fc, fw, fs)
  ]
]

-- The buffer after `n` staged bytes were published.
abbrev published : ShmBuffer → ℕ → ShmBuffer
published b n = record b {
  write_index = advance b.size b.write_index n;
  write_total = (b.write_total + n) % size_max;
}

write_len-published :
    {b : ShmBuffer} → IsValid b → (n : ℕ) → n ≤ writable b → write_len b n ≡ published b n
unfolding write_len
write_len-published {b} v n h =
    ground (arith, writable_lem v, write_index_in v, finish_lem b.size b.write_index n)

readable-published :
    {b : ShmBuffer}
    → IsValid b
    → (n : ℕ) → n ≤ writable b
    → readable (published b n) ≡ readable b + n
unfolding readable writable
readable-published v n h = omega arith

published-IsValid : {b : ShmBuffer} → IsValid b → (n : ℕ) → n ≤ writable b → IsValid (published b n)
published-IsValid {b} v n h =
    let r = readable-published v n h in
    let w = writable_lem v in
    record {
      nonempty = v.nonempty;
      fits = v.fits;
      read_total_fits = v.read_total_fits;
      write_total_fits = omega arith;
      read_index_in = v.read_index_in;
      within = omega (arith, r, w);
      write_index_at =
          ap (λ i. advance b.size i n) v.write_index_at
          ∙ advance-advance b.size b.read_index (readable b) n v.read_index_in (omega (arith, w))
          ∙ ap (advance b.size b.read_index) (sym r);
    }

published-contents :
    {b : ShmBuffer}
    → IsValid b
    → (n : ℕ) → n ≤ writable b
    → contents (published b n) ≡ contents b ++ staged b n
unfolding contents staged
published-contents {b} v n h =
    ap (window b.bytes b.size b.read_index) (readable-published v n h)
    ∙ window-append b.bytes b.size b.read_index (readable b) n v.read_index_in v.within
    ∙ ap (λ i. window b.bytes b.size b.read_index (readable b) ++ window b.bytes b.size i n)
        (sym v.write_index_at)

-- `write_len` joins the staged bytes to the queue.
pub write_len-refines :
    {b : ShmBuffer}
    → IsValid b
    → (n : ℕ) → n ≤ writable b
    → IsValid (write_len b n) × (contents (write_len b n) ≡ contents b ++ staged b n)
write_len-refines {b} v n h =
    let e = write_len-published v n h in
    (subst IsValid (sym e) (published-IsValid v n h), ap contents e ∙ published-contents v n h)

-- `write` is `fill` and `write_len` in one call.
write-fill :
    (b : ShmBuffer) (buf : List ℕ)
    → 0 < writable b
    → length buf ≤ writable b
    → IsValid b
    → write b buf ≡ (true, published (fill b buf 0).1 (length buf))
unfolding write fill
write-fill b buf h l v = ground (
  arith,
  write_impl_fits b buf 0 0 h,
  write_index_in v,
  start_lem b.size b.write_index 0,
  advance-zero b.size b.write_index,
  finish_lem b.size b.write_index (length buf),
  writable_lem v,
)

write_full :
    (b : ShmBuffer) (buf : List ℕ)
    → (writable b ≤ 0) ⊎ (writable b < length buf)
    → write b buf ≡ (false, b)
unfolding write
write_full b buf h = ground (arith, write_impl_full b buf 0 0)

pub staged_zero : (b : ShmBuffer) → staged b 0 ≡ []
unfolding staged window
staged_zero b = refl

-- A buffer that fits joins the queue.
write_fits :
    {b : ShmBuffer}
    → IsValid b
    → (buf : List ℕ) → 0 < writable b
    → length buf ≤ writable b
    → IsValid (write b buf).1
      × (write b buf ≡ (true, (write b buf).1))
      × (contents (write b buf).1 ≡ contents b ++ buf)
write_fits {b} v buf h l =
    let e = write-fill b buf h l v in
    let (fv, fc, fw, fs) = fill-staged v buf 0 (omega arith) in
    let z : 0 + length buf ≡ length buf = omega arith in
    let inside : length buf ≤ writable (fill b buf 0).1 = omega (arith, fw) in
    (
      subst IsValid (sym (ap (λ r. r.1) e)) (published-IsValid fv (length buf) inside),
      e ∙ sym (ap (λ r. (true, r.1)) e),
      ap (λ r. contents r.1) e
          ∙ published-contents fv (length buf) inside
          ∙ ap₂ ◌++◌ fc
              (ap (staged (fill b buf 0).1) (sym z) ∙ fs ∙ ap (λ l. l ++ buf) (staged_zero b)),
    )

push_fits :
    (capacity : ℕ) (queue buf : List ℕ)
    → length queue < capacity
    → length queue + length buf ≤ capacity
    → push capacity queue buf ≡ (true, queue ++ buf)
push_fits capacity queue buf h l = ground arith

push_full :
    (capacity : ℕ) (queue buf : List ℕ)
    → (capacity ≤ length queue) ⊎ (capacity < length queue + length buf)
    → push capacity queue buf ≡ (false, queue)
push_full capacity queue buf h = ground arith

-- `write` on a valid buffer keeps it valid, and is `push` on the bounded queue of bytes: the whole of
-- `buf` joins the queue and the answer is true, or the answer is false and the queue is as it was.
pub write-refines :
    {b : ShmBuffer}
    → IsValid b
    → (buf : List ℕ)
    → IsValid (write b buf).1
      × (((write b buf).0, contents (write b buf).1) ≡ push b.size (contents b) buf)
write-refines {b} v buf = elim (dec_lt 0 (writable b)) [
  | no z ↦
      let e = write_full b buf (inl (omega arith)) in
      (
        subst IsValid (sym (ap (λ r. r.1) e)) v,
        ap (λ r. (r.0, contents r.1)) e
            ∙ sym (
                push_full b.size (contents b) buf
                  (inl (omega (arith, writable_lem v, length-contents b)))),
      )
  | yes p ↦ elim (dec_le (length buf) (writable b)) [
    | yes l ↦
        let (wv, we, wc) = write_fits v buf p l in
        (
          wv,
          ap₂ {A = Bool} (λ t c. (t, c)) (ap (λ r. r.0) we) wc
              ∙ sym (
                  push_fits b.size (contents b) buf
                    (omega (arith, writable_lem v, length-contents b))
                    (omega (arith, writable_lem v, length-contents b))),
        )
    | no l ↦
        let e = write_full b buf (inr (omega arith)) in
        (
          subst IsValid (sym (ap (λ r. r.1) e)) v,
          ap (λ r. (r.0, contents r.1)) e
              ∙ sym (
                  push_full b.size (contents b) buf
                    (inr (omega (arith, writable_lem v, length-contents b)))),
        )
  ]
]
