-- ===== src/Shm/Buffer/Reading.antt =====
-- What the reading operations of shm_buffer.cpp do to the queue of bytes.
use simple.Prelude.{ℕ, ◌+◌, ◌-◌, ◌%◌, ◌≤◌, ◌<◌, min}
use simple.Prelude.{[], length, take, drop, ◌≡◌, sym, ap, ◌∙◌, arith}
use simple.Prelude.{length-take, length-drop}
use simple.Prelude.{ℕ_discrete, drop-min, eq-nil, subst}
use simple.Shm.Circular.{window, advance, advance-lt, advance-zero}
use simple.Shm.Buffer.Segments.{start_lem, finish_lem, advance-advance, copy_out_lem}
use simple.Shm.Buffer.Segments.{window-take, window-drop}
use simple.Shm.Buffer.{ShmBuffer, size_max, readable, start}
use simple.Shm.Buffer.{finish, copy_out, read_impl, read, read_len, peek}
use simple.Shm.Buffer.Queue.{IsValid, contents, length-contents}

pub read_impl-count :
    (b : ShmBuffer) (len offset index : ℕ)
    → (read_impl b len offset index).count ≡ min len (readable b - offset)
unfolding read_impl
read_impl-count b len offset index = ground arith

-- A read that is not empty, with its start and length worked out.
pub read_impl_some :
    (b : ShmBuffer) (len offset index : ℕ)
    → 0 < min len (readable b - offset)
    → read_impl b len offset index ≡ record {
      count = min len (readable b - offset);
      copied =
          copy_out b.bytes b.size
            (start b.size b.read_index offset)
            (min len (readable b - offset));
      index = finish b.size (start b.size b.read_index offset) (min len (readable b - offset));
    }
unfolding read_impl
read_impl_some b len offset index h = ground arith

pub read_impl_none :
    (b : ShmBuffer) (len offset index : ℕ)
    → min len (readable b - offset) ≡ 0
    → read_impl b len offset index ≡ record { count = 0; copied = []; index = index }
unfolding read_impl
read_impl_none b len offset index h = ground arith

module _ {b : ShmBuffer} (v : IsValid b) (len offset index : ℕ) where
  contents_part :
      offset ≤ readable b
      → take len (drop offset (contents b))
        ≡ window b.bytes b.size (advance b.size b.read_index offset) (min len (readable b - offset))
  unfolding contents
  contents_part h =
      ap (take len)
        (window-drop b.bytes b.size b.read_index (readable b) offset v.read_index_in (omega arith))
      ∙ window-take b.bytes b.size (advance b.size b.read_index offset) (readable b - offset) len

  -- What is copied out is the part of the queue that `len` and `offset` name, on every branch.
  pub read_impl-copied : (read_impl b len offset index).copied ≡ take len (drop offset (contents b))
  read_impl-copied = elim (ℕ_discrete (min len (readable b - offset)) 0) [
    | yes e ↦
        ap (λ r. r.copied) (read_impl_none b len offset index e)
        ∙ sym (
            eq-nil _ (
              omega (
                arith,
                e,
                length-take len (drop offset (contents b)),
                length-drop offset (contents b),
                length-contents b,
              )))
    | no ne ↦
        ap (λ r. r.copied) (read_impl_some b len offset index (omega arith))
        ∙ ap (λ i. copy_out b.bytes b.size i (min len (readable b - offset)))
            (start_lem b.size b.read_index offset v.read_index_in (omega arith))
        ∙ copy_out_lem b.bytes b.size (advance b.size b.read_index offset) _
            (advance-lt b.size b.read_index offset v.read_index_in (omega arith)) (omega arith)
        ∙ sym (contents_part (omega arith))
  ]

  -- The index after a read that is not empty.
  pub read_impl-index :
      0 < min len (readable b - offset)
      → (read_impl b len offset index).index
        ≡ advance b.size b.read_index (offset + min len (readable b - offset))
  read_impl-index h =
      ap (λ r. r.index) (read_impl_some b len offset index h)
      ∙ ap (λ i. finish b.size i (min len (readable b - offset)))
          (start_lem b.size b.read_index offset v.read_index_in (omega arith))
      ∙ finish_lem b.size (advance b.size b.read_index offset) _
          (advance-lt b.size b.read_index offset v.read_index_in (omega arith)) (omega arith)
      ∙ advance-advance b.size b.read_index offset _ v.read_index_in (omega arith)

-- The state that `read` and `read_len` leave after `n` bytes.
abbrev skipped : ShmBuffer → ℕ → ShmBuffer
skipped b n = record b {
  read_index = advance b.size b.read_index n;
  read_total = (b.read_total + n) % size_max;
}

readable-skipped :
    {b : ShmBuffer} → IsValid b → (n : ℕ) → n ≤ readable b → readable (skipped b n) ≡ readable b - n
unfolding readable
readable-skipped v n h = omega arith

skipped-IsValid : {b : ShmBuffer} → IsValid b → (n : ℕ) → n ≤ readable b → IsValid (skipped b n)
skipped-IsValid {b} v n h = record {
  nonempty = v.nonempty;
  fits = v.fits;
  read_total_fits = omega arith;
  write_total_fits = v.write_total_fits;
  read_index_in = advance-lt b.size b.read_index n v.read_index_in (omega arith);
  within = omega (arith, readable-skipped v n h);
  write_index_at =
      v.write_index_at
      ∙ ap (advance b.size b.read_index) (omega (arith, readable-skipped v n h))
      ∙ sym (
          advance-advance b.size b.read_index n (readable (skipped b n)) v.read_index_in
            (omega (arith, readable-skipped v n h)));
}

skipped-contents :
    {b : ShmBuffer}
    → IsValid b
    → (n : ℕ) → n ≤ readable b
    → contents (skipped b n) ≡ drop n (contents b)
unfolding contents
skipped-contents {b} v n h =
    ap (window b.bytes b.size (advance b.size b.read_index n)) (readable-skipped v n h)
    ∙ sym (window-drop b.bytes b.size b.read_index (readable b) n v.read_index_in (omega arith))

skipped_zero : {b : ShmBuffer} → IsValid b → b ≡ skipped b 0
skipped_zero {b} v =
    let e = sym (advance-zero b.size b.read_index v.read_index_in) in
    let f : b.read_total ≡ (b.read_total + 0) % size_max = omega arith in
    λ i. record b { read_index = e i; read_total = f i }

read-after :
    {b : ShmBuffer} → IsValid b → (len : ℕ) → (read b len).after ≡ skipped b (min len (readable b))
unfolding read
read-after {b} v len =
    ground (arith, read_impl-count b len 0 0, read_impl-index v len 0 0, skipped_zero v)

read_len-skipped :
    {b : ShmBuffer} → IsValid b → (len : ℕ) → read_len b len ≡ skipped b (min len (readable b))
unfolding read_len
read_len-skipped {b} v len =
    ground
      (arith, finish_lem b.size b.read_index (min len (readable b)) v.read_index_in, skipped_zero v)

drop-readable :
    (b : ShmBuffer) (len : ℕ) → drop (min len (readable b)) (contents b) ≡ drop len (contents b)
drop-readable b len =
    ap (λ n. drop (min len n) (contents b)) (sym (length-contents b)) ∙ drop-min len (contents b)

read-copied : {b : ShmBuffer} → IsValid b → (len : ℕ) → (read b len).copied ≡ take len (contents b)
unfolding read
read-copied v len = read_impl-copied v len 0 0

read-count : (b : ShmBuffer) (len : ℕ) → (read b len).count ≡ min len (readable b)
unfolding read
read-count b len = omega (arith, read_impl-count b len 0 0)

-- From a valid buffer `read` takes the `len` oldest bytes, or all there are, returns how many,
-- leaves the rest in order, and keeps the buffer valid.
pub read-refines :
    {b : ShmBuffer}
    → IsValid b
    → (len : ℕ)
    → IsValid (read b len).after
      × ((read b len).copied ≡ take len (contents b))
      × ((read b len).count ≡ min len (length (contents b)))
      × (contents (read b len).after ≡ drop len (contents b))
read-refines {b} v len =
    let e = read-after v len in
    (
      subst IsValid (sym e) (skipped-IsValid v (min len (readable b)) (omega arith)),
      read-copied v len,
      omega (arith, read-count b len, length-contents b),
      ap contents e ∙ skipped-contents v (min len (readable b)) (omega arith) ∙ drop-readable b len,
    )

-- From a valid buffer `read_len` drops the `len` oldest bytes, or all there are.
pub read_len-refines :
    {b : ShmBuffer}
    → IsValid b
    → (len : ℕ) → IsValid (read_len b len) × (contents (read_len b len) ≡ drop len (contents b))
read_len-refines {b} v len =
    let e = read_len-skipped v len in
    (
      subst IsValid (sym e) (skipped-IsValid v (min len (readable b)) (omega arith)),
      ap contents e ∙ skipped-contents v (min len (readable b)) (omega arith) ∙ drop-readable b len,
    )

-- `peek` shows the part of the queue that `len` and `offset` name.
pub peek_lem :
    {b : ShmBuffer}
    → IsValid b
    → (len offset : ℕ)
    → ((peek b len offset).copied ≡ take len (drop offset (contents b)))
      × ((peek b len offset).count ≡ min len (length (contents b) - offset))
unfolding peek
peek_lem {b} v len offset = (
  read_impl-copied v len offset 0,
  omega (arith, read_impl-count b len offset 0, length-contents b),
)
