-- ===== src/Shm/Buffer/Segments.antt =====
-- The index arithmetic and the two-segment copies of shm_buffer.cpp in circular terms.
use simple.Prelude.{ℕ, zero, suc, ◌+◌, ◌-◌, ◌≤◌, ◌<◌, min, ltb}
use simple.Prelude.{List, ◌++◌, length, take, drop, ◌≡◌, sym, ap, ap₂, ◌∙◌, arith}
use simple.Prelude.{Bool-cases, inl, inr, length-take, length-drop}
use simple.Prelude.{take-append-drop}
use simple.Prelude.Memory.{Memory, load, store}
use simple.Shm.Circular.{window, wstore, advance, next, next-lt, advance-next, advance-zero}
use simple.Shm.Circular.{window-append, window_segment, wstore_segment, wstore-append}
use simple.Shm.Buffer.{start}
use simple.Shm.Buffer.{finish, copy_out, copy_in}

pub start_lem : (size i n : ℕ) → i < size → n ≤ size → start size i n ≡ advance size i n
unfolding advance start
start_lem size i n h k = ground arith

pub finish_lem : (size i n : ℕ) → i < size → n ≤ size → finish size i n ≡ advance size i n
unfolding advance finish
finish_lem size i n h k = ground arith

pub advance-advance :
    (size i n k : ℕ)
    → i < size
    → n + k ≤ size
    → advance size (advance size i n) k ≡ advance size i (n + k)
unfolding advance
advance-advance size i n k h l = ground arith

advance_end : (size i : ℕ) → i < size → advance size i (size - i) ≡ 0
unfolding advance
advance_end size i h = ground arith

-- A block that runs past the end comes in two copies.
load_two :
    (m : Memory) (size i n : ℕ)
    → i < size
    → n ≤ size
    → size - i ≤ n
    → load m i (size - i) ++ load m 0 (n - (size - i)) ≡ window m size i n
load_two m size i n h l k =
    let r = size - i in
    ap₂ ◌++◌ (sym (window_segment m size i r (omega arith))) (
      sym (window_segment m size 0 (n - r) (omega arith))
      ∙ ap (λ p. window m size p (n - r)) (sym (advance_end size i h)))
    ∙ sym (window-append m size i r (n - r) h (omega arith))
    ∙ ap (window m size i) (omega arith)

store_two :
    (m : Memory) (size i : ℕ) (bs : List ℕ)
    → i < size
    → length bs ≤ size
    → size - i ≤ length bs
    → store (store m i (take (size - i) bs)) 0 (drop (size - i) bs) ≡ wstore m size i bs
store_two m size i bs h l k =
    let r = size - i in
    let front = take r bs in
    let back = drop r bs in
    let front_length : length front ≡ r = omega (arith, length-take r bs) in
    sym (wstore_segment (store m i front) size 0 back (omega (arith, length-drop r bs)))
    ∙ ap (λ (p : ℕ). wstore (store m i front) size p back)
        (sym (advance_end size i h) ∙ ap (advance size i) (sym front_length))
    ∙ ap (λ m'. wstore m' size (advance size i (length front)) back)
        (sym (wstore_segment m size i front (omega (arith, front_length))))
    ∙ sym (wstore-append m size i front back h (omega (arith, front_length)))
    ∙ ap (wstore m size i) (take-append-drop r bs)

pub copy_out_lem :
    (m : Memory) (size i n : ℕ) → i < size → n ≤ size → copy_out m size i n ≡ window m size i n
unfolding copy_out
copy_out_lem m size i n h k = elim (Bool-cases (ltb (size - i) n)) [
  | inl e ↦ rw e (load_two m size i n h k (ground arith))
  | inr e ↦ rw e (sym (window_segment m size i n (ground arith)))
]

pub copy_in_lem :
    (m : Memory) (size i : ℕ) (bs : List ℕ)
    → i < size
    → length bs ≤ size
    → copy_in m size i bs ≡ wstore m size i bs
unfolding copy_in
copy_in_lem m size i bs h k = elim (Bool-cases (ltb (size - i) (length bs))) [
  | inl e ↦ rw e (store_two m size i bs h k (ground arith))
  | inr e ↦ rw e (sym (wstore_segment m size i bs (ground arith)))
]

pub window-take :
    (m : Memory) (size i n k : ℕ) → take k (window m size i n) ≡ window m size i (min k n)
unfolding window
window-take m size i n zero = rw (zero_min n)
  where
    zero_min : (n : ℕ) → min 0 n ≡ 0
    zero_min n = omega arith
window-take m size i zero (suc k) = let e : min (suc k) zero ≡ 0 = omega arith in rw e
window-take m size i (suc n) (suc k) =
    let e : min (suc k) (suc n) ≡ suc (min k n) = omega arith in
    rw (e, window-take m size (next size i) n k)

pub window-drop :
    (m : Memory) (size i n k : ℕ)
    → i < size
    → k ≤ size
    → drop k (window m size i n) ≡ window m size (advance size i k) (n - k)
unfolding window
window-drop m size i n zero h l = let e : n - 0 ≡ n = omega arith in rw (advance-zero size i h, e)
window-drop m size i zero (suc k) h l = let e : zero - suc k ≡ 0 = omega arith in rw e
window-drop m size i (suc n) (suc k) h l =
    let e : suc n - suc k ≡ n - k = omega arith in
    rw (
      e,
      window-drop m size (next size i) n k (next-lt size i h) (omega arith),
      advance-next size i k h l,
    )
