-- ===== src/Shm/Circular.antt =====
-- Circular addressing: a block of `size` bytes read or written one position after the other, and
-- the two-segment copies of runtime/src/shm/shm_buffer.cpp in those terms.
use simple.Prelude.{ℕ, zero, suc, ◌+◌, ◌-◌, ◌≤◌, ◌<◌, ◌≡◌, refl, ap, ◌∙◌, arith, leb, ltb, ◌==◌}
use simple.Prelude.{if◌then◌else◌, List, [], ◌∷◌, ◌++◌, length}
use simple.Prelude.{false, suc-add}
use simple.Prelude.Memory.{Memory, update, load, store}

-- The position after `i`.
unfoldable pub next : ℕ → ℕ → ℕ
next size i = if suc i == size then 0 else suc i

-- The position `n` steps after `i`, for `n ≤ size`.
unfoldable pub advance : ℕ → ℕ → ℕ → ℕ
advance size i n = if ltb (i + n) size then i + n else (i + n) - size

-- The steps from `j` to `i`.
unfoldable pub gap : ℕ → ℕ → ℕ → ℕ
gap size j i = if leb j i then i - j else (i + size) - j

unfoldable pub window : Memory → ℕ → ℕ → ℕ → List ℕ
window m size i zero = []
window m size i (suc n) = m i ∷ window m size (next size i) n

unfoldable pub wstore : Memory → ℕ → ℕ → List ℕ → Memory
wstore m size i [] = m
wstore m size i (b ∷ bs) = wstore (update m i b) size (next size i) bs

pub next-lt : (size i : ℕ) → i < size → next size i < size
unfolding next
next-lt size i h = ground arith

pub advance-lt : (size i n : ℕ) → i < size → n ≤ size → advance size i n < size
unfolding advance
advance-lt size i n h k = ground arith

pub advance-next :
    (size i n : ℕ) → i < size → n < size → advance size (next size i) n ≡ advance size i (suc n)
unfolding advance next
advance-next size i n h k = ground arith

pub advance-zero : (size i : ℕ) → i < size → advance size i 0 ≡ i
unfolding advance
advance-zero size i h = ground arith

pub length-window : (m : Memory) (size i n : ℕ) → length (window m size i n) ≡ n
unfolding window
length-window m size i zero = refl
length-window m size i (suc n) = ap suc (length-window m size (next size i) n)

pub window-append :
    (m : Memory) (size i n k : ℕ)
    → i < size
    → n ≤ size
    → window m size i (n + k) ≡ window m size i n ++ window m size (advance size i n) k
unfolding window
window-append m size i zero k h l = ground (arith, advance-zero size i h)
window-append m size i (suc n) k h l =
    rw (suc-add n k, window-append m size (next size i) n k (next-lt size i h) (omega arith))
      (rw (advance-next size i n h l))

-- A segment that does not run past the end is one copy.
pub window_segment : (m : Memory) (size i n : ℕ) → i + n ≤ size → window m size i n ≡ load m i n
unfolding window load
window_segment m size i zero h = refl
window_segment m size i (suc zero) h = refl
window_segment m size i (suc (suc n)) h =
    ground (arith, window_segment m size (suc i) (suc n) (omega arith), next_inside)
  where
    next_inside : next size i ≡ suc i
    next_inside = unfold next in ground arith

pub wstore_segment :
    (m : Memory) (size i : ℕ) (bs : List ℕ)
    → i + length bs ≤ size
    → wstore m size i bs ≡ store m i bs
unfolding wstore store
wstore_segment m size i [] h = refl
wstore_segment m size i (b ∷ []) h = refl
wstore_segment m size i (b ∷ c ∷ bs) h =
    ground (arith, wstore_segment (update m i b) size (suc i) (c ∷ bs) (omega arith), next_inside)
  where
    next_inside : next size i ≡ suc i
    next_inside = unfold next in ground arith

pub wstore-append :
    (m : Memory) (size i : ℕ) (bs cs : List ℕ)
    → i < size
    → length bs ≤ size
    → wstore m size i (bs ++ cs) ≡ wstore (wstore m size i bs) size (advance size i (length bs)) cs
unfolding wstore
wstore-append m size i [] cs h l = ground (arith, advance-zero size i h)
wstore-append m size i (b ∷ bs) cs h l = ground (
  arith,
  wstore-append (update m i b) size (next size i) bs cs (next-lt size i h),
  advance-next size i (length bs) h,
)

pub wstore-nil : (m : Memory) (size i : ℕ) → wstore m size i [] ≡ m
unfolding wstore
wstore-nil m size i = refl

gap-next :
    (size j i : ℕ)
    → j < size
    → i < size
    → 0 < gap size j i
    → suc (gap size (next size j) i) ≡ gap size j i
unfolding gap next
gap-next size j i h k p = ground arith

gap-ne : (size j i : ℕ) → j < size → i < size → 0 < gap size j i → (j == i) ≡ false
unfolding gap
gap-ne size j i h k p = ground arith

-- A circular write leaves the positions that it does not reach.
pub wstore_outside :
    (m : Memory) (size j : ℕ) (bs : List ℕ) (i : ℕ)
    → j < size
    → i < size
    → length bs ≤ gap size j i
    → wstore m size j bs i ≡ m i
unfolding wstore
wstore_outside m size j [] i hj hi h = refl
wstore_outside m size j (b ∷ bs) i hj hi h =
    wstore_outside (update m j b) size (next size j) bs i (next-lt size j hj) hi
      (omega (arith, gap-next size j i hj hi (omega arith)))
    ∙ rw (gap-ne size j i hj hi (omega arith))

-- What was written is read back.
pub window-wstore :
    (m : Memory) (size i : ℕ) (bs : List ℕ)
    → i < size
    → length bs ≤ size
    → window (wstore m size i bs) size i (length bs) ≡ bs
unfolding window wstore
window-wstore m size i [] h l = refl
window-wstore m size i (b ∷ bs) h l = ground (
  arith,
  window-wstore (update m i b) size (next size i) bs (next-lt size i h),
  wstore_outside (update m i b) size (next size i) bs i (next-lt size i h) h gap_behind,
)
  where
    gap_behind : length bs ≤ gap size (next size i) i
    gap_behind = unfold gap next in ground arith

gap-advance :
    (size i n : ℕ)
    → i < size
    → n < size
    → gap size (advance size i n) i ≡ (if n == 0 then 0 else size - n)
unfolding gap advance
gap-advance size i n h k = ground arith

gap_shift :
    (size j i : ℕ)
    → j < size
    → i < size
    → gap size j i + 1 < size
    → gap size j (next size i) ≡ gap size j i + 1
unfolding gap next
gap_shift size j i hj hi h = ground arith

-- A window that lies behind the written part is not touched.
pub window-wstore_outside :
    (m : Memory) (size j : ℕ) (bs : List ℕ) (i n : ℕ)
    → j < size
    → i < size
    → length bs ≤ gap size j i
    → gap size j i + n ≤ size
    → window (wstore m size j bs) size i n ≡ window m size i n
unfolding window
window-wstore_outside m size j bs i zero hj hi h r = refl
window-wstore_outside m size j bs i (suc zero) hj hi h r = rw (wstore_outside m size j bs i hj hi h)
window-wstore_outside m size j bs i (suc (suc n)) hj hi h r =
    rw (wstore_outside m size j bs i hj hi h) (
      ap (◌∷◌ (m i)) (
        window-wstore_outside m size j bs (next size i) (suc n) hj (next-lt size i hi)
          (omega (arith, gap_shift size j i hj hi (omega arith)))
          (omega (arith, gap_shift size j i hj hi (omega arith)))))

pub gap-advance_pos :
    (size i n : ℕ) → i < size → n < size → 0 < n → gap size (advance size i n) i ≡ size - n
gap-advance_pos size i n h k p = gap-advance size i n h k ∙ ground arith
