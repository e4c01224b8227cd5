-- ===== src/Coro/Waiters/Removal.antt =====
-- The neighbours in a queue that loses one of its members.
use simple.Prelude.{
  ℕ, ◌≡◌, ◌≢◌, refl, true, false, List, [], ◌∷◌, ◌==◌, if◌then◌else◌, arith, length, ◌≤◌,
}
use simple.Coro.Waiters.{elem, erase, first, last, after, before, IsDistinct}
use simple.Coro.Waiters.Order.{elem-last}

pub elem-erase : (a i : ℕ) (xs : List ℕ) → elem i xs ≡ false → elem i (erase a xs) ≡ false
elem-erase a i [] h = refl
elem-erase a i (x ∷ xs) h = ground (arith, elem-erase a i xs)

pub erase_other : (a : ℕ) (xs : List ℕ) → elem a xs ≡ false → erase a xs ≡ xs
erase_other a [] h = refl
erase_other a (x ∷ xs) h = ground (arith, erase_other a xs)

pub erase-IsDistinct : (a : ℕ) (xs : List ℕ) → IsDistinct xs → IsDistinct (erase a xs)
erase-IsDistinct a [] d = tt
erase-IsDistinct a (x ∷ xs) d = ground (arith, erase-IsDistinct a xs d.2, elem-erase a x xs d.1)

pub erase-absent : (a : ℕ) (xs : List ℕ) → IsDistinct xs → elem a (erase a xs) ≡ false
erase-absent a [] d = refl
erase-absent a (x ∷ xs) d = ground (arith, erase-absent a xs d.2)

-- The one after an element is in the queue, or null.
after-not_absent : (xs : List ℕ) (i x : ℕ) → elem x xs ≡ false → x ≢ 0 → after xs i ≢ x
after-not_absent [] i x h z = ground arith
after-not_absent (y ∷ []) i x h z = ground arith
after-not_absent (y ∷ z ∷ zs) i x h n = ground (arith, after-not_absent (z ∷ zs) i x)

elem-before : (c a : ℕ) (xs : List ℕ) → elem a xs ≡ true → elem (before c xs a) (c ∷ xs) ≡ true
elem-before c a [] m = ground arith
elem-before c a (x ∷ xs) m = ground (arith, elem-before x a xs)

pub elem-other : (i j : ℕ) (xs : List ℕ) → elem i xs ≡ true → elem j xs ≡ false → i ≢ j
elem-other i j [] h k = ground arith
elem-other i j (x ∷ xs) h k = ground (arith, elem-other i j xs)

-- Only the first has the one before the queue before it.
before-first :
    (b a : ℕ) (xs : List ℕ)
    → elem b xs ≡ false
    → elem a xs ≡ true
    → first xs ≢ a
    → before b xs a ≢ b
before-first b a [] h m n = ground arith
before-first b a (x ∷ xs) h m n =
    elem-other (before b (x ∷ xs) a) b (x ∷ xs) (ground (arith, elem-before x a xs)) h

pub before_other : (b c i : ℕ) (xs : List ℕ) → first xs ≢ i → before b xs i ≡ before c xs i
before_other b c i [] n = refl
before_other b c i (x ∷ xs) n = ground arith

pub before_at_first : (b i : ℕ) (xs : List ℕ) → first xs ≡ i → i ≢ 0 → before b xs i ≡ b
before_at_first b i [] e z = ground arith
before_at_first b i (x ∷ xs) e z = ground arith

pub first-erase :
    (a : ℕ) (xs : List ℕ) → first (erase a xs) ≡ (if first xs == a then after xs a else first xs)
first-erase a [] = ground arith
first-erase a (x ∷ xs) = ground arith

-- What stands before a member, once another is taken out.
pub after-erase :
    (b a i : ℕ) (xs : List ℕ)
    → IsDistinct xs
    → elem b xs ≡ false
    → elem a xs ≡ true
    → i ≢ a
    → i ≢ b
    → after (erase a xs) i ≡ (if before b xs a == i then after xs a else after xs i)
after-erase b a i [] d k m n o = ground arith
after-erase b a i (x ∷ xs) d k m n o = ground (
  arith,
  after-erase x a i xs d.2 d.1,
  first-erase a xs,
  before-first x a xs d.1,
  before_at_first x a xs,
)

pub before-erase :
    (b a i : ℕ) (xs : List ℕ)
    → IsDistinct xs
    → i ≢ a
    → i ≢ 0
    → before b (erase a xs) i ≡ (if after xs a == i then before b xs a else before b xs i)
before-erase b a i [] d n z = ground arith
before-erase b a i (x ∷ xs) d n z = ground (
  arith,
  before-erase x a i xs d.2,
  before_other b x i xs,
  before_at_first b i xs,
  after-not_absent xs a x d.1 d.0,
)

pub last-erase :
    (b a : ℕ) (xs : List ℕ)
    → IsDistinct xs
    → elem b xs ≡ false
    → elem a xs ≡ true
    → a ≢ b
    → last b (erase a xs) ≡ (if last b xs == a then before b xs a else last b xs)
last-erase b a [] d k m n = ground arith
last-erase b a (x ∷ []) d k m n = ground arith
last-erase b a (x ∷ y ∷ ys) d k m n =
    ground (arith, last-erase x a (y ∷ ys) d.2 d.1, d.2.1, elem-last y ys)

pub erase_first : (x : ℕ) (xs : List ℕ) → erase x (x ∷ xs) ≡ xs
erase_first x xs = ground arith

pub length-erase_le : (a : ℕ) (xs : List ℕ) → length (erase a xs) ≤ length xs
length-erase_le a [] = omega arith
length-erase_le a (x ∷ xs) = ground (arith, length-erase_le a xs)
