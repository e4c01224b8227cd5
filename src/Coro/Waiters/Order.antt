-- ===== src/Coro/Waiters/Order.antt =====
-- The neighbours in a queue that grows at its end or loses one of its members.
use simple.Prelude.{ℕ, ◌≡◌, ◌≢◌, refl, true, false, List, [], ◌∷◌, ◌++◌, ◌==◌, if◌then◌else◌, arith}
use simple.Coro.Waiters.{elem, first, last, after, before, IsDistinct}

-- Nobody stands beside one who is not in the queue.
pub after_absent : (xs : List ℕ) (i : ℕ) → elem i xs ≡ false → after xs i ≡ 0
after_absent [] i h = refl
after_absent (x ∷ xs) i h = ground (arith, after_absent xs i)

pub before_absent : (b : ℕ) (xs : List ℕ) (i : ℕ) → elem i xs ≡ false → before b xs i ≡ 0
before_absent b [] i h = refl
before_absent b (x ∷ xs) i h = ground (arith, before_absent x xs i)

pub elem-zero : (xs : List ℕ) → IsDistinct xs → elem 0 xs ≡ false
elem-zero [] h = refl
elem-zero (x ∷ xs) h = ground (arith, elem-zero xs h.2, h.0)

pub elem-append :
    (a i : ℕ) (xs : List ℕ) → elem i xs ≡ false → i ≢ a → elem i (xs ++ a ∷ []) ≡ false
elem-append a i [] h n = ground arith
elem-append a i (x ∷ xs) h n = ground (arith, elem-append a i xs)

pub append-IsDistinct :
    (a : ℕ) (xs : List ℕ) → a ≢ 0 → elem a xs ≡ false → IsDistinct xs → IsDistinct (xs ++ a ∷ [])
append-IsDistinct a [] n h d = (n, refl, tt)
append-IsDistinct a (x ∷ xs) n h d =
    (d.0, elem-append a x xs d.1 (ground arith), append-IsDistinct a xs n (ground arith) d.2)

pub last-append : (b a : ℕ) (xs : List ℕ) → last b (xs ++ a ∷ []) ≡ a
last-append b a [] = refl
last-append b a (x ∷ xs) = last-append x a xs

-- The last of a queue that is not empty is in it.
pub elem-last : (x : ℕ) (xs : List ℕ) → elem (last x xs) (x ∷ xs) ≡ true
elem-last x [] = ground arith
elem-last x (y ∷ ys) = ground (arith, elem-last y ys)

pub after-append :
    (b a i : ℕ) (xs : List ℕ)
    → IsDistinct xs
    → elem a xs ≡ false
    → i ≢ b
    → i ≢ 0
    → after (xs ++ a ∷ []) i ≡ (if last b xs == i then a else after xs i)
after-append b a i [] d h n z = ground arith
after-append b a i (x ∷ []) d h n z = ground arith
after-append b a i (x ∷ y ∷ ys) d h n z =
    ground (arith, after-append x a i (y ∷ ys) d.2, elem-last y ys, d.1)

pub before-append :
    (b a i : ℕ) (xs : List ℕ)
    → elem a xs ≡ false
    → before b (xs ++ a ∷ []) i ≡ (if a == i then last b xs else before b xs i)
before-append b a i [] h = ground arith
before-append b a i (x ∷ xs) h = ground (arith, before-append x a i xs)

-- Only the last has nobody after it.
pub after-last :
    (b a : ℕ) (xs : List ℕ) → IsDistinct xs → elem a xs ≡ true → after xs a ≡ 0 → last b xs ≡ a
after-last b a [] d m z = ground arith
after-last b a (x ∷ []) d m z = ground arith
after-last b a (x ∷ y ∷ ys) d m z = ground (arith, after-last x a (y ∷ ys) d.2, d.2.0)

pub first-other : (a : ℕ) (xs : List ℕ) → a ≢ 0 → elem a xs ≡ false → first xs ≢ a
first-other a [] n h = ground arith
first-other a (x ∷ xs) n h = ground arith

pub last-other : (b a : ℕ) (xs : List ℕ) → a ≢ b → elem a xs ≡ false → last b xs ≢ a
last-other b a [] n h = ground arith
last-other b a (x ∷ xs) n h = ground (arith, last-other x a xs)
