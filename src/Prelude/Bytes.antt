-- ===== src/Prelude/Bytes.antt =====
-- Facts about bytes by a run over all of them.
use simple.Prelude.{ℕ, zero, suc, ◌<◌, ◌≡◌, refl, arith, Bool, true, ◌==◌, ◌&&◌, ==_iff, bit_xor}

-- Every number below `n` passes the test.
unfoldable pub all_below : ℕ → (ℕ → Bool) → Bool
all_below zero test = true
all_below (suc n) test = test n && all_below n test

pub all_below_sound :
    (n : ℕ) (test : ℕ → Bool) (x : ℕ) → all_below n test ≡ true → x < n → test x ≡ true
unfolding all_below
all_below_sound zero test x h lt = absurd (omega arith)
all_below_sound (suc n) test x h lt = ground (arith, all_below_sound n test x)

pub agree :
    (f g : ℕ → ℕ) (n : ℕ) → all_below n (λ x. f x == g x) ≡ true → (x : ℕ) → x < n → f x ≡ g x
agree f g n h x lt = (==_iff (f x) (g x)).0 (all_below_sound n (λ x. f x == g x) x h lt)

xor_all : all_below 256 (λ m. all_below 256 (λ x. bit_xor (bit_xor x m) m == x)) ≡ true
unfolding all_below
xor_all = refl

-- A mask that is applied twice is gone.
pub bit_xor_twice : (x m : ℕ) → x < 256 → m < 256 → bit_xor (bit_xor x m) m ≡ x
bit_xor_twice x m hx hm =
    agree (λ y. bit_xor (bit_xor y m) m) (λ y. y) 256
      (all_below_sound 256 (λ n. all_below 256 (λ y. bit_xor (bit_xor y n) n == y)) m xor_all hm) x
      hx
