-- ===== src/Crypt/Bits.antt =====
-- bit_or and bit_xor on numbers that are put together from bytes.
use Prim.Native.Nat.{digits, differ, bit_or-bitwise, bit_xor-bitwise}
use simple.Prelude.{
  ℕ, zero, suc, ◌+◌, ◌-◌, ◌*◌, ◌/◌, ◌%◌, ◌^◌, ◌≤◌, ◌<◌, ◌≡◌, refl, sym, ap, ap₂, ◌∙◌, arith, bit_or,
  bit_xor, max,
}

-- An operation on the binary digits, lowest first.
module _ (f : ℕ → ℕ → ℕ) (f-zero : (b : ℕ) → f 0 b ≡ b) where
  -- The first k digits of both numbers.
  abbrev upto : ℕ → ℕ → ℕ → ℕ
  upto k a b = digits (λ d. d) f k a b

  one_more : (k a b : ℕ) → a ≤ k → upto (suc k) a b ≡ upto k a b
  one_more k zero b h = refl_at k
    where
      refl_at : (j : ℕ) → upto (suc j) 0 b ≡ upto j 0 b
      refl_at zero = refl
      refl_at (suc j) = refl
  one_more zero (suc a) b h = absurd (omega arith)
  one_more (suc k) (suc a) b h =
      ap (λ high. high * 2 + f (suc a % 2) (b % 2)) (one_more k (suc a / 2) (b / 2) (omega arith))

  many_more : (extra k all a b : ℕ) → all ≡ k + extra → a ≤ k → upto all a b ≡ upto k a b
  many_more zero k all a b e h = ap (λ j. upto j a b) {y = k} (omega (arith, e))
  many_more (suc extra) k all a b e h =
      many_more extra (suc k) all a b (omega (arith, e)) (omega arith) ∙ one_more k a b h

  -- What is left without the last digit is the operation on the halves.
  last_digit : (a b : ℕ) → upto a a b ≡ upto (a / 2) (a / 2) (b / 2) * 2 + f (a % 2) (b % 2)
  last_digit zero b = omega (arith, f-zero (b % 2))
  last_digit (suc a) b =
      ap (λ high. high * 2 + f (suc a % 2) (b % 2))
        (many_more (a - suc a / 2) (suc a / 2) a (suc a / 2) (b / 2) (omega arith) (omega arith))

-- The high digits and the low digits of both numbers go their own ways.
abbrev pub IsApart : (ℕ → ℕ → ℕ) → ℕ → Type 0
IsApart x m = (a b : ℕ) → x a b ≡ x (a / m) (b / m) * m + x (a % m) (b % m)

-- The last digit of the result is that of `f` on the last digits.
abbrev IsHalved : (ℕ → ℕ → ℕ) → (ℕ → ℕ → ℕ) → Type 0
IsHalved x f = (a b : ℕ) → x a b ≡ x (a / 2) (b / 2) * 2 + f (a % 2) (b % 2)

half : (a : ℕ) → a % 2 / 2 ≡ 0
half a = omega arith

IsApart-two : (x f : ℕ → ℕ → ℕ) → x 0 0 ≡ 0 → IsHalved x f → IsApart x 2
IsApart-two x f none step a b =
    let again : f (a % 2 % 2) (b % 2 % 2) ≡ f (a % 2) (b % 2) =
      ap₂ f {x = a % 2 % 2} (omega arith) (omega arith) in
    omega (arith, step a b, step (a % 2) (b % 2), ap₂ x (half a) (half b), none, again)

-- Twice as many digits: n is m * m.
IsApart-double :
    (x : ℕ → ℕ → ℕ) (m n : ℕ)
    → ((a : ℕ) → (a / m / m ≡ a / n) × (a % n / m ≡ a / m % m) × (a % n % m ≡ a % m))
    → ((u v w : ℕ) → (u * m + v) * m + w ≡ u * n + (v * m + w))
    → IsApart x m
    → IsApart x n
IsApart-double x m n split sum apart a b =
    apart a b
    ∙ ap (λ t. t * m + x (a % m) (b % m)) (apart (a / m) (b / m))
    ∙ sum (x (a / m / m) (b / m / m)) (x (a / m % m) (b / m % m)) (x (a % m) (b % m))
    ∙ ap₂ (λ t u. t * n + u) (ap₂ x (split a).0 (split b).0)
        (sym (
          apart (a % n) (b % n)
          ∙ ap₂ (λ t u. t * m + u) (ap₂ x (split a).1 (split b).1) (ap₂ x (split a).2 (split b).2)))

IsApart-bytes : (x : ℕ → ℕ → ℕ) → IsApart x 2 → IsApart x 256
IsApart-bytes x apart =
    IsApart-double x 16 256 (λ a. (omega arith, omega arith, omega arith)) (λ u v w. omega arith)
      (IsApart-double x 4 16 (λ a. (omega arith, omega arith, omega arith)) (λ u v w. omega arith)
        (IsApart-double x 2 4 (λ a. (omega arith, omega arith, omega arith)) (λ u v w. omega arith)
          apart))

bit_xor-IsApart : IsApart bit_xor 256
bit_xor-IsApart = IsApart-bytes bit_xor (
    IsApart-two bit_xor differ refl (λ a b.
      bit_xor-bitwise a b
      ∙ last_digit differ (λ d. refl) a b
      ∙ ap (λ t. t * 2 + differ (a % 2) (b % 2)) (sym (bit_xor-bitwise (a / 2) (b / 2)))))

bit_or-IsHalved : IsHalved bit_or max
bit_or-IsHalved a b =
    bit_or-bitwise a b
    ∙ last_digit max (λ d. omega arith) a b
    ∙ ap (λ t. t * 2 + max (a % 2) (b % 2)) (sym (bit_or-bitwise (a / 2) (b / 2)))

bit_or-IsApart : IsApart bit_or 256
bit_or-IsApart = IsApart-bytes bit_or (IsApart-two bit_or max refl bit_or-IsHalved)

join :
    (x : ℕ → ℕ → ℕ) (a b c d : ℕ)
    → IsApart x 256
    → c < 256
    → d < 256
    → x (a * 256 + c) (b * 256 + d) ≡ x a b * 256 + x c d
join x a b c d apart hc hd =
    apart (a * 256 + c) (b * 256 + d)
    ∙ ap₂ (λ t u. t * 256 + u) (ap₂ x {x = (a * 256 + c) / 256} (omega arith) (omega arith))
        (ap₂ x {x = (a * 256 + c) % 256} (omega arith) (omega arith))

pub bit_xor-join :
    (a b c d : ℕ)
    → c < 256
    → d < 256
    → bit_xor (a * 256 + c) (b * 256 + d) ≡ bit_xor a b * 256 + bit_xor c d
bit_xor-join a b c d hc hd = join bit_xor a b c d bit_xor-IsApart hc hd

bit_or_none : (bound a : ℕ) → a < bound → bit_or a 0 ≡ a
bit_or_none zero a h = absurd (omega arith)
bit_or_none (suc bound) zero h = bit_or-bitwise 0 0
bit_or_none (suc bound) (suc a) h =
    omega (arith, bit_or_none bound (suc a / 2) (omega arith), bit_or-IsHalved (suc a) 0)

-- A byte under a number that was moved up by eight digits.
pub bit_or-shifted : (a c : ℕ) → c < 256 → bit_or (a * 2 ^ 8) c ≡ a * 256 + c
bit_or-shifted a c h =
    ap₂ bit_or {x = a * 2 ^ 8} {y = a * 256 + 0} {v = 0 * 256 + c} (omega arith) (omega arith)
    ∙ join bit_or a 0 0 c bit_or-IsApart (omega arith) h
    ∙ ap₂ (λ t u. t * 256 + u) (bit_or_none (suc a) a (omega arith)) (bit_or-bitwise 0 c)
