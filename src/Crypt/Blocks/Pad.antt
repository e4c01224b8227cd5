-- ===== src/Crypt/Blocks/Pad.antt =====
-- The padding of md5_context::final and sha1_context::final as RFC 1321 and RFC 3174 word it.
use simple.Prelude.{
  ℕ, zero, suc, ◌-◌, ◌%◌, ◌≤◌, ◌≡◌, refl, ap, ◌∙◌, arith, List, ◌∷◌, take, replicate,
}
use simple.Crypt.Blocks.{padding, pad_length}

-- A byte 0x80 and as few zeros as it takes to leave eight bytes of a block.
unfoldable pub pad_bytes : ℕ → List ℕ
pad_bytes n = 0x80 ∷ replicate ((119 - n % 64) % 64) 0

take-replicate : (n k : ℕ) (x : ℕ) → n ≤ k → take n (replicate k x) ≡ replicate n x
take-replicate zero k x h = refl
take-replicate (suc n) zero x h = absurd (omega arith)
take-replicate (suc n) (suc k) x h = ap (◌∷◌ x) (take-replicate n k x (omega arith))

zeros : ℕ → ℕ
zeros n = (119 - n % 64) % 64

pub take-padding : (n : ℕ) → take (pad_length (n % 64) - 8) padding ≡ pad_bytes n
unfolding pad_bytes pad_length zeros
take-padding n =
    ap (λ k. take k padding) count ∙ ap (◌∷◌ 0x80) (take-replicate (zeros n) 127 0 (omega arith))
  where
    count : pad_length (n % 64) - 8 ≡ suc (zeros n)
    count = ground arith
