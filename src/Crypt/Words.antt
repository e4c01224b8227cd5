-- ===== src/Crypt/Words.antt =====
-- The 32 bit words of runtime/src/utils/crypt.cpp: rotation, and words as bytes in either order.
use simple.Prelude.{ℕ, zero, suc, ◌+◌, ◌-◌, ◌*◌, ◌/◌, ◌%◌, ◌^◌, List, [], ◌∷◌, get_or, bit_or}

-- Sums of uint32_t.
abbrev pub w32 : ℕ → ℕ
w32 n = n % 2 ^ 32

unfoldable pub left_rotate : ℕ → ℕ → ℕ
left_rotate d num = bit_or (w32 (d * 2 ^ num)) (d / 2 ^ (32 - num))

unfoldable pub put_32_bit_le : ℕ → List ℕ
put_32_bit_le v = v % 256 ∷ v / 2 ^ 8 % 256 ∷ v / 2 ^ 16 % 256 ∷ v / 2 ^ 24 % 256 ∷ []

unfoldable pub put_32_bit_be : ℕ → List ℕ
put_32_bit_be v = v / 2 ^ 24 % 256 ∷ v / 2 ^ 16 % 256 ∷ v / 2 ^ 8 % 256 ∷ v % 256 ∷ []

unfoldable pub put_64_bit_le : ℕ → List ℕ
put_64_bit_le v =
    v % 256
    ∷ v / 2 ^ 8 % 256
    ∷ v / 2 ^ 16 % 256
    ∷ v / 2 ^ 24 % 256
    ∷ v / 2 ^ 32 % 256
    ∷ v / 2 ^ 40 % 256
    ∷ v / 2 ^ 48 % 256
    ∷ v / 2 ^ 56 % 256
    ∷ []

unfoldable pub put_64_bit_be : ℕ → List ℕ
put_64_bit_be v =
    v / 2 ^ 56 % 256
    ∷ v / 2 ^ 48 % 256
    ∷ v / 2 ^ 40 % 256
    ∷ v / 2 ^ 32 % 256
    ∷ v / 2 ^ 24 % 256
    ∷ v / 2 ^ 16 % 256
    ∷ v / 2 ^ 8 % 256
    ∷ v % 256
    ∷ []

-- The word whose bytes start at place `i`.
unfoldable pub get_32_bit_le : List ℕ → ℕ → ℕ
get_32_bit_le bytes i =
    bit_or
      (bit_or (bit_or (get_or bytes (i + 3) 0 * 2 ^ 8) (get_or bytes (i + 2) 0) * 2 ^ 8)
          (get_or bytes (i + 1) 0)
        * 2 ^ 8)
      (get_or bytes i 0)

unfoldable pub get_32_bit_be : List ℕ → ℕ → ℕ
get_32_bit_be bytes i =
    bit_or
      (bit_or (bit_or (get_or bytes i 0 * 2 ^ 8) (get_or bytes (i + 1) 0) * 2 ^ 8)
          (get_or bytes (i + 2) 0)
        * 2 ^ 8)
      (get_or bytes (i + 3) 0)

-- The words of `n` times four bytes.
unfoldable pub bytes_to_word32_le : ℕ → List ℕ → ℕ → List ℕ
bytes_to_word32_le zero bytes i = []
bytes_to_word32_le (suc n) bytes i = get_32_bit_le bytes i ∷ bytes_to_word32_le n bytes (i + 4)

unfoldable pub bytes_to_word32_be : ℕ → List ℕ → ℕ → List ℕ
bytes_to_word32_be zero bytes i = []
bytes_to_word32_be (suc n) bytes i = get_32_bit_be bytes i ∷ bytes_to_word32_be n bytes (i + 4)
