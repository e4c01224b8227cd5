-- ===== src/Crypt/Hmac/Masks.antt =====
-- xor_key of runtime/src/utils/crypt.cpp byte by byte, for a mask of four equal bytes.
use simple.Prelude.{
  ℕ, zero, suc, ◌+◌, ◌*◌, ◌/◌, ◌%◌, ◌^◌, ◌≤◌, ◌<◌, ◌≡◌, refl, sym, ap, ap₂, subst, ◌∙◌, List, [],
  ◌∷◌, ◌++◌, length, map, get_or, drop, arith, All, drop-get_or, drop_all, bit_xor,
}
use simple.Crypt.Bits.{bit_xor-join, bit_or-shifted}
use simple.Crypt.Words.{get_32_bit_le, put_32_bit_le}
use simple.Crypt.Hmac.{xor_words, xor_key}

abbrev pub IsByte : ℕ → Type 0
IsByte c = c < 256

-- The word of four bytes, the lowest first.
abbrev word : ℕ → ℕ → ℕ → ℕ → ℕ
word a b c d = ((d * 256 + c) * 256 + b) * 256 + a

get_32_bit_le-word :
    (key : List ℕ) (i a b c d : ℕ)
    → get_or key i 0 ≡ a
    → get_or key (i + 1) 0 ≡ b
    → get_or key (i + 2) 0 ≡ c
    → get_or key (i + 3) 0 ≡ d
    → a < 256
    → b < 256
    → c < 256
    → get_32_bit_le key i ≡ word a b c d
unfolding get_32_bit_le
get_32_bit_le-word key i a b c d ea eb ec ed ha hb hc = rw (
  ea,
  eb,
  ec,
  ed,
  bit_or-shifted d c hc,
  bit_or-shifted (d * 256 + c) b hb,
  bit_or-shifted ((d * 256 + c) * 256 + b) a ha,
)

put_32_bit_le-word :
    (a b c d : ℕ)
    → a < 256
    → b < 256
    → c < 256
    → d < 256
    → put_32_bit_le (word a b c d) ≡ a ∷ b ∷ c ∷ d ∷ []
unfolding put_32_bit_le
put_32_bit_le-word a b c d ha hb hc hd = ap₂ ◌∷◌ {x = word a b c d % 256} (omega arith) (
    ap₂ ◌∷◌ {x = word a b c d / 2 ^ 8 % 256} (omega arith) (
      ap₂ ◌∷◌ {x = word a b c d / 2 ^ 16 % 256} (omega arith)
        (ap (λ n. n ∷ []) {x = word a b c d / 2 ^ 24 % 256} (omega arith))))

bit_xor-word :
    (a b c d m : ℕ)
    → a < 256
    → b < 256
    → c < 256
    → m < 256
    → bit_xor (word a b c d) (word m m m m)
      ≡ word (bit_xor a m) (bit_xor b m) (bit_xor c m) (bit_xor d m)
bit_xor-word a b c d m ha hb hc hm = rw (
  bit_xor-join ((d * 256 + c) * 256 + b) ((m * 256 + m) * 256 + m) a m ha hm,
  bit_xor-join (d * 256 + c) (m * 256 + m) b m hb hm,
  bit_xor-join d m c m hc hm,
)

drop-four :
    (key : List ℕ) (i : ℕ)
    → i + 4 ≤ length key
    → drop i key
      ≡ get_or key i 0
        ∷ get_or key (i + 1) 0
        ∷ get_or key (i + 2) 0
        ∷ get_or key (i + 3) 0
        ∷ drop (i + 4) key
drop-four key i h =
    drop-get_or key i 0 (omega arith)
    ∙ ap (◌∷◌ (get_or key i 0)) (
        next i (i + 1) (omega arith) (omega arith)
        ∙ ap (◌∷◌ (get_or key (i + 1) 0)) (
            next (i + 1) (i + 2) (omega arith) (omega arith)
            ∙ ap (◌∷◌ (get_or key (i + 2) 0)) (
                next (i + 2) (i + 3) (omega arith) (omega arith)
                ∙ ap (λ n. get_or key (i + 3) 0 ∷ drop n key) {x = suc (i + 3)} (omega arith))))
  where
    next :
        (k j : ℕ)
        → suc k ≡ j
        → j < length key
        → drop (suc k) key ≡ get_or key j 0 ∷ drop (suc j) key
    next k j e l = ap (λ n. drop n key) e ∙ drop-get_or key j 0 l

-- A mask of four equal bytes that leaves bytes bytes.
module _ (m : ℕ) (byte : m < 256) (small : (c : ℕ) → c < 256 → bit_xor c m < 256) where
  xor_word-bytes :
      (a b c d : ℕ)
      → All IsByte (a ∷ b ∷ c ∷ d ∷ [])
      → put_32_bit_le (bit_xor (word a b c d) (word m m m m))
        ≡ map (λ x. bit_xor x m) (a ∷ b ∷ c ∷ d ∷ [])
  xor_word-bytes a b c d (ha, (hb, (hc, (hd, none)))) =
      ap put_32_bit_le (bit_xor-word a b c d m ha hb hc byte)
      ∙ put_32_bit_le-word (bit_xor a m) (bit_xor b m) (bit_xor c m) (bit_xor d m) (small a ha)
          (small b hb) (small c hc) (small d hd)

  xor_words-map :
      (n : ℕ) (key : List ℕ) (i : ℕ)
      → i + n * 4 ≡ length key
      → All IsByte (drop i key)
      → xor_words n key i (word m m m m) ≡ map (λ c. bit_xor c m) (drop i key)
  unfolding xor_words
  xor_words-map zero key i e h = ap (map (λ c. bit_xor c m)) (sym (drop_all i key (omega arith)))
  xor_words-map (suc n) key i e h =
      let opened = drop-four key i (omega (arith, e)) in
      let bytes = subst (All IsByte) opened h in
      ap (λ v. put_32_bit_le (bit_xor v (word m m m m)) ++ xor_words n key (i + 4) (word m m m m))
        (get_32_bit_le-word key i (get_or key i 0) (get_or key (i + 1) 0) (get_or key (i + 2) 0)
          (get_or key (i + 3) 0) refl refl refl refl (bytes.0) (bytes.1.0) (bytes.1.1.0))
      ∙ ap₂ ◌++◌
          (xor_word-bytes (get_or key i 0) (get_or key (i + 1) 0) (get_or key (i + 2) 0)
            (get_or key (i + 3) 0) (bytes.0, (bytes.1.0, (bytes.1.1.0, (bytes.1.1.1.0, tt)))))
          (xor_words-map n key (i + 4) (omega (arith, e)) (bytes.1.1.1.1))
      ∙ ap (map (λ c. bit_xor c m)) (sym opened)

  pub xor_key-map :
      (key : List ℕ)
      → length key ≡ 64
      → All IsByte key
      → xor_key key (word m m m m) ≡ map (λ c. bit_xor c m) key
  unfolding xor_key
  xor_key-map key e h = xor_words-map 16 key 0 (omega (arith, e)) h

  pub All-map : (key : List ℕ) → All IsByte key → All IsByte (map (λ c. bit_xor c m) key)
  All-map [] h = tt
  All-map (c ∷ key) (h, hs) = (small c h, All-map key hs)
