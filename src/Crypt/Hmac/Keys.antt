-- ===== src/Crypt/Hmac/Keys.antt =====
-- RFC 2104, and the padded keys of hmac_md5 and hmac_sha1 of runtime/src/utils/crypt.cpp.
use simple.Prelude.{
  ℕ, zero, suc, ◌+◌, ◌-◌, ◌≤◌, ◌<◌, ◌≡◌, refl, sym, ap, ap₂, subst, ◌∙◌, true, ltb, if◌then◌else◌,
  Bool-cases, inl, inr, List, [], ◌∷◌, ◌++◌, length, map, replicate, drop, arith, All, All-append,
  length-replicate, length-append, bit_xor,
}
use simple.Prelude.Bytes.{all_below, all_below_sound, agree}
use simple.Crypt.Blocks.{overwrite}
use simple.Crypt.Hmac.Masks.{IsByte, xor_key-map, All-map}
use simple.Crypt.Hmac.{xor_key, key_block}

-- B is 64: a key longer than the block gives way to its digest, and zeros fill the block up.
unfoldable pub rfc_key : (List ℕ → List ℕ) → List ℕ → List ℕ
rfc_key digest key =
    let k = if ltb 64 (length key) then digest key else key in k ++ replicate (64 - length k) 0

-- opad and ipad are the bytes 0x5c and 0x36, repeated.
unfoldable pub rfc_hmac : (List ℕ → List ℕ) → List ℕ → List ℕ → List ℕ
rfc_hmac digest input key =
    let k = rfc_key digest key in
    digest (map (λ c. bit_xor c 0x5c) k ++ digest (map (λ c. bit_xor c 0x36) k ++ input))

small_outer : (c : ℕ) → c < 256 → bit_xor c 0x5c < 256
unfolding all_below
small_outer c h = ltb_true (all_below_sound 256 (λ c. ltb (bit_xor c 0x5c) 256) c refl h)
  where
    ltb_true : ltb (bit_xor c 0x5c) 256 ≡ true → bit_xor c 0x5c < 256
    ltb_true e = ground (arith, e)

small_both : (c : ℕ) → c < 256 → bit_xor c 0x6a < 256
unfolding all_below
small_both c h = ltb_true (all_below_sound 256 (λ c. ltb (bit_xor c 0x6a) 256) c refl h)
  where
    ltb_true : ltb (bit_xor c 0x6a) 256 ≡ true → bit_xor c 0x6a < 256
    ltb_true e = ground (arith, e)

outer_inner : (c : ℕ) → c < 256 → bit_xor (bit_xor c 0x5c) 0x6a ≡ bit_xor c 0x36
unfolding all_below
outer_inner c h = agree (λ c. bit_xor (bit_xor c 0x5c) 0x6a) (λ c. bit_xor c 0x36) 256 refl c h

map-outer_inner :
    (key : List ℕ)
    → All IsByte key
    → map (λ c. bit_xor c 0x6a) (map (λ c. bit_xor c 0x5c) key) ≡ map (λ c. bit_xor c 0x36) key
map-outer_inner [] h = refl
map-outer_inner (c ∷ key) (h, hs) = ap₂ ◌∷◌ (outer_inner c h) (map-outer_inner key hs)

length-map {ℓ} : {A : Type ℓ} (f : A → A) (xs : List A) → length (map f xs) ≡ length xs
length-map f [] = refl
length-map f (x ∷ xs) = ap suc (length-map f xs)

drop-replicate {ℓ} : {A : Type ℓ} (m n : ℕ) (a : A) → drop m (replicate n a) ≡ replicate (n - m) a
drop-replicate zero n a = ap (λ k. replicate k a) {x = n} (omega arith)
drop-replicate (suc m) zero a = ap (λ k. replicate k a) {x = 0} (omega arith)
drop-replicate (suc m) (suc n) a =
    drop-replicate m n a ∙ ap (λ k. replicate k a) {x = n - m} (omega arith)

pub replicate-IsByte : (n c : ℕ) → IsByte c → All IsByte (replicate n c)
replicate-IsByte zero c h = tt
replicate-IsByte (suc n) c h = (h, replicate-IsByte n c h)

-- The padded key of the code is that of RFC 2104, a block of bytes, where the digest is bytes and no
-- longer than a block.
module _ (digest : List ℕ → List ℕ) (key : List ℕ) (fits : length (digest key) ≤ 64)
    (digest_bytes : All IsByte (digest key)) (key_bytes : All IsByte key) where
  abbrev short : List ℕ
  short = if ltb 64 (length key) then digest key else key

  short_fits : length short ≤ 64
  short_fits = elim (Bool-cases (ltb 64 (length key))) [
    | inl t ↦ subst (λ b. length (if b then digest key else key) ≤ 64) (sym t) fits
    | inr t ↦ ground (arith, t)
  ]

  key_block-rfc_key : key_block digest key ≡ rfc_key digest key
  unfolding key_block rfc_key overwrite
  key_block-rfc_key = ap (◌++◌ short) (
      ap (λ n. drop n (replicate 64 zero)) {x = 0 + length short} {y = length short} (omega arith)
      ∙ drop-replicate (length short) 64 zero)

  rfc_key-block : length (rfc_key digest key) ≡ 64
  unfolding rfc_key
  rfc_key-block = omega (
    arith,
    length-append short (replicate (64 - length short) 0),
    length-replicate (64 - length short) zero,
    short_fits,
  )

  rfc_key-IsByte : All IsByte (rfc_key digest key)
  unfolding rfc_key
  rfc_key-IsByte =
      All-append IsByte short (replicate (64 - length short) 0)
        (elim (Bool-cases (ltb 64 (length key))) [
          | inl t ↦ subst (λ b. All IsByte (if b then digest key else key)) (sym t) digest_bytes
          | inr t ↦ subst (λ b. All IsByte (if b then digest key else key)) (sym t) key_bytes
        ])
        (replicate-IsByte (64 - length short) 0 (omega arith))

  pub outer_key :
      xor_key (key_block digest key) 0x5c5c5c5c ≡ map (λ c. bit_xor c 0x5c) (rfc_key digest key)
  outer_key =
      ap (λ k. xor_key k 0x5c5c5c5c) key_block-rfc_key
      ∙ xor_key-map 0x5c (omega arith) small_outer (rfc_key digest key) rfc_key-block rfc_key-IsByte

  pub inner_key :
      xor_key (xor_key (key_block digest key) 0x5c5c5c5c) (bit_xor 0x5c5c5c5c 0x36363636)
      ≡ map (λ c. bit_xor c 0x36) (rfc_key digest key)
  inner_key =
      ap (λ k. xor_key k (bit_xor 0x5c5c5c5c 0x36363636)) outer_key
      ∙ xor_key-map 0x6a (omega arith) small_both (map (λ c. bit_xor c 0x5c) (rfc_key digest key))
          (length-map (λ c. bit_xor c 0x5c) (rfc_key digest key) ∙ rfc_key-block)
          (All-map 0x5c (omega arith) small_outer (rfc_key digest key) rfc_key-IsByte)
      ∙ map-outer_inner (rfc_key digest key) rfc_key-IsByte
