-- ===== src/Crypt/Hmac/Rfc.antt =====
-- hmac_md5 and hmac_sha1 of runtime/src/utils/crypt.cpp against RFC 2104.
use simple.Prelude.{
  ℕ, ◌≤◌, ◌≡◌, refl, ap, ap₂, fun_ext, ◌∙◌, arith, List, [], ◌∷◌, ◌++◌, length, map, All,
  append-nil, bit_xor, flatten,
}
use simple.Crypt.Words.{put_32_bit_le, put_32_bit_be}
use simple.Crypt.Md5.{new_md5, md5_init, md5_update, md5_final, md5}
use simple.Crypt.Md5.Digest.{md5_updates, md5_digest, md5_final-updates, md5-digest}
use simple.Crypt.Sha1.{new_sha1, sha1_init, sha1_update, sha1_final, sha1}
use simple.Crypt.Sha1.Digest.{sha1_updates, sha1_digest, sha1_final-updates, sha1-digest}
use simple.Crypt.Hmac.{xor_key, key_block, hmac_md5, hmac_sha1}
use simple.Crypt.Hmac.Masks.{IsByte}
use simple.Crypt.Hmac.Keys.{rfc_key, rfc_hmac, outer_key, inner_key}

module _ (a b : List ℕ) where
  md5_two : (md5_final (md5_update (md5_update (md5_init new_md5) a) b)).0 ≡ md5_digest (a ++ b)
  unfolding md5_updates flatten
  md5_two = md5_final-updates new_md5 (a ∷ b ∷ []) refl ∙ ap md5_digest (ap (◌++◌ a) (append-nil b))

  sha1_two :
      (sha1_final (sha1_update (sha1_update (sha1_init new_sha1) a) b)).0 ≡ sha1_digest (a ++ b)
  unfolding sha1_updates flatten
  sha1_two =
      sha1_final-updates new_sha1 (a ∷ b ∷ []) refl refl
      ∙ ap sha1_digest (ap (◌++◌ a) (append-nil b))

le_then : (v : ℕ) (rest : List ℕ) → All IsByte rest → All IsByte (put_32_bit_le v ++ rest)
unfolding put_32_bit_le
le_then v rest h = (omega arith, (omega arith, (omega arith, (omega arith, h))))

le_last : (v : ℕ) → All IsByte (put_32_bit_le v)
unfolding put_32_bit_le
le_last v = (omega arith, (omega arith, (omega arith, (omega arith, tt))))

be_then : (v : ℕ) (rest : List ℕ) → All IsByte rest → All IsByte (put_32_bit_be v ++ rest)
unfolding put_32_bit_be
be_then v rest h = (omega arith, (omega arith, (omega arith, (omega arith, h))))

be_last : (v : ℕ) → All IsByte (put_32_bit_be v)
unfolding put_32_bit_be
be_last v = (omega arith, (omega arith, (omega arith, (omega arith, tt))))

module _ (key : List ℕ) where
  md5-length : length (md5 key) ≤ 64
  unfolding md5 md5_final put_32_bit_le
  md5-length = omega arith

  md5-IsByte : All IsByte (md5 key)
  unfolding md5 md5_final
  md5-IsByte = le_then _ _ (le_then _ _ (le_then _ _ (le_last _)))

  sha1-length : length (sha1 key) ≤ 64
  unfolding sha1 sha1_final put_32_bit_be
  sha1-length = omega arith

  sha1-IsByte : All IsByte (sha1 key)
  unfolding sha1 sha1_final
  sha1-IsByte = be_then _ _ (be_then _ _ (be_then _ _ (be_then _ _ (be_last _))))

-- hmac_md5 is the code of RFC 2104 over the digest of RFC 1321, for any input and any key of bytes; a
-- key longer than a block of 64 gives way to its digest.
pub hmac_md5-rfc_hmac :
    (input key : List ℕ) → All IsByte key → hmac_md5 input key ≡ rfc_hmac md5_digest input key
unfolding hmac_md5 rfc_hmac
hmac_md5-rfc_hmac input key h =
    md5_two outer ((md5_final (md5_update (md5_update (md5_init new_md5) inner) input)).0)
    ∙ ap (λ d. md5_digest (outer ++ d)) (md5_two inner input)
    ∙ ap₂ (λ o i. md5_digest (o ++ md5_digest (i ++ input)))
        (outer_key md5 key (md5-length key) (md5-IsByte key) h)
        (inner_key md5 key (md5-length key) (md5-IsByte key) h)
    ∙ ap
        (λ f. md5_digest (
          map (λ c. bit_xor c 0x5c) (rfc_key f key)
          ++ md5_digest (map (λ c. bit_xor c 0x36) (rfc_key f key) ++ input)))
        (fun_ext md5-digest)
  where
    outer : List ℕ
    outer = xor_key (key_block md5 key) 0x5c5c5c5c

    inner : List ℕ
    inner = xor_key outer (bit_xor 0x5c5c5c5c 0x36363636)

-- hmac_sha1 is the code of RFC 2104 over the digest of RFC 3174, for any input and any key of bytes; a
-- key longer than a block of 64 gives way to its digest.
pub hmac_sha1-rfc_hmac :
    (input key : List ℕ) → All IsByte key → hmac_sha1 input key ≡ rfc_hmac sha1_digest input key
unfolding hmac_sha1 rfc_hmac
hmac_sha1-rfc_hmac input key h =
    sha1_two outer ((sha1_final (sha1_update (sha1_update (sha1_init new_sha1) inner) input)).0)
    ∙ ap (λ d. sha1_digest (outer ++ d)) (sha1_two inner input)
    ∙ ap₂ (λ o i. sha1_digest (o ++ sha1_digest (i ++ input)))
        (outer_key sha1 key (sha1-length key) (sha1-IsByte key) h)
        (inner_key sha1 key (sha1-length key) (sha1-IsByte key) h)
    ∙ ap
        (λ f. sha1_digest (
          map (λ c. bit_xor c 0x5c) (rfc_key f key)
          ++ sha1_digest (map (λ c. bit_xor c 0x36) (rfc_key f key) ++ input)))
        (fun_ext sha1-digest)
  where
    outer : List ℕ
    outer = xor_key (key_block sha1 key) 0x5c5c5c5c

    inner : List ℕ
    inner = xor_key outer (bit_xor 0x5c5c5c5c 0x36363636)
