-- ===== src/Crypt/Tests.antt =====
-- Runs of the base64 code.
use simple.Prelude.{flatten, replicate, codes}
use simple.Crypt.Md5.{Md5Context, md5_start}
use simple.Crypt.Md5.Digest.{md5_updates, md5_digest, md5_final-updates}
use simple.Crypt.Sha1.{new_sha1}
use simple.Crypt.Sha1.Digest.{sha1_updates, sha1_digest, sha1_final-updates}
use simple.Crypt.Hmac.{xor_words, xor_key, key_block, hmac_md5, hmac_sha1}
use simple.Crypt.Hmac.Keys.{rfc_hmac, replicate-IsByte}
use simple.Crypt.Hmac.Rfc.{hmac_md5-rfc_hmac, hmac_sha1-rfc_hmac}
use simple.Prelude.{ℕ, ◌<◌, ◌≡◌, arith, List, [], ◌∷◌, All}
use simple.Prelude.{refl}
use simple.Crypt.Words.{
  left_rotate, put_32_bit_le, put_32_bit_be, put_64_bit_le, put_64_bit_be, get_32_bit_le,
  get_32_bit_be, bytes_to_word32_le, bytes_to_word32_be,
}
use simple.Crypt.Blocks.{absorb, keep_rest, block_loop, overwrite, pad_length}
use simple.Crypt.Md5.{
  md5, md5_final, md5_update, md5_init, md5_transform, md5_rounds, md5_step, md5_fn, md5_fn_f,
  md5_fn_g, md5_fn_h, md5_fn_i,
}
use simple.Crypt.Sha1.{
  sha1, sha1_final, sha1_update, sha1_init, sha1_transform, step0_rounds, step1_rounds, step0,
  extend, sha1_blk, sha1_fn, sha1_f1, sha1_f2, sha1_f3,
}
use simple.Crypt.Base64.{base64_encode, base64_decode}
use simple.Crypt.Base64.RoundTrip.{text, base64_encode-text, base64_decode-encode}

-- "hello"
abbrev hello : List ℕ
hello = 104 ∷ 101 ∷ 108 ∷ 108 ∷ 111 ∷ []

hello_bytes : All (λ x. x < 256) hello
hello_bytes = (omega arith, (omega arith, (omega arith, (omega arith, (omega arith, tt)))))

base64_encode-text_example : base64_encode hello ≡ text hello
base64_encode-text_example = base64_encode-text hello hello_bytes

base64_decode-encode_example : base64_decode (base64_encode hello) ≡ hello
base64_decode-encode_example = base64_decode-encode hello hello_bytes

-- "abc" and the empty text, as RFC 1321 and RFC 3174 give them.
md5_empty :
    md5 []
    ≡ 0xd4 ∷ 0x1d ∷ 0x8c ∷ 0xd9 ∷ 0x8f ∷ 0x00 ∷ 0xb2 ∷ 0x04 ∷ 0xe9 ∷ 0x80 ∷ 0x09 ∷ 0x98 ∷ 0xec
      ∷ 0xf8 ∷ 0x42 ∷ 0x7e ∷ []
unfolding md5 md5_final md5_update md5_init md5_transform md5_rounds md5_step md5_fn md5_fn_f
    md5_fn_g md5_fn_h md5_fn_i left_rotate put_32_bit_le put_64_bit_le get_32_bit_le
    bytes_to_word32_le absorb keep_rest block_loop overwrite pad_length
md5_empty = refl

sha1_abc :
    sha1 (97 ∷ 98 ∷ 99 ∷ [])
    ≡ 0xa9 ∷ 0x99 ∷ 0x3e ∷ 0x36 ∷ 0x47 ∷ 0x06 ∷ 0x81 ∷ 0x6a ∷ 0xba ∷ 0x3e ∷ 0x25 ∷ 0x71 ∷ 0x78
      ∷ 0x50 ∷ 0xc2 ∷ 0x6c ∷ 0x9c ∷ 0xd0 ∷ 0xd8 ∷ 0x9d ∷ []
unfolding sha1 sha1_final sha1_update sha1_init sha1_transform step0_rounds step1_rounds step0
    extend sha1_blk sha1_fn sha1_f1 sha1_f2 sha1_f3 left_rotate put_32_bit_be put_64_bit_be
    get_32_bit_be bytes_to_word32_be absorb keep_rest block_loop overwrite pad_length
sha1_abc = refl

-- A used context, and a message in two pieces.
abbrev used_md5 : Md5Context
used_md5 = record { state = md5_start; count = 40; buff = replicate 64 7 }

md5_final-updates_example :
    (md5_final (md5_updates (md5_init used_md5) (hello ∷ hello ∷ []))).0
    ≡ md5_digest (flatten (hello ∷ hello ∷ []))
md5_final-updates_example = md5_final-updates used_md5 (hello ∷ hello ∷ []) refl

sha1_final-updates_example :
    (sha1_final (sha1_updates (sha1_init new_sha1) (hello ∷ hello ∷ []))).0
    ≡ sha1_digest (flatten (hello ∷ hello ∷ []))
sha1_final-updates_example = sha1_final-updates new_sha1 (hello ∷ hello ∷ []) refl refl

hmac_md5-rfc_hmac_example :
    hmac_md5 hello (replicate 70 1) ≡ rfc_hmac md5_digest hello (replicate 70 1)
hmac_md5-rfc_hmac_example =
    hmac_md5-rfc_hmac hello (replicate 70 1) (replicate-IsByte 70 1 (omega arith))

hmac_sha1-rfc_hmac_example :
    hmac_sha1 hello (replicate 70 1) ≡ rfc_hmac sha1_digest hello (replicate 70 1)
hmac_sha1-rfc_hmac_example =
    hmac_sha1-rfc_hmac hello (replicate 70 1) (replicate-IsByte 70 1 (omega arith))

-- The first test of RFC 2202.
hmac_md5_hi_there :
    hmac_md5 (codes "Hi There") (replicate 16 0x0b)
    ≡ 0x92 ∷ 0x94 ∷ 0x72 ∷ 0x7a ∷ 0x36 ∷ 0x38 ∷ 0xbb ∷ 0x1c ∷ 0x13 ∷ 0xf4 ∷ 0x8e ∷ 0xf8 ∷ 0x15
      ∷ 0x8b ∷ 0xfc ∷ 0x9d ∷ []
unfolding hmac_md5 key_block xor_key xor_words md5_final md5_update md5_init md5_transform
    md5_rounds md5_step md5_fn md5_fn_f md5_fn_g md5_fn_h md5_fn_i left_rotate put_32_bit_le
    put_64_bit_le get_32_bit_le bytes_to_word32_le absorb keep_rest block_loop overwrite pad_length
hmac_md5_hi_there = refl
