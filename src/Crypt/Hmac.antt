-- ===== src/Crypt/Hmac.antt =====
-- hmac_md5 and hmac_sha1 of runtime/src/utils/crypt.cpp, on a little-endian machine.
pub mod Masks
pub mod Keys
pub mod Rfc
use simple.Prelude.{
  ℕ, zero, suc, ◌+◌, ◌≡◌, refl, ap, ◌∙◌, ltb, if◌then◌else◌, List, [], ◌∷◌, ◌++◌, length, replicate,
  append-nil, bit_xor, flatten,
}
use simple.Crypt.Words.{get_32_bit_le, put_32_bit_le}
use simple.Crypt.Blocks.{overwrite}
use simple.Crypt.Md5.{new_md5, md5_init, md5_update, md5_final, md5}
use simple.Crypt.Md5.Digest.{md5_updates, md5_digest, md5_final-updates, md5-digest}
use simple.Crypt.Sha1.{new_sha1, sha1_init, sha1_update, sha1_final, sha1}
use simple.Crypt.Sha1.Digest.{sha1_updates, sha1_digest, sha1_final-updates, sha1-digest}

-- The words from place `i` on.
unfoldable pub xor_words : ℕ → List ℕ → ℕ → ℕ → List ℕ
xor_words zero key i xor_num = []
xor_words (suc n) key i xor_num =
    put_32_bit_le (bit_xor (get_32_bit_le key i) xor_num) ++ xor_words n key (i + 4) xor_num

unfoldable pub xor_key : List ℕ → ℕ → List ℕ
xor_key key xor_num = xor_words 16 key 0 xor_num

-- `key` behind its zeros, where `short` is the digest of a key that is too long.
unfoldable pub key_block : (List ℕ → List ℕ) → List ℕ → List ℕ
key_block short input_key =
    overwrite (replicate 64 0) 0 (if ltb 64 (length input_key) then short input_key else input_key)

unfoldable pub hmac_md5 : List ℕ → List ℕ → List ℕ
hmac_md5 input input_key =
    let outer = xor_key (key_block md5 input_key) 0x5c5c5c5c in
    let ctx1 = md5_update (md5_init new_md5) outer in
    let inner = xor_key outer (bit_xor 0x5c5c5c5c 0x36363636) in
    let ctx2 = md5_update (md5_update (md5_init new_md5) inner) input in
    (md5_final (md5_update ctx1 (md5_final ctx2).0)).0

unfoldable pub hmac_sha1 : List ℕ → List ℕ → List ℕ
hmac_sha1 input input_key =
    let outer = xor_key (key_block sha1 input_key) 0x5c5c5c5c in
    let ctx1 = sha1_update (sha1_init new_sha1) outer in
    let inner = xor_key outer (bit_xor 0x5c5c5c5c 0x36363636) in
    let ctx2 = sha1_update (sha1_update (sha1_init new_sha1) inner) input in
    (sha1_final (sha1_update ctx1 (sha1_final ctx2).0)).0
