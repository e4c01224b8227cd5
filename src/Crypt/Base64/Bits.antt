-- ===== src/Crypt/Base64/Bits.antt =====
-- The masks of the base64 code as arithmetic on bytes, and the alphabet as a bijection.
use simple.Prelude.{ℕ, ◌/◌, ◌%◌, ◌<◌, ◌≡◌, refl, true, bit_and, get_or}
use simple.Prelude.Bytes.{all_below, all_below_sound, agree}
use simple.Crypt.Base64.{base64_chars, is_base64, find_from, find_char}

pub and_fc : (x : ℕ) → x < 256 → bit_and x 0xfc / 4 ≡ x / 4
unfolding all_below
and_fc = agree _ _ 256 refl

pub and_03 : (x : ℕ) → x < 256 → bit_and x 0x03 ≡ x % 4
unfolding all_below
and_03 = agree _ _ 256 refl

pub and_f0 : (x : ℕ) → x < 256 → bit_and x 0xf0 / 16 ≡ x / 16
unfolding all_below
and_f0 = agree _ _ 256 refl

pub and_0f : (x : ℕ) → x < 256 → bit_and x 0x0f ≡ x % 16
unfolding all_below
and_0f = agree _ _ 256 refl

pub and_c0 : (x : ℕ) → x < 256 → bit_and x 0xc0 / 64 ≡ x / 64
unfolding all_below
and_c0 = agree _ _ 256 refl

pub and_3f : (x : ℕ) → x < 256 → bit_and x 0x3f ≡ x % 64
unfolding all_below
and_3f = agree _ _ 256 refl

pub and_30 : (x : ℕ) → x < 256 → bit_and x 0x30 / 16 ≡ x / 16 % 4
unfolding all_below
and_30 = agree _ _ 256 refl

pub and_3c : (x : ℕ) → x < 256 → bit_and x 0x3c / 4 ≡ x / 4 % 16
unfolding all_below
and_3c = agree _ _ 256 refl

-- Each of the 64 characters is found at its place.
pub find_char-get : (x : ℕ) → x < 64 → find_char (get_or base64_chars x 0) ≡ x
unfolding all_below find_char find_from
find_char-get = agree _ _ 64 refl

pub is_base64-get : (x : ℕ) → x < 64 → is_base64 (get_or base64_chars x 0) ≡ true
unfolding all_below is_base64
is_base64-get x h = all_below_sound 64 (λ x. is_base64 (get_or base64_chars x 0)) x refl h
