-- ===== src/Crypt/Base64/RoundTrip.antt =====
-- base64_encode against the arithmetic of RFC 4648, and base64_decode as its inverse.
use simple.Prelude.{ℕ, ◌+◌, ◌*◌, ◌/◌, ◌%◌, ◌<◌, ◌≡◌, refl, sym, ap, ◌∙◌, arith, false}
use simple.Prelude.{List, [], ◌∷◌, ◌++◌, All, get_or, take, append_assoc, append-nil}
use simple.Crypt.Base64.{
  base64_chars, is_base64, three_to_four, encode_chars, encode_step, encode_loop, pad, encode_rest,
  base64_encode, four_to_three, decode_step, decode_loop, decode_rest, base64_decode,
}
use simple.Crypt.Base64.Bits.{
  and_fc, and_03, and_f0, and_0f, and_c0, and_3f, and_30, and_3c, find_char-get, is_base64-get,
}

-- The character of a six bit value.
abbrev pub char_of : ℕ → ℕ
char_of x = get_or base64_chars x 0

-- The text of RFC 4648: four characters for each three bytes, the last ones padded with '='.
unfoldable pub text : List ℕ → List ℕ
text [] = []
text (a ∷ []) = char_of (a / 4) ∷ char_of (a % 4 * 16) ∷ 61 ∷ 61 ∷ []
text (a ∷ b ∷ []) = char_of (a / 4) ∷ char_of (a % 4 * 16 + b / 16) ∷ char_of (b % 16 * 4) ∷ 61 ∷ []
text (a ∷ b ∷ c ∷ input) =
    char_of (a / 4)
    ∷ char_of (a % 4 * 16 + b / 16)
    ∷ char_of (b % 16 * 4 + c / 64)
    ∷ char_of (c % 64)
    ∷ text input

module _ (a b c : ℕ) (ha : a < 256) (hb : b < 256) (hc : c < 256) where
  three_to_four_values :
      three_to_four a b c ≡ (a / 4 ∷ (a % 4 * 16 + b / 16) ∷ (b % 16 * 4 + c / 64) ∷ c % 64 ∷ [])
  unfolding three_to_four
  three_to_four_values =
      rw (
        and_fc a ha,
        and_03 a ha,
        and_f0 b hb,
        and_0f b hb,
        and_c0 c hc,
        and_3f c hc,
        second,
        third,
      )
    where
      second : (a % 4 * 16 + b / 16) % 256 ≡ a % 4 * 16 + b / 16
      second = omega arith

      third : (b % 16 * 4 + c / 64) % 256 ≡ b % 16 * 4 + c / 64
      third = omega arith

-- Three of the four characters' values give the three bytes back.
four_to_three_values :
    (p q r s : ℕ)
    → p < 64
    → q < 64
    → r < 64
    → s < 64
    → four_to_three (char_of p) (char_of q) (char_of r) (char_of s)
      ≡ (p * 4 + q / 16) ∷ (q % 16 * 16 + r / 4) ∷ (r % 4 * 64 + s) ∷ []
unfolding four_to_three
four_to_three_values p q r s hp hq hr hs = rw (
  find_char-get p hp,
  find_char-get q hq,
  find_char-get r hr,
  find_char-get s hs,
  and_30 q (omega arith),
  and_0f q (omega arith),
  and_3c r (omega arith),
  and_03 r (omega arith),
  first,
  second,
  third,
)
  where
    first : (p * 4 + q / 16 % 4) % 256 ≡ p * 4 + q / 16
    first = omega arith

    second : (q % 16 * 16 + r / 4 % 16) % 256 ≡ q % 16 * 16 + r / 4
    second = omega arith

    third : (r % 4 * 64 + s) % 256 ≡ r % 4 * 64 + s
    third = omega arith

one_byte : (a : ℕ) → a < 256 → take 2 (three_to_four a 0 0) ≡ (a / 4 ∷ (a % 4 * 16) ∷ [])
one_byte a h =
    ap (take 2) (three_to_four_values a 0 0 h (omega arith) (omega arith))
    ∙ ap (λ x. a / 4 ∷ x ∷ []) (omega arith)

two_bytes :
    (a b : ℕ)
    → a < 256
    → b < 256
    → take 3 (three_to_four a b 0) ≡ (a / 4 ∷ (a % 4 * 16 + b / 16) ∷ (b % 16 * 4) ∷ [])
two_bytes a b ha hb =
    ap (take 3) (three_to_four_values a b 0 ha hb (omega arith))
    ∙ ap (λ x. a / 4 ∷ (a % 4 * 16 + b / 16) ∷ x ∷ []) (omega arith)

encode_from :
    (out input : List ℕ)
    → All (λ x. x < 256) input
    → (let r = encode_loop [] out input in encode_rest r.0 r.1) ≡ out ++ text input
unfolding encode_loop encode_step encode_rest encode_chars pad text
encode_from out [] h = sym (append-nil out)
encode_from out (a ∷ []) h = ap (λ t. out ++ (encode_chars t ++ 61 ∷ 61 ∷ [])) (one_byte a (h.0))
encode_from out (a ∷ b ∷ []) h =
    ap (λ t. out ++ (encode_chars t ++ 61 ∷ [])) (two_bytes a b (h.0) (h.1.0))
encode_from out (a ∷ b ∷ c ∷ input) h =
    encode_from (out ++ encode_chars (three_to_four a b c)) input (h.1.1.1)
    ∙ ap (λ t. (out ++ encode_chars t) ++ text input)
        (three_to_four_values a b c (h.0) (h.1.0) (h.1.1.0))
    ∙ append_assoc out _ (text input)

-- On bytes base64_encode is the text of RFC 4648.
pub base64_encode-text :
    (input : List ℕ) → All (λ x. x < 256) input → base64_encode input ≡ text input
unfolding base64_encode
base64_encode-text input h = encode_from [] input h

equals_sign : is_base64 61 ≡ false
unfolding is_base64
equals_sign = refl

decode_quad :
    (out rest : List ℕ) (p q r s : ℕ)
    → p < 64
    → q < 64
    → r < 64
    → s < 64
    → decode_loop [] out (char_of p ∷ char_of q ∷ char_of r ∷ char_of s ∷ rest)
      ≡ decode_loop [] (out ++ four_to_three (char_of p) (char_of q) (char_of r) (char_of s)) rest
unfolding decode_loop decode_step
decode_quad out rest p q r s hp hq hr hs =
    rw (is_base64-get p hp, is_base64-get q hq, is_base64-get r hr, is_base64-get s hs)

decode_pair :
    (out : List ℕ) (p q : ℕ)
    → p < 64
    → q < 64
    → decode_loop [] out (char_of p ∷ char_of q ∷ 61 ∷ 61 ∷ []) ≡ (char_of p ∷ char_of q ∷ [], out)
unfolding decode_loop decode_step
decode_pair out p q hp hq = rw (is_base64-get p hp, is_base64-get q hq, equals_sign)

decode_triple :
    (out : List ℕ) (p q r : ℕ)
    → p < 64
    → q < 64
    → r < 64
    → decode_loop [] out (char_of p ∷ char_of q ∷ char_of r ∷ 61 ∷ [])
      ≡ (char_of p ∷ char_of q ∷ char_of r ∷ [], out)
unfolding decode_loop decode_step
decode_triple out p q r hp hq hr =
    rw (is_base64-get p hp, is_base64-get q hq, is_base64-get r hr, equals_sign)

rest : List ℕ × List ℕ → List ℕ
rest r = decode_rest r.0 r.1

three_back :
    (a b c : ℕ)
    → a < 256
    → b < 256
    → c < 256
    → four_to_three
        (char_of (a / 4))
        (char_of (a % 4 * 16 + b / 16))
        (char_of (b % 16 * 4 + c / 64))
        (char_of (c % 64))
      ≡ a ∷ b ∷ c ∷ []
three_back a b c ha hb hc =
    four_to_three_values (a / 4) (a % 4 * 16 + b / 16) (b % 16 * 4 + c / 64) (c % 64) (omega arith)
      (omega arith) (omega arith) (omega arith)
    ∙ rw (first, second, third)
  where
    first : a / 4 * 4 + (a % 4 * 16 + b / 16) / 16 ≡ a
    first = omega arith

    second : (a % 4 * 16 + b / 16) % 16 * 16 + (b % 16 * 4 + c / 64) / 4 ≡ b
    second = omega arith

    third : (b % 16 * 4 + c / 64) % 4 * 64 + c % 64 ≡ c
    third = omega arith

one_back :
    (a c d : ℕ)
    → a < 256
    → take 1 (four_to_three (char_of (a / 4)) (char_of (a % 4 * 16)) c d) ≡ a ∷ []
unfolding four_to_three
one_back a c d h = rw (
  find_char-get (a / 4) (omega arith),
  find_char-get (a % 4 * 16) (omega arith),
  and_30 (a % 4 * 16) (omega arith),
  first,
)
  where
    first : (a / 4 * 4 + a % 4 * 16 / 16 % 4) % 256 ≡ a
    first = omega arith

two_back :
    (a b d : ℕ)
    → a < 256
    → b < 256
    → take 2
        (four_to_three (char_of (a / 4)) (char_of (a % 4 * 16 + b / 16)) (char_of (b % 16 * 4)) d)
      ≡ a ∷ b ∷ []
unfolding four_to_three
two_back a b d ha hb = rw (
  find_char-get (a / 4) (omega arith),
  find_char-get (a % 4 * 16 + b / 16) (omega arith),
  find_char-get (b % 16 * 4) (omega arith),
  and_30 (a % 4 * 16 + b / 16) (omega arith),
  and_0f (a % 4 * 16 + b / 16) (omega arith),
  and_3c (b % 16 * 4) (omega arith),
  first,
  second,
)
  where
    first : (a / 4 * 4 + (a % 4 * 16 + b / 16) / 16 % 4) % 256 ≡ a
    first = omega arith

    second : ((a % 4 * 16 + b / 16) % 16 * 16 + b % 16 * 4 / 4 % 16) % 256 ≡ b
    second = omega arith

decode_from :
    (out input : List ℕ)
    → All (λ x. x < 256) input
    → rest (decode_loop [] out (text input)) ≡ out ++ input
unfolding text rest decode_rest decode_loop
decode_from out [] h = sym (append-nil out)
decode_from out (a ∷ []) h =
    ap rest (decode_pair out (a / 4) (a % 4 * 16) (omega arith) (omega arith))
    ∙ ap (◌++◌ out) (one_back a 0 0 (h.0))
decode_from out (a ∷ b ∷ []) h =
    ap rest (
      decode_triple out (a / 4) (a % 4 * 16 + b / 16) (b % 16 * 4) (omega (arith, h.0, h.1.0))
        (omega (arith, h.0, h.1.0)) (omega arith))
    ∙ ap (◌++◌ out) (two_back a b 0 (h.0) (h.1.0))
decode_from out (a ∷ b ∷ c ∷ input) h =
    ap rest (
      decode_quad out (text input) (a / 4) (a % 4 * 16 + b / 16) (b % 16 * 4 + c / 64) (c % 64)
        (omega (arith, h.0)) (omega (arith, h.1.0)) (omega (arith, h.1.1.0)) (omega arith))
    ∙ ap (λ t. rest (decode_loop [] (out ++ t) (text input)))
        (three_back a b c (h.0) (h.1.0) (h.1.1.0))
    ∙ decode_from (out ++ (a ∷ b ∷ c ∷ [])) input (h.1.1.1)
    ∙ append_assoc out (a ∷ b ∷ c ∷ []) input

-- Decoding what base64_encode made of bytes gives them back.
pub base64_decode-encode :
    (input : List ℕ) → All (λ x. x < 256) input → base64_decode (base64_encode input) ≡ input
unfolding base64_decode rest
base64_decode-encode input h =
    ap base64_decode (base64_encode-text input h) ∙ decode_from [] input h
