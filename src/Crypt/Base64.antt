-- ===== src/Crypt/Base64.antt =====
-- base64_encode and base64_decode of runtime/src/utils/crypt.cpp. A text is the list of its bytes.
-- `held` is the part of char_array_3 or char_array_4 that the loop has filled; what the array holds
-- behind it is overwritten before it is read.
pub mod Bits
pub mod RoundTrip
use simple.Prelude.{ℕ, zero, suc, ◌+◌, ◌-◌, ◌*◌, ◌/◌, ◌%◌, Bool, true, false, leb, ◌==◌, ◌&&◌, ◌||◌}
use simple.Prelude.{if◌then◌else◌, List, [], ◌∷◌, ◌++◌, length, get_or, take, bit_and, map}

-- A-Z a-z 0-9 + /
abbrev pub base64_chars : List ℕ
base64_chars =
    65 ∷ 66 ∷ 67 ∷ 68 ∷ 69 ∷ 70 ∷ 71 ∷ 72 ∷ 73 ∷ 74 ∷ 75 ∷ 76 ∷ 77 ∷ 78 ∷ 79 ∷ 80 ∷ 81 ∷ 82 ∷ 83
    ∷ 84 ∷ 85 ∷ 86 ∷ 87 ∷ 88 ∷ 89 ∷ 90 ∷ 97 ∷ 98 ∷ 99 ∷ 100 ∷ 101 ∷ 102 ∷ 103 ∷ 104 ∷ 105 ∷ 106
    ∷ 107 ∷ 108 ∷ 109 ∷ 110 ∷ 111 ∷ 112 ∷ 113 ∷ 114 ∷ 115 ∷ 116 ∷ 117 ∷ 118 ∷ 119 ∷ 120 ∷ 121 ∷ 122
    ∷ 48 ∷ 49 ∷ 50 ∷ 51 ∷ 52 ∷ 53 ∷ 54 ∷ 55 ∷ 56 ∷ 57 ∷ 43 ∷ 47 ∷ []

unfoldable pub is_base64 : ℕ → Bool
is_base64 c = c == 43 || (leb 47 c && leb c 57) || (leb 65 c && leb c 90) || (leb 97 c && leb c 122)

-- char_array_3_to_4
unfoldable pub three_to_four : ℕ → ℕ → ℕ → List ℕ
three_to_four a b c =
    bit_and a 0xfc / 4
    ∷ (bit_and a 0x03 * 16 + bit_and b 0xf0 / 16) % 256
    ∷ (bit_and b 0x0f * 4 + bit_and c 0xc0 / 64) % 256
    ∷ bit_and c 0x3f
    ∷ []

unfoldable pub encode_chars : List ℕ → List ℕ
encode_chars = map (λ c. get_or base64_chars c 0)

-- One turn of the loop: `held` has fewer than three bytes.
unfoldable pub encode_step : List ℕ → List ℕ → ℕ → List ℕ × List ℕ
encode_step held output ch =
    let full = held ++ (ch ∷ []) in
    if length full == 3
    then (
      [],
      output ++ encode_chars (three_to_four (get_or full 0 0) (get_or full 1 0) (get_or full 2 0)),
    )
    else (full, output)

unfoldable pub encode_loop : List ℕ → List ℕ → List ℕ → List ℕ × List ℕ
encode_loop held output [] = (held, output)
encode_loop held output (ch ∷ input) =
    let next = encode_step held output ch in encode_loop next.0 next.1 input

unfoldable pub pad : ℕ → List ℕ
pad zero = []
pad (suc n) = 61 ∷ pad n

-- The bytes left over, filled up with zeros, and the padding.
unfoldable pub encode_rest : List ℕ → List ℕ → List ℕ
encode_rest held output =
    let i = length held in
    if i == 0
    then output
    else output
      ++ (encode_chars
            (take (i + 1) (three_to_four (get_or held 0 0) (get_or held 1 0) (get_or held 2 0)))
          ++ pad (3 - i))

unfoldable pub base64_encode : List ℕ → List ℕ
base64_encode input = let r = encode_loop [] [] input in encode_rest r.0 r.1

-- base64_chars.find(c) as a uint8_t, which is 255 where there is none.
unfoldable pub find_from : List ℕ → ℕ → ℕ → ℕ
find_from [] i c = 255
find_from (x ∷ xs) i c = if x == c then i else find_from xs (suc i) c

unfoldable pub find_char : ℕ → ℕ
find_char c = find_from base64_chars 0 c

-- char_array_4_to_3
unfoldable pub four_to_three : ℕ → ℕ → ℕ → ℕ → List ℕ
four_to_three a b c d =
    let p = find_char a in
    let q = find_char b in
    let r = find_char c in
    let s = find_char d in
    (p * 4 + bit_and q 0x30 / 16) % 256
    ∷ (bit_and q 0x0f * 16 + bit_and r 0x3c / 4) % 256
    ∷ (bit_and r 0x03 * 64 + s) % 256
    ∷ []

unfoldable pub decode_step : List ℕ → List ℕ → ℕ → List ℕ × List ℕ
decode_step held output ch =
    let full = held ++ (ch ∷ []) in
    if length full == 4
    then (
      [],
      output
          ++ four_to_three (get_or full 0 0) (get_or full 1 0) (get_or full 2 0) (get_or full 3 0),
    )
    else (full, output)

-- The loop breaks at the first byte that is not of the alphabet.
unfoldable pub decode_loop : List ℕ → List ℕ → List ℕ → List ℕ × List ℕ
decode_loop held output [] = (held, output)
decode_loop held output (ch ∷ input) =
    let next = decode_step held output ch in
    let rest = decode_loop next.0 next.1 input in if is_base64 ch then rest else (held, output)

unfoldable pub decode_rest : List ℕ → List ℕ → List ℕ
decode_rest held output =
    let i = length held in
    if i == 0
    then output
    else output
      ++ take (i - 1)
          (four_to_three (get_or held 0 0) (get_or held 1 0) (get_or held 2 0) (get_or held 3 0))

unfoldable pub base64_decode : List ℕ → List ℕ
base64_decode input = let r = decode_loop [] [] input in decode_rest r.0 r.1
