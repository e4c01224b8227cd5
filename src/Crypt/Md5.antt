-- ===== src/Crypt/Md5.antt =====
-- The md5 of runtime/src/utils/crypt.cpp.
pub mod Digest
use simple.Prelude.{
  ℕ, ◌+◌, ◌-◌, ◌*◌, ◌/◌, ◌%◌, ◌^◌, Bool, ltb, if◌then◌else◌, List, [], ◌∷◌, ◌++◌, length, get_or,
  take, drop, replicate, bit_and, bit_or, bit_xor,
}
use simple.Crypt.Words.{
  w32, left_rotate, put_32_bit_le, put_64_bit_le, get_32_bit_le, bytes_to_word32_le,
}
use simple.Crypt.Blocks.{padding, pad_length, absorb}

unfoldable pub md5_fn_f : ℕ → ℕ → ℕ → ℕ
md5_fn_f x y z = bit_xor (bit_and (bit_xor y z) x) z

unfoldable pub md5_fn_g : ℕ → ℕ → ℕ → ℕ
md5_fn_g x y z = md5_fn_f z x y

unfoldable pub md5_fn_h : ℕ → ℕ → ℕ → ℕ
md5_fn_h x y z = bit_xor (bit_xor x y) z

unfoldable pub md5_fn_i : ℕ → ℕ → ℕ → ℕ
md5_fn_i x y z = bit_xor y (bit_or x (2 ^ 32 - 1 - z))

pub data Fn : Type 0 where
  f g h i : Fn

unfoldable pub md5_fn : Fn → ℕ → ℕ → ℕ → ℕ
md5_fn Fn.f = md5_fn_f
md5_fn Fn.g = md5_fn_g
md5_fn Fn.h = md5_fn_h
md5_fn Fn.i = md5_fn_i

pub record Words : Type 0 where
  pub a : ℕ
  pub b : ℕ
  pub c : ℕ
  pub d : ℕ

-- The calls of `step` in `transform`: the function, the word of the block, the constant and the
-- rotation.
abbrev pub md5_steps : List (Fn × (ℕ × (ℕ × ℕ)))
md5_steps =
    (Fn.f, (0, (0xd76aa478, 7)))
    ∷ (Fn.f, (1, (0xe8c7b756, 12)))
    ∷ (Fn.f, (2, (0x242070db, 17)))
    ∷ (Fn.f, (3, (0xc1bdceee, 22)))
    ∷ (Fn.f, (4, (0xf57c0faf, 7)))
    ∷ (Fn.f, (5, (0x4787c62a, 12)))
    ∷ (Fn.f, (6, (0xa8304613, 17)))
    ∷ (Fn.f, (7, (0xfd469501, 22)))
    ∷ (Fn.f, (8, (0x698098d8, 7)))
    ∷ (Fn.f, (9, (0x8b44f7af, 12)))
    ∷ (Fn.f, (10, (0xffff5bb1, 17)))
    ∷ (Fn.f, (11, (0x895cd7be, 22)))
    ∷ (Fn.f, (12, (0x6b901122, 7)))
    ∷ (Fn.f, (13, (0xfd987193, 12)))
    ∷ (Fn.f, (14, (0xa679438e, 17)))
    ∷ (Fn.f, (15, (0x49b40821, 22)))
    ∷ (Fn.g, (1, (0xf61e2562, 5)))
    ∷ (Fn.g, (6, (0xc040b340, 9)))
    ∷ (Fn.g, (11, (0x265e5a51, 14)))
    ∷ (Fn.g, (0, (0xe9b6c7aa, 20)))
    ∷ (Fn.g, (5, (0xd62f105d, 5)))
    ∷ (Fn.g, (10, (0x02441453, 9)))
    ∷ (Fn.g, (15, (0xd8a1e681, 14)))
    ∷ (Fn.g, (4, (0xe7d3fbc8, 20)))
    ∷ (Fn.g, (9, (0x21e1cde6, 5)))
    ∷ (Fn.g, (14, (0xc33707d6, 9)))
    ∷ (Fn.g, (3, (0xf4d50d87, 14)))
    ∷ (Fn.g, (8, (0x455a14ed, 20)))
    ∷ (Fn.g, (13, (0xa9e3e905, 5)))
    ∷ (Fn.g, (2, (0xfcefa3f8, 9)))
    ∷ (Fn.g, (7, (0x676f02d9, 14)))
    ∷ (Fn.g, (12, (0x8d2a4c8a, 20)))
    ∷ (Fn.h, (5, (0xfffa3942, 4)))
    ∷ (Fn.h, (8, (0x8771f681, 11)))
    ∷ (Fn.h, (11, (0x6d9d6122, 16)))
    ∷ (Fn.h, (14, (0xfde5380c, 23)))
    ∷ (Fn.h, (1, (0xa4beea44, 4)))
    ∷ (Fn.h, (4, (0x4bdecfa9, 11)))
    ∷ (Fn.h, (7, (0xf6bb4b60, 16)))
    ∷ (Fn.h, (10, (0xbebfbc70, 23)))
    ∷ (Fn.h, (13, (0x289b7ec6, 4)))
    ∷ (Fn.h, (0, (0xeaa127fa, 11)))
    ∷ (Fn.h, (3, (0xd4ef3085, 16)))
    ∷ (Fn.h, (6, (0x04881d05, 23)))
    ∷ (Fn.h, (9, (0xd9d4d039, 4)))
    ∷ (Fn.h, (12, (0xe6db99e5, 11)))
    ∷ (Fn.h, (15, (0x1fa27cf8, 16)))
    ∷ (Fn.h, (2, (0xc4ac5665, 23)))
    ∷ (Fn.i, (0, (0xf4292244, 6)))
    ∷ (Fn.i, (7, (0x432aff97, 10)))
    ∷ (Fn.i, (14, (0xab9423a7, 15)))
    ∷ (Fn.i, (5, (0xfc93a039, 21)))
    ∷ (Fn.i, (12, (0x655b59c3, 6)))
    ∷ (Fn.i, (3, (0x8f0ccc92, 10)))
    ∷ (Fn.i, (10, (0xffeff47d, 15)))
    ∷ (Fn.i, (1, (0x85845dd1, 21)))
    ∷ (Fn.i, (8, (0x6fa87e4f, 6)))
    ∷ (Fn.i, (15, (0xfe2ce6e0, 10)))
    ∷ (Fn.i, (6, (0xa3014314, 15)))
    ∷ (Fn.i, (13, (0x4e0811a1, 21)))
    ∷ (Fn.i, (4, (0xf7537e82, 6)))
    ∷ (Fn.i, (11, (0xbd3af235, 10)))
    ∷ (Fn.i, (2, (0x2ad7d2bb, 15)))
    ∷ (Fn.i, (9, (0xeb86d391, 21)))
    ∷ []

-- One call of `step`. The four variables go round: what is w, x, y, z in a call is x, y, z, w in the
-- next, and after 64 calls each is back in its place.
unfoldable pub md5_step : List ℕ → Words → Fn × (ℕ × (ℕ × ℕ)) → Words
md5_step block v s = record {
  a = v.d;
  b = w32 (
      left_rotate (w32 (v.a + w32 (md5_fn s.0 v.b v.c v.d + w32 (get_or block s.1.0 0 + s.1.1.0))))
        s.1.1.1
      + v.b);
  c = v.b;
  d = v.c;
}

unfoldable pub md5_rounds : List ℕ → Words → List (Fn × (ℕ × (ℕ × ℕ))) → Words
md5_rounds block v [] = v
md5_rounds block v (s ∷ steps) = md5_rounds block (md5_step block v s) steps

unfoldable pub md5_transform : Words → List ℕ → Words
md5_transform s block =
    let v = md5_rounds (bytes_to_word32_le 16 block 0) s md5_steps in
    record { a = w32 (s.a + v.a); b = w32 (s.b + v.b); c = w32 (s.c + v.c); d = w32 (s.d + v.d) }

-- `count` counts bits.
pub record Md5Context : Type 0 where
  pub state : Words
  pub count : ℕ
  pub buff : List ℕ

abbrev pub md5_start : Words
md5_start = record { a = 0x67452301; b = 0xefcdab89; c = 0x98badcfe; d = 0x10325476 }

-- A context as it is declared, before `init`.
abbrev pub new_md5 : Md5Context
new_md5 = record { state = record { a = 0; b = 0; c = 0; d = 0 }; count = 0; buff = replicate 64 0 }

unfoldable pub md5_init : Md5Context → Md5Context
md5_init ctx = record ctx { count = 0; state = md5_start }

unfoldable pub md5_update : Md5Context → List ℕ → Md5Context
md5_update ctx text =
    let r = absorb md5_transform ctx.state ctx.buff (ctx.count / 8 % 64) text in
    record { state = r.0; count = (ctx.count + length text * 8 % 2 ^ 64) % 2 ^ 64; buff = r.1 }

unfoldable pub md5_final : Md5Context → List ℕ × Md5Context
md5_final ctx =
    let len = pad_length (ctx.count / 8 % 64) in
    let done = md5_update (md5_update ctx (take (len - 8) padding)) (put_64_bit_le ctx.count) in
    let s = done.state in
    (put_32_bit_le s.a ++ (put_32_bit_le s.b ++ (put_32_bit_le s.c ++ put_32_bit_le s.d)), done)

unfoldable pub md5 : List ℕ → List ℕ
md5 text = (md5_final (md5_update (md5_init new_md5) text)).0
