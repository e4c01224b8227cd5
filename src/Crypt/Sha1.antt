-- ===== src/Crypt/Sha1.antt =====
-- The sha1 of runtime/src/utils/crypt.cpp.
pub mod Digest
use simple.Prelude.{
  ℕ, ◌+◌, ◌*◌, ◌%◌, ◌^◌, ◌-◌, List, [], ◌∷◌, ◌++◌, length, get_or, set, take, replicate, bit_and,
  bit_or, bit_xor,
}
use simple.Crypt.Words.{w32, left_rotate, put_32_bit_be, put_64_bit_be, bytes_to_word32_be}
use simple.Crypt.Blocks.{padding, pad_length, absorb}

unfoldable pub sha1_blk : List ℕ → ℕ → ℕ
sha1_blk block i =
    left_rotate
      (bit_xor
        (bit_xor (bit_xor (get_or block ((i + 13) % 16) 0) (get_or block ((i + 8) % 16) 0))
          (get_or block ((i + 2) % 16) 0))
        (get_or block i 0))
      1

unfoldable pub sha1_f1 : ℕ → ℕ → ℕ → ℕ
sha1_f1 x y w = bit_xor (bit_and w (bit_xor x y)) y

unfoldable pub sha1_f2 : ℕ → ℕ → ℕ → ℕ
sha1_f2 x y w = bit_xor (bit_xor w x) y

unfoldable pub sha1_f3 : ℕ → ℕ → ℕ → ℕ
sha1_f3 x y w = bit_or (bit_and (bit_or w x) y) (bit_and w x)

pub data Fn : Type 0 where
  f1 f2 f3 : Fn

unfoldable pub sha1_fn : Fn → ℕ → ℕ → ℕ → ℕ
sha1_fn Fn.f1 = sha1_f1
sha1_fn Fn.f2 = sha1_f2
sha1_fn Fn.f3 = sha1_f3

pub record Words : Type 0 where
  pub a : ℕ
  pub b : ℕ
  pub c : ℕ
  pub d : ℕ
  pub e : ℕ

-- The calls of `step0` and of `step1` in `transform`: the function, the constant and the place in the
-- block.
abbrev pub first_steps : List (Fn × (ℕ × ℕ))
first_steps =
    (Fn.f1, (0x5a827999, 0))
    ∷ (Fn.f1, (0x5a827999, 1))
    ∷ (Fn.f1, (0x5a827999, 2))
    ∷ (Fn.f1, (0x5a827999, 3))
    ∷ (Fn.f1, (0x5a827999, 4))
    ∷ (Fn.f1, (0x5a827999, 5))
    ∷ (Fn.f1, (0x5a827999, 6))
    ∷ (Fn.f1, (0x5a827999, 7))
    ∷ (Fn.f1, (0x5a827999, 8))
    ∷ (Fn.f1, (0x5a827999, 9))
    ∷ (Fn.f1, (0x5a827999, 10))
    ∷ (Fn.f1, (0x5a827999, 11))
    ∷ (Fn.f1, (0x5a827999, 12))
    ∷ (Fn.f1, (0x5a827999, 13))
    ∷ (Fn.f1, (0x5a827999, 14))
    ∷ (Fn.f1, (0x5a827999, 15))
    ∷ []

abbrev pub later_steps : List (Fn × (ℕ × ℕ))
later_steps =
    (Fn.f1, (0x5a827999, 0))
    ∷ (Fn.f1, (0x5a827999, 1))
    ∷ (Fn.f1, (0x5a827999, 2))
    ∷ (Fn.f1, (0x5a827999, 3))
    ∷ (Fn.f2, (0x6ed9eba1, 4))
    ∷ (Fn.f2, (0x6ed9eba1, 5))
    ∷ (Fn.f2, (0x6ed9eba1, 6))
    ∷ (Fn.f2, (0x6ed9eba1, 7))
    ∷ (Fn.f2, (0x6ed9eba1, 8))
    ∷ (Fn.f2, (0x6ed9eba1, 9))
    ∷ (Fn.f2, (0x6ed9eba1, 10))
    ∷ (Fn.f2, (0x6ed9eba1, 11))
    ∷ (Fn.f2, (0x6ed9eba1, 12))
    ∷ (Fn.f2, (0x6ed9eba1, 13))
    ∷ (Fn.f2, (0x6ed9eba1, 14))
    ∷ (Fn.f2, (0x6ed9eba1, 15))
    ∷ (Fn.f2, (0x6ed9eba1, 0))
    ∷ (Fn.f2, (0x6ed9eba1, 1))
    ∷ (Fn.f2, (0x6ed9eba1, 2))
    ∷ (Fn.f2, (0x6ed9eba1, 3))
    ∷ (Fn.f2, (0x6ed9eba1, 4))
    ∷ (Fn.f2, (0x6ed9eba1, 5))
    ∷ (Fn.f2, (0x6ed9eba1, 6))
    ∷ (Fn.f2, (0x6ed9eba1, 7))
    ∷ (Fn.f3, (0x8f1bbcdc, 8))
    ∷ (Fn.f3, (0x8f1bbcdc, 9))
    ∷ (Fn.f3, (0x8f1bbcdc, 10))
    ∷ (Fn.f3, (0x8f1bbcdc, 11))
    ∷ (Fn.f3, (0x8f1bbcdc, 12))
    ∷ (Fn.f3, (0x8f1bbcdc, 13))
    ∷ (Fn.f3, (0x8f1bbcdc, 14))
    ∷ (Fn.f3, (0x8f1bbcdc, 15))
    ∷ (Fn.f3, (0x8f1bbcdc, 0))
    ∷ (Fn.f3, (0x8f1bbcdc, 1))
    ∷ (Fn.f3, (0x8f1bbcdc, 2))
    ∷ (Fn.f3, (0x8f1bbcdc, 3))
    ∷ (Fn.f3, (0x8f1bbcdc, 4))
    ∷ (Fn.f3, (0x8f1bbcdc, 5))
    ∷ (Fn.f3, (0x8f1bbcdc, 6))
    ∷ (Fn.f3, (0x8f1bbcdc, 7))
    ∷ (Fn.f3, (0x8f1bbcdc, 8))
    ∷ (Fn.f3, (0x8f1bbcdc, 9))
    ∷ (Fn.f3, (0x8f1bbcdc, 10))
    ∷ (Fn.f3, (0x8f1bbcdc, 11))
    ∷ (Fn.f2, (0xca62c1d6, 12))
    ∷ (Fn.f2, (0xca62c1d6, 13))
    ∷ (Fn.f2, (0xca62c1d6, 14))
    ∷ (Fn.f2, (0xca62c1d6, 15))
    ∷ (Fn.f2, (0xca62c1d6, 0))
    ∷ (Fn.f2, (0xca62c1d6, 1))
    ∷ (Fn.f2, (0xca62c1d6, 2))
    ∷ (Fn.f2, (0xca62c1d6, 3))
    ∷ (Fn.f2, (0xca62c1d6, 4))
    ∷ (Fn.f2, (0xca62c1d6, 5))
    ∷ (Fn.f2, (0xca62c1d6, 6))
    ∷ (Fn.f2, (0xca62c1d6, 7))
    ∷ (Fn.f2, (0xca62c1d6, 8))
    ∷ (Fn.f2, (0xca62c1d6, 9))
    ∷ (Fn.f2, (0xca62c1d6, 10))
    ∷ (Fn.f2, (0xca62c1d6, 11))
    ∷ (Fn.f2, (0xca62c1d6, 12))
    ∷ (Fn.f2, (0xca62c1d6, 13))
    ∷ (Fn.f2, (0xca62c1d6, 14))
    ∷ (Fn.f2, (0xca62c1d6, 15))
    ∷ []

-- One call of `step0`. The five variables go round: what is v, w, x, y, z in a call is w, x, y, z, v
-- in the next, and after 80 calls each is back in its place.
unfoldable pub step0 : List ℕ → Words → Fn × (ℕ × ℕ) → Words
step0 block v s = record {
  a = w32 (v.e + (sha1_fn s.0 v.c v.d v.b + get_or block s.1.1 0 + s.1.0 + left_rotate v.a 5));
  b = v.a;
  c = left_rotate v.b 30;
  d = v.c;
  e = v.d;
}

-- step1 extends the block first.
unfoldable pub extend : List ℕ → Fn × (ℕ × ℕ) → List ℕ
extend block s = set block s.1.1 (sha1_blk block s.1.1)

unfoldable pub step0_rounds : List ℕ → Words → List (Fn × (ℕ × ℕ)) → Words
step0_rounds block v [] = v
step0_rounds block v (s ∷ steps) = step0_rounds block (step0 block v s) steps

unfoldable pub step1_rounds : List ℕ → Words → List (Fn × (ℕ × ℕ)) → Words
step1_rounds block v [] = v
step1_rounds block v (s ∷ steps) =
    let next = extend block s in step1_rounds next (step0 next v s) steps

unfoldable pub sha1_transform : Words → List ℕ → Words
sha1_transform s bytes =
    let block = bytes_to_word32_be 16 bytes 0 in
    let v = step1_rounds block (step0_rounds block s first_steps) later_steps in
    record {
      a = w32 (s.a + v.a);
      b = w32 (s.b + v.b);
      c = w32 (s.c + v.c);
      d = w32 (s.d + v.d);
      e = w32 (s.e + v.e);
    }

-- `count` counts bytes.
pub record Sha1Context : Type 0 where
  pub state : Words
  pub count : ℕ
  pub buff : List ℕ

abbrev pub sha1_start : Words
sha1_start = record {
  a = 0x67452301;
  b = 0xefcdab89;
  c = 0x98badcfe;
  d = 0x10325476;
  e = 0xc3d2e1f0;
}

-- A context as it is declared, before `init`.
abbrev pub new_sha1 : Sha1Context
new_sha1 = record {
  state = record { a = 0; b = 0; c = 0; d = 0; e = 0 };
  count = 0;
  buff = replicate 64 0;
}

-- The count stays.
unfoldable pub sha1_init : Sha1Context → Sha1Context
sha1_init ctx = record ctx { state = sha1_start }

unfoldable pub sha1_update : Sha1Context → List ℕ → Sha1Context
sha1_update ctx text =
    let r = absorb sha1_transform ctx.state ctx.buff (ctx.count % 64) text in
    record { state = r.0; count = (ctx.count + length text) % 2 ^ 64; buff = r.1 }

unfoldable pub sha1_final : Sha1Context → List ℕ × Sha1Context
sha1_final ctx =
    let len = pad_length (ctx.count % 64) in
    let done =
      sha1_update (sha1_update ctx (take (len - 8) padding))
        (put_64_bit_be (ctx.count * 8 % 2 ^ 64)) in
    let s = done.state in
    (
      put_32_bit_be s.a
          ++ (put_32_bit_be s.b ++ (put_32_bit_be s.c ++ (put_32_bit_be s.d ++ put_32_bit_be s.e))),
      done,
    )

unfoldable pub sha1 : List ℕ → List ℕ
sha1 text = (sha1_final (sha1_update (sha1_init new_sha1) text)).0
