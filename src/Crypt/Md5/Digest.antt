-- ===== src/Crypt/Md5/Digest.antt =====
-- The digest against RFC 1321: the blocks of the padded message, one after the other.
use simple.Prelude.{
  ℕ, ◌-◌, ◌*◌, ◌/◌, ◌%◌, ◌^◌, ◌≡◌, refl, sym, ap, ap₂, ◌∙◌, arith, List, [], ◌∷◌, ◌++◌, length,
  take, append_assoc, append-nil, length-append, flatten, subst,
}
use simple.Crypt.Words.{put_32_bit_le, put_64_bit_le}
use simple.Crypt.Blocks.{padding, pad_length}
use simple.Crypt.Blocks.Absorb.{hash_blocks, HasTaken, absorb-HasTaken}
use simple.Crypt.Blocks.Pad.{pad_bytes, take-padding}
use simple.Crypt.Md5.{
  Words, Md5Context, md5_transform, md5_start, new_md5, md5_init, md5_update, md5_final, md5,
}

-- The message, its padding and its length in bits.
unfoldable pub md5_padded : List ℕ → List ℕ
md5_padded m = m ++ (pad_bytes (length m) ++ put_64_bit_le (length m * 8 % 2 ^ 64))

unfoldable pub md5_bytes : Words → List ℕ
md5_bytes s = put_32_bit_le s.a ++ (put_32_bit_le s.b ++ (put_32_bit_le s.c ++ put_32_bit_le s.d))

unfoldable pub md5_digest : List ℕ → List ℕ
md5_digest m =
    md5_bytes (hash_blocks md5_transform (length (md5_padded m) / 64) md5_start (md5_padded m))

-- The context has taken in the message `m`.
pub record IsMd5 (ctx : Md5Context) (m : List ℕ) : Type 0 where
  pub taken : HasTaken md5_transform md5_start m (ctx.state, ctx.buff)
  pub counted : ctx.count ≡ length m * 8 % 2 ^ 64

pub md5_init-IsMd5 : (ctx : Md5Context) → length ctx.buff ≡ 64 → IsMd5 (md5_init ctx) []
unfolding md5_init hash_blocks
md5_init-IsMd5 ctx h = record {
  taken = record { hashed = refl; waiting = refl; full = h };
  counted = refl;
}

pub md5_update-IsMd5 :
    (ctx : Md5Context) (m text : List ℕ) → IsMd5 ctx m → IsMd5 (md5_update ctx text) (m ++ text)
unfolding md5_update
md5_update-IsMd5 ctx m text h = record {
  taken =
      absorb-HasTaken md5_transform md5_start m text ctx.state ctx.buff (ctx.count / 8 % 64) h.taken
        (omega (arith, h.counted));
  counted = omega (arith, h.counted, length-append m text);
}

pub md5_final-IsMd5 :
    (ctx : Md5Context) (m : List ℕ) → IsMd5 ctx m → (md5_final ctx).0 ≡ md5_digest m
unfolding md5_final md5_digest md5_bytes md5_padded
md5_final-IsMd5 ctx m h =
    ap md5_bytes
      (done.taken.hashed ∙ ap (λ p. hash_blocks md5_transform (length p / 64) md5_start p) padded)
  where
    len : ℕ
    len = pad_length (ctx.count / 8 % 64)

    done :
        IsMd5
          (md5_update (md5_update ctx (take (len - 8) padding)) (put_64_bit_le ctx.count))
          ((m ++ take (len - 8) padding) ++ put_64_bit_le ctx.count)
    done =
        md5_update-IsMd5 (md5_update ctx (take (len - 8) padding)) (m ++ take (len - 8) padding)
          (put_64_bit_le ctx.count) (md5_update-IsMd5 ctx m (take (len - 8) padding) h)

    have : ctx.count / 8 % 64 ≡ length m % 64
    have = omega (arith, h.counted)

    padded : (m ++ take (len - 8) padding) ++ put_64_bit_le ctx.count ≡ md5_padded m
    padded =
        append_assoc m (take (len - 8) padding) (put_64_bit_le ctx.count)
        ∙ ap₂ (λ k c. m ++ (take (pad_length k - 8) padding ++ put_64_bit_le c)) have h.counted
        ∙ ap (λ b. m ++ (b ++ put_64_bit_le (length m * 8 % 2 ^ 64))) (take-padding (length m))

-- The updates with each of the pieces.
unfoldable pub md5_updates : Md5Context → List (List ℕ) → Md5Context
md5_updates ctx [] = ctx
md5_updates ctx (piece ∷ pieces) = md5_updates (md5_update ctx piece) pieces

md5_updates-IsMd5 :
    (ctx : Md5Context) (m : List ℕ) (pieces : List (List ℕ))
    → IsMd5 ctx m
    → IsMd5 (md5_updates ctx pieces) (m ++ flatten pieces)
unfolding md5_updates flatten
md5_updates-IsMd5 ctx m [] h = subst (IsMd5 ctx) (sym (append-nil m)) h
md5_updates-IsMd5 ctx m (piece ∷ pieces) h =
    subst (IsMd5 (md5_updates (md5_update ctx piece) pieces))
      (append_assoc m piece (flatten pieces))
      (md5_updates-IsMd5 (md5_update ctx piece) (m ++ piece) pieces
        (md5_update-IsMd5 ctx m piece h))

-- After init, of a new context or a used one, and updates with any pieces of a message, final gives
-- the digest of the message.
pub md5_final-updates :
    (ctx : Md5Context) (pieces : List (List ℕ))
    → length ctx.buff ≡ 64
    → (md5_final (md5_updates (md5_init ctx) pieces)).0 ≡ md5_digest (flatten pieces)
md5_final-updates ctx pieces h =
    md5_final-IsMd5 (md5_updates (md5_init ctx) pieces) (flatten pieces)
      (md5_updates-IsMd5 (md5_init ctx) [] pieces (md5_init-IsMd5 ctx h))

pub md5-digest : (m : List ℕ) → md5 m ≡ md5_digest m
unfolding md5
md5-digest m =
    md5_final-IsMd5 (md5_update (md5_init new_md5) m) m
      (md5_update-IsMd5 (md5_init new_md5) [] m (md5_init-IsMd5 new_md5 refl))
