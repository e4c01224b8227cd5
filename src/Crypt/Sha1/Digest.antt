-- ===== src/Crypt/Sha1/Digest.antt =====
-- The digest against RFC 3174: the blocks of the padded message, one after the other.
use simple.Prelude.{
  ℕ, ◌-◌, ◌*◌, ◌/◌, ◌%◌, ◌^◌, ◌≡◌, refl, sym, ap, ap₂, ◌∙◌, arith, List, [], ◌∷◌, ◌++◌, length,
  take, append_assoc, append-nil, length-append, flatten, subst,
}
use simple.Crypt.Words.{put_32_bit_be, put_64_bit_be}
use simple.Crypt.Blocks.{padding, pad_length}
use simple.Crypt.Blocks.Absorb.{hash_blocks, HasTaken, absorb-HasTaken}
use simple.Crypt.Blocks.Pad.{pad_bytes, take-padding}
use simple.Crypt.Sha1.{
  Words, Sha1Context, sha1_transform, sha1_start, new_sha1, sha1_init, sha1_update, sha1_final,
  sha1,
}

-- The message, its padding and its length in bits.
unfoldable pub sha1_padded : List ℕ → List ℕ
sha1_padded m = m ++ (pad_bytes (length m) ++ put_64_bit_be (length m * 8 % 2 ^ 64))

unfoldable pub sha1_bytes : Words → List ℕ
sha1_bytes s =
    put_32_bit_be s.a
    ++ (put_32_bit_be s.b ++ (put_32_bit_be s.c ++ (put_32_bit_be s.d ++ put_32_bit_be s.e)))

unfoldable pub sha1_digest : List ℕ → List ℕ
sha1_digest m =
    sha1_bytes (hash_blocks sha1_transform (length (sha1_padded m) / 64) sha1_start (sha1_padded m))

-- The context has taken in the message `m`.
pub record IsSha1 (ctx : Sha1Context) (m : List ℕ) : Type 0 where
  pub taken : HasTaken sha1_transform sha1_start m (ctx.state, ctx.buff)
  pub counted : ctx.count ≡ length m % 2 ^ 64

pub sha1_init-IsSha1 :
    (ctx : Sha1Context) → length ctx.buff ≡ 64 → ctx.count ≡ 0 → IsSha1 (sha1_init ctx) []
unfolding sha1_init hash_blocks
sha1_init-IsSha1 ctx h c = record {
  taken = record { hashed = refl; waiting = refl; full = h };
  counted = c;
}

pub sha1_update-IsSha1 :
    (ctx : Sha1Context) (m text : List ℕ) → IsSha1 ctx m → IsSha1 (sha1_update ctx text) (m ++ text)
unfolding sha1_update
sha1_update-IsSha1 ctx m text h = record {
  taken =
      absorb-HasTaken sha1_transform sha1_start m text ctx.state ctx.buff (ctx.count % 64) h.taken
        (omega (arith, h.counted));
  counted = omega (arith, h.counted, length-append m text);
}

pub sha1_final-IsSha1 :
    (ctx : Sha1Context) (m : List ℕ) → IsSha1 ctx m → (sha1_final ctx).0 ≡ sha1_digest m
unfolding sha1_final sha1_digest sha1_bytes sha1_padded
sha1_final-IsSha1 ctx m h =
    ap sha1_bytes
      (done.taken.hashed ∙ ap (λ p. hash_blocks sha1_transform (length p / 64) sha1_start p) padded)
  where
    len : ℕ
    len = pad_length (ctx.count % 64)

    done :
        IsSha1
          (sha1_update
            (sha1_update ctx (take (len - 8) padding))
            (put_64_bit_be (ctx.count * 8 % 2 ^ 64)))
          ((m ++ take (len - 8) padding) ++ put_64_bit_be (ctx.count * 8 % 2 ^ 64))
    done =
        sha1_update-IsSha1 (sha1_update ctx (take (len - 8) padding)) (m ++ take (len - 8) padding)
          (put_64_bit_be (ctx.count * 8 % 2 ^ 64))
          (sha1_update-IsSha1 ctx m (take (len - 8) padding) h)

    have : ctx.count % 64 ≡ length m % 64
    have = omega (arith, h.counted)

    bits : ctx.count * 8 % 2 ^ 64 ≡ length m * 8 % 2 ^ 64
    bits = omega (arith, h.counted)

    padded : (m ++ take (len - 8) padding) ++ put_64_bit_be (ctx.count * 8 % 2 ^ 64) ≡ sha1_padded m
    padded =
        append_assoc m (take (len - 8) padding) (put_64_bit_be (ctx.count * 8 % 2 ^ 64))
        ∙ ap₂ (λ k c. m ++ (take (pad_length k - 8) padding ++ put_64_bit_be c)) have bits
        ∙ ap (λ b. m ++ (b ++ put_64_bit_be (length m * 8 % 2 ^ 64))) (take-padding (length m))

-- The updates with each of the pieces.
unfoldable pub sha1_updates : Sha1Context → List (List ℕ) → Sha1Context
sha1_updates ctx [] = ctx
sha1_updates ctx (piece ∷ pieces) = sha1_updates (sha1_update ctx piece) pieces

sha1_updates-IsSha1 :
    (ctx : Sha1Context) (m : List ℕ) (pieces : List (List ℕ))
    → IsSha1 ctx m
    → IsSha1 (sha1_updates ctx pieces) (m ++ flatten pieces)
unfolding sha1_updates flatten
sha1_updates-IsSha1 ctx m [] h = subst (IsSha1 ctx) (sym (append-nil m)) h
sha1_updates-IsSha1 ctx m (piece ∷ pieces) h =
    subst (IsSha1 (sha1_updates (sha1_update ctx piece) pieces))
      (append_assoc m piece (flatten pieces))
      (sha1_updates-IsSha1 (sha1_update ctx piece) (m ++ piece) pieces
        (sha1_update-IsSha1 ctx m piece h))

-- After init of a context with a count of 0 and updates with any pieces of a message, final gives
-- the digest of the message.
pub sha1_final-updates :
    (ctx : Sha1Context) (pieces : List (List ℕ))
    → length ctx.buff ≡ 64
    → ctx.count ≡ 0
    → (sha1_final (sha1_updates (sha1_init ctx) pieces)).0 ≡ sha1_digest (flatten pieces)
sha1_final-updates ctx pieces h c =
    sha1_final-IsSha1 (sha1_updates (sha1_init ctx) pieces) (flatten pieces)
      (sha1_updates-IsSha1 (sha1_init ctx) [] pieces (sha1_init-IsSha1 ctx h c))

pub sha1-digest : (m : List ℕ) → sha1 m ≡ sha1_digest m
unfolding sha1
sha1-digest m =
    sha1_final-IsSha1 (sha1_update (sha1_init new_sha1) m) m
      (sha1_update-IsSha1 (sha1_init new_sha1) [] m (sha1_init-IsSha1 new_sha1 refl refl))
