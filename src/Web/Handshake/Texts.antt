-- ===== src/Web/Handshake/Texts.antt =====
-- What the handshake sends is printable: the base64 of any bytes.
use simple.Prelude.{
  ℕ, ◌+◌, ◌*◌, ◌/◌, ◌%◌, ◌<◌, ◌≡◌, refl, sym, ap, subst, arith, true, false, List, [], ◌∷◌, ◌++◌,
  All, All-append, not,
}
use simple.Prelude.Bytes.{all_below, all_below_sound}
use simple.Crypt.Base64.{base64_encode}
use simple.Crypt.Base64.RoundTrip.{char_of, text, base64_encode-text}
use simple.Crypt.Words.{put_32_bit_be}
use simple.Crypt.Sha1.{Sha1Context, new_sha1, sha1_init, sha1_update, sha1_final}
use simple.Web.Http.{is_ctl}
use simple.Web.Http.Fields.{IsPrintable}
use simple.Web.Handshake.{empty, accept_value, handshake_guid}

printable_chars : all_below 64 (λ x. not (is_ctl (char_of x))) ≡ true
unfolding all_below is_ctl
printable_chars = refl

char_of-is_ctl : (x : ℕ) → x < 64 → is_ctl (char_of x) ≡ false
char_of-is_ctl x h =
    ground (arith, all_below_sound 64 (λ x. not (is_ctl (char_of x))) x printable_chars)

equals_sign : is_ctl 61 ≡ false
unfolding is_ctl
equals_sign = refl

text-IsPrintable : (input : List ℕ) → All (λ x. x < 256) input → IsPrintable (text input)
unfolding text
text-IsPrintable [] h = tt
text-IsPrintable (a ∷ []) h = (
  char_of-is_ctl (a / 4) (omega (arith, h.0)),
  (char_of-is_ctl (a % 4 * 16) (omega arith), (equals_sign, (equals_sign, tt))),
)
text-IsPrintable (a ∷ b ∷ []) h = (
  char_of-is_ctl (a / 4) (omega (arith, h.0)),
  (
    char_of-is_ctl (a % 4 * 16 + b / 16) (omega (arith, h.1.0)),
    (char_of-is_ctl (b % 16 * 4) (omega arith), (equals_sign, tt)),
  ),
)
text-IsPrintable (a ∷ b ∷ c ∷ input) h = (
  char_of-is_ctl (a / 4) (omega (arith, h.0)),
  (
    char_of-is_ctl (a % 4 * 16 + b / 16) (omega (arith, h.1.0)),
    (
      char_of-is_ctl (b % 16 * 4 + c / 64) (omega (arith, h.1.1.0)),
      (char_of-is_ctl (c % 64) (omega arith), text-IsPrintable input h.1.1.1),
    ),
  ),
)

pub base64_encode-IsPrintable :
    (input : List ℕ) → All (λ x. x < 256) input → IsPrintable (base64_encode input)
base64_encode-IsPrintable input h =
    subst IsPrintable (sym (base64_encode-text input h)) (text-IsPrintable input h)

-- The text of some bytes is not empty.
pub base64_encode-empty :
    (a : ℕ) (input : List ℕ)
    → All (λ x. x < 256) (a ∷ input)
    → empty (base64_encode (a ∷ input)) ≡ false
unfolding text
base64_encode-empty a [] h = ap empty (base64_encode-text (a ∷ []) h)
base64_encode-empty a (b ∷ []) h = ap empty (base64_encode-text (a ∷ b ∷ []) h)
base64_encode-empty a (b ∷ c ∷ input) h = ap empty (base64_encode-text (a ∷ b ∷ c ∷ input) h)

word_bytes : (v : ℕ) → All (λ x. x < 256) (put_32_bit_be v)
unfolding put_32_bit_be
word_bytes v = (omega arith, (omega arith, (omega arith, (omega arith, tt))))

five_words :
    (a b c d e : ℕ)
    → All
        (λ x. x < 256)
        (put_32_bit_be a
          ++ (put_32_bit_be b ++ (put_32_bit_be c ++ (put_32_bit_be d ++ put_32_bit_be e))))
five_words a b c d e = then_word a _ (then_word b _ (then_word c _ (then_word d _ (word_bytes e))))
  where
    then_word :
        (v : ℕ) (rest : List ℕ)
        → All (λ x. x < 256) rest
        → All (λ x. x < 256) (put_32_bit_be v ++ rest)
    then_word v rest h = All-append (λ x. x < 256) (put_32_bit_be v) rest (word_bytes v) h

digest_bytes : (ctx : Sha1Context) → All (λ x. x < 256) (sha1_final ctx).0
unfolding sha1_final
digest_bytes ctx = five_words _ _ _ _ _

pub accept_value-IsPrintable : (key : List ℕ) → IsPrintable (accept_value key)
unfolding accept_value
accept_value-IsPrintable key =
    base64_encode-IsPrintable _
      (digest_bytes (sha1_update (sha1_update (sha1_init new_sha1) key) handshake_guid))

pub accept_value-empty : (key : List ℕ) → empty (accept_value key) ≡ false
unfolding accept_value sha1_final put_32_bit_be
accept_value-empty key =
    base64_encode-empty _ _
      (digest_bytes (sha1_update (sha1_update (sha1_init new_sha1) key) handshake_guid))
