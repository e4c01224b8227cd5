-- ===== src/Web/Http/Stock.antt =====
-- The stock replies, printed and read back.
use simple.Prelude.{
  ℕ, ◌≡◌, refl, Bool, true, not, ◌&&◌, arith, List, [], ◌∷◌, ◌++◌, length, All, codes, some,
}
use simple.Web.Http.{new_reply, is_ctl, is_char, is_special, is_refused, is_digit}
use simple.Web.Http.Replies.{switch, to_replies, digits, to_string, stock, to_buffer}
use simple.Web.Http.Parser.{parse_reply, from_chars, digits_value, starts_with_digit}
use simple.Web.Http.Fields.{IsToken, IsPrintable}
use simple.Web.Http.Lines.{IsAmong, statuses, from_All}
use simple.Web.Http.Printing.{declared, IsPrintableReply, parse_reply-to_buffer}

unfoldable pub no_ctl : List ℕ → Bool
no_ctl [] = true
no_ctl (c ∷ text) = not (is_ctl c) && no_ctl text

pub no_ctl-IsPrintable : (text : List ℕ) → no_ctl text ≡ true → IsPrintable text
unfolding no_ctl
no_ctl-IsPrintable [] h = tt
no_ctl-IsPrintable (c ∷ text) h = (ground arith, no_ctl-IsPrintable text (ground arith))

unfoldable pub no_refused : List ℕ → Bool
no_refused [] = true
no_refused (c ∷ text) = not (is_refused c) && no_refused text

pub no_refused-IsToken : (text : List ℕ) → no_refused text ≡ true → IsToken text
unfolding no_refused
no_refused-IsToken [] h = tt
no_refused-IsToken (c ∷ text) h = (ground arith, no_refused-IsToken text (ground arith))

size_text : ℕ → List ℕ
size_text status = to_string (length (to_replies status))

-- The size in the headers of a stock reply is the size of its body.
SizeIsRight : ℕ → Type 0
SizeIsRight status =
    (no_ctl (size_text status) ≡ true)
    × (declared (stock status).headers 0 ≡ length (stock status).content)

sizes_are_right : All SizeIsRight statuses
unfolding SizeIsRight size_text no_ctl is_ctl to_string digits to_replies switch declared from_chars
    digits_value starts_with_digit is_digit stock
sizes_are_right = (
  (refl, refl),
  (
    (refl, refl),
    (
      (refl, refl),
      (
        (refl, refl),
        (
          (refl, refl),
          (
            (refl, refl),
            (
              (refl, refl),
              (
                (refl, refl),
                (
                  (refl, refl),
                  (
                    (refl, refl),
                    (
                      (refl, refl),
                      (
                        (refl, refl),
                        (
                          (refl, refl),
                          ((refl, refl), ((refl, refl), ((refl, refl), ((refl, refl), tt)))),
                        ),
                      ),
                    ),
                  ),
                ),
              ),
            ),
          ),
        ),
      ),
    ),
  ),
)

stock-IsPrintableReply : (status : ℕ) → IsAmong status statuses → IsPrintableReply (stock status)
unfolding stock SizeIsRight size_text no_refused is_refused is_char is_ctl is_special no_ctl
stock-IsPrintableReply status known = record {
  known = known;
  headers_ok = (
    record {
      first = 67;
      others = codes "ontent-Length";
      name_parts = refl;
      token = no_refused-IsToken (codes "Content-Length") refl;
      printable = no_ctl-IsPrintable (to_string (length (to_replies status))) (right.0);
    },
    (
      record {
        first = 67;
        others = codes "ontent-Type";
        name_parts = refl;
        token = no_refused-IsToken (codes "Content-Type") refl;
        printable = no_ctl-IsPrintable (codes "text/html") refl;
      },
      tt,
    ),
  );
  size_ok = right.1;
}
  where
    right : SizeIsRight status
    right = from_All SizeIsRight status statuses sizes_are_right known

-- The stock reply to each named status is read back whole.
pub parse_reply-stock :
    (status : ℕ) (tail : List ℕ)
    → IsAmong status statuses
    → parse_reply new_reply (to_buffer (stock status) ++ tail) ≡ some (stock status, tail)
parse_reply-stock status tail known =
    parse_reply-to_buffer (stock status) tail (stock-IsPrintableReply status known)
