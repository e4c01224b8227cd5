-- ===== src/Web/Http/Lines.antt =====
-- Reading a line that ends in CRLF, and the status lines.
use simple.Prelude.{
  ℕ, ◌≡◌, refl, sym, Bool, true, false, ◌==◌, ◌&&◌, List, [], ◌∷◌, ◌++◌, All, some, ◌⊎◌, inl, inr,
  subst, codes, not, arith,
}
use simple.Web.Http.{Reply, is_digit}
use simple.Web.Http.ReplyLine.{
  expect_reply, digit_or, first_digit, reply_step, reply_loop, is_reason, parser_reply_line,
}
use simple.Web.Http.Replies.{switch, to_string_view, crlf}
use simple.Web.Http.Parser.{parser_line}

-- A text without a carriage return.
abbrev pub IsLine : List ℕ → Type 0
IsLine line = All (λ c. (c == 13) ≡ false) line

pub parser_line_lem :
    (line rest : List ℕ) → IsLine line → parser_line (line ++ (crlf ++ rest)) ≡ some (line, rest)
unfolding parser_line
parser_line_lem [] rest h = refl
parser_line_lem (c ∷ []) rest h = rw (h.0)
parser_line_lem (c ∷ d ∷ line) rest h = rw (h.0, parser_line_lem (d ∷ line) rest (h.1))

-- The status codes that the source names.
abbrev pub statuses : List ℕ
statuses =
    101 ∷ 200 ∷ 201 ∷ 202 ∷ 204 ∷ 300 ∷ 301 ∷ 302 ∷ 304 ∷ 400 ∷ 401 ∷ 403 ∷ 404 ∷ 500 ∷ 501 ∷ 502
    ∷ 503 ∷ []

abbrev pub IsAmong : ℕ → List ℕ → Type 0
IsAmong x [] = ⊥
IsAmong x (y ∷ ys) = (x ≡ y) ⊎ IsAmong x ys

pub from_All : (P : ℕ → Type 0) (x : ℕ) (xs : List ℕ) → All P xs → IsAmong x xs → P x
from_All P x [] h k = absurd k
from_All P x (y ∷ ys) h (inl e) = subst P (sym e) (h.0)
from_All P x (y ∷ ys) h (inr k) = from_All P x ys (h.1) k

-- The status line of a status is read back as that status.
pub record IsStatusLine (status : ℕ) : Type 0 where
  pub line : List ℕ
  pub ends : to_string_view status ≡ line ++ crlf
  pub is_line : IsLine line
  pub reads : (rep : Reply) → parser_reply_line rep line ≡ (true, record rep { status = status })

no_return : List ℕ → Bool
no_return [] = true
no_return (c ∷ line) = not (c == 13) && no_return line

no_return-IsLine : (line : List ℕ) → no_return line ≡ true → IsLine line
unfolding no_return
no_return-IsLine [] h = tt
no_return-IsLine (c ∷ line) h = (ground arith, no_return-IsLine line (ground arith))

status_line :
    (status : ℕ) (line : List ℕ)
    → to_string_view status ≡ line ++ crlf
    → no_return line ≡ true
    → ((rep : Reply) → parser_reply_line rep line ≡ (true, record rep { status = status }))
    → IsStatusLine status
status_line status line e l r = record {
  line = line;
  ends = e;
  is_line = no_return-IsLine line l;
  reads = r;
}

line_101 : IsStatusLine 101
unfolding no_return to_string_view switch parser_reply_line reply_loop reply_step is_reason
    expect_reply digit_or first_digit is_digit
line_101 = status_line 101 (codes "HTTP/1.1 101 Switching Protocols") refl refl (λ rep. refl)

line_200 : IsStatusLine 200
unfolding no_return to_string_view switch parser_reply_line reply_loop reply_step is_reason
    expect_reply digit_or first_digit is_digit
line_200 = status_line 200 (codes "HTTP/1.1 200 OK") refl refl (λ rep. refl)

line_201 : IsStatusLine 201
unfolding no_return to_string_view switch parser_reply_line reply_loop reply_step is_reason
    expect_reply digit_or first_digit is_digit
line_201 = status_line 201 (codes "HTTP/1.1 201 Created") refl refl (λ rep. refl)

line_202 : IsStatusLine 202
unfolding no_return to_string_view switch parser_reply_line reply_loop reply_step is_reason
    expect_reply digit_or first_digit is_digit
line_202 = status_line 202 (codes "HTTP/1.1 202 Accepted") refl refl (λ rep. refl)

line_204 : IsStatusLine 204
unfolding no_return to_string_view switch parser_reply_line reply_loop reply_step is_reason
    expect_reply digit_or first_digit is_digit
line_204 = status_line 204 (codes "HTTP/1.1 204 No Content") refl refl (λ rep. refl)

line_300 : IsStatusLine 300
unfolding no_return to_string_view switch parser_reply_line reply_loop reply_step is_reason
    expect_reply digit_or first_digit is_digit
line_300 = status_line 300 (codes "HTTP/1.1 300 Multiple Choices") refl refl (λ rep. refl)

line_301 : IsStatusLine 301
unfolding no_return to_string_view switch parser_reply_line reply_loop reply_step is_reason
    expect_reply digit_or first_digit is_digit
line_301 = status_line 301 (codes "HTTP/1.1 301 Moved Permanently") refl refl (λ rep. refl)

line_302 : IsStatusLine 302
unfolding no_return to_string_view switch parser_reply_line reply_loop reply_step is_reason
    expect_reply digit_or first_digit is_digit
line_302 = status_line 302 (codes "HTTP/1.1 302 Moved Temporarily") refl refl (λ rep. refl)

line_304 : IsStatusLine 304
unfolding no_return to_string_view switch parser_reply_line reply_loop reply_step is_reason
    expect_reply digit_or first_digit is_digit
line_304 = status_line 304 (codes "HTTP/1.1 304 Not Modified") refl refl (λ rep. refl)

line_400 : IsStatusLine 400
unfolding no_return to_string_view switch parser_reply_line reply_loop reply_step is_reason
    expect_reply digit_or first_digit is_digit
line_400 = status_line 400 (codes "HTTP/1.1 400 Bad Request") refl refl (λ rep. refl)

line_401 : IsStatusLine 401
unfolding no_return to_string_view switch parser_reply_line reply_loop reply_step is_reason
    expect_reply digit_or first_digit is_digit
line_401 = status_line 401 (codes "HTTP/1.1 401 Unauthorized") refl refl (λ rep. refl)

line_403 : IsStatusLine 403
unfolding no_return to_string_view switch parser_reply_line reply_loop reply_step is_reason
    expect_reply digit_or first_digit is_digit
line_403 = status_line 403 (codes "HTTP/1.1 403 Forbidden") refl refl (λ rep. refl)

line_404 : IsStatusLine 404
unfolding no_return to_string_view switch parser_reply_line reply_loop reply_step is_reason
    expect_reply digit_or first_digit is_digit
line_404 = status_line 404 (codes "HTTP/1.1 404 Not Found") refl refl (λ rep. refl)

line_500 : IsStatusLine 500
unfolding no_return to_string_view switch parser_reply_line reply_loop reply_step is_reason
    expect_reply digit_or first_digit is_digit
line_500 = status_line 500 (codes "HTTP/1.1 500 Internal Server Error") refl refl (λ rep. refl)

line_501 : IsStatusLine 501
unfolding no_return to_string_view switch parser_reply_line reply_loop reply_step is_reason
    expect_reply digit_or first_digit is_digit
line_501 = status_line 501 (codes "HTTP/1.1 501 Not Implemented") refl refl (λ rep. refl)

line_502 : IsStatusLine 502
unfolding no_return to_string_view switch parser_reply_line reply_loop reply_step is_reason
    expect_reply digit_or first_digit is_digit
line_502 = status_line 502 (codes "HTTP/1.1 502 Bad Gateway") refl refl (λ rep. refl)

line_503 : IsStatusLine 503
unfolding no_return to_string_view switch parser_reply_line reply_loop reply_step is_reason
    expect_reply digit_or first_digit is_digit
line_503 = status_line 503 (codes "HTTP/1.1 503 Service Unavailable") refl refl (λ rep. refl)

-- Each named status has such a line.
pub status-IsStatusLine : (status : ℕ) → IsAmong status statuses → IsStatusLine status
status-IsStatusLine status known = from_All IsStatusLine status statuses all_lines known
  where
    all_lines : All IsStatusLine statuses
    all_lines = (
      line_101,
      (
        line_200,
        (
          line_201,
          (
            line_202,
            (
              line_204,
              (
                line_300,
                (
                  line_301,
                  (
                    line_302,
                    (
                      line_304,
                      (
                        line_400,
                        (
                          line_401,
                          (
                            line_403,
                            (line_404, (line_500, (line_501, (line_502, (line_503, tt))))),
                          ),
                        ),
                      ),
                    ),
                  ),
                ),
              ),
            ),
          ),
        ),
      ),
    )
