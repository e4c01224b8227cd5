-- ===== src/Web/Http/ReplyLine.antt =====
-- parser_reply_line of runtime/src/web/http.cpp on the line it was given. The status is an int32_t,
-- held as its 32 bits: a sum beyond 2 ^ 31 - 1 is undefined behaviour in the source, and wraps here as it
-- does on the machines that the build targets.
use simple.Prelude.{
  ℕ, ◌+◌, ◌-◌, ◌*◌, ◌%◌, ◌^◌, Bool, true, false, ◌==◌, not, if◌then◌else◌, Option, none, some, List,
  [], ◌∷◌,
}
use simple.Web.Http.{Reply, is_digit, LineState}

-- The state after a byte that has to be `c`.
unfoldable pub expect_reply : ℕ → LineState → ℕ → Reply → Option (LineState × Reply)
expect_reply c next ch rep = if not (ch == c) then none else some (next, rep)

-- The state after a digit, or after the byte `c` that ends the number.
unfoldable pub digit_or : ℕ → LineState → LineState → ℕ → Reply → Option (LineState × Reply)
digit_or c next state ch rep =
    if ch == c then some (next, rep) else (if not (is_digit ch) then none else some (state, rep))

unfoldable pub first_digit : LineState → ℕ → Reply → Option (LineState × Reply)
first_digit next ch rep = if not (is_digit ch) then none else some (next, rep)

-- One turn of the loop; `none` is return false.
unfoldable pub reply_step : LineState → ℕ → Reply → Option (LineState × Reply)
reply_step LineState.version_h ch rep = expect_reply 72 LineState.version_t_1 ch rep
reply_step LineState.version_t_1 ch rep = expect_reply 84 LineState.version_t_2 ch rep
reply_step LineState.version_t_2 ch rep = expect_reply 84 LineState.version_p ch rep
reply_step LineState.version_p ch rep = expect_reply 80 LineState.version_slash ch rep
reply_step LineState.version_slash ch rep = expect_reply 47 LineState.version_major_start ch rep
reply_step LineState.version_major_start ch rep = first_digit LineState.version_major ch rep
reply_step LineState.version_major ch rep =
    digit_or 46 LineState.version_minor_start LineState.version_major ch rep
reply_step LineState.version_minor_start ch rep = first_digit LineState.version_minor ch rep
reply_step LineState.version_minor ch rep =
    digit_or 32 LineState.status_start LineState.version_minor ch rep
reply_step LineState.status_start ch rep =
    if not (is_digit ch) then none else some (LineState.status, record rep { status = ch - 48 })
reply_step LineState.status ch rep =
    if ch == 32
    then some (LineState.reason, rep)
    else (if not (is_digit ch)
        then none
        else some (LineState.status, record rep { status = (rep.status * 10 + ch - 48) % 2 ^ 32 }))
reply_step state ch rep = some (state, rep)

unfoldable pub is_reason : LineState → Bool
is_reason LineState.reason = true
is_reason state = false

-- The loop, and the reply as it is when the loop ends or returns.
unfoldable pub reply_loop : LineState → Reply → List ℕ → Bool × Reply
reply_loop state rep [] = (is_reason state, rep)
reply_loop state rep (ch ∷ line) = elim (reply_step state ch rep) [
  | none ↦ (false, rep)
  | some next ↦ reply_loop (next.0) (next.1) line
]

unfoldable pub parser_reply_line : Reply → List ℕ → Bool × Reply
parser_reply_line rep line = reply_loop LineState.version_h rep line
