-- ===== src/Web/Http/RequestLine.antt =====
-- parser_request_line of runtime/src/web/http.cpp on the line it was given. A version number is an
-- int32_t, held as its 32 bits: a sum beyond 2 ^ 31 - 1 is undefined behaviour in the source, and wraps
-- here as it does on the machines that the build targets.
use simple.Prelude.{
  ℕ, ◌+◌, ◌-◌, ◌*◌, ◌%◌, ◌^◌, Bool, true, false, ◌==◌, not, if◌then◌else◌, Option, none, some, List,
  [], ◌∷◌, ◌++◌,
}
use simple.Web.Http.{Request, is_ctl, is_digit, is_refused, LineState}

-- The state after a byte that has to be `c`.
unfoldable pub expect_request : ℕ → LineState → ℕ → Request → Option (LineState × Request)
expect_request c next ch req = if not (ch == c) then none else some (next, req)

-- One turn of the loop; `none` is return false.
unfoldable pub request_step : LineState → ℕ → Request → Option (LineState × Request)
request_step LineState.method_start ch req =
    if is_refused ch
    then none
    else some (LineState.method, record req { method = req.method ++ (ch ∷ []) })
request_step LineState.method ch req =
    if ch == 32
    then some (LineState.uri, req)
    else (if is_refused ch
        then none
        else some (LineState.method, record req { method = req.method ++ (ch ∷ []) }))
request_step LineState.uri ch req =
    if ch == 32
    then some (LineState.version_h, req)
    else (if is_ctl ch
        then none
        else some (LineState.uri, record req { uri = req.uri ++ (ch ∷ []) }))
request_step LineState.version_h ch req = expect_request 72 LineState.version_t_1 ch req
request_step LineState.version_t_1 ch req = expect_request 84 LineState.version_t_2 ch req
request_step LineState.version_t_2 ch req = expect_request 84 LineState.version_p ch req
request_step LineState.version_p ch req = expect_request 80 LineState.version_slash ch req
request_step LineState.version_slash ch req = expect_request 47 LineState.version_major_start ch req
request_step LineState.version_major_start ch req =
    if not (is_digit ch)
    then none
    else some (LineState.version_major, record req { version_major = ch - 48 })
request_step LineState.version_major ch req =
    if ch == 46
    then some (LineState.version_minor_start, req)
    else (if not (is_digit ch)
        then none
        else some (
          LineState.version_major,
          record req { version_major = (req.version_major * 10 + ch - 48) % 2 ^ 32 },
        ))
request_step LineState.version_minor_start ch req =
    if not (is_digit ch)
    then none
    else some (LineState.version_minor, record req { version_minor = ch - 48 })
request_step LineState.version_minor ch req =
    if not (is_digit ch)
    then none
    else some (
      LineState.version_minor,
      record req { version_minor = (req.version_minor * 10 + ch - 48) % 2 ^ 32 },
    )
request_step state ch req = some (state, req)

unfoldable pub is_version_minor : LineState → Bool
is_version_minor LineState.version_minor = true
is_version_minor state = false

-- The loop, and the request as it is when the loop ends or returns.
unfoldable pub request_loop : LineState → Request → List ℕ → Bool × Request
request_loop state req [] = (is_version_minor state, req)
request_loop state req (ch ∷ line) = elim (request_step state ch req) [
  | none ↦ (false, req)
  | some next ↦ request_loop (next.0) (next.1) line
]

unfoldable pub parser_request_line : Request → List ℕ → Bool × Request
parser_request_line req line = request_loop LineState.method_start req line
