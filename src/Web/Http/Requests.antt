-- ===== src/Web/Http/Requests.antt =====
-- The request lines that parser_request_line accepts.
use simple.Prelude.{
  ℕ, ◌+◌, ◌-◌, ◌*◌, ◌%◌, ◌^◌, ◌≤◌, ◌<◌, ◌≡◌, subst, refl, sym, ap, ◌∙◌, arith, true, false, ◌==◌,
  none, some, List, [], ◌∷◌, ◌++◌, All, append_assoc, append-nil, codes,
}
use simple.Web.Http.{Request, new_request, is_ctl, is_digit, LineState}
use simple.Web.Http.RequestLine.{
  expect_request, request_step, is_version_minor, request_loop, parser_request_line,
}
use simple.Web.Http.Fields.{IsToken, space-is_refused}

-- The number that digits stand for, behind the number of the digits before them.
unfoldable pub number : ℕ → List ℕ → ℕ
number n [] = n
number n (c ∷ digits) = number (n * 10 + (c - 48)) digits

abbrev pub IsDigits : List ℕ → Type 0
IsDigits text = All (λ c. is_digit c ≡ true) text

abbrev pub IsUri : List ℕ → Type 0
IsUri text = All (λ c. ((c == 32) ≡ false) × (is_ctl c ≡ false)) text

-- A turn of the loop that does not return.
turn :
    (state next : LineState) (c : ℕ) (req req' : Request) (line : List ℕ)
    → request_step state c req ≡ some (next, req')
    → request_loop state req (c ∷ line) ≡ request_loop next req' line
unfolding request_loop
turn state next c req req' line e =
    ap (λ o. elim o [ none ↦ (false, req) | some n ↦ request_loop (n.0) (n.1) line ]) e

-- The numbers that the parser goes through are no larger than the last.
number_le : (n : ℕ) (digits : List ℕ) → n ≤ number n digits
unfolding number
number_le n [] = omega arith
number_le n (c ∷ digits) = omega (arith, number_le (n * 10 + (c - 48)) digits)

dot-is_digit : (c : ℕ) → is_digit c ≡ true → (c == 46) ≡ false
unfolding is_digit
dot-is_digit c h = ground arith

shift :
    (c : ℕ)
    → is_digit c ≡ true
    → (n : ℕ) (digits : List ℕ) → number n (c ∷ digits) + 48 < 2 ^ 31
    → (n * 10 + c - 48) % 2 ^ 32 ≡ n * 10 + (c - 48)
unfolding is_digit number
shift c h n digits l = ground (arith, number_le (n * 10 + (c - 48)) digits)

minor_loop :
    (req : Request) (digits : List ℕ)
    → IsDigits digits
    → number req.version_minor digits + 48 < 2 ^ 31
    → request_loop LineState.version_minor req digits
      ≡ (true, record req { version_minor = number req.version_minor digits })
unfolding number request_loop is_version_minor request_step
minor_loop req [] h l = refl
minor_loop req (c ∷ digits) h l =
    turn LineState.version_minor LineState.version_minor c req _ digits step
    ∙ minor_loop (record req { version_minor = req.version_minor * 10 + (c - 48) }) digits (h.1) l
  where
    step :
        request_step LineState.version_minor c req
        ≡ some (
          LineState.version_minor,
          record req { version_minor = req.version_minor * 10 + (c - 48) },
        )
    step = rw (h.0, shift c (h.0) req.version_minor digits l)

minor_start :
    (req : Request) (c : ℕ) (digits : List ℕ)
    → IsDigits (c ∷ digits)
    → number 0 (c ∷ digits) + 48 < 2 ^ 31
    → request_loop LineState.version_major req (46 ∷ c ∷ digits)
      ≡ (true, record req { version_minor = number 0 (c ∷ digits) })
unfolding number request_step
minor_start req c digits h l =
    turn LineState.version_major LineState.version_minor_start 46 req req (c ∷ digits) dot
    ∙ turn LineState.version_minor_start LineState.version_minor c req _ digits step
    ∙ minor_loop (record req { version_minor = c - 48 }) digits (h.1)
        (subst (λ n. number n digits + 48 < 2 ^ 31) (sym zero_times) l)
    ∙ ap (λ n. (true, record req { version_minor = number n digits })) zero_times
  where
    dot : request_step LineState.version_major 46 req ≡ some (LineState.version_minor_start, req)
    dot = refl

    step :
        request_step LineState.version_minor_start c req
        ≡ some (LineState.version_minor, record req { version_minor = c - 48 })
    step = rw (h.0)

    zero_times : c - 48 ≡ 0 * 10 + (c - 48)
    zero_times = omega arith

major_loop :
    (req : Request) (digits : List ℕ) (c : ℕ) (minor : List ℕ)
    → IsDigits digits
    → IsDigits (c ∷ minor)
    → number req.version_major digits + 48 < 2 ^ 31
    → number 0 (c ∷ minor) + 48 < 2 ^ 31
    → request_loop LineState.version_major req (digits ++ (46 ∷ c ∷ minor)) ≡ (
      true,
      record req {
        version_major = number req.version_major digits;
        version_minor = number 0 (c ∷ minor);
      },
    )
unfolding number request_step
major_loop req [] c minor h k l m = minor_start req c minor k m
major_loop req (d ∷ digits) c minor h k l m =
    turn LineState.version_major LineState.version_major d req _ _ step
    ∙ major_loop (record req { version_major = req.version_major * 10 + (d - 48) }) digits c minor
        (h.1) k l m
  where
    step :
        request_step LineState.version_major d req
        ≡ some (
          LineState.version_major,
          record req { version_major = req.version_major * 10 + (d - 48) },
        )
    step = rw (dot-is_digit d (h.0), h.0, shift d (h.0) req.version_major digits l)

protocol :
    (req : Request) (rest : List ℕ)
    → request_loop LineState.version_h req (codes "HTTP/" ++ rest)
      ≡ request_loop LineState.version_major_start req rest
unfolding request_loop request_step expect_request
protocol req rest = refl

http_loop :
    (req : Request) (d : ℕ) (rest : List ℕ)
    → is_digit d ≡ true
    → request_loop LineState.version_h req (codes "HTTP/" ++ (d ∷ rest))
      ≡ request_loop LineState.version_major (record req { version_major = d - 48 }) rest
unfolding request_step
http_loop req d rest h =
    protocol req (d ∷ rest)
    ∙ turn LineState.version_major_start LineState.version_major d req
        (record req { version_major = d - 48 }) rest step
  where
    step :
        request_step LineState.version_major_start d req
        ≡ some (LineState.version_major, record req { version_major = d - 48 })
    step = rw (h)

uri_loop :
    (req : Request) (uri rest : List ℕ)
    → IsUri uri
    → request_loop LineState.uri req (uri ++ (32 ∷ rest))
      ≡ request_loop LineState.version_h (record req { uri = req.uri ++ uri }) rest
unfolding request_step
uri_loop req [] rest h =
    turn LineState.uri LineState.version_h 32 req req rest space
    ∙ ap (λ u. request_loop LineState.version_h (record req { uri = u }) rest)
        (sym (append-nil req.uri))
  where
    space : request_step LineState.uri 32 req ≡ some (LineState.version_h, req)
    space = refl
uri_loop req (c ∷ uri) rest h =
    turn LineState.uri LineState.uri c req (record req { uri = req.uri ++ (c ∷ []) }) _ step
    ∙ uri_loop (record req { uri = req.uri ++ (c ∷ []) }) uri rest (h.1)
    ∙ ap (λ u. request_loop LineState.version_h (record req { uri = u }) rest)
        (append_assoc req.uri (c ∷ []) uri)
  where
    step :
        request_step LineState.uri c req
        ≡ some (LineState.uri, record req { uri = req.uri ++ (c ∷ []) })
    step = rw (h.0.0, h.0.1)

method_loop :
    (req : Request) (method rest : List ℕ)
    → IsToken method
    → request_loop LineState.method req (method ++ (32 ∷ rest))
      ≡ request_loop LineState.uri (record req { method = req.method ++ method }) rest
unfolding request_step
method_loop req [] rest h =
    turn LineState.method LineState.uri 32 req req rest space
    ∙ ap (λ u. request_loop LineState.uri (record req { method = u }) rest)
        (sym (append-nil req.method))
  where
    space : request_step LineState.method 32 req ≡ some (LineState.uri, req)
    space = refl
method_loop req (c ∷ method) rest h =
    turn LineState.method LineState.method c req (record req { method = req.method ++ (c ∷ []) }) _
      step
    ∙ method_loop (record req { method = req.method ++ (c ∷ []) }) method rest (h.1)
    ∙ ap (λ u. request_loop LineState.uri (record req { method = u }) rest)
        (append_assoc req.method (c ∷ []) method)
  where
    step :
        request_step LineState.method c req
        ≡ some (LineState.method, record req { method = req.method ++ (c ∷ []) })
    step = rw (space-is_refused c (h.0), h.0)

-- On a fresh request a method token, a uri without spaces and control characters and two numbers
-- that stay 48 below 2 ^ 31, so that no sum on the way overflows, are read as the fields of the
-- request.
pub parser_request_line_lem :
    (m : ℕ) (method uri : List ℕ) (a : ℕ) (major : List ℕ) (b : ℕ) (minor : List ℕ)
    → IsToken (m ∷ method)
    → IsUri uri
    → IsDigits (a ∷ major)
    → IsDigits (b ∷ minor)
    → number 0 (a ∷ major) + 48 < 2 ^ 31
    → number 0 (b ∷ minor) + 48 < 2 ^ 31
    → parser_request_line new_request (
        (m ∷ method) ++ (32 ∷ (uri ++ (32 ∷ (codes "HTTP/" ++ (a ∷ (major ++ (46 ∷ b ∷ minor))))))))
      ≡ (
        true,
        record new_request {
          method = m ∷ method;
          uri = uri;
          version_major = number 0 (a ∷ major);
          version_minor = number 0 (b ∷ minor);
        },
      )
unfolding parser_request_line number request_step
parser_request_line_lem m method uri a major b minor t u ha hb la lb =
    turn LineState.method_start LineState.method m new_request first _ step
    ∙ method_loop first method _ (t.1)
    ∙ uri_loop (record first { method = m ∷ method }) uri _ u
    ∙ http_loop (record first { method = m ∷ method; uri = uri }) a _ (ha.0)
    ∙ major_loop (record first { method = m ∷ method; uri = uri; version_major = a - 48 }) major b
        minor (ha.1) hb (subst (λ n. number n major + 48 < 2 ^ 31) (sym zero_times) la) lb
    ∙ ap
        (λ n. (
          true,
          record new_request {
            method = m ∷ method;
            uri = uri;
            version_major = number n major;
            version_minor = number 0 (b ∷ minor);
          },
        ))
        zero_times
  where
    first : Request
    first = record new_request { method = m ∷ [] }

    step : request_step LineState.method_start m new_request ≡ some (LineState.method, first)
    step = rw (t.0)

    zero_times : a - 48 ≡ 0 * 10 + (a - 48)
    zero_times = omega arith
