-- ===== src/Web/Http/Printing.antt =====
-- A printed reply read back by the parser.
use simple.Prelude.{
  ℕ, zero, suc, ◌+◌, ◌≤◌, ◌≡◌, refl, sym, ap, subst, ◌∙◌, arith, true, false, ltb, ◌==◌,
  if◌then◌else◌, List, [], ◌∷◌, ◌++◌, length, All, All-append, append_assoc, append-nil,
  length-append, take-append_length, drop-append_length, some, lt→ltb,
}
use simple.Web.Http.{Header, Reply, new_reply}
use simple.Web.Http.HeaderLine.{parser_header}
use simple.Web.Http.Replies.{append_headers, to_buffer, crlf, name_value_separator}
use simple.Web.Http.Parser.{
  parser_line, read_size, from_chars, same, content_length, last_header, update_body_size,
  headers_loop, read_body, parser_header_body, parse_reply,
}
use simple.Web.Http.Fields.{
  IsToken, IsPrintable, IsHeader, parser_header_lem, return-is_refused, return-is_ctl,
}
use simple.Web.Http.Lines.{
  IsLine, parser_line_lem, IsAmong, statuses, IsStatusLine, status-IsStatusLine,
}

-- The size of the body that the headers declare, the last Content-Length counting.
unfoldable pub declared : List Header → ℕ → ℕ
declared [] size = size
declared (h ∷ headers) size =
    declared headers (if same h.name content_length then from_chars h.value size else size)

pub record IsPrintableReply (rep : Reply) : Type 0 where
  pub known : IsAmong rep.status statuses
  pub headers_ok : All IsHeader rep.headers
  pub size_ok : declared rep.headers 0 ≡ length rep.content

token-IsLine : (text : List ℕ) → IsToken text → IsLine text
token-IsLine [] h = tt
token-IsLine (c ∷ text) h = (return-is_refused c (h.0), token-IsLine text (h.1))

printable-IsLine : (text : List ℕ) → IsPrintable text → IsLine text
printable-IsLine [] h = tt
printable-IsLine (c ∷ text) h = (return-is_ctl c (h.0), printable-IsLine text (h.1))

abbrev header_line : Header → List ℕ
header_line h = h.name ++ (58 ∷ 32 ∷ h.value)

header-IsLine : (h : Header) → IsHeader h → IsLine (header_line h)
header-IsLine h ok =
    subst (λ n. IsLine (n ++ (58 ∷ 32 ∷ h.value))) (sym ok.name_parts)
      (All-append (λ c. (c == 13) ≡ false) (ok.first ∷ ok.others) (58 ∷ 32 ∷ h.value)
        (token-IsLine (ok.first ∷ ok.others) ok.token)
        (refl, (refl, printable-IsLine h.value ok.printable)))

last_header-append : (hs : List Header) (h : Header) → last_header (hs ++ (h ∷ [])) ≡ h
unfolding last_header
last_header-append [] h = refl
last_header-append (x ∷ []) h = refl
last_header-append (x ∷ y ∷ hs) h = last_header-append (y ∷ hs) h

sizes :
    (hs : List Header) (size : ℕ) (h : Header)
    → update_body_size (hs ++ (h ∷ [])) size
      ≡ (if same h.name content_length then from_chars h.value size else size)
unfolding update_body_size
sizes hs size h =
    ap (λ x. if same x.name content_length then from_chars x.value size else size)
      (last_header-append hs h)

-- A round of the loop on a line that is a header.
round_lem :
    (f : ℕ) (hs ks : List Header) (size c : ℕ) (cs input : List ℕ)
    → IsLine (c ∷ cs)
    → parser_header hs (c ∷ cs) ≡ (true, ks)
    → headers_loop (suc f) hs size ((c ∷ cs) ++ (crlf ++ input))
      ≡ headers_loop f ks (update_body_size ks size) input
unfolding headers_loop
round_lem f hs ks size c cs input l e = rw (parser_line_lem (c ∷ cs) input l, e)

one_round :
    (f : ℕ) (hs : List Header) (size : ℕ) (h : Header) (input : List ℕ)
    → IsHeader h
    → headers_loop (suc f) hs size (header_line h ++ (crlf ++ input))
      ≡ headers_loop f
          (hs ++ (h ∷ []))
          (if same h.name content_length then from_chars h.value size else size)
          input
one_round f hs size h input ok =
    ap (λ l. headers_loop (suc f) hs size (l ++ (crlf ++ input))) parts
    ∙ round_lem f hs (hs ++ (h ∷ [])) size ok.first (ok.others ++ (58 ∷ 32 ∷ h.value)) input
        (subst IsLine parts (header-IsLine h ok))
        (ap (parser_header hs) (sym parts) ∙ parser_header_lem hs h ok)
    ∙ ap (λ n. headers_loop f (hs ++ (h ∷ [])) n input) (sizes hs size h)
  where
    parts : header_line h ≡ ok.first ∷ (ok.others ++ (58 ∷ 32 ∷ h.value))
    parts = ap (λ n. n ++ (58 ∷ 32 ∷ h.value)) ok.name_parts

last_round :
    (f : ℕ) (hs : List Header) (size : ℕ) (input : List ℕ)
    → headers_loop (suc f) hs size (crlf ++ input)
      ≡ some (record { headers = hs; body_size = size; rest = input })
unfolding headers_loop parser_line
last_round f hs size input = refl

header_rounds :
    (f : ℕ) (hs headers : List Header) (size : ℕ) (input : List ℕ)
    → All IsHeader headers
    → length headers + 1 ≤ f
    → headers_loop f hs size (append_headers headers ++ (crlf ++ input))
      ≡ some (record { headers = hs ++ headers; body_size = declared headers size; rest = input })
unfolding append_headers declared
header_rounds zero hs headers size input ok enough = absurd (omega arith)
header_rounds (suc f) hs [] size input ok enough =
    last_round f hs size input
    ∙ ap (λ l. some (record { headers = l; body_size = size; rest = input })) (sym (append-nil hs))
header_rounds (suc f) hs (h ∷ headers) size input ok enough =
    ap (headers_loop (suc f) hs size)
      (one_line h.name h.value (append_headers headers) (crlf ++ input))
    ∙ one_round f hs size h (append_headers headers ++ (crlf ++ input)) (ok.0)
    ∙ header_rounds f (hs ++ (h ∷ [])) headers
        (if same h.name content_length then from_chars h.value size else size) input (ok.1)
        (omega arith)
    ∙ ap (λ l. some (record { headers = l; body_size = declared (h ∷ headers) size; rest = input }))
        (append_assoc hs (h ∷ []) headers)
  where
    one_line :
        (n v hs' tail : List ℕ)
        → (n ++ (name_value_separator ++ (v ++ (crlf ++ hs')))) ++ tail
          ≡ (n ++ (58 ∷ 32 ∷ v)) ++ (crlf ++ (hs' ++ tail))
    one_line n v hs' tail = rw (
      append_assoc n (58 ∷ 32 ∷ (v ++ (crlf ++ hs'))) tail,
      append_assoc n (58 ∷ 32 ∷ v) (crlf ++ (hs' ++ tail)),
      append_assoc v (crlf ++ hs') tail,
    )

-- There are at most as many headers as bytes.
length-headers : (headers : List Header) → length headers ≤ length (append_headers headers)
unfolding append_headers
length-headers [] = omega arith
length-headers (h ∷ headers) = omega (
  arith,
  length-append h.name (name_value_separator ++ (h.value ++ (crlf ++ append_headers headers))),
  length-append h.value (crlf ++ append_headers headers),
  length-headers headers,
)

read_body-exact :
    (content tail : List ℕ) → read_body (length content) [] (content ++ tail) ≡ some (content, tail)
unfolding read_body read_size
read_body-exact [] tail = refl
read_body-exact (c ∷ content) tail = rw (
  lt→ltb 0 (length (c ∷ content)) (omega arith),
  enough,
  take-append_length (c ∷ content) tail,
  drop-append_length (c ∷ content) tail,
)
  where
    enough : ltb (length ((c ∷ content) ++ tail)) (length (c ∷ content)) ≡ false
    enough = ground (arith, length-append (c ∷ content) tail)

pub header_body :
    (headers : List Header) (content tail : List ℕ)
    → All IsHeader headers
    → declared headers 0 ≡ length content
    → parser_header_body [] [] (append_headers headers ++ (crlf ++ (content ++ tail)))
      ≡ some (headers, (content, tail))
unfolding parser_header_body
header_body headers content tail ok size =
    rw
      (header_rounds _ [] headers 0 (content ++ tail) ok enough, size, read_body-exact content tail)
  where
    enough : length headers + 1 ≤ length (append_headers headers ++ (crlf ++ (content ++ tail)))
    enough = omega (
      arith,
      length-append (append_headers headers) (crlf ++ (content ++ tail)),
      length-headers headers,
    )

-- A printed reply with a named status, well-formed headers and a declared size that is that of the
-- content is read back whole, and the bytes behind it stay.
pub parse_reply-to_buffer :
    (rep : Reply) (tail : List ℕ)
    → IsPrintableReply rep
    → parse_reply new_reply (to_buffer rep ++ tail) ≡ some (rep, tail)
unfolding parse_reply to_buffer
parse_reply-to_buffer rep tail ok = rw (
  line.ends,
  parts,
  parser_line_lem line.line rest line.is_line,
  line.reads new_reply,
  header_body rep.headers rep.content tail ok.headers_ok ok.size_ok,
)
  where
    line : IsStatusLine rep.status
    line = status-IsStatusLine rep.status ok.known

    rest : List ℕ
    rest = append_headers rep.headers ++ (crlf ++ (rep.content ++ tail))

    parts :
        ((line.line ++ crlf) ++ (append_headers rep.headers ++ (crlf ++ rep.content))) ++ tail
        ≡ line.line ++ (crlf ++ rest)
    parts = rw (
      append_assoc line.line crlf (append_headers rep.headers ++ (crlf ++ rep.content)),
      append_assoc line.line (crlf ++ (append_headers rep.headers ++ (crlf ++ rep.content))) tail,
      append_assoc (append_headers rep.headers) (crlf ++ rep.content) tail,
    )
