-- ===== src/Web/Http/HeaderLine.antt =====
-- parser_header of runtime/src/web/http.cpp on the line it was given. `current` points to the last
-- header wherever the source reads it.
use simple.Prelude.{
  ℕ, Bool, true, false, ◌==◌, ◌&&◌, ◌||◌, not, if◌then◌else◌, Option, none, some, List, [], ◌∷◌,
  ◌++◌,
}
use simple.Web.Http.{Header, is_ctl, is_refused}

pub data HeaderState : Type 0 where
  start lws name space_before_value value : HeaderState

-- headers.empty()
unfoldable pub is_empty : List Header → Bool
is_empty [] = true
is_empty (h ∷ headers) = false

unfoldable pub on_last : (Header → Header) → List Header → List Header
on_last f [] = []
on_last f (h ∷ headers) = elim headers [ [] ↦ f h ∷ [] | x ∷ xs ↦ h ∷ on_last f headers ]

-- current->name.push_back(ch) and current->value.push_back(ch)
unfoldable pub push_name : ℕ → Header → Header
push_name ch h = record h { name = h.name ++ (ch ∷ []) }

unfoldable pub push_value : ℕ → Header → Header
push_value ch h = record h { value = h.value ++ (ch ∷ []) }

abbrev pub is_blank : ℕ → Bool
is_blank ch = ch == 32 || ch == 9

-- One turn of the loop; `none` is return false.
unfoldable pub header_step : HeaderState → ℕ → List Header → Option (HeaderState × List Header)
header_step HeaderState.start ch headers =
    if not (is_empty headers) && is_blank ch
    then some (HeaderState.lws, headers)
    else (if is_refused ch
        then none
        else some (HeaderState.name, headers ++ (record { name = ch ∷ []; value = [] } ∷ [])))
header_step HeaderState.lws ch headers =
    if is_blank ch
    then some (HeaderState.lws, headers)
    else (if is_ctl ch then none else some (HeaderState.value, on_last (push_value ch) headers))
header_step HeaderState.name ch headers =
    if ch == 58
    then some (HeaderState.space_before_value, headers)
    else (if is_refused ch then none else some (HeaderState.name, on_last (push_name ch) headers))
header_step HeaderState.space_before_value ch headers =
    if not (ch == 32) then none else some (HeaderState.value, headers)
header_step HeaderState.value ch headers =
    if is_ctl ch then none else some (HeaderState.value, on_last (push_value ch) headers)

unfoldable pub is_value : HeaderState → Bool
is_value HeaderState.value = true
is_value state = false

-- The loop, and the headers as they are when the loop ends or returns.
unfoldable pub header_loop : HeaderState → List Header → List ℕ → Bool × List Header
header_loop state headers [] = (is_value state, headers)
header_loop state headers (ch ∷ line) = elim (header_step state ch headers) [
  | none ↦ (false, headers)
  | some next ↦ header_loop (next.0) (next.1) line
]

unfoldable pub parser_header : List Header → List ℕ → Bool × List Header
parser_header headers line = header_loop HeaderState.start headers line
