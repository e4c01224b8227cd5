-- ===== src/Web/Http/Fields.antt =====
-- A printed header line read back by parser_header.
use simple.Prelude.{
  ℕ, ◌≡◌, refl, sym, ap, ◌∙◌, arith, true, false, ◌==◌, List, [], ◌∷◌, ◌++◌, All, append_assoc,
  append-nil, none, some,
}
use simple.Web.Http.{Header, is_ctl, is_special, is_refused}
use simple.Web.Http.HeaderLine.{
  HeaderState, is_empty, on_last, push_name, push_value, is_blank, header_step, is_value,
  header_loop, parser_header,
}

abbrev pub IsToken : List ℕ → Type 0
IsToken text = All (λ c. is_refused c ≡ false) text

abbrev pub IsPrintable : List ℕ → Type 0
IsPrintable text = All (λ c. is_ctl c ≡ false) text

-- A name of at least one byte, and a value without control characters.
pub record IsHeader (h : Header) : Type 0 where
  pub first : ℕ
  pub others : List ℕ
  pub name_parts : h.name ≡ first ∷ others
  pub token : IsToken (first ∷ others)
  pub printable : IsPrintable h.value

pub is_blank-is_refused : (c : ℕ) → is_refused c ≡ false → is_blank c ≡ false
unfolding is_refused is_special
is_blank-is_refused c h = ground arith

pub colon-is_refused : (c : ℕ) → is_refused c ≡ false → (c == 58) ≡ false
unfolding is_refused is_special
colon-is_refused c h = ground arith

pub space-is_refused : (c : ℕ) → is_refused c ≡ false → (c == 32) ≡ false
unfolding is_refused is_special
space-is_refused c h = ground arith

pub return-is_refused : (c : ℕ) → is_refused c ≡ false → (c == 13) ≡ false
unfolding is_refused is_ctl
return-is_refused c h = ground arith

pub return-is_ctl : (c : ℕ) → is_ctl c ≡ false → (c == 13) ≡ false
unfolding is_ctl
return-is_ctl c h = ground arith

on_last-append :
    (f : Header → Header) (hs : List Header) (h : Header)
    → on_last f (hs ++ (h ∷ [])) ≡ hs ++ (f h ∷ [])
unfolding on_last
on_last-append f [] h = refl
on_last-append f (x ∷ []) h = refl
on_last-append f (x ∷ y ∷ hs) h = ap (◌∷◌ x) (on_last-append f (y ∷ hs) h)

abbrev header_of : List ℕ → List ℕ → Header
header_of name value = record { name = name; value = value }

-- A turn of the loop that does not return.
turn :
    (state next : HeaderState) (c : ℕ) (hs ks : List Header) (line : List ℕ)
    → header_step state c hs ≡ some (next, ks)
    → header_loop state hs (c ∷ line) ≡ header_loop next ks line
unfolding header_loop
turn state next c hs ks line e =
    ap (λ o. elim o [ none ↦ (false, hs) | some n ↦ header_loop (n.0) (n.1) line ]) e

value_step :
    (c : ℕ) (hs : List Header) (name value : List ℕ)
    → is_ctl c ≡ false
    → header_step HeaderState.value c (hs ++ (header_of name value ∷ []))
      ≡ some (HeaderState.value, hs ++ (header_of name (value ++ (c ∷ [])) ∷ []))
unfolding header_step push_value
value_step c hs name value e = rw (e, on_last-append (push_value c) hs (header_of name value))

name_step :
    (c : ℕ) (hs : List Header) (name : List ℕ)
    → is_refused c ≡ false
    → header_step HeaderState.name c (hs ++ (header_of name [] ∷ []))
      ≡ some (HeaderState.name, hs ++ (header_of (name ++ (c ∷ [])) [] ∷ []))
unfolding header_step push_name
name_step c hs name e =
    rw (colon-is_refused c e, e, on_last-append (push_name c) hs (header_of name []))

start_step :
    (c : ℕ) (hs : List Header)
    → is_refused c ≡ false
    → header_step HeaderState.start c hs
      ≡ some (HeaderState.name, hs ++ (header_of (c ∷ []) [] ∷ []))
unfolding header_step is_empty
start_step c [] e = rw (e)
start_step c (h ∷ hs) e = rw (e, is_blank-is_refused c e)

value_loop :
    (hs : List Header) (name value text : List ℕ)
    → IsPrintable text
    → header_loop HeaderState.value (hs ++ (header_of name value ∷ [])) text
      ≡ (true, hs ++ (header_of name (value ++ text) ∷ []))
unfolding header_loop is_value
value_loop hs name value [] p =
    ap (λ v. (true, hs ++ (header_of name v ∷ []))) (sym (append-nil value))
value_loop hs name value (c ∷ text) p =
    turn HeaderState.value HeaderState.value c (hs ++ (header_of name value ∷ [])) _ text
      (value_step c hs name value (p.0))
    ∙ value_loop hs name (value ++ (c ∷ [])) text (p.1)
    ∙ ap (λ v. (true, hs ++ (header_of name v ∷ []))) (append_assoc value (c ∷ []) text)

separator :
    (hs : List Header) (value : List ℕ)
    → header_loop HeaderState.name hs (58 ∷ 32 ∷ value) ≡ header_loop HeaderState.value hs value
unfolding header_loop header_step
separator hs value = refl

name_loop :
    (hs : List Header) (name others value : List ℕ)
    → IsToken others
    → IsPrintable value
    → header_loop HeaderState.name (hs ++ (header_of name [] ∷ [])) (others ++ (58 ∷ 32 ∷ value))
      ≡ (true, hs ++ (header_of (name ++ others) value ∷ []))
name_loop hs name [] value t p =
    separator (hs ++ (header_of name [] ∷ [])) value
    ∙ value_loop hs name [] value p
    ∙ ap (λ n. (true, hs ++ (header_of n value ∷ []))) (sym (append-nil name))
name_loop hs name (c ∷ others) value t p =
    turn HeaderState.name HeaderState.name c (hs ++ (header_of name [] ∷ [])) _
      (others ++ (58 ∷ 32 ∷ value)) (name_step c hs name (t.0))
    ∙ name_loop hs (name ++ (c ∷ [])) others value (t.1) p
    ∙ ap (λ n. (true, hs ++ (header_of n value ∷ []))) (append_assoc name (c ∷ []) others)

from_parts :
    (hs : List Header) (first : ℕ) (others value : List ℕ)
    → IsToken (first ∷ others)
    → IsPrintable value
    → parser_header hs ((first ∷ others) ++ (58 ∷ 32 ∷ value))
      ≡ (true, hs ++ (header_of (first ∷ others) value ∷ []))
unfolding parser_header
from_parts hs first others value t p =
    turn HeaderState.start HeaderState.name first hs _ (others ++ (58 ∷ 32 ∷ value))
      (start_step first hs (t.0))
    ∙ name_loop hs (first ∷ []) others value (t.1) p

-- A printed header is read back behind the headers before it.
pub parser_header_lem :
    (hs : List Header) (h : Header)
    → IsHeader h
    → parser_header hs (h.name ++ (58 ∷ 32 ∷ h.value)) ≡ (true, hs ++ (h ∷ []))
parser_header_lem hs h ok =
    ap (λ n. parser_header hs (n ++ (58 ∷ 32 ∷ h.value))) ok.name_parts
    ∙ from_parts hs ok.first ok.others h.value ok.token ok.printable
    ∙ ap (λ n. (true, hs ++ (header_of n h.value ∷ []))) (sym ok.name_parts)
