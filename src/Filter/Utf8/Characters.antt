-- ===== src/Filter/Utf8/Characters.antt =====
-- What cnt_utf8 counts in a text of whole characters.
use simple.Prelude.{
  ℕ, zero, suc, ◌+◌, ◌≤◌, ◌<◌, ◌≡◌, refl, ap, subst, ◌∙◌, ◌⊎◌, inl, inr, List, [], ◌∷◌, ◌++◌,
  length, get_or, drop, arith, length-append, All, flatten, append_assoc, drop-append_length,
}
use simple.Filter.Utf8.{announced, continuation, next_utf8, cnt_from, cnt_utf8}

-- A byte 10xxxxxx.
abbrev pub IsContinuation : ℕ → Type 0
IsContinuation b = (128 ≤ b) × (b < 192)

-- A single byte, or a first byte and as many others as it announces.
abbrev pub IsCharacter : List ℕ → Type 0
IsCharacter [] = ⊥
IsCharacter (c ∷ others) =
    ((c < 128) × (others ≡ []))
    ⊎ ((128 ≤ c) × (c < 254) × (length others + 1 ≡ announced c) × All IsContinuation others)

get_or-append :
    (front : List ℕ) (b : ℕ) (rest : List ℕ) → get_or (front ++ b ∷ rest) (length front) 0 ≡ b
get_or-append [] b rest = refl
get_or-append (x ∷ front) b rest = get_or-append front b rest

continuation_whole :
    (front others rest : List ℕ) (cnt : ℕ)
    → All IsContinuation others
    → continuation (front ++ (others ++ rest)) (length others) (length front) cnt ≡ cnt
unfolding continuation
continuation_whole front [] rest cnt h = refl
continuation_whole front (b ∷ others) rest cnt h =
    let further : continuation (front ++ (b ∷ (others ++ rest))) (length others)
          (suc (length front)) cnt
        ≡ cnt =
      subst (λ n. continuation (front ++ (b ∷ (others ++ rest))) (length others) n cnt ≡ cnt)
        (omega (arith, length-append front (b ∷ [])))
        (subst (λ str. continuation str (length others) (length (front ++ b ∷ [])) cnt ≡ cnt)
          (append_assoc front (b ∷ []) (others ++ rest))
          (continuation_whole (front ++ b ∷ []) others rest cnt h.1)) in
    ground (
      arith,
      get_or-append front b (others ++ rest),
      length-append front (b ∷ (others ++ rest)),
      further,
      h.0,
    )

pub next_utf8_whole :
    (c : ℕ) (others rest : List ℕ)
    → IsCharacter (c ∷ others)
    → next_utf8 ((c ∷ others) ++ rest) ≡ length (c ∷ others)
unfolding next_utf8
next_utf8_whole c others rest (inl (single, none_left)) = ground (arith, none_left)
next_utf8_whole c others rest (inr (l, h, whole, all)) =
    ground (arith, continuation_whole (c ∷ []) others rest (announced c) all)

cnt_from-flatten :
    (fuel : ℕ) (characters : List (List ℕ))
    → All IsCharacter characters
    → length (flatten characters) ≤ fuel
    → cnt_from fuel (flatten characters) ≡ length characters
unfolding cnt_from flatten
cnt_from-flatten fuel [] h l = ground arith
cnt_from-flatten fuel ([] ∷ characters) h l = absurd h.0
cnt_from-flatten zero ((c ∷ others) ∷ characters) h l = absurd (omega arith)
cnt_from-flatten (suc fuel) ((c ∷ others) ∷ characters) h l =
    ap (λ n. suc (cnt_from fuel (drop n ((c ∷ others) ++ flatten characters))))
      (next_utf8_whole c others (flatten characters) h.0)
    ∙ ap (λ str. suc (cnt_from fuel str)) (drop-append_length (c ∷ others) (flatten characters))
    ∙ ap suc (
        cnt_from-flatten fuel characters h.1
          (omega (arith, length-append others (flatten characters))))

-- Of a text of whole characters, each of one byte below 128 or of a first byte from 128 to 253 with
-- as many continuation bytes as it announces, cnt_utf8 counts the characters.
pub cnt_utf8-flatten :
    (characters : List (List ℕ))
    → All IsCharacter characters
    → cnt_utf8 (flatten characters) ≡ length characters
unfolding cnt_utf8
cnt_utf8-flatten characters h =
    cnt_from-flatten (length (flatten characters)) characters h (omega arith)
