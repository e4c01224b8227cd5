-- ===== src/Filter/Utf8/Pieces.antt =====
-- The pieces into which next_utf8 and cnt_utf8 cut any text, whether its characters are whole or not.
use simple.Prelude.{
  ℕ, zero, suc, ◌+◌, ◌-◌, ◌*◌, ◌≤◌, ◌<◌, ◌≡◌, refl, sym, ap, subst, ◌∙◌, ◌⊎◌, inl, inr, List, [],
  ◌∷◌, ◌++◌, length, get_or, take, drop, arith, All, drop-get_or, length-take, length-drop,
  take-append-drop, ltb, leb, ◌||◌, Bool-cases,
}
use simple.Filter.Utf8.{
  announced, continuation, next_utf8, cnt_from, cnt_utf8, cnt_utf8_bounds, next_utf8_bounds,
}
use simple.Filter.Utf8.Characters.{IsContinuation, IsCharacter, next_utf8_whole}

-- A character in front of `str`, or one byte where no character of more bytes is in front of `str`.
pub data IsPiece (str p : List ℕ) : Type 0 where
  whole : IsCharacter p → IsPiece str p
  single :
      length p ≡ 1
      → ((q rest : List ℕ) → str ≡ q ++ rest → IsCharacter q → length q ≡ 1)
      → IsPiece str p

-- The text is pieces, each as long as next_utf8 says, and nothing else.
pub data Splits : List ℕ → ℕ → Type 0 where
  done : Splits [] 0
  takes :
      (p rest : List ℕ) (n : ℕ)
      → next_utf8 (p ++ rest) ≡ length p
      → IsPiece (p ++ rest) p
      → Splits rest n
      → Splits (p ++ rest) (suc n)

-- The loop goes one byte, or it has seen all the bytes that it was to see.
continuation-All :
    (str : List ℕ) (left i cnt : ℕ)
    → i + left ≡ cnt
    → i ≤ length str
    → (continuation str left i cnt ≡ 1)
      ⊎ ((continuation str left i cnt ≡ cnt)
          × (cnt ≤ length str)
          × All IsContinuation (take left (drop i str)))
unfolding continuation
continuation-All str zero i cnt e h = inr (refl, omega arith, tt)
continuation-All str (suc left) i cnt e h =
    let val = get_or str i 0 in
    elim (Bool-cases (leb (length str) i || leb 192 val || ltb val 128)) [
      | inl t ↦ inl (rw (t))
      | inr t ↦
          let opened : drop i str ≡ val ∷ drop (suc i) str = drop-get_or str i 0 (ground arith) in
          elim (continuation-All str left (suc i) cnt (omega arith) (ground arith)) [
            | inl r ↦ inl (rw (t, r))
            | inr (r, l, all) ↦ inr (
              rw (t, r),
              l,
              subst (λ xs. All IsContinuation (take (suc left) xs)) (sym opened)
                  ((ground arith, ground arith), all),
            )
          ]
    ]

one_byte : (c : ℕ) (str p : List ℕ) → next_utf8 (c ∷ str) ≡ 1 → length p ≡ 1 → IsPiece (c ∷ str) p
one_byte c str p e h = single h only
  where
    only : (q rest : List ℕ) → c ∷ str ≡ q ++ rest → IsCharacter q → length q ≡ 1
    only [] rest s q = absurd q
    only (d ∷ others) rest s q = sym (next_utf8_whole d others rest q) ∙ ap next_utf8 (sym s) ∙ e

announced_bounds : (c : ℕ) → (1 ≤ announced c) × (announced c ≤ 6)
unfolding announced
announced_bounds c = ground arith

announced_none : (c : ℕ) → 254 ≤ c → announced c ≡ 1
unfolding announced
announced_none c h = ground arith

continuation_none :
    (c : ℕ) (str : List ℕ)
    → announced c ≡ 1
    → continuation (c ∷ str) (announced c - 1) 1 (announced c) ≡ 1
unfolding continuation
continuation_none c str h = rw (h)

next_utf8_many :
    (c : ℕ) (str : List ℕ)
    → (next_utf8 (c ∷ str) ≡ 1)
      ⊎ ((128 ≤ c)
          × (c < 254)
          × (next_utf8 (c ∷ str) ≡ announced c)
          × (announced c ≤ length (c ∷ str))
          × All IsContinuation (take (announced c - 1) str))
unfolding next_utf8
next_utf8_many c str = elim (Bool-cases (ltb c 128)) [
  | inl t ↦ inl (rw (t))
  | inr t ↦ elim (Bool-cases (ltb c 254)) [
    | inl u ↦
        elim (continuation-All (c ∷ str) (announced c - 1) 1 (announced c)
          (omega (arith, announced_bounds c)) (omega arith)) [
            | inl r ↦ inl (rw (t, r))
            | inr (r, l, all) ↦ inr (ground arith, ground arith, rw (t, r), l, all)
          ]
    | inr u ↦ inl (rw (t, continuation_none c str (announced_none c (ground arith))))
  ]
]

next_utf8-IsPiece :
    (c : ℕ) (str : List ℕ) → IsPiece (c ∷ str) (take (next_utf8 (c ∷ str)) (c ∷ str))
next_utf8-IsPiece c str = elim (next_utf8_many c str) [
  | inl e ↦
      one_byte c str (take (next_utf8 (c ∷ str)) (c ∷ str)) e
        (omega (arith, length-take (next_utf8 (c ∷ str)) (c ∷ str), e))
  | inr (l, h, e, fits, all) ↦
      let n = announced c - 1 in
      let opened : next_utf8 (c ∷ str) ≡ suc n = omega (arith, e, announced_bounds c) in
      subst (λ k. IsPiece (c ∷ str) (take k (c ∷ str))) (sym opened)
        (whole (inr (l, h, omega (arith, length-take n str, announced_bounds c), all)))
]

-- Every turn of the loop takes one piece.
cnt_from-Splits : (fuel : ℕ) (str : List ℕ) → length str ≤ fuel → Splits str (cnt_from fuel str)
unfolding cnt_from
cnt_from-Splits fuel [] h = done
cnt_from-Splits zero (c ∷ str) h = absurd (omega arith)
cnt_from-Splits (suc fuel) (c ∷ str) h =
    let n = next_utf8 (c ∷ str) in
    let p = take n (c ∷ str) in
    let rest = drop n (c ∷ str) in
    let joined : p ++ rest ≡ c ∷ str = take-append-drop n (c ∷ str) in
    subst (λ xs. Splits xs (suc (cnt_from fuel rest))) joined
      (takes p rest (cnt_from fuel rest)
        (ap next_utf8 joined ∙ omega (arith, length-take n (c ∷ str), next_utf8_bounds c str))
        (subst (λ xs. IsPiece xs p) (sym joined) (next_utf8-IsPiece c str))
        (cnt_from-Splits fuel rest
          (omega (arith, length-drop n (c ∷ str), next_utf8_bounds c str))))

-- cnt_utf8 cuts any text into as many pieces as it counts, with no byte left and none beyond the
-- end. A piece is as long as next_utf8 says: it is a single byte below 128, or a first byte from 128
-- to 253 with as many continuation bytes as it announces, or one byte where no such character of more
-- bytes is in front of what is left. The bytes are at least as many as the pieces and at most six
-- times as many.
pub cnt_utf8-Splits :
    (str : List ℕ)
    → Splits str (cnt_utf8 str) × (cnt_utf8 str ≤ length str) × (length str ≤ 6 * cnt_utf8 str)
unfolding cnt_utf8
cnt_utf8-Splits str = (
  cnt_from-Splits (length str) str (omega arith),
  (cnt_utf8_bounds str).0,
  (cnt_utf8_bounds str).1,
)
