-- ===== src/Filter/Utf8.antt =====
-- next_utf8 and cnt_utf8 of runtime/src/utils/trie_ac.cpp, on the bytes that are left: `size` is their
-- number, and a read behind them changes nothing, since the test of the place decides.
pub mod Characters
pub mod Pieces
use simple.Prelude.{
  ℕ, zero, suc, ◌+◌, ◌-◌, ◌*◌, ◌≤◌, ◌<◌, ◌≡◌, refl, sym, ap, ◌∙◌, Bool, true, false, ltb, leb, ◌||◌,
  if◌then◌else◌, List, [], ◌∷◌, length, get_or, drop, arith, length-drop, min,
}

-- The number of bytes that the first byte announces.
unfoldable pub announced : ℕ → ℕ
announced val =
    if ltb val 224
    then 2
    else if ltb val 240
    then 3
    else if ltb val 248
    then 4
    else if ltb val 252
    then 5
    else if ltb val 254
    then 6
    else 1

-- The loop over the bytes from place i on, cnt - i of them: how far it goes.
unfoldable pub continuation : List ℕ → ℕ → ℕ → ℕ → ℕ
continuation str zero i cnt = cnt
continuation str (suc left) i cnt =
    let val = get_or str i 0 in
    let rest = continuation str left (suc i) cnt in
    if leb (length str) i || leb 192 val || ltb val 128 then 1 else rest

-- How far the next character is.
unfoldable pub next_utf8 : List ℕ → ℕ
next_utf8 str =
    let val = get_or str 0 0 in
    if ltb val 128 then 1 else continuation str (announced val - 1) 1 (announced val)

-- Each round takes a byte at least, so `length str` rounds are enough.
unfoldable pub cnt_from : ℕ → List ℕ → ℕ
cnt_from fuel [] = 0
cnt_from zero (c ∷ str) = 0
cnt_from (suc fuel) (c ∷ str) = suc (cnt_from fuel (drop (next_utf8 (c ∷ str)) (c ∷ str)))

unfoldable pub cnt_utf8 : List ℕ → ℕ
cnt_utf8 str = cnt_from (length str) str

continuation_bounds :
    (str : List ℕ) (left i cnt : ℕ)
    → i + left ≡ cnt
    → 1 ≤ i
    → i ≤ length str
    → (1 ≤ continuation str left i cnt) × (continuation str left i cnt ≤ length str)
unfolding continuation
continuation_bounds str zero i cnt e l h = (omega arith, omega arith)
continuation_bounds str (suc left) i cnt e l h =
    ground (arith, continuation_bounds str left (suc i) cnt)

-- The step is at least one byte and stays within the text.
pub next_utf8_bounds :
    (c : ℕ) (str : List ℕ) → (1 ≤ next_utf8 (c ∷ str)) × (next_utf8 (c ∷ str) ≤ length (c ∷ str))
unfolding next_utf8 announced
next_utf8_bounds c str =
    ground (arith, continuation_bounds (c ∷ str) (announced c - 1) 1 (announced c))

continuation_small :
    (str : List ℕ) (left i cnt : ℕ) → 1 ≤ cnt → cnt ≤ 6 → continuation str left i cnt ≤ 6
unfolding continuation
continuation_small str zero i cnt l h = h
continuation_small str (suc left) i cnt l h =
    ground (arith, continuation_small str left (suc i) cnt)

next_utf8_small : (str : List ℕ) → next_utf8 str ≤ 6
unfolding next_utf8 announced
next_utf8_small str =
    ground (
      arith,
      continuation_small str (announced (get_or str 0 0) - 1) 1 (announced (get_or str 0 0)),
    )

pub cnt_from_bounds :
    (fuel : ℕ) (str : List ℕ)
    → length str ≤ fuel
    → (cnt_from fuel str ≤ length str) × (length str ≤ 6 * cnt_from fuel str)
unfolding cnt_from
cnt_from_bounds fuel [] l = (omega arith, omega arith)
cnt_from_bounds zero (c ∷ str) l = absurd (omega arith)
cnt_from_bounds (suc fuel) (c ∷ str) l =
    let left : List ℕ = drop (next_utf8 (c ∷ str)) (c ∷ str) in
    let step : (1 ≤ next_utf8 (c ∷ str)) × (next_utf8 (c ∷ str) ≤ length (c ∷ str)) =
      next_utf8_bounds c str in
    let shorter : length left ≡ length (c ∷ str) - next_utf8 (c ∷ str) =
      length-drop (next_utf8 (c ∷ str)) (c ∷ str) in
    let rest : (cnt_from fuel left ≤ length left) × (length left ≤ 6 * cnt_from fuel left) =
      cnt_from_bounds fuel left (omega (arith, step.0)) in
    (omega (arith, step.0, rest.0), omega (arith, step.1, rest.1, next_utf8_small (c ∷ str)))

-- The number is at most that of the bytes and at least a sixth of it.
pub cnt_utf8_bounds : (str : List ℕ) → (cnt_utf8 str ≤ length str) × (length str ≤ 6 * cnt_utf8 str)
unfolding cnt_utf8
cnt_utf8_bounds str = cnt_from_bounds (length str) str (omega arith)
