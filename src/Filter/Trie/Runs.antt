-- ===== src/Filter/Trie/Runs.antt =====
-- The text that marks leave of a text, and its runs of marked bytes.
use simple.Prelude.{
  ℕ, zero, suc, ◌+◌, ◌-◌, ◌≤◌, ◌<◌, ◌≡◌, sym, ap, ap₂, ◌∙◌, Bool, true, false, ltb, inl, inr, List,
  [], ◌∷◌, ◌++◌, length, get_or, take, drop, replicate, arith, append_assoc, append-nil, drop-drop,
  drop-get_or, drop_all, length-drop, Bool-cases,
}
use simple.Filter.Utf8.{cnt_utf8, cnt_from}
use simple.Filter.Trie.{run_end}

-- Each byte that is not marked is kept, and each run of marked ones gives way to as many stars as
-- it has characters; `run` is the run so far.
unfoldable pub render : List ℕ → List Bool → List ℕ → List ℕ
render run [] str = replicate (cnt_utf8 run) 42 ++ str
render run (m ∷ ms) [] = replicate (cnt_utf8 run) 42
render run (true ∷ ms) (c ∷ str) = render (run ++ c ∷ []) ms str
render run (false ∷ ms) (c ∷ str) = replicate (cnt_utf8 run) 42 ++ c ∷ render [] ms str

-- The marks in front.
unfoldable pub marked : List Bool → ℕ
marked [] = 0
marked (true ∷ ms) = suc (marked ms)
marked (false ∷ ms) = 0

pub run_end-marked :
    (fuel : ℕ) (idx : List Bool) (s : ℕ)
    → length idx ≤ fuel + s
    → s ≤ length idx
    → run_end fuel idx (length idx) s ≡ s + marked (drop s idx)
unfolding run_end marked
run_end-marked zero idx s h l = ground (arith, ap marked (drop_all s idx (omega arith)))
run_end-marked (suc fuel) idx s h l = elim (Bool-cases (ltb s (length idx))) [
  | inl e ↦
      let opened : drop s idx ≡ get_or idx s false ∷ drop (suc s) idx =
        drop-get_or idx s false (ground arith) in
      elim (Bool-cases (get_or idx s false)) [
        | inl t ↦ ground (
          arith,
          e,
          t,
          run_end-marked fuel idx (suc s),
          ap marked opened,
          ap (λ b. marked (b ∷ drop (suc s) idx)) t,
        )
        | inr t ↦ ground (arith, e, t, ap marked opened, ap (λ b. marked (b ∷ drop (suc s) idx)) t)
      ]
  | inr e ↦ ground (arith, e, ap marked (drop_all s idx (ground arith)))
]

render-marked :
    (run : List ℕ) (ms : List Bool) (str : List ℕ)
    → length ms ≡ length str
    → render run ms str
      ≡ replicate (cnt_utf8 (run ++ take (marked ms) str)) 42
        ++ render [] (drop (marked ms) ms) (drop (marked ms) str)
unfolding render marked cnt_utf8 cnt_from
render-marked run [] [] h = ap (λ r. replicate (cnt_utf8 r) 42 ++ []) (sym (append-nil run))
render-marked run [] (c ∷ str) h = absurd (omega arith)
render-marked run (m ∷ ms) [] h = absurd (omega arith)
render-marked run (true ∷ ms) (c ∷ str) h =
    render-marked (run ++ c ∷ []) ms str (omega arith)
    ∙ ap (λ r. replicate (cnt_utf8 r) 42 ++ render [] (drop (marked ms) ms) (drop (marked ms) str))
        (append_assoc run (c ∷ []) (take (marked ms) str))
render-marked run (false ∷ ms) (c ∷ str) h =
    ap (λ r. replicate (cnt_utf8 r) 42 ++ c ∷ render [] ms str) (sym (append-nil run))

pub length-marked : (ms : List Bool) → marked ms ≤ length ms
unfolding marked
length-marked [] = omega arith
length-marked (true ∷ ms) = omega (arith, length-marked ms)
length-marked (false ∷ ms) = omega arith

pub render_kept :
    (idx : List Bool) (str : List ℕ) (start : ℕ)
    → length idx ≡ length str
    → start < length str
    → get_or idx start false ≡ false
    → render [] (drop start idx) (drop start str)
      ≡ get_or str start 0 ∷ render [] (drop (suc start) idx) (drop (suc start) str)
unfolding render cnt_utf8 cnt_from
render_kept idx str start s h t =
    ap₂ (render []) (drop-get_or idx start false (omega arith)) (drop-get_or str start 0 h)
    ∙ ap (λ m. render [] (m ∷ drop (suc start) idx) (get_or str start 0 ∷ drop (suc start) str)) t

pub render_run :
    (idx : List Bool) (str : List ℕ) (start end : ℕ)
    → length idx ≡ length str
    → start < length str
    → get_or idx start false ≡ true
    → end ≡ suc start + marked (drop (suc start) idx)
    → render [] (drop start idx) (drop start str)
      ≡ replicate (cnt_utf8 (take (end - start) (drop start str))) 42
        ++ render [] (drop end idx) (drop end str)
unfolding render
render_run idx str start end s h t e =
    ap₂ (render []) (drop-get_or idx start false (omega arith)) (drop-get_or str start 0 h)
    ∙ ap (λ m. render [] (m ∷ ms) (c ∷ cs)) t
    ∙ render-marked (c ∷ []) ms cs
        (omega (arith, length-drop (suc start) idx, length-drop (suc start) str))
    ∙ ap₂ (λ run rest. replicate (cnt_utf8 run) 42 ++ rest) run_same
        (ap₂ (render []) (past idx) (past str))
  where
    c : ℕ
    c = get_or str start 0

    ms : List Bool
    ms = drop (suc start) idx

    cs : List ℕ
    cs = drop (suc start) str

    past : {A : Type 0} (xs : List A) → drop (marked ms) (drop (suc start) xs) ≡ drop end xs
    past xs = drop-drop (suc start) (marked ms) xs ∙ ap (λ n. drop n xs) (sym e)

    run_same : c ∷ take (marked ms) cs ≡ take (end - start) (drop start str)
    run_same = sym (ap₂ take (longer e) (drop-get_or str start 0 h))
      where
        longer : end ≡ suc start + marked ms → end - start ≡ suc (marked ms)
        longer e = omega arith
