-- ===== src/Filter/Trie/Rendering.antt =====
-- The text that replace builds, against a pass over the bytes and their marks.
use simple.Prelude.{
  ℕ, zero, suc, ◌+◌, ◌-◌, ◌≤◌, ◌<◌, ◌≡◌, refl, sym, ap, ap₂, ◌∙◌, Bool, true, false, ltb, inl, inr,
  if◌then◌else◌, List, [], ◌∷◌, ◌++◌, length, get_or, take, drop, replicate, arith, append_assoc,
  append-nil, drop_all, length-drop, ltb→lt, Bool-cases,
}
use simple.Filter.Utf8.{cnt_utf8, cnt_from}
use simple.Filter.Trie.{run_end, build_text}
use simple.Filter.Trie.Runs.{render, marked, run_end-marked, length-marked, render_kept, render_run}

-- The bytes that wait to be copied.
waiting : List ℕ → ℕ → ℕ → List ℕ
waiting str last start = take (start - last) (drop last str)

module _ (fuel : ℕ) (str : List ℕ) (idx : List Bool) (start last : ℕ) (temp : List ℕ) where
  text_end :
      ltb start (length str) ≡ false
      → build_text (suc fuel) str idx start last temp
        ≡ (if ltb last (length str) then temp ++ waiting str last (length str) else temp)
  unfolding build_text waiting
  text_end e = rw (e) refl

  text_marked :
      ltb start (length str) ≡ true
      → get_or idx start false ≡ true
      → (let end = run_end (length str) idx (length str) (start + 1) in
          build_text (suc fuel) str idx start last temp
          ≡ build_text fuel str idx end end (
              temp
              ++ (waiting str last start
                  ++ replicate (cnt_utf8 (take (end - start) (drop start str))) 42)))
  unfolding build_text waiting
  text_marked e t = rw (e, t) refl

  text_kept :
      ltb start (length str) ≡ true
      → get_or idx start false ≡ false
      → build_text (suc fuel) str idx start last temp
        ≡ build_text fuel str idx (start + 1) last temp
  unfolding build_text
  text_kept e t = rw (e, t) refl

take-suc {ℓ} :
    {A : Type ℓ} (n : ℕ) (xs : List A) (d : A)
    → n < length xs
    → take (suc n) xs ≡ take n xs ++ get_or xs n d ∷ []
take-suc n [] d h = absurd (omega arith)
take-suc zero (x ∷ xs) d h = refl
take-suc (suc n) (x ∷ xs) d h = ap (◌∷◌ x) (take-suc n xs d (omega arith))

get_or-drop {ℓ} :
    {A : Type ℓ} (n i : ℕ) (xs : List A) (d : A) → get_or (drop n xs) i d ≡ get_or xs (n + i) d
get_or-drop zero i xs d = ap (λ k. get_or xs k d) (omega arith)
get_or-drop (suc n) i [] d = refl
get_or-drop (suc n) i (x ∷ xs) d =
    get_or-drop n i xs d ∙ ap (λ k. get_or (x ∷ xs) k d) (suc-add_sym n i)
  where
    suc-add_sym : (n i : ℕ) → suc (n + i) ≡ suc n + i
    suc-add_sym n i = omega arith

waiting_one :
    (str : List ℕ) (last start : ℕ)
    → last ≤ start
    → start < length str
    → waiting str last (suc start) ≡ waiting str last start ++ get_or str start 0 ∷ []
unfolding waiting
waiting_one str last start l h =
    ap (λ n. take n (drop last str)) {y = suc (start - last)} (omega arith)
    ∙ take-suc (start - last) (drop last str) 0 (omega (arith, length-drop last str))
    ∙ ap (λ c. take (start - last) (drop last str) ++ c ∷ [])
        (get_or-drop last (start - last) str 0 ∙ ap (λ n. get_or str n 0) (omega arith))

no_waiting : (str : List ℕ) (i : ℕ) → waiting str i i ≡ []
unfolding waiting
no_waiting str i = ap (λ n. take n (drop i str)) {y = 0} (omega arith)

finish_text :
    (str temp : List ℕ) (last : ℕ)
    → last ≤ length str
    → (if ltb last (length str) then temp ++ waiting str last (length str) else temp)
      ≡ temp ++ waiting str last (length str)
finish_text str temp last l = elim (Bool-cases (ltb last (length str))) [
  | inl e ↦ rw (e) refl
  | inr e ↦
      ap (λ t. if t then temp ++ waiting str last (length str) else temp) e
      ∙ sym (append-nil temp)
      ∙ ap (λ w. temp ++ w)
          (sym (ap (λ i. waiting str i (length str)) (ground arith) ∙ no_waiting str (length str)))
]

module _ (str : List ℕ) (idx : List Bool) (s : length idx ≡ length str) where
  rest_from : ℕ → List ℕ
  rest_from i = render [] (drop i idx) (drop i str)

  kept_step :
      (start last : ℕ) (temp : List ℕ)
      → last ≤ start
      → start < length str
      → get_or idx start false ≡ false
      → temp ++ (waiting str last (start + 1) ++ rest_from (start + 1))
        ≡ temp ++ (waiting str last start ++ rest_from start)
  unfolding rest_from
  kept_step start last temp l h t =
      ap (λ n. temp ++ (waiting str last n ++ rest_from n)) (omega arith)
      ∙ ap (λ w. temp ++ (w ++ rest_from (suc start))) (waiting_one str last start l h)
      ∙ ap (λ r. temp ++ r)
          (append_assoc (waiting str last start) (get_or str start 0 ∷ []) (rest_from (suc start)))
      ∙ ap (λ r. temp ++ (waiting str last start ++ r)) (sym (render_kept idx str start s h t))

  marked_step :
      (start end last : ℕ) (temp : List ℕ)
      → start < length str
      → get_or idx start false ≡ true
      → end ≡ suc start + marked (drop (suc start) idx)
      → (temp
            ++ (waiting str last start
                ++ replicate (cnt_utf8 (take (end - start) (drop start str))) 42))
          ++ (waiting str end end ++ rest_from end)
        ≡ temp ++ (waiting str last start ++ rest_from start)
  unfolding rest_from
  marked_step start end last temp h t e =
      ap
        (λ w.
          (temp
            ++ (waiting str last start
                ++ replicate (cnt_utf8 (take (end - start) (drop start str))) 42))
          ++ (w ++ rest_from end))
        (no_waiting str end)
      ∙ append_assoc temp
          (waiting str last start ++ replicate (cnt_utf8 (take (end - start) (drop start str))) 42)
          (rest_from end)
      ∙ ap (λ r. temp ++ r)
          (append_assoc (waiting str last start)
            (replicate (cnt_utf8 (take (end - start) (drop start str))) 42) (rest_from end))
      ∙ ap (λ r. temp ++ (waiting str last start ++ r)) (sym (render_run idx str start end s h t e))

  end_step :
      (start last : ℕ) (temp : List ℕ)
      → start ≡ length str
      → temp ++ waiting str last (length str) ≡ temp ++ (waiting str last start ++ rest_from start)
  unfolding rest_from render cnt_utf8 cnt_from
  end_step start last temp e =
      ap (λ w. temp ++ w) (sym (append-nil (waiting str last (length str))))
      ∙ ap (λ r. temp ++ (waiting str last (length str) ++ r)) (sym nothing)
      ∙ ap (λ n. temp ++ (waiting str last n ++ render [] (drop n idx) (drop n str))) (sym e)
    where
      nothing : render [] (drop (length str) idx) (drop (length str) str) ≡ []
      nothing =
          ap₂ (render []) (drop_all (length str) idx (omega arith))
            (drop_all (length str) str (omega arith))

  run_end_place :
      (start : ℕ)
      → start < length str
      → run_end (length str) idx (length str) (start + 1)
        ≡ suc start + marked (drop (suc start) idx)
  run_end_place start h =
      ap (λ n. run_end n idx n (start + 1)) (sym s)
      ∙ ap (run_end (length idx) idx (length idx)) (omega arith)
      ∙ run_end-marked (length idx) idx (suc start) (omega arith) (omega arith)

  after_run :
      (fuel start last : ℕ) (temp : List ℕ)
      → last ≤ start
      → start < length str
      → get_or idx start false ≡ true
      → length str ≤ fuel + start
      → ((i j : ℕ) (t : List ℕ)
          → j ≤ i
          → i ≤ length str
          → length str + 1 ≤ fuel + i
          → build_text fuel str idx i j t ≡ t ++ (waiting str j i ++ rest_from i))
      → (let end = run_end (length str) idx (length str) (start + 1) in
          build_text fuel str idx end end (
            temp
            ++ (waiting str last start
                ++ replicate (cnt_utf8 (take (end - start) (drop start str))) 42))
          ≡ temp ++ (waiting str last start ++ rest_from start))
  after_run fuel start last temp l h t f again =
      again end end _ (omega arith) (omega (arith, place, within)) (omega (arith, place))
      ∙ marked_step start end last temp h t place
    where
      end : ℕ
      end = run_end (length str) idx (length str) (start + 1)

      place :
          run_end (length str) idx (length str) (start + 1)
          ≡ suc start + marked (drop (suc start) idx)
      place = run_end_place start h

      within : suc start + marked (drop (suc start) idx) ≤ length str
      within = omega (arith, length-marked (drop (suc start) idx), length-drop (suc start) idx)

  build_text-render :
      (fuel start last : ℕ) (temp : List ℕ)
      → last ≤ start
      → start ≤ length str
      → length str + 1 ≤ fuel + start
      → build_text fuel str idx start last temp
        ≡ temp ++ (waiting str last start ++ rest_from start)
  build_text-render zero start last temp l h f = absurd (omega arith)
  build_text-render (suc fuel) start last temp l h f = elim (Bool-cases (ltb start (length str))) [
    | inl e ↦ elim (Bool-cases (get_or idx start false)) [
      | inl t ↦
          text_marked fuel str idx start last temp e t
          ∙ after_run fuel start last temp l (ltb→lt start (length str) e) t (omega arith)
              (build_text-render fuel)
      | inr t ↦
          text_kept fuel str idx start last temp e t
          ∙ build_text-render fuel (start + 1) last temp (omega arith) (ground arith) (omega arith)
          ∙ kept_step start last temp l (ltb→lt start (length str) e) t
    ]
    | inr e ↦
        text_end fuel str idx start last temp e
        ∙ finish_text str temp last (omega arith)
        ∙ end_step start last temp (ground arith)
  ]

-- The loop of replace, with one round more than the text has bytes, builds the text that a pass over
-- the bytes and their marks gives, when there is a mark for each byte.
pub build_text-render_all :
    (str : List ℕ) (idx : List Bool)
    → length idx ≡ length str
    → build_text (length str + 1) str idx 0 0 [] ≡ render [] idx str
unfolding waiting rest_from
build_text-render_all str idx s =
    build_text-render str idx s (length str + 1) 0 0 [] (omega arith) (omega arith) (omega arith)
