-- ===== src/Filter/Trie/Replacement.antt =====
-- replace against in_trie.
use simple.Prelude.{
  length-replicate, ℕ, zero, suc, ◌+◌, ◌-◌, ◌<◌, ◌≡◌, refl, sym, ap, subst, ◌∙◌, Bool, true, false,
  ltb, ◌⊎◌, inl, inr, if◌then◌else◌, List, [], ◌∷◌, length, get_or, set, replicate, arith,
  Bool-cases, Option, none, some, ◌==◌,
}
use simple.Filter.Trie.{
  AcDfa, TrieAc, step, finds, in_trie, is_nil, mark_range, add_idx, marks, marks_of, build_text,
  replace_marked, replace,
}
use simple.Filter.Trie.Runs.{render}
use simple.Filter.Trie.Rendering.{build_text-render_all}

length-set {ℓ} : {A : Type ℓ} (xs : List A) (i : ℕ) (v : A) → length (set xs i v) ≡ length xs
length-set [] i v = refl
length-set (x ∷ xs) zero v = refl
length-set (x ∷ xs) (suc i) v = ap suc (length-set xs i v)

length-mark_range : (idx : List Bool) (from n : ℕ) → length (mark_range idx from n) ≡ length idx
unfolding mark_range
length-mark_range idx from zero = refl
length-mark_range idx from (suc n) =
    length-mark_range (set idx from true) (suc from) n ∙ length-set idx from true

is_nil-length {ℓ} : {A : Type ℓ} (xs : List A) → is_nil xs ≡ (length xs == 0)
is_nil-length [] = refl
is_nil-length (x ∷ xs) = ground arith

-- As many marks as bytes, and at least one.
record IsSized (sz : ℕ) (idx : List Bool) : Type 0 where
  pub size : length idx ≡ sz
  pub some_size : 0 < sz

if_IsSized :
    {sz : ℕ} (t : Bool) (a b : List Bool)
    → IsSized sz a
    → IsSized sz b
    → IsSized sz (if t then a else b)
if_IsSized true a b h k = h
if_IsSized false a b h k = k

subst2 :
    (P : Bool → List Bool → Type 0) {a b : Bool} {x y : List Bool} → a ≡ b → x ≡ y → P a x → P b y
subst2 P {a} {b} {x} {y} e f p = subst (λ c. P c y) e (subst (P a) f p)

module _ (dfa : AcDfa) (sz : ℕ) where
  add_idx-IsSized :
      (state : ℕ) (idx : List Bool) (pos : ℕ)
      → IsSized sz idx
      → IsSized sz (add_idx dfa sz state idx pos)
  unfolding add_idx
  add_idx-IsSized state idx pos h = record {
    size = ground (
      arith,
      h.size,
      h.some_size,
      is_nil-length idx,
      length-mark_range idx (pos - get_or dfa.output_t state 0) (get_or dfa.output_t state 0),
    );
    some_size = h.some_size;
  }

  add_idx_first :
      (state pos : ℕ)
      → 0 < sz
      → ltb 0 (get_or dfa.output_t state 0) ≡ true
      → IsSized sz (add_idx dfa sz state [] pos)
  unfolding add_idx
  add_idx_first state pos h e = record {
    size = ground (
      arith,
      e,
      length-replicate sz false,
      length-mark_range (replicate sz false) (pos - get_or dfa.output_t state 0)
          (get_or dfa.output_t state 0),
    );
    some_size = h;
  }

  add_idx_none :
      (state pos : ℕ)
      → ltb 0 (get_or dfa.output_t state 0) ≡ false
      → add_idx dfa sz state [] pos ≡ []
  unfolding add_idx
  add_idx_none state pos e = rw (e) refl

  marks-IsSized :
      (i state : ℕ) (idx : List Bool) (str : List ℕ)
      → IsSized sz idx
      → IsSized sz (marks dfa sz i state idx str)
  unfolding marks
  marks-IsSized i state idx [] h = h
  marks-IsSized i state idx (ch ∷ str) h =
      if_IsSized (ch == 0) idx
        (marks dfa sz (suc i) (step dfa state ch) (add_idx dfa sz (step dfa state ch) idx (i + 1))
          str)
        h
        (marks-IsSized (suc i) (step dfa state ch) (add_idx dfa sz (step dfa state ch) idx (i + 1))
          str (add_idx-IsSized (step dfa state ch) idx (i + 1) h))

  -- There are marks exactly when the text has a keyword.
  abbrev Marked : Bool → List Bool → Type 0
  Marked found idx = ((found ≡ false) × (idx ≡ [])) ⊎ ((found ≡ true) × IsSized sz idx)

  marks-finds :
      (i state : ℕ) (str : List ℕ)
      → 0 < sz
      → Marked (finds dfa state str) (marks dfa sz i state [] str)
  unfolding marks finds
  marks-finds i state [] h = inl (refl, refl)
  marks-finds i state (ch ∷ str) h = elim (Bool-cases (ch == 0)) [
    | inl e ↦ inl (rw (e) refl, rw (e) refl)
    | inr e ↦ elim (Bool-cases (ltb 0 (get_or dfa.output_t (step dfa state ch) 0))) [
      | inl f ↦ inr (
        rw (e, f) refl,
        subst (IsSized sz) (sym (passed e)) (
            marks-IsSized (suc i) (step dfa state ch)
              (add_idx dfa sz (step dfa state ch) [] (i + 1)) str
              (add_idx_first (step dfa state ch) (i + 1) h f)),
      )
      | inr f ↦
          subst2 Marked (sym (later e f))
            (sym (
              passed e
              ∙ ap (λ idx. marks dfa sz (suc i) (step dfa state ch) idx str)
                  (add_idx_none (step dfa state ch) (i + 1) f)))
            (marks-finds (suc i) (step dfa state ch) str h)
    ]
  ]
    where
      passed :
          (ch == 0) ≡ false
          → (if ch == 0
              then []
              else marks dfa sz
                  (suc i)
                  (step dfa state ch)
                  (add_idx dfa sz (step dfa state ch) [] (i + 1))
                  str)
            ≡ marks dfa sz
                (suc i)
                (step dfa state ch)
                (add_idx dfa sz (step dfa state ch) [] (i + 1))
                str
      passed e = rw (e) refl

      later :
          (ch == 0) ≡ false
          → ltb 0 (get_or dfa.output_t (step dfa state ch) 0) ≡ false
          → (if ch == 0
              then false
              else (if ltb 0 (get_or dfa.output_t (step dfa state ch) 0)
                  then true
                  else finds dfa (step dfa state ch) str))
            ≡ finds dfa (step dfa state ch) str
      later e f = rw (e, f) refl

replace_marked_none : (str : List ℕ) → replace_marked [] str ≡ str
unfolding replace_marked
replace_marked_none str = refl

replace_marked_some :
    (str : List ℕ) (idx : List Bool)
    → IsSized (length str) idx
    → replace_marked idx str ≡ render [] idx str
unfolding replace_marked
replace_marked_some str idx h =
    ap (λ t. if t then str else build_text (length str + 1) str idx 0 0 []) {y = false}
      (is_nil-length idx ∙ ground (arith, h.size, h.some_size))
    ∙ build_text-render_all str idx h.size

from_marked :
    (str : List ℕ) (found : Bool) (idx : List Bool)
    → ((found ≡ false) × (idx ≡ [])) ⊎ ((found ≡ true) × IsSized (length str) idx)
    → replace_marked idx str ≡ (if found then render [] idx str else str)
from_marked str found idx (inl (e, f)) =
    ap (λ i. replace_marked i str) f
    ∙ replace_marked_none str
    ∙ sym (ap (λ t. if t then render [] idx str else str) e)
from_marked str found idx (inr (e, h)) =
    replace_marked_some str idx h ∙ sym (ap (λ t. if t then render [] idx str else str) e)

with_dfa :
    (dfa : AcDfa) (t : Bool) (str : List ℕ)
    → ((let found = (if t then false else finds dfa 0 str) in found ≡ false)
        × ((if t then [] else marks dfa (length str) 0 0 [] str) ≡ []))
      ⊎ (((if t then false else finds dfa 0 str) ≡ true)
          × IsSized (length str) (if t then [] else marks dfa (length str) 0 0 [] str))
unfolding marks finds
with_dfa dfa true str = inl (refl, refl)
with_dfa dfa false [] = inl (refl, refl)
with_dfa dfa false (c ∷ str) = marks-finds dfa (length (c ∷ str)) 0 0 (c ∷ str) (omega arith)

with_data :
    (trie : TrieAc) (str : List ℕ) (d : Option AcDfa)
    → (let t = record trie { data_ = d } in
        ((in_trie t str ≡ false) × (marks_of t str ≡ []))
        ⊎ ((in_trie t str ≡ true) × IsSized (length str) (marks_of t str)))
unfolding in_trie marks_of
with_data trie str none = inl (refl, refl)
with_data trie str (some dfa) = with_dfa dfa (is_nil dfa.goto_t) str

-- replace leaves a text in which in_trie finds nothing as it is; in any other it keeps the bytes
-- without a mark, and puts as many stars as it has characters in the place of each run with marks.
pub replace-in_trie :
    (trie : TrieAc) (str : List ℕ)
    → replace trie str ≡ (if in_trie trie str then render [] (marks_of trie str) str else str)
unfolding replace
replace-in_trie trie str =
    from_marked str (in_trie trie str) (marks_of trie str) (with_data trie str trie.data_)
