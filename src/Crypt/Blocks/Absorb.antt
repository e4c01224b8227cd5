-- ===== src/Crypt/Blocks/Absorb.antt =====
-- The bytes taken in, however they are cut, against the blocks of the whole message.
use simple.Prelude.{
  ℕ, zero, suc, ◌+◌, ◌-◌, ◌*◌, ◌/◌, ◌%◌, ◌≤◌, ◌<◌, ◌≡◌, refl, sym, ap, ap₂, subst, ◌∙◌, arith, true,
  false, leb, ◌==◌, if◌then◌else◌, List, [], ◌∷◌, ◌++◌, length, take, drop, append_assoc,
  append-nil, length-append, length-take, length-drop, drop-drop, take-append_le, drop-append_le,
  take-append_length, drop-append_length, take_all, take-append-drop,
}
use simple.Crypt.Blocks.{overwrite, block_loop, keep_rest, absorb}

length-overwrite :
    (buff : List ℕ) (at : ℕ) (text : List ℕ)
    → at + length text ≤ length buff
    → length (overwrite buff at text) ≡ length buff
unfolding overwrite
length-overwrite buff at text h = omega (
  arith,
  length-append (take at buff) (text ++ drop (at + length text) buff),
  length-append text (drop (at + length text) buff),
  length-take at buff,
  length-drop (at + length text) buff,
)

-- The bytes in front of and in what was written.
take-overwrite :
    (buff : List ℕ) (at : ℕ) (text : List ℕ)
    → at ≤ length buff
    → take (at + length text) (overwrite buff at text) ≡ take at buff ++ text
unfolding overwrite
take-overwrite buff at text h =
    ap (take (at + length text))
      (sym (append_assoc (take at buff) text (drop (at + length text) buff)))
    ∙ ap (λ n. take n ((take at buff ++ text) ++ drop (at + length text) buff)) size
    ∙ take-append_length (take at buff ++ text) (drop (at + length text) buff)
  where
    size : at + length text ≡ length (take at buff ++ text)
    size = omega (arith, length-append (take at buff) text, length-take at buff)

module _ {ℓ} {S : Type ℓ} (transform : S → List ℕ → S) where
  -- `n` full blocks.
  unfoldable pub hash_blocks : ℕ → S → List ℕ → S
  hash_blocks zero s m = s
  hash_blocks (suc n) s m = hash_blocks n (transform s (take 64 m)) (drop 64 m)

  hash_blocks-add :
      (n k : ℕ) (s : S) (m : List ℕ)
      → hash_blocks (n + k) s m ≡ hash_blocks k (hash_blocks n s m) (drop (n * 64) m)
  unfolding hash_blocks
  hash_blocks-add zero k s m =
      let e : zero + k ≡ k = omega arith in
      let z : zero * 64 ≡ 0 = omega arith in
      ap (λ i. hash_blocks i s m) e ∙ ap (λ i. hash_blocks k s (drop i m)) (sym z)
  hash_blocks-add (suc n) k s m =
      let e : suc n + k ≡ suc (n + k) = omega arith in
      let z : 64 + n * 64 ≡ suc n * 64 = omega arith in
      ap (λ i. hash_blocks i s m) e
      ∙ hash_blocks-add n k (transform s (take 64 m)) (drop 64 m)
      ∙ ap (hash_blocks k (hash_blocks n (transform s (take 64 m)) (drop 64 m)))
          (drop-drop 64 (n * 64) m ∙ ap (λ i. drop i m) z)

  hash_blocks-append :
      (n : ℕ) (s : S) (m text : List ℕ)
      → n * 64 ≤ length m
      → hash_blocks n s (m ++ text) ≡ hash_blocks n s m
  unfolding hash_blocks
  hash_blocks-append zero s m text h = refl
  hash_blocks-append (suc n) s m text h =
      ap₂ (λ b r. hash_blocks n (transform s b) r) (take-append_le 64 m text (omega arith))
        (drop-append_le 64 m text (omega arith))
      ∙ hash_blocks-append n (transform s (take 64 m)) (drop 64 m) text
          (omega (arith, length-drop 64 m))

  block_loop_lem :
      (f n : ℕ) (s : S) (m : List ℕ)
      → n * 64 ≤ length m
      → length m < n * 64 + 64
      → n ≤ f
      → block_loop transform f s m ≡ (hash_blocks n s m, drop (n * 64) m)
  unfolding block_loop hash_blocks
  block_loop_lem zero zero s m low high enough = refl
  block_loop_lem zero (suc n) s m low high enough = absurd (omega arith)
  block_loop_lem (suc f) zero s m low high enough = rw (few)
    where
      few : leb 64 (length m) ≡ false
      few = ground arith
  block_loop_lem (suc f) (suc n) s m low high enough = rw (many) (
      block_loop_lem f n (transform s (take 64 m)) (drop 64 m) (omega (arith, length-drop 64 m))
        (omega (arith, length-drop 64 m)) (omega arith)
      ∙ ap (λ r. (hash_blocks n (transform s (take 64 m)) (drop 64 m), r))
          (drop-drop 64 (n * 64) m ∙ ap (λ i. drop i m) places))
    where
      many : leb 64 (length m) ≡ true
      many = ground arith

      places : 64 + n * 64 ≡ suc n * 64
      places = omega arith

  -- The bytes `m` have been taken in: the full blocks are hashed, and the others wait in the buffer.
  pub record HasTaken (start : S) (m : List ℕ) (r : S × List ℕ) : Type ℓ where
    pub hashed : r.0 ≡ hash_blocks (length m / 64) start m
    pub waiting : take (length m % 64) r.1 ≡ drop (length m / 64 * 64) m
    pub full : length r.1 ≡ 64

  -- The state `s`, with the bytes `rest` in the buffer.
  record Rests (s : S) (rest : List ℕ) (r : S × List ℕ) : Type ℓ where
    state : r.0 ≡ s
    kept : take (length rest) r.1 ≡ rest
    full : length r.1 ≡ 64

  keep_rest-Rests :
      (buff : List ℕ) (have : ℕ) (s : S) (text t : List ℕ)
      → length buff ≡ 64
      → take have buff ≡ t
      → length t ≡ have
      → have + length text ≤ 64
      → Rests s (t ++ text) (keep_rest transform buff have (s, text))
  unfolding keep_rest
  keep_rest-Rests buff have s [] t hb ht hl h = record {
    state = refl;
    kept = ap (λ n. take n buff) (omega (arith, hl, length-append t [])) ∙ ht ∙ sym (append-nil t);
    full = hb;
  }
  keep_rest-Rests buff have s (c ∷ text) t hb ht hl h =
      subst (Rests s (t ++ (c ∷ text)))
        (sym (ap (λ b. if b then (s, buff) else (s, overwrite buff have (c ∷ text))) more))
        (record {
          state = refl;
          kept =
              ap (λ n. take n (overwrite buff have (c ∷ text)))
                (omega (arith, hl, length-append t (c ∷ text)))
              ∙ take-overwrite buff have (c ∷ text) (omega arith)
              ∙ ap (λ x. x ++ (c ∷ text)) ht;
          full = length-overwrite buff have (c ∷ text) (omega arith) ∙ hb;
        })
    where
      more : (length (c ∷ text) == 0) ≡ false
      more = ground arith

  absorb_few :
      (s : S) (buff : List ℕ) (have : ℕ) (text : List ℕ)
      → have + length text < 64
      → absorb transform s buff have text ≡ keep_rest transform buff have (s, text)
  unfolding absorb
  absorb_few s buff have text h = rw (few)
    where
      few : leb (64 - have) (length text) ≡ false
      few = ground arith

  absorb_empty :
      (s : S) (buff text : List ℕ)
      → 64 ≤ length text
      → absorb transform s buff 0 text
        ≡ keep_rest transform buff 0 (block_loop transform (length text) s text)
  unfolding absorb
  absorb_empty s buff text h = rw (many)
    where
      many : leb (64 - 0) (length text) ≡ true
      many = ground arith

  absorb_fill :
      (s : S) (buff : List ℕ) (have : ℕ) (text : List ℕ)
      → have < 64
      → (have == 0) ≡ false
      → 64 ≤ have + length text
      → absorb transform s buff have text
        ≡ keep_rest transform (overwrite buff have (take (64 - have) text)) 0 (
            block_loop transform
              (length text)
              (transform s (overwrite buff have (take (64 - have) text)))
              (drop (64 - have) text))
  unfolding absorb
  absorb_fill s buff have text hh h0 h = rw (many, h0)
    where
      many : leb (64 - have) (length text) ≡ true
      many = ground arith

  filled_block :
      (buff : List ℕ) (have : ℕ) (text t : List ℕ)
      → length buff ≡ 64
      → have < 64
      → take have buff ≡ t
      → length t ≡ have
      → 64 ≤ have + length text
      → overwrite buff have (take (64 - have) text) ≡ take 64 (t ++ text)
  filled_block buff have text t hb hh ht hl h =
      sym (take_all 64 filled (omega (arith, length-overwrite buff have front fits)))
      ∙ ap (λ n. take n filled) (sym whole)
      ∙ take-overwrite buff have front (omega arith)
      ∙ ap (λ x. x ++ front) ht
      ∙ sym (take-append_length (t ++ front) (drop (64 - have) text))
      ∙ ap₂ take all (
          append_assoc t front (drop (64 - have) text)
          ∙ ap (◌++◌ t) (take-append-drop (64 - have) text))
    where
      front : List ℕ
      front = take (64 - have) text

      filled : List ℕ
      filled = overwrite buff have front

      long : length front ≡ 64 - have
      long = omega (arith, length-take (64 - have) text)

      whole : have + length front ≡ 64
      whole = omega (arith, long)

      all : length (t ++ front) ≡ 64
      all = omega (arith, hl, long, length-append t front)

      fits : have + length front ≤ length buff
      fits = omega (arith, long)

  drop_filled :
      (have : ℕ) (text t : List ℕ)
      → have < 64
      → length t ≡ have
      → drop (64 - have) text ≡ drop 64 (t ++ text)
  drop_filled have text t hh hl =
      ap (drop (64 - have)) (sym (drop-append_length t text))
      ∙ drop-drop (length t) (64 - have) (t ++ text)
      ∙ ap (λ n. drop n (t ++ text)) whole
    where
      whole : length t + (64 - have) ≡ 64
      whole = omega (arith, hl)

  -- From a state behind full blocks, with the bytes `t` in the buffer.
  absorb-Rests :
      (s : S) (buff : List ℕ) (have : ℕ) (text t : List ℕ) (n : ℕ)
      → length buff ≡ 64
      → have < 64
      → take have buff ≡ t
      → length t ≡ have
      → n * 64 ≤ have + length text
      → have + length text < n * 64 + 64
      → Rests
          (hash_blocks n s (t ++ text))
          (drop (n * 64) (t ++ text))
          (absorb transform s buff have text)
  unfolding hash_blocks
  absorb-Rests s buff have text t zero hb hh ht hl low high =
      subst (Rests s (t ++ text)) (sym (absorb_few s buff have text (omega arith)))
        (keep_rest-Rests buff have s text t hb ht hl (omega arith))
  absorb-Rests s buff zero text t (suc n) hb hh ht hl low high =
      subst
        (λ u.
          Rests (hash_blocks (suc n) s (u ++ text)) (drop (suc n * 64) (u ++ text))
            (absorb transform s buff 0 text))
        ht
        (subst (Rests (hash_blocks (suc n) s text) (drop (suc n * 64) text)) (sym steps) (
          keep_rest-Rests buff 0 (hash_blocks (suc n) s text) (drop (suc n * 64) text) [] hb refl
            refl (omega (arith, length-drop (suc n * 64) text))))
    where
      steps :
          absorb transform s buff 0 text
          ≡ keep_rest transform buff 0 (hash_blocks (suc n) s text, drop (suc n * 64) text)
      steps =
          absorb_empty s buff text (omega arith)
          ∙ ap (keep_rest transform buff 0) (
              block_loop_lem (length text) (suc n) s text (omega arith) (omega arith) (omega arith))
  absorb-Rests s buff (suc k) text t (suc n) hb hh ht hl low high =
      subst (Rests (hash_blocks n (transform s block) more) (drop (suc n * 64) (t ++ text)))
        (sym steps)
        (subst
          (λ r. Rests (hash_blocks n (transform s block) more) r (
            keep_rest transform block 0
              (hash_blocks n (transform s block) more, drop (n * 64) more)))
          (drop-drop 64 (n * 64) (t ++ text) ∙ ap (λ i. drop i (t ++ text)) places)
          (keep_rest-Rests block 0 (hash_blocks n (transform s block) more) (drop (n * 64) more) []
            long refl refl (omega (arith, size, length-drop (n * 64) more))))
    where
      block : List ℕ
      block = take 64 (t ++ text)

      more : List ℕ
      more = drop 64 (t ++ text)

      size : length more ≡ suc k + length text - 64
      size = omega (arith, hl, length-drop 64 (t ++ text), length-append t text)

      long : length block ≡ 64
      long = omega (arith, hl, length-take 64 (t ++ text), length-append t text)

      places : 64 + n * 64 ≡ suc n * 64
      places = omega arith

      steps :
          absorb transform s buff (suc k) text
          ≡ keep_rest transform block 0 (hash_blocks n (transform s block) more, drop (n * 64) more)
      steps =
          absorb_fill s buff (suc k) text hh (ground arith) (omega arith)
          ∙ ap₂
              (λ b r.
                keep_rest transform b 0 (block_loop transform (length text) (transform s b) r))
              (filled_block buff (suc k) text t hb hh ht hl (omega arith))
              (drop_filled (suc k) text t hh hl)
          ∙ ap (keep_rest transform block 0) (
              block_loop_lem (length text) n (transform s block) more (omega (arith, size))
                (omega (arith, size)) (omega arith))

  -- Taking bytes in, after any others.
  pub absorb-HasTaken :
      (start : S) (m text : List ℕ) (s : S) (buff : List ℕ) (have : ℕ)
      → HasTaken start m (s, buff)
      → have ≡ length m % 64
      → HasTaken start (m ++ text) (absorb transform s buff have text)
  absorb-HasTaken start m text s buff have taken e = record {
    hashed =
        rests.state
        ∙ ap₂ (hash_blocks k) (taken.hashed ∙ sym (hash_blocks-append q start m text (omega arith)))
            joined
        ∙ sym (hash_blocks-add q k start (m ++ text))
        ∙ ap (λ n. hash_blocks n start (m ++ text)) blocks;
    waiting = ap (λ n. take n (absorb transform s buff have text).1) left ∙ rests.kept ∙ behind;
    full = rests.full;
  }
    where
      q : ℕ
      q = length m / 64

      k : ℕ
      k = (have + length text) / 64

      t : List ℕ
      t = drop (q * 64) m

      joined : t ++ text ≡ drop (q * 64) (m ++ text)
      joined = sym (drop-append_le (q * 64) m text (omega arith))

      blocks : q + k ≡ length (m ++ text) / 64
      blocks = omega (arith, e, length-append m text)

      rests :
          Rests
            (hash_blocks k s (t ++ text))
            (drop (k * 64) (t ++ text))
            (absorb transform s buff have text)
      rests =
          absorb-Rests s buff have text t k taken.full (omega (arith, e))
            (ap (λ n. take n buff) e ∙ taken.waiting) (omega (arith, e, length-drop (q * 64) m))
            (omega arith) (omega arith)

      behind : drop (k * 64) (t ++ text) ≡ drop (length (m ++ text) / 64 * 64) (m ++ text)
      behind =
          ap (drop (k * 64)) joined
          ∙ drop-drop (q * 64) (k * 64) (m ++ text)
          ∙ ap (λ n. drop n (m ++ text)) (omega (arith, blocks))

      left : length (m ++ text) % 64 ≡ length (drop (k * 64) (t ++ text))
      left = omega (
        arith,
        e,
        blocks,
        length-append m text,
        length-append t text,
        length-drop (q * 64) m,
        length-drop (k * 64) (t ++ text),
      )
