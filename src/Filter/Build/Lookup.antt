-- ===== src/Filter/Build/Lookup.antt =====
-- The words that were inserted are found again.
use simple.Prelude.{
  ℕ, zero, suc, ◌≤◌, ◌≡◌, refl, sym, ap, subst, ◌∙◌, Bool, if◌then◌else◌, List, [], ◌∷◌, ◌++◌,
  length, get_or, set, arith, max, Option, none, some, All, ◌>>=◌, Option-cases, inl, inr,
}
use simple.Filter.Trie.{AcDfa, TrieAc, tolower, find_node}
use simple.Filter.Build.{Insertion, insert_byte, insert_bytes, update, init, new_trie, resize}
use simple.Filter.Build.Tables.{
  child, letter, IsTables, Extends, Inserted, insert_byte-Inserted, get_or-set, length-set,
}

-- Where a word leads from a state, none where a node is missing.
unfoldable pub walk : AcDfa → ℕ → List ℕ → Option ℕ
walk dfa st [] = some st
walk dfa st (byte ∷ word) = child dfa.goto_t st (letter dfa byte) >>= (λ n. walk dfa n word)

Extends-trans : (a b c : AcDfa) → Extends a b → Extends b c → Extends a c
Extends-trans a b c h k = record {
  same_case = k.same_case ∙ h.same_case;
  kept = λ st ch n e. k.kept st ch n (h.kept st ch n e);
  grows = λ i. omega (arith, h.grows i, k.grows i);
}

record Walked (s t : Insertion) (word : List ℕ) : Type 0 where
  pub tables : IsTables t
  pub extends : Extends s.dfa t.dfa
  pub arrived : walk t.dfa s.now word ≡ some t.now

walk-step :
    (dfa : AcDfa) (st n byte : ℕ) (word : List ℕ)
    → child dfa.goto_t st (letter dfa byte) ≡ some n
    → walk dfa st (byte ∷ word) ≡ walk dfa n word
unfolding walk
walk-step dfa st n byte word e = ap (λ o. o >>= (λ m. walk dfa m word)) e

letter-Extends : (a b : AcDfa) (byte : ℕ) → Extends a b → letter b byte ≡ letter a byte
letter-Extends a b byte h = ap (λ t. if t then tolower byte else byte) h.same_case

insert_bytes-Walked :
    (s : Insertion) (word : List ℕ) → IsTables s → Walked s (insert_bytes s word) word
unfolding insert_bytes walk
insert_bytes-Walked s [] t = record {
  tables = t;
  extends = record { same_case = refl; kept = λ st c n h. h; grows = λ i. omega arith };
  arrived = refl;
}
insert_bytes-Walked s (byte ∷ word) t =
    let one : Inserted s (insert_byte s byte) byte = insert_byte-Inserted s byte t in
    let rest : Walked (insert_byte s byte) (insert_bytes (insert_byte s byte) word) word =
      insert_bytes-Walked (insert_byte s byte) word one.tables in
    record {
      tables = rest.tables;
      extends = Extends-trans _ _ _ one.extends rest.extends;
      arrived =
          walk-step (insert_bytes (insert_byte s byte) word).dfa s.now (insert_byte s byte).now byte
            word
            (ap (child (insert_bytes (insert_byte s byte) word).dfa.goto_t s.now)
                (letter-Extends _ _ byte (Extends-trans _ _ _ one.extends rest.extends))
              ∙ rest.extends.kept s.now (letter s.dfa byte) (insert_byte s byte).now one.reached)
          ∙ rest.arrived;
    }

-- The word leads from the root to a state whose output is at least its length.
pub record Stored (dfa : AcDfa) (word : List ℕ) : Type 0 where
  pub end : ℕ
  pub path : walk dfa 0 word ≡ some end
  pub output : length word ≤ get_or dfa.output_t end 0

none-some : (n : ℕ) → ◌≡◌ {A = Option ℕ} none (some n) → ⊥
none-some n e = ground arith

walk-Extends :
    (a b : AcDfa) (st end : ℕ) (word : List ℕ)
    → Extends a b
    → walk a st word ≡ some end
    → walk b st word ≡ some end
unfolding walk
walk-Extends a b st end [] h e = e
walk-Extends a b st end (byte ∷ word) h e =
    elim (Option-cases (child a.goto_t st (letter a byte))) [
      | inl x ↦ absurd (none-some end (sym (ap (λ o. o >>= (λ m. walk a m word)) x) ∙ e))
      | inr found ↦
          walk-step b st found.0 byte word (
            ap (child b.goto_t st) (letter-Extends a b byte h)
            ∙ h.kept st (letter a byte) found.0 found.1)
          ∙ walk-Extends a b found.0 end word h (sym (walk-step a st found.0 byte word found.1) ∙ e)
    ]

Stored-Extends : (a b : AcDfa) (word : List ℕ) → Extends a b → Stored a word → Stored b word
Stored-Extends a b word h k = record {
  end = k.end;
  path = walk-Extends a b 0 k.end word h k.path;
  output = omega (arith, k.output, h.grows k.end);
}

All-Stored :
    (a b : AcDfa) (words : List (List ℕ))
    → Extends a b
    → All (Stored a) words
    → All (Stored b) words
All-Stored a b [] h k = tt
All-Stored a b (w ∷ words) h k = (Stored-Extends a b w h k.0, All-Stored a b words h k.1)

at_root : AcDfa → ℕ → Insertion
at_root dfa state = record { dfa = dfa; state = state; now = 0 }

-- The automaton that is built has proper tables and holds the words.
record Holds (trie : TrieAc) (words : List (List ℕ)) : Type 0 where
  pub dfa : AcDfa
  pub reserved : trie.reserve ≡ some dfa
  pub tables : IsTables (at_root dfa trie.state)
  pub stored : All (Stored dfa) words

-- The end of update.
noted : Insertion → ℕ → AcDfa
noted s len = record s.dfa {
  output_t = set s.dfa.output_t s.now (max (get_or s.dfa.output_t s.now 0) len);
}

noted-Extends : (s : Insertion) (len : ℕ) → IsTables s → Extends s.dfa (noted s len)
unfolding noted
noted-Extends s len t = record {
  same_case = refl;
  kept = λ st c n e. e;
  grows = λ i. ground (
    arith,
    t.outputs,
    t.now_in,
    get_or-set s.dfa.output_t s.now i (max (get_or s.dfa.output_t s.now 0) len) 0,
  );
}

noted-IsTables : (s : Insertion) (len : ℕ) → IsTables s → IsTables (at_root (noted s len) s.state)
unfolding noted at_root
noted-IsTables s len t = record {
  sized = t.sized;
  outputs = length-set s.dfa.output_t s.now (max (get_or s.dfa.output_t s.now 0) len) ∙ t.outputs;
  now_in = omega arith;
  children = t.children;
}

noted_output : (s : Insertion) (len : ℕ) → IsTables s → len ≤ get_or (noted s len).output_t s.now 0
unfolding noted
noted_output s len t = ground (
  arith,
  t.outputs,
  t.now_in,
  get_or-set s.dfa.output_t s.now s.now (max (get_or s.dfa.output_t s.now 0) len) 0,
)

update-some :
    (trie : TrieAc) (dfa : AcDfa) (word : List ℕ)
    → trie.reserve ≡ some dfa
    → (let s = insert_bytes (at_root dfa trie.state) word in
        update trie word ≡ record trie { reserve = some (noted s (length word)); state = s.state })
unfolding update at_root noted
update-some trie dfa word e = rw (e) refl

update-Holds :
    (trie : TrieAc) (words : List (List ℕ)) (word : List ℕ)
    → Holds trie words
    → Holds (update trie word) (word ∷ words)
unfolding at_root
update-Holds trie words word h =
    subst (λ t. Holds t (word ∷ words)) (sym (update-some trie h.dfa word h.reserved))
      (record {
        dfa = noted s (length word);
        reserved = refl;
        tables = noted-IsTables s (length word) walked.tables;
        stored = (
          record {
            end = s.now;
            path =
                walk-Extends s.dfa (noted s (length word)) 0 s.now word after_walk walked.arrived;
            output = noted_output s (length word) walked.tables;
          },
          All-Stored h.dfa (noted s (length word)) words
              (Extends-trans h.dfa s.dfa (noted s (length word)) walked.extends after_walk)
              h.stored,
        );
      })
  where
    s : Insertion
    s = insert_bytes (at_root h.dfa trie.state) word

    walked : Walked (at_root h.dfa trie.state) (insert_bytes (at_root h.dfa trie.state) word) word
    walked = insert_bytes-Walked (at_root h.dfa trie.state) word h.tables

    after_walk : Extends s.dfa (noted s (length word))
    after_walk = noted-Extends s (length word) walked.tables

unfoldable pub updates : TrieAc → List (List ℕ) → TrieAc
updates trie [] = trie
updates trie (word ∷ words) = updates (update trie word) words

later-Holds :
    (trie : TrieAc) (words later : List (List ℕ))
    → Holds trie words
    → Holds (updates trie later) words
unfolding updates
later-Holds trie words [] h = h
later-Holds trie words (w ∷ later) h =
    let longer : Holds (update trie w) (w ∷ words) = update-Holds trie words w h in
    later-Holds (update trie w) words later (record {
      dfa = longer.dfa;
      reserved = longer.reserved;
      tables = longer.tables;
      stored = longer.stored.1;
    })

updates-append :
    (trie : TrieAc) (earlier later : List (List ℕ))
    → updates trie (earlier ++ later) ≡ updates (updates trie earlier) later
unfolding updates
updates-append trie [] later = refl
updates-append trie (w ∷ earlier) later = updates-append (update trie w) earlier later

init-Holds : (ignore_case : Bool) → Holds (init new_trie ignore_case) []
unfolding init new_trie resize at_root find_node
init-Holds ignore_case = record {
  dfa = record { goto_t = [] ∷ []; output_t = 0 ∷ []; ignore_case = ignore_case };
  reserved = refl;
  tables = record {
    sized = refl;
    outputs = refl;
    now_in = omega arith;
    children = λ st c n e. absurd (no_child st c n e);
  };
  stored = tt;
}
  where
    no_child : (st c n : ℕ) → child ([] ∷ []) st c ≡ some n → ⊥
    no_child zero c n e = ground arith
    no_child (suc st) c n e = ground arith

-- In a new filter, with or without regard to case, each word that was inserted leads, byte by byte
-- and whatever was inserted before and behind it, to a state that marks at least its length.
pub updates-Stored :
    (ignore_case : Bool) (earlier later : List (List ℕ)) (word : List ℕ)
    → (dfa : AcDfa) × (((updates (init new_trie ignore_case) (earlier ++ word ∷ later)).reserve
          ≡ some dfa)
        × Stored dfa word)
unfolding updates
updates-Stored ignore_case earlier later word =
    subst (λ t. (dfa : AcDfa) × ((t.reserve ≡ some dfa) × Stored dfa word))
      (sym (updates-append (init new_trie ignore_case) earlier (word ∷ later)))
      (held.dfa, (held.reserved, held.stored.0))
  where
    start : TrieAc
    start = updates (init new_trie ignore_case) earlier

    held : Holds (updates (update start word) later) (word ∷ [])
    held = later-Holds (update start word) (word ∷ []) later (
        update-Holds start [] word
          (later-Holds (init new_trie ignore_case) [] earlier (init-Holds ignore_case)))
