-- ===== src/Filter/Build/Tables.antt =====
-- The tables that update fills: each word that was inserted leads to a state of its own length.
use simple.Prelude.{
  ℕ, zero, suc, ◌≤◌, ◌<◌, ◌≡◌, refl, sym, ap, subst, ◌∙◌, false, ◌==◌, ◌&&◌, inl, inr,
  if◌then◌else◌, List, [], ◌∷◌, ◌++◌, length, get_or, set, arith, Bool-cases, Option-cases, lt→ltb,
  ==_iff, Option, none, some, length-append,
}
use simple.Filter.Trie.{Node, GotoTable, AcDfa, find_node, next_state, tolower}
use simple.Filter.Build.{emplace, Insertion, is_positive, insert_byte}

pub get_or-set {ℓ} :
    {A : Type ℓ} (xs : List A) (i j : ℕ) (v d : A)
    → i < length xs
    → get_or (set xs i v) j d ≡ (if i == j then v else get_or xs j d)
get_or-set [] i j v d h = absurd (omega arith)
get_or-set (x ∷ xs) zero zero v d h = refl
get_or-set (x ∷ xs) zero (suc j) v d h = ground arith
get_or-set (x ∷ xs) (suc i) zero v d h = ground arith
get_or-set (x ∷ xs) (suc i) (suc j) v d h = get_or-set xs i j v d (omega arith) ∙ ground arith

get_or_more {ℓ} :
    {A : Type ℓ} (xs : List A) (j : ℕ) (d : A) → get_or (xs ++ d ∷ []) j d ≡ get_or xs j d
get_or_more [] zero d = refl
get_or_more [] (suc j) d = refl
get_or_more (x ∷ xs) zero d = refl
get_or_more (x ∷ xs) (suc j) d = get_or_more xs j d

find_node-append :
    (nodes : List Node) (c ch n : ℕ)
    → find_node ch nodes ≡ none
    → find_node c (nodes ++ (record { character = ch; next = n }) ∷ [])
      ≡ (if ch == c then some n else find_node c nodes)
unfolding find_node
find_node-append [] c ch n h = refl
find_node-append (x ∷ nodes) c ch n h = ground (arith, find_node-append nodes c ch n)

-- The child of a state.
abbrev pub child : GotoTable → ℕ → ℕ → Option ℕ
child table st c = find_node c (get_or table st [])

-- A table with one state more, the child ch of now.
abbrev grown : GotoTable → ℕ → ℕ → ℕ → GotoTable
grown table now ch new = set table now (emplace (get_or table now []) ch new) ++ [] ∷ []

child-grown :
    (table : GotoTable) (now ch new st c : ℕ)
    → now < length table
    → child table now ch ≡ none
    → child (grown table now ch new) st c
      ≡ (if (now == st) && (ch == c) then some new else child table st c)
unfolding emplace
child-grown table now ch new st c h e =
    ap (find_node c) (
      get_or_more (set table now (emplace (get_or table now []) ch new)) st []
      ∙ get_or-set table now st (emplace (get_or table now []) ch new) [] h)
    ∙ elim (Bool-cases (now == st)) [
      | inl t ↦
          ap
            (λ b.
              find_node c (if b then emplace (get_or table now []) ch new else get_or table st []))
            t
          ∙ ap
              (λ o. find_node c (elim o [
                | none ↦ get_or table now [] ++ (record { character = ch; next = new }) ∷ []
                | some n ↦ get_or table now []
              ]))
              e
          ∙ find_node-append (get_or table now []) c ch new e
          ∙ ap (λ i. if ch == c then some new else child table i c) ((==_iff now st).0 t)
          ∙ ap (λ b. if b && (ch == c) then some new else child table st c) (sym t)
      | inr t ↦ rw (t) refl
    ]

pub length-set {ℓ} : {A : Type ℓ} (xs : List A) (i : ℕ) (v : A) → length (set xs i v) ≡ length xs
length-set [] i v = refl
length-set (x ∷ xs) zero v = refl
length-set (x ∷ xs) (suc i) v = ap suc (length-set xs i v)

pub record IsTables (s : Insertion) : Type 0 where
  pub sized : length s.dfa.goto_t ≡ suc s.state
  pub outputs : length s.dfa.output_t ≡ suc s.state
  pub now_in : s.now ≤ s.state
  pub children : (st c n : ℕ) → child s.dfa.goto_t st c ≡ some n → (0 < n) × (n ≤ s.state)

-- What insert_byte finds.
next-none :
    (s : Insertion) (c : ℕ)
    → IsTables s
    → child s.dfa.goto_t s.now c ≡ none
    → is_positive (next_state s.dfa.goto_t (some s.now) c) ≡ false
unfolding next_state is_positive
next-none s c t e = ground (arith, e)

next-some :
    (table : GotoTable) (st c n : ℕ)
    → st < length table
    → child table st c ≡ some n
    → next_state table (some st) c ≡ some n
unfolding next_state
next-some table st c n h e = ground (arith, e)

abbrev pub letter : AcDfa → ℕ → ℕ
letter dfa byte = if dfa.ignore_case then tolower byte else byte

add_state : Insertion → ℕ → Insertion
add_state s ch = record {
  dfa = record s.dfa {
    goto_t = grown s.dfa.goto_t s.now ch (suc s.state);
    output_t = s.dfa.output_t ++ 0 ∷ [];
  };
  state = suc s.state;
  now = suc s.state;
}

insert_byte_new :
    (s : Insertion) (byte : ℕ)
    → IsTables s
    → child s.dfa.goto_t s.now (letter s.dfa byte) ≡ none
    → insert_byte s byte ≡ add_state s (letter s.dfa byte)
unfolding insert_byte add_state
insert_byte_new s byte t e = rw (next-none s (letter s.dfa byte) t e) refl

insert_byte_old :
    (s : Insertion) (byte n : ℕ)
    → IsTables s
    → child s.dfa.goto_t s.now (letter s.dfa byte) ≡ some n
    → insert_byte s byte ≡ record s { now = n }
unfolding insert_byte is_positive
insert_byte_old s byte n t e =
    rw
      (
        next-some s.dfa.goto_t s.now (letter s.dfa byte) n (omega (arith, t.sized, t.now_in)) e,
        lt→ltb 0 n (t.children s.now (letter s.dfa byte) n e).0,
      )
      refl

-- What the tables hold stays.
pub record Extends (a b : AcDfa) : Type 0 where
  pub same_case : b.ignore_case ≡ a.ignore_case
  pub kept : (st c n : ℕ) → child a.goto_t st c ≡ some n → child b.goto_t st c ≡ some n
  pub grows : (i : ℕ) → get_or a.output_t i 0 ≤ get_or b.output_t i 0

pub record Inserted (s t : Insertion) (byte : ℕ) : Type 0 where
  pub tables : IsTables t
  pub extends : Extends s.dfa t.dfa
  pub reached : child t.dfa.goto_t s.now (letter s.dfa byte) ≡ some t.now

insert_old-Inserted :
    (s : Insertion) (byte n : ℕ)
    → IsTables s
    → child s.dfa.goto_t s.now (letter s.dfa byte) ≡ some n
    → Inserted s (record s { now = n }) byte
insert_old-Inserted s byte n t e = record {
  tables = record {
    sized = t.sized;
    outputs = t.outputs;
    now_in = (t.children s.now (letter s.dfa byte) n e).1;
    children = t.children;
  };
  extends = record { same_case = refl; kept = λ st c n h. h; grows = λ i. omega arith };
  reached = e;
}

module _ (s : Insertion) (ch : ℕ) (t : IsTables s) (e : child s.dfa.goto_t s.now ch ≡ none) where
  at_grown :
      (st c : ℕ)
      → child (grown s.dfa.goto_t s.now ch (suc s.state)) st c
        ≡ (if (s.now == st) && (ch == c) then some (suc s.state) else child s.dfa.goto_t st c)
  at_grown st c =
      child-grown s.dfa.goto_t s.now ch (suc s.state) st c (omega (arith, t.sized, t.now_in)) e

  add_state-IsTables : IsTables (add_state s ch)
  unfolding add_state
  add_state-IsTables = record {
    sized = omega (
      arith,
      t.sized,
      length-append
          (set s.dfa.goto_t s.now (emplace (get_or s.dfa.goto_t s.now []) ch (suc s.state)))
          ([] ∷ []),
      length-set s.dfa.goto_t s.now (emplace (get_or s.dfa.goto_t s.now []) ch (suc s.state)),
    );
    outputs = omega (arith, t.outputs, length-append s.dfa.output_t (0 ∷ []));
    now_in = omega arith;
    children = λ st c n h. ground (arith, h, at_grown st c, t.children st c n);
  }

  add_state-Extends : Extends s.dfa (add_state s ch).dfa
  unfolding add_state
  add_state-Extends = record {
    same_case = refl;
    kept = λ st c n h. ground (arith, h, at_grown st c, e);
    grows = λ i. omega (arith, get_or_more s.dfa.output_t i 0);
  }

  add_state_reached : child (add_state s ch).dfa.goto_t s.now ch ≡ some (add_state s ch).now
  unfolding add_state
  add_state_reached = ground (arith, at_grown s.now ch)

pub insert_byte-Inserted :
    (s : Insertion) (byte : ℕ) → IsTables s → Inserted s (insert_byte s byte) byte
insert_byte-Inserted s byte t = elim (Option-cases (child s.dfa.goto_t s.now (letter s.dfa byte))) [
  | inl e ↦
      subst (λ i. Inserted s i byte) (sym (insert_byte_new s byte t e))
        (record {
          tables = add_state-IsTables s (letter s.dfa byte) t e;
          extends = add_state-Extends s (letter s.dfa byte) t e;
          reached = add_state_reached s (letter s.dfa byte) t e;
        })
  | inr found ↦
      subst (λ i. Inserted s i byte) (sym (insert_byte_old s byte found.0 t found.1))
        (insert_old-Inserted s byte found.0 t found.1)
]
