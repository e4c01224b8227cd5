-- ===== src/Filter/Build.antt =====
-- The construction of the automaton in runtime/src/utils/trie_ac.cpp: init, update, build_fail_table,
-- convert_to_dfa and final. The reserved automaton that a call finds missing is undefined behaviour in
-- the source; here such a call changes nothing.
use simple.Prelude.{
  ℕ, zero, suc, ◌+◌, ◌*◌, Bool, true, false, not, ltb, leb, ◌==◌, ◌&&◌, ◌||◌, if◌then◌else◌, max,
  Option, none, some, List, [], ◌∷◌, ◌++◌, length, get_or, set, take, replicate, map,
}
use simple.Filter.Trie.{
  Node, GotoTable, AcDfa, TrieAc, find_node, next_state, or_root, tolower, is_nil,
}
pub mod Tables
pub mod Lookup

-- std::vector::resize
unfoldable pub resize {ℓ} : {A : Type ℓ} → List A → ℕ → A → List A
resize xs zero a = []
resize [] (suc n) a = a ∷ resize [] n a
resize (x ∷ xs) (suc n) a = x ∷ resize xs n a

-- std::unordered_set::emplace: a character that is there stays.
unfoldable pub emplace : List Node → ℕ → ℕ → List Node
emplace nodes ch next = elim (find_node ch nodes) [
  | none ↦ nodes ++ (record { character = ch; next = next }) ∷ []
  | some n ↦ nodes
]

unfoldable pub new_trie : TrieAc
new_trie = record { data_ = none; reserve = none; fail_table = []; state = 0 }

abbrev pub or_new : Option AcDfa → AcDfa
or_new none = record { goto_t = []; output_t = []; ignore_case = false }
or_new (some dfa) = dfa

-- A reserved automaton is cut down to its root, which keeps its nodes.
unfoldable pub init : TrieAc → Bool → TrieAc
init trie ignore_case =
    let dfa = or_new trie.reserve in
    record trie {
      reserve = some (record {
        goto_t = resize dfa.goto_t 1 [];
        output_t = resize dfa.output_t 1 0;
        ignore_case = ignore_case;
      });
      state = 0;
    }

-- The loop of update: the automaton, state_, and where the word ends.
pub record Insertion : Type 0 where
  pub dfa : AcDfa
  pub state : ℕ
  pub now : ℕ

unfoldable pub is_positive : Option ℕ → Bool
is_positive none = false
is_positive (some n) = ltb 0 n

unfoldable pub insert_byte : Insertion → ℕ → Insertion
insert_byte s byte =
    let ch = if s.dfa.ignore_case then tolower byte else byte in
    let next = next_state s.dfa.goto_t (some s.now) ch in
    let new = suc s.state in
    if is_positive next then record s { now = or_root next } else record {
      dfa = record s.dfa {
        goto_t = set s.dfa.goto_t s.now (emplace (get_or s.dfa.goto_t s.now []) ch new) ++ [] ∷ [];
        output_t = s.dfa.output_t ++ 0 ∷ [];
      };
      state = new;
      now = new;
    }

unfoldable pub insert_bytes : Insertion → List ℕ → Insertion
insert_bytes s [] = s
insert_bytes s (byte ∷ strv) = insert_bytes (insert_byte s byte) strv

unfoldable pub update : TrieAc → List ℕ → TrieAc
update trie strv = elim trie.reserve [
  | none ↦ trie
  | some dfa ↦
      let s = insert_bytes (record { dfa = dfa; state = trie.state; now = 0 }) strv in
      record trie {
        reserve = some (record s.dfa {
          output_t = set s.dfa.output_t s.now (max (get_or s.dfa.output_t s.now 0) (length strv));
        });
        state = s.state;
      }
]

-- The tables while the fail links are built.
pub record Links : Type 0 where
  pub fail_table : List (Option ℕ)
  pub output_t : List ℕ
  pub queue : List ℕ

-- `do { prev_state = fail_table_[prev_state]; ret = next_state(...) } while (ret < 0)`: each round goes
-- to a shorter word, so as many rounds as states are enough.
unfoldable pub follow : ℕ → GotoTable → List (Option ℕ) → Option ℕ → ℕ → ℕ
follow zero table fail_table prev ch = 0
follow (suc fuel) table fail_table prev ch =
    let back = get_or fail_table (or_root prev) none in
    elim (next_state table back ch) [ some ret ↦ ret | none ↦ follow fuel table fail_table back ch ]

unfoldable pub is_some {ℓ} : {A : Type ℓ} → Option A → Bool
is_some none = false
is_some (some a) = true

unfoldable pub link : GotoTable → ℕ → Links → Node → Links
link table state links it =
    let ret = follow (length table) table links.fail_table (some state) it.character in
    let val = get_or links.output_t ret 0 in
    if is_some (get_or links.fail_table it.next none) then links else record {
      fail_table = set links.fail_table it.next (some ret);
      output_t =
          if ltb 0 val
          then set links.output_t it.next (max val (get_or links.output_t it.next 0))
          else links.output_t;
      queue = links.queue ++ it.next ∷ [];
    }

unfoldable pub link_each : GotoTable → ℕ → Links → List Node → Links
link_each table state links [] = links
link_each table state links (it ∷ nodes) = link_each table state (link table state links it) nodes

-- The loop over the queue; each state enters it once.
unfoldable pub link_queue : ℕ → GotoTable → Links → Links
link_queue zero table links = links
link_queue (suc fuel) table links = elim links.queue [
  | [] ↦ links
  | state ∷ queue ↦
      link_queue fuel table
        (link_each table state (record links { queue = queue }) (get_or table state []))
]

unfoldable pub link_root : List (Option ℕ) → List Node → List (Option ℕ)
link_root fail_table [] = fail_table
link_root fail_table (it ∷ nodes) = link_root (set fail_table it.next (some 0)) nodes

-- The entries of an earlier build are cleared.
unfoldable pub build_fail_table : AcDfa → List (Option ℕ) → Links
build_fail_table dfa old =
    let root = get_or dfa.goto_t 0 [] in
    if is_nil dfa.goto_t
    then record { fail_table = old; output_t = dfa.output_t; queue = [] }
    else link_queue (length dfa.goto_t) dfa.goto_t (record {
      fail_table = link_root (replicate (length dfa.goto_t) none) root;
      output_t = dfa.output_t;
      queue = map (λ it. it.next) root;
    })

-- The loop over the bytes from ch on.
unfoldable pub convert_bytes : ℕ → ℕ → List (Option ℕ) → ℕ → GotoTable × List ℕ → GotoTable × List ℕ
convert_bytes zero ch fail_table state s = s
convert_bytes (suc left) ch fail_table state s =
    let next = next_state s.0 (some state) ch in
    let other = next_state s.0 (get_or fail_table state none) ch in
    convert_bytes left (suc ch) fail_table state (
      if is_positive next
      then (s.0, s.1 ++ or_root next ∷ [])
      else (if is_positive other
          then (set s.0 state (emplace (get_or s.0 state []) ch (or_root other)), s.1)
          else s))

unfoldable pub convert_queue : ℕ → List (Option ℕ) → GotoTable → List ℕ → GotoTable
convert_queue zero fail_table table queue = table
convert_queue (suc fuel) fail_table table [] = table
convert_queue (suc fuel) fail_table table (state ∷ queue) =
    let r = convert_bytes 256 0 fail_table state (table, queue) in
    convert_queue fuel fail_table r.0 r.1

unfoldable pub convert_to_dfa : List (Option ℕ) → GotoTable → GotoTable
convert_to_dfa fail_table table =
    if is_nil table || is_nil fail_table
    then table
    else convert_queue (length table) fail_table table (map (λ it. it.next) (get_or table 0 []))

-- The automaton that was in use is reserved, unless a reader still holds it.
unfoldable pub final : Bool → TrieAc → TrieAc
final held trie = elim trie.reserve [
  | none ↦ trie
  | some dfa ↦
      let links = build_fail_table dfa trie.fail_table in
      record trie {
        data_ = some (record dfa {
          goto_t = convert_to_dfa links.fail_table dfa.goto_t;
          output_t = links.output_t;
        });
        reserve = if held then none else trie.data_;
        fail_table = links.fail_table;
      }
]
