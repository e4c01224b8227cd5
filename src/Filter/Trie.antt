-- ===== src/Filter/Trie.antt =====
-- The automaton of runtime/src/utils/trie_ac.cpp and .h and its use: next_state, in_trie and replace.
-- An int32_t state is a number, or none for a negative one. A node_set is the list of its nodes, in
-- the order of their insertion; std::unordered_set does not promise an order.
use simple.Prelude.{
  ℕ, zero, suc, ◌+◌, ◌-◌, Bool, true, false, not, ltb, leb, ◌==◌, ◌&&◌, if◌then◌else◌, Option, none,
  some, List, [], ◌∷◌, ◌++◌, length, get_or, set, take, drop, replicate,
}
use simple.Filter.Utf8.{cnt_utf8}
pub mod Runs
pub mod Rendering
pub mod Replacement

pub record Node : Type 0 where
  pub character : ℕ
  pub next : ℕ

abbrev pub GotoTable : Type 0
GotoTable = List (List Node)

pub record AcDfa : Type 0 where
  pub goto_t : GotoTable
  pub output_t : List ℕ
  pub ignore_case : Bool

-- data_, reserve_, fail_table_ and state_.
pub record TrieAc : Type 0 where
  pub data_ : Option AcDfa
  pub reserve : Option AcDfa
  pub fail_table : List (Option ℕ)
  pub state : ℕ

unfoldable pub find_node : ℕ → List Node → Option ℕ
find_node ch [] = none
find_node ch (node ∷ nodes) =
    let rest = find_node ch nodes in if node.character == ch then some node.next else rest

unfoldable pub next_state : GotoTable → Option ℕ → ℕ → Option ℕ
next_state table none ch = some 0
next_state table (some state) ch =
    if leb (length table) state then some 0 else elim (find_node ch (get_or table state [])) [
      | none ↦ if state == 0 then some 0 else none
      | some n ↦ some n
    ]

-- tolower in the C locale.
unfoldable pub tolower : ℕ → ℕ
tolower ch = if leb 65 ch && leb ch 90 then ch + 32 else ch

-- `if (state < 0) state = 0`
abbrev pub or_root : Option ℕ → ℕ
or_root none = 0
or_root (some state) = state

unfoldable pub step : AcDfa → ℕ → ℕ → ℕ
step dfa state ch =
    or_root (next_state dfa.goto_t (some state) (if dfa.ignore_case then tolower ch else ch))

-- The loop of in_trie.
unfoldable pub finds : AcDfa → ℕ → List ℕ → Bool
finds dfa state [] = false
finds dfa state (ch ∷ strv) =
    let later = finds dfa (step dfa state ch) strv in
    if ch == 0
    then false
    else if ltb 0 (get_or dfa.output_t (step dfa state ch) 0)
    then true
    else later

abbrev pub is_nil {ℓ} : {A : Type ℓ} → List A → Bool
is_nil [] = true
is_nil (x ∷ xs) = false

unfoldable pub in_trie : TrieAc → List ℕ → Bool
in_trie trie strv = elim (trie.data_) [
  | none ↦ false
  | some dfa ↦ if is_nil dfa.goto_t then false else finds dfa 0 strv
]

unfoldable pub mark_range : List Bool → ℕ → ℕ → List Bool
mark_range idx from zero = idx
mark_range idx from (suc n) = mark_range (set idx from true) (suc from) n

-- add_idx. `pos - max_sz` below 0 wraps to a place behind pos, and the loop does not run.
unfoldable pub add_idx : AcDfa → ℕ → ℕ → List Bool → ℕ → List Bool
add_idx dfa sz state replace_idx pos =
    let max_sz = get_or dfa.output_t state 0 in
    let sized = if is_nil replace_idx then replicate sz false else replace_idx in
    if ltb 0 max_sz
    then (if ltb pos max_sz then sized else mark_range sized (pos - max_sz) max_sz)
    else replace_idx

-- The loop of replace over the bytes from place i on.
unfoldable pub marks : AcDfa → ℕ → ℕ → ℕ → List Bool → List ℕ → List Bool
marks dfa sz i state replace_idx [] = replace_idx
marks dfa sz i state replace_idx (ch ∷ str) =
    let next = step dfa state ch in
    let later = marks dfa sz (suc i) next (add_idx dfa sz next replace_idx (i + 1)) str in
    if ch == 0 then replace_idx else later

-- `for (; end < sz; ++end) if (!replace_idx[end]) break`
unfoldable pub run_end : ℕ → List Bool → ℕ → ℕ → ℕ
run_end zero replace_idx sz end = end
run_end (suc fuel) replace_idx sz end =
    let further = run_end fuel replace_idx sz (suc end) in
    if ltb end sz then (if get_or replace_idx end false then further else end) else end

-- The loop that builds temp, and the append behind it. Each round goes on by a byte at least.
unfoldable pub build_text : ℕ → List ℕ → List Bool → ℕ → ℕ → List ℕ → List ℕ
build_text zero str replace_idx start last temp = temp
build_text (suc fuel) str replace_idx start last temp =
    let sz = length str in
    let end = run_end sz replace_idx sz (start + 1) in
    let stars = replicate (cnt_utf8 (take (end - start) (drop start str))) 42 in
    let marked = get_or replace_idx start false in
    let further =
      build_text fuel str replace_idx (if marked then end else start + 1)
        (if marked then end else last)
        (if marked then temp ++ (take (start - last) (drop last str) ++ stars) else temp) in
    if ltb start sz
    then further
    else if ltb last sz
    then temp ++ take (sz - last) (drop last str)
    else temp

unfoldable pub replace_marked : List Bool → List ℕ → List ℕ
replace_marked replace_idx str =
    if is_nil replace_idx then str else build_text (length str + 1) str replace_idx 0 0 []

-- The marks that replace puts on the bytes of a text, [] where it puts none.
unfoldable pub marks_of : TrieAc → List ℕ → List Bool
marks_of trie str = elim (trie.data_) [
  | none ↦ []
  | some dfa ↦ if is_nil dfa.goto_t then [] else marks dfa (length str) 0 0 [] str
]

unfoldable pub replace : TrieAc → List ℕ → List ℕ
replace trie str = replace_marked (marks_of trie str) str
