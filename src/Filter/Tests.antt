-- ===== src/Filter/Tests.antt =====
-- The filter on small texts; the first is the example in trie_ac.h.
use simple.Prelude.{
  ℕ, ◌≡◌, ◌≤◌, ◌*◌, refl, true, false, if◌then◌else◌, some, List, [], ◌∷◌, ◌++◌, codes, length,
}
use simple.Filter.Utf8.{cnt_utf8, cnt_from, next_utf8, continuation, announced}
use simple.Filter.Utf8.Pieces.{Splits, cnt_utf8-Splits}
use simple.Filter.Trie.{
  AcDfa, TrieAc, find_node, next_state, tolower, step, finds, in_trie, mark_range, add_idx, marks,
  marks_of, run_end, build_text, replace_marked, replace,
}
use simple.Filter.Trie.Runs.{render}
use simple.Filter.Trie.Replacement.{replace-in_trie}
use simple.Filter.Build.{
  resize, emplace, new_trie, init, is_positive, insert_byte, insert_bytes, update, follow, is_some,
  link, link_each, link_queue, link_root, build_fail_table, convert_bytes, convert_queue,
  convert_to_dfa, final,
}
use simple.Filter.Build.Lookup.{updates, Stored, updates-Stored}

abbrev keywords : List (List ℕ)
keywords = codes "ra" ∷ codes "rr" ∷ codes "ta" ∷ codes "aa" ∷ codes "hello" ∷ []

abbrev filter : TrieAc
filter = final false (updates (init new_trie false) keywords)

abbrev second : TrieAc
second = final false (update (init filter true) (codes "Ra"))

keywords_replaced : replace filter (codes "hello raarrata") ≡ codes "***** ********"
unfolding replace marks_of marks add_idx mark_range replace_marked build_text run_end step
    next_state find_node tolower cnt_utf8 cnt_from next_utf8 continuation announced updates init
    new_trie resize update insert_bytes insert_byte emplace is_positive final build_fail_table
    link_root link_queue link_each link follow is_some convert_to_dfa convert_queue convert_bytes
keywords_replaced = refl

second_replaced : replace second (codes "hello raarrata") ≡ codes "hello **ar**ta"
unfolding replace marks_of marks add_idx mark_range replace_marked build_text run_end step
    next_state find_node tolower cnt_utf8 cnt_from next_utf8 continuation announced updates init
    new_trie resize update insert_bytes insert_byte emplace is_positive final build_fail_table
    link_root link_queue link_each link follow is_some convert_to_dfa convert_queue convert_bytes
second_replaced = refl

-- The third build starts from the root of the first, with its nodes: the new word is lost.
abbrev third : TrieAc
third = final false (update (init second false) (codes "hi"))

third_loses : in_trie third (codes "hi") ≡ false
unfolding in_trie finds step next_state find_node tolower updates init new_trie resize update
    insert_bytes insert_byte emplace is_positive final build_fail_table link_root link_queue
    link_each link follow is_some convert_to_dfa convert_queue convert_bytes
third_loses = refl

-- A character of three bytes, one byte, and two bytes that announce what does not follow.
abbrev torn : List ℕ
torn = 228 ∷ 189 ∷ 160 ∷ 33 ∷ 228 ∷ 189 ∷ []

torn_pieces : cnt_utf8 torn ≡ 4
unfolding cnt_utf8 cnt_from next_utf8 continuation announced
torn_pieces = refl

cnt_utf8-Splits_example :
    Splits torn (cnt_utf8 torn) × (cnt_utf8 torn ≤ length torn) × (length torn ≤ 6 * cnt_utf8 torn)
cnt_utf8-Splits_example = cnt_utf8-Splits torn

replace-in_trie_example : replace filter (codes "a ta") ≡ (
    if in_trie filter (codes "a ta")
    then render [] (marks_of filter (codes "a ta")) (codes "a ta")
    else codes "a ta")
replace-in_trie_example = replace-in_trie filter (codes "a ta")

updates-Stored_example :
    (dfa : AcDfa) × (((updates
          (init new_trie false)
          ((codes "ra" ∷ []) ++ codes "rr" ∷ (codes "ta" ∷ []))).reserve
        ≡ some dfa)
      × Stored dfa (codes "rr"))
updates-Stored_example = updates-Stored false (codes "ra" ∷ []) (codes "ta" ∷ []) (codes "rr")
