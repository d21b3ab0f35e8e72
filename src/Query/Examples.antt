-- ===== src/Query/Examples.antt =====
-- Runs of query_table.c, and its theorems at concrete queries.
use school_project.Common.{
  ℕ, ◌≡◌, ◌≢◌, ◌<◌, ◌≤◌, ◌↔◌, ◌++◌, refl, true, Option, none, some, List, [], ◌∷◌, arith, Bytes,
  codes, length, get_elem?, bytes_eq,
}
use mathlib.Core.List.{Memᴰ}
use school_project.Query.{
  QueryExpression, is_logic, still_has_logic, skip_blanks, up_to_blank, push_word, push_op,
  parse_loop, set_full_text, parse_expression, populate_tf, evaluate, in_match_word_list, match_,
  add_query_rule, add_words, del_query_rule, logic_query_match, max_logic_hit_result_len,
}
use school_project.Query.Parse.{
  Term, AllTerms, IsWord, render, words, ops, parse-render, is_word, IsWord-of_test,
}
use school_project.Query.Table.{
  Evaluates, Hits, logic_query_match_exact, del_query_rule_exact, add_query_rule-del,
}

-- The query of `init_loop`, "Li & Hong # Zhi".
abbrev terms : List Term
terms =
    record { gap = 1; op = b'&'; lead = 1; word = codes "Hong" }
    ∷ record { gap = 1; op = b'#'; lead = 1; word = codes "Zhi" }
    ∷ []

init_loop_text : render (codes "Li") terms ≡ codes "Li & Hong # Zhi"
init_loop_text = refl

-- A blank inside a word ends it: the rest of "Li Hong" is dropped.
phrase_is_cut :
    parse_expression (codes "Li Hong # Zhi")
    ≡ some (record {
      logic_ops = b'#' ∷ [];
      query = codes "Li" ∷ codes "Zhi" ∷ [];
      tf = [];
      full_text = codes "Li Hong # Zhi";
    })
unfolding parse_expression set_full_text parse_loop still_has_logic is_logic push_op push_word
    up_to_blank skip_blanks
phrase_is_cut = refl

Hong-IsWord : IsWord (codes "Hong")
unfolding is_word is_logic
Hong-IsWord = IsWord-of_test (codes "Hong") refl

Zhi-IsWord : IsWord (codes "Zhi")
unfolding is_word is_logic
Zhi-IsWord = IsWord-of_test (codes "Zhi") refl

Li-IsWord : IsWord (codes "Li")
unfolding is_word is_logic
Li-IsWord = IsWord-of_test (codes "Li") refl

terms-AllTerms : AllTerms terms
unfolding is_logic
terms-AllTerms = (
  (refl, Hong-IsWord, omega arith, omega arith),
  ((refl, Zhi-IsWord, omega arith, omega arith), tt),
)

abbrev rule : QueryExpression
rule = record {
  logic_ops = ops terms;
  query = codes "Li" ∷ words terms;
  tf = [];
  full_text = render (codes "Li") terms;
}

parse-render_example : parse_expression (render (codes "Li") terms) ≡ some rule
parse-render_example =
    parse-render (codes "Li") terms (omega arith) (omega arith) Li-IsWord (omega arith)
      terms-AllTerms

-- The text has the keywords "Zhi" and "Li".
abbrev found : Bytes → List Bytes
found text = codes "Zhi" ∷ codes "Li" ∷ []

rule-Evaluates : Evaluates found (some rule ∷ none ∷ []) []
unfolding match_ evaluate populate_tf in_match_word_list bytes_eq
rule-Evaluates = ((true, refl), tt)

logic_query_match_exact_example :
    (hits : List ℕ) × ((j : ℕ) → Memᴰ j hits ↔ Hits found (some rule ∷ none ∷ []) [] j)
    × (length hits ≤ max_logic_hit_result_len
        → logic_query_match found (some rule ∷ none ∷ []) [] ≡ some hits)
    × (max_logic_hit_result_len < length hits
        → logic_query_match found (some rule ∷ none ∷ []) [] ≡ none)
logic_query_match_exact_example =
    logic_query_match_exact found (some rule ∷ none ∷ []) [] rule-Evaluates

del_query_rule_exact_example :
    (length (del_query_rule (some rule ∷ none ∷ []) (codes "free")) ≡ 2)
    × ((j : ℕ) (e : QueryExpression)
        → (get_elem? (del_query_rule (some rule ∷ none ∷ []) (codes "free")) j ≡ some (some e))
          ↔ ((get_elem? (some rule ∷ none ∷ []) j ≡ some (some e)) × (e.full_text ≢ codes "free")))
del_query_rule_exact_example = del_query_rule_exact (some rule ∷ none ∷ []) (codes "free")

-- An automaton that only remembers its words.
abbrev remember : List Bytes → Bytes → Option (List Bytes)
remember s w = some (w ∷ s)

add_query_rule-del_example :
    (s' : List Bytes) × (e : QueryExpression) × (add_query_rule remember
        ([], none ∷ [])
        (render (codes "Li") terms)
      ≡ some (s', (none ∷ []) ++ some e ∷ []))
    × (add_words remember [] (codes "Li" ∷ words terms) ≡ some s')
    × (e.full_text ≡ render (codes "Li") terms)
    × (del_query_rule ((none ∷ []) ++ some e ∷ []) (render (codes "Li") terms)
        ≡ del_query_rule (none ∷ []) (render (codes "Li") terms) ++ none ∷ [])
add_query_rule-del_example =
    add_query_rule-del remember [] (none ∷ []) (codes "Li") terms (λ s v. (v ∷ s, refl))
      (omega arith) (omega arith) (omega arith) Li-IsWord (omega arith) terms-AllTerms
