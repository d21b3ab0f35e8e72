-- ===== src/Trie/Examples.antt =====
-- Runs of trie.c, and its theorems at concrete rules.
use school_project.Common.{
  ℕ, ◌≡◌, ◌<◌, ◌≢◌, ◌↔◌, refl, true, false, none, some, List, [], ◌∷◌, arith, Bytes, codes,
}
use school_project.Trie.{
  null, TrieState, c2i, init_trie_tree, Hit, match, trie_add_rule, trie_chk_rule, Verdict,
}
use school_project.Trie.Stored.{Indexed, all_indexed, Indexed-of_test}
use school_project.Trie.Match.{Accepted, match_decides}
use school_project.Trie.Check.{resource_rule-blocks, trie_chk_rule_exact, unidentified_user}
use school_project.Trie.{check_one, rule_text, node, no_children, update, has_child}
use school_project.Common.{◌⊎◌}
use school_project.Trie.Rules.{
  Change, add_user, add_resource, remove, AllIndexed, IsSound, kind, history, run, Answer,
  run-refines, match-run, init_trie_tree-IsSound,
}

-- Two users are blocked, a resource is blocked, and one user is released.
abbrev changes : List Change
changes =
    add_user (codes "17 5 *")
    ∷ add_user (codes "8 5 *")
    ∷ add_resource (codes "* 3 42")
    ∷ remove (codes "8 5 *")
    ∷ []

check :
    (s : TrieState) × (run init_trie_tree changes ≡ some s)
    × (match s (codes "17 5 99") none ≡ some (record { find = true; pattern_id = some 0 }))
    × (match s (codes "8 5 99") none ≡ some (record { find = false; pattern_id = none }))
    × (match s (codes "8 3 42") none ≡ some (record { find = true; pattern_id = some 1 }))
unfolding run match init_trie_tree
check = (_, refl, refl, refl, refl)

changes-Indexed : AllIndexed changes
unfolding all_indexed c2i
changes-Indexed = (
  Indexed-of_test (codes "17 5 *") refl,
  (
    Indexed-of_test (codes "8 5 *") refl,
    (Indexed-of_test (codes "* 3 42") refl, (Indexed-of_test (codes "8 5 *") refl, tt)),
  ),
)

asked-Indexed : Indexed (codes "17 5 99")
unfolding all_indexed c2i
asked-Indexed = Indexed-of_test (codes "17 5 99") refl

run-refines_example :
    (s' : TrieState) × (run init_trie_tree changes ≡ some s')
    × IsSound 4 s'
    × ((q : Bytes) → kind s' q ≡ history (kind init_trie_tree) changes q)
run-refines_example =
    run-refines 0 init_trie_tree changes (omega arith) init_trie_tree-IsSound changes-Indexed

match-run_example :
    (s : TrieState) × (run init_trie_tree changes ≡ some s)
    × (h : Hit) × (match s (codes "17 5 99") none ≡ some h)
    × Answer (history (λ q. none) changes) (codes "17 5 99") h
match-run_example = match-run changes (codes "17 5 99") (omega arith) changes-Indexed asked-Indexed

init_root_not_null : init_trie_tree.trie_tree_root ≢ null
unfolding init_trie_tree
init_root_not_null = init_trie_tree-IsSound.root

match_decides_example :
    (h : Hit) × (match init_trie_tree (codes "17 5 99") none ≡ some h)
    × ((h.find ≡ true) ↔ ((id : ℕ) × Accepted init_trie_tree.trie_tree_root (codes "17 5 99") id))
    × (h.find ≡ true
        → (id : ℕ) × Accepted init_trie_tree.trie_tree_root (codes "17 5 99") id
          × (h.pattern_id ≡ some id))
    × (h.find ≡ false → h.pattern_id ≡ none)
match_decides_example =
    match_decides init_trie_tree (codes "17 5 99") none init_root_not_null asked-Indexed

-- One rule about a resource, in the tree that `init_trie_tree` leaves.
resource_rule-blocks_example :
    (s' : TrieState) × (trie_add_rule init_trie_tree (codes "*") (codes "3") (codes "42") ≡ some s')
    × (h : Hit) × (check_one s' (codes "17") (codes "3") (codes "42") none ≡ some h)
    × (h.find ≡ true)
unfolding rule_text all_indexed c2i
resource_rule-blocks_example =
    resource_rule-blocks 0 init_trie_tree b'1' (codes "7") (codes "3") (codes "42") (omega arith)
      init_trie_tree-IsSound (omega arith) (Indexed-of_test (codes "* 3 42") refl)
      (Indexed-of_test (codes "17 3 42") refl)

-- User 17 asks about the page of user 8 and about the resource 42.
trie_chk_rule_exact_example :
    (v : Verdict) × (trie_chk_rule init_trie_tree
        (codes "17")
        (codes "8")
        3
        (codes "3")
        (codes "42")
        none
        none
      ≡ some v)
    × ((0 < v.count) ↔ (
        ((id : ℕ) × Accepted init_trie_tree.trie_tree_root
            (rule_text (codes "17") (codes "3") (codes "8"))
            id)
        ⊎ ((id : ℕ) × Accepted init_trie_tree.trie_tree_root
              (rule_text (codes "17") (codes "3") (codes "42"))
              id)))
unfolding rule_text all_indexed c2i
trie_chk_rule_exact_example =
    trie_chk_rule_exact init_trie_tree b'1' b'8' b'4' (codes "7") [] (codes "3") (codes "2") 3 none
      none init_root_not_null (λ e. omega arith) (Indexed-of_test (codes "17 3 8") refl)
      (Indexed-of_test (codes "17 3 42") refl)

-- A tree with the one rule "5".
abbrev one_rule : TrieState
one_rule = record {
  global_pattern_id_for_userid = 2;
  global_pattern_id_for_resourceid = 1;
  trie_tree_root = node 1 none (update no_children 5 (node 1 (some 0) no_children));
}

unidentified_user_example :
    trie_chk_rule one_rule [] (codes "8") 3 (codes "3") (codes "42") none none ≡ none
unfolding has_child
unidentified_user_example =
    unidentified_user one_rule 1 none (update no_children 5 (node 1 (some 0) no_children))
      (codes "8") (codes "3") (codes "42") 3 none none refl refl (λ e. omega arith)
