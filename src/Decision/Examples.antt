-- ===== src/Decision/Examples.antt =====
-- loop.c: a packet for a URL that is forbidden, and a witness.
use school_project.Common.{◌≡◌, ◌↔◌, refl, none, some, [], codes}
use school_project.Query.{logic_query_match, logic_query_match_N}
use school_project.Trie.{init_trie_tree, trie_chk_rule, check_one, match, rule_text, or_not_found}
use school_project.Decision.{ConnectionInfo, Engine, Decision, block, get_decision, no_info}
use school_project.Decision.Blocking.{get_decision-blocks, IsHit}

abbrev one_url : Engine
one_url = record {
  url_match = λ s. some 1;
  keywords = λ s. [];
  keywords_N = λ s. [];
  query_rule_table = [];
  query_rule_table_N = [];
  trie = init_trie_tree;
  decimal = λ n. codes "5";
}

abbrev some_packet : ConnectionInfo
some_packet = record {
  user_id = codes "17";
  s_id = codes "8";
  r_id = codes "42";
  p_type = 5;
  url = codes "http://a";
  comment = codes "b";
}

no_packet : get_decision one_url none ≡ some no_info
unfolding get_decision
no_packet = refl

get_decision-blocks_example :
    (d : Decision) × (get_decision one_url (some some_packet) ≡ some d)
    × ((d ≡ block) ↔ IsHit 1 0 0)
unfolding logic_query_match logic_query_match_N trie_chk_rule check_one match rule_text or_not_found
    init_trie_tree
get_decision-blocks_example =
    get_decision-blocks one_url some_packet 1 [] []
      (record { count = 0; first = none; second = none }) refl refl refl refl
