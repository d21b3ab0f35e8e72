-- ===== src/Decision.antt =====
-- loop.c, `get_decision`: a packet is checked by the URLs, the two tables of expressions and the tree.
pub mod Blocking
mod Examples
use school_project.Common.{
  ℕ, ◌+◌, Bool, true, false, ◌&&◌, Option, none, some, List, if◌then◌else◌, ltb, ◌==◌, ◌>>=◌, Bytes,
  length,
}
use school_project.Query.{QueryTable, logic_query_match, logic_query_match_N}
use school_project.Trie.{TrieState, trie_chk_rule}

-- The fields of `struct connection_info` that the decision reads.
pub record ConnectionInfo : Type 0 where
  pub user_id : Bytes
  pub s_id : Bytes
  pub r_id : Bytes
  pub p_type : ℕ
  pub url : Bytes
  pub comment : Bytes

-- What the components keep: `url_match` and the keywords of both automata are functions here, and
-- `decimal` is what sprintf writes for "%d".
pub record Engine : Type 0 where
  pub url_match : Bytes → Option ℕ
  pub keywords : Bytes → List Bytes
  pub keywords_N : Bytes → List Bytes
  pub query_rule_table : QueryTable
  pub query_rule_table_N : QueryTable
  pub trie : TrieState
  pub decimal : ℕ → Bytes

-- `struct decision_result`
pub record DecisionResult : Type 0 where
  pub url : ℕ
  pub gk : ℕ
  pub monitor : ℕ
  pub trie : ℕ

-- The values -1, 0 and 1.
pub data Decision : Type 0 where
  no_info : Decision
  pass : Decision
  block : Decision

unfoldable pub init_result : DecisionResult
init_result = record { url = 0; gk = 0; monitor = 0; trie = 0 }

-- The tests on the four counts.
unfoldable pub decide : DecisionResult → Decision
decide dr =
    if dr.url == 0 && dr.gk == 0 && dr.monitor == 0 && dr.trie == 0
    then pass
    else if ltb 0 dr.monitor
    then (if dr.url == 0 && dr.gk == 0 && dr.trie == 0 then pass else block)
    else block

unfoldable pub get_decision : Engine → Option ConnectionInfo → Option Decision
unfolding decide init_result
get_decision e none = some no_info
get_decision e (some c) = do
  url ← e.url_match c.url
  lr ← logic_query_match e.keywords e.query_rule_table c.comment
  lr_N ← logic_query_match_N e.keywords_N e.query_rule_table_N c.comment
  v ← trie_chk_rule e.trie c.user_id c.s_id c.p_type (e.decimal c.p_type) c.r_id none none
  some (
      decide
        (record init_result { url = url; gk = length lr; monitor = length lr_N; trie = v.count }))
