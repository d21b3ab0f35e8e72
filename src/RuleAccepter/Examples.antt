-- ===== src/RuleAccepter/Examples.antt =====
-- rule_accepter.c: the commands of its comments, and witnesses.
use school_project.Common.{true, ◌≡◌, refl, none, some, [], ◌∷◌, codes, arith}
use school_project.Unicode.{strtounicode}
use school_project.RuleAccepter.{rule_process, add_str, remember, insert_for_userid, Action}
use school_project.RuleAccepter.Faults.{rule_process-few_bars, bars, needed}
use school_project.RuleAccepter.Blocks.{resourceid_command-blocks}
use school_project.RuleAccepter as Accepter
use school_project.Trie.{
  TrieState, init_trie_tree, Hit, check_one, rule_text, c2i, insert_for_resourceid,
}
use school_project.Trie.Stored.{all_indexed, Indexed-of_test}
use school_project.Trie.Rules.{init_trie_tree-IsSound}
use school_project.RuleAccepter.{first}
use school_project.RuleAccepter.Fields.{is_field, IsField-of_test}
use school_project.RuleAccepter.Wanted.{
  write, Config, keyword, enable, gk, down, resourceid, IsConfig,
}
use school_project.RuleAccepter.Commands.{rule_process-write}

abbrev some_config : Config
some_config = record {
  configid = codes "111";
  ctime = codes "2015-6-8";
  stime = codes "s";
  etime = codes "e";
  webtype = codes "00";
}

userid_command :
    rule_process (codes "2|222|userid|5|2015-6-8|stime|etime|1|00|")
    ≡ some (insert_for_userid (codes "userid 5 *") ∷ [])
unfolding rule_process
userid_command = refl

no_bars : rule_process (codes "1|111") ≡ none
unfolding rule_process
no_bars = refl

some_config-IsConfig : IsConfig some_config
unfolding is_field
some_config-IsConfig = (
  IsField-of_test (codes "111") refl,
  IsField-of_test (codes "2015-6-8") refl,
  IsField-of_test (codes "s") refl,
  IsField-of_test (codes "e") refl,
  IsField-of_test (codes "00") refl,
)

rule_process-write_example :
    (rule_process (codes "1|111|ab|2015-6-8|s|e|1|00|2|2|")
      ≡ some
          (add_str (codes "ab") ∷ add_str (codes "ab") ∷ remember (codes "ab") (codes "ab") ∷ []))
    × (rule_process (codes "1|111|ab|2015-6-8|s|e|1|00|2|") ≡ some [])
unfolding strtounicode is_field
rule_process-write_example =
    rule_process-write some_config (keyword (codes "ab") enable gk down) some_config-IsConfig
      (IsField-of_test (codes "ab") refl, omega arith)

rule_process-few_bars_example : rule_process (codes "1|111|ab|2015-6-8|s|e|1|00|2") ≡ none
unfolding bars needed first
rule_process-few_bars_example =
    rule_process-few_bars (codes "1|111|ab|2015-6-8|s|e|1|00|2") (omega arith)

resourceid_command-blocks_example :
    (rule_process (write some_config (resourceid (codes "42") (codes "3") enable))
      ≡ some (Accepter.insert_for_resourceid (rule_text (codes "*") (codes "3") (codes "42")) ∷ []))
    × (s' : TrieState) × (insert_for_resourceid init_trie_tree
          (rule_text (codes "*") (codes "3") (codes "42"))
        ≡ some s')
    × (h : Hit) × (check_one s' (codes "17") (codes "3") (codes "42") none ≡ some h)
    × (h.find ≡ true)
unfolding rule_text all_indexed c2i is_field
resourceid_command-blocks_example =
    resourceid_command-blocks some_config 0 init_trie_tree b'1' (codes "7") (codes "3") (codes "42")
      some_config-IsConfig (IsField-of_test (codes "42") refl) (IsField-of_test (codes "3") refl)
      (omega arith) (omega arith) init_trie_tree-IsSound (omega arith)
      (Indexed-of_test (codes "* 3 42") refl) (Indexed-of_test (codes "17 3 42") refl)
