-- ===== src/RuleAccepter/Blocks.antt =====
-- rule_accepter.c and trie.c: a command reaches the tree.
use school_project.Common.{
  ℕ, ◌+◌, ◌-◌, ◌^◌, ◌<◌, ◌≡◌, sym, ◌∙◌, true, none, some, [], ◌∷◌, Bytes, length,
}
use school_project.Trie.{TrieState, Hit, check_one, rule_text, insert_for_resourceid}
use school_project.Trie.Stored.{Indexed}
use school_project.Trie.Rules.{IsSound}
use school_project.Trie.Check as Trie_check
use school_project.RuleAccepter.{Action, rule_process}
use school_project.RuleAccepter as Accepter
use school_project.RuleAccepter.Fields.{IsField}
use school_project.RuleAccepter.Wanted.{IsConfig, Config, write, resourceid, enable}
use school_project.RuleAccepter.Commands.{rule_process-write}

-- Let the resource, the action and a subject consist of digits, '*' and blanks, the characters that
-- `c2i` has an index for, let the subject be one field that is not empty, let the resource and the
-- action have no bar and together fewer than 253 bytes, and let the tree be a sound one whose counters
-- are all below 2 ^ 15 - 1. Then the command that enables a rule for the resource makes one call, which
-- changes the tree so that a check of the action on the resource by the subject is reported.
pub resourceid_command-blocks :
    (config : Config) (n : ℕ) (s : TrieState) (c : ℕ) (u action r : Bytes)
    → IsConfig config
    → IsField r
    → IsField action
    → length r + length action < 253
    → n < 2 ^ 15 - 1
    → IsSound n s
    → Trie_check.IsField (c ∷ u)
    → Indexed (rule_text (b'*' ∷ []) action r)
    → Indexed (rule_text (c ∷ u) action r)
    → (rule_process (write config (resourceid r action enable))
        ≡ some (Accepter.insert_for_resourceid (rule_text (b'*' ∷ []) action r) ∷ []))
      × (s' : TrieState) × (insert_for_resourceid s (rule_text (b'*' ∷ []) action r) ≡ some s')
      × (h : Hit) × (check_one s' (c ∷ u) action r none ≡ some h)
      × (h.find ≡ true)
unfolding rule_text
resourceid_command-blocks config n s c u action r v f g short small sound subject i j =
    let (s', changed, h, checked, found) =
      Trie_check.resource_rule-blocks n s c u action r small sound subject i j in
    (
      (rule_process-write config (resourceid r action enable) v (f, g, short)).0,
      s',
      sym (Trie_check.trie_add_rule-resource s action r sound.root) ∙ changed,
      h,
      checked,
      found,
    )
