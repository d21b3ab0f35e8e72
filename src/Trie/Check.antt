-- ===== src/Trie/Check.antt =====
-- trie.c, `trie_add_rule` and `trie_chk_rule`: what the callers of the tree get.
use school_project.Common.{
  ℕ, ◌+◌, ◌-◌, ◌<◌, ◌^◌, ◌≡◌, ◌≢◌, ◌↔◌, ◌⊎◌, inl, inr, refl, ◌∙◌, true, Option, none, some, [], ◌∷◌,
  ◌++◌, arith, Bytes, bytes_eq_refl, Bool-cases,
}
use mathlib.Core.Logic.{⊎_elim}
use school_project.Trie.{
  Node, TrieState, has_child, match_, match, check_one, rule_text, Hit, Verdict, trie_add_rule,
  trie_chk_rule, or_not_found, found_count, insert_for_resourceid, null, node, if_no_root, no_hit,
}
use school_project.Trie.Stored.{accepts, behind_field, stored, Indexed}
use school_project.Trie.Match.{Accepted, match_decides}
use school_project.Trie.Rules.{IsSound, apply-Changes, add_resource, apply, Kind, resource, kind_of}

-- A field of a rule: some characters, none of them a blank.
abbrev pub IsField : Bytes → Type 0
IsField [] = Unit
IsField (c ∷ s) = (c ≢ b' ') × IsField s

behind_field-of : (u rest : Bytes) → IsField u → behind_field (u ++ (b' ' ∷ rest)) ≡ b' ' ∷ rest
unfolding behind_field
behind_field-of [] rest h = refl
behind_field-of (c ∷ u) rest h = ground (arith, behind_field-of u rest h.1)

rooted : {A : Type 0} (t : Node) (fail go : A) → t ≢ null → if_no_root t fail go ≡ go
rooted null fail go h = absurd (h refl)
rooted (node ref id child) fail go h = refl

check_one-rooted :
    (s : TrieState) (subject action object : Bytes) (i : Option ℕ)
    → s.trie_tree_root ≢ null
    → check_one s subject action object i ≡ match s (rule_text subject action object) i
unfolding check_one
check_one-rooted s subject action object i h =
    rooted s.trie_tree_root (some (no_hit i)) (match s (rule_text subject action object) i) h

pub trie_add_rule-resource :
    (s : TrieState) (action r : Bytes)
    → s.trie_tree_root ≢ null
    → trie_add_rule s (b'*' ∷ []) action r
      ≡ insert_for_resourceid s (rule_text (b'*' ∷ []) action r)
unfolding trie_add_rule
trie_add_rule-resource s action r h =
    rooted s.trie_tree_root (some s) (insert_for_resourceid s (rule_text (b'*' ∷ []) action r)) h

accepts_self : (p : Bytes) → accepts p p ≡ true
unfolding accepts
accepts_self [] = refl
accepts_self (c ∷ p) = ground (arith, accepts_self p)

-- The text of a rule for all subjects accepts every subject that is one non-empty field.
accepts-any_subject :
    (c : ℕ) (u action r : Bytes)
    → IsField (c ∷ u)
    → accepts (rule_text (b'*' ∷ []) action r) (rule_text (c ∷ u) action r) ≡ true
unfolding accepts rule_text
accepts-any_subject c u action r h =
    let rest = action ++ (b' ' ∷ r) in
    let self : accepts (b' ' ∷ rest) (behind_field (c ∷ (u ++ (b' ' ∷ rest)))) ≡ true =
      rw (behind_field-of (c ∷ u) rest h) (accepts_self (b' ' ∷ rest)) in
    ground arith

held-of_kind : (o : Option ℕ) {k : Kind} → kind_of o ≡ some k → (id : ℕ) × (o ≡ some id)
held-of_kind none e = cc
held-of_kind (some id) e = (id, refl)

-- Let the action, the resource and a subject consist of digits, '*' and blanks, the characters that
-- `c2i` has an index for, let the subject be one field that is not empty, and let the tree be a sound
-- one whose counters are all below 2 ^ 15 - 1. After `trie_add_rule` for all subjects, the action and the
-- resource, a check of the action on the resource by the subject is reported.
pub resource_rule-blocks :
    (n : ℕ) (s : TrieState) (c : ℕ) (u action r : Bytes)
    → n < 2 ^ 15 - 1
    → IsSound n s
    → IsField (c ∷ u)
    → Indexed (rule_text (b'*' ∷ []) action r)
    → Indexed (rule_text (c ∷ u) action r)
    → (s' : TrieState) × (trie_add_rule s (b'*' ∷ []) action r ≡ some s')
      × (h : Hit) × (check_one s' (c ∷ u) action r none ≡ some h)
      × (h.find ≡ true)
resource_rule-blocks n s c u action r small sound field v w =
    let rule = rule_text (b'*' ∷ []) action r in
    let (s', e, sound', kinds) = apply-Changes n s small sound (add_resource rule) v in
    let (h, found, exact, _, _) =
      match_decides s' (rule_text (c ∷ u) action r) none sound'.root w in
    let e' : insert_for_resourceid s rule ≡ some s' = unfold apply in e in
    let (id, held) =
      held-of_kind (stored s'.trie_tree_root rule) {k = resource}
        (kinds rule ∙ rw (bytes_eq_refl rule)) in
    (
      s',
      trie_add_rule-resource s action r sound.root ∙ e',
      h,
      check_one-rooted s' (c ∷ u) action r none sound'.root ∙ found,
      exact.1 (
        id,
        record {
          rule = rule;
          is_stored = held;
          is_accepted = accepts-any_subject c u action r field;
        },
      ),
    )

counted :
    {P Q : Type 0} (a b : Hit)
    → (a.find ≡ true) ↔ P
    → (b.find ≡ true) ↔ Q
    → (0 < found_count a + found_count b) ↔ (P ⊎ Q)
counted a b p q = (
  λ h. elim (Bool-cases a.find) [ inl e ↦ inl (p.0 e) | inr e ↦ inr (q.0 (ground arith)) ],
  ⊎_elim (λ x. ground (arith, p.1 x)) (λ y. ground (arith, q.1 y)),
)

-- Let a packet give an action and three ids, none of them empty, that consist of digits, '*' and
-- blanks, the characters that `c2i` has an index for, and let there be a tree. Then `trie_chk_rule`
-- returns, and reports exactly if a rule accepts the text of user, action and subject or the text of
-- user, action and resource.
pub trie_chk_rule_exact :
    (s : TrieState) (x y z : ℕ) (u_id s_id action r_id : Bytes) (act : ℕ) (i j : Option ℕ)
    → s.trie_tree_root ≢ null
    → act ≢ 0
    → Indexed (rule_text (x ∷ u_id) action (y ∷ s_id))
    → Indexed (rule_text (x ∷ u_id) action (z ∷ r_id))
    → (v : Verdict) × (trie_chk_rule s (x ∷ u_id) (y ∷ s_id) act action (z ∷ r_id) i j ≡ some v)
      × ((0 < v.count) ↔ (
          ((id : ℕ) × Accepted s.trie_tree_root (rule_text (x ∷ u_id) action (y ∷ s_id)) id)
          ⊎ ((id : ℕ) × Accepted s.trie_tree_root (rule_text (x ∷ u_id) action (z ∷ r_id)) id)))
unfolding trie_chk_rule or_not_found
trie_chk_rule_exact s x y z u_id s_id action r_id act i j root named v w =
    let (a, e, exact, _, _) = match_decides s (rule_text (x ∷ u_id) action (y ∷ s_id)) i root v in
    let (b, f, exact', _, _) = match_decides s (rule_text (x ∷ u_id) action (z ∷ r_id)) j root w in
    (
      record { count = found_count a + found_count b; first = a.pattern_id; second = b.pattern_id },
      ground (
        arith,
        e,
        f,
        check_one-rooted s (x ∷ u_id) action (y ∷ s_id) i root,
        check_one-rooted s (x ∷ u_id) action (z ∷ r_id) j root,
      ),
      counted a b exact exact',
    )

nameless :
    (s : TrieState) (ref : ℕ) (id : Option ℕ) (child : ℕ → Node) (action object : Bytes)
    (i : Option ℕ)
    → s.trie_tree_root ≡ node ref id child
    → has_child child ≡ true
    → check_one s (or_not_found []) action object i ≡ none
unfolding check_one or_not_found match rule_text
nameless s ref id child action object i root some_child = rw (root, match) (rw (some_child, match_))

-- A packet with no user id, checked against a tree that has any rule, runs off the end of `c2i`:
-- the id is replaced by "NotFound", and a letter has no index.
pub unidentified_user :
    (s : TrieState) (ref : ℕ) (id : Option ℕ) (child : ℕ → Node) (s_id action r_id : Bytes)
    (act : ℕ) (i j : Option ℕ)
    → s.trie_tree_root ≡ node ref id child
    → has_child child ≡ true
    → act ≢ 0
    → trie_chk_rule s [] s_id act action r_id i j ≡ none
unfolding trie_chk_rule
unidentified_user s ref id child s_id action r_id act i j root some_child named =
    ground (arith, nameless s ref id child action (or_not_found s_id) i root some_child)
