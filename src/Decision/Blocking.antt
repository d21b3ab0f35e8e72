-- ===== src/Decision/Blocking.antt =====
-- loop.c, `get_decision`: what blocks a packet.
use school_project.Common.{
  ℕ, zero, suc, ◌<◌, ◌≡◌, ◌↔◌, ◌⊎◌, inl, inr, refl, none, some, List, length, arith,
}
use school_project.Query.{logic_query_match, logic_query_match_N}
use school_project.Trie.{Verdict, trie_chk_rule}
use school_project.Decision.{
  ConnectionInfo, Engine, DecisionResult, Decision, pass, block, decide, get_decision,
}

-- Something other than a monitored expression was found.
abbrev pub IsHit : ℕ → ℕ → ℕ → Type 0
IsHit u g t = (0 < u) ⊎ ((0 < g) ⊎ (0 < t))

abbrev result : ℕ → ℕ → ℕ → ℕ → DecisionResult
result u g m t = record { url = u; gk = g; monitor = m; trie = t }

decide-hit : (u g m t : ℕ) → IsHit u g t → decide (result u g m t) ≡ block
unfolding decide
decide-hit u g m t (inl h) = ground arith
decide-hit u g m t (inr (inl h)) = ground arith
decide-hit u g m t (inr (inr h)) = ground arith

decide-none : (m : ℕ) → decide (result 0 0 m 0) ≡ pass
unfolding decide
decide-none m = ground arith

IsHit-or_none : (u g t : ℕ) → IsHit u g t ⊎ ((u ≡ 0) × (g ≡ 0) × (t ≡ 0))
IsHit-or_none (suc u) g t = inl (inl (omega arith))
IsHit-or_none zero (suc g) t = inl (inr (inl (omega arith)))
IsHit-or_none zero zero (suc t) = inl (inr (inr (omega arith)))
IsHit-or_none zero zero zero = inr (refl, refl, refl)

decide_iff : (u g m t : ℕ) → (decide (result u g m t) ≡ block) ↔ IsHit u g t
decide_iff u g m t = (
  λ h. elim (IsHit-or_none u g t) [ inl x ↦ x | inr (a, b, c) ↦ absurd (cc (decide-none m)) ],
  decide-hit u g m t,
)

-- Where the four checks end, so does the decision, and it blocks exactly if a URL, an expression of
-- the first table or a rule of the tree was found; hits of the monitored expressions alone never
-- block.
pub get_decision-blocks :
    (e : Engine) (c : ConnectionInfo) (url : ℕ) (gk monitor : List ℕ) (v : Verdict)
    → e.url_match c.url ≡ some url
    → logic_query_match e.keywords e.query_rule_table c.comment ≡ some gk
    → logic_query_match_N e.keywords_N e.query_rule_table_N c.comment ≡ some monitor
    → trie_chk_rule e.trie c.user_id c.s_id c.p_type (e.decimal c.p_type) c.r_id none none ≡ some v
    → (d : Decision) × (get_decision e (some c) ≡ some d)
      × ((d ≡ block) ↔ IsHit url (length gk) v.count)
unfolding get_decision
get_decision-blocks e c url gk monitor v p q r s = (
  decide (result url (length gk) (length monitor) v.count),
  rw (p, q, r, s) refl,
  decide_iff url (length gk) (length monitor) v.count,
)
