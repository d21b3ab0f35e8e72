-- ===== src/Trie/Match.antt =====
-- trie.c, `match_`: it finds a rule exactly if the tree holds one that accepts the text.
use school_project.Common.{
  ℕ, ◌≡◌, ◌≢◌, ◌↔◌, refl, ap, ◌∙◌, inl, inr, Bool, true, false, ◌&&◌, ◌||◌, Option, none, some, [],
  ◌∷◌, ◌==◌, arith, skip_if, Bool-cases, >>=-eq-some, Bytes,
}
use mathlib.Core.Path.{subst}
use mathlib.Core.Option.{some-injective}
use school_project.Trie.{
  Node, null, node, c2i, is_null, has_child, skip_run, Hit, arrive, match_, star, TrieState, match,
  no_hit,
}
use school_project.Trie.Alphabet.{c2i-star, c2i-lt, has_child-true}
use school_project.Trie.Refs.{live_not_null}
use school_project.Trie.Stored.{stored, accepts, Indexed, behind_field, skip_run-behind}

-- A rule with this id is held by the tree and accepts the text.
pub record Accepted (t : Node) (s : Bytes) (id : ℕ) : Type 0 where
  pub rule : Bytes
  pub is_stored : stored t rule ≡ some id
  pub is_accepted : accepts rule s ≡ true

-- What a part of a match does to the out-parameters: nothing, or it reports a rule with `P`.
pub data Outcome (P : ℕ → Type 0) (h h' : Hit) : Type 0 where
  missed : h' ≡ h → Outcome P h h'
  found : (id : ℕ) → P id → h'.find ≡ true → h'.pattern_id ≡ some id → Outcome P h h'

Outcome-map :
    {P Q : ℕ → Type 0} {h h' : Hit} → ((id : ℕ) → P id → Q id) → Outcome P h h' → Outcome Q h h'
Outcome-map f (missed e) = missed e
Outcome-map f (found id p e k) = found id (f id p) e k

-- A later report covers an earlier one.
Outcome-then :
    {P : ℕ → Type 0} {h h' h'' : Hit} → Outcome P h h' → Outcome P h' h'' → Outcome P h h''
Outcome-then (missed d) (missed e) = missed (e ∙ d)
Outcome-then (found id p d k) (missed e) =
    found id p (ap (λ x. x.find) e ∙ d) (ap (λ x. x.pattern_id) e ∙ k)
Outcome-then _ (found id p d k) = found id p d k

Outcome-skip :
    {P : ℕ → Type 0} {h h' : Hit} (b : Bool) {r : Option Hit}
    → skip_if b h r ≡ some h'
    → (b ≡ false → r ≡ some h' → Outcome P h h')
    → Outcome P h h'
Outcome-skip true e k = missed (ground arith)
Outcome-skip false e k = k refl e

Accepted-same :
    {ref : ℕ} {old : Option ℕ} {child : ℕ → Node} {c i id : ℕ} {s : Bytes}
    → c2i c ≡ some i
    → is_null (child i) ≡ false
    → Accepted (child i) s id
    → Accepted (node ref old child) (c ∷ s) id
unfolding stored accepts
Accepted-same {c} e n a = record {
  rule = c ∷ a.rule;
  is_stored = rw (e, n) a.is_stored;
  is_accepted = ground (arith, a.is_accepted);
}

Accepted-star :
    {ref : ℕ} {old : Option ℕ} {child : ℕ → Node} {c id : ℕ} {s : Bytes}
    → is_null (child star) ≡ false
    → Accepted (child star) (skip_run (c ∷ s)) id
    → Accepted (node ref old child) (c ∷ s) id
unfolding stored accepts c2i
Accepted-star {c} {s} n a = record {
  rule = b'*' ∷ a.rule;
  is_stored = rw n a.is_stored;
  is_accepted =
      let rest : accepts a.rule (behind_field (c ∷ s)) ≡ true =
        subst (λ r. accepts a.rule r ≡ true) (skip_run-behind (c ∷ s)) a.is_accepted in
      ground arith;
}

Outcome-arrive :
    {ref : ℕ} (id : Option ℕ) {child : ℕ → Node} (h : Hit)
    → Outcome (Accepted (node ref id child) []) h (arrive id h)
unfolding arrive stored accepts
Outcome-arrive none h = missed (ground arith)
Outcome-arrive (some id) h =
    found id (record { rule = []; is_stored = refl; is_accepted = refl }) (ground arith) refl

module _ (ref : ℕ) (id : Option ℕ) (child : ℕ → Node) where
  -- The two descents of a match below a node that has children.
  match_-steps :
      (c : ℕ) (s : Bytes) (h : Hit) {h' : Hit}
      → has_child child ≡ true
      → match_ (node ref id child) (c ∷ s) h ≡ some h'
      → (i : ℕ) × (c2i c ≡ some i)
        × (h₁ : Hit) × (skip_if (is_null (child i)) h (match_ (child i) s h) ≡ some h₁)
        × (skip_if (is_null (child star)) h₁ (match_ (child star) (skip_run (c ∷ s)) h₁) ≡ some h')
  unfolding match_
  match_-steps c s h more e =
      let (i, index, e₁) = >>=-eq-some (c2i c) _ (rw (more, match_) at e) in
      let (h₁, first, e₂) =
        >>=-eq-some (skip_if (is_null (child i)) h (match_ (child i) s h)) _ e₁ in
      (i, index, h₁, first, e₂)

  stored-step :
      (x : ℕ) (rule : Bytes) {k : ℕ}
      → stored (node ref id child) (x ∷ rule) ≡ some k
      → (i : ℕ) × (c2i x ≡ some i) × (is_null (child i) ≡ false) × (stored (child i) rule ≡ some k)
  unfolding stored
  stored-step x rule e =
      let (i, index, e₁) = >>=-eq-some (c2i x) _ e in (i, index, ground arith, ground arith)

-- Every rule that a match reports is held by the tree and accepts the text.
pub match_-Outcome :
    (t : Node) (s : Bytes) (h : Hit) {h' : Hit}
    → match_ t s h ≡ some h'
    → Outcome (Accepted t s) h h'
unfolding match_
match_-Outcome null s h e = cc
match_-Outcome (node ref id child) [] h e =
    subst (Outcome (Accepted (node ref id child) []) h) (some-injective _ _ e) (Outcome-arrive id h)
match_-Outcome (node ref id child) (c ∷ s) h e = elim (Bool-cases (has_child child)) [
  | inr leaf ↦ missed (ground arith)
  | inl more ↦
      let (i, index, h₁, first, e₂) = match_-steps ref id child c s h more e in
      Outcome-then
        (Outcome-skip (is_null (child i)) first
          (λ live r. Outcome-map (λ _. Accepted-same index live) (match_-Outcome (child i) s h r)))
        (Outcome-skip (is_null (child star)) e₂ (λ live r.
          Outcome-map (λ _. Accepted-star live)
            (match_-Outcome (child star) (skip_run (c ∷ s)) h₁ r)))
]

-- A report is never taken back.
Outcome-keeps : {P : ℕ → Type 0} {h h' : Hit} → Outcome P h h' → h.find ≡ true → h'.find ≡ true
Outcome-keeps (missed e) f = ap (λ x. x.find) e ∙ f
Outcome-keeps (found id p e k) f = e

match_-finds :
    (t : Node) (s rule : Bytes) (h h' : Hit) (id : ℕ)
    → match_ t s h ≡ some h'
    → stored t rule ≡ some id
    → accepts rule s ≡ true
    → h'.find ≡ true
unfolding match_ stored accepts arrive
match_-finds null s rule h h' id e st ac = cc
match_-finds (node ref old child) [] [] h h' id e st ac = ground arith
match_-finds (node ref old child) [] (x ∷ rule) h h' id e st ac = cc
match_-finds (node ref old child) (c ∷ s) [] h h' id e st ac = cc
match_-finds (node ref old child) (c ∷ s) (x ∷ rule) h h' id e st ac =
    let (i, place, live, st') = stored-step ref old child x rule st in
    let (j, index, h₁, first, e₂) =
      match_-steps ref old child c s h (has_child-true i child (c2i-lt x place) live) e in
    let at_star : x ≡ b'*' → i ≡ star = c2i-star x place in
    elim (Bool-cases (x == c && accepts rule s)) [
      | inl same ↦
          let at_i : j ≡ i = ground arith in
          Outcome-keeps
            (Outcome-skip (is_null (child star)) e₂
              (λ _ r. match_-Outcome (child star) (skip_run (c ∷ s)) h₁ r))
            (match_-finds (child i) s rule h h₁ id (ground arith) st' (ground arith))
      | inr other ↦
          let rest : accepts rule (behind_field (c ∷ s)) ≡ true = ground arith in
          match_-finds (child star) (skip_run (c ∷ s)) rule h₁ h' id (ground (arith, at_star))
            (ground (arith, at_star)) (rw (skip_run-behind (c ∷ s)) rest)
    ]

Indexed-skip_run : (s : Bytes) → Indexed s → Indexed (skip_run s)
unfolding skip_run
Indexed-skip_run [] h = h
Indexed-skip_run (c ∷ s) h = ground (arith, Indexed-skip_run s h.1)

skip_total :
    (b : Bool) (h : Hit) (r : Option Hit)
    → (b ≡ false → (h' : Hit) × (r ≡ some h'))
    → (h' : Hit) × (skip_if b h r ≡ some h')
skip_total true h r k = (h, refl)
skip_total false h r k = k refl

match_-total :
    (t : Node) (s : Bytes) (h : Hit) → t ≢ null → Indexed s → (h' : Hit) × (match_ t s h ≡ some h')
unfolding match_
match_-total null s h n v = absurd (n refl)
match_-total (node ref id child) [] h n v = (arrive id h, refl)
match_-total (node ref id child) (c ∷ s) h n v = elim (Bool-cases (has_child child)) [
  | inr leaf ↦ (record h { find = h.find || false }, rw (leaf, match_))
  | inl more ↦
      let (i, index) = v.0 in
      let (h₁, first) =
        skip_total (is_null (child i)) h (match_ (child i) s h)
          (λ live. match_-total (child i) s h (live_not_null (child i) live) v.1) in
      let (h₂, second) =
        skip_total (is_null (child star)) h₁ (match_ (child star) (skip_run (c ∷ s)) h₁) (λ live.
          match_-total (child star) (skip_run (c ∷ s)) h₁ (live_not_null (child star) live)
            (Indexed-skip_run (c ∷ s) v)) in
      (h₂, rw (more, match_) (rw index (rw first second)))
]

module _ {P : ℕ → Type 0} {before : Option ℕ} {h : Hit} where
  reported :
      Outcome P (no_hit before) h → h.find ≡ true → (id : ℕ) × P id × (h.pattern_id ≡ some id)
  reported (missed e) f = cc
  reported (found id p e k) f = (id, p, k)

  unreported : Outcome P (no_hit before) h → h.find ≡ false → h.pattern_id ≡ before
  unreported (missed e) f = ap (λ x. x.pattern_id) e
  unreported (found id p e k) f = cc

-- On a text of the alphabet a match always ends. It reports a rule exactly if the tree holds one
-- that accepts the text, the id it writes is that of such a rule, and without a report the
-- caller's id is left alone.
pub match_decides :
    (st : TrieState) (tupe : Bytes) (before : Option ℕ)
    → st.trie_tree_root ≢ null
    → Indexed tupe
    → (h : Hit) × (match st tupe before ≡ some h)
      × ((h.find ≡ true) ↔ ((id : ℕ) × Accepted st.trie_tree_root tupe id))
      × (h.find ≡ true → (id : ℕ) × Accepted st.trie_tree_root tupe id × (h.pattern_id ≡ some id))
      × (h.find ≡ false → h.pattern_id ≡ before)
unfolding match
match_decides st tupe before n v =
    let (h, e) = match_-total st.trie_tree_root tupe (no_hit before) n v in
    let out = match_-Outcome st.trie_tree_root tupe (no_hit before) e in
    (
      h,
      e,
      (
        λ f. let (id, a, _) = reported out f in (id, a),
        λ (id, a).
            match_-finds st.trie_tree_root tupe a.rule (no_hit before) h id e a.is_stored
              a.is_accepted,
      ),
      reported out,
      unreported out,
    )
