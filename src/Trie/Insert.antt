-- ===== src/Trie/Insert.antt =====
-- trie.c, `insert_for_userid` and `insert_for_resourceid`: the rule is stored, and no other changes.
use mathlib.Core.Path.{subst}
use mathlib.Core.Option.{some-injective}
use school_project.Common.{
  ℕ, ◌+◌, ◌-◌, ◌≤◌, ◌<◌, ◌^◌, ◌≡◌, ◌≢◌, refl, sym, ap, Option, some, [], ◌∷◌, arith, if◌then◌else◌,
  >>=-eq-some, Bytes, bytes_eq,
}
use school_project.Trie.{Node, null, node, c2i, childnum, update, reference, insert_path}
use school_project.Trie.Alphabet.{c2i-lt}
use school_project.Trie.Stored.{stored, Indexed}
use school_project.Trie.Refs.{
  ref_of, weight, Covers, Covers-mono, total-update, stored-reference, Covers-reference,
  weight-reference, ref-reference, Covers-update, stored-graft,
}

-- The parts of an insertion below a node.
pub insert_path-step :
    (ref : ℕ) (old : Option ℕ) (child : ℕ → Node) (c : ℕ) (p : Bytes) (id : ℕ) {t' : Node}
    → insert_path (node ref old child) (c ∷ p) id ≡ some t'
    → (i : ℕ) × (c2i c ≡ some i)
      × (t : Node) × (insert_path (reference (child i)) p id ≡ some t)
      × (t' ≡ node ref old (update child i t))
unfolding insert_path
insert_path-step ref old child c p id e =
    let (i, index, e₁) = >>=-eq-some (c2i c) _ e in
    let (t, inner, e₂) = >>=-eq-some (insert_path (reference (child i)) p id) _ e₁ in
    (i, index, t, inner, sym (some-injective _ _ e₂))

pub ref-insert_path :
    (t : Node) (p : Bytes) (id : ℕ) {t' : Node}
    → insert_path t p id ≡ some t'
    → ref_of t' ≡ ref_of t
unfolding insert_path
ref-insert_path null p id e = cc
ref-insert_path (node ref old child) [] id e = ap ref_of (sym (some-injective _ _ e))
ref-insert_path (node ref old child) (c ∷ p) id e =
    let (i, _, t, _, e₂) = insert_path-step ref old child c p id e in ap ref_of e₂

-- What holds of the tree after an insertion, if no count was above `n` before it.
pub record Grown (n : ℕ) (t t' : Node) : Type 0 where
  pub covers : Covers (n + 1) t'
  pub heavier : weight t' ≤ weight t + 1

pub insert_path-Grown :
    (n : ℕ) (t : Node) (p : Bytes) (id : ℕ) {t' : Node}
    → n < 2 ^ 16 - 1
    → Covers n t
    → insert_path t p id ≡ some t'
    → Grown n t t'
unfolding insert_path
insert_path-Grown n null p id h v e = cc
insert_path-Grown n (node ref old child) [] id h v e =
    subst (Grown n (node ref old child)) (some-injective _ _ e) (record {
      covers = Covers-mono n (n + 1) (node ref old child) (omega arith) v;
      heavier = omega arith;
    })
insert_path-Grown n (node ref old child) (c ∷ p) id h v e =
    let (i, index, t, inner, e₂) = insert_path-step ref old child c p id e in
    let g =
      insert_path-Grown n (reference (child i)) p id h (Covers-reference n (child i) (v i).2)
        inner in
    let r = ref-insert_path (reference (child i)) p id inner in
    let r' = ref-reference (child i) (omega (arith, (v i).1)) in
    let w = weight-reference (child i) in
    subst (Grown n (node ref old child)) (sym e₂) (record {
      covers =
          Covers-update (n + 1) ref old child i t
            (Covers-mono n (n + 1) (node ref old child) (omega arith) v)
            (omega (arith, g.heavier, (v i).0)) (omega (arith, (v i).1)) g.covers;
      heavier = omega (arith, total-update childnum i child t (c2i-lt c index));
    })

pub stored-insert_path :
    (n : ℕ) (t : Node) (p : Bytes) (id : ℕ) {t' : Node}
    → n < 2 ^ 16 - 1
    → Covers n t
    → insert_path t p id ≡ some t'
    → (q : Bytes) → stored t' q ≡ (if bytes_eq p q then some id else stored t q)
unfolding insert_path bytes_eq stored
stored-insert_path n null p id h v e q = cc
stored-insert_path n (node ref old child) [] id h v e [] = rw (← some-injective _ _ e)
stored-insert_path n (node ref old child) [] id h v e (d ∷ q) = rw (← some-injective _ _ e)
stored-insert_path n (node ref old child) (c ∷ p) id h v e [] =
    let (i, index, t, inner, e₂) = insert_path-step ref old child c p id e in rw e₂
stored-insert_path n (node ref old child) (c ∷ p) id h v e (d ∷ q) =
    let (i, index, t, inner, e₂) = insert_path-step ref old child c p id e in
    let r = ref-insert_path (reference (child i)) p id inner in
    let r' = ref-reference (child i) (omega (arith, (v i).1)) in
    let ih =
      stored-insert_path n (reference (child i)) p id h (Covers-reference n (child i) (v i).2) inner
        q in
    let g =
      insert_path-Grown n (reference (child i)) p id h (Covers-reference n (child i) (v i).2)
        inner in
    rw e₂ (
      stored-graft n ref old child c i t p (some id) d q v index
        (omega (arith, g.heavier, weight-reference (child i), (v i).0))
        (rw (stored-reference (child i) q) at ih))

reference_not_null : (t : Node) → reference t ≢ null
unfolding reference
reference_not_null null = λ e. cc
reference_not_null (node ref id child) = λ e. cc

-- An insertion of a text of the alphabet ends.
pub insert_path-total :
    (t : Node) (p : Bytes) (id : ℕ)
    → t ≢ null
    → Indexed p
    → (t' : Node) × (insert_path t p id ≡ some t') × (t' ≢ null)
unfolding insert_path
insert_path-total null p id h v = absurd (h refl)
insert_path-total (node ref old child) [] id h v = (node ref (some id) child, refl, λ e. cc)
insert_path-total (node ref old child) (c ∷ p) id h v =
    let (i, index) = v.0 in
    let (t, inner, _) =
      insert_path-total (reference (child i)) p id (reference_not_null (child i)) v.1 in
    (node ref old (update child i t), rw index (rw inner), λ e. cc)
