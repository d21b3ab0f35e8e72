-- ===== src/Trie/Delete.antt =====
-- trie.c, `del`: the rule is gone, no other rule changes, and the counts stay sound.
use school_project.Common.{
  ℕ, ◌+◌, ◌≤◌, ◌<◌, ◌^◌, ◌≡◌, ◌≢◌, refl, inl, inr, true, false, Option, none, some, [], ◌∷◌, arith,
  leb, ltb, ◌&&◌, ◌==◌, if◌then◌else◌, >>=-eq-some, Bool-cases, Bytes, bytes_eq,
}
use school_project.Trie.{
  Node, null, node, c2i, is_null, childnum, update, release, release_path, walk, ends_at_rule,
}
use school_project.Trie.Alphabet.{c2i-lt}
use school_project.Trie.Stored.{stored, Indexed}
use school_project.Trie.Refs.{
  ref_of, weight, Covers, total-update, Covers-update, stored-graft, stored-child, stored-of_weight,
  live_not_null,
}

Covers-release : (n : ℕ) (t : Node) → Covers n t → Covers n (release t)
unfolding release
Covers-release n null v = v
Covers-release n (node ref id child) v = elim (Bool-cases (leb 1 ref && ltb ref (2 ^ 15))) [
  | inl e ↦ rw e v
  | inr e ↦ rw e v
]

weight-release : (t : Node) → weight (release t) ≡ weight t
unfolding release
weight-release null = refl
weight-release (node ref id child) = ground arith

stored-release : (t : Node) (q : Bytes) → stored (release t) q ≡ stored t q
unfolding release stored
stored-release null q = refl
stored-release (node ref id child) [] = ground arith
stored-release (node ref id child) (c ∷ q) = ground arith

ref-release : (t : Node) → 0 < ref_of t → ref_of t < 2 ^ 15 → ref_of (release t) + 1 ≡ ref_of t
unfolding release
ref-release null h k = elim h [ ]
ref-release (node ref id child) h k = ground arith

weight-of_stored : (t : Node) (p : Bytes) {id : ℕ} → stored t p ≡ some id → 0 < weight t
weight-of_stored t p h = elim (Bool-cases (weight t == 0)) [
  | inl e ↦ ground (arith, stored-of_weight t p)
  | inr e ↦ ground arith
]

stored-forget :
    (ref k : ℕ) (child : ℕ → Node) (q : Bytes)
    → stored (node ref none child) q
      ≡ (if bytes_eq [] q then none else stored (node ref (some k) child) q)
unfolding stored bytes_eq
stored-forget ref k child [] = refl
stored-forget ref k child (d ∷ q) = refl

stored-past :
    (ref : ℕ) (old : Option ℕ) (child child' : ℕ → Node) (c : ℕ) (p : Bytes)
    → ((d : ℕ) (q : Bytes)
        → stored (node ref old child') (d ∷ q)
          ≡ (if bytes_eq (c ∷ p) (d ∷ q) then none else stored (node ref old child) (d ∷ q)))
    → (q : Bytes)
    → stored (node ref old child') q
      ≡ (if bytes_eq (c ∷ p) q then none else stored (node ref old child) q)
unfolding stored bytes_eq
stored-past ref old child child' c p f [] = refl
stored-past ref old child child' c p f (d ∷ q) = f d q

-- What holds of the tree after the second loop of `del`.
pub record Released (n : ℕ) (t : Node) (p : Bytes) (t' : Node) : Type 0 where
  pub ends : release_path t p ≡ some t'
  pub covers : Covers n t'
  pub alive : t' ≢ null
  pub same_ref : ref_of t' ≡ ref_of t
  pub lighter : weight t' + 1 ≡ weight t
  pub rules : (q : Bytes) → stored t' q ≡ (if bytes_eq p q then none else stored t q)

pub release_path-Released :
    (n : ℕ) (t : Node) (p : Bytes) {id : ℕ}
    → n < 2 ^ 15
    → Covers n t
    → stored t p ≡ some id
    → (t' : Node) × Released n t p t'
unfolding release_path stored bytes_eq
release_path-Released n null p h v e = cc
release_path-Released n (node ref none child) [] h v e = cc
release_path-Released n (node ref (some k) child) [] h v e = (
  node ref none child,
  record {
    ends = refl;
    covers = v;
    alive = λ e. cc;
    same_ref = refl;
    lighter = omega arith;
    rules = stored-forget ref k child;
  },
)
release_path-Released n (node ref old child) (c ∷ p) {id} h v e =
    let (i, index, e') = >>=-eq-some (c2i c) _ e in
    let held = rw (stored-child n ref old child c i p v index) at e in
    let live : 0 < ref_of (child i) = omega (arith, weight-of_stored (child i) p held, (v i).0) in
    let (t, r) =
      release_path-Released n (release (child i)) p {id = id} h (Covers-release n (child i) (v i).2)
        (rw (stored-release (child i) p) held) in
    let fewer = ref-release (child i) live (omega (arith, (v i).1)) in
    let below_ref : weight t ≤ ref_of t =
      omega (arith, r.lighter, r.same_ref, weight-release (child i), (v i).0) in
    (
      node ref old (update child i t),
      record {
        ends = rw index (rw r.ends);
        covers =
            Covers-update n ref old child i t v below_ref (omega (arith, r.same_ref, (v i).1))
              r.covers;
        alive = λ e. cc;
        same_ref = refl;
        lighter = omega (arith, total-update childnum i child t (c2i-lt c index), r.same_ref);
        rules = stored-past ref old child (update child i t) c p (λ d q.
            stored-graft n ref old child c i t p none d q v index below_ref
              (rw (stored-release (child i) q) at (r.rules q)));
      },
    )

-- The first loop of `del` ends at a rule exactly if the text is stored.
pub walk-total :
    (n : ℕ) (t : Node) (p : Bytes)
    → Covers n t
    → t ≢ null
    → Indexed p
    → (end : Option Node) × (walk t p ≡ some end)
      × ((id : ℕ) → stored t p ≡ some id → ends_at_rule end ≡ true)
      × (stored t p ≡ none → ends_at_rule end ≡ false)
unfolding walk stored
walk-total n null p v h x = absurd (h refl)
walk-total n (node ref none child) [] v h x =
    (some (node ref none child), refl, λ id e. cc, λ e. refl)
walk-total n (node ref (some k) child) [] v h x =
    (some (node ref (some k) child), refl, λ id e. refl, λ e. cc)
walk-total n (node ref old child) (c ∷ p) v h x =
    let (i, index) = x.0 in
    elim (Bool-cases (is_null (child i))) [
      | inl dead ↦ (none, rw index (rw dead), λ k e. ground arith, λ e. refl)
      | inr live ↦
          let (end, e, yes', no') =
            walk-total n (child i) p (v i).2 (live_not_null (child i) live) x.1 in
          (end, rw index (rw live e), λ k e'. yes' k (ground arith), λ e'. no' (ground arith))
    ]
