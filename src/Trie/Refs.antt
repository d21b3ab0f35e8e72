-- ===== src/Trie/Refs.antt =====
-- trie.c: the reference counts cover the rules below them, so that a dead node hides no rule.
use school_project.Common.{
  ℕ, zero, suc, ◌+◌, ◌-◌, ◌≤◌, ◌<◌, ◌^◌, ◌≡◌, ◌≢◌, refl, sym, if◌then◌else◌, inl, inr, true, false,
  Option, none, some, [], ◌∷◌, arith, ◌==◌, Bool-cases, Option-cases, Bytes, bytes_eq,
}
use school_project.Trie.{Node, null, node, c2i, is_null, childnum, update, reference}
use school_project.Trie.Alphabet.{c2i-lt, c2i_injective}
use school_project.Trie.Stored.{below, stored}

abbrev pub ref_of : Node → ℕ
ref_of null = 0
ref_of (node ref id child) = ref

-- The references of the first `k` children together.
unfoldable pub total : ℕ → (ℕ → Node) → ℕ
total zero child = 0
total (suc k) child = total k child + ref_of (child k)

abbrev pub own : Option ℕ → ℕ
own none = 0
own (some id) = 1

-- The rule that ends at a node and the references of its children.
abbrev pub weight : Node → ℕ
weight null = 0
weight (node ref id child) = own id + total childnum child

-- No node has fewer references than its weight, or more than `n`. The root's count is not looked at.
abbrev pub Covers : ℕ → Node → Type 0
Covers n null = Unit
Covers n (node ref id child) =
    (i : ℕ) → (weight (child i) ≤ ref_of (child i)) × (ref_of (child i) ≤ n) × Covers n (child i)

pub Covers-mono : (m n : ℕ) (t : Node) → m ≤ n → Covers m t → Covers n t
Covers-mono m n null h v = v
Covers-mono m n (node ref id child) h v =
    λ i. ((v i).0, omega (arith, (v i).1), Covers-mono m n (child i) h (v i).2)

total-update_above :
    (k i : ℕ) (child : ℕ → Node) (t : Node) → k ≤ i → total k (update child i t) ≡ total k child
unfolding total
total-update_above zero i child t h = refl
total-update_above (suc k) i child t h = ground (arith, total-update_above k i child t)

pub total-update :
    (k i : ℕ) (child : ℕ → Node) (t : Node)
    → i < k
    → total k (update child i t) + ref_of (child i) ≡ total k child + ref_of t
unfolding total
total-update zero i child t h = elim h [ ]
total-update (suc k) i child t h = elim (Bool-cases (i == k)) [
  | inl e ↦ ground (arith, total-update_above k i child t)
  | inr e ↦ ground (arith, total-update k i child t)
]

ref-le-total : (k i : ℕ) (child : ℕ → Node) → i < k → ref_of (child i) ≤ total k child
unfolding total
ref-le-total zero i child h = elim h [ ]
ref-le-total (suc k) i child h = ground (arith, ref-le-total k i child)

pub is_null-of_ref : (t : Node) → ref_of t ≡ 0 → is_null t ≡ true
unfolding is_null
is_null-of_ref null h = refl
is_null-of_ref (node ref id child) h = ground arith

pub ref-of_null : (t : Node) → is_null t ≡ true → ref_of t ≡ 0
unfolding is_null
ref-of_null null h = refl
ref-of_null (node ref id child) h = ground arith

pub ref-of_live : (t : Node) → is_null t ≡ false → 0 < ref_of t
unfolding is_null
ref-of_live null h = cc
ref-of_live (node ref id child) h = ground arith

pub live-of_ref : (t : Node) → 0 < ref_of t → is_null t ≡ false
unfolding is_null
live-of_ref null h = absurd (omega arith)
live-of_ref (node ref id child) h = ground arith

-- Nothing is stored where nothing weighs.
pub stored-of_weight : (t : Node) (p : Bytes) → weight t ≡ 0 → stored t p ≡ none
unfolding stored
stored-of_weight null p h = refl
stored-of_weight (node ref none child) [] h = refl
stored-of_weight (node ref (some id) child) [] h = absurd (omega arith)
stored-of_weight (node ref id child) (c ∷ p) h = elim (Option-cases (c2i c)) [
  | inl e ↦ rw e
  | inr (i, e) ↦
      rw e
        (rw (is_null-of_ref (child i) (omega (arith, ref-le-total childnum i child (c2i-lt c e)))))
]

-- A changed reference count leaves the rules below a node as they are.
pub stored-reference : (t : Node) (p : Bytes) → stored (reference t) p ≡ stored t p
unfolding stored reference is_null
stored-reference null [] = refl
stored-reference null (c ∷ p) = elim (Option-cases (c2i c)) [ inl e ↦ rw e | inr (i, e) ↦ rw e ]
stored-reference (node ref id child) [] = refl
stored-reference (node ref id child) (c ∷ p) = refl

pub Covers-reference : (n : ℕ) (t : Node) → Covers n t → Covers n (reference t)
unfolding reference
Covers-reference n null v = λ i. (omega arith, omega arith, tt)
Covers-reference n (node ref id child) v = v

pub weight-reference : (t : Node) → weight (reference t) ≡ weight t
unfolding reference total
weight-reference null = refl
weight-reference (node ref id child) = refl

pub ref-reference : (t : Node) → ref_of t < 2 ^ 16 - 1 → ref_of (reference t) ≡ ref_of t + 1
unfolding reference
ref-reference null h = refl
ref-reference (node ref id child) h = omega arith

-- A node with no fewer references than its weight hides nothing.
pub below-alive :
    (t : Node) (q : Bytes) → weight t ≤ ref_of t → below (is_null t) (stored t q) ≡ stored t q
below-alive t q h = elim (Bool-cases (is_null t)) [
  | inr e ↦ rw e
  | inl e ↦ rw e (sym (stored-of_weight t q (omega (arith, ref-of_null t e))))
]

pub Covers-update :
    (n ref : ℕ) (old : Option ℕ) (child : ℕ → Node) (i : ℕ) (t : Node)
    → Covers n (node ref old child)
    → weight t ≤ ref_of t
    → ref_of t ≤ n
    → Covers n t
    → Covers n (node ref old (update child i t))
Covers-update n ref old child i t v w r u j = elim (Bool-cases (i == j)) [
  | inl e ↦ rw e (w, r, u)
  | inr e ↦ rw e (v j)
]

-- What is stored below a node with one child replaced.
pub stored-update :
    (ref : ℕ) (old : Option ℕ) (child : ℕ → Node) (c i : ℕ) (t : Node) (d : ℕ) (q : Bytes)
    → c2i c ≡ some i
    → stored (node ref old (update child i t)) (d ∷ q)
      ≡ (if c == d then below (is_null t) (stored t q) else stored (node ref old child) (d ∷ q))
unfolding stored
stored-update ref old child c i t d q index = elim (Option-cases (c2i d)) [
  | inl e ↦ rw e (ground arith)
  | inr (j, e) ↦ elim (Bool-cases (i == j)) [
    | inl same ↦
        let at : c ≡ d = c2i_injective c d index (ground arith) in rw (e, same) (ground arith)
    | inr other ↦ rw (e, other) (ground arith)
  ]
]

pub stored-child :
    (n ref : ℕ) (old : Option ℕ) (child : ℕ → Node) (c i : ℕ) (q : Bytes)
    → Covers n (node ref old child)
    → c2i c ≡ some i
    → stored (node ref old child) (c ∷ q) ≡ stored (child i) q
unfolding stored
stored-child n ref old child c i q v index = rw index (below-alive (child i) q (v i).0)

-- A child in which only the rule `p` is changed, to `r`: below the node that is the rule `c ∷ p`.
pub stored-graft :
    (n ref : ℕ) (old : Option ℕ) (child : ℕ → Node) (c i : ℕ) (t : Node) (p : Bytes) (r : Option ℕ)
    (d : ℕ) (q : Bytes)
    → Covers n (node ref old child)
    → c2i c ≡ some i
    → weight t ≤ ref_of t
    → stored t q ≡ (if bytes_eq p q then r else stored (child i) q)
    → stored (node ref old (update child i t)) (d ∷ q)
      ≡ (if bytes_eq (c ∷ p) (d ∷ q) then r else stored (node ref old child) (d ∷ q))
unfolding bytes_eq
stored-graft n ref old child c i t p r d q v index w e =
    let here = stored-child n ref old child c i q v index in
    let alive = below-alive t q w in
    rw (stored-update ref old child c i t d q index)
      (elim (Bool-cases (c == d)) [ inr other ↦ rw other | inl same ↦ ground arith ])

pub live_not_null : (t : Node) → is_null t ≡ false → t ≢ null
unfolding is_null
live_not_null t h e = ground arith
