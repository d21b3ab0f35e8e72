-- ===== src/Acsm/Tree.antt =====
-- acsmx.c: a state table whose transitions form a tree, each state labelled by the bytes that lead
-- to it.
use mathlib.Core.Path.{subst}
use mathlib.Core.Option.{some-injective}
use mathlib.Core.List.{append_assoc, append-nil}
use school_project.Common.{
  ℕ, ◌+◌, ◌≤◌, ◌<◌, ◌≡◌, refl, sym, ap, ◌∙◌, some, [], ◌∷◌, ◌++◌, arith, ◌>>=◌, Bytes, length,
  length-append, Option-cases, inl, inr,
}
use school_project.Acsm.{StateTable}
use school_project.Acsm.States.{walk}

pub record IsTree (t : StateTable) (label : ℕ → Bytes) (num : ℕ) : Type 0 where
  pub root : label 0 ≡ []
  pub child :
      (s c n : ℕ)
      → (t s).next_state c ≡ some n
      → (label n ≡ label s ++ c ∷ []) × (s ≤ num) × (n ≤ num) × (c < 256)
  pub reached : (s : ℕ) → s ≤ num → walk t 0 (label s) ≡ some s

pub snoc-injective : (u v : Bytes) (c d : ℕ) → u ++ c ∷ [] ≡ v ++ d ∷ [] → (u ≡ v) × (c ≡ d)
snoc-injective [] [] c d e = (refl, cc e)
snoc-injective [] (y ∷ v) c d e = absurd (omega (arith, ap length e, length-append v (d ∷ [])))
snoc-injective (x ∷ u) [] c d e = absurd (omega (arith, ap length e, length-append u (c ∷ [])))
snoc-injective (x ∷ u) (y ∷ v) c d e =
    let (same, last) = snoc-injective u v c d (cc e) in (cc (e, same), last)

pub walk-append :
    (t : StateTable) (s : ℕ) (u v : Bytes) → walk t s (u ++ v) ≡ (walk t s u >>= λ m. walk t m v)
unfolding walk
walk-append t s [] v = refl
walk-append t s (c ∷ u) v = elim (Option-cases ((t s).next_state c)) [
  | inl e ↦ rw e refl
  | inr (n, e) ↦ rw e (walk-append t n u v)
]

pub walk-one : (t : StateTable) (s c : ℕ) → walk t s (c ∷ []) ≡ (t s).next_state c
unfolding walk
walk-one t s c = elim (Option-cases ((t s).next_state c)) [
  | inl e ↦ rw e refl
  | inr (n, e) ↦ rw e refl
]

-- A walk that ends passes the state at which its first part ends.
pub walk-split :
    (t : StateTable) (s : ℕ) (u v : Bytes) {n : ℕ}
    → walk t s (u ++ v) ≡ some n
    → (m : ℕ) × (walk t s u ≡ some m) × (walk t m v ≡ some n)
walk-split t s u v e = elim (Option-cases (walk t s u)) [
  | inl x ↦ absurd (cc (rw (walk-append t s u v, x) at e))
  | inr (m, x) ↦ (m, x, rw (walk-append t s u v, x) at e)
]

module _ {t : StateTable} {label : ℕ → Bytes} {num : ℕ} (tree : IsTree t label num) where
  pub label-walk : (s : ℕ) (w : Bytes) {n : ℕ} → walk t s w ≡ some n → label n ≡ label s ++ w
  unfolding walk
  label-walk s [] e = rw append-nil (ap label (sym (some-injective _ _ e)))
  label-walk s (c ∷ w) {n} e = elim (Option-cases ((t s).next_state c)) [
    | inl x ↦ absurd (cc (rw (x, walk) at e))
    | inr (m, x) ↦
        label-walk m w (rw (x, walk) at e)
        ∙ (rw (tree.child s c m x).0 (append_assoc (label s) (c ∷ []) w))
  ]

  pub walk-le : (s : ℕ) (w : Bytes) {n : ℕ} → s ≤ num → walk t s w ≡ some n → n ≤ num
  unfolding walk
  walk-le s [] h e = subst (λ k. k ≤ num) (some-injective _ _ e) h
  walk-le s (c ∷ w) {n} h e = elim (Option-cases ((t s).next_state c)) [
    | inl x ↦ absurd (cc (rw (x, walk) at e))
    | inr (m, x) ↦ walk-le m w (tree.child s c m x).2 (rw (x, walk) at e)
  ]

  pub label-injective : (s s' : ℕ) → s ≤ num → s' ≤ num → label s ≡ label s' → s ≡ s'
  label-injective s s' h h' e =
      some-injective _ _ (sym (tree.reached s h) ∙ (rw e (tree.reached s' h')))

  -- A child's label is longer by one byte.
  pub child-length :
      (s c n : ℕ) → (t s).next_state c ≡ some n → length (label n) ≡ length (label s) + 1
  child-length s c n e =
      omega (arith, ap length (tree.child s c n e).0, length-append (label s) (c ∷ []))

  -- Two transitions to one state are the same.
  pub child_unique :
      (s c s' c' n : ℕ)
      → (t s).next_state c ≡ some n
      → (t s').next_state c' ≡ some n
      → (s ≡ s') × (c ≡ c')
  child_unique s c s' c' n e e' =
      let (x, h, _, _) = tree.child s c n e in
      let (y, h', _, _) = tree.child s' c' n e' in
      let (same, byte) = snoc-injective (label s) (label s') c c' (sym x ∙ y) in
      (label-injective s s' h h' same, byte)
