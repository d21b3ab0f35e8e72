-- ===== src/Acsm/Longest.antt =====
-- acsmx.c: the state of the longest end of a text that is in the tree. It is what failures lead to.
use mathlib.Core.Option.{some-injective}
use school_project.Common.{
  ℕ, ◌≤◌, ◌≡◌, refl, sym, ap, ◌∙◌, Bool, none, some, [], ◌∷◌, ◌++◌, ◌||◌, arith, Bytes, length,
  Bool-cases, Option-cases, inl, inr, bytes_eq, eq_of_bytes_eq,
}
use school_project.Acsm.{StateTable}
use school_project.Acsm.States.{walk}
use school_project.Acsm.Tree.{IsTree, walk-append, label-walk, walk-le}

-- The state of the longest end of the text that the tree has.
pub longest : StateTable → Bytes → ℕ
longest t [] = 0
longest t (c ∷ x) = elim (walk t 0 (c ∷ x)) [ none ↦ longest t x | some s ↦ s ]

-- The text ends in the pattern.
unfoldable pub ends : Bytes → Bytes → Bool
ends p [] = bytes_eq p []
ends p (c ∷ x) = bytes_eq p (c ∷ x) || ends p x

abbrev pub tail : Bytes → Bytes
tail [] = []
tail (c ∷ x) = x

walk-nil : (t : StateTable) {s n : ℕ} → walk t s [] ≡ some n → s ≡ n
unfolding walk
walk-nil t e = some-injective _ _ e

pub longest-some : (t : StateTable) (x : Bytes) {s : ℕ} → walk t 0 x ≡ some s → longest t x ≡ s
unfolding longest
longest-some t [] e = walk-nil t e
longest-some t (c ∷ x) e = rw (e, longest) refl

pub longest-nil : (t : StateTable) → longest t [] ≡ 0
unfolding longest
longest-nil t = refl

pub longest-none :
    (t : StateTable) (c : ℕ) (x : Bytes) → walk t 0 (c ∷ x) ≡ none → longest t (c ∷ x) ≡ longest t x
unfolding longest
longest-none t c x e = rw (e, longest) refl

closed : (t : StateTable) (x y : Bytes) → walk t 0 x ≡ none → walk t 0 (x ++ y) ≡ none
closed t x y e = walk-append t 0 x y ∙ rw e refl

ends-other :
    (t : StateTable) (p : Bytes) (c : ℕ) (x : Bytes) {n : ℕ}
    → walk t 0 p ≡ some n
    → walk t 0 (c ∷ x) ≡ none
    → ends p (c ∷ x) ≡ ends p x
unfolding ends
ends-other t p c x e f = elim (Bool-cases (bytes_eq p (c ∷ x))) [
  | inr y ↦ rw y refl
  | inl y ↦ absurd (cc (sym e, ap (walk t 0) (eq_of_bytes_eq p (c ∷ x) y), f))
]

module _ {t : StateTable} {label : ℕ → Bytes} {num : ℕ} (tree : IsTree t label num) where
  pub longest-le : (x : Bytes) → longest t x ≤ num
  unfolding longest
  longest-le [] = omega arith
  longest-le (c ∷ x) = elim (Option-cases (walk t 0 (c ∷ x))) [
    | inl e ↦ rw (e, longest) (longest-le x)
    | inr (s, e) ↦ rw (e, longest) (walk-le tree 0 (c ∷ x) (omega arith) e)
  ]

  pub label-some : (x : Bytes) {s : ℕ} → walk t 0 x ≡ some s → label s ≡ x
  label-some x {s} e = label-walk tree 0 x e ∙ rw tree.root refl

  label-nil : label (longest t []) ≡ []
  unfolding longest
  label-nil = tree.root

  -- The longest end of a text is no longer than the text.
  pub length-longest : (x : Bytes) → length (label (longest t x)) ≤ length x
  length-longest [] = rw label-nil (omega arith)
  length-longest (c ∷ x) = elim (Option-cases (walk t 0 (c ∷ x))) [
    | inl e ↦ rw (longest-none t c x e) (omega (arith, length-longest x))
    | inr (s, e) ↦ rw (longest-some t (c ∷ x) e, label-some (c ∷ x) e) (omega arith)
  ]

  -- One more byte can be read behind the longest end as well as behind the text.
  pub longest-append :
      (x : Bytes) (c : ℕ) → longest t (x ++ c ∷ []) ≡ longest t (label (longest t x) ++ c ∷ [])
  longest-append [] c = rw label-nil refl
  longest-append (d ∷ x) c = elim (Option-cases (walk t 0 (d ∷ x))) [
    | inr (s, e) ↦ rw (longest-some t (d ∷ x) e, label-some (d ∷ x) e) refl
    | inl e ↦
        rw (longest-none t d x e)
          (longest-none t d (x ++ c ∷ []) (closed t (d ∷ x) (c ∷ []) e) ∙ longest-append x c)
  ]

  -- A pattern of the tree ends a text exactly if it ends the longest end.
  pub ends-longest :
      (p x : Bytes) {n : ℕ} → walk t 0 p ≡ some n → ends p x ≡ ends p (label (longest t x))
  ends-longest p [] e = rw label-nil refl
  ends-longest p (c ∷ x) e = elim (Option-cases (walk t 0 (c ∷ x))) [
    | inr (s, f) ↦ rw (longest-some t (c ∷ x) f, label-some (c ∷ x) f) refl
    | inl f ↦ rw (longest-none t c x f) (ends-other t p c x e f ∙ ends-longest p x e)
  ]
