-- ===== src/Acsm/Failure.antt =====
-- acsmx.c, `Build_DFA`: what each transition, each failure state and each list has to be.
use mathlib.Core.Path.{subst}
use school_project.Common.{
  ℕ, ◌+◌, ◌≤◌, ◌<◌, ◌≡◌, ◌≢◌, ◌⊎◌, refl, sym, ap, ◌∙◌, true, none, some, [], ◌∷◌, ◌++◌, ◌||◌, arith,
  if◌then◌else◌, Bytes, length, Bool-cases, inl, inr, bytes_eq, eq_of_bytes_eq,
}
use school_project.Acsm.{StateTable, Building}
use school_project.Acsm.States.{walk}
use school_project.Acsm.Tree.{walk-append, walk-one, label-injective, walk-split, child-length}
use school_project.Acsm.Labels.{IsBuilt, zero_or_not}
use school_project.Acsm.Longest.{
  longest, longest-some, longest-none, longest-nil, longest-append, longest-le, length-longest,
  ends, ends-longest, tail,
}

abbrev pub delta : StateTable → (ℕ → Bytes) → ℕ → ℕ → ℕ
delta t label s c = longest t (label s ++ c ∷ [])

abbrev pub failure : StateTable → (ℕ → Bytes) → ℕ → ℕ
failure t label s = longest t (tail (label s))

abbrev pub depth : (ℕ → Bytes) → ℕ → ℕ
depth label s = length (label s)

-- How often a state lists a pattern in the end.
abbrev pub wanted : (ℕ → Bytes) → (Bytes → ℕ) → ℕ → Bytes → ℕ
wanted label added s q = if ends q (label s) then added q else 0

Bytes-cases : (x : Bytes) → (x ≡ []) ⊎ ((c : ℕ) × (y : Bytes) × (x ≡ c ∷ y))
Bytes-cases [] = inl refl
Bytes-cases (c ∷ x) = inr (c, x, refl)

bytes_eq-length : (p x : Bytes) → bytes_eq p x ≡ true → length p ≡ length x
bytes_eq-length p x e = ap length (eq_of_bytes_eq p x e)

ends-length : (p x : Bytes) → ends p x ≡ true → length p ≤ length x
unfolding ends
ends-length p [] e = omega (arith, bytes_eq-length p [] e)
ends-length p (c ∷ x) e = elim (Bool-cases (bytes_eq p (c ∷ x))) [
  | inl y ↦ omega (arith, bytes_eq-length p (c ∷ x) y)
  | inr y ↦ omega (arith, ends-length p x (rw y at e))
]

ends_or : (p : Bytes) (c : ℕ) (x : Bytes) → ends p (c ∷ x) ≡ (bytes_eq p (c ∷ x) || ends p x)
unfolding ends
ends_or p c x = refl

snoc-cases : (d : ℕ) (x : Bytes) → (u : Bytes) × (c : ℕ) × (d ∷ x ≡ u ++ c ∷ [])
snoc-cases d [] = ([], d, refl)
snoc-cases d (e ∷ x) = let (u, c, y) = snoc-cases e x in (d ∷ u, c, ap (λ w. d ∷ w) y)

-- A text and what is behind its first byte do not both equal a pattern and end in it.
once :
    (q : Bytes) (d : ℕ) (x : Bytes) (m : ℕ)
    → (if bytes_eq q (d ∷ x) then m else 0) + (if ends q x then m else 0)
      ≡ (if bytes_eq q (d ∷ x) || ends q x then m else 0)
once q d x m = elim (Bool-cases (bytes_eq q (d ∷ x))) [
  | inr y ↦ rw y (omega arith)
  | inl y ↦ elim (Bool-cases (ends q x)) [
    | inl z ↦ absurd (omega (arith, bytes_eq-length q (d ∷ x) y, ends-length q x z))
    | inr z ↦ rw (y, z) (omega arith)
  ]
]

module _ {b : Building} {label : ℕ → Bytes} {added : Bytes → ℕ} (v : IsBuilt b label added) where
  pub walk-child :
      (s c : ℕ) → s ≤ b.num → walk b.table 0 (label s ++ c ∷ []) ≡ (b.table s).next_state c
  walk-child s c h =
      walk-append b.table 0 (label s) (c ∷ []) ∙ rw (v.tree.reached s h) (walk-one b.table s c)

  pub label-cons : (s : ℕ) → s ≤ b.num → s ≢ 0 → (d : ℕ) × (x : Bytes) × (label s ≡ d ∷ x)
  label-cons s h n = elim (Bytes-cases (label s)) [
    | inr y ↦ y
    | inl e ↦ absurd (n (label-injective v.tree s 0 h (omega arith) (e ∙ sym v.tree.root)))
  ]

  pub delta-child : (s c n : ℕ) → (b.table s).next_state c ≡ some n → delta b.table label s c ≡ n
  delta-child s c n e =
      let (_, h, _, _) = v.tree.child s c n e in
      longest-some b.table (label s ++ c ∷ []) (walk-child s c h ∙ e)

  pub delta-root : (c : ℕ) → (b.table 0).next_state c ≡ none → delta b.table label 0 c ≡ 0
  delta-root c e =
      let w : walk b.table 0 (c ∷ []) ≡ none = walk-one b.table 0 c ∙ e in
      rw v.tree.root (longest-none b.table c [] w ∙ longest-nil b.table)

  pub delta-failure :
      (s c : ℕ)
      → s ≤ b.num
      → s ≢ 0
      → (b.table s).next_state c ≡ none
      → delta b.table label s c ≡ delta b.table label (failure b.table label s) c
  delta-failure s c h n e =
      let (d, x, y) = label-cons s h n in
      let w : walk b.table 0 (d ∷ (x ++ c ∷ [])) ≡ none =
        subst (λ u. walk b.table 0 (u ++ c ∷ []) ≡ none) y (walk-child s c h ∙ e) in
      rw y (longest-none b.table d (x ++ c ∷ []) w ∙ longest-append v.tree x c)

  pub failure-child :
      (s c n : ℕ)
      → s ≢ 0
      → (b.table s).next_state c ≡ some n
      → failure b.table label n ≡ delta b.table label (failure b.table label s) c
  failure-child s c n z e =
      let (lab, h, _, _) = v.tree.child s c n e in
      let (d, x, y) = label-cons s h z in rw (lab, y) (longest-append v.tree x c)

  pub failure-le : (s : ℕ) → failure b.table label s ≤ b.num
  failure-le s = longest-le v.tree (tail (label s))

  pub depth-failure :
      (s : ℕ) → s ≤ b.num → s ≢ 0 → depth label (failure b.table label s) < depth label s
  depth-failure s h n =
      let (d, x, y) = label-cons s h n in rw y (omega (arith, length-longest v.tree x))

  -- A state's list is its own patterns and the list of its failure state.
  pub wanted-failure :
      (s : ℕ) (q : Bytes)
      → s ≤ b.num
      → s ≢ 0
      → (if bytes_eq q (label s) then added q else 0)
          + wanted label added (failure b.table label s) q
        ≡ wanted label added s q
  wanted-failure s q h n =
      let (d, x, y) = label-cons s h n in
      elim (zero_or_not (added q)) [
        | inl z ↦ rw z (ground arith)
        | inr z ↦
            let (j, k, f) = v.held q z in
            let w : walk b.table 0 q ≡ some j =
              subst (λ u. walk b.table 0 u ≡ some j) f (v.tree.reached j k) in
            rw (y, ← (ends-longest v.tree q x w), ends_or q d x) (once q d x (added q))
      ]

  -- A state that is not the root has a parent.
  pub parent :
      (s : ℕ)
      → s ≤ b.num
      → s ≢ 0
      → (r : ℕ) × (c : ℕ) × ((b.table r).next_state c ≡ some s)
        × (depth label s ≡ depth label r + 1)
  parent s h n =
      let (d, x, y) = label-cons s h n in
      let (u, c, z) = snoc-cases d x in
      let (r, e, f) =
        walk-split b.table 0 u (c ∷ [])
          (subst (λ w. walk b.table 0 w ≡ some s) (y ∙ z) (v.tree.reached s h)) in
      let g = sym (walk-one b.table r c) ∙ f in (r, c, g, child-length v.tree r c s g)
