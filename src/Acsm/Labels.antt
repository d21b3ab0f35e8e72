-- ===== src/Acsm/Labels.antt =====
-- acsmx.c, `AddPatternStates`: the states form a tree, and each lists the patterns that are its label.
use mathlib.Core.Path.{subst}
use mathlib.Core.Option.{some-injective}
use school_project.Common.{
  ℕ, zero, suc, ◌+◌, ◌≤◌, ◌<◌, ◌≡◌, ◌≢◌, ◌⊎◌, refl, sym, ap, ◌∙◌, none, some, [], ◌∷◌, ◌++◌, arith,
  ◌==◌, if◌then◌else◌, ◌&&◌, Bytes, Bool-cases, inl, inr, bytes_eq, eq_of_bytes_eq,
}
use school_project.Acsm.{Building, set_next}
use school_project.Acsm.States.{walk, walk-Grows, set_next-Grows, next-of_set, IsMade, ==→eq}
use school_project.Acsm.Rows.{next-set_next, list-set_next}
use school_project.Acsm.Patterns.{times}
use school_project.Acsm.Tree.{IsTree, walk-append, walk-one}

abbrev pub AllBytes : Bytes → Type 0
AllBytes [] = Unit
AllBytes (c ∷ p) = (c < 256) × AllBytes p

abbrev pub relabel : (ℕ → Bytes) → ℕ → Bytes → ℕ → Bytes
relabel label k w j = if j == k then w else label j

-- The tree, and how often each state lists a pattern: as often as `added` says, at the state that
-- the pattern labels.
pub record IsBuilt (b : Building) (label : ℕ → Bytes) (added : Bytes → ℕ) : Type 0 where
  pub tree : IsTree b.table label b.num
  pub listed :
      (s : ℕ) (q : Bytes)
      → s ≤ b.num
      → times q (b.table s).match_list ≡ (if bytes_eq q (label s) then added q else 0)
  pub empty : (s : ℕ) → b.num < s → (b.table s).match_list ≡ []
  pub held : (q : Bytes) → added q ≢ 0 → (s : ℕ) × (s ≤ b.num) × (label s ≡ q)

pub IsBuilt-IsMade :
    {b : Building} {label : ℕ → Bytes} {added : Bytes → ℕ} → IsBuilt b label added → IsMade b
IsBuilt-IsMade v s c n e = let (_, h, k, _) = v.tree.child s c n e in (h, k)

-- The building with one more state, below `s`.
abbrev pub grown : Building → ℕ → ℕ → Building
grown b s c = record { table = set_next b.table s c (some (b.num + 1)); num = b.num + 1 }

pub zero_or_not : (n : ℕ) → (n ≡ 0) ⊎ (n ≢ 0)
zero_or_not zero = inl refl
zero_or_not (suc n) = inr (λ e. absurd (omega arith))

module _ {b : Building} {label : ℕ → Bytes} {added : Bytes → ℕ} (v : IsBuilt b label added)
    (s c : ℕ) (h : s ≤ b.num) (free : (b.table s).next_state c ≡ none) (byte : c < 256) where
  abbrev pub longer : ℕ → Bytes
  longer = relabel label (b.num + 1) (label s ++ c ∷ [])

  longer-old : (j : ℕ) → j ≤ b.num → longer j ≡ label j
  longer-old j k = ground arith

  pub longer-new : longer (b.num + 1) ≡ label s ++ c ∷ []
  longer-new = ground arith

  grown-child :
      (a d n : ℕ)
      → ((grown b s c).table a).next_state d ≡ some n
      → (longer n ≡ longer a ++ d ∷ []) × (a ≤ b.num + 1) × (n ≤ b.num + 1) × (d < 256)
  grown-child a d n e =
      let w = sym (next-set_next b.table s c (some (b.num + 1)) a d) ∙ e in
      elim (Bool-cases (a == s && d == c)) [
        | inl x ↦
            let here : a ≡ s = ground arith in
            let last : d ≡ c = ground arith in
            let new : n ≡ b.num + 1 = sym (some-injective _ _ (rw x at w)) in
            (
              rw (new, here, last) (longer-new ∙ ap (λ u. u ++ c ∷ []) (sym (longer-old s h))),
              omega arith,
              omega arith,
              omega arith,
            )
        | inr x ↦
            let (lab, from, to, small) = v.tree.child a d n (rw x at w) in
            (
              longer-old n to ∙ lab ∙ ap (λ u. u ++ d ∷ []) (sym (longer-old a from)),
              omega arith,
              omega arith,
              small,
            )
      ]

  grown-reached : (j : ℕ) → j ≤ b.num + 1 → walk (grown b s c).table 0 (longer j) ≡ some j
  grown-reached j k =
      let g = set_next-Grows b.table s c (some (b.num + 1)) free in
      elim (Bool-cases (j == b.num + 1)) [
        | inl x ↦
            let at : j ≡ b.num + 1 = ==→eq j (b.num + 1) x in
            rw
              (
                at,
                longer-new,
                walk-append (grown b s c).table 0 (label s) (c ∷ []),
                walk-Grows g 0 (label s) (v.tree.reached s h),
                walk-one (grown b s c).table s c,
              )
              (next-of_set b.table s c (some (b.num + 1)))
        | inr x ↦
            let k' : j ≤ b.num = ground arith in
            rw (longer-old j k') (walk-Grows g 0 (label j) (v.tree.reached j k'))
      ]

  grown-IsTree : IsTree (grown b s c).table longer (b.num + 1)
  grown-IsTree = record {
    root = longer-old 0 (omega arith) ∙ v.tree.root;
    child = λ a d n e. grown-child a d n e;
    reached = λ j k. grown-reached j k;
  }

  -- No pattern that was added has the label of the new state.
  unused : (q : Bytes) → q ≡ label s ++ c ∷ [] → added q ≡ 0
  unused q e = elim (zero_or_not (added q)) [
    | inl z ↦ z
    | inr n ↦
        let (j, k, f) = v.held q n in
        let there : walk b.table 0 (label s ++ c ∷ []) ≡ some j =
          subst (λ u. walk b.table 0 u ≡ some j) (f ∙ e) (v.tree.reached j k) in
        absurd (
          cc (
            rw
              (
                walk-append b.table 0 (label s) (c ∷ []),
                v.tree.reached s h,
                walk-one b.table s c,
                free,
              )
              at there))
  ]

  grown-listed :
      (j : ℕ) (q : Bytes)
      → j ≤ b.num + 1
      → times q ((grown b s c).table j).match_list ≡ (if bytes_eq q (longer j) then added q else 0)
  unfolding times
  grown-listed j q k = elim (Bool-cases (j == b.num + 1)) [
    | inl x ↦
        let at : j ≡ b.num + 1 = ==→eq j (b.num + 1) x in
        rw
          (
            at,
            list-set_next b.table s c (some (b.num + 1)) (b.num + 1),
            v.empty (b.num + 1) (omega arith),
            longer-new,
          )
          (elim (Bool-cases (bytes_eq q (label s ++ c ∷ []))) [
            | inl y ↦ rw (y, unused q (eq_of_bytes_eq q (label s ++ c ∷ []) y)) refl
            | inr y ↦ rw y refl
          ])
    | inr x ↦
        let k' : j ≤ b.num = ground arith in
        rw (list-set_next b.table s c (some (b.num + 1)) j, longer-old j k') (v.listed j q k')
  ]

  pub grown-IsBuilt : IsBuilt (grown b s c) longer added
  grown-IsBuilt = record {
    tree = grown-IsTree;
    listed = λ j q k. grown-listed j q k;
    empty = λ j k. list-set_next b.table s c (some (b.num + 1)) j ∙ v.empty j (omega arith);
    held = λ q n. let (j, k, e) = v.held q n in (j, omega arith, longer-old j k ∙ e);
  }
