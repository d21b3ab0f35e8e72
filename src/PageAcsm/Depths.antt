-- ===== src/PageAcsm/Depths.antt =====
-- acsm.c: `dept` is the number of bytes that lead to a state.
use mathlib.Core.List.{foldl}
use mathlib.Core.Option.{some-injective}
use school_project.Common.{
  ℕ, zero, suc, ◌+◌, ◌≤◌, ◌≡◌, refl, sym, ◌∙◌, some, List, [], ◌∷◌, ◌&&◌, ◌==◌, if◌then◌else◌,
  arith, Bytes, Bool-cases, inl, inr,
}
use school_project.Acsm.{set_next, follow_pattern, empty_table}
use school_project.Acsm.States.{==→eq, follow_pattern-IsStuck}
use school_project.Acsm.Rows.{next-set_next, next-add_entry}
use school_project.Acsm.Labels.{IsBuilt}
use school_project.Acsm.Failure.{depth, parent}
use school_project.PageAcsm.{PageBuilding, new_page_states, add_page_pattern, page_states}
use school_project.PageAcsm.Same.{plain_building}

-- A transition leads one deeper, and no state is beyond the last.
pub record IsDeep (b : PageBuilding) : Type 0 where
  pub root : b.dept 0 ≡ 0
  pub child :
      (s c n : ℕ)
      → (b.table s).next_state c ≡ some n
      → (s ≤ b.num) × (n ≤ b.num) × (b.dept n ≡ b.dept s + 1)

abbrev grown : PageBuilding → ℕ → ℕ → PageBuilding
grown b s c = record {
  table = set_next b.table s c (some (b.num + 1));
  num = b.num + 1;
  dept = λ k. if k == b.num + 1 then b.dept s + 1 else b.dept k;
}

grown-IsDeep : (b : PageBuilding) (s c : ℕ) → IsDeep b → s ≤ b.num → IsDeep (grown b s c)
grown-IsDeep b s c i h = record {
  root = ground (arith, i.root);
  child = λ a d n e.
      let w = sym (next-set_next b.table s c (some (b.num + 1)) a d) ∙ e in
      elim (Bool-cases (a == s && d == c)) [
        | inl x ↦
            let here : a ≡ s = ground arith in
            let new : n ≡ b.num + 1 = sym (some-injective _ _ (rw x at w)) in
            (omega arith, omega arith, rw (new, here) (ground arith))
        | inr x ↦
            let (from, to, deep) = i.child a d n (rw x at w) in
            (omega arith, omega arith, ground (arith, deep))
      ];
}

new_page_states-IsDeep :
    (b : PageBuilding) (s : ℕ) (p : Bytes) → IsDeep b → s ≤ b.num → IsDeep (new_page_states b s p).0
unfolding new_page_states
new_page_states-IsDeep b s [] i h = i
new_page_states-IsDeep b s (c ∷ p) i h =
    new_page_states-IsDeep (grown b s c) (b.num + 1) p (grown-IsDeep b s c i h) (omega arith)

add_page_pattern-IsDeep : (b : PageBuilding) (p : Bytes) → IsDeep b → IsDeep (add_page_pattern b p)
unfolding add_page_pattern
add_page_pattern-IsDeep b p i =
    let f = follow_pattern b.table 0 p in
    let stop =
      follow_pattern-IsStuck (plain_building b) 0 p
        (λ s c n e. let (from, to, _) = i.child s c n e in (from, to)) (omega arith) in
    let r = new_page_states b f.0 f.1 in
    let j = new_page_states-IsDeep b f.0 f.1 i stop.1 in
    record {
      root = j.root;
      child = λ s c n e. j.child s c n (sym (next-add_entry r.0.table r.1 p s c) ∙ e);
    }

foldl-IsDeep :
    (ps : List Bytes) (b : PageBuilding) → IsDeep b → IsDeep (foldl add_page_pattern b ps)
foldl-IsDeep [] b i = i
foldl-IsDeep (p ∷ ps) b i = foldl-IsDeep ps (add_page_pattern b p) (add_page_pattern-IsDeep b p i)

pub page_states-IsDeep : (ps : List Bytes) → IsDeep (page_states ps)
unfolding page_states empty_table
page_states-IsDeep ps =
    foldl-IsDeep ps (record { table = empty_table; num = 0; dept = λ s. 0 })
      (record { root = refl; child = λ s c n e. absurd (cc e) })

-- In a tree of labels the depth of a state is the length of its label.
pub dept-depth :
    {b : PageBuilding} {label : ℕ → Bytes} {added : Bytes → ℕ}
    → IsDeep b
    → IsBuilt (plain_building b) label added
    → (k s : ℕ) → s ≤ b.num
    → depth label s ≤ k
    → b.dept s ≡ depth label s
dept-depth {b} {label} i v zero s h d = elim (Bool-cases (s == 0)) [
  | inl z ↦ rw (==→eq s 0 z, v.tree.root) i.root
  | inr z ↦ let (p, a, x, y) = parent v s h (λ x. absurd (ground arith)) in absurd (omega arith)
]
dept-depth {b} {label} i v (suc k) s h d = elim (Bool-cases (s == 0)) [
  | inl z ↦ rw (==→eq s 0 z, v.tree.root) i.root
  | inr z ↦
      let (p, a, x, y) = parent v s h (λ x. absurd (ground arith)) in
      let (from, to, deep) = i.child p a s x in omega (arith, dept-depth i v k p from (omega arith))
]
