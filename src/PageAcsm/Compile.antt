-- ===== src/PageAcsm/Compile.antt =====
-- acsm.c: `acsmcompile` ends, with the automaton finished and the depths right.
use mathlib.Core.Path.{subst}
use mathlib.Core.Option.{some-injective}
use school_project.Common.{ℕ, ◌≤◌, ◌≡◌, sym, ap, ◌∙◌, some, [], Option-cases, inl, inr, arith}
use school_project.Acsm.{Building, pattern_states}
use school_project.Acsm.Patterns.{times}
use school_project.Acsm.Labels.{IsBuilt}
use school_project.Acsm.Insertion.{AllPatterns}
use school_project.Acsm.Failure.{depth}
use school_project.Acsm.Compile.{IsCompiled, acsm_compile-IsCompiled}
use school_project.PageAcsm.{PageAcsm, acsmcompile, page_states}
use school_project.PageAcsm.Same.{
  plain, plain_building, plain_option, built, page_states-plain, acsmcompile-plain,
}
use school_project.PageAcsm.Depths.{page_states-IsDeep, dept-depth}

-- The automaton of acsmx.c, and the depths of its states.
pub record IsPageCompiled (a a' : PageAcsm) : Type 0 where
  pub compiled : IsCompiled (plain a) (plain a')
  pub deep : (s : ℕ) → s ≤ (pattern_states a.patterns).num → a'.dept s ≡ depth compiled.label s

dept_kept :
    (a : PageAcsm) {a' : PageAcsm}
    → acsmcompile a ≡ some a'
    → a'.dept ≡ (page_states a.patterns).dept
unfolding acsmcompile
dept_kept a {a'} e = elim (Option-cases (built (page_states a.patterns).table a.patterns)) [
  | inl x ↦ absurd (cc (rw (x, acsmcompile) at e))
  | inr (t, x) ↦ ap (λ r. r.dept) (sym (some-injective _ _ (rw (x, acsmcompile) at e)))
]

deep_lem :
    (a : PageAcsm) {a' : PageAcsm} (i : IsCompiled (plain a) (plain a'))
    → acsmcompile a ≡ some a'
    → (s : ℕ) → s ≤ (pattern_states a.patterns).num
    → a'.dept s ≡ depth i.label s
deep_lem a i e s h =
    let same = page_states-plain a.patterns in
    let v : IsBuilt (plain_building (page_states a.patterns)) i.label (λ p. times p a.patterns) =
      subst (λ b. IsBuilt b i.label (λ p. times p a.patterns)) (sym same) i.built in
    let h' : s ≤ (page_states a.patterns).num = subst (λ (b : Building). s ≤ b.num) (sym same) h in
    ap (λ f. f s) (dept_kept a e)
    ∙ dept-depth (page_states-IsDeep a.patterns) v (depth i.label s) s h' (omega arith)

-- If no pattern is empty and all consist of bytes, `acsmcompile` ends with the automaton that
-- acsmx.c's `acsmCompile` builds, in which `dept` is the number of bytes that lead to a state.
pub acsmcompile-IsPageCompiled :
    (a : PageAcsm)
    → AllPatterns a.patterns
    → times [] a.patterns ≡ 0
    → (a' : PageAcsm) × (acsmcompile a ≡ some a') × IsPageCompiled a a'
acsmcompile-IsPageCompiled a bytes nonempty =
    let (b, e, i) = acsm_compile-IsCompiled (plain a) bytes nonempty in
    elim (Option-cases (acsmcompile a)) [
      | inl x ↦ absurd (cc (sym (acsmcompile-plain a), ap plain_option x, e))
      | inr (a', x) ↦
          let same : b ≡ plain a' =
            some-injective _ _ (sym e ∙ sym (acsmcompile-plain a) ∙ ap plain_option x) in
          let i' : IsCompiled (plain a) (plain a') = subst (IsCompiled (plain a)) same i in
          (a', x, record { compiled = i'; deep = λ s h. deep_lem a i' x s h })
    ]
