-- ===== src/RuleAccepter/Faults.antt =====
-- rule_accepter.c: commands with too few bars.
use school_project.Common.{
  ℕ, zero, suc, ◌+◌, ◌<◌, ◌≡◌, refl, Option, none, some, [], ◌∷◌, ◌==◌, if◌then◌else◌, ◌>>=◌, Bytes,
  arith, Bool-cases, Option-cases, inl, inr,
}
use school_project.RuleAccepter.{
  after_bar, first, skip_bars, keyword_rule, userid_rule, resourceid_rule, url_rule, rule_process,
}

unfoldable pub bars : Bytes → ℕ
bars [] = 0
bars (c ∷ s) = if c == b'|' then suc (bars s) else bars s

-- The bars that a command of a type has in front of its last field.
unfoldable pub needed : ℕ → ℕ
needed d =
    if d == b'1'
    then 9
    else if d == b'2'
    then 8
    else if d == b'3'
    then 8
    else if d == b'4'
    then 7
    else 0

after_bar-bars : (s s' : Bytes) → after_bar s ≡ some s' → bars s ≡ suc (bars s')
unfolding after_bar bars
after_bar-bars [] s' e = cc
after_bar-bars (c ∷ s) s' e = elim (Bool-cases (c == b'|')) [
  | inl h ↦ ground arith
  | inr h ↦ ground (arith, after_bar-bars s s')
]

skip_bars-bars : (k : ℕ) (s s' : Bytes) → skip_bars k s ≡ some s' → bars s ≡ k + bars s'
unfolding skip_bars
skip_bars-bars zero s s' e = ground arith
skip_bars-bars (suc k) s s' e = elim (Option-cases (after_bar s)) [
  | inl h ↦ absurd (cc (rw h at e))
  | inr (r, h) ↦ omega (arith, after_bar-bars s r h, skip_bars-bars k r s' (rw h at e))
]

-- If what follows a skip has too few bars in each case, so has the whole.
skip_bars-then :
    {B : Type 0} (k : ℕ) (s : Bytes) (f : Bytes → Option B)
    → ((s' : Bytes) → bars s ≡ k + bars s' → f s' ≡ none)
    → (skip_bars k s >>= f) ≡ none
skip_bars-then k s f h = elim (Option-cases (skip_bars k s)) [
  | inl e ↦ rw e refl
  | inr (s', e) ↦ rw e (h s' (skip_bars-bars k s s' e))
]

keyword_rule-few : (rule : Bytes) → bars rule < 9 → keyword_rule rule ≡ none
unfolding keyword_rule
keyword_rule-few rule n = skip_bars-then 2 rule _ (λ keyword e.
    skip_bars-then 4 keyword _ (λ state f.
      skip_bars-then 2 state _
        (λ workmode g. skip_bars-then 1 workmode _ (λ up_or_down h. absurd (omega arith)))))

userid_rule-few : (rule : Bytes) → bars rule < 8 → userid_rule rule ≡ none
unfolding userid_rule
userid_rule-few rule n = skip_bars-then 2 rule _ (λ userid e. skip_bars-then 1 userid _ (λ action f.
    skip_bars-then 4 action _
      (λ state g. skip_bars-then 1 state _ (λ webtype h. absurd (omega arith)))))

resourceid_rule-few : (rule : Bytes) → bars rule < 8 → resourceid_rule rule ≡ none
unfolding resourceid_rule
resourceid_rule-few rule n = skip_bars-then 2 rule _ (λ resourceid e.
    skip_bars-then 1 resourceid _ (λ action f.
      skip_bars-then 4 action _
        (λ state g. skip_bars-then 1 state _ (λ webtype h. absurd (omega arith)))))

url_rule-few : (rule : Bytes) → bars rule < 7 → url_rule rule ≡ none
unfolding url_rule
url_rule-few rule n = skip_bars-then 2 rule _ (λ keyword e.
    skip_bars-then 4 keyword _
      (λ state f. skip_bars-then 1 state _ (λ webtype g. absurd (omega arith))))

-- A command of the types 1 to 4 with fewer bars than the fields of its type need makes no call, but
-- reads through NULL + 1.
pub rule_process-few_bars :
    (rule : Bytes) → bars rule < needed (first rule) → rule_process rule ≡ none
unfolding rule_process needed
rule_process-few_bars rule n = elim (Bool-cases (first rule == b'1')) [
  | inl e ↦ rw e (keyword_rule-few rule (rw e at n))
  | inr e ↦ rw e (elim (Bool-cases (first rule == b'2')) [
    | inl f ↦ rw f (userid_rule-few rule (rw (e, f) at n))
    | inr f ↦ rw f (elim (Bool-cases (first rule == b'3')) [
      | inl g ↦ rw g (resourceid_rule-few rule (rw (e, f, g) at n))
      | inr g ↦ rw g (elim (Bool-cases (first rule == b'4')) [
        | inl h ↦ rw h (url_rule-few rule (rw (e, f, g, h) at n))
        | inr h ↦ absurd (omega (arith, rw (e, f, g, h) at n))
      ])
    ])
  ])
]
