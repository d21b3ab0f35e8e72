-- ===== src/RuleAccepter/Fields.antt =====
-- rule_accepter.c: fields with bars behind them, and how they are taken apart.
use school_project.Common.{
  ◌≡◌, ◌≢◌, refl, Bool, true, false, some, List, [], ◌∷◌, ◌++◌, ◌==◌, if◌then◌else◌, Bytes, arith,
  Bool-cases, inl, inr,
}
use school_project.RuleAccepter.{after_bar, field}

-- No bars.
abbrev pub IsField : Bytes → Type 0
IsField [] = Unit
IsField (c ∷ s) = (c ≢ b'|') × IsField s

unfoldable pub is_field : Bytes → Bool
is_field [] = true
is_field (c ∷ s) = if c == b'|' then false else is_field s

pub IsField-of_test : (s : Bytes) → is_field s ≡ true → IsField s
unfolding is_field
IsField-of_test [] h = tt
IsField-of_test (c ∷ s) h = elim (Bool-cases (c == b'|')) [
  | inl e ↦ absurd (cc (rw e at h))
  | inr e ↦ ((λ x. absurd (ground arith)), IsField-of_test s (ground arith))
]

-- Each field with a bar behind it.
abbrev pub line : List Bytes → Bytes
line [] = []
line (f ∷ fs) = f ++ (b'|' ∷ line fs)

pub after_bar-line : (f : Bytes) (s : Bytes) → IsField f → after_bar (f ++ (b'|' ∷ s)) ≡ some s
unfolding after_bar
after_bar-line [] s h = refl
after_bar-line (c ∷ f) s h = ground (arith, after_bar-line f s h.1)

pub field-line : (f : Bytes) (s : Bytes) → IsField f → field (f ++ (b'|' ∷ s)) ≡ f
unfolding field
field-line [] s h = refl
field-line (c ∷ f) s h = ground (arith, field-line f s h.1)
