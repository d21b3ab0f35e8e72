-- ===== src/PageAcsm/Examples.antt =====
-- Runs of the automaton for pages, and witnesses.
use school_project.Common.{
  ◌≡◌, refl, none, some, List, [], ◌∷◌, ◌>>=◌, codes, Bytes, bytes_eq, arith,
}
use school_project.Acsm.{acsm_compile, del_after}
use school_project.Acsm.Patterns.{times}
use school_project.Acsm.Insertion.{AllPatterns}
use school_project.PageAcsm.{PageAcsm, acsmnew, acsmadd_pattern, acsmdel_pattern, acsmcompile}
use school_project.PageAcsm.Same.{plain, plain_option, acsmcompile-plain}
use school_project.PageAcsm.Compile.{IsPageCompiled, acsmcompile-IsPageCompiled}

abbrev two_patterns : List Bytes
two_patterns = codes "he" ∷ codes "she" ∷ []

abbrev two_added : PageAcsm
two_added = record {
  max_states = 0;
  num_states = 0;
  patterns = two_patterns;
  state_table = none;
  dept = λ s. 0;
}

two_built : acsmadd_pattern (acsmadd_pattern acsmnew (codes "she")) (codes "he") ≡ two_added
unfolding acsmnew acsmadd_pattern
two_built = refl

she_removed :
    (acsmdel_pattern two_added (codes "she") >>= λ a. some a.patterns) ≡ some (codes "he" ∷ [])
unfolding acsmdel_pattern bytes_eq del_after
she_removed = refl

she_is_three_deep : (acsmcompile two_added >>= λ a. some (a.dept 5)) ≡ some 3
unfolding acsmcompile
she_is_three_deep = refl

two_bytes : AllPatterns two_patterns
two_bytes = ground arith

acsmcompile-plain_example : plain_option (acsmcompile two_added) ≡ acsm_compile (plain two_added)
acsmcompile-plain_example = acsmcompile-plain two_added

acsmcompile-IsPageCompiled_example :
    (a' : PageAcsm) × (acsmcompile two_added ≡ some a') × IsPageCompiled two_added a'
unfolding times bytes_eq
acsmcompile-IsPageCompiled_example = acsmcompile-IsPageCompiled two_added two_bytes refl
