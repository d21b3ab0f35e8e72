-- ===== src/Acsm/Examples.antt =====
-- Runs of acsmx.c, and witnesses.
use school_project.Common.{
  ℕ, ◌+◌, ◌*◌, ◌-◌, ◌≤◌, ◌<◌, ◌≡◌, ◌≢◌, refl, ◌>>=◌, none, some, List, [], ◌∷◌, codes, Bytes,
  if◌then◌else◌, bytes_eq, length, arith,
}
use mathlib.Core.List.{Memᴰ}
use school_project.Acsm.{
  Acsm, acsm_new, acsm_add_pattern, acsm_del_pattern, acsm_compile, acsm_search, acsm_search_kw,
  acsm_search_offset, pattern_states, total_length, close_root,
}
use school_project.Acsm.Search.{acsm_search-counts, count}
use school_project.Acsm.Patterns.{del_pattern_exact, times}
use school_project.Acsm.Insertion.{AllPatterns}
use school_project.Acsm.Compile.{IsCompiled, acsm_compile-IsCompiled}
use school_project.Acsm.Occurrences.{acsm_compile-search, occurrences}
use school_project.Acsm.States.{pattern_states-Accepts, Accepts}

she_then_he_found :
    acsm_compile (acsm_add_pattern (acsm_add_pattern acsm_new (codes "he")) (codes "she"))
      >>= (λ a. acsm_search_kw a (codes "ushe"))
    ≡ some (codes "he" ∷ codes "she" ∷ [])
unfolding acsm_new acsm_add_pattern acsm_compile acsm_search_kw
she_then_he_found = refl

abbrev two_patterns : List Bytes
two_patterns = codes "he" ∷ codes "she" ∷ []

abbrev two_added : Acsm
two_added = record { max_states = 0; num_states = 0; patterns = two_patterns; state_table = none }

abbrev two_found : Acsm
two_found = record two_added { state_table = some (close_root (pattern_states two_patterns).table) }

acsm_search-counts_example :
    (acsm_search two_found (codes "ushe") ≡ count (acsm_search_kw two_found (codes "ushe")))
    × (acsm_search two_found (codes "ushe") ≡ count (acsm_search_offset two_found (codes "ushe")))
acsm_search-counts_example = acsm_search-counts two_found (codes "ushe")

del_pattern_exact_example :
    (two_added.patterns ≡ [] → acsm_del_pattern two_added (codes "he") ≡ none)
    × (two_added.patterns ≢ []
        → (ps : List Bytes) × (acsm_del_pattern two_added (codes "he")
            ≡ some (record two_added { patterns = ps }))
          × ((q : Bytes)
              → times q ps ≡ (
                  if bytes_eq (codes "he") q
                  then times q two_patterns - 1
                  else times q two_patterns)))
    × (acsm_del_pattern (acsm_add_pattern two_added (codes "he")) (codes "he") ≡ some two_added)
del_pattern_exact_example = del_pattern_exact two_added (codes "he")

pattern_states-Accepts_example :
    ((pattern_states two_patterns).num < 1 + total_length two_patterns)
    × ((s c n : ℕ)
        → ((pattern_states two_patterns).table s).next_state c ≡ some n
        → (s ≤ (pattern_states two_patterns).num) × (n ≤ (pattern_states two_patterns).num))
    × ((p : Bytes) → Memᴰ p two_patterns → Accepts (pattern_states two_patterns).table p)
pattern_states-Accepts_example = pattern_states-Accepts two_patterns

two_bytes : AllPatterns two_patterns
two_bytes = ground arith

acsm_compile-search_example :
    (kw : List Bytes) × ((acsm_compile two_added >>= λ a'. acsm_search_kw a' (codes "ushe"))
      ≡ some kw)
    × ((acsm_compile two_added >>= λ a'. acsm_search a' (codes "ushe")) ≡ some (length kw))
    × ((p : Bytes) → times p kw ≡ times p two_added.patterns * occurrences p (codes "ushe"))
unfolding times bytes_eq
acsm_compile-search_example =
    acsm_compile-search two_added (codes "ushe") two_bytes refl (ground arith)

acsm_compile-IsCompiled_example :
    (a' : Acsm) × (acsm_compile two_added ≡ some a') × IsCompiled two_added a'
unfolding times bytes_eq
acsm_compile-IsCompiled_example = acsm_compile-IsCompiled two_added two_bytes refl
