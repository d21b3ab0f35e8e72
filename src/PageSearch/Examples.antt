-- ===== src/PageSearch/Examples.antt =====
-- Runs of acsm.c, and witnesses.
use school_project.Common.{
  ◌⊎◌, ℕ, ◌≡◌, ◌<◌, ◌≢◌, refl, ap, ◌>>=◌, Option, none, some, List, [], ◌∷◌, codes, Bytes, length,
  arith, Bool-cases, inl, inr, bytes_eq, eq_of_bytes_eq,
}
use school_project.Acsm.Patterns.{times}
use school_project.Acsm.Insertion.{AllPatterns}
use school_project.PageAcsm.{PageAcsm, acsmnew, acsmadd_pattern, acsmcompile}
use school_project.PageAcsm.Compile.{IsPageCompiled, acsmcompile-IsPageCompiled}
use school_project.PageSearch.{Token, Found, no_match, match_at, acch, decodeing, keyword_size}
use school_project.PageSearch.Literals.{literal, literals, acch-literals}
use school_project.Acsm.Occurrences.{occurrences}
use school_project.PageSearch.Sound.{OccursSome, AreBytes, Reported, acch-Reported}

abbrev nothing_yet : ℕ → ℕ
nothing_yet i = 0

abbrev run : Bytes → List Token → Option Found
run p ks = do
  a ← acsmcompile (acsmadd_pattern acsmnew p)
  t ← a.state_table
  acch (record { table = t; dept = a.dept }) nothing_yet nothing_yet [] ks

-- "abc", and its repetition.
abbrev twice : List Token
twice = literal 97 ∷ literal 98 ∷ literal 99 ∷ record { l = 0; dist = 3 } ∷ []

twice_decoded : decodeing twice [] ≡ some (codes "abcabc")
unfolding decodeing
twice_decoded = refl

twice_found : run (codes "cabc") twice ≡ some (match_at 3 (codes "cabc"))
unfolding acsmnew acsmadd_pattern acsmcompile acch
twice_found = refl

-- "zabcdefgza", its first eight bytes again, and "h".
abbrev split_keyword : List Token
split_keyword =
    literal 122
    ∷ literal 97
    ∷ literal 98
    ∷ literal 99
    ∷ literal 100
    ∷ literal 101
    ∷ literal 102
    ∷ literal 103
    ∷ literal 122
    ∷ literal 97
    ∷ record { l = 5; dist = 10 }
    ∷ literal 104
    ∷ []

split_keyword_decoded : decodeing split_keyword [] ≡ some (codes "zabcdefgzazabcdefgh")
unfolding decodeing
split_keyword_decoded = refl

-- The keyword stands in the page, and the search does not report it.
split_keyword_missed : run (codes "abcdefgh") split_keyword ≡ some no_match
unfolding acsmnew acsmadd_pattern acsmcompile acch
split_keyword_missed = refl

abbrev cabc : PageAcsm
cabc = record {
  max_states = 0;
  num_states = 0;
  patterns = codes "cabc" ∷ [];
  state_table = none;
  dept = λ s. 0;
}

cabc_bytes : AllPatterns cabc.patterns
cabc_bytes = ground arith

cabc_compiled : (a' : PageAcsm) × (acsmcompile cabc ≡ some a') × IsPageCompiled cabc a'
unfolding times bytes_eq
cabc_compiled = acsmcompile-IsPageCompiled cabc cabc_bytes refl

cabc_short : (p : Bytes) → times p cabc.patterns ≢ 0 → length p < keyword_size
unfolding times bytes_eq
cabc_short p n = elim (Bool-cases (bytes_eq p (codes "cabc"))) [
  | inl e ↦ omega (arith, ap length (eq_of_bytes_eq p (codes "cabc") e))
  | inr e ↦ absurd (n (rw (e, times) refl))
]

acch-Reported_example :
    Reported
      (λ p. times p cabc.patterns)
      (codes "abcabc")
      (acch
        (record { table = cabc_compiled.2.compiled.table; dept = cabc_compiled.0.dept })
        nothing_yet
        nothing_yet
        []
        twice)
unfolding AreBytes decodeing
acch-Reported_example =
    acch-Reported cabc cabc_compiled.0 cabc_compiled.2 cabc_short nothing_yet nothing_yet [] twice
      (codes "abcabc") (ground arith) refl (ground arith)

acch-literals_example :
    ((k : ℕ) × (kw : Bytes) × (acch
          (record { table = cabc_compiled.2.compiled.table; dept = cabc_compiled.0.dept })
          nothing_yet
          nothing_yet
          []
          (literals (codes "xcabc"))
        ≡ some (match_at k kw))
      × OccursSome (λ p. times p cabc.patterns) (codes "xcabc"))
    ⊎ ((acch
            (record { table = cabc_compiled.2.compiled.table; dept = cabc_compiled.0.dept })
            nothing_yet
            nothing_yet
            []
            (literals (codes "xcabc"))
          ≡ some no_match)
        × ((p : Bytes) → times p cabc.patterns ≢ 0 → occurrences p (codes "xcabc") ≡ 0))
acch-literals_example =
    acch-literals cabc cabc_compiled.0 cabc_compiled.2 cabc_short nothing_yet nothing_yet []
      (codes "xcabc") (ground arith) (ground arith)
