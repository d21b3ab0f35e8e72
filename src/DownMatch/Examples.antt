-- ===== src/DownMatch/Examples.antt =====
-- down_string_match.c: a run, and a witness.
use school_project.Common.{ℕ, ◌≡◌, refl, none, some, List, [], ◌∷◌, ◌>>=◌, codes, bytes_eq, arith}
use school_project.PageSearch.{Token, match_at, acch}
use school_project.PageAcsm.{acsmcompile, acsmadd_pattern}
use school_project.StringMatcher.Pairs.{one_more, one_less}
use school_project.StringMatcher.Changes.{IsWord}
use school_project.DownMatch.{DownPair, down_ac, search_page}
use school_project.DownMatch.Changes.{
  DownChange, add_down, del_down, run, after_all, AllAllowed, Reports,
}
use school_project.DownMatch.Histories.{run-Reports}

-- "he" is added twice and deleted once, "x" is added and deleted.
abbrev five_changes : List DownChange
five_changes =
    add_down (codes "he")
    ∷ add_down (codes "x")
    ∷ add_down (codes "he")
    ∷ del_down (codes "he")
    ∷ del_down (codes "x")
    ∷ []

abbrev literal : ℕ → Token
literal c = record { l = c; dist = 0 }

abbrev nothing_yet : ℕ → ℕ
nothing_yet i = 0

he_found :
    (run down_ac (add_down (codes "he") ∷ []) >>= λ p.
    search_page p nothing_yet nothing_yet [] (literal 104 ∷ literal 101 ∷ []))
    ≡ some (match_at 1 (codes "he"))
unfolding run down_ac search_page acsmcompile acsmadd_pattern acch
he_found = refl

he_IsWord : IsWord (codes "he")
he_IsWord = ((ground arith, (ground arith, tt)), λ e. absurd (cc e))

x_IsWord : IsWord (codes "x")
x_IsWord = ((ground arith, tt), λ e. absurd (cc e))

five_allowed : AllAllowed none five_changes
unfolding one_more one_less bytes_eq
five_allowed = (
  he_IsWord,
  (x_IsWord, (he_IsWord, ((codes "he", ground arith), ((codes "x", ground arith), tt)))),
)

run-Reports_example :
    (p : DownPair) × (run down_ac five_changes ≡ some p) × Reports (after_all none five_changes) p
run-Reports_example = run-Reports five_changes five_allowed
