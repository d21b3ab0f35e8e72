-- ===== src/StringMatcher/Examples.antt =====
-- string_matcher.c: a run, and a witness.
use school_project.Common.{◌≡◌, refl, none, some, [], ◌∷◌, List, codes, ◌>>=◌, arith, bytes_eq}
use school_project.Acsm.{acsm_search_kw}
use school_project.Acsm.{acsm_compile, acsm_add_pattern, acsm_search}
use school_project.StringMatcher.{
  init_ac, addstr, kw_match, kw_match_N, get_keywords, get_keywords_N,
}
use school_project.StringMatcher.{Matchers, url_match}
use school_project.StringMatcher.Changes.{
  Change, add_kw, add_url, del_kw, run, empty_shelves, after_all, AllAllowed, IsWord, Finds,
}
use school_project.StringMatcher.Histories.{run-Finds}
use school_project.StringMatcher.Pairs.{one_more, one_less}

one_match : (addstr (init_ac none) (codes "a") >>= λ m. kw_match m (codes "ba")) ≡ some 1
unfolding addstr init_ac kw_match acsm_compile acsm_add_pattern acsm_search
one_match = refl

-- One word is added twice and deleted once, another is added.
abbrev four_changes : List Change
four_changes =
    add_kw (codes "he") ∷ add_url (codes "she") ∷ add_kw (codes "he") ∷ del_kw (codes "he") ∷ []

he_IsWord : IsWord (codes "he")
he_IsWord = ((ground arith, (ground arith, tt)), λ e. absurd (cc e))

she_IsWord : IsWord (codes "she")
she_IsWord = ((ground arith, (ground arith, (ground arith, tt))), λ e. absurd (cc e))

four_allowed : AllAllowed empty_shelves four_changes
unfolding one_more one_less bytes_eq
four_allowed = (he_IsWord, (she_IsWord, (he_IsWord, ((codes "he", ground arith), tt))))

run-Finds_example :
    (m : Matchers) × (run (init_ac none) four_changes ≡ some m)
    × Finds (after_all empty_shelves four_changes).kw (kw_match m) (get_keywords m)
    × Finds (after_all empty_shelves four_changes).kw_N (kw_match_N m) (get_keywords_N m)
    × Finds (after_all empty_shelves four_changes).url (url_match m) (acsm_search_kw m.url.active)
    × (m.requests ≡ none)
run-Finds_example = run-Finds none four_changes four_allowed
