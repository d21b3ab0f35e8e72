-- ===== src/PageLog/Examples.antt =====
-- Runs of `keyword_match`, and witnesses.
use school_project.Common.{
  ℕ, zero, suc, ◌≡◌, ◌≢◌, ◌≤◌, ◌<◌, refl, Option, none, some, List, [], ◌∷◌, ◌++◌, codes, strstr,
  Bytes, length, arith,
}
use school_project.Acsm.{close_root}
use school_project.PageAcsm.{acsmnew, page_states}
use school_project.PageSearch.{Token, acch, decodeing}
use school_project.DownMatch.{DownPair, search_page}
use school_project.PageLog.{UnicodeToString, Matched, log_text, keyword_match, plain_keyword}
use school_project.PageLog.Texts.{Blanked, IsCut}
use school_project.PageLog.Matches.{AllNonzero, BeginsNul, keyword_match-logs}

-- The end of a character of three bytes, then one such character and a line of a table.
abbrev cut_text : Bytes
cut_text = 173 ∷ 228 ∷ 184 ∷ 173 ∷ codes "a|b\nc"

cut_text_logged : log_text cut_text ≡ some (228 ∷ 184 ∷ 173 ∷ codes "a b ")
unfolding log_text
cut_text_logged = refl

abbrev x_found : DownPair
x_found = record {
  m = record acsmnew {
    state_table = some (close_root (page_states (codes "x" ∷ [])).table);
    dept = (page_states (codes "x" ∷ [])).dept;
  };
  n = acsmnew;
}

abbrev nothing_yet : ℕ → ℕ
nothing_yet i = 0

abbrev literal : ℕ → Token
literal c = record { l = c; dist = 0 }

abbrev short_page : List Token
short_page = literal 97 ∷ literal 120 ∷ []

-- "x" for a letter that JSON writes so.
abbrev names : List UnicodeToString
names = record { str = codes "y"; code = codes "x" } ∷ []

-- "ab" a hundred times, then "x".
abbrev long_page : List Token
long_page = literal 97 ∷ literal 98 ∷ record { l = 197; dist = 2 } ∷ literal 120 ∷ []

abbrev pairs : ℕ → Bytes
pairs zero = []
pairs (suc n) = 97 ∷ 98 ∷ pairs n

abbrev long_text : Bytes
long_text = pairs 101 ++ codes "x"

abbrev search : List Token → Option Matched
search ks = keyword_match (some x_found) names nothing_yet nothing_yet [] ks

short_page_faults : search short_page ≡ none
unfolding keyword_match close_root page_states strstr search_page acch
short_page_faults = refl

unset_keyword_faults :
    keyword_match (some x_found) names nothing_yet nothing_yet [] (literal 97 ∷ []) ≡ none
unfolding keyword_match close_root page_states search_page acch
unset_keyword_faults = refl

-- What the search gives, and the last 200 bytes of the text with what stands before.
long_page_logged :
    search long_page
    ≡ some (record {
      result = 1;
      log = some (record { keyword = codes "y"; fulltext = 98 ∷ pairs 99 });
    })
unfolding keyword_match close_root page_states strstr search_page acch
long_page_logged = refl

keyword_match-logs_example :
    (300 ≤ length (codes "y") → search long_page ≡ none)
    × (length long_text ≤ 200 → search long_page ≡ none)
    × ((front last after : Bytes)
        → length (codes "y") < 300
        → long_text ≡ front ++ (last ++ after)
        → front ≢ []
        → length (last ++ after) ≡ 200
        → last ≢ []
        → AllNonzero last
        → BeginsNul after
        → (x : Bytes) × (r : Bytes) × (search long_page
            ≡ some
                (record { result = 1; log = some (record { keyword = codes "y"; fulltext = r }) }))
          × Blanked last x
          × IsCut x r)
unfolding acch page_states plain_keyword decodeing close_root strstr search_page
keyword_match-logs_example =
    keyword_match-logs x_found names nothing_yet nothing_yet [] long_page 3 (codes "x") (codes "y")
      long_text refl refl refl (ground arith)
