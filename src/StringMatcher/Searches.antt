-- ===== src/StringMatcher/Searches.antt =====
-- string_matcher.c: the counts that size the callers' arrays, and what the changes leave alone.
use school_project.Common.{◌≡◌, refl, Option-cases, inl, inr, Bytes}
use school_project.Acsm.Search.{count, acsm_search-counts}
use school_project.StringMatcher.{
  Matchers, kw_match, kw_match_N, get_request_number, get_request_offset, get_keywords,
  get_keywords_N,
}

-- In every state of the matchers and on every text `kw_match` and `kw_match_N` return exactly the
-- number of keywords that `get_keywords` and `get_keywords_N` write, and `get_request_number` the
-- number of offsets that `get_request_offset` writes.
pub match-counts :
    (m : Matchers) (s : Bytes)
    → (kw_match m s ≡ count (get_keywords m s))
      × (kw_match_N m s ≡ count (get_keywords_N m s))
      × (get_request_number m s ≡ count (get_request_offset m s))
unfolding kw_match kw_match_N get_request_number get_request_offset get_keywords get_keywords_N
match-counts m s = (
  (acsm_search-counts m.kw.active s).0,
  (acsm_search-counts m.kw_N.active s).0,
  elim (Option-cases m.requests) [
    | inl e ↦ rw e refl
    | inr (r, e) ↦ rw e (acsm_search-counts r s).1
  ],
)
