-- ===== src/StringMatcher.antt =====
-- string_matcher.c: pairs of automata. A change is made to the spare one, which is compiled and then
-- takes the place of the one that the searches use.
pub mod Searches
pub mod Pairs
pub mod Changes
pub mod Histories
mod Examples
use school_project.Common.{ℕ, Option, some, List, ◌>>=◌, Bytes}
use school_project.Acsm.{
  Acsm, acsm_new, acsm_add_pattern, acsm_del_pattern, acsm_compile, acsm_search, acsm_search_offset,
  acsm_search_kw,
}

-- Two globals such as A and B: the one that is searched and the spare one.
pub record Pair : Type 0 where
  pub active : Acsm
  pub spare : Acsm

-- The globals A and B, NA and NB, URL_A and URL_B, and R, which is NULL: `init_ac` leaves it alone, as
-- the lines that set it are commented out.
pub record Matchers : Type 0 where
  pub kw : Pair
  pub kw_N : Pair
  pub url : Pair
  pub requests : Option Acsm

unfoldable pub new_pair : Pair
unfolding acsm_new
new_pair = record { active = acsm_new; spare = acsm_new }

-- `init_ac`, before the words of the data base are added; `r` is what R was.
unfoldable pub init_ac : Option Acsm → Matchers
unfolding new_pair
init_ac r = record { kw = new_pair; kw_N = new_pair; url = new_pair; requests = r }

-- The shared end of the six changes: the other list follows, the spare automaton is compiled and
-- the two are exchanged.
unfoldable pub compile_and_swap : Pair → Acsm → Option Pair
compile_and_swap p changed = do
  compiled ← acsm_compile changed
  some (record { active = compiled; spare = record p.active { patterns = changed.patterns } })

unfoldable pub add_to : Pair → Bytes → Option Pair
unfolding compile_and_swap
add_to p s = compile_and_swap p (acsm_add_pattern p.spare s)

unfoldable pub del_from : Pair → Bytes → Option Pair
unfolding compile_and_swap
del_from p s = acsm_del_pattern p.spare s >>= compile_and_swap p

unfoldable pub addstr : Matchers → Bytes → Option Matchers
unfolding add_to
addstr m s = do p ← add_to m.kw s; some (record m { kw = p })

unfoldable pub addstr_N : Matchers → Bytes → Option Matchers
unfolding add_to
addstr_N m s = do p ← add_to m.kw_N s; some (record m { kw_N = p })

unfoldable pub addurl : Matchers → Bytes → Option Matchers
unfolding add_to
addurl m s = do p ← add_to m.url s; some (record m { url = p })

unfoldable pub delstr : Matchers → Bytes → Option Matchers
unfolding del_from
delstr m s = do p ← del_from m.kw s; some (record m { kw = p })

unfoldable pub delstr_N : Matchers → Bytes → Option Matchers
unfolding del_from
delstr_N m s = do p ← del_from m.kw_N s; some (record m { kw_N = p })

unfoldable pub delurl : Matchers → Bytes → Option Matchers
unfolding del_from
delurl m s = do p ← del_from m.url s; some (record m { url = p })

unfoldable pub kw_match : Matchers → Bytes → Option ℕ
kw_match m s = acsm_search m.kw.active s

unfoldable pub kw_match_N : Matchers → Bytes → Option ℕ
kw_match_N m s = acsm_search m.kw_N.active s

unfoldable pub url_match : Matchers → Bytes → Option ℕ
url_match m s = acsm_search m.url.active s

-- A search of R, which reads through NULL if there is none.
unfoldable pub get_request_number : Matchers → Bytes → Option ℕ
get_request_number m s = m.requests >>= (λ r. acsm_search r s)

unfoldable pub get_request_offset : Matchers → Bytes → Option (List ℕ)
get_request_offset m s = m.requests >>= (λ r. acsm_search_offset r s)

unfoldable pub get_keywords : Matchers → Bytes → Option (List Bytes)
get_keywords m s = acsm_search_kw m.kw.active s

unfoldable pub get_keywords_N : Matchers → Bytes → Option (List Bytes)
get_keywords_N m s = acsm_search_kw m.kw_N.active s
