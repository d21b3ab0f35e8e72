-- ===== src/DownMatch.antt =====
-- down_string_match.c: the pair of automata for the pages that come back.
pub mod Changes
pub mod Histories
mod Examples
use school_project.Common.{ℕ, Option, none, some, List, [], ◌∷◌, ◌>>=◌, Bytes}
use school_project.PageAcsm.{PageAcsm, acsmnew, acsmadd_pattern, acsmdel_pattern, acsmcompile}
use school_project.PageSearch.{Token, Found, no_match, acch}

-- The globals M, which is searched, and N.
pub record DownPair : Type 0 where
  pub m : PageAcsm
  pub n : PageAcsm

-- `down_ac`; `add_key_from_db` adds nothing.
unfoldable pub down_ac : DownPair
unfolding acsmnew
down_ac = record { m = acsmnew; n = acsmnew }

-- The common end of `add_str` and `del_str`: M's list follows, N is compiled and the two are exchanged.
unfoldable pub compile_and_exchange : DownPair → PageAcsm → Option DownPair
compile_and_exchange p changed = do
  compiled ← acsmcompile changed
  some (record { m = compiled; n = record p.m { patterns = changed.patterns } })

unfoldable pub add_str : DownPair → Bytes → Option DownPair
unfolding compile_and_exchange
add_str p s = compile_and_exchange p (acsmadd_pattern p.n s)

unfoldable pub del_str : DownPair → Bytes → Option DownPair
unfolding compile_and_exchange
del_str p s = acsmdel_pattern p.n s >>= compile_and_exchange p

-- acch(M, l, d, 0, last_lit, keyword, &text_length)
unfoldable pub search_page : DownPair → (ℕ → ℕ) → (ℕ → ℕ) → Bytes → List Token → Option Found
search_page p win st keyword [] = some no_match
search_page p win st keyword (k ∷ ks) = do
  t ← p.m.state_table
  acch (record { table = t; dept = p.m.dept }) win st keyword (k ∷ ks)
