-- ===== src/PageAcsm.antt =====
-- acsm.c: the automaton for the pages that come back, whose states know their depth.
pub mod Same
pub mod Depths
pub mod Compile
mod Examples
use school_project.Common.{
  ℕ, zero, suc, ◌+◌, ◌==◌, if◌then◌else◌, Option, none, some, List, [], ◌∷◌, ◌>>=◌, Bytes,
}
use mathlib.Core.List.{foldl}
use school_project.Acsm.{
  StateTable, set_next, add_match_list_entry, del_pattern, follow_pattern, empty_table, close_root,
  build_dfa, total_length,
}

-- `ACSMX_STRUCT`: the fields of acsmx.c's ACSM_STRUCT, and `dept`. The table has the same rows.
pub record PageAcsm : Type 0 where
  pub max_states : ℕ
  pub num_states : ℕ
  pub patterns : List Bytes
  pub state_table : Option StateTable
  pub dept : ℕ → ℕ

-- The table, `acsmNumStates` and `dept`, while patterns are added.
pub record PageBuilding : Type 0 where
  pub table : StateTable
  pub num : ℕ
  pub dept : ℕ → ℕ

unfoldable pub acsmnew : PageAcsm
acsmnew = record {
  max_states = 0;
  num_states = 0;
  patterns = [];
  state_table = none;
  dept = λ s. 0;
}

unfoldable pub acsmadd_pattern : PageAcsm → Bytes → PageAcsm
acsmadd_pattern a p = record a { patterns = p ∷ a.patterns }

unfoldable pub acsmdel_pattern : PageAcsm → Bytes → Option PageAcsm
unfolding del_pattern
acsmdel_pattern a p = do ps ← del_pattern a.patterns p; some (record a { patterns = ps })

-- The second loop of `AddPatternStates`.
unfoldable pub new_page_states : PageBuilding → ℕ → Bytes → PageBuilding × ℕ
unfolding set_next
new_page_states b s [] = (b, s)
new_page_states b s (c ∷ p) =
    new_page_states
      (record {
        table = set_next b.table s c (some (b.num + 1));
        num = b.num + 1;
        dept = λ k. if k == b.num + 1 then b.dept s + 1 else b.dept k;
      })
      (b.num + 1) p

unfoldable pub add_page_pattern : PageBuilding → Bytes → PageBuilding
unfolding follow_pattern new_page_states add_match_list_entry
add_page_pattern b p =
    let (s, rest) = follow_pattern b.table 0 p in
    let (b', s') = new_page_states b s rest in
    record b' { table = add_match_list_entry b'.table s' p }

unfoldable pub page_states : List Bytes → PageBuilding
unfolding add_page_pattern empty_table
page_states ps = foldl add_page_pattern (record { table = empty_table; num = 0; dept = λ s. 0 }) ps

-- `acsmcompile`. `build_DFA` is the text of acsmx.c's `Build_DFA`.
unfoldable pub acsmcompile : PageAcsm → Option PageAcsm
unfolding page_states close_root build_dfa total_length
acsmcompile a = do
  t ← build_dfa (total_length a.patterns + 1) (close_root (page_states a.patterns).table)
  some (record a {
    max_states = 1 + total_length a.patterns;
    num_states = (page_states a.patterns).num;
    state_table = some t;
    dept = (page_states a.patterns).dept;
  })
