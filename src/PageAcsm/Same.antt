-- ===== src/PageAcsm/Same.antt =====
-- acsm.c: but for the depths, the automaton of the pages is the one of acsmx.c.
use mathlib.Core.List.{foldl}
use school_project.Common.{
  ℕ, ◌+◌, ◌==◌, if◌then◌else◌, Option, none, some, List, [], ◌∷◌, ◌≡◌, refl, ap, ◌∙◌, Bytes,
  Option-cases, inl, inr,
}
use school_project.Acsm.{
  Acsm, Building, StateTable, set_next, follow_pattern, new_states, add_match_list_entry,
  add_pattern_states, empty_table, pattern_states, close_root, build_dfa, total_length,
  acsm_compile,
}
use school_project.PageAcsm.{
  PageAcsm, PageBuilding, new_page_states, add_page_pattern, page_states, acsmcompile,
}

-- Without the depths.
abbrev pub plain_building : PageBuilding → Building
plain_building b = record { table = b.table; num = b.num }

abbrev pub plain : PageAcsm → Acsm
plain a = record {
  max_states = a.max_states;
  num_states = a.num_states;
  patterns = a.patterns;
  state_table = a.state_table;
}

abbrev pub plain_option : Option PageAcsm → Option Acsm
plain_option none = none
plain_option (some a) = some (plain a)

new_page_states-plain :
    (b : PageBuilding) (s : ℕ) (p : Bytes)
    → (plain_building (new_page_states b s p).0 ≡ (new_states (plain_building b) s p).0)
      × ((new_page_states b s p).1 ≡ (new_states (plain_building b) s p).1)
unfolding new_page_states new_states
new_page_states-plain b s [] = (refl, refl)
new_page_states-plain b s (c ∷ p) =
    new_page_states-plain
      (record {
        table = set_next b.table s c (some (b.num + 1));
        num = b.num + 1;
        dept = λ k. if k == b.num + 1 then b.dept s + 1 else b.dept k;
      })
      (b.num + 1) p

add_page_pattern-plain :
    (b : PageBuilding) (p : Bytes)
    → plain_building (add_page_pattern b p) ≡ add_pattern_states (plain_building b) p
unfolding add_page_pattern add_pattern_states
add_page_pattern-plain b p =
    let (s, rest) = follow_pattern b.table 0 p in
    let (x, y) = new_page_states-plain b s rest in
    λ i. record { table = add_match_list_entry (x i).table (y i) p; num = (x i).num }

foldl-plain :
    (ps : List Bytes) (b : PageBuilding)
    → plain_building (foldl add_page_pattern b ps) ≡ foldl add_pattern_states (plain_building b) ps
foldl-plain [] b = refl
foldl-plain (p ∷ ps) b =
    foldl-plain ps (add_page_pattern b p)
    ∙ ap (λ x. foldl add_pattern_states x ps) (add_page_pattern-plain b p)

pub page_states-plain : (ps : List Bytes) → plain_building (page_states ps) ≡ pattern_states ps
unfolding page_states pattern_states
page_states-plain ps = foldl-plain ps (record { table = empty_table; num = 0; dept = λ s. 0 })

abbrev pub built : StateTable → List Bytes → Option StateTable
built t ps = build_dfa (total_length ps + 1) (close_root t)

-- `acsmcompile` builds the automaton that acsmx.c's `acsmCompile` builds of the same patterns.
pub acsmcompile-plain : (a : PageAcsm) → plain_option (acsmcompile a) ≡ acsm_compile (plain a)
unfolding acsmcompile acsm_compile
acsmcompile-plain a =
    let same : built (page_states a.patterns).table a.patterns
        ≡ built (pattern_states a.patterns).table a.patterns =
      ap (λ b. built b.table a.patterns) (page_states-plain a.patterns) in
    elim (Option-cases (built (pattern_states a.patterns).table a.patterns)) [
      | inl e ↦ rw (same ∙ e, e) refl
      | inr (t, e) ↦
          rw (same ∙ e, e)
            (λ i. some (record {
              max_states = 1 + total_length a.patterns;
              num_states = (page_states-plain a.patterns i).num;
              patterns = a.patterns;
              state_table = some t;
            }))
    ]
