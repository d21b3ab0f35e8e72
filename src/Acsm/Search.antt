-- ===== src/Acsm/Search.antt =====
-- acsmx.c: the three searches report the same matches.
use school_project.Common.{
  ℕ, suc, ◌+◌, ◌≡◌, refl, sym, ap, ◌∙◌, Option, none, some, List, [], ◌∷◌, ◌++◌, arith, Bytes,
  length, length-append, inl, inr, Option-cases,
}
use school_project.Acsm.{
  Acsm, StateTable, acsm_search, acsm_search_kw, acsm_search_offset, search_loop, search_kw_loop,
  search_offset_loop, offsets_at,
}

length-offsets_at : (i : ℕ) (ps : List Bytes) → length (offsets_at i ps) ≡ length ps
unfolding offsets_at
length-offsets_at i [] = refl
length-offsets_at i (p ∷ ps) = ap suc (length-offsets_at i ps)

abbrev pub count {ℓ} : {A : Type ℓ} → Option (List A) → Option ℕ
count none = none
count (some l) = some (length l)

search_loop-kw :
    (t : StateTable) (s : ℕ) (text : Bytes) (kw : List Bytes)
    → search_loop t s text (length kw) ≡ count (search_kw_loop t s text kw)
unfolding search_loop search_kw_loop
search_loop-kw t s [] kw = refl
search_loop-kw t s (c ∷ text) kw = elim (Option-cases ((t s).next_state c)) [
  | inl e ↦ rw e
  | inr (s', e) ↦ rw e (
      ap (search_loop t s' text) (sym (length-append kw (t s').match_list))
      ∙ search_loop-kw t s' text (kw ++ (t s').match_list))
]

search_loop-offset :
    (t : StateTable) (s i : ℕ) (text : Bytes) (l : List ℕ)
    → search_loop t s text (length l) ≡ count (search_offset_loop t s i text l)
unfolding search_loop search_offset_loop
search_loop-offset t s i [] l = refl
search_loop-offset t s i (c ∷ text) l = elim (Option-cases ((t s).next_state c)) [
  | inl e ↦ rw e
  | inr (s', e) ↦ rw e (
      ap (search_loop t s' text) (
        omega (
          arith,
          length-append l (offsets_at i (t s').match_list),
          length-offsets_at i (t s').match_list,
        ))
      ∙ search_loop-offset t s' (i + 1) text (l ++ offsets_at i (t s').match_list))
]

-- On every automaton and text the number that `acsmSearch` returns, which sizes the callers'
-- arrays, is the number of keywords that `acsmSearch_kw` writes and of offsets that
-- `acsmSearch_offset` writes. Where one of them faults, all do.
pub acsm_search-counts :
    (a : Acsm) (text : Bytes)
    → (acsm_search a text ≡ count (acsm_search_kw a text))
      × (acsm_search a text ≡ count (acsm_search_offset a text))
unfolding acsm_search acsm_search_kw acsm_search_offset
acsm_search-counts a [] = (refl, refl)
acsm_search-counts a (c ∷ text) = elim (Option-cases a.state_table) [
  | inl e ↦ (rw e, rw e)
  | inr (t, e) ↦
      (rw e (search_loop-kw t 0 (c ∷ text) []), rw e (search_loop-offset t 0 0 (c ∷ text) []))
]
