-- ===== src/Acsm/Rows.antt =====
-- acsmx.c: what the writes to the state table leave in each row.
use mathlib.Core.List.{foldl}
use school_project.Common.{
  ℕ, ◌+◌, ◌≡◌, refl, ◌∙◌, false, Option, List, [], ◌∷◌, arith, ◌==◌, ◌&&◌, if◌then◌else◌, Bytes,
  Bool-cases, inl, inr,
}
use school_project.Acsm.{StateTable, set_next, set_fail, add_match_list_entry}
use school_project.Acsm.States.{==→eq}
use school_project.Acsm.Patterns.{times}

module _ (t : StateTable) (s c : ℕ) (v : Option ℕ) (a : ℕ) where
  pub next-set_next :
      (d : ℕ)
      → (set_next t s c v a).next_state d ≡ (if a == s && d == c then v else (t a).next_state d)
  unfolding set_next
  next-set_next d = ground arith

  pub fail-set_next : (set_next t s c v a).fail_state ≡ (t a).fail_state
  unfolding set_next
  fail-set_next = ground arith

  pub list-set_next : (set_next t s c v a).match_list ≡ (t a).match_list
  unfolding set_next
  list-set_next = ground arith

module _ (t : StateTable) (s f a : ℕ) where
  pub next-set_fail : (d : ℕ) → (set_fail t s f a).next_state d ≡ (t a).next_state d
  unfolding set_fail
  next-set_fail d = ground arith

  pub fail-set_fail : (set_fail t s f a).fail_state ≡ (if a == s then f else (t a).fail_state)
  unfolding set_fail
  fail-set_fail = ground arith

  pub list-set_fail : (set_fail t s f a).match_list ≡ (t a).match_list
  unfolding set_fail
  list-set_fail = ground arith

module _ (t : StateTable) (s : ℕ) (p : Bytes) (a : ℕ) where
  pub fail-add_entry : (add_match_list_entry t s p a).fail_state ≡ (t a).fail_state
  unfolding add_match_list_entry
  fail-add_entry = ground arith

  pub next-add_entry : (d : ℕ) → (add_match_list_entry t s p a).next_state d ≡ (t a).next_state d
  unfolding add_match_list_entry
  next-add_entry d = ground arith

  pub list-add_entry :
      (add_match_list_entry t s p a).match_list
      ≡ (if a == s then p ∷ (t s).match_list else (t a).match_list)
  unfolding add_match_list_entry
  list-add_entry = ground arith

-- The loop that adds a list of patterns to one state.
abbrev pub add_all : StateTable → ℕ → List Bytes → StateTable
add_all t s ps = foldl (λ t p. add_match_list_entry t s p) t ps

pub next-add_all :
    (t : StateTable) (s : ℕ) (ps : List Bytes) (a d : ℕ)
    → (add_all t s ps a).next_state d ≡ (t a).next_state d
next-add_all t s [] a d = refl
next-add_all t s (p ∷ ps) a d =
    next-add_all (add_match_list_entry t s p) s ps a d ∙ next-add_entry t s p a d

pub fail-add_all :
    (t : StateTable) (s : ℕ) (ps : List Bytes) (a : ℕ)
    → (add_all t s ps a).fail_state ≡ (t a).fail_state
fail-add_all t s [] a = refl
fail-add_all t s (p ∷ ps) a =
    fail-add_all (add_match_list_entry t s p) s ps a ∙ fail-add_entry t s p a

pub list-add_all :
    (t : StateTable) (s : ℕ) (ps : List Bytes) (a : ℕ)
    → (a == s) ≡ false
    → (add_all t s ps a).match_list ≡ (t a).match_list
list-add_all t s [] a e = refl
list-add_all t s (p ∷ ps) a e =
    list-add_all (add_match_list_entry t s p) s ps a e ∙ list-add_entry t s p a ∙ rw e refl

pub times-add_all :
    (t : StateTable) (s : ℕ) (ps : List Bytes) (a : ℕ) (q : Bytes)
    → times q (add_all t s ps a).match_list
      ≡ (if a == s then times q ps else 0) + times q (t a).match_list
unfolding times
times-add_all t s [] a q = ground arith
times-add_all t s (p ∷ ps) a q = elim (Bool-cases (a == s)) [
  | inl e ↦
      rw
        (
          times-add_all (add_match_list_entry t s p) s ps a q,
          list-add_entry t s p a,
          e,
          ==→eq a s e,
        )
        (omega arith)
  | inr e ↦
      rw (times-add_all (add_match_list_entry t s p) s ps a q, list-add_entry t s p a, e)
        (omega arith)
]
