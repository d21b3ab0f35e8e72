-- ===== src/Acsm/Patterns.antt =====
-- acsmx.c: the pattern list under `acsmAddPattern` and `acsmDelPattern`.
use school_project.Common.{
  ℕ, ◌+◌, ◌-◌, ◌≡◌, ◌≢◌, refl, none, some, List, [], ◌∷◌, arith, if◌then◌else◌, Bytes, bytes_eq,
  bytes_eq_refl, eq_of_bytes_eq,
}
use school_project.Acsm.{Acsm, acsm_add_pattern, acsm_del_pattern, del_pattern, del_after}

-- How often a pattern is in the list.
unfoldable pub times : Bytes → List Bytes → ℕ
times p [] = 0
times p (q ∷ qs) = (if bytes_eq p q then 1 else 0) + times p qs

pub times-del_after :
    (p q : Bytes) (ps : List Bytes)
    → times q (del_after ps p) ≡ (if bytes_eq p q then times q ps - 1 else times q ps)
unfolding times del_after
times-del_after p q [] = ground arith
times-del_after p q (x ∷ ps) = ground (
  arith,
  times-del_after p q ps,
  eq_of_bytes_eq p x,
  eq_of_bytes_eq p q,
  eq_of_bytes_eq q x,
  bytes_eq_refl q,
  bytes_eq_refl p,
)

pub del_pattern-after :
    (p x : Bytes) (ps : List Bytes) → del_pattern (x ∷ ps) p ≡ some (del_after (x ∷ ps) p)
unfolding del_pattern del_after
del_pattern-after p x ps = ground arith

some_left :
    (a : Acsm) (p : Bytes) (ps : List Bytes)
    → a.patterns ≡ ps
    → a.patterns ≢ []
    → (qs : List Bytes) × (acsm_del_pattern a p ≡ some (record a { patterns = qs }))
      × ((q : Bytes)
          → times q qs ≡ (if bytes_eq p q then times q a.patterns - 1 else times q a.patterns))
unfolding acsm_del_pattern
some_left a p [] e n = absurd (n e)
some_left a p (x ∷ ps) e n = (
  del_after (x ∷ ps) p,
  rw e (rw (del_pattern-after p x ps)),
  λ q. rw e (times-del_after p q (x ∷ ps)),
)

-- With patterns in the list a deletion takes one occurrence of its pattern out, if there is one, and
-- no other; with none it reads through NULL. It undoes an addition.
pub del_pattern_exact :
    (a : Acsm) (p : Bytes)
    → (a.patterns ≡ [] → acsm_del_pattern a p ≡ none)
      × (a.patterns ≢ []
          → (ps : List Bytes) × (acsm_del_pattern a p ≡ some (record a { patterns = ps }))
            × ((q : Bytes)
                → times q ps
                  ≡ (if bytes_eq p q then times q a.patterns - 1 else times q a.patterns)))
      × (acsm_del_pattern (acsm_add_pattern a p) p ≡ some a)
unfolding acsm_del_pattern acsm_add_pattern del_pattern
del_pattern_exact a p = (λ e. rw e, some_left a p (a.patterns) refl, rw (bytes_eq_refl p))
