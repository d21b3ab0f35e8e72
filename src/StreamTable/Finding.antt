-- ===== src/StreamTable/Finding.antt =====
-- get_data.c, `find_stream`: the head of the stream, or else a free head, or else the last one.
use mathlib.Core.Option.{some-injective}
use school_project.Common.{
  ℕ, suc, ◌+◌, ◌≡◌, inl, inr, refl, ◌∙◌, true, false, Option, none, some, List, [], ◌∷◌,
  if◌then◌else◌, get_elem?, arith, Bool-cases, Option-cases,
}
use school_project.StreamTable.{DataHead, is_stream, is_free, find_loop, find_stream}
use school_project.StreamTable.Buckets.{stored, stored-none, Before, hit-false}

-- What the loop returns for the stream `a`, from the `i`th head on.
pub data Outcome (a : ℕ) (l : List DataHead) (p_null : Option ℕ) (i k : ℕ) : Type 0 where
  exact :
      (m : ℕ) (x : DataHead)
      → k ≡ i + m
      → get_elem? l m ≡ some x
      → is_stream a x ≡ true
      → Before a m l
      → Outcome a l p_null i k
  earlier : stored a l ≡ none → p_null ≡ some k → Outcome a l p_null i k
  vacant :
      (m : ℕ) (x : DataHead)
      → stored a l ≡ none
      → k ≡ i + m
      → get_elem? l m ≡ some x
      → is_free x ≡ true
      → Outcome a l p_null i k
  full :
      (m : ℕ) (x : DataHead)
      → stored a l ≡ none
      → p_null ≡ none
      → k ≡ i + m
      → get_elem? l m ≡ some x
      → is_free x ≡ false
      → Outcome a l p_null i k

absent :
    (a : ℕ) (h : DataHead) (l : List DataHead)
    → is_stream a h ≡ false
    → stored a l ≡ none
    → stored a (h ∷ l) ≡ none
absent a h l e f = stored-none a h l (hit-false a h e) ∙ f

-- One head that is not the stream's is passed.
passed :
    (a i : ℕ) (p_null : Option ℕ) (h : DataHead) (l : List DataHead) {k : ℕ}
    → is_stream a h ≡ false
    → Outcome a l (if is_free h then some i else p_null) (i + 1) k
    → Outcome a (h ∷ l) p_null i k
passed a i p_null h l {k} e (exact m x at there same before) =
    exact (suc m) x (omega (arith, at)) there same (e, before)
passed a i p_null h l {k} e (vacant m x none_there at there free) =
    vacant (suc m) x (absent a h l e none_there) (omega (arith, at)) there free
passed a i p_null h l {k} e (earlier none_there p) = elim (Bool-cases (is_free h)) [
  | inl f ↦
      vacant 0 h (absent a h l e none_there) (omega (arith, some-injective _ _ (rw f at p))) refl f
  | inr f ↦ earlier (absent a h l e none_there) (rw f at p)
]
passed a i p_null h l {k} e (full m x none_there p at there taken) = elim (Bool-cases (is_free h)) [
  | inl f ↦ absurd (cc (rw f at p))
  | inr f ↦ full (suc m) x (absent a h l e none_there) (rw f at p) (omega (arith, at)) there taken
]

find_loop-Outcome :
    (a i : ℕ) (p_null : Option ℕ) (h : DataHead) (l : List DataHead)
    → Outcome a (h ∷ l) p_null i (find_loop a i p_null h l)
unfolding find_loop
find_loop-Outcome a i p_null h [] = elim (Bool-cases (is_stream a h)) [
  | inl e ↦ rw (e, find_loop) (exact 0 h (omega arith) refl e tt)
  | inr e ↦ elim (Option-cases p_null) [
    | inr (j, p) ↦ rw (e, p, find_loop) (earlier (absent a h [] e (unfold stored in refl)) refl)
    | inl p ↦ elim (Bool-cases (is_free h)) [
      | inl f ↦
          rw (e, p, find_loop)
            (vacant 0 h (absent a h [] e (unfold stored in refl)) (omega arith) refl f)
      | inr f ↦
          rw (e, p, find_loop)
            (full 0 h (absent a h [] e (unfold stored in refl)) refl (omega arith) refl f)
    ]
  ]
]
find_loop-Outcome a i p_null h (n ∷ l) = elim (Bool-cases (is_stream a h)) [
  | inl e ↦ rw (e, find_loop) (exact 0 h (omega arith) refl e tt)
  | inr e ↦
      rw (e, find_loop)
        (passed a i p_null h (n ∷ l) e
          (find_loop-Outcome a (i + 1) (if is_free h then some i else p_null) n l))
]

pub find_stream-Outcome :
    (a : ℕ) (h : DataHead) (l : List DataHead) → Outcome a (h ∷ l) none 0 (find_stream a (h ∷ l))
unfolding find_stream
find_stream-Outcome a h l = find_loop-Outcome a 0 none h l
