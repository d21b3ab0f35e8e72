-- ===== src/Query/Eval.antt =====
-- query_table.c, `match_`: an expression of up to three words means what "&" before "#" says.
use mathlib.Core.Logic.{◌↔◌}
use mathlib.Core.List.{Memᴰ}
use school_project.Common.{
  sym, ◌≡◌, Bool, true, List, [], ◌∷◌, ◌||◌, ◌&&◌, map, arith, ◌==◌, if◌then◌else◌, Bytes, bytes_eq,
  eq_of_bytes_eq, bytes_eq_refl, inl, inr, Bool-cases,
}
use school_project.Query.{in_match_word_list}
use school_project.Query.Parse.{Term, words, ops}

-- A disjunction of conjunctions: `b` is the value of the conjunction so far.
abbrev pub disjunction : Bool → List Bool → Bytes → Bool
disjunction b [] os = b
disjunction b (x ∷ xs) [] = b
disjunction b (x ∷ xs) (o ∷ os) =
    if o == b'&' then disjunction (b && x) xs os else b || disjunction x xs os

-- The value of a query on a text of which these are the keywords.
abbrev pub meaning : List Bytes → Bytes → List Term → Bool
meaning kw w ts =
    disjunction (in_match_word_list w kw) (map (λ v. in_match_word_list v kw) (words ts)) (ops ts)

mem-of_listed : (w : Bytes) (kw : List Bytes) → in_match_word_list w kw ≡ true → Memᴰ w kw
unfolding in_match_word_list
mem-of_listed w [] h = cc
mem-of_listed w (x ∷ kw) h = elim (Bool-cases (bytes_eq x w)) [
  | inl e ↦ Memᴰ.head (sym (eq_of_bytes_eq x w e))
  | inr e ↦ Memᴰ.tail (mem-of_listed w kw (ground arith))
]

listed-of_mem : (w : Bytes) (kw : List Bytes) → Memᴰ w kw → in_match_word_list w kw ≡ true
unfolding in_match_word_list
listed-of_mem w [] m = elim m [ ]
listed-of_mem w (x ∷ kw) (Memᴰ.head e) = rw (← e) (rw (bytes_eq_refl w))
listed-of_mem w (x ∷ kw) (Memᴰ.tail m) = ground (arith, listed-of_mem w kw m)

-- `strcmp` finds a word in the list exactly if it is there.
pub in_match_word_list_iff :
    (w : Bytes) (kw : List Bytes) → (in_match_word_list w kw ≡ true) ↔ Memᴰ w kw
in_match_word_list_iff w kw = (mem-of_listed w kw, listed-of_mem w kw)
