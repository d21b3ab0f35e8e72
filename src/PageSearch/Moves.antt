-- ===== src/PageSearch/Moves.antt =====
-- acsm.c, `fsm`: a move of the automaton, and what a match says of the text.
use school_project.Common.{
  ℕ, ◌<◌, ◌≡◌, ◌≢◌, refl, sym, ap, ◌∙◌, true, not, some, List, [], ◌∷◌, ◌++◌, lt→ltb, arith, Bytes,
  length, Bool-cases, inl, inr, bytes_eq_refl,
}
use school_project.Acsm.{StateTable, Building}
use school_project.Acsm.Patterns.{times}
use school_project.Acsm.Labels.{IsBuilt}
use school_project.Acsm.Longest.{longest, longest-le, longest-append, ends}
use school_project.Acsm.Failure.{wanted}
use school_project.Acsm.Finish.{IsFinished}
use school_project.PageSearch.{Moved, fsm, copy_keywords, keyword_size, is_empty}
use school_project.PageSearch.Suffixes.{
  IsSuffix, IsSuffix-trans, IsSuffix-snoc, ends-IsSuffix, longest-IsSuffix,
}

-- The state is the one that some end of the text leads to.
abbrev pub Tracks : StateTable → Bytes → ℕ → Type 0
Tracks t x s = (y : Bytes) × IsSuffix y x × (s ≡ longest t y)

-- A pattern of the automaton that the text ends in.
abbrev pub EndsInSome : (Bytes → ℕ) → Bytes → Type 0
EndsInSome added x = (p : Bytes) × (added p ≢ 0) × IsSuffix p x

abbrev pub AreShort : (Bytes → ℕ) → Type 0
AreShort added = (p : Bytes) → added p ≢ 0 → length p < keyword_size

copy_keywords-some :
    (mlist : List Bytes) (keyword : Bytes)
    → ((p : Bytes) → times p mlist ≢ 0 → length p < keyword_size)
    → (k : Bytes) × (copy_keywords keyword mlist ≡ some k)
unfolding copy_keywords times
copy_keywords-some [] keyword h = (keyword, refl)
copy_keywords-some (p ∷ mlist) keyword h =
    let (k, e) = copy_keywords-some mlist p (λ q n. h q (λ z. n (omega arith))) in
    let first : times p (p ∷ mlist) ≢ 0 = λ z. absurd (ground (arith, bytes_eq_refl p)) in
    (k, rw (lt→ltb (length p) keyword_size (h p first), copy_keywords) e)

module _ {b : Building} {label : ℕ → Bytes} {added : Bytes → ℕ} {t : StateTable}
    (v : IsBuilt b label added) (f : IsFinished b label added t) (short : AreShort added) where
  listed_lem :
      (y p : Bytes) → times p (t (longest b.table y)).match_list ≢ 0 → (added p ≢ 0) × IsSuffix p y
  listed_lem y p n =
      let s = longest b.table y in
      let e : times p (t s).match_list ≡ wanted label added s p =
        f.reports s p (longest-le v.tree y) in
      elim (Bool-cases (ends p (label s))) [
        | inl x ↦ (
          λ z. n (e ∙ rw (x, z) refl),
          IsSuffix-trans p (label s) y (ends-IsSuffix p (label s) x) (longest-IsSuffix v.tree y),
        )
        | inr x ↦ absurd (n (e ∙ rw x refl))
      ]

  some_listed :
      (y : Bytes) (l : List Bytes)
      → (t (longest b.table y)).match_list ≡ l
      → not (is_empty l) ≡ true
      → EndsInSome added y
  unfolding is_empty times
  some_listed y [] e o = absurd (cc o)
  some_listed y (p ∷ l) e o =
      let n : times p (t (longest b.table y)).match_list ≢ 0 =
        λ z. absurd (ground (arith, bytes_eq_refl p, ap (times p) e)) in
      let (a, suffix) = listed_lem y p n in (p, a, suffix)

  -- A move from the state of a text.
  pub fsm_lem :
      (y : Bytes) (c : ℕ) (keyword : Bytes)
      → c < 256
      → (m : Moved) × (fsm t (longest b.table y) c keyword ≡ some m)
        × (m.state ≡ longest b.table (y ++ c ∷ []))
        × (m.out ≡ not (is_empty (t (longest b.table (y ++ c ∷ []))).match_list))
  unfolding fsm
  fsm_lem y c keyword byte =
      let y' = y ++ c ∷ [] in
      let s' = longest b.table y' in
      let move : (t (longest b.table y)).next_state c ≡ some s' =
        f.moves (longest b.table y) c (longest-le v.tree y) byte
        ∙ ap some (sym (longest-append v.tree y c)) in
      let (k, e) =
        copy_keywords-some (t s').match_list keyword (λ p n. short p (listed_lem y' p n).0) in
      (
        record { state = s'; out = not (is_empty (t s').match_list); keyword = k },
        rw (move, e, fsm) refl,
        refl,
        refl,
      )

  pub fsm-Tracks :
      (x : Bytes) (state c : ℕ) (keyword : Bytes)
      → Tracks b.table x state
      → c < 256
      → (m : Moved) × (fsm t state c keyword ≡ some m)
        × Tracks b.table (x ++ c ∷ []) m.state
        × (m.out ≡ true → EndsInSome added (x ++ c ∷ []))
  fsm-Tracks x state c keyword (y, suffix, here) byte =
      let y' = y ++ c ∷ [] in
      let (m, e, there, out) = fsm_lem y c keyword byte in
      let suffix' = IsSuffix-snoc y x c suffix in
      (
        m,
        rw here e,
        (y', suffix', there),
        λ o.
            let (p, n, q) = some_listed y' (t (longest b.table y')).match_list refl (sym out ∙ o) in
            (p, n, IsSuffix-trans p y' (x ++ c ∷ []) q suffix'),
      )
