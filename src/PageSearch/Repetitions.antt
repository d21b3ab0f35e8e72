-- ===== src/PageSearch/Repetitions.antt =====
-- acsm.c, `acch`: a whole repetition ends behind all of its bytes, or at a match.
use mathlib.Core.Path.{subst}
use school_project.Common.{
  ℕ, zero, suc, ◌+◌, ◌-◌, ◌≤◌, ◌<◌, ◌≡◌, ◌⊎◌, refl, ap, ◌∙◌, Bool, true, false, Option, some, ltb,
  ltb→lt, arith, Bytes, length, Bool-cases, inl, inr,
}
use school_project.Acsm.{StateTable, Building}
use school_project.Acsm.Labels.{IsBuilt}
use school_project.Acsm.Finish.{IsFinished}
use school_project.PageSearch.{
  Scan, put, Copied, copied, wsize, copy_loop, first_match, last_shallow, skip_part, right_round,
  right_loop, put_repetition,
}
use school_project.PageSearch.Moves.{AreShort}
use school_project.PageSearch.Copies.{IsAt, automaton}
use school_project.PageSearch.Loops.{
  Ran, RanLeft, repeat_zero, w_lem, copy_loop-Ran, left_loop-RanLeft,
}
use school_project.PageSearch.Rounds.{
  Skipped, Here, EndsAt, first_match-some, last_shallow-some, skip_part-Skipped,
}

-- The rounds over the right part go on behind some place, from `lo` on, or have found a match.
pub data RanRight (At : ℕ → Scan → Type 0) (Ends : ℕ → Type 0) (lo len : ℕ) (r : Option Copied)
    : Type 0 where
  went :
      (j : ℕ) (s' : Scan)
      → lo ≤ j
      → j ≤ len
      → r ≡ some (copied s' false j)
      → At j s'
      → s'.tag ≡ false
      → RanRight At Ends lo len r
  found :
      (j k : ℕ) (s' : Scan)
      → k ≤ len
      → r ≡ some (copied s' true j)
      → Ends k
      → RanRight At Ends lo len r

module _ {b : Building} {label : ℕ → Bytes} {added : Bytes → ℕ} {t : StateTable}
    (v : IsBuilt b label added) (f : IsFinished b label added t) (short : AreShort added)
    (dept : ℕ → ℕ) (base : Bytes) (d : ℕ) (positive : 0 < d) (within : d ≤ length base) (len : ℕ)
    (room : length base + len + len + 2 < wsize) where
  abbrev At' : ℕ → Scan → Type 0
  At' = Here v f short dept base d positive within

  abbrev Ends' : ℕ → Type 0
  Ends' = EndsAt v f short dept base d positive within

  module _ (j k p : ℕ) (s : Scan) (ek : first_match s d (len - j) j (len - 1) ≡ some k)
      (ep : last_shallow s d (k + 1 - j) j ≡ some p) (small : k + 1 ≤ len) (wide : j ≤ k)
      (inner : p ≤ k) where
    step :
        (j' : ℕ) (s' s'' : Scan) (hit hit' : Bool) (j'' : ℕ)
        → skip_part (automaton v f short dept) d j p s ≡ some (copied s' hit j')
        → copy_loop (automaton v f short dept) d (k + 1 - j') j' s' ≡ some (copied s'' hit' j'')
        → right_round (automaton v f short dept) d len j s ≡ some (copied s'' s''.tag (k + 1))
    unfolding right_round
    step j' s' s'' hit hit' j'' e e' = rw (ek, ep, e, e', right_round) refl

    copied_behind :
        (j' : ℕ) (s' : Scan) (hit : Bool)
        → skip_part (automaton v f short dept) d j p s ≡ some (copied s' hit j')
        → At' j' s'
        → j ≤ j'
        → j' ≤ p
        → s'.tag ≡ false
        → RanRight At' Ends' (j + 1) len (right_round (automaton v f short dept) d len j s)
    copied_behind j' s' hit e a lo hi tag =
        let w = w_lem v f short dept base d positive within j' s' a in
        elim (copy_loop-Ran v f short dept base d positive within (k + 1 - j') j' j' s' a
          (omega arith)) [
            | Ran.ended s'' e' a' same ↦
                RanRight.went (k + 1) s'' (omega arith) small
                  (step j' s' s'' hit false _ e e'
                    ∙ ap (λ h. some (copied s'' h (k + 1))) (same ∙ tag))
                  (subst (λ i. At' i s'') (omega arith) a') (same ∙ tag)
            | Ran.stopped m s'' less e' a' tagged ends ↦
                RanRight.found (k + 1) (j' + m + 1) s'' (omega arith)
                  (step j' s' s'' hit true _ e e' ∙ ap (λ h. some (copied s'' h (k + 1))) tagged)
                  ends
          ]

    copied_on :
        (j' : ℕ) (s' : Scan)
        → skip_part (automaton v f short dept) d j p s ≡ some (copied s' true j')
        → At' (j' + 1) s'
        → j ≤ j'
        → j' < p
        → s'.tag ≡ true
        → Ends' (j' + 1)
        → RanRight At' Ends' (j + 1) len (right_round (automaton v f short dept) d len j s)
    copied_on j' s' e a lo hi tag ends =
        let w = w_lem v f short dept base d positive within (j' + 1) s' a in
        elim (copy_loop-Ran v f short dept base d positive within (k + 1 - j') (j' + 1) j' s' a
          (omega arith)) [
            | Ran.ended s'' e' a' same ↦
                RanRight.found (k + 1) (j' + 1) s'' (omega arith)
                  (step j' s' s'' true false _ e e'
                    ∙ ap (λ h. some (copied s'' h (k + 1))) (same ∙ tag))
                  ends
            | Ran.stopped m s'' less e' a' tagged more ↦
                RanRight.found (k + 1) (j' + 1) s'' (omega arith)
                  (step j' s' s'' true true _ e e' ∙ ap (λ h. some (copied s'' h (k + 1))) tagged)
                  ends
          ]

    after_skip :
        s.tag ≡ false
        → Skipped At' Ends' j p s (skip_part (automaton v f short dept) d j p s)
        → RanRight At' Ends' (j + 1) len (right_round (automaton v f short dept) d len j s)
    after_skip tag (Skipped.ended j' s' e a lo hi same) =
        copied_behind j' s' false e a lo hi (same ∙ tag)
    after_skip tag (Skipped.stopped j' s' e a lo hi tagged ends) =
        copied_on j' s' e a lo hi tagged ends

  right_round-RanRight :
      (j : ℕ) (s : Scan)
      → At' j s
      → s.tag ≡ false
      → j < len
      → RanRight At' Ends' (j + 1) len (right_round (automaton v f short dept) d len j s)
  right_round-RanRight j s a tag less =
      let w = w_lem v f short dept base d positive within j s a in
      let (k, ek, hk) = first_match-some s d (len - j) j (len - 1) (omega arith) in
      let small : k + 1 ≤ len = elim hk [ inl x ↦ omega arith | inr (lo, hi) ↦ omega arith ] in
      let wide : j ≤ k = elim hk [ inl x ↦ omega arith | inr (lo, hi) ↦ lo ] in
      let (p, ep, hp) = last_shallow-some s d (k + 1 - j) j (omega arith) in
      let inner : p ≤ k = elim hp [ inl x ↦ omega arith | inr (lo, hi) ↦ omega arith ] in
      let low : j ≤ p = elim hp [ inl x ↦ omega arith | inr (lo, hi) ↦ lo ] in
      after_skip j k p s ek ep small wide inner tag
        (skip_part-Skipped v f short dept base d positive within j p s a low (omega arith))

  later :
      (j : ℕ) {r r' : Option Copied}
      → r ≡ r'
      → RanRight At' Ends' j len r'
      → RanRight At' Ends' j len r
  later j e (RanRight.went j' s' lo hi e' a tag) = RanRight.went j' s' lo hi (e ∙ e') a tag
  later j e (RanRight.found j' k s' hi e' ends) = RanRight.found j' k s' hi (e ∙ e') ends

  right_loop-RanRight :
      (fuel j : ℕ) (s : Scan)
      → At' j s
      → s.tag ≡ false
      → j ≤ len
      → len ≤ j + fuel
      → RanRight At' Ends' len len (right_loop fuel (automaton v f short dept) d len j s)
  unfolding right_loop
  right_loop-RanRight zero j s a tag hi enough =
      let x : ltb j len ≡ false = ground arith in
      RanRight.went j s (omega arith) hi (rw (x, right_loop) refl) a tag
  right_loop-RanRight (suc fuel) j s a tag hi enough = elim (Bool-cases (ltb j len)) [
    | inr x ↦ RanRight.went j s (ground arith) hi (rw (x, right_loop) refl) a tag
    | inl x ↦ elim (right_round-RanRight j s a tag (ltb→lt j len x)) [
      | RanRight.went j' s' lo hi' e a' tag' ↦
          later len (rw (x, e, right_loop) refl)
            (right_loop-RanRight fuel j' s' a' tag' hi' (omega arith))
      | RanRight.found j' k s' hi' e ends ↦
          RanRight.found j' k s' hi' (rw (x, e, right_loop) refl) ends
    ]
  ]

  -- The end of a repetition: behind all of its bytes, or at a match in what it has put.
  pub put_repetition-lem :
      (s : Scan)
      → IsAt b.table base s
      → s.tag ≡ false
      → ((s' : Scan) × (put_repetition (automaton v f short dept) d len s ≡ some (put s' false))
          × At' len s'
          × (s'.tag ≡ false))
        ⊎ ((s' : Scan) × (k : ℕ) × (put_repetition (automaton v f short dept) d len s
              ≡ some (put s' true))
            × (k ≤ len)
            × Ends' k)
  unfolding put_repetition
  put_repetition-lem s i tag =
      let a : At' 0 s = (base, repeat_zero d base, i) in
      elim (left_loop-RanLeft v f short dept base d positive within len 0 s a
        (omega (arith, i.filled))) [
          | RanLeft.stopped j' k s' hi e ends ↦
              inr (s', k, rw (e, put_repetition) refl, omega arith, ends)
          | RanLeft.ended j' s' hi e a' same ↦
              elim (right_loop-RanRight len j' s' a' (same ∙ tag) (omega arith) (omega arith)) [
                | RanRight.went j'' s'' lo hi' e' a'' tag' ↦ inl (
                  s'',
                  rw (e, e', put_repetition) refl,
                  subst (λ k. At' k s'') (omega arith) a'',
                  tag',
                )
                | RanRight.found j'' k s'' hi' e' ends ↦
                    inr (s'', k, rw (e, e', put_repetition) refl, hi', ends)
              ]
        ]
