-- ===== src/Acsm/Finish.antt =====
-- acsmx.c, `Build_DFA`: the outer loop ends, and each state has its transitions and its list then.
use school_project.Common.{
  ℕ, zero, suc, ◌+◌, ◌≤◌, ◌<◌, ◌≡◌, refl, true, some, List, [], ◌∷◌, arith, ◌==◌, Bytes, Bool-cases,
  inl, inr,
}
use school_project.Acsm.{StateTable, Building, build_loop, alphabet_size}
use school_project.Acsm.States.{==→eq}
use school_project.Acsm.Patterns.{times}
use school_project.Acsm.Labels.{IsBuilt}
use school_project.Acsm.Failure.{delta, depth, wanted, parent}
use school_project.Acsm.Bfs.{queued, Progress, IsSearched, ready-of_parent}
use school_project.Acsm.Loop.{
  work, undone, undone-pop, in_hand, nonroot, pop-IsSearched, build_bytes-Kept,
}

-- Each state has all of its transitions and its whole list.
pub record IsFinished (b : Building) (label : ℕ → Bytes) (added : Bytes → ℕ) (t : StateTable)
    : Type 0 where
  pub moves : (s d : ℕ) → s ≤ b.num → d < 256 → (t s).next_state d ≡ some (delta b.table label s d)
  pub reports : (s : ℕ) (p : Bytes) → s ≤ b.num → times p (t s).match_list ≡ wanted label added s p

module _ {b : Building} {label : ℕ → Bytes} {added : Bytes → ℕ} (v : IsBuilt b label added) where
  -- The loop ends if the fuel is enough for the states that have not been taken out.
  pub loop-IsSearched :
      (fuel r : ℕ) {g : Progress} {t : StateTable} (q : List ℕ)
      → IsSearched b label added r 256 g t q
      → undone (b.num + 1) g.popped ≤ fuel
      → (r' : ℕ) × (g' : Progress) × (t' : StateTable) × (build_loop fuel (work t q)
          ≡ some (work t' []))
        × IsSearched b label added r' 256 g' t' []
  unfolding build_loop
  loop-IsSearched zero r {g} {t} [] i h = (r, g, t, refl, i)
  loop-IsSearched zero r {g} (n ∷ q) i h =
      let (ready, new) = in_hand i in
      absurd (omega (arith, undone-pop (b.num + 1) n g.popped (omega (arith, i.bound n ready)) new))
  loop-IsSearched (suc fuel) r {g} {t} [] i h = (r, g, t, refl, i)
  loop-IsSearched (suc fuel) r {g} {t} (n ∷ q) i h =
      let (ready, new) = in_hand i in
      let less = undone-pop (b.num + 1) n g.popped (omega (arith, i.bound n ready)) new in
      let (g₁, t₁, q₁, e₁, i₁, same) =
        build_bytes-Kept v fuel n alphabet_size 0 (pop-IsSearched i) (nonroot i) (omega arith) in
      let (r', g', t', e', i') = loop-IsSearched fuel n q₁ i₁ (rw same (omega (arith, less))) in
      (r', g', t', rw e₁ e', i')

  module _ {r : ℕ} {g : Progress} {t : StateTable} (i : IsSearched b label added r 256 g t []) where
    ready_popped : (s : ℕ) → g.ready s ≡ true → g.popped s ≡ true
    ready_popped s e = unfold queued in ground (arith, i.queue s)

    popped_done : (s : ℕ) → g.popped s ≡ true → g.from s ≡ 256
    popped_done s e = elim (Bool-cases (s == r)) [
      | inl x ↦ rw (==→eq s r x) i.current
      | inr x ↦ i.others s e (λ y. absurd (ground arith))
    ]

    all_ready : (k s : ℕ) → s ≤ b.num → depth label s ≤ k → g.ready s ≡ true
    all_ready zero s h d = elim (Bool-cases (s == 0)) [
      | inl z ↦ rw (==→eq s 0 z) i.root.1
      | inr z ↦ let (p, a, x, y) = parent v s h (λ x. absurd (ground arith)) in absurd (omega arith)
    ]
    all_ready (suc k) s h d = elim (Bool-cases (s == 0)) [
      | inl z ↦ rw (==→eq s 0 z) i.root.1
      | inr z ↦
          let (p, a, x, y) = parent v s h (λ x. absurd (ground arith)) in
          let (_, h', _, _) = v.tree.child p a s x in
          ready-of_parent v i s p a x
            (popped_done p (ready_popped p (all_ready k p h' (omega arith))))
    ]

    -- When the queue is empty, nothing is left to do.
    pub all-IsFinished : IsFinished b label added t
    all-IsFinished = record {
      moves = λ s d h k.
          let ready = all_ready (depth label s) s h (omega arith) in
          i.low s d (rw (popped_done s (ready_popped s ready)) k) k;
      reports = λ s p h. i.lists s p (all_ready (depth label s) s h (omega arith));
    }
