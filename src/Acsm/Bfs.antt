-- ===== src/Acsm/Bfs.antt =====
-- acsmx.c, `Build_DFA`: what holds while the states are taken from the queue.
use mathlib.Core.Path.{subst}
use school_project.Common.{
  ℕ, zero, suc, ◌+◌, ◌≤◌, ◌<◌, ◌≡◌, ◌≢◌, sym, ap, ◌∙◌, Bool, true, false, not, ◌&&◌, some, List, [],
  ◌∷◌, ◌++◌, arith, ltb, ◌==◌, if◌then◌else◌, Bytes, Bool-cases, inl, inr, lt→ltb,
}
use school_project.Acsm.{StateTable, Building}
use school_project.Acsm.States.{==→eq}
use school_project.Acsm.Patterns.{times}
use school_project.Acsm.Labels.{IsBuilt}
use school_project.Acsm.Failure.{delta, failure, depth, wanted, parent}

-- How often a state is in the queue.
unfoldable pub queued : ℕ → List ℕ → ℕ
queued s [] = 0
queued s (x ∷ q) = (if s == x then 1 else 0) + queued s q

pub queued-append :
    (s : ℕ) (q : List ℕ) (n : ℕ) → queued s (q ++ n ∷ []) ≡ queued s q + (if s == n then 1 else 0)
unfolding queued
queued-append s [] n = omega arith
queued-append s (x ∷ q) n = omega (arith, queued-append s q n)

same : (x : ℕ) → (x == x) ≡ true
same x = ground arith

-- No state stands behind a deeper one.
abbrev pub IsLevelled : (ℕ → Bytes) → List ℕ → Type 0
IsLevelled label [] = Unit
IsLevelled label (x ∷ q) =
    ((s : ℕ) → 0 < queued s q → depth label x ≤ depth label s) × IsLevelled label q

pub IsLevelled-append :
    (label : ℕ → Bytes) (q : List ℕ) (n : ℕ)
    → IsLevelled label q
    → ((s : ℕ) → 0 < queued s q → depth label s ≤ depth label n)
    → IsLevelled label (q ++ n ∷ [])
unfolding queued
IsLevelled-append label [] n h k = ((λ s m. absurd (omega arith)), tt)
IsLevelled-append label (x ∷ q) n (h, hs) k = (
  λ s m. elim (Bool-cases (s == n)) [
    | inl e ↦ rw (==→eq s n e) (k x (rw (same x) (omega arith)))
    | inr e ↦ h s (omega (arith, queued-append s q n, rw e at (queued-append s q n)))
  ],
  IsLevelled-append label q n hs (λ s m. k s (omega arith)),
)

-- How far the work is: of each state the first `from` transitions are done; it is `ready` once it
-- has been queued, and `popped` once it has been taken out.
pub record Progress : Type 0 where
  pub from : ℕ → ℕ
  pub ready : ℕ → Bool
  pub popped : ℕ → Bool

-- The work stands at byte `c` of state `r`.
pub record IsSearched (b : Building) (label : ℕ → Bytes) (added : Bytes → ℕ) (r c : ℕ)
    (g : Progress) (t : StateTable) (q : List ℕ) : Type 0 where
  pub low : (s d : ℕ) → d < g.from s → d < 256 → (t s).next_state d ≡ some (delta b.table label s d)
  pub high : (s d : ℕ) → g.from s ≤ d → d < 256 → (t s).next_state d ≡ (b.table s).next_state d
  pub fails : (s : ℕ) → g.ready s ≡ true → s ≢ 0 → (t s).fail_state ≡ failure b.table label s
  pub lists :
      (s : ℕ) (p : Bytes) → g.ready s ≡ true → times p (t s).match_list ≡ wanted label added s p
  pub own : (s : ℕ) → g.ready s ≡ false → (t s).match_list ≡ (b.table s).match_list
  pub child : (s d n : ℕ) → (b.table s).next_state d ≡ some n → g.ready n ≡ ltb d (g.from s)
  pub queue : (s : ℕ) → queued s q ≡ (if g.ready s && not (g.popped s) then 1 else 0)
  pub started : (s : ℕ) → g.popped s ≡ false → g.from s ≡ 0
  pub others : (s : ℕ) → g.popped s ≡ true → s ≢ r → g.from s ≡ 256
  pub order : (s : ℕ) → g.ready s ≡ false → g.popped s ≡ false
  pub current : g.from r ≡ c
  pub taken : g.popped r ≡ true
  pub found : g.ready r ≡ true
  pub level :
      (s : ℕ)
      → 0 < queued s q
      → (depth label r ≤ depth label s) × (depth label s ≤ depth label r + 1)
  pub sorted : IsLevelled label q
  pub bound : (s : ℕ) → g.ready s ≡ true → s ≤ b.num
  pub root : (g.from 0 ≡ 256) × (g.ready 0 ≡ true) × (g.popped 0 ≡ true)

module _ {b : Building} {label : ℕ → Bytes} {added : Bytes → ℕ} (v : IsBuilt b label added)
    {r c : ℕ} {g : Progress} {t : StateTable} {q : List ℕ}
    (i : IsSearched b label added r c g t q) where
  -- A state above the current one has been taken out, and all of its transitions are done.
  done_if_ready : (s : ℕ) → g.ready s ≡ true → depth label s < depth label r → g.from s ≡ 256
  done_if_ready s e h = elim (Bool-cases (g.popped s)) [
    | inl p ↦ i.others s p (λ x. absurd (omega (arith, ap (λ k. depth label k) x)))
    | inr p ↦ absurd (omega (arith, i.level s (rw (i.queue s, e, p) (omega arith))))
  ]

  -- A state whose parent is done is ready.
  pub ready-of_parent :
      (s p d : ℕ) → (b.table p).next_state d ≡ some s → g.from p ≡ 256 → g.ready s ≡ true
  ready-of_parent s p d e f =
      let (_, _, _, small) = v.tree.child p d s e in i.child p d s e ∙ rw f (lt→ltb d 256 small)

  ready_above : (k s : ℕ) → s ≤ b.num → depth label s ≤ k → k ≤ depth label r → g.ready s ≡ true
  ready_above zero s h d e = elim (Bool-cases (s == 0)) [
    | inl z ↦ subst (λ x. g.ready x ≡ true) (sym (==→eq s 0 z)) i.root.1
    | inr z ↦ let (p, a, x, y) = parent v s h (λ x. absurd (ground arith)) in absurd (omega arith)
  ]
  ready_above (suc k) s h d e = elim (Bool-cases (s == 0)) [
    | inl z ↦ subst (λ x. g.ready x ≡ true) (sym (==→eq s 0 z)) i.root.1
    | inr z ↦
        let (p, a, x, y) = parent v s h (λ x. absurd (ground arith)) in
        let (_, h', _, _) = v.tree.child p a s x in
        ready-of_parent s p a x
          (done_if_ready p (ready_above k p h' (omega arith) (omega arith)) (omega arith))
  ]

  pub ready-of_depth : (s : ℕ) → s ≤ b.num → depth label s ≤ depth label r → g.ready s ≡ true
  ready-of_depth s h d = ready_above (depth label r) s h d (omega arith)

  pub done-of_depth : (s : ℕ) → s ≤ b.num → depth label s < depth label r → g.from s ≡ 256
  done-of_depth s h d = done_if_ready s (ready-of_depth s h (omega arith)) d
