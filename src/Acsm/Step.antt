-- ===== src/Acsm/Step.antt =====
-- acsmx.c, `Build_DFA`: one transition of the state in hand.
use school_project.Common.{
  ℕ, ◌+◌, ◌≤◌, ◌<◌, ◌≡◌, ◌≢◌, refl, ap, ◌∙◌, true, ◌&&◌, none, some, List, arith, ltb, ◌==◌,
  if◌then◌else◌, Bytes, Bool-cases, inl, inr,
}
use school_project.Acsm.{StateTable, Building, set_next}
use school_project.Acsm.Rows.{next-set_next, fail-set_next, list-set_next}
use school_project.Acsm.Labels.{IsBuilt}
use school_project.Acsm.Failure.{delta, failure, delta-failure, failure-le, depth-failure}
use school_project.Acsm.Bfs.{Progress, IsSearched, done-of_depth}

-- One more transition of `r` is done.
abbrev pub advance : Progress → ℕ → Progress
advance g r = record g { from = λ s. if s == r then g.from s + 1 else g.from s }

-- And `n` is queued.
abbrev pub enqueue : Progress → ℕ → Progress
enqueue g n = record g { ready = λ s. if s == n then true else g.ready s }

module _ {b : Building} {label : ℕ → Bytes} {added : Bytes → ℕ} (v : IsBuilt b label added)
    {r c : ℕ} {g : Progress} {t : StateTable} {q : List ℕ} (i : IsSearched b label added r c g t q)
    (below : r ≢ 0) (byte : c < 256) where
  -- The failure state of `r` has all of its transitions.
  pub failed :
      ((t r).fail_state ≡ failure b.table label r)
      × ((t (failure b.table label r)).next_state c
          ≡ some (delta b.table label (failure b.table label r) c))
  failed =
      let h = i.bound r i.found in
      let d = depth-failure v r h below in
      (
        i.fails r i.found below,
        i.low (failure b.table label r) c
            (omega (arith, done-of_depth v i (failure b.table label r) (failure-le v r) d)) byte,
      )

  module _ (free : (b.table r).next_state c ≡ none) where
    abbrev pub filled : StateTable
    filled = set_next t r c ((t (t r).fail_state).next_state c)

    filled-next :
        (s d : ℕ)
        → (filled s).next_state d
          ≡ (if s == r && d == c then some (delta b.table label r c) else (t s).next_state d)
    filled-next s d =
        next-set_next t r c ((t (t r).fail_state).next_state c) s d
        ∙ rw (failed.0, failed.1, delta-failure v r c (i.bound r i.found) below free) refl

    filled-low :
        (s d : ℕ)
        → d < (advance g r).from s
        → d < 256
        → (filled s).next_state d ≡ some (delta b.table label s d)
    filled-low s d h k = elim (Bool-cases (s == r && d == c)) [
      | inl x ↦
          let s' : s ≡ r = ground arith in
          let d' : d ≡ c = ground arith in rw (filled-next s d, x, s', d') refl
      | inr x ↦ rw (filled-next s d, x) (i.low s d (ground (arith, i.current)) k)
    ]

    filled-high :
        (s d : ℕ)
        → (advance g r).from s ≤ d
        → d < 256
        → (filled s).next_state d ≡ (b.table s).next_state d
    filled-high s d h k = elim (Bool-cases (s == r && d == c)) [
      | inl x ↦ absurd (ground (arith, i.current))
      | inr x ↦ rw (filled-next s d, x) (i.high s d (ground (arith, i.current)) k)
    ]

    filled-child :
        (s d n : ℕ) → (b.table s).next_state d ≡ some n → g.ready n ≡ ltb d ((advance g r).from s)
    filled-child s d n e = elim (Bool-cases (s == r && d == c)) [
      | inl x ↦
          let s' : s ≡ r = ground arith in
          let d' : d ≡ c = ground arith in
          absurd (cc (e, ap (λ k. (b.table k).next_state d) s', ap (b.table r).next_state d', free))
      | inr x ↦ i.child s d n e ∙ ground (arith, i.current)
    ]

    pub visit-none : IsSearched b label added r (c + 1) (advance g r) filled q
    visit-none = record {
      low = filled-low;
      high = filled-high;
      fails = λ s e z. fail-set_next t r c ((t (t r).fail_state).next_state c) s ∙ i.fails s e z;
      lists =
          λ s p e. rw (list-set_next t r c ((t (t r).fail_state).next_state c) s) (i.lists s p e);
      own = λ s e. list-set_next t r c ((t (t r).fail_state).next_state c) s ∙ i.own s e;
      child = filled-child;
      queue = i.queue;
      started = λ s e. ground (arith, i.started s e, i.taken);
      others = λ s e n. ground (arith, i.others s e n);
      order = i.order;
      current = ground (arith, i.current);
      taken = i.taken;
      found = i.found;
      level = i.level;
      sorted = i.sorted;
      bound = i.bound;
      root = (ground (arith, i.root), i.root.1, i.root.2);
    }
