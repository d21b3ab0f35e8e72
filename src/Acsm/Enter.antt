-- ===== src/Acsm/Enter.antt =====
-- acsmx.c, `Build_DFA`: a transition of the state in hand to a new state.
use mathlib.Core.Path.{subst}
use mathlib.Core.Option.{some-injective}
use school_project.Common.{
  ℕ, ◌+◌, ◌≤◌, ◌<◌, ◌≡◌, ◌≢◌, refl, sym, ap, ◌∙◌, true, false, not, ◌&&◌, some, List, [], ◌∷◌, ◌++◌,
  arith, ltb, ◌==◌, if◌then◌else◌, Bytes, length, Bool-cases, inl, inr,
}
use school_project.Acsm.{StateTable, Building, set_fail}
use school_project.Acsm.States.{==→eq}
use school_project.Acsm.Patterns.{times}
use school_project.Acsm.Rows.{
  next-set_fail, fail-set_fail, list-set_fail, add_all, next-add_all, fail-add_all, times-add_all,
  list-add_all,
}
use school_project.Acsm.Tree.{child-length, child_unique}
use school_project.Acsm.Labels.{IsBuilt}
use school_project.Acsm.Failure.{
  delta, failure, depth, wanted, delta-child, failure-le, depth-failure, wanted-failure,
}
use school_project.Acsm.Bfs.{
  queued, queued-append, IsLevelled-append, Progress, IsSearched, ready-of_depth,
}
use school_project.Acsm.Step.{advance, enqueue}

module _ {b : Building} {label : ℕ → Bytes} {added : Bytes → ℕ} (v : IsBuilt b label added)
    {r c : ℕ} {g : Progress} {t : StateTable} {q : List ℕ} (i : IsSearched b label added r c g t q)
    (below : r ≢ 0) (byte : c < 256) where
  module _ (n : ℕ) (next : (b.table r).next_state c ≡ some n) where
    abbrev pub entered : StateTable
    entered =
        add_all (set_fail t n (failure b.table label n)) n (t (failure b.table label n)).match_list

    entered-next : (s d : ℕ) → (entered s).next_state d ≡ (t s).next_state d
    entered-next s d =
        next-add_all (set_fail t n (failure b.table label n)) n
          (t (failure b.table label n)).match_list s d
        ∙ next-set_fail t n (failure b.table label n) s d

    entered-fail :
        (s : ℕ)
        → (entered s).fail_state ≡ (if s == n then failure b.table label n else (t s).fail_state)
    entered-fail s =
        fail-add_all (set_fail t n (failure b.table label n)) n
          (t (failure b.table label n)).match_list s
        ∙ fail-set_fail t n (failure b.table label n) s

    entered-times :
        (s : ℕ) (p : Bytes)
        → times p (entered s).match_list
          ≡ (if s == n then times p (t (failure b.table label n)).match_list else 0)
            + times p (t s).match_list
    entered-times s p =
        times-add_all (set_fail t n (failure b.table label n)) n
          (t (failure b.table label n)).match_list s p
        ∙ ap
            (λ l.
              (if s == n then times p (t (failure b.table label n)).match_list else 0) + times p l)
            (list-set_fail t n (failure b.table label n) s)

    entered-list : (s : ℕ) → (s == n) ≡ false → (entered s).match_list ≡ (t s).match_list
    entered-list s e =
        list-add_all (set_fail t n (failure b.table label n)) n
          (t (failure b.table label n)).match_list s e
        ∙ list-set_fail t n (failure b.table label n) s

    new_state : g.ready n ≡ false
    new_state = i.child r c n next ∙ ground (arith, i.current)

    new_below : (n ≤ b.num) × (depth label n ≡ depth label r + 1)
    new_below = ((v.tree.child r c n next).2, child-length v.tree r c n next)

    same_n : (n == n) ≡ true
    same_n = ground arith

    new_nonroot : n ≢ 0
    new_nonroot e =
        absurd (omega (arith, new_below, ap (λ k. depth label k) e, ap length v.tree.root))

    entered-low :
        (s d : ℕ)
        → d < (advance g r).from s
        → d < 256
        → (entered s).next_state d ≡ some (delta b.table label s d)
    entered-low s d h k = entered-next s d ∙ elim (Bool-cases (s == r && d == c)) [
      | inl x ↦
          let s' : s ≡ r = ground arith in
          let d' : d ≡ c = ground arith in
          rw (s', d', i.high r c (omega (arith, i.current)) byte, next, delta-child v r c n next)
            refl
      | inr x ↦ i.low s d (ground (arith, i.current)) k
    ]

    entered-high :
        (s d : ℕ)
        → (advance g r).from s ≤ d
        → d < 256
        → (entered s).next_state d ≡ (b.table s).next_state d
    entered-high s d h k = entered-next s d ∙ i.high s d (ground (arith, i.current)) k

    entered-fails :
        (s : ℕ)
        → (enqueue g n).ready s ≡ true
        → s ≢ 0
        → (entered s).fail_state ≡ failure b.table label s
    entered-fails s e z = elim (Bool-cases (s == n)) [
      | inl x ↦ rw (entered-fail s, x, ==→eq s n x) refl
      | inr x ↦ rw (entered-fail s, x) (i.fails s (rw x at e) z)
    ]

    entered-lists :
        (s : ℕ) (p : Bytes)
        → (enqueue g n).ready s ≡ true
        → times p (entered s).match_list ≡ wanted label added s p
    entered-lists s p e = elim (Bool-cases (s == n)) [
      | inr x ↦ rw (entered-times s p, x) (omega (arith, i.lists s p (rw x at e)))
      | inl x ↦
          let f = failure b.table label n in
          let above = depth-failure v n new_below.0 new_nonroot in
          let ready = ready-of_depth v i f (failure-le v n) (omega (arith, new_below)) in
          rw
            (
              ==→eq s n x,
              entered-times n p,
              same_n,
              i.lists f p ready,
              i.own n new_state,
              v.listed n p new_below.0,
            )
            (omega (arith, wanted-failure v n p new_below.0 new_nonroot))
    ]

    entered-child :
        (s d m : ℕ)
        → (b.table s).next_state d ≡ some m
        → (enqueue g n).ready m ≡ ltb d ((advance g r).from s)
    entered-child s d m e = elim (Bool-cases (m == n)) [
      | inl x ↦
          let m' : m ≡ n = ==→eq m n x in
          let (s', d') =
            child_unique v.tree s d r c n (subst (λ k. (b.table s).next_state d ≡ some k) m' e)
              next in
          rw (x, s', d') (ground (arith, i.current))
      | inr x ↦ rw x (elim (Bool-cases (s == r && d == c)) [
        | inl y ↦
            let s' : s ≡ r = ground arith in
            let d' : d ≡ c = ground arith in
            let m' : m ≡ n = some-injective _ _ (sym e ∙ rw (s', d') next) in absurd (ground arith)
        | inr y ↦ i.child s d m e ∙ ground (arith, i.current)
      ])
    ]

    entered-queue :
        (s : ℕ)
        → queued s (q ++ n ∷ []) ≡ (if (enqueue g n).ready s && not (g.popped s) then 1 else 0)
    entered-queue s = ground (arith, queued-append s q n, i.queue s, new_state, i.order n new_state)

    pub visit-some :
        IsSearched b label added r (c + 1) (enqueue (advance g r) n) entered (q ++ n ∷ [])
    visit-some = record {
      low = entered-low;
      high = entered-high;
      fails = entered-fails;
      lists = entered-lists;
      own = λ s e.
          let away : (s == n) ≡ false = ground arith in
          entered-list s away ∙ i.own s (ground arith);
      child = entered-child;
      queue = entered-queue;
      started = λ s e. ground (arith, i.started s e, i.taken);
      others = λ s e z. ground (arith, i.others s e z);
      order = λ s e. ground (arith, i.order s);
      current = ground (arith, i.current);
      taken = i.taken;
      found = ground (arith, i.found);
      level = λ s h. ground (arith, queued-append s q n, i.level s, new_below);
      sorted = IsLevelled-append label q n i.sorted (λ s h. omega (arith, i.level s h, new_below));
      bound = λ s e. ground (arith, i.bound s, new_below);
      root = (ground (arith, i.root), ground (arith, i.root), i.root.2);
    }
