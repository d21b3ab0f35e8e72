-- ===== src/Acsm/First.antt =====
-- acsmx.c, `Build_DFA`: the first loop, over the states below the root.
use mathlib.Core.Path.{subst}
use mathlib.Core.Option.{some-injective}
use school_project.Common.{
  ℕ, zero, suc, ◌+◌, ◌≡◌, ◌≢◌, refl, sym, ap, ◌∙◌, Bool, true, false, none, some, List, [], ◌∷◌,
  ◌++◌, arith, ltb, ◌==◌, if◌then◌else◌, Bytes, length, Bool-cases, Option-cases, inl, inr,
}
use school_project.Acsm.{StateTable, Building, first_states, close_root, set_fail, queue_add}
use school_project.Acsm.States.{==→eq}
use school_project.Acsm.Rows.{next-set_fail, fail-set_fail, list-set_fail}
use school_project.Acsm.Tree.{child-length, child_unique}
use school_project.Acsm.Labels.{IsBuilt}
use school_project.Acsm.Failure.{depth}
use school_project.Acsm.Bfs.{queued, queued-append}
use school_project.Acsm.Loop.{work}

pub close_root-next :
    (t : StateTable) (d : ℕ)
    → ((t 0).next_state d ≡ none → (close_root t 0).next_state d ≡ some 0)
      × ((n : ℕ) → (t 0).next_state d ≡ some n → (close_root t 0).next_state d ≡ some n)
unfolding close_root
close_root-next t d = ((λ e. rw e refl), λ n e. rw e refl)

pub close_root-below : (t : StateTable) (s : ℕ) → s ≢ 0 → close_root t s ≡ t s
unfolding close_root
close_root-below t s n = ground arith

pub close_root-list : (t : StateTable) (s : ℕ) → (close_root t s).match_list ≡ (t s).match_list
unfolding close_root
close_root-list t s = ground arith

-- The children of the root by bytes below `c` are in the queue.
pub record IsFirst (b : Building) (c : ℕ) (ready : ℕ → Bool) (t : StateTable) (q : List ℕ)
    : Type 0 where
  pub rows : (s d : ℕ) → (t s).next_state d ≡ (close_root b.table s).next_state d
  pub kept : (s : ℕ) → (t s).match_list ≡ (b.table s).match_list
  pub fails : (s : ℕ) → ready s ≡ true → (t s).fail_state ≡ 0
  pub child : (d n : ℕ) → (b.table 0).next_state d ≡ some n → ready n ≡ ltb d c
  pub below : (s : ℕ) → ready s ≡ true → (d : ℕ) × ((b.table 0).next_state d ≡ some s)
  pub queue : (s : ℕ) → queued s q ≡ (if ready s then 1 else 0)

positive : (n : ℕ) → n ≢ 0 → (m : ℕ) × (n ≡ suc m)
positive zero h = absurd (h refl)
positive (suc m) h = (m, refl)

module _ {b : Building} {label : ℕ → Bytes} {added : Bytes → ℕ} (v : IsBuilt b label added) where
  pub child_nonroot : (s c n : ℕ) → (b.table s).next_state c ≡ some n → n ≢ 0
  child_nonroot s c n e z =
      absurd (
        omega
          (arith, child-length v.tree s c n e, ap (λ k. depth label k) z, ap length v.tree.root))

  module _ {c : ℕ} {ready : ℕ → Bool} {t : StateTable} {q : List ℕ}
      (i : IsFirst b c ready t q) where
    skip-IsFirst : (b.table 0).next_state c ≡ none → IsFirst b (c + 1) ready t q
    skip-IsFirst e = record {
      rows = i.rows;
      kept = i.kept;
      fails = i.fails;
      child = λ d n x. i.child d n x ∙ elim (Bool-cases (d == c)) [
        | inl y ↦ let d' : d ≡ c = ==→eq d c y in absurd (cc (x, ap (b.table 0).next_state d', e))
        | inr y ↦ ground arith
      ];
      below = i.below;
      queue = i.queue;
    }

    enter-IsFirst :
        (n : ℕ)
        → (b.table 0).next_state c ≡ some n
        → IsFirst b (c + 1) (λ s. if s == n then true else ready s) (set_fail t n 0) (q ++ n ∷ [])
    enter-IsFirst n e =
        let new : ready n ≡ false = i.child c n e ∙ ground arith in
        record {
          rows = λ s d. next-set_fail t n 0 s d ∙ i.rows s d;
          kept = λ s. list-set_fail t n 0 s ∙ i.kept s;
          fails = λ s x. fail-set_fail t n 0 s ∙ ground (arith, i.fails s);
          child = λ d m x. elim (Bool-cases (m == n)) [
            | inl y ↦
                let m' : m ≡ n = ==→eq m n y in
                let (_, d') =
                  child_unique v.tree 0 d 0 c n
                    (subst (λ k. (b.table 0).next_state d ≡ some k) m' x) e in
                rw (y, d') (ground arith)
            | inr y ↦ rw y (
                i.child d m x ∙ elim (Bool-cases (d == c)) [
                  | inl z ↦
                      let d' : d ≡ c = ==→eq d c z in
                      let m' : m ≡ n =
                        some-injective _ _ (sym x ∙ ap (b.table 0).next_state d' ∙ e) in
                      absurd (ground arith)
                  | inr z ↦ ground arith
                ])
          ];
          below = λ s x. elim (Bool-cases (s == n)) [
            | inl y ↦ (c, e ∙ ap some (sym (==→eq s n y)))
            | inr y ↦ i.below s (rw y at x)
          ];
          queue = λ s. ground (arith, queued-append s q n, i.queue s, new);
        }

  pub first_states-IsFirst :
      (k c : ℕ) {ready : ℕ → Bool} {t : StateTable} {q : List ℕ}
      → IsFirst b c ready t q
      → (ready' : ℕ → Bool) × (t' : StateTable) × (q' : List ℕ) × (first_states k c (work t q)
          ≡ some (work t' q'))
        × IsFirst b (c + k) ready' t' q'
  unfolding first_states queue_add
  first_states-IsFirst zero c {ready} {t} {q} i =
      (ready, t, q, refl, subst (λ j. IsFirst b j ready t q) (omega arith) i)
  first_states-IsFirst (suc k) c {ready} {t} {q} i =
      elim (Option-cases ((b.table 0).next_state c)) [
        | inl e ↦
            let (r', t', q', f, i') = first_states-IsFirst k (c + 1) (skip-IsFirst i e) in
            let here : (t 0).next_state c ≡ some 0 = i.rows 0 c ∙ (close_root-next b.table c).0 e in
            (r', t', q', rw here f, subst (λ j. IsFirst b j r' t' q') (omega arith) i')
        | inr (n, e) ↦
            let (m, s) = positive n (child_nonroot 0 c n e) in
            let (r', t', q', f, i') = first_states-IsFirst k (c + 1) (enter-IsFirst i n e) in
            let here : (t 0).next_state c ≡ some (suc m) =
              i.rows 0 c ∙ (close_root-next b.table c).1 n e ∙ ap some s in
            (
              r',
              t',
              q',
              rw here (
                  subst
                    (λ n.
                      first_states k (c + 1) (work (set_fail t n 0) (q ++ n ∷ []))
                      ≡ some (work t' q'))
                    s f),
              subst (λ j. IsFirst b j r' t' q') (omega arith) i',
            )
      ]
