-- ===== src/Acsm/Compile.antt =====
-- acsmx.c: `acsmCompile` ends, with the automaton finished.
use mathlib.Core.Path.{subst}
use school_project.Common.{
  ℕ, ◌+◌, ◌≤◌, ◌<◌, ◌≡◌, refl, sym, ap, ◌∙◌, Bool, true, false, some, List, [], ◌∷◌, ◌++◌, arith,
  ltb, ◌==◌, if◌then◌else◌, Bytes, length, Bool-cases, Option-cases, inl, inr, bytes_eq,
  eq_of_bytes_eq,
}
use school_project.Acsm.{
  StateTable, Acsm, Building, close_root, build_dfa, pattern_states, total_length, acsm_compile,
  alphabet_size,
}
use school_project.Acsm.States.{==→eq}
use school_project.Acsm.Patterns.{times}
use school_project.Acsm.Tree.{child_unique}
use school_project.Acsm.Labels.{IsBuilt}
use school_project.Acsm.Insertion.{AllPatterns, pattern_states-IsBuilt}
use school_project.Acsm.Longest.{ends, longest-nil}
use school_project.Acsm.Failure.{delta, depth, wanted, delta-child, delta-root}
use school_project.Acsm.Bfs.{queued, IsLevelled, Progress, IsSearched}
use school_project.Acsm.Loop.{undone-le}
use school_project.Acsm.Finish.{IsFinished, loop-IsSearched, all-IsFinished}
use school_project.Acsm.First.{
  IsFirst, close_root-next, close_root-below, close_root-list, child_nonroot, first_states-IsFirst,
}

abbrev start : (ℕ → Bool) → Progress
start ready = record {
  from = λ s. if s == 0 then 256 else 0;
  ready = λ s. if s == 0 then true else ready s;
  popped = λ s. s == 0;
}

IsLevelled-same :
    (label : ℕ → Bytes) (q : List ℕ) (k : ℕ)
    → ((s : ℕ) → 0 < queued s q → depth label s ≡ k)
    → IsLevelled label q
unfolding queued
IsLevelled-same label [] k h = tt
IsLevelled-same label (x ∷ q) k h = (
  λ s m. omega (arith, h s (omega arith), h x (ground arith)),
  IsLevelled-same label q k (λ s m. h s (omega arith)),
)

module _ {b : Building} {label : ℕ → Bytes} {added : Bytes → ℕ} (v : IsBuilt b label added)
    (nonempty : added [] ≡ 0) {ready : ℕ → Bool} {t : StateTable} {q : List ℕ}
    (i : IsFirst b 256 ready t q) where
  root_waits : ready 0 ≡ false
  root_waits = elim (Bool-cases (ready 0)) [
    | inl e ↦ let (d, x) = i.below 0 e in absurd (child_nonroot v 0 d 0 x refl)
    | inr e ↦ e
  ]

  root_next : (d : ℕ) → (t 0).next_state d ≡ some (delta b.table label 0 d)
  root_next d = i.rows 0 d ∙ elim (Option-cases ((b.table 0).next_state d)) [
    | inl e ↦ (close_root-next b.table d).0 e ∙ ap some (sym (delta-root v d e))
    | inr (n, e) ↦ (close_root-next b.table d).1 n e ∙ ap some (sym (delta-child v 0 d n e))
  ]

  ready_label : (s : ℕ) → ready s ≡ true → (d : ℕ) × (label s ≡ d ∷ []) × (s ≤ b.num)
  ready_label s e =
      let (d, x) = i.below s e in
      let (lab, _, h, _) = v.tree.child 0 d s x in (d, lab ∙ ap (λ u. u ++ d ∷ []) v.tree.root, h)

  start_lists :
      (s : ℕ) (p : Bytes)
      → (start ready).ready s ≡ true
      → times p (t s).match_list ≡ wanted label added s p
  unfolding ends
  start_lists s p e = elim (Bool-cases (s == 0)) [
    | inl x ↦ rw (==→eq s 0 x, i.kept 0, v.listed 0 p (omega arith), v.tree.root) refl
    | inr x ↦
        let (d, lab, h) = ready_label s (rw x at e) in
        rw (i.kept s, v.listed s p h, lab)
          (elim (Bool-cases (bytes_eq p [])) [
            | inl y ↦ rw (eq_of_bytes_eq p [] y, nonempty) (ground arith)
            | inr y ↦ ground arith
          ])
  ]

  start_child :
      (s d n : ℕ)
      → (b.table s).next_state d ≡ some n
      → (start ready).ready n ≡ ltb d ((start ready).from s)
  start_child s d n e =
      let z = child_nonroot v s d n e in
      elim (Bool-cases (s == 0)) [
        | inl x ↦
            let r = i.child d n (subst (λ k. (b.table k).next_state d ≡ some n) (==→eq s 0 x) e) in
            ground arith
        | inr x ↦ elim (Bool-cases (ready n)) [
          | inr y ↦ ground arith
          | inl y ↦
              let (d', f) = i.below n y in
              let (s', _) = child_unique v.tree s d 0 d' n e f in absurd (ground arith)
        ]
      ]

  one_deep : (s : ℕ) → 0 < queued s q → depth label s ≡ 1
  one_deep s h = let (d, lab, _) = ready_label s (ground (arith, i.queue s)) in ap length lab

  start-IsSearched : IsSearched b label added 0 256 (start ready) t q
  start-IsSearched = record {
    low = λ s d h k. elim (Bool-cases (s == 0)) [
      | inl x ↦ rw (==→eq s 0 x) (root_next d)
      | inr x ↦ absurd (ground arith)
    ];
    high = λ s d h k.
        i.rows s d
        ∙ ap (λ r. r.next_state d) (close_root-below b.table s (λ x. absurd (ground arith)));
    fails = λ s e z.
        let (d, lab, _) = ready_label s (ground arith) in
        i.fails s (ground arith) ∙ rw lab (sym (longest-nil b.table));
    lists = λ s p e. start_lists s p e;
    own = λ s e. i.kept s;
    child = λ s d n e. start_child s d n e;
    queue = λ s. ground (arith, i.queue s, root_waits);
    started = λ s e. ground arith;
    others = λ s e z. absurd (ground arith);
    order = λ s e. ground arith;
    current = refl;
    taken = refl;
    found = refl;
    level = λ s h. omega (arith, one_deep s h, ap length v.tree.root);
    sorted = IsLevelled-same label q 1 one_deep;
    bound = λ s e. elim (Bool-cases (s == 0)) [
      | inl x ↦ rw (==→eq s 0 x) (omega arith)
      | inr x ↦ let (_, _, h) = ready_label s (rw x at e) in h
    ];
    root = (refl, refl, refl);
  }

empty-IsFirst : (b : Building) → IsFirst b 0 (λ s. false) (close_root b.table) []
unfolding queued
empty-IsFirst b = record {
  rows = λ s d. refl;
  kept = close_root-list b.table;
  fails = λ s e. absurd (cc e);
  child = λ d n e. ground arith;
  below = λ s e. absurd (cc e);
  queue = λ s. refl;
}

build_dfa-IsFinished :
    (fuel : ℕ) {b : Building} {label : ℕ → Bytes} {added : Bytes → ℕ}
    → IsBuilt b label added
    → added [] ≡ 0
    → b.num + 1 ≤ fuel
    → (t : StateTable) × (build_dfa fuel (close_root b.table) ≡ some t) × IsFinished b label added t
unfolding build_dfa
build_dfa-IsFinished fuel {b} v nonempty h =
    let (ready, t, q, e, i) = first_states-IsFirst v alphabet_size 0 (empty-IsFirst b) in
    let (r, g, t', e', i') =
      loop-IsSearched v fuel 0 q (start-IsSearched v nonempty i)
        (omega (arith, undone-le (b.num + 1) (λ s. s == 0))) in
    (t', rw (e, e') refl, all-IsFinished v i')

-- What `acsmCompile` returns: the automaton of the tree that the patterns make.
pub record IsCompiled (a a' : Acsm) : Type 0 where
  pub label : ℕ → Bytes
  pub table : StateTable
  pub has : a'.state_table ≡ some table
  pub kept : a'.patterns ≡ a.patterns
  pub built : IsBuilt (pattern_states a.patterns) label (λ p. times p a.patterns)
  pub finished : IsFinished (pattern_states a.patterns) label (λ p. times p a.patterns) table
  pub room : a'.num_states < a'.max_states

-- If no pattern is empty and all consist of bytes, `acsmCompile` ends, and on what it returns every
-- state of the tree of the patterns has a transition on each byte, to the state of the longest end
-- that the tree has of what was read; each state lists the patterns in which its bytes end.
-- The pattern list is kept, and no state lies outside the table.
pub acsm_compile-IsCompiled :
    (a : Acsm)
    → AllPatterns a.patterns
    → times [] a.patterns ≡ 0
    → (a' : Acsm) × (acsm_compile a ≡ some a') × IsCompiled a a'
unfolding acsm_compile
acsm_compile-IsCompiled a bytes nonempty =
    let (label, v, room) = pattern_states-IsBuilt a.patterns bytes in
    let (t, e, f) = build_dfa-IsFinished (total_length a.patterns + 1) v nonempty (omega arith) in
    (
      record a {
        max_states = 1 + total_length a.patterns;
        num_states = (pattern_states a.patterns).num;
        state_table = some t;
      },
      rw e refl,
      record {
        label = label;
        table = t;
        has = refl;
        kept = refl;
        built = v;
        finished = f;
        room = room;
      },
    )
