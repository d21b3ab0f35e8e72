-- ===== src/Acsm/Loop.antt =====
-- acsmx.c, `Build_DFA`: its loops end, with every transition and every list as it has to be.
use mathlib.Core.Path.{subst}
use school_project.Common.{
  ℕ, zero, suc, ◌+◌, ◌≤◌, ◌<◌, ◌≡◌, ◌≢◌, refl, sym, ap, ◌∙◌, Bool, true, false, not, ◌&&◌, Option,
  some, List, [], ◌∷◌, ◌++◌, arith, ◌==◌, if◌then◌else◌, Bytes, Bool-cases, Option-cases, inl, inr,
}
use school_project.Acsm.{StateTable, Building, Work, next_valid, build_byte, build_bytes}
use school_project.Acsm.States.{==→eq}
use school_project.Acsm.Labels.{IsBuilt}
use school_project.Acsm.Failure.{failure, depth, failure-child}
use school_project.Acsm.Bfs.{queued, Progress, IsSearched}
use school_project.Acsm.Step.{visit-none, failed, advance, enqueue, filled}
use school_project.Acsm.Enter.{visit-some, entered}

abbrev pub work : StateTable → List ℕ → Work
work t q = record { table = t; queue = q }

-- What a part of the work leaves: a state of the search at byte `c` of `r`, with the same states
-- taken out.
abbrev pub Kept : Building → (ℕ → Bytes) → (Bytes → ℕ) → ℕ → ℕ → Progress → Option Work → Type 0
Kept b label added r c g w =
    (g' : Progress) × (t : StateTable) × (q : List ℕ) × (w ≡ some (work t q))
    × IsSearched b label added r c g' t q
    × (g'.popped ≡ g.popped)

next_valid-some :
    (fuel : ℕ) (t : StateTable) (f c : ℕ) {n : ℕ}
    → (t f).next_state c ≡ some n
    → next_valid (suc fuel) t f c ≡ some n
unfolding next_valid
next_valid-some fuel t f c e = rw (e, next_valid) refl

module _ {b : Building} {label : ℕ → Bytes} {added : Bytes → ℕ} (v : IsBuilt b label added) where
  build_byte-Kept :
      (fuel r c : ℕ) {g : Progress} {t : StateTable} {q : List ℕ}
      → IsSearched b label added r c g t q
      → r ≢ 0
      → c < 256
      → Kept b label added r (c + 1) g (build_byte (suc fuel) r c (work t q))
  unfolding build_byte
  build_byte-Kept fuel r c {g} {t} {q} i z byte =
      let f = failed v i z byte in
      let found_next = λ (n : ℕ) (e : (b.table r).next_state c ≡ some n).
        let x : next_valid (suc fuel) t (t r).fail_state c ≡ some (failure b.table label n) =
          rw f.0 (next_valid-some fuel t (failure b.table label r) c f.1)
          ∙ ap some (sym (failure-child v r c n z e)) in
        x in
      let here : (t r).next_state c ≡ (b.table r).next_state c =
        i.high r c (omega (arith, i.current)) byte in
      elim (Option-cases ((b.table r).next_state c)) [
        | inl e ↦ (
          advance g r,
          filled v i z byte e,
          q,
          rw (here ∙ e, build_byte) refl,
          visit-none v i z byte e,
          refl,
        )
        | inr (n, e) ↦ (
          enqueue (advance g r) n,
          entered v i z byte n e,
          q ++ n ∷ [],
          rw (here ∙ e, build_byte) (rw (found_next n e) refl),
          visit-some v i z byte n e,
          refl,
        )
      ]

  pub build_bytes-Kept :
      (fuel r k c : ℕ) {g : Progress} {t : StateTable} {q : List ℕ}
      → IsSearched b label added r c g t q
      → r ≢ 0
      → c + k ≤ 256
      → Kept b label added r (c + k) g (build_bytes (suc fuel) r k c (work t q))
  unfolding build_bytes
  build_bytes-Kept fuel r zero c {g} {t} {q} i z h =
      (g, t, q, refl, subst (λ k. IsSearched b label added r k g t q) (omega arith) i, refl)
  build_bytes-Kept fuel r (suc k) c {g} {t} {q} i z h =
      let (g₁, t₁, q₁, e, i₁, p₁) = build_byte-Kept fuel r c i z (omega arith) in
      let (g', t', q', e', i', p') = build_bytes-Kept fuel r k (c + 1) i₁ z (omega arith) in
      (
        g',
        t',
        q',
        rw e e',
        subst (λ j. IsSearched b label added r j g' t' q') (omega arith) i',
        p' ∙ p₁,
      )

-- How many of the first states have not been taken out.
pub undone : ℕ → (ℕ → Bool) → ℕ
undone zero p = 0
undone (suc k) p = (if p k then 0 else 1) + undone k p

abbrev pub pop : Progress → ℕ → Progress
pop g n = record g { popped = λ s. if s == n then true else g.popped s }

pub undone-le : (k : ℕ) (p : ℕ → Bool) → undone k p ≤ k
unfolding undone
undone-le zero p = omega arith
undone-le (suc k) p = ground (arith, undone-le k p)

undone-beyond :
    (k n : ℕ) (p : ℕ → Bool) → k ≤ n → undone k (λ s. if s == n then true else p s) ≡ undone k p
unfolding undone
undone-beyond zero n p h = refl
undone-beyond (suc k) n p h = ground (arith, undone-beyond k n p)

pub undone-pop :
    (k n : ℕ) (p : ℕ → Bool)
    → n < k
    → p n ≡ false
    → undone k (λ s. if s == n then true else p s) + 1 ≡ undone k p
unfolding undone
undone-pop zero n p h e = absurd (omega arith)
undone-pop (suc k) n p h e = elim (Bool-cases (k == n)) [
  | inl x ↦ rw (x, undone-beyond k n p (ground arith), ==→eq k n x, e) (omega arith)
  | inr x ↦ rw x (omega (arith, undone-pop k n p (ground arith) e))
]

module _ {b : Building} {label : ℕ → Bytes} {added : Bytes → ℕ} {r : ℕ} {g : Progress}
    {t : StateTable} {n : ℕ} {q : List ℕ} (i : IsSearched b label added r 256 g t (n ∷ q)) where
  popped_queue :
      (s : ℕ)
      → (if s == n then 1 else 0) + queued s q ≡ (if g.ready s && not (g.popped s) then 1 else 0)
  popped_queue s = unfold queued in i.queue s

  pub in_hand : (g.ready n ≡ true) × (g.popped n ≡ false)
  in_hand = ground (arith, popped_queue n)

  others_popped : (s : ℕ) → (pop g n).popped s ≡ true → s ≢ n → g.from s ≡ 256
  others_popped s e z = elim (Bool-cases (s == r)) [
    | inl x ↦ rw (==→eq s r x) i.current
    | inr x ↦ i.others s (ground arith) (λ y. absurd (ground arith))
  ]

  level_popped :
      (s : ℕ)
      → 0 < queued s q
      → (depth label n ≤ depth label s) × (depth label s ≤ depth label n + 1)
  level_popped s h =
      let (_, above) = i.level s (unfold queued in omega arith) in
      let (below, _) = i.level n (unfold queued in ground arith) in (i.sorted.0 s h, omega arith)

  pub pop-IsSearched : IsSearched b label added n 0 (pop g n) t q
  pop-IsSearched = record {
    low = i.low;
    high = i.high;
    fails = i.fails;
    lists = i.lists;
    own = i.own;
    child = i.child;
    queue = λ s. ground (arith, popped_queue s);
    started = λ s e. ground (arith, i.started s);
    others = others_popped;
    order = λ s e. ground (arith, i.order s, in_hand);
    current = ground (arith, i.started n, in_hand);
    taken = ground arith;
    found = in_hand.0;
    level = level_popped;
    sorted = i.sorted.1;
    bound = i.bound;
    root = (i.root.0, i.root.1, ground (arith, i.root));
  }

  pub nonroot : n ≢ 0
  nonroot e = absurd (ground (arith, in_hand, i.root))
