-- ===== src/PageSearch/Rounds.antt =====
-- acsm.c, `acch`: the rounds over the right part of a repetition, which skip.
use mathlib.Core.Path.{subst}
use mathlib.Core.List.{append-nil}
use school_project.Common.{
  ℕ, zero, suc, ◌+◌, ◌-◌, ◌≤◌, ◌<◌, ◌≡◌, ◌⊎◌, refl, sym, ap, ◌∙◌, true, false, Option, some, [],
  ◌∷◌, ◌++◌, ◌==◌, ltb, leb, ltb→lt, arith, Bytes, length, get_elem?, Bool-cases, inl, inr,
}
use school_project.Acsm.{StateTable, Building}
use school_project.Acsm.Labels.{IsBuilt}
use school_project.Acsm.Longest.{longest-nil}
use school_project.Acsm.Finish.{IsFinished}
use school_project.PageSearch.{
  Scan, Copied, copied, wsize, c_depth, set_at, match_status, copy_loop, skip_loop, first_match,
  last_shallow, skip_part, repeat_back,
}
use school_project.PageSearch.Suffixes.{get-AllBytes, snoc-AllBytes}
use school_project.PageSearch.Moves.{Tracks, AreShort}
use school_project.PageSearch.Copies.{IsAt, automaton, length-snoc, win-snoc}
use school_project.PageSearch.Loops.{
  Ran, length-repeat_back, repeat-snoc, At, Ends, w_lem, copy_loop-Ran,
}

pub first_match-some :
    (s : Scan) (d n fk last : ℕ)
    → s.w + fk + n ≤ wsize
    → (k : ℕ) × (first_match s d n fk last ≡ some k) × ((k ≡ last) ⊎ ((fk ≤ k) × (k < fk + n)))
unfolding first_match
first_match-some s d zero fk last room = (last, refl, inl refl)
first_match-some s d (suc n) fk last room =
    let (k, e, h) = first_match-some s d n (fk + 1) last (omega arith) in
    let rest : (k ≡ last) ⊎ ((fk ≤ k) × (k < fk + suc n)) = elim h [
      | inl x ↦ inl x
      | inr (lo, hi) ↦ inr (omega arith, omega arith)
    ] in
    elim (Bool-cases (ltb (s.w + fk) d)) [
      | inl x ↦ (k, rw (x, first_match) e, rest)
      | inr x ↦
          let inside : leb wsize (s.w + fk - d) ≡ false = ground arith in
          elim (Bool-cases (s.st (s.w + fk - d) == match_status)) [
            | inl y ↦ (fk, rw (x, inside, y, first_match) refl, inr (omega arith, omega arith))
            | inr y ↦ (k, rw (x, inside, y, first_match) e, rest)
          ]
    ]

pub last_shallow-some :
    (s : Scan) (d n j : ℕ)
    → s.w + j + n ≤ wsize
    → (p : ℕ) × (last_shallow s d n j ≡ some p) × ((p ≡ j) ⊎ ((j ≤ p) × (p < j + n)))
unfolding last_shallow
last_shallow-some s d zero j room = (j, refl, inl refl)
last_shallow-some s d (suc n) j room =
    let (p, e, h) = last_shallow-some s d n j (omega arith) in
    let rest : (p ≡ j) ⊎ ((j ≤ p) × (p < j + suc n)) = elim h [
      | inl x ↦ inl x
      | inr (lo, hi) ↦ inr (omega arith, omega arith)
    ] in
    elim (Bool-cases (ltb (s.w + (j + n)) d)) [
      | inl x ↦ (p, rw (x, last_shallow) e, rest)
      | inr x ↦
          let inside : leb wsize (s.w + (j + n) - d) ≡ false = ground arith in
          elim (Bool-cases (s.st (s.w + (j + n) - d) == 2)) [
            | inl y ↦ (j + n, rw (x, inside, y, last_shallow) refl, inr (omega arith, omega arith))
            | inr y ↦ (p, rw (x, inside, y, last_shallow) e, rest)
          ]
    ]

-- The skip and the copies behind it end at place `p`, or at a match.
pub data Skipped (At : ℕ → Scan → Type 0) (Ends : ℕ → Type 0) (j p : ℕ) (s : Scan)
    (r : Option Copied) : Type 0 where
  ended :
      (j' : ℕ) (s' : Scan)
      → r ≡ some (copied s' false j')
      → At j' s'
      → j ≤ j'
      → j' ≤ p
      → s'.tag ≡ s.tag
      → Skipped At Ends j p s r
  stopped :
      (j' : ℕ) (s' : Scan)
      → r ≡ some (copied s' true j')
      → At (j' + 1) s'
      → j ≤ j'
      → j' < p
      → s'.tag ≡ true
      → Ends (j' + 1)
      → Skipped At Ends j p s r

-- The three copies behind the skip.
skipped :
    {At : ℕ → Scan → Type 0} {Ends : ℕ → Type 0} {j p : ℕ} {s s₁ : Scan} {r r' : Option Copied}
    → r ≡ r'
    → (i : ℕ) → (j ≤ i) × (i + 3 ≡ p)
    → i ≡ p + 1 - c_depth
    → s₁.tag ≡ s.tag
    → Ran At Ends i 3 (p + 1 - c_depth) s₁ r'
    → Skipped At Ends j p s r
skipped {At} {Ends} e i h there tag (Ran.ended s' e' a same) =
    Skipped.ended (i + 3) s' (e ∙ e' ∙ ap (λ k. some (copied s' false k)) (omega arith)) a
      (omega arith) (omega arith) (same ∙ tag)
skipped {At} {Ends} e i h there tag (Ran.stopped m s' small e' a yes_tag ends) =
    Skipped.stopped (i + m) s' (e ∙ e' ∙ ap (λ k. some (copied s' true k)) (omega arith)) a
      (omega arith) (omega arith) yes_tag ends

root-Tracks : (t : StateTable) (x : Bytes) → Tracks t x 0
root-Tracks t x = ([], (x, sym (append-nil x)), sym (longest-nil t))

module _ {b : Building} {label : ℕ → Bytes} {added : Bytes → ℕ} {t : StateTable}
    (v : IsBuilt b label added) (f : IsFinished b label added t) (short : AreShort added)
    (dept : ℕ → ℕ) (base : Bytes) (d : ℕ) (positive : 0 < d) (within : d ≤ length base) where
  abbrev pub Here : ℕ → Scan → Type 0
  Here j s = At v f short dept base d positive within j s

  abbrev pub EndsAt : ℕ → Type 0
  EndsAt j = Ends v f short dept base d positive within j

  abbrev at_root : Scan → Scan
  at_root s = record s { state = 0 }

  skip_loop-At :
      (n j : ℕ) (s : Scan)
      → Here j (at_root s)
      → s.w + n < wsize
      → (s' : Scan) × (skip_loop d n s ≡ some s') × Here (j + n) (at_root s') × (s'.tag ≡ s.tag)
  unfolding skip_loop
  skip_loop-At zero j s a room = (s, refl, subst (λ k. Here k (at_root s)) (omega arith) a, refl)
  skip_loop-At (suc n) j s (x, e, i) room =
      let c = s.win (s.w - d) in
      let long = length-repeat_back d j base e in
      let there : get_elem? x (length x - d) ≡ some c =
        i.win (length x - d) (omega arith) ∙ ap (λ k. some (s.win (k - d))) (sym i.filled) in
      let next : repeat_back d (j + 1) base ≡ some (x ++ c ∷ []) =
        subst (λ n. repeat_back d n base ≡ some (x ++ c ∷ [])) (omega arith)
          (repeat-snoc d j base e (omega arith) there within) in
      let s₁ : Scan = record s { win = set_at s.win s.w c; w = s.w + 1 } in
      let i₁ : IsAt b.table (x ++ c ∷ []) (at_root s₁) = record {
        filled = omega (arith, i.filled, length-snoc x c);
        win = λ k h.
            subst (λ w. get_elem? (x ++ c ∷ []) k ≡ some (set_at s.win w c k)) (sym i.filled)
              (win-snoc x c s.win i.win k h);
        bytes = snoc-AllBytes x c i.bytes (get-AllBytes x (length x - d) i.bytes there);
        tracks = root-Tracks b.table (x ++ c ∷ []);
      } in
      let (s', q, a', tag) = skip_loop-At n (j + 1) s₁ (x ++ c ∷ [], next, i₁) (omega arith) in
      let here : ltb s.w d ≡ false = ground (arith, i.filled) in
      let inside : leb wsize s.w ≡ false = ground arith in
      (s', rw (here, inside, skip_loop) q, subst (λ k. Here k (at_root s')) (omega arith) a', tag)

  root-Here : (j : ℕ) (s : Scan) → Here j s → Here j (at_root s)
  root-Here j s (x, e, i) = (
    x,
    e,
    record { filled = i.filled; win = i.win; bytes = i.bytes; tracks = root-Tracks b.table x },
  )

  -- The skip and the copies behind it end at place `p`, or at a match.
  pub skip_part-Skipped :
      (j p : ℕ) (s : Scan)
      → Here j s
      → j ≤ p
      → s.w + p + 1 < wsize
      → Skipped Here EndsAt j p s (skip_part (automaton v f short dept) d j p s)
  unfolding skip_part
  skip_part-Skipped j p s a le room = elim (Bool-cases (ltb (j + c_depth) (p + 1))) [
    | inr x ↦ Skipped.ended j s (rw (x, skip_part) refl) a (omega arith) le refl
    | inl x ↦
        let n = p + 1 - c_depth - j in
        let far : j + c_depth < p + 1 = ltb→lt (j + c_depth) (p + 1) x in
        let (s₁, e, a₁, tag) = skip_loop-At n j s (root-Here j s a) (omega arith) in
        let w = w_lem v f short dept base d positive within j s a in
        let w₁ = w_lem v f short dept base d positive within (j + n) (at_root s₁) a₁ in
        let there : j + n ≡ p + 1 - c_depth = omega arith in
        let r : skip_part (automaton v f short dept) d j p s
            ≡ copy_loop (automaton v f short dept) d 3 (p + 1 - c_depth) (at_root s₁) =
          rw (x, e, skip_part) refl in
        skipped r (j + n) (omega arith) there tag (
          copy_loop-Ran v f short dept base d positive within 3 (j + n) (p + 1 - c_depth)
            (at_root s₁) a₁ (omega (arith, w₁, w)))
  ]
