-- ===== src/PageSearch/Loops.antt =====
-- acsm.c, `acch`: the loops over a repetition.
use mathlib.Core.Path.{subst}
use mathlib.Core.Option.{some-injective}
use school_project.Common.{
  ℕ, zero, suc, ◌+◌, ◌-◌, ◌≤◌, ◌<◌, ◌≡◌, refl, ap, ◌∙◌, Bool, true, false, Option, some, [], ◌∷◌,
  ◌++◌, ltb, arith, Bytes, length, get_elem?, Bool-cases, Option-cases, inl, inr,
}
use school_project.Acsm.{StateTable, Building}
use school_project.Acsm.Labels.{IsBuilt}
use school_project.Acsm.Finish.{IsFinished}
use school_project.PageSearch.{
  Scan, put, Copied, copied, wsize, put_copy, copy_loop, left_loop, repeat_back,
}
use school_project.PageSearch.Moves.{EndsInSome, AreShort}
use school_project.PageSearch.Copies.{IsAt, automaton, length-snoc, put_copy-Kept}

-- A loop of `n` copies from place `j` ends, behind all of them or at a match.
pub data Ran (At : ℕ → Scan → Type 0) (Ends : ℕ → Type 0) (j n done : ℕ) (s : Scan)
    (r : Option Copied) : Type 0 where
  ended :
      (s' : Scan)
      → r ≡ some (copied s' false (done + n))
      → At (j + n) s'
      → s'.tag ≡ s.tag
      → Ran At Ends j n done s r
  stopped :
      (m : ℕ) (s' : Scan)
      → m < n
      → r ≡ some (copied s' true (done + m))
      → At (j + m + 1) s'
      → s'.tag ≡ true
      → Ends (j + m + 1)
      → Ran At Ends j n done s r

-- The first loop over a repetition also ends where the automaton is shallow.
pub data RanLeft (At : ℕ → Scan → Type 0) (Ends : ℕ → Type 0) (j n : ℕ) (s : Scan)
    (r : Option Copied) : Type 0 where
  ended :
      (j' : ℕ) (s' : Scan)
      → j' ≤ j + n
      → r ≡ some (copied s' false j')
      → At j' s'
      → s'.tag ≡ s.tag
      → RanLeft At Ends j n s r
  stopped :
      (j' k : ℕ) (s' : Scan)
      → k ≤ j + n
      → r ≡ some (copied s' true j')
      → Ends k
      → RanLeft At Ends j n s r

pub repeat_zero : (d : ℕ) (x : Bytes) → repeat_back d 0 x ≡ some x
unfolding repeat_back
repeat_zero d x = refl

pub length-repeat_back :
    (d n : ℕ) (x : Bytes) {y : Bytes} → repeat_back d n x ≡ some y → length y ≡ length x + n
unfolding repeat_back
length-repeat_back d zero x e = omega (arith, ap length (some-injective _ _ e))
length-repeat_back d (suc n) x e = elim (Bool-cases (ltb (length x) d)) [
  | inl a ↦ absurd (cc (rw (a, repeat_back) at e))
  | inr a ↦ elim (Option-cases (get_elem? x (length x - d))) [
    | inl h ↦ absurd (cc (rw (a, h, repeat_back) at e))
    | inr (c, h) ↦
        omega (
          arith,
          length-repeat_back d n (x ++ c ∷ []) (rw (a, h, repeat_back) at e),
          length-snoc x c,
        )
  ]
]

-- One more byte at the end of a repetition.
pub repeat-snoc :
    (d n : ℕ) (x : Bytes) {y : Bytes} {c : ℕ}
    → repeat_back d n x ≡ some y
    → d ≤ length y
    → get_elem? y (length y - d) ≡ some c
    → d ≤ length x
    → repeat_back d (suc n) x ≡ some (y ++ c ∷ [])
unfolding repeat_back
repeat-snoc d zero x {y} {c} e h g k =
    let same : x ≡ y = some-injective _ _ e in
    let a : ltb (length y) d ≡ false = ground arith in rw (same, a, g, repeat_back) refl
repeat-snoc d (suc n) x {y} {c} e h g k = elim (Option-cases (get_elem? x (length x - d))) [
  | inl z ↦
      let a : ltb (length x) d ≡ false = ground arith in absurd (cc (rw (a, z, repeat_back) at e))
  | inr (c', z) ↦
      let a : ltb (length x) d ≡ false = ground arith in
      rw (a, z, repeat_back)
        (repeat-snoc d n (x ++ c' ∷ []) (rw (a, z, repeat_back) at e) h g
          (omega (arith, length-snoc x c')))
]

module _ {b : Building} {label : ℕ → Bytes} {added : Bytes → ℕ} {t : StateTable}
    (v : IsBuilt b label added) (f : IsFinished b label added t) (short : AreShort added)
    (dept : ℕ → ℕ) (base : Bytes) (d : ℕ) (positive : 0 < d) (within : d ≤ length base) where
  -- The scan stands behind `j` bytes of the repetition.
  abbrev pub At : ℕ → Scan → Type 0
  At j s = (x : Bytes) × (repeat_back d j base ≡ some x) × IsAt b.table x s

  abbrev pub Ends : ℕ → Type 0
  Ends j = (x : Bytes) × (repeat_back d j base ≡ some x) × EndsInSome added x

  pub w_lem : (j : ℕ) (s : Scan) → At j s → s.w ≡ length base + j
  w_lem j s (x, e, i) = omega (arith, i.filled, length-repeat_back d j base e)

  put_copy-At :
      (j : ℕ) (s : Scan)
      → At j s
      → s.w + 1 < wsize
      → (s' : Scan) × (hit : Bool) × (put_copy (automaton v f short dept) d s ≡ some (put s' hit))
        × At (j + 1) s'
        × (hit ≡ true → (s'.tag ≡ true) × Ends (j + 1))
        × (hit ≡ false → s'.tag ≡ s.tag)
        × (s.tag ≡ true → s'.tag ≡ true)
  put_copy-At j s (x, e, i) room =
      let long = length-repeat_back d j base e in
      let (c, there, k) = put_copy-Kept v f short dept x d s i positive (omega arith) room in
      let next : repeat_back d (j + 1) base ≡ some (x ++ c ∷ []) =
        subst (λ n. repeat_back d n base ≡ some (x ++ c ∷ [])) (omega arith)
          (repeat-snoc d j base e (omega arith) there within) in
      (
        k.0,
        k.1,
        k.2,
        (x ++ c ∷ [], next, k.3),
        λ h. ((k.4 h).0, (x ++ c ∷ [], next, (k.4 h).1)),
        k.5,
        k.6,
      )

  later :
      (n j done : ℕ) (s s' : Scan) {r r' : Option Copied}
      → r ≡ r'
      → s'.tag ≡ s.tag
      → Ran At Ends (j + 1) n (done + 1) s' r'
      → Ran At Ends j (suc n) done s r
  later n j done s s' e h (Ran.ended s'' e' a tag) =
      Ran.ended s'' (e ∙ e' ∙ ap (λ k. some (copied s'' false k)) (omega arith))
        (subst (λ k. At k s'') (omega arith) a) (tag ∙ h)
  later n j done s s' e h (Ran.stopped m s'' small e' a tag ends) =
      Ran.stopped (suc m) s'' (omega arith)
        (e ∙ e' ∙ ap (λ k. some (copied s'' true k)) (omega arith))
        (subst (λ k. At k s'') (omega arith) a) tag (subst Ends (omega arith) ends)

  pub copy_loop-Ran :
      (n j done : ℕ) (s : Scan)
      → At j s
      → s.w + n + 1 < wsize
      → Ran At Ends j n done s (copy_loop (automaton v f short dept) d n done s)
  unfolding copy_loop
  copy_loop-Ran zero j done s a room =
      Ran.ended s (ap (λ k. some (copied s false k)) (omega arith))
        (subst (λ k. At k s) (omega arith) a) refl
  copy_loop-Ran (suc n) j done s a room =
      let r = put_copy-At j s a (omega arith) in
      let s' = r.0 in
      elim (Bool-cases r.1) [
        | inl h ↦
            let p : put_copy (automaton v f short dept) d s ≡ some (put s' true) =
              r.2 ∙ ap (λ k. some (put s' k)) h in
            let e : copy_loop (automaton v f short dept) d (suc n) done s
                ≡ some (copied s' true done) =
              rw (p, copy_loop) refl in
            Ran.stopped 0 s' (omega arith) (e ∙ ap (λ k. some (copied s' true k)) (omega arith))
              (subst (λ k. At k s') (omega arith) r.3) (r.4 h).0
              (subst Ends (omega arith) (r.4 h).1)
        | inr h ↦
            let p : put_copy (automaton v f short dept) d s ≡ some (put s' false) =
              r.2 ∙ ap (λ k. some (put s' k)) h in
            let e : copy_loop (automaton v f short dept) d (suc n) done s
                ≡ copy_loop (automaton v f short dept) d n (done + 1) s' =
              rw (p, copy_loop) refl in
            later n j done s s' e (r.5 h) (
              copy_loop-Ran n (j + 1) (done + 1) s' r.3
                (omega (arith, w_lem j s a, w_lem (j + 1) s' r.3)))
      ]

  left_later :
      (n j : ℕ) (s s' : Scan) {r r' : Option Copied}
      → r ≡ r'
      → s'.tag ≡ s.tag
      → RanLeft At Ends (j + 1) n s' r'
      → RanLeft At Ends j (suc n) s r
  left_later n j s s' e h (RanLeft.ended j' s'' small e' a tag) =
      RanLeft.ended j' s'' (omega arith) (e ∙ e') a (tag ∙ h)
  left_later n j s s' e h (RanLeft.stopped j' k s'' small e' ends) =
      RanLeft.stopped j' k s'' (omega arith) (e ∙ e') ends

  pub left_loop-RanLeft :
      (n j : ℕ) (s : Scan)
      → At j s
      → s.w + n + 1 < wsize
      → RanLeft At Ends j n s (left_loop (automaton v f short dept) d n j s)
  unfolding left_loop
  left_loop-RanLeft zero j s a room = RanLeft.ended j s (omega arith) refl a refl
  left_loop-RanLeft (suc n) j s a room = elim (Bool-cases (ltb j (dept s.state))) [
    | inr x ↦ RanLeft.ended j s (omega arith) (rw (x, left_loop) refl) a refl
    | inl x ↦
        let r = put_copy-At j s a (omega arith) in
        let s' = r.0 in
        elim (Bool-cases r.1) [
          | inl h ↦
              let p : put_copy (automaton v f short dept) d s ≡ some (put s' true) =
                r.2 ∙ ap (λ k. some (put s' k)) h in
              let e : left_loop (automaton v f short dept) d (suc n) j s
                  ≡ some (copied s' true (j + 1)) =
                rw (x, p, left_loop) refl in
              RanLeft.stopped (j + 1) (j + 1) s' (omega arith) e (r.4 h).1
          | inr h ↦
              let p : put_copy (automaton v f short dept) d s ≡ some (put s' false) =
                r.2 ∙ ap (λ k. some (put s' k)) h in
              let e : left_loop (automaton v f short dept) d (suc n) j s
                  ≡ left_loop (automaton v f short dept) d n (j + 1) s' =
                rw (x, p, left_loop) refl in
              left_later n j s s' e (r.5 h) (
                left_loop-RanLeft n (j + 1) s' r.3
                  (omega (arith, w_lem j s a, w_lem (j + 1) s' r.3)))
        ]
  ]
