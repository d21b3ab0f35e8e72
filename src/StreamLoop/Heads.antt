-- ===== src/StreamLoop/Heads.antt =====
-- loop.c: what `check_gk` and `update_dh` leave of a head.
use mathlib.Core.Path.{subst}
use mathlib.Core.Option.{some-injective}
use school_project.Common.{
  ℕ, ◌+◌, ◌≤◌, ◌<◌, ◌≡◌, ◌≢◌, refl, sym, Bool, true, false, none, some, List, [], ◌∷◌, ◌==◌,
  if◌then◌else◌, Bytes, length, arith, Bool-cases, Option-cases, inl, inr,
}
use school_project.Acsm.{total_length}
use school_project.StreamTable.{DataHead}
use school_project.StreamLoop.{check_gk, update_dh, pass_segments, last_place}

-- The place that has been read up to is one of a segment that waits.
abbrev pub IsPointed : DataHead → Type 0
IsPointed dh = (i : ℕ) → dh.temp_up ≡ some i → i < length dh.up

-- What no function of the loop changes.
abbrev pub Keeps : DataHead → DataHead → Type 0
Keeps dh dh' = (dh'.locked ≡ false) × IsPointed dh' × (dh'.up ≡ dh.up) × (dh'.down ≡ dh.down)

-- What `check_gk` leaves, and that it finds nothing to do without a stream.
abbrev pub Checked : DataHead → Bool × DataHead → Type 0
Checked dh r = Keeps dh r.1 × (r.1.a_tcp ≡ dh.a_tcp) × (r.0 ≡ false → dh.a_tcp ≢ none)

module _ (gk_method : ℕ) (dh : DataHead) (free : dh.locked ≡ false) (pointed : IsPointed dh) where
  kept : Keeps dh dh
  kept = (free, pointed, refl, refl)

  pub check_gk-Checked : Checked dh (check_gk gk_method dh)
  unfolding check_gk
  check_gk-Checked = elim (Option-cases dh.a_tcp) [
    | inl e ↦
        let r : check_gk gk_method dh ≡ (true, dh) = simp (free, e, check_gk) in
        subst (Checked dh) (sym r) (kept, refl, λ x. absurd (cc x))
    | inr (t, e) ↦
        let live : dh.a_tcp ≢ none = λ x. absurd (cc (e, x)) in
        elim (Bool-cases (t.gk_state == gk_method)) [
          | inl x ↦
              let r : check_gk gk_method dh ≡ (true, dh) = simp (free, e, x, check_gk) in
              subst (Checked dh) (sym r) (kept, refl, λ y. absurd (cc y))
          | inr x ↦ elim (Bool-cases (length dh.up == 0)) [
            | inl y ↦
                let r : check_gk gk_method dh ≡ (true, dh) = simp (free, e, x, y, check_gk) in
                subst (Checked dh) (sym r) (kept, refl, λ z. absurd (cc z))
            | inr y ↦ elim (Option-cases dh.temp_up) [
              | inl z ↦
                  let r : check_gk gk_method dh ≡ (false, record dh { temp_up = some 0 }) =
                    simp (free, e, x, y, z, check_gk) in
                  let first : IsPointed (record dh { temp_up = some 0 }) =
                    λ i w. ground (arith, some-injective _ _ w) in
                  subst (Checked dh) (sym r) ((free, first, refl, refl), refl, λ w. live)
              | inr (i, z) ↦
                  let r : check_gk gk_method dh ≡ (i + 1 == length dh.up, dh) =
                    simp (free, e, x, y, z, check_gk) in
                  subst (Checked dh) (sym r) (kept, refl, λ w. live)
            ]
          ]
        ]
  ]

pass_segments-le : (len sum : ℕ) (l : List Bytes) → pass_segments len sum l ≤ length l
unfolding pass_segments
pass_segments-le len sum [] = omega arith
pass_segments-le len sum (ds ∷ l) = ground (arith, pass_segments-le len (sum + length ds) l)

last_place-lt : (l : List Bytes) (i : ℕ) → last_place l ≡ some i → i < length l
unfolding last_place
last_place-lt [] i e = absurd (cc e)
last_place-lt (ds ∷ l) i e = omega (arith, some-injective _ _ e)

module _ (dh : DataHead) (free : dh.locked ≡ false) (pointed : IsPointed dh) where
  pub update_dh-Keeps : (request : List Bytes) → Keeps dh (update_dh request dh)
  unfolding update_dh
  update_dh-Keeps request = elim (Option-cases dh.a_tcp) [
    | inl e ↦
        let r : update_dh request dh ≡ dh = simp (free, e, update_dh) in
        subst (Keeps dh) (sym r) (free, pointed, refl, refl)
    | inr (t, e) ↦
        let n = pass_segments (total_length request) 0 dh.up in
        let dh' : DataHead = record dh {
          temp_up = if n == length dh.up then last_place dh.up else some n;
          offset_up = 0;
        } in
        let r : update_dh request dh ≡ dh' = simp (free, e, update_dh) in
        let pointed' : IsPointed dh' = λ i w. elim (Bool-cases (n == length dh.up)) [
          | inl x ↦ last_place-lt dh.up i (rw x at w)
          | inr x ↦
              let small = pass_segments-le (total_length request) 0 dh.up in
              ground (arith, some-injective _ _ (rw x at w))
        ] in
        subst (Keeps dh) (sym r) (free, pointed', refl, refl)
  ]
