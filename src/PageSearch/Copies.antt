-- ===== src/PageSearch/Copies.antt =====
-- acsm.c, `acch`: the window is the text that has been decompressed, and every byte that is put
-- there moves the automaton.
use school_project.Common.{
  ℕ, ◌+◌, ◌-◌, ◌≤◌, ◌<◌, ◌≡◌, refl, sym, ap, ◌∙◌, Bool, true, false, Option, some, [], ◌∷◌, ◌++◌,
  ◌==◌, ltb, leb, if◌then◌else◌, arith, Bytes, length, length-append, get_elem?, Bool-cases, inl,
  inr,
}
use school_project.Acsm.{StateTable, Building}
use school_project.Acsm.States.{==→eq}
use school_project.Acsm.Labels.{IsBuilt, AllBytes}
use school_project.Acsm.Finish.{IsFinished}
use school_project.PageSearch.{
  Compiled, Scan, Moved, Put, put, wsize, match_status, set_at, scan_status, keep_literal,
  put_literal, keep_copy, put_copy,
}
use school_project.PageSearch.Suffixes.{get-snoc, get_last, get-AllBytes, snoc-AllBytes}
use school_project.PageSearch.Moves.{Tracks, EndsInSome, AreShort, fsm-Tracks}

-- The window holds the text, and the state has been moved by an end of it.
pub record IsAt (t : StateTable) (x : Bytes) (s : Scan) : Type 0 where
  pub filled : s.w ≡ length x
  pub win : (i : ℕ) → i < length x → get_elem? x i ≡ some (s.win i)
  pub bytes : AllBytes x
  pub tracks : Tracks t x s.state

pub win-snoc :
    (x : Bytes) (c : ℕ) (win : ℕ → ℕ)
    → ((i : ℕ) → i < length x → get_elem? x i ≡ some (win i))
    → (i : ℕ) → i < length (x ++ c ∷ [])
    → get_elem? (x ++ c ∷ []) i ≡ some (set_at win (length x) c i)
win-snoc x c win h i k = elim (Bool-cases (i == length x)) [
  | inl e ↦ rw (e, ==→eq i (length x) e) (get_last x c)
  | inr e ↦
      let below : i < length x = ground (arith, length-append x (c ∷ [])) in
      rw e (get-snoc x c i below ∙ h i below)
]

pub length-snoc : (x : Bytes) (c : ℕ) → length (x ++ c ∷ []) ≡ length x + 1
length-snoc x c = omega (arith, length-append x (c ∷ []))

pub scan_status-match : (dept : ℕ → ℕ) (m : Moved) → (scan_status dept m == match_status) ≡ m.out
unfolding scan_status
scan_status-match dept m = elim (Bool-cases m.out) [
  | inl e ↦ rw (e, scan_status) refl
  | inr e ↦ ground (arith, e)
]

-- What one byte gives: it is kept behind the text, and the scan stops exactly at a match.
abbrev pub Kept : (Bytes → ℕ) → StateTable → Bytes → Scan → Option Put → Type 0
Kept added t x s r =
    (s' : Scan) × (hit : Bool) × (r ≡ some (put s' hit))
    × IsAt t x s'
    × (hit ≡ true → (s'.tag ≡ true) × EndsInSome added x)
    × (hit ≡ false → s'.tag ≡ s.tag)
    × (s.tag ≡ true → s'.tag ≡ true)

module _ {b : Building} {label : ℕ → Bytes} {added : Bytes → ℕ} {t : StateTable}
    (v : IsBuilt b label added) (f : IsFinished b label added t) (short : AreShort added)
    (dept : ℕ → ℕ) where
  abbrev pub automaton : Compiled
  automaton = record { table = t; dept = dept }

  module _ (x : Bytes) (c : ℕ) (s : Scan) (m : Moved) (i : IsAt b.table x s) (byte : c < 256)
      (room : s.w + 1 < wsize) (tracks : Tracks b.table (x ++ c ∷ []) m.state)
      (found : m.out ≡ true → EndsInSome added (x ++ c ∷ [])) where
    abbrev kept : ℕ → Bool → Scan
    kept status tag = record {
      win = set_at s.win s.w c;
      st = set_at s.st s.w status;
      w = s.w + 1;
      state = m.state;
      tag = tag;
      keyword = m.keyword;
    }

    kept-IsAt : (status : ℕ) (tag : Bool) → IsAt b.table (x ++ c ∷ []) (kept status tag)
    kept-IsAt status tag = record {
      filled = omega (arith, i.filled, length-snoc x c);
      win = λ j h. rw i.filled (win-snoc x c s.win i.win j h);
      bytes = snoc-AllBytes x c i.bytes byte;
      tracks = tracks;
    }

    keep_copy-Kept : Kept added b.table (x ++ c ∷ []) s (keep_copy automaton c s m)
    unfolding keep_copy
    keep_copy-Kept =
        let status = scan_status dept m in
        let hit = status == match_status in
        let tag = if hit then true else s.tag in
        let inside : leb wsize s.w ≡ false = ground arith in
        let before : leb (wsize - 1) s.w ≡ false = ground arith in
        let e : keep_copy automaton c s m ≡ some (put (kept status tag) hit) =
          rw (inside, before, keep_copy) refl in
        (
          kept status tag,
          hit,
          e,
          kept-IsAt status tag,
          λ h. (rw h refl, found (sym (scan_status-match dept m) ∙ h)),
          λ h. rw h refl,
          λ h. elim (Bool-cases hit) [ inl k ↦ rw k refl | inr k ↦ rw k h ],
        )

    keep_literal-Kept :
        (s' : Scan) × (hit : Bool) × (keep_literal automaton c s m ≡ some (put s' hit))
        × (hit ≡ true → EndsInSome added (x ++ c ∷ []))
        × (hit ≡ false → IsAt b.table (x ++ c ∷ []) s' × (s'.tag ≡ s.tag))
    unfolding keep_literal
    keep_literal-Kept =
        let status = scan_status dept m in
        let inside : leb wsize s.w ≡ false = ground arith in
        let before : leb (wsize - 1) s.w ≡ false = ground arith in
        elim (Bool-cases (status == match_status)) [
          | inl h ↦ (
            record s { win = set_at s.win s.w c; state = m.state; keyword = m.keyword; tag = true },
            true,
            rw (inside, h, keep_literal) refl,
            λ k. found (sym (scan_status-match dept m) ∙ h),
            λ k. absurd (cc k),
          )
          | inr h ↦ (
            kept status s.tag,
            false,
            rw (inside, h, before, keep_literal) refl,
            λ k. absurd (cc k),
            λ k. (kept-IsAt status s.tag, refl),
          )
        ]

  -- One byte from `d` places back.
  pub put_copy-Kept :
      (x : Bytes) (d : ℕ) (s : Scan)
      → IsAt b.table x s
      → 0 < d
      → d ≤ length x
      → s.w + 1 < wsize
      → (c : ℕ) × (get_elem? x (length x - d) ≡ some c)
        × Kept added b.table (x ++ c ∷ []) s (put_copy automaton d s)
  unfolding put_copy
  put_copy-Kept x d s i positive within room =
      let c = s.win (s.w - d) in
      let there : get_elem? x (length x - d) ≡ some c =
        i.win (length x - d) (omega arith) ∙ ap (λ k. some (s.win (k - d))) (sym i.filled) in
      let byte = get-AllBytes x (length x - d) i.bytes there in
      let (m, e, tracks, found) = fsm-Tracks v f short x s.state c s.keyword i.tracks byte in
      let inside : ltb s.w d ≡ false = ground (arith, i.filled) in
      let r = keep_copy-Kept x c s m i byte room tracks found in
      (c, there, (r.0, r.1, rw (inside, e, put_copy) r.2, r.3, r.4, r.5, r.6))

  -- A byte that the page has by itself.
  pub put_literal-Kept :
      (x : Bytes) (c : ℕ) (s : Scan)
      → IsAt b.table x s
      → c < 256
      → s.w + 1 < wsize
      → (s' : Scan) × (hit : Bool) × (put_literal automaton c s ≡ some (put s' hit))
        × (hit ≡ true → EndsInSome added (x ++ c ∷ []))
        × (hit ≡ false → IsAt b.table (x ++ c ∷ []) s' × (s'.tag ≡ s.tag))
  unfolding put_literal
  put_literal-Kept x c s i byte room =
      let (m, e, tracks, found) = fsm-Tracks v f short x s.state c s.keyword i.tracks byte in
      let r = keep_literal-Kept x c s m i byte room tracks found in
      (r.0, r.1, rw (e, put_literal) r.2, r.3, r.4)
