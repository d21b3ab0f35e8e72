-- ===== src/StreamTable/Freeing.antt =====
-- get_data.c, `free_data_stream`: what waits for a stream is removed, and nothing else.
use school_project.Common.{
  ℕ, ◌+◌, ◌≡◌, refl, sym, ap, ◌∙◌, Bool, true, false, Option, none, some, List, ◌==◌, if◌then◌else◌,
  get_elem?, set, arith, Bool-cases, inl, inr,
}
use school_project.Acsm.States.{==→eq}
use school_project.StreamTable.{
  DataHead, is_stream, is_free, find_stream, clear_head, free_data_stream,
}
use school_project.StreamTable.Buckets.{hit-false, stored, stored-set_same, heads}
use school_project.StreamTable.Finding.{Outcome, exact, earlier, vacant, full}
use school_project.StreamTable.Changes.{
  IsTidy, Each-at, absent_heads, heads-set, set-IsTidy, pointer_unique, free_stream,
}
use school_project.StreamTable.Refinement.{missed, stream-Outcome}

clear-After :
    (a : ℕ) (l : List DataHead) (m : ℕ) {x : DataHead}
    → IsTidy l
    → get_elem? l m ≡ some x
    → is_stream a x ≡ true
    → ((b : ℕ) → stored b (set l m (clear_head x)) ≡ (if b == a then none else stored b l))
      × IsTidy (set l m (clear_head x))
unfolding clear_head is_free
clear-After a l m {x} t at e =
    let gone : (b : ℕ) → is_stream b (clear_head x) ≡ false =
      λ b. free_stream b (clear_head x) refl in
    let heads' : (b : ℕ)
        → heads b (set l m (clear_head x)) + (if is_stream b x then 1 else 0) ≡ heads b l =
      λ b. omega (arith, rw (gone b) at (heads-set b l m (clear_head x) at)) in
    (
      λ b. elim (Bool-cases (b == a)) [
        | inl y ↦
            rw (y, ==→eq b a y)
              (absent_heads a (set l m (clear_head x))
                (omega (arith, t.once a, rw e at (heads' a))))
        | inr y ↦
            let other : is_stream b x ≡ false = pointer_unique a b x e ∙ y in
            rw y (
              stored-set_same b l m (clear_head x) at
                (hit-false b (clear_head x) (gone b) ∙ sym (hit-false b x other)))
      ],
      set-IsTidy l m (clear_head x) t at ((λ f. (refl, refl)), (Each-at l m t.each at).1)
          (λ b. rw (gone b) (omega (arith, t.once b))),
    )

unlocked : (e : Bool) (v : Option (List DataHead)) → e ≡ false → (if e then none else v) ≡ v
unlocked e v k = rw k refl

module _ (a : ℕ) (l : List DataHead) (m : ℕ) {x : DataHead} (found : find_stream a l ≡ m)
    (at : get_elem? l m ≡ some x) where
  free_exact :
      is_stream a x ≡ true → x.locked ≡ false → free_data_stream a l ≡ some (set l m (clear_head x))
  unfolding free_data_stream
  free_exact e k =
      rw (found, at, e, free_data_stream)
        (unlocked x.locked (some (set l (find_stream a l) (clear_head x))) k
          ∙ ap (λ j. some (set l j (clear_head x))) found)

  free_other : is_stream a x ≡ false → free_data_stream a l ≡ some l
  unfolding free_data_stream
  free_other e = rw (found, at, e, free_data_stream) refl

abbrev pub Removed : ℕ → List DataHead → Type 0
Removed a l =
    (l' : List DataHead) × (free_data_stream a l ≡ some l')
    × ((b : ℕ) → stored b l' ≡ (if b == a then none else stored b l))
    × IsTidy l'

unchanged :
    (a : ℕ) (l : List DataHead)
    → IsTidy l
    → stored a l ≡ none
    → free_data_stream a l ≡ some l
    → Removed a l
unchanged a l t e f =
    (l, f, λ b. elim (Bool-cases (b == a)) [ inl y ↦ rw (y, ==→eq b a y) e | inr y ↦ rw y refl ], t)

free-Outcome :
    (a : ℕ) (l : List DataHead) → IsTidy l → Outcome a l none 0 (find_stream a l) → Removed a l
free-Outcome a l t (exact m x e at same before) =
    let (s, t') = clear-After a l m t at same in
    (
      set l m (clear_head x),
      free_exact a l m (omega (arith, e)) at same (Each-at l m t.each at).1,
      s,
      t',
    )
free-Outcome a l t (earlier e p) = absurd (cc p)
free-Outcome a l t (vacant m x none_there e at free) =
    unchanged a l t none_there (free_other a l m (omega (arith, e)) at (free_stream a x free))
free-Outcome a l t (full m x none_there p e at taken) =
    unchanged a l t none_there (free_other a l m (omega (arith, e)) at (missed a l m none_there at))

-- In such a bucket `free_data_stream` ends, removes what waits for its stream and nothing else, and
-- leaves such a bucket.
pub free-stored : (a : ℕ) (l : List DataHead) → IsTidy l → Removed a l
free-stored a l t = free-Outcome a l t (stream-Outcome a l t.slot)
