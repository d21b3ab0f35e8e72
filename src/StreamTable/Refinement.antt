-- ===== src/StreamTable/Refinement.antt =====
-- get_data.c, `insert_new_data_segment`: a bucket as a map from streams to waiting segments.
use mathlib.Core.Path.{subst}
use school_project.Common.{
  ℕ, ◌<◌, ◌≡◌, sym, ap, ◌∙◌, Bool, true, false, none, some, List, [], ◌∷◌, ◌++◌, ◌==◌,
  if◌then◌else◌, Bytes, length, get_elem?, set, arith, Bool-cases, inl, inr,
}
use school_project.Acsm.States.{==→eq}
use school_project.StreamTable.{
  DataHead, TcpStream, is_stream, is_free, find_stream, append_segment, reuse_head, new_head,
  chain_head, insert_new_data_segment,
}
use school_project.StreamTable.Buckets.{
  hit-false, stored, stored-set_same, stored-set_new, stored-at, heads, Before, absent-Before,
}
use school_project.StreamTable.Finding.{Outcome, exact, earlier, vacant, full, find_stream-Outcome}
use school_project.StreamTable.Changes.{
  IsQuiet, IsFine, IsTidy, Each-at, heads_absent, heads-set, or_else-none, stored-append,
  set-IsTidy, append-IsTidy, pointer_unique, free_stream,
}
use school_project.StreamTable.Inserting.{
  waiting, add_waiting, append-same, append-hit, append-IsFine, reuse-same, reuse-hit, reuse-IsFine,
  new-same, new-hit, new-IsFine, chain-same, chain-hit, chain-IsFine,
}

same_test : (a b : ℕ) → (a == b) ≡ (b == a)
same_test a b = ground arith

pub missed :
    (a : ℕ) (l : List DataHead) (m : ℕ) {x : DataHead}
    → stored a l ≡ none
    → get_elem? l m ≡ some x
    → is_stream a x ≡ false
missed a l m {x} e f = elim (Bool-cases (is_stream a x)) [
  | inl g ↦ absurd (cc (stored-at a l m f (absent-Before a l m e) g, e))
  | inr g ↦ g
]

module _ {gzip : DataHead → DataHead} (quiet : IsQuiet gzip) (a : TcpStream) (ds : Bytes) (c : Bool)
    (l : List DataHead) where
  abbrev After : List DataHead → Type 0
  After l' =
      ((b : ℕ)
        → stored b l' ≡ (
            if b == a.pointer
            then some (add_waiting (waiting (stored a.pointer l)) ds c)
            else stored b l))
      × IsTidy l'

  module _ (t : IsTidy l) (m : ℕ) {x : DataHead} (at : get_elem? l m ≡ some x) where
    fine : IsFine x
    fine = Each-at l m t.each at

    append-After :
        is_stream a.pointer x ≡ true
        → Before a.pointer m l
        → After (set l m (append_segment gzip ds c x))
    append-After e before = (
      λ b. elim (Bool-cases (b == a.pointer)) [
        | inl y ↦
            rw (y, ==→eq b a.pointer y, stored-at a.pointer l m at before e)
              (stored-set_new a.pointer l m (append_segment gzip ds c x) at before
                (append-hit quiet a ds c x a.pointer e))
        | inr y ↦
            let other : is_stream b x ≡ false = pointer_unique a.pointer b x e ∙ y in
            rw y (
              stored-set_same b l m (append_segment gzip ds c x) at (
                hit-false b (append_segment gzip ds c x) (append-same quiet a ds c x b ∙ other)
                ∙ sym (hit-false b x other)))
      ],
      set-IsTidy l m (append_segment gzip ds c x) t at
          (append-IsFine quiet a ds c x
            (elim (Bool-cases (is_free x)) [
              | inl f ↦ absurd (cc (free_stream a.pointer x f, e))
              | inr f ↦ f
            ])
            fine)
          (λ b. rw (append-same quiet a ds c x b) (omega (arith, t.once b))),
    )

    reuse-After :
        stored a.pointer l ≡ none → is_free x ≡ true → After (set l m (reuse_head gzip a ds c x))
    reuse-After e f = (
      λ b. elim (Bool-cases (b == a.pointer)) [
        | inl y ↦
            rw (y, ==→eq b a.pointer y, e)
              (stored-set_new a.pointer l m (reuse_head gzip a ds c x) at
                (absent-Before a.pointer l m e) (reuse-hit quiet a ds c x (fine.0 f)))
        | inr y ↦ rw y (
            stored-set_same b l m (reuse_head gzip a ds c x) at (
              hit-false b (reuse_head gzip a ds c x)
                (reuse-same quiet a ds c x b ∙ same_test a.pointer b ∙ y)
              ∙ sym (hit-false b x (free_stream b x f))))
      ],
      set-IsTidy l m (reuse_head gzip a ds c x) t at (reuse-IsFine quiet a ds c x fine) (λ b.
          elim (Bool-cases (b == a.pointer)) [
            | inl y ↦ rw (==→eq b a.pointer y, heads_absent a.pointer l e) (ground arith)
            | inr y ↦
                rw (reuse-same quiet a ds c x b, same_test a.pointer b, y) (omega (arith, t.once b))
          ]),
    )

    chain-After :
        stored a.pointer l ≡ none
        → is_free x ≡ false
        → After (set l m (chain_head gzip c x) ++ new_head a ds c ∷ [])
    chain-After e f =
        let x' = chain_head gzip c x in
        let old : (b : ℕ) → stored b (set l m x') ≡ stored b l =
          λ b. stored-set_same b l m x' at (chain-hit quiet a ds c x b) in
        let kept : (b : ℕ) → heads b (set l m x') ≡ heads b l =
          λ b. omega (arith, rw (chain-same quiet a ds c x b) at (heads-set b l m x' at)) in
        (
          λ b.
              stored-append b (set l m x') (new_head a ds c)
              ∙ rw (old b) (elim (Bool-cases (b == a.pointer)) [
                | inl y ↦ rw (y, ==→eq b a.pointer y, e) (new-hit quiet a ds c)
                | inr y ↦
                    let other = new-same quiet a ds c b ∙ same_test a.pointer b ∙ y in
                    rw (y, hit-false b (new_head a ds c) other) (or_else-none (stored b l))
              ]),
          append-IsTidy (set l m x') (new_head a ds c)
              (set-IsTidy l m x' t at (chain-IsFine quiet a ds c x f fine)
                (λ b. rw (chain-same quiet a ds c x b) (omega (arith, t.once b))))
              (new-IsFine quiet a ds c)
              (λ b. elim (Bool-cases (b == a.pointer)) [
                | inl y ↦
                    rw (kept b, ==→eq b a.pointer y, heads_absent a.pointer l e) (ground arith)
                | inr y ↦
                    rw (kept b, new-same quiet a ds c b, same_test a.pointer b, y)
                      (omega (arith, t.once b))
              ]),
        )

  module _ (m : ℕ) {x : DataHead} (found : find_stream a.pointer l ≡ m)
      (at : get_elem? l m ≡ some x) where
    insert_exact :
        is_stream a.pointer x ≡ true
        → insert_new_data_segment gzip a ds c l ≡ set l m (append_segment gzip ds c x)
    unfolding insert_new_data_segment
    insert_exact e =
        rw (found, at, e, insert_new_data_segment)
          (ap (λ k. set l k (append_segment gzip ds c x)) found)

    insert_vacant :
        is_stream a.pointer x ≡ false
        → is_free x ≡ true
        → insert_new_data_segment gzip a ds c l ≡ set l m (reuse_head gzip a ds c x)
    unfolding insert_new_data_segment
    insert_vacant e f =
        rw (found, at, e, f, insert_new_data_segment)
          (ap (λ k. set l k (reuse_head gzip a ds c x)) found)

    insert_full :
        is_stream a.pointer x ≡ false
        → is_free x ≡ false
        → insert_new_data_segment gzip a ds c l
          ≡ set l m (chain_head gzip c x) ++ new_head a ds c ∷ []
    unfolding insert_new_data_segment
    insert_full e f =
        rw (found, at, e, f, insert_new_data_segment)
          (ap (λ k. set l k (chain_head gzip c x) ++ new_head a ds c ∷ []) found)

  insert-Outcome :
      IsTidy l
      → Outcome a.pointer l none 0 (find_stream a.pointer l)
      → After (insert_new_data_segment gzip a ds c l)
  insert-Outcome t (exact m x e at same before) =
      subst After (sym (insert_exact m (omega (arith, e)) at same))
        (append-After t m at same before)
  insert-Outcome t (earlier e p) = absurd (cc p)
  insert-Outcome t (vacant m x none_there e at free) =
      subst After (sym (insert_vacant m (omega (arith, e)) at (free_stream a.pointer x free) free))
        (reuse-After t m at none_there free)
  insert-Outcome t (full m x none_there p e at taken) =
      subst After
        (sym (insert_full m (omega (arith, e)) at (missed a.pointer l m none_there at) taken))
        (chain-After t m at none_there taken)

pub stream-Outcome :
    (a : ℕ) (l : List DataHead) → 0 < length l → Outcome a l none 0 (find_stream a l)
stream-Outcome a [] h = absurd (omega arith)
stream-Outcome a (x ∷ l) h = find_stream-Outcome a x l

-- In a bucket where each stream has one head at most, a free head has no segments and no lock is
-- left held, `insert_new_data_segment` puts the segment behind those that wait for its stream in
-- its direction, the first one too, and changes what waits for no other stream; the bucket stays
-- such a bucket. This holds for every `process_gzip_data` that leaves the lists of segments, the
-- streams and the locks alone.
pub insert-stored :
    {gzip : DataHead → DataHead}
    → IsQuiet gzip
    → (a : TcpStream) (ds : Bytes) (from_client : Bool) (l : List DataHead) → IsTidy l
    → ((b : ℕ)
        → stored b (insert_new_data_segment gzip a ds from_client l) ≡ (
            if b == a.pointer
            then some (add_waiting (waiting (stored a.pointer l)) ds from_client)
            else stored b l))
      × IsTidy (insert_new_data_segment gzip a ds from_client l)
insert-stored quiet a ds from_client l t =
    insert-Outcome quiet a ds from_client l t (stream-Outcome a.pointer l t.slot)
