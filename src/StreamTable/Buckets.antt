-- ===== src/StreamTable/Buckets.antt =====
-- get_data.c: what is stored in a bucket, and which head `find_stream` finds.
use mathlib.Core.Option.{some-injective}
use school_project.Common.{
  ℕ, zero, suc, ◌+◌, ◌≡◌, inl, inr, refl, sym, ap, ◌∙◌, true, false, Option, none, some, List, [],
  ◌∷◌, if◌then◌else◌, Bytes, get_elem?, set, Bool-cases,
}
use school_project.StreamTable.{DataHead, is_stream}

-- The segments of both directions that wait for a stream.
abbrev pub Waiting : Type 0
Waiting = List Bytes × List Bytes

unfoldable pub hit : ℕ → DataHead → Option Waiting
unfolding is_stream
hit a h = if is_stream a h then some (h.up, h.down) else none

abbrev pub or_else : Option Waiting → Option Waiting → Option Waiting
or_else none o = o
or_else (some s) o = some s

-- What a bucket has for a stream.
unfoldable pub stored : ℕ → List DataHead → Option Waiting
unfolding hit
stored a [] = none
stored a (h ∷ l) = or_else (hit a h) (stored a l)

-- How many heads a stream has.
unfoldable pub heads : ℕ → List DataHead → ℕ
unfolding is_stream
heads a [] = 0
heads a (h ∷ l) = (if is_stream a h then 1 else 0) + heads a l

abbrev pub Before : ℕ → ℕ → List DataHead → Type 0
Before a zero l = Unit
Before a (suc m) [] = Unit
Before a (suc m) (h ∷ l) = (is_stream a h ≡ false) × Before a m l

pub hit-true : (a : ℕ) (x : DataHead) → is_stream a x ≡ true → hit a x ≡ some (x.up, x.down)
unfolding hit
hit-true a x e = rw e refl

pub hit-false : (a : ℕ) (x : DataHead) → is_stream a x ≡ false → hit a x ≡ none
unfolding hit
hit-false a x e = rw e refl

pub stored-hit :
    (a : ℕ) (x : DataHead) (l : List DataHead) {s : Waiting}
    → hit a x ≡ some s
    → stored a (x ∷ l) ≡ some s
unfolding stored
stored-hit a x l e = rw (e, stored) refl

pub stored-none :
    (a : ℕ) (x : DataHead) (l : List DataHead) → hit a x ≡ none → stored a (x ∷ l) ≡ stored a l
unfolding stored
stored-none a x l e = rw (e, stored) refl

module _ (a : ℕ) where
  pub stored-set_same :
      (l : List DataHead) (m : ℕ) {x : DataHead} (x' : DataHead)
      → get_elem? l m ≡ some x
      → hit a x' ≡ hit a x
      → stored a (set l m x') ≡ stored a l
  unfolding stored
  stored-set_same [] m x' e h = refl
  stored-set_same (y ∷ l) zero x' e h =
      ap (λ o. or_else o (stored a l)) (h ∙ ap (hit a) (sym (some-injective _ _ e)))
  stored-set_same (y ∷ l) (suc m) x' e h = ap (or_else (hit a y)) (stored-set_same l m x' e h)

  pub stored-set_new :
      (l : List DataHead) (m : ℕ) {x : DataHead} (x' : DataHead) {s : Waiting}
      → get_elem? l m ≡ some x
      → Before a m l
      → hit a x' ≡ some s
      → stored a (set l m x') ≡ some s
  unfolding stored
  stored-set_new [] m x' e b h = absurd (cc e)
  stored-set_new (y ∷ l) zero x' e b h = stored-hit a x' l h
  stored-set_new (y ∷ l) (suc m) x' e (b, bs) h =
      stored-none a y (set l m x') (hit-false a y b) ∙ stored-set_new l m x' e bs h

  pub stored-at :
      (l : List DataHead) (m : ℕ) {x : DataHead}
      → get_elem? l m ≡ some x
      → Before a m l
      → is_stream a x ≡ true
      → stored a l ≡ some (x.up, x.down)
  unfolding stored
  stored-at [] m e b h = absurd (cc e)
  stored-at (y ∷ l) zero {x} e b h =
      stored-hit a y l (ap (hit a) (some-injective _ _ e) ∙ hit-true a x h)
  stored-at (y ∷ l) (suc m) e (b, bs) h = stored-none a y l (hit-false a y b) ∙ stored-at l m e bs h

  pub absent-Before : (l : List DataHead) (m : ℕ) → stored a l ≡ none → Before a m l
  unfolding stored
  absent-Before l zero e = tt
  absent-Before [] (suc m) e = tt
  absent-Before (h ∷ l) (suc m) e = elim (Bool-cases (is_stream a h)) [
    | inl x ↦ absurd (cc (stored-hit a h l (hit-true a h x), e))
    | inr x ↦ (x, absent-Before l m (sym (stored-none a h l (hit-false a h x)) ∙ e))
  ]
