-- ===== src/StreamTable/Changes.antt =====
-- get_data.c: a bucket as a map from streams to the segments that wait for them.
use mathlib.Core.Path.{subst}
use mathlib.Core.Option.{some-injective}
use school_project.Common.{
  ℕ, zero, suc, ◌+◌, ◌≤◌, ◌<◌, ◌≡◌, refl, sym, ap, ◌∙◌, true, false, Option, none, some, List, [],
  ◌∷◌, ◌++◌, ◌==◌, if◌then◌else◌, length, length-set, length-append, get_elem?, set, arith,
  Bool-cases, Option-cases, inl, inr,
}
use school_project.StreamTable.{DataHead, is_stream, is_free}
use school_project.StreamTable.Buckets.{
  Waiting, hit, hit-true, hit-false, or_else, stored, stored-hit, stored-none, heads,
}

-- `process_gzip_data` writes what the decompression keeps, and `gk_state`, and no list of segments.
pub record IsQuiet (gzip : DataHead → DataHead) : Type 0 where
  pub same : (a : ℕ) (h : DataHead) → is_stream a (gzip h) ≡ is_stream a h
  pub free : (h : DataHead) → is_free (gzip h) ≡ is_free h
  pub up : (h : DataHead) → (gzip h).up ≡ h.up
  pub down : (h : DataHead) → (gzip h).down ≡ h.down
  pub locked : (h : DataHead) → (gzip h).locked ≡ h.locked

-- A free head has no segments, and no lock is held.
abbrev pub IsFine : DataHead → Type 0
IsFine h = (is_free h ≡ true → (h.up ≡ []) × (h.down ≡ [])) × (h.locked ≡ false)

abbrev pub Each : List DataHead → Type 0
Each [] = Unit
Each (h ∷ l) = IsFine h × Each l

-- A bucket has its slot, and each stream has one head at most.
pub record IsTidy (l : List DataHead) : Type 0 where
  pub slot : 0 < length l
  pub each : Each l
  pub once : (a : ℕ) → heads a l ≤ 1

pub Each-at :
    (l : List DataHead) (m : ℕ) {x : DataHead} → Each l → get_elem? l m ≡ some x → IsFine x
Each-at [] m h e = absurd (cc e)
Each-at (y ∷ l) zero (h, hs) e = subst IsFine (some-injective _ _ e) h
Each-at (y ∷ l) (suc m) (h, hs) e = Each-at l m hs e

pub Each-set : (l : List DataHead) (m : ℕ) (x : DataHead) → Each l → IsFine x → Each (set l m x)
Each-set [] m x h f = tt
Each-set (y ∷ l) zero x (h, hs) f = (f, hs)
Each-set (y ∷ l) (suc m) x (h, hs) f = (h, Each-set l m x hs f)

Each-append : (l : List DataHead) (x : DataHead) → Each l → IsFine x → Each (l ++ x ∷ [])
Each-append [] x h f = (f, tt)
Each-append (y ∷ l) x (h, hs) f = (h, Each-append l x hs f)

pub heads-set :
    (a : ℕ) (l : List DataHead) (m : ℕ) {x : DataHead} (x' : DataHead)
    → get_elem? l m ≡ some x
    → heads a (set l m x') + (if is_stream a x then 1 else 0)
      ≡ heads a l + (if is_stream a x' then 1 else 0)
unfolding heads
heads-set a [] m x' e = absurd (cc e)
heads-set a (y ∷ l) zero x' e = rw (some-injective _ _ e) (omega arith)
heads-set a (y ∷ l) (suc m) x' e = omega (arith, heads-set a l m x' e)

pub heads-append :
    (a : ℕ) (l : List DataHead) (x : DataHead)
    → heads a (l ++ x ∷ []) ≡ heads a l + (if is_stream a x then 1 else 0)
unfolding heads
heads-append a [] x = omega arith
heads-append a (y ∷ l) x = omega (arith, heads-append a l x)

pub heads_absent : (a : ℕ) (l : List DataHead) → stored a l ≡ none → heads a l ≡ 0
unfolding heads stored
heads_absent a [] e = refl
heads_absent a (y ∷ l) e = elim (Bool-cases (is_stream a y)) [
  | inl x ↦ absurd (cc (stored-hit a y l (hit-true a y x), e))
  | inr x ↦ rw x (omega (arith, heads_absent a l (sym (stored-none a y l (hit-false a y x)) ∙ e)))
]

pub absent_heads : (a : ℕ) (l : List DataHead) → heads a l ≡ 0 → stored a l ≡ none
unfolding heads stored
absent_heads a [] e = refl
absent_heads a (y ∷ l) e = elim (Bool-cases (is_stream a y)) [
  | inl x ↦ absurd (omega (arith, rw x at e))
  | inr x ↦ stored-none a y l (hit-false a y x) ∙ absent_heads a l (omega arith)
]

pub or_else-none : (o : Option Waiting) → or_else o none ≡ o
or_else-none none = refl
or_else-none (some s) = refl

or_else_assoc : (o p q : Option Waiting) → or_else (or_else o p) q ≡ or_else o (or_else p q)
or_else_assoc none p q = refl
or_else_assoc (some s) p q = refl

pub stored-append :
    (a : ℕ) (l : List DataHead) (x : DataHead)
    → stored a (l ++ x ∷ []) ≡ or_else (stored a l) (hit a x)
unfolding stored
stored-append a [] x = or_else-none (hit a x)
stored-append a (y ∷ l) x =
    ap (or_else (hit a y)) (stored-append a l x)
    ∙ sym (or_else_assoc (hit a y) (stored a l) (hit a x))

pub hit-same :
    (a : ℕ) (x x' : DataHead)
    → is_stream a x' ≡ is_stream a x
    → x'.up ≡ x.up
    → x'.down ≡ x.down
    → hit a x' ≡ hit a x
unfolding hit
hit-same a x x' e u d = rw (e, u, d) refl

pub set-IsTidy :
    (l : List DataHead) (m : ℕ) {x : DataHead} (x' : DataHead)
    → IsTidy l
    → get_elem? l m ≡ some x
    → IsFine x'
    → ((b : ℕ)
        → heads b l + (if is_stream b x' then 1 else 0) ≤ 1 + (if is_stream b x then 1 else 0))
    → IsTidy (set l m x')
set-IsTidy l m {x} x' t e f h = record {
  slot = rw (length-set l m x') t.slot;
  each = Each-set l m x' t.each f;
  once = λ b. omega (arith, heads-set b l m x' e, h b);
}

pub append-IsTidy :
    (l : List DataHead) (x : DataHead)
    → IsTidy l
    → IsFine x
    → ((b : ℕ) → heads b l + (if is_stream b x then 1 else 0) ≤ 1)
    → IsTidy (l ++ x ∷ [])
append-IsTidy l x t f h = record {
  slot = omega (arith, t.slot, length-append l (x ∷ []));
  each = Each-append l x t.each f;
  once = λ b. omega (arith, heads-append b l x, h b);
}

pub pointer_unique : (a b : ℕ) (x : DataHead) → is_stream a x ≡ true → is_stream b x ≡ (b == a)
unfolding is_stream
pointer_unique a b x e = elim (Option-cases x.a_tcp) [
  | inl f ↦ absurd (cc (rw (f, is_stream) at e))
  | inr (t, f) ↦
      let p : (t.pointer == a) ≡ true = rw (f, is_stream) at e in
      rw (f, is_stream) (ground (arith, p))
]

pub free_stream : (b : ℕ) (x : DataHead) → is_free x ≡ true → is_stream b x ≡ false
unfolding is_stream is_free
free_stream b x e = elim (Option-cases x.a_tcp) [
  | inl f ↦ rw (f, is_stream) refl
  | inr (t, f) ↦ absurd (cc (rw (f, is_free) at e))
]
