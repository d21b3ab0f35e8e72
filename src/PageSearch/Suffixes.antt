-- ===== src/PageSearch/Suffixes.antt =====
-- Ends of texts, and texts read by index.
use mathlib.Core.List.{append_assoc}
use mathlib.Core.Option.{some-injective}
use school_project.Common.{
  ℕ, zero, suc, ◌<◌, ◌≡◌, refl, sym, ap, ◌∙◌, true, some, [], ◌∷◌, ◌++◌, arith, Bytes, length,
  get_elem?, Bool-cases, Option-cases, inl, inr, bytes_eq, eq_of_bytes_eq,
}
use school_project.Acsm.{StateTable}
use school_project.Acsm.States.{walk}
use school_project.Acsm.Tree.{IsTree}
use school_project.Acsm.Labels.{AllBytes}
use school_project.Acsm.Longest.{longest, longest-some, longest-none, longest-nil, label-some, ends}

-- The text ends in `p`.
abbrev pub IsSuffix : Bytes → Bytes → Type 0
IsSuffix p x = (u : Bytes) × (x ≡ u ++ p)

-- The pattern stands somewhere in the text.
abbrev pub OccursIn : Bytes → Bytes → Type 0
OccursIn p x = (u : Bytes) × (v : Bytes) × (x ≡ u ++ (p ++ v))

pub IsSuffix-refl : (x : Bytes) → IsSuffix x x
IsSuffix-refl x = ([], refl)

pub IsSuffix-trans : (p x y : Bytes) → IsSuffix p x → IsSuffix x y → IsSuffix p y
IsSuffix-trans p x y (u, e) (v, f) = (v ++ u, f ∙ ap (λ w. v ++ w) e ∙ sym (append_assoc v u p))

pub IsSuffix-cons : (p : Bytes) (c : ℕ) (x : Bytes) → IsSuffix p x → IsSuffix p (c ∷ x)
IsSuffix-cons p c x (u, e) = (c ∷ u, ap (λ w. c ∷ w) e)

pub IsSuffix-snoc : (y x : Bytes) (c : ℕ) → IsSuffix y x → IsSuffix (y ++ c ∷ []) (x ++ c ∷ [])
IsSuffix-snoc y x c (u, e) = (u, ap (λ w. w ++ c ∷ []) e ∙ append_assoc u y (c ∷ []))

pub occurs-of_suffix : (p x v : Bytes) → IsSuffix p x → OccursIn p (x ++ v)
occurs-of_suffix p x v (u, e) = (u, v, ap (λ w. w ++ v) e ∙ append_assoc u p v)

pub ends-IsSuffix : (p x : Bytes) → ends p x ≡ true → IsSuffix p x
unfolding ends
ends-IsSuffix p [] e = ([], sym (eq_of_bytes_eq p [] e))
ends-IsSuffix p (c ∷ x) e = elim (Bool-cases (bytes_eq p (c ∷ x))) [
  | inl y ↦ ([], sym (eq_of_bytes_eq p (c ∷ x) y))
  | inr y ↦ IsSuffix-cons p c x (ends-IsSuffix p x (rw y at e))
]

-- The bytes of a state that a text leads to end the text.
pub longest-IsSuffix :
    {t : StateTable} {label : ℕ → Bytes} {num : ℕ}
    → IsTree t label num
    → (x : Bytes) → IsSuffix (label (longest t x)) x
longest-IsSuffix {t} {label} tree [] = ([], sym (ap label (longest-nil t) ∙ tree.root))
longest-IsSuffix {t} {label} tree (c ∷ x) = elim (Option-cases (walk t 0 (c ∷ x))) [
  | inl e ↦
      rw (longest-none t c x e) (IsSuffix-cons (label (longest t x)) c x (longest-IsSuffix tree x))
  | inr (s, e) ↦ ([], sym (ap label (longest-some t (c ∷ x) e) ∙ label-some tree (c ∷ x) e))
]

pub get-snoc : (x : Bytes) (c i : ℕ) → i < length x → get_elem? (x ++ c ∷ []) i ≡ get_elem? x i
get-snoc [] c i h = absurd (omega arith)
get-snoc (d ∷ x) c zero h = refl
get-snoc (d ∷ x) c (suc i) h = get-snoc x c i (omega arith)

pub get_last : (x : Bytes) (c : ℕ) → get_elem? (x ++ c ∷ []) (length x) ≡ some c
get_last [] c = refl
get_last (d ∷ x) c = get_last x c

pub get-AllBytes : (x : Bytes) (i : ℕ) {c : ℕ} → AllBytes x → get_elem? x i ≡ some c → c < 256
get-AllBytes [] i h e = absurd (cc e)
get-AllBytes (d ∷ x) zero (b, h) e = omega (arith, some-injective _ _ e)
get-AllBytes (d ∷ x) (suc i) (b, h) e = get-AllBytes x i h e

pub snoc-AllBytes : (x : Bytes) (c : ℕ) → AllBytes x → c < 256 → AllBytes (x ++ c ∷ [])
snoc-AllBytes [] c h b = (b, tt)
snoc-AllBytes (d ∷ x) c (e, h) b = (e, snoc-AllBytes x c h b)
