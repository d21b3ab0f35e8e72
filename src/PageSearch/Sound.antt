-- ===== src/PageSearch/Sound.antt =====
-- acsm.c, `acch`: a match that the search of a compressed page reports stands in the page.
use mathlib.Core.Path.{subst}
use mathlib.Core.List.{append_assoc, append-nil}
use mathlib.Core.Option.{some-injective}
use school_project.Common.{
  ℕ, zero, suc, ◌+◌, ◌-◌, ◌≤◌, ◌<◌, ◌≡◌, ◌≢◌, ◌⊎◌, refl, sym, ap, ◌∙◌, true, false, Option, some,
  List, [], ◌∷◌, ◌++◌, ◌==◌, ltb, arith, Bytes, length, length-append, get_elem?, Bool-cases,
  Option-cases, inl, inr,
}
use school_project.Acsm.{StateTable, Building}
use school_project.Acsm.Labels.{IsBuilt}
use school_project.Acsm.Finish.{IsFinished}
use school_project.PageAcsm.{PageAcsm}
use school_project.PageAcsm.Compile.{IsPageCompiled}
use school_project.Acsm.{pattern_states}
use school_project.Acsm.Patterns.{times}
use school_project.Acsm.Longest.{longest-nil}
use school_project.PageSearch.{
  keyword_size, Token, Scan, put, Found, no_match, match_at, wsize, put_token, acch_loop, acch,
  repeat_back, decode_token, decodeing,
}
use school_project.PageSearch.Suffixes.{OccursIn, occurs-of_suffix}
use school_project.PageSearch.Moves.{EndsInSome, AreShort}
use school_project.PageSearch.Copies.{IsAt, automaton, put_literal-Kept}
use school_project.PageSearch.Loops.{length-repeat_back}
use school_project.PageSearch.Repetitions.{put_repetition-lem}

-- The literals of the tokens, and the lengths of the repetitions, are single bytes.
unfoldable pub AreBytes : List Token → Type 0
AreBytes [] = Unit
AreBytes (k ∷ ks) = (k.l < 256) × AreBytes ks

-- Some pattern of the automaton stands in the text.
abbrev pub OccursSome : (Bytes → ℕ) → Bytes → Type 0
OccursSome added x = (p : Bytes) × (added p ≢ 0) × OccursIn p x

abbrev Extends : Bytes → Bytes → Type 0
Extends x y = (v : Bytes) × (y ≡ x ++ v)

Extends-trans : (x y z : Bytes) → Extends x y → Extends y z → Extends x z
Extends-trans x y z (v, e) (w, f) = (v ++ w, f ∙ ap (λ a. a ++ w) e ∙ append_assoc x v w)

Extends-refl : (x : Bytes) → Extends x x
Extends-refl x = ([], sym (append-nil x))

length-Extends : (x y : Bytes) → Extends x y → length x ≤ length y
length-Extends x y (v, e) = omega (arith, ap length e, length-append x v)

occurs : {added : Bytes → ℕ} (x y : Bytes) → Extends x y → EndsInSome added x → OccursSome added y
occurs x y (v, e) (p, n, q) = let (u, w, f) = occurs-of_suffix p x v q in (p, n, (u, w, e ∙ f))

repeat_back-Extends : (d n : ℕ) (x : Bytes) {y : Bytes} → repeat_back d n x ≡ some y → Extends x y
unfolding repeat_back
repeat_back-Extends d zero x {y} e = ([], sym (some-injective _ _ e) ∙ sym (append-nil x))
repeat_back-Extends d (suc n) x {y} e = elim (Bool-cases (ltb (length x) d)) [
  | inl a ↦ absurd (cc (rw (a, repeat_back) at e))
  | inr a ↦ elim (Option-cases (get_elem? x (length x - d))) [
    | inl h ↦ absurd (cc (rw (a, h, repeat_back) at e))
    | inr (c, h) ↦
        Extends-trans x (x ++ c ∷ []) y (c ∷ [], refl)
          (repeat_back-Extends d n (x ++ c ∷ []) (rw (a, h, repeat_back) at e))
  ]
]

-- The front part of a repetition is a repetition.
repeat_front :
    (d k n : ℕ) (x : Bytes) {z : Bytes}
    → k ≤ n
    → repeat_back d n x ≡ some z
    → (y : Bytes) × (repeat_back d k x ≡ some y) × Extends y z
unfolding repeat_back
repeat_front d zero n x le e = (x, refl, repeat_back-Extends d n x e)
repeat_front d (suc k) zero x le e = absurd (omega arith)
repeat_front d (suc k) (suc n) x le e = elim (Bool-cases (ltb (length x) d)) [
  | inl a ↦ absurd (cc (rw (a, repeat_back) at e))
  | inr a ↦ elim (Option-cases (get_elem? x (length x - d))) [
    | inl h ↦ absurd (cc (rw (a, h, repeat_back) at e))
    | inr (c, h) ↦
        let (y, e', g) =
          repeat_front d k n (x ++ c ∷ []) (omega arith) (rw (a, h, repeat_back) at e) in
        (y, rw (a, h, repeat_back) e', g)
  ]
]

within_lem : (d n : ℕ) (x : Bytes) {z : Bytes} → repeat_back d n x ≡ some z → 0 < n → d ≤ length x
unfolding repeat_back
within_lem d zero x e h = absurd (omega arith)
within_lem d (suc n) x e h = elim (Bool-cases (ltb (length x) d)) [
  | inl a ↦ absurd (cc (rw (a, repeat_back) at e))
  | inr a ↦ ground (arith, a)
]

decode_token-Extends : (k : Token) (x : Bytes) {y : Bytes} → decode_token k x ≡ some y → Extends x y
unfolding decode_token
decode_token-Extends k x e = elim (Bool-cases (k.dist == 0)) [
  | inl a ↦ (k.l ∷ [], sym (some-injective _ _ (rw a at e)))
  | inr a ↦ repeat_back-Extends k.dist (k.l + 3) x (rw a at e)
]

decodeing-Extends :
    (ks : List Token) (x : Bytes) {y : Bytes} → decodeing ks x ≡ some y → Extends x y
unfolding decodeing
decodeing-Extends [] x e = ([], sym (some-injective _ _ e) ∙ sym (append-nil x))
decodeing-Extends (k ∷ ks) x {y} e = elim (Option-cases (decode_token k x)) [
  | inl a ↦ absurd (cc (rw a at e))
  | inr (z, a) ↦
      Extends-trans x z y (decode_token-Extends k x a) (decodeing-Extends ks z (rw a at e))
]

-- What a search returns: no match, or a match in the text.
pub data Reported (added : Bytes → ℕ) (text : Bytes) (r : Option Found) : Type 0 where
  nothing : r ≡ some no_match → Reported added text r
  reported :
      (i : ℕ) (keyword : Bytes)
      → r ≡ some (match_at i keyword)
      → OccursSome added text
      → Reported added text r

pub again :
    {added : Bytes → ℕ} {text : Bytes} {r r' : Option Found}
    → r ≡ r'
    → Reported added text r'
    → Reported added text r
again e (Reported.nothing e') = Reported.nothing (e ∙ e')
again e (Reported.reported i keyword e' o) = Reported.reported i keyword (e ∙ e') o

occurs_earlier :
    {added : Bytes → ℕ} {x text : Bytes} {r : Option Found} {i : ℕ} {keyword : Bytes}
    → Extends x text
    → r ≡ some (match_at i keyword)
    → OccursSome added x
    → Reported added text r
occurs_earlier {added} {x} {text} {r} {i} {keyword} (v, e) e' (p, n, (u, w, f)) =
    Reported.reported i keyword e' (
      p,
      n,
      (
        u,
        w ++ v,
        e ∙ ap (λ a. a ++ v) f ∙ append_assoc u (p ++ w) v ∙ ap (λ a. u ++ a) (append_assoc p w v),
      ),
    )

module _ {b : Building} {label : ℕ → Bytes} {added : Bytes → ℕ} {t : StateTable}
    (v : IsBuilt b label added) (f : IsFinished b label added t) (short : AreShort added)
    (dept : ℕ → ℕ) where
  -- One token: the scan goes on behind its bytes, or has found a match in the bytes so far.
  put_token-lem :
      (k : Token) (x : Bytes) {y : Bytes} (s : Scan)
      → IsAt b.table x s
      → s.tag ≡ false
      → k.l < 256
      → decode_token k x ≡ some y
      → length y + 260 < wsize
      → ((s' : Scan) × (put_token (automaton v f short dept) k s ≡ some (put s' false))
          × IsAt b.table y s'
          × (s'.tag ≡ false))
        ⊎ ((s' : Scan) × (put_token (automaton v f short dept) k s ≡ some (put s' true))
            × OccursSome added y)
  unfolding put_token decode_token
  put_token-lem k x {y} s i tag byte e room = elim (Bool-cases (k.dist == 0)) [
    | inl a ↦
        let same : x ++ k.l ∷ [] ≡ y = some-injective _ _ (rw a at e) in
        let r =
          put_literal-Kept v f short dept x k.l s i byte
            (omega (arith, i.filled, ap length same, length-append x (k.l ∷ []))) in
        elim (Bool-cases r.1) [
          | inl h ↦ inr (
            r.0,
            rw (a, put_token) (r.2 ∙ ap (λ h. some (put r.0 h)) h),
            occurs (x ++ k.l ∷ []) y ([], sym same ∙ sym (append-nil _)) (r.3 h),
          )
          | inr h ↦ inl (
            r.0,
            rw (a, put_token) (r.2 ∙ ap (λ h. some (put r.0 h)) h),
            subst (λ z. IsAt b.table z r.0) same (r.4 h).0,
            (r.4 h).1 ∙ tag,
          )
        ]
    | inr a ↦
        let e' : repeat_back k.dist (k.l + 3) x ≡ some y = rw a at e in
        let d = k.dist in
        let len = k.l + 3 in
        let within : d ≤ length x = within_lem d len x e' (omega arith) in
        elim (put_repetition-lem v f short dept x d (ground (arith, a)) within len
          (omega (arith, length-repeat_back d len x e')) s i tag) [
            | inl (s', q, (z, g, here), tag') ↦ inl (
              s',
              rw (a, put_token) q,
              subst (λ z. IsAt b.table z s') (some-injective _ _ (sym g ∙ e')) here,
              tag',
            )
            | inr (s', n, q, le, (z, g, found)) ↦
                let (z', g', more) = repeat_front d n len x le e' in
                let same : z' ≡ z = some-injective _ _ (sym g' ∙ g) in
                inr (s', rw (a, put_token) q, occurs z y (subst (λ z. Extends z y) same more) found)
          ]
  ]

  -- The loop from a token on, when the window holds what the tokens before it give.
  acch_loop-Reported :
      (ks : List Token) (i : ℕ) (x : Bytes) {text : Bytes} (s : Scan)
      → IsAt b.table x s
      → s.tag ≡ false
      → AreBytes ks
      → decodeing ks x ≡ some text
      → length text + 260 < wsize
      → Reported added text (acch_loop (automaton v f short dept) i ks s)
  unfolding acch_loop AreBytes decodeing
  acch_loop-Reported [] i x s here tag bytes e room = Reported.nothing refl
  acch_loop-Reported (k ∷ ks) i x {text} s here tag (byte, bytes) e room =
      elim (Option-cases (decode_token k x)) [
        | inl a ↦ absurd (cc (rw a at e))
        | inr (y, a) ↦
            let e' : decodeing ks y ≡ some text = rw a at e in
            let more = decodeing-Extends ks y e' in
            let less = length-Extends y text more in
            elim (put_token-lem k x s here tag byte a (omega arith)) [
              | inl (s', q, here', tag') ↦
                  again (rw (q, acch_loop) refl)
                    (acch_loop-Reported ks (i + 1) y s' here' tag' bytes e' room)
              | inr (s', q, (p, n, (u, w, o))) ↦
                  occurs_earlier {i = i} {keyword = s'.keyword} more (rw (q, acch_loop) refl)
                    (p, n, (u, w, o))
            ]
      ]

-- If the automaton is what `acsmcompile` leaves, every pattern fits into the array for the keyword,
-- and the tokens decompress to a text that leaves 260 bytes of the window free, then `acch` returns,
-- and when it reports a match, some pattern of the automaton stands in that text. No read or write
-- of the window is out of bounds, whatever the window and the keyword held before.
pub acch-Reported :
    (a a' : PageAcsm) (i : IsPageCompiled a a')
    → ((p : Bytes) → times p a.patterns ≢ 0 → length p < keyword_size)
    → (win st : ℕ → ℕ) (keyword : Bytes) (ks : List Token) (text : Bytes) → AreBytes ks
    → decodeing ks [] ≡ some text
    → length text + 260 < wsize
    → Reported
        (λ p. times p a.patterns)
        text
        (acch (record { table = i.compiled.table; dept = a'.dept }) win st keyword ks)
unfolding acch
acch-Reported a a' i short win st keyword ks text bytes e room =
    acch_loop-Reported i.compiled.built i.compiled.finished short a'.dept ks 0 []
      (record { win = win; st = st; w = 0; state = 0; tag = false; keyword = keyword })
      (record {
        filled = refl;
        win = λ k h. absurd (omega arith);
        bytes = tt;
        tracks = ([], ([], refl), sym (longest-nil (pattern_states a.patterns).table));
      })
      refl bytes e room
