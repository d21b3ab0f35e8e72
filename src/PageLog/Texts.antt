-- ===== src/PageLog/Texts.antt =====
-- acsm.c, `add_log`: where the text in the log of a page is cut.
use mathlib.Core.Path.{subst}
use mathlib.Core.Option.{some-injective}
use school_project.Common.{
  ℕ, zero, suc, ◌+◌, ◌-◌, ◌≤◌, ◌<◌, ◌≡◌, ◌≢◌, ◌⊎◌, refl, sym, ap, ◌∙◌, true, false, none, some, [],
  ◌∷◌, ◌++◌, ◌==◌, ltb, ltb→lt, if◌then◌else◌, arith, Bytes, length, take, drop, take-append-drop,
  get_elem?, Bool-cases, inl, inr,
}
use school_project.Acsm.States.{==→eq}
use school_project.PageLog.{is_separator, replace, is_start, first_start, last_start, log_text}

-- A byte inside a character, as UTF-8 writes one of three bytes, or the first byte of one of two.
abbrev pub IsInner : ℕ → Type 0
IsInner c = (128 ≤ c) × (c < 224)

-- An ASCII character, or the first byte of a character of three bytes.
abbrev pub IsStart : ℕ → Type 0
IsStart c = (c < 128) ⊎ (224 ≤ c)

unfoldable pub AllInner : Bytes → Type 0
AllInner [] = Unit
AllInner (c ∷ x) = IsInner c × AllInner x

unfoldable pub StartsCharacter : Bytes → Type 0
StartsCharacter [] = Unit
StartsCharacter (c ∷ x) = IsStart c

-- Line feeds, carriage returns and bars have become blanks; all else is kept.
unfoldable pub Blanked : Bytes → Bytes → Type 0
Blanked [] [] = Unit
Blanked [] (d ∷ y) = ⊥
Blanked (c ∷ x) [] = ⊥
Blanked (c ∷ x) (d ∷ y) =
    (((c ≡ 10) ⊎ ((c ≡ 13) ⊎ (c ≡ 124))) × (d ≡ 32) ⊎ ((c ≢ 10) × (c ≢ 13) × (c ≢ 124) × (d ≡ c)))
    × Blanked x y

-- What stays of a text: from the first start of a character on up to the last one, which is cut off.
-- Of a text without a start nothing stays.
abbrev pub IsCut : Bytes → Bytes → Type 0
IsCut x r =
    (AllInner x × (r ≡ []))
    ⊎ ((u : Bytes) × (d : ℕ) × (w : Bytes) × (x ≡ u ++ (r ++ (d ∷ w)))
        × AllInner u
        × StartsCharacter (r ++ (d ∷ w))
        × IsStart d
        × AllInner w)

IsInner-of : (c : ℕ) → is_start c ≡ false → IsInner c
unfolding is_start
IsInner-of c e = (ground arith, ground arith)

IsStart-of : (c : ℕ) → is_start c ≡ true → IsStart c
unfolding is_start
IsStart-of c e = elim (Bool-cases (ltb c 128)) [
  | inl x ↦ inl (ground arith)
  | inr x ↦ inr (ground arith)
]

not_both : (c : ℕ) → IsInner c → IsStart c → ⊥
not_both c (a, b) (inl x) = absurd (omega arith)
not_both c (a, b) (inr x) = absurd (omega arith)

replace-Blanked : (x : Bytes) → Blanked x (replace x)
unfolding replace Blanked is_separator
replace-Blanked [] = tt
replace-Blanked (c ∷ x) = (
  elim (Bool-cases (is_separator c)) [
    | inl e ↦ inl (ground arith, rw e refl)
    | inr e ↦ inr (ground arith, ground arith, ground arith, rw e refl)
  ],
  replace-Blanked x,
)

length-replace : (x : Bytes) → length (replace x) ≡ length x
unfolding replace
length-replace [] = refl
length-replace (c ∷ x) = ap suc (length-replace x)

take_all : (x : Bytes) → take (length x) x ≡ x
take_all [] = refl
take_all (c ∷ x) = ap (λ y. c ∷ y) (take_all x)

get-drop : (n m : ℕ) (x : Bytes) → get_elem? (drop n x) m ≡ get_elem? x (n + m)
get-drop zero m x = ap (λ k. get_elem? x k) (omega arith)
get-drop (suc n) m [] = refl
get-drop (suc n) m (c ∷ x) =
    let e : suc (n + m) ≡ suc n + m = omega arith in
    get-drop n m x ∙ ap (λ k. get_elem? (c ∷ x) k) e

drop-drop : (n m : ℕ) (x : Bytes) → drop m (drop n x) ≡ drop (n + m) x
drop-drop zero m x = ap (λ k. drop k x) (omega arith)
drop-drop (suc n) zero [] = let e : suc n ≡ suc n + zero = omega arith in ap (λ k. drop k []) e
drop-drop (suc n) (suc m) [] =
    let e : suc (n + suc m) ≡ suc n + suc m = omega arith in ap (λ k. drop k []) e
drop-drop (suc n) m (c ∷ x) =
    let e : suc (n + m) ≡ suc n + m = omega arith in drop-drop n m x ∙ ap (λ k. drop k (c ∷ x)) e

drop_cons : (n : ℕ) (x : Bytes) {d : ℕ} → get_elem? x n ≡ some d → drop n x ≡ d ∷ drop (suc n) x
drop_cons n [] e = absurd (cc e)
drop_cons zero (c ∷ x) e = ap (λ d. d ∷ x) (some-injective _ _ e)
drop_cons (suc n) (c ∷ x) e = drop_cons n x e

AllInner-of : (x : Bytes) → ((i c : ℕ) → get_elem? x i ≡ some c → IsInner c) → AllInner x
unfolding AllInner
AllInner-of [] h = tt
AllInner-of (c ∷ x) h = (h 0 c refl, AllInner-of x (λ i d e. h (suc i) d e))

get-IsInner : (x : Bytes) (i : ℕ) {c : ℕ} → AllInner x → get_elem? x i ≡ some c → IsInner c
unfolding AllInner
get-IsInner [] i h e = absurd (cc e)
get-IsInner (d ∷ x) zero (b, h) e = subst IsInner (some-injective _ _ e) b
get-IsInner (d ∷ x) (suc i) (b, h) e = get-IsInner x i h e

get_within : (x : Bytes) (i : ℕ) → i < length x → (c : ℕ) × (get_elem? x i ≡ some c)
get_within [] i h = absurd (omega arith)
get_within (c ∷ x) zero h = (c, refl)
get_within (c ∷ x) (suc i) h = get_within x i (omega arith)

within_of : (x : Bytes) (i : ℕ) {c : ℕ} → get_elem? x i ≡ some c → i < length x
within_of [] i e = absurd (cc e)
within_of (d ∷ x) zero e = omega arith
within_of (d ∷ x) (suc i) e = omega (arith, within_of x i e)

-- The first loop stops at the first start, if there is one.
first_start_lem :
    (x : Bytes)
    → AllInner x
      ⊎ ((c : ℕ) × (get_elem? x (first_start x) ≡ some c)
          × IsStart c
          × AllInner (take (first_start x) x))
unfolding first_start AllInner
first_start_lem [] = inl tt
first_start_lem (c ∷ x) = elim (Bool-cases (is_start c)) [
  | inl e ↦ inr (c, rw (e, first_start) refl, IsStart-of c e, rw (e, first_start) tt)
  | inr e ↦ elim (first_start_lem x) [
    | inl h ↦ inl (IsInner-of c e, h)
    | inr (d, g, s, h) ↦
        let n : suc (first_start x) ≡ first_start (c ∷ x) = rw (e, first_start) (omega arith) in
        inr (
          d,
          subst (λ k. get_elem? (c ∷ x) k ≡ some d) n g,
          s,
          subst (λ k. AllInner (take k (c ∷ x))) n (IsInner-of c e, h),
        )
  ]
]

-- The second loop stops at the last start, or at place 0.
last_start_lem :
    (x : Bytes) (j : ℕ)
    → j < length x
    → (k d : ℕ) × (last_start x j ≡ some k)
      × (k ≤ j)
      × (get_elem? x k ≡ some d)
      × ((k ≡ 0) ⊎ IsStart d)
      × ((i c : ℕ) → k < i → i ≤ j → get_elem? x i ≡ some c → IsInner c)
unfolding last_start
last_start_lem x zero h =
    let (d, g) = get_within x zero h in
    (0, d, refl, omega arith, g, inl refl, λ i c a b e. absurd (omega arith))
last_start_lem x (suc j) h =
    let (c, e) = get_within x (suc j) h in
    elim (Bool-cases (is_start c)) [
      | inl a ↦ (
        suc j,
        c,
        rw (e, a, last_start) refl,
        omega arith,
        e,
        inr (IsStart-of c a),
        λ i c a b e. absurd (omega arith),
      )
      | inr a ↦
          let (k, d, q, le, g, s, inner) = last_start_lem x j (omega arith) in
          (
            k,
            d,
            rw (e, a, last_start) q,
            omega arith,
            g,
            s,
            λ i b lo hi f. elim (Bool-cases (i == suc j)) [
              | inl y ↦
                  subst IsInner
                    (some-injective _ _
                      (sym e ∙ ap (λ k. get_elem? x k) (sym (==→eq i (suc j) y)) ∙ f))
                    (IsInner-of c a)
              | inr y ↦ inner i b lo (ground arith) f
            ],
          )
    ]

starts_lem : (c : ℕ) (x : Bytes) → IsStart c → StartsCharacter (c ∷ x)
unfolding StartsCharacter
starts_lem c x h = h

no_room : (n m : ℕ) (x : Bytes) → n ≤ m → take (n - m) x ≡ []
no_room n m x h = let e : 0 ≡ n - m = omega arith in subst (λ k. take k x ≡ []) e refl

-- The text between the two places where the loops stop.
IsCut-of :
    (x : Bytes)
    → 0 < length x
    → (k : ℕ) × (last_start x (length x - 1) ≡ some k)
      × IsCut x (take (k - first_start x) (drop (first_start x) x))
IsCut-of x h =
    let i = first_start x in
    let (k, d, e, le, g, s, inner) = last_start_lem x (length x - 1) (omega arith) in
    let tail : AllInner (drop (suc k) x) = AllInner-of (drop (suc k) x) (λ n c f.
      let f' : get_elem? x (suc k + n) ≡ some c = sym (get-drop (suc k) n x) ∙ f in
      inner (suc k + n) c (omega arith) (omega (arith, within_of x (suc k + n) f')) f') in
    elim (first_start_lem x) [
      | inl all ↦
          let zero_k : k ≡ 0 = elim s [
            | inl z ↦ z
            | inr t ↦ absurd (not_both d (get-IsInner x k all g) t)
          ] in
          (k, e, inl (all, no_room k i (drop i x) (omega arith)))
      | inr (c, f, start, front) ↦
          let low : i ≤ k = elim (Bool-cases (ltb k i)) [
            | inl y ↦
                absurd
                  (not_both c (inner i c (ltb→lt k i y) (omega (arith, within_of x i f)) f) start)
            | inr y ↦ ground arith
          ] in
          let last : IsStart d = elim s [
            | inl z ↦
                let same : i ≡ k = omega arith in
                subst IsStart (some-injective _ _ (sym f ∙ ap (λ n. get_elem? x n) same ∙ g)) start
            | inr t ↦ t
          ] in
          let y = drop i x in
          let there : i + (k - i) ≡ k = omega arith in
          let rest : drop (k - i) y ≡ d ∷ drop (suc k) x =
            drop-drop i (k - i) x ∙ ap (λ n. drop n x) there ∙ drop_cons k x g in
          let whole : y ≡ take (k - i) y ++ (d ∷ drop (suc k) x) =
            sym (take-append-drop (k - i) y) ∙ ap (λ z. take (k - i) y ++ z) rest in
          let begins : StartsCharacter y =
            subst StartsCharacter (sym (drop_cons i x f)) (starts_lem c (drop (suc i) x) start) in
          (
            k,
            e,
            inr (
              take i x,
              d,
              drop (suc k) x,
              sym (take-append-drop i x) ∙ ap (λ z. take i x ++ z) whole,
              front,
              subst StartsCharacter whole begins,
              last,
              tail,
            ),
          )
    ]

log_text-of :
    (text : Bytes) (k : ℕ)
    → 0 < length text
    → length text ≤ 400
    → last_start (replace text) (length text - 1) ≡ some k
    → log_text text
      ≡ some
          (take (k - first_start (replace text)) (drop (first_start (replace text)) (replace text)))
unfolding log_text
log_text-of text k some_bytes short e =
    let size : (if ltb (length text) 400 then length text else 400) ≡ length text = ground arith in
    let positive : (length text == 0) ≡ false = ground arith in
    rw (log_text, size, positive, take_all text, e) refl

log_text_kept :
    (text : Bytes)
    → 0 < length text
    → length text ≤ 400
    → (x : Bytes) × (r : Bytes) × (log_text text ≡ some r) × Blanked text x × IsCut x r
log_text_kept text some_bytes short =
    let same : length (replace text) ≡ length text = length-replace text in
    let (k, e, cut) = IsCut-of (replace text) (omega (arith, same)) in
    let e' : last_start (replace text) (length text - 1) ≡ some k =
      subst (λ n. last_start (replace text) (n - 1) ≡ some k) same e in
    (
      replace text,
      take (k - first_start (replace text)) (drop (first_start (replace text)) (replace text)),
      log_text-of text k some_bytes short e',
      replace-Blanked text,
      cut,
    )

-- For an empty text `add_log` writes before its array. Of another text of at most 400 bytes, in which
-- line feeds, carriage returns and bars become blanks, it logs what stands from the first start of
-- a character up to the last one.
pub log_text_exact :
    (text : Bytes)
    → (text ≡ [] → log_text text ≡ none)
      × (text ≢ []
          → length text ≤ 400
          → (x : Bytes) × (r : Bytes) × (log_text text ≡ some r) × Blanked text x × IsCut x r)
unfolding log_text
log_text_exact [] = (λ e. refl, λ n h. absurd (n refl))
log_text_exact (c ∷ rest) = (λ e. absurd (cc e), λ n h. log_text_kept (c ∷ rest) (omega arith) h)
