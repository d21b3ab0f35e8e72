-- ===== src/StringMatcher/Pairs.antt =====
-- string_matcher.c: a change of one pair of automata.
use school_project.Common.{
  ℕ, ◌+◌, ◌*◌, ◌-◌, ◌<◌, ◌≡◌, ◌≢◌, refl, ap, ◌∙◌, some, List, [], ◌∷◌, arith, if◌then◌else◌, Bytes,
  length, bytes_eq, eq_of_bytes_eq, Bool-cases, inl, inr,
}
use school_project.Acsm.{
  Acsm, acsm_add_pattern, acsm_del_pattern, del_after, acsm_search, acsm_search_kw,
}
use school_project.Acsm.Patterns.{times, times-del_after, del_pattern-after}
use school_project.Acsm.Labels.{AllBytes}
use school_project.Acsm.Insertion.{AllPatterns}
use school_project.Acsm.Compile.{acsm_compile-IsCompiled}
use school_project.Acsm.Occurrences.{occurrences, searched_kw}
use school_project.Acsm.Search.{acsm_search-counts, count}
use school_project.StringMatcher.{Pair, compile_and_swap, add_to, del_from}

-- How often each string has been added and not deleted again.
abbrev pub Stock : Type 0
Stock = Bytes → ℕ

unfoldable pub one_more : Stock → Bytes → Stock
one_more m s q = if bytes_eq s q then m q + 1 else m q

unfoldable pub one_less : Stock → Bytes → Stock
one_less m s q = if bytes_eq s q then m q - 1 else m q

bytes_eq_comm : (s q : Bytes) → bytes_eq s q ≡ bytes_eq q s
bytes_eq_comm s q = elim (Bool-cases (bytes_eq s q)) [
  | inl e ↦ rw (eq_of_bytes_eq s q e) refl
  | inr e ↦ elim (Bool-cases (bytes_eq q s)) [
    | inl f ↦ rw (eq_of_bytes_eq q s f) refl
    | inr f ↦ rw (e, f) refl
  ]
]

module _ (m : Stock) (s : Bytes) where
  pub times-one_more :
      (q : Bytes) (ps : List Bytes)
      → ((q : Bytes) → times q ps ≡ m q)
      → times q (s ∷ ps) ≡ one_more m s q
  unfolding times one_more
  times-one_more q ps c = ground (arith, c q, bytes_eq_comm s q)

  pub one_less-of_counts :
      (q : Bytes) (ps : List Bytes)
      → ((q : Bytes) → times q ps ≡ m q)
      → (if bytes_eq s q then times q ps - 1 else times q ps) ≡ one_less m s q
  unfolding one_less
  one_less-of_counts q ps c = rw (c q) refl

  pub one_more-nonempty : m [] ≡ 0 → s ≢ [] → one_more m s [] ≡ 0
  unfolding one_more
  one_more-nonempty e n = elim (Bool-cases (bytes_eq s [])) [
    | inl y ↦ absurd (n (eq_of_bytes_eq s [] y))
    | inr y ↦ rw y e
  ]

  pub one_less-nonempty : m [] ≡ 0 → one_less m s [] ≡ 0
  unfolding one_less
  one_less-nonempty e = ground (arith, e)

-- Both automata have the strings of the stock.
pub record IsPaired (m : Stock) (p : Pair) : Type 0 where
  pub same : p.active.patterns ≡ p.spare.patterns
  pub bytes : AllPatterns p.spare.patterns
  pub counts : (q : Bytes) → times q p.spare.patterns ≡ m q
  pub nonempty : m [] ≡ 0

-- A search of the active automaton finds the strings of the stock where they occur.
abbrev pub Serves : Stock → Pair → Type 0
Serves m p =
    (text : Bytes)
    → AllBytes text
    → (kw : List Bytes) × (acsm_search_kw p.active text ≡ some kw)
      × (acsm_search p.active text ≡ some (length kw))
      × ((q : Bytes) → times q kw ≡ m q * occurrences q text)

compile_and_swap-IsPaired :
    (m : Stock) (p : Pair) (changed : Acsm)
    → AllPatterns changed.patterns
    → ((q : Bytes) → times q changed.patterns ≡ m q)
    → m [] ≡ 0
    → (p' : Pair) × (compile_and_swap p changed ≡ some p') × IsPaired m p' × Serves m p'
unfolding compile_and_swap
compile_and_swap-IsPaired m p changed bytes counts nonempty =
    let (compiled, e, i) = acsm_compile-IsCompiled changed bytes (counts [] ∙ nonempty) in
    (
      record { active = compiled; spare = record p.active { patterns = changed.patterns } },
      rw e refl,
      record { same = i.kept; bytes = bytes; counts = counts; nonempty = nonempty },
      λ text h.
          let (kw, f, g) = searched_kw text i h in
          (
            kw,
            f,
            (acsm_search-counts compiled text).0 ∙ ap count f,
            λ q. g q ∙ ap (λ k. k * occurrences q text) (counts q),
          ),
    )

pub add_to-IsPaired :
    (m : Stock) (p : Pair) (s : Bytes)
    → IsPaired m p
    → AllBytes s
    → s ≢ []
    → (p' : Pair) × (add_to p s ≡ some p') × IsPaired (one_more m s) p' × Serves (one_more m s) p'
unfolding add_to acsm_add_pattern
add_to-IsPaired m p s i h n =
    compile_and_swap-IsPaired (one_more m s) p (acsm_add_pattern p.spare s) (h, i.bytes)
      (λ q. times-one_more m s q p.spare.patterns i.counts) (one_more-nonempty m s i.nonempty n)

pub AllPatterns-del_after :
    (ps : List Bytes) (s : Bytes) → AllPatterns ps → AllPatterns (del_after ps s)
unfolding del_after
AllPatterns-del_after [] s h = tt
AllPatterns-del_after (p ∷ ps) s (h, hs) = elim (Bool-cases (bytes_eq s p)) [
  | inl e ↦ rw e hs
  | inr e ↦ rw e (h, AllPatterns-del_after ps s hs)
]

del_held :
    (ps : List Bytes) (s q : Bytes) (a : Acsm)
    → a.patterns ≡ ps
    → 0 < times q ps
    → acsm_del_pattern a s ≡ some (record a { patterns = del_after ps s })
unfolding times acsm_del_pattern
del_held [] s q a e h = absurd (omega arith)
del_held (x ∷ ps) s q a e h = rw (e, del_pattern-after s x ps) refl

pub del_from-IsPaired :
    (m : Stock) (p : Pair) (s q : Bytes)
    → IsPaired m p
    → 0 < m q
    → (p' : Pair) × (del_from p s ≡ some p') × IsPaired (one_less m s) p' × Serves (one_less m s) p'
unfolding del_from
del_from-IsPaired m p s q i h =
    let changed : Acsm = record p.spare { patterns = del_after p.spare.patterns s } in
    let (p', e, j, f) =
      compile_and_swap-IsPaired (one_less m s) p changed
        (AllPatterns-del_after p.spare.patterns s i.bytes)
        (λ q.
          times-del_after s q p.spare.patterns ∙ one_less-of_counts m s q p.spare.patterns i.counts)
        (one_less-nonempty m s i.nonempty) in
    (p', rw (del_held p.spare.patterns s q p.spare refl (rw (i.counts q) h)) e, j, f)
