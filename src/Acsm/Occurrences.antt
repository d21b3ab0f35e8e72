-- ===== src/Acsm/Occurrences.antt =====
-- acsmx.c: a search of a compiled automaton finds each pattern wherever it occurs.
use mathlib.Core.Path.{subst}
use native.Mathlib.Nat.{mul-add}
use school_project.Common.{
  ℕ, ◌+◌, ◌*◌, ◌≡◌, refl, sym, ap, ◌∙◌, Bool, true, false, some, List, [], ◌∷◌, ◌++◌, arith,
  if◌then◌else◌, ◌>>=◌, Bytes, length, inl, inr,
}
use school_project.Acsm.{
  StateTable, Acsm, Building, pattern_states, acsm_compile, acsm_search, acsm_search_kw,
  search_kw_loop,
}
use school_project.Acsm.States.{walk}
use school_project.Acsm.Patterns.{times}
use school_project.Acsm.Labels.{IsBuilt, AllBytes, zero_or_not}
use school_project.Acsm.Insertion.{AllPatterns}
use school_project.Acsm.Longest.{
  longest, longest-nil, longest-le, longest-append, ends, ends-longest,
}
use school_project.Acsm.Failure.{wanted}
use school_project.Acsm.Finish.{IsFinished}
use school_project.Acsm.Compile.{IsCompiled, acsm_compile-IsCompiled}
use school_project.Acsm.Search.{acsm_search-counts, count}

-- How many of the texts that are `read` and some more bytes of `text` end in the pattern.
unfoldable pub endings : Bytes → Bytes → Bytes → ℕ
endings p read [] = 0
endings p read (c ∷ text) =
    (if ends p (read ++ c ∷ []) then 1 else 0) + endings p (read ++ c ∷ []) text

-- How often a pattern occurs in a text.
unfoldable pub occurrences : Bytes → Bytes → ℕ
unfolding endings
occurrences p text = endings p [] text

times-append : (p : Bytes) (l m : List Bytes) → times p (l ++ m) ≡ times p l + times p m
unfolding times
times-append p [] m = omega arith
times-append p (q ∷ l) m = omega (arith, times-append p l m)

if-times : (e : Bool) (m k : ℕ) → m * ((if e then 1 else 0) + k) ≡ (if e then m else 0) + m * k
if-times true m k = omega (arith, mul-add m 1 k)
if-times false m k = omega arith

module _ {b : Building} {label : ℕ → Bytes} {added : Bytes → ℕ} {t : StateTable}
    (v : IsBuilt b label added) (f : IsFinished b label added t) where
  -- The state after a text lists the patterns in which the text ends.
  pub wanted-longest :
      (p x : Bytes) → wanted label added (longest b.table x) p ≡ (if ends p x then added p else 0)
  wanted-longest p x = elim (zero_or_not (added p)) [
    | inl z ↦ rw z (ground arith)
    | inr n ↦
        let (s, h, e) = v.held p n in
        let w : walk b.table 0 p ≡ some s =
          subst (λ u. walk b.table 0 u ≡ some s) e (v.tree.reached s h) in
        rw (ends-longest v.tree p x w) refl
  ]

  search-endings :
      (x text : Bytes) (kw : List Bytes)
      → AllBytes text
      → (kw' : List Bytes) × (search_kw_loop t (longest b.table x) text kw ≡ some kw')
        × ((p : Bytes) → times p kw' ≡ times p kw + added p * endings p x text)
  unfolding search_kw_loop endings
  search-endings x [] kw h = (kw, refl, λ p. ground arith)
  search-endings x (c ∷ text) kw (byte, h) =
      let s = longest b.table x in
      let next = x ++ c ∷ [] in
      let here : (t s).next_state c ≡ some (longest b.table next) =
        f.moves s c (longest-le v.tree x) byte ∙ ap some (sym (longest-append v.tree x c)) in
      let found = (t (longest b.table next)).match_list in
      let (kw', e, g) = search-endings next text (kw ++ found) h in
      (
        kw',
        rw here e,
        λ p.
            let m =
              f.reports (longest b.table next) p (longest-le v.tree next) ∙ wanted-longest p next in
            g p
            ∙ rw
                (times-append p kw found, m, if-times (ends p next) (added p) (endings p next text))
                (omega arith),
      )

pub searched_kw :
    {a a' : Acsm} (text : Bytes)
    → IsCompiled a a'
    → AllBytes text
    → (kw : List Bytes) × (acsm_search_kw a' text ≡ some kw)
      × ((p : Bytes) → times p kw ≡ times p a.patterns * occurrences p text)
unfolding acsm_search_kw occurrences times endings
searched_kw [] i h = ([], refl, λ p. ground arith)
searched_kw {a} (c ∷ text) i h =
    let (kw, e, g) = search-endings i.built i.finished [] (c ∷ text) [] h in
    let start = longest-nil (pattern_states a.patterns).table in
    (
      kw,
      rw i.has (subst (λ s. search_kw_loop i.table s (c ∷ text) [] ≡ some kw) start e),
      λ p. omega (arith, g p),
    )

-- If no pattern is empty and the patterns and the text consist of bytes, `acsmCompile` ends, and a
-- search of the automaton that it returns lists each pattern as often as it occurs in the text,
-- overlaps included, times the number of its additions, and nothing else; `acsmSearch` returns
-- how many these are.
pub acsm_compile-search :
    (a : Acsm) (text : Bytes)
    → AllPatterns a.patterns
    → times [] a.patterns ≡ 0
    → AllBytes text
    → (kw : List Bytes) × ((acsm_compile a >>= λ a'. acsm_search_kw a' text) ≡ some kw)
      × ((acsm_compile a >>= λ a'. acsm_search a' text) ≡ some (length kw))
      × ((p : Bytes) → times p kw ≡ times p a.patterns * occurrences p text)
acsm_compile-search a text bytes nonempty h =
    let (a', e, i) = acsm_compile-IsCompiled a bytes nonempty in
    let (kw, f, g) = searched_kw text i h in
    (kw, rw e f, rw e ((acsm_search-counts a' text).0 ∙ ap count f), g)
