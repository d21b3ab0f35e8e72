-- ===== src/StringMatcher/Histories.antt =====
-- string_matcher.c: any sequence of changes from `init_ac` on.
use mathlib.Core.Path.{subst}
use mathlib.Core.Option.{some-injective}
use school_project.Common.{◌≡◌, refl, ◌∙◌, Option, none, some, List, [], ◌∷◌, Bytes}
use school_project.Acsm.{Acsm, acsm_new, acsm_search, acsm_search_kw}
use school_project.Acsm.Patterns.{times}
use school_project.StringMatcher.{
  Pair, Matchers, new_pair, add_to, del_from, init_ac, addstr, addstr_N, addurl, delstr, delstr_N,
  delurl, kw_match, kw_match_N, url_match, get_keywords, get_keywords_N,
}
use school_project.StringMatcher.Changes.{
  Change, add_kw, add_kw_N, add_url, del_kw, del_kw_N, del_url, apply, run, Shelf, stock, Shelves,
  empty_shelves, put, take, after, after_all, IsWord, HasSome, IsAllowed, AllAllowed, Finds,
}
use school_project.StringMatcher.Pairs.{Stock, IsPaired, Serves, add_to-IsPaired, del_from-IsPaired}

-- The pair of a shelf.
record IsStored (k : Shelf) (p : Pair) : Type 0 where
  paired : IsPaired (stock k) p
  unsearched : k ≡ none → p.active.state_table ≡ none
  serves : (m : Stock) → k ≡ some m → Serves m p

record AreStored (k : Shelves) (m : Matchers) : Type 0 where
  kw : IsStored k.kw m.kw
  kw_N : IsStored k.kw_N m.kw_N
  url : IsStored k.url m.url

put-IsStored :
    {k : Shelf} {p : Pair} (s : Bytes)
    → IsStored k p
    → IsWord s
    → (p' : Pair) × (add_to p s ≡ some p') × IsStored (put k s) p'
put-IsStored {k} {p} s i (bytes, nonempty) =
    let (p', e, j, f) = add_to-IsPaired (stock k) p s i.paired bytes nonempty in
    (
      p',
      e,
      record {
        paired = j;
        unsearched = λ x. absurd (cc x);
        serves = λ m x. subst (λ m. Serves m p') (some-injective _ _ x) f;
      },
    )

take-IsStored :
    {k : Shelf} {p : Pair} (s : Bytes)
    → IsStored k p
    → HasSome k
    → (p' : Pair) × (del_from p s ≡ some p') × IsStored (take k s) p'
take-IsStored {k} {p} s i (q, held) =
    let (p', e, j, f) = del_from-IsPaired (stock k) p s q i.paired held in
    (
      p',
      e,
      record {
        paired = j;
        unsearched = λ x. absurd (cc x);
        serves = λ m x. subst (λ m. Serves m p') (some-injective _ _ x) f;
      },
    )

apply-AreStored :
    {k : Shelves} {m : Matchers} (c : Change)
    → AreStored k m
    → IsAllowed k c
    → (m' : Matchers) × (apply m c ≡ some m')
      × AreStored (after k c) m'
      × (m'.requests ≡ m.requests)
unfolding apply addstr addstr_N addurl delstr delstr_N delurl
apply-AreStored {k} {m} (add_kw s) i h =
    let (p, e, j) = put-IsStored s i.kw h in
    (record m { kw = p }, rw e refl, record { kw = j; kw_N = i.kw_N; url = i.url }, refl)
apply-AreStored {k} {m} (add_kw_N s) i h =
    let (p, e, j) = put-IsStored s i.kw_N h in
    (record m { kw_N = p }, rw e refl, record { kw = i.kw; kw_N = j; url = i.url }, refl)
apply-AreStored {k} {m} (add_url s) i h =
    let (p, e, j) = put-IsStored s i.url h in
    (record m { url = p }, rw e refl, record { kw = i.kw; kw_N = i.kw_N; url = j }, refl)
apply-AreStored {k} {m} (del_kw s) i h =
    let (p, e, j) = take-IsStored s i.kw h in
    (record m { kw = p }, rw e refl, record { kw = j; kw_N = i.kw_N; url = i.url }, refl)
apply-AreStored {k} {m} (del_kw_N s) i h =
    let (p, e, j) = take-IsStored s i.kw_N h in
    (record m { kw_N = p }, rw e refl, record { kw = i.kw; kw_N = j; url = i.url }, refl)
apply-AreStored {k} {m} (del_url s) i h =
    let (p, e, j) = take-IsStored s i.url h in
    (record m { url = p }, rw e refl, record { kw = i.kw; kw_N = i.kw_N; url = j }, refl)

run-AreStored :
    (cs : List Change) {k : Shelves} {m : Matchers}
    → AreStored k m
    → AllAllowed k cs
    → (m' : Matchers) × (run m cs ≡ some m')
      × AreStored (after_all k cs) m'
      × (m'.requests ≡ m.requests)
unfolding run
run-AreStored [] {m = m} i h = (m, refl, i, refl)
run-AreStored (c ∷ cs) i (h, hs) =
    let (m₁, e, j, r) = apply-AreStored c i h in
    let (m', f, l, r') = run-AreStored cs j hs in (m', rw e f, l, r' ∙ r)

new_pair-IsStored : IsStored none new_pair
unfolding new_pair acsm_new times
new_pair-IsStored = record {
  paired = record { same = refl; bytes = tt; counts = λ q. refl; nonempty = refl };
  unsearched = λ e. refl;
  serves = λ m e. absurd (cc e);
}

stored-Finds :
    {k : Shelf} {p : Pair} → IsStored k p → Finds k (acsm_search p.active) (acsm_search_kw p.active)
unfolding acsm_search acsm_search_kw
stored-Finds {k = none} i = λ c text. (rw (i.unsearched refl) refl, rw (i.unsearched refl) refl)
stored-Finds {k = some m} i = λ text h. let (kw, e, f, g) = i.serves m refl text h in (kw, e, f, g)

-- From `init_ac` on every sequence of additions of non-empty strings and deletions from lists that
-- have some string ends without a fault, each compilation included. After it each matcher that
-- was changed finds exactly the strings that were added to it and not deleted again, each as often
-- as it occurs times the number of its additions left, `kw_match`, `kw_match_N` and `url_match`
-- return how many these are, and a matcher that was never changed faults on every text but the
-- empty one. R is left alone, NULL or not.
pub run-Finds :
    (requests : Option Acsm) (changes : List Change)
    → AllAllowed empty_shelves changes
    → (m : Matchers) × (run (init_ac requests) changes ≡ some m)
      × Finds (after_all empty_shelves changes).kw (kw_match m) (get_keywords m)
      × Finds (after_all empty_shelves changes).kw_N (kw_match_N m) (get_keywords_N m)
      × Finds (after_all empty_shelves changes).url (url_match m) (acsm_search_kw m.url.active)
      × (m.requests ≡ requests)
unfolding init_ac kw_match kw_match_N url_match get_keywords get_keywords_N
run-Finds requests changes h =
    let start : AreStored empty_shelves (init_ac requests) = record {
      kw = new_pair-IsStored;
      kw_N = new_pair-IsStored;
      url = new_pair-IsStored;
    } in
    let (m, e, i, r) = run-AreStored changes {m = init_ac requests} start h in
    (m, e, stored-Finds i.kw, stored-Finds i.kw_N, stored-Finds i.url, r)
