-- ===== src/DownMatch/Histories.antt =====
-- down_string_match.c: any sequence of changes from `down_ac` on.
use mathlib.Core.Path.{subst}
use school_project.Common.{ℕ, ◌<◌, ◌≡◌, ◌≢◌, refl, ◌∙◌, none, some, List, [], ◌∷◌, arith, Bytes}
use school_project.Acsm.{StateTable, del_after}
use school_project.Acsm.Patterns.{times, times-del_after, del_pattern-after}
use school_project.Acsm.Insertion.{AllPatterns}
use school_project.PageAcsm.{PageAcsm, acsmnew, acsmadd_pattern, acsmdel_pattern}
use school_project.PageAcsm.Compile.{IsPageCompiled, acsmcompile-IsPageCompiled}
use school_project.PageSearch.{Token, acch}
use school_project.PageSearch.Sound.{Reported, acch-Reported, again}
use school_project.StringMatcher.Pairs.{
  Stock, one_more, one_less, times-one_more, one_less-of_counts, one_more-nonempty,
  one_less-nonempty, AllPatterns-del_after,
}
use school_project.StringMatcher.Changes.{Shelf, stock, put, take, IsWord, HasSome}
use school_project.DownMatch.{
  DownPair, down_ac, compile_and_exchange, add_str, del_str, search_page,
}
use school_project.DownMatch.Changes.{
  DownChange, add_down, del_down, apply, run, after_all, AllAllowed, Reports,
}

-- N has the strings of the stock, and M has been compiled from them.
record IsStored (k : Shelf) (p : DownPair) : Type 0 where
  bytes : AllPatterns p.n.patterns
  counts : (q : Bytes) → times q p.n.patterns ≡ stock k q
  nonempty : stock k [] ≡ 0
  unsearched : k ≡ none → p.m.state_table ≡ none
  compiled :
      k ≢ none
      → (a : PageAcsm) × ((q : Bytes) → times q a.patterns ≡ stock k q) × IsPageCompiled a p.m

exchange-IsStored :
    (m : Stock) (p : DownPair) (changed : PageAcsm)
    → AllPatterns changed.patterns
    → ((q : Bytes) → times q changed.patterns ≡ m q)
    → m [] ≡ 0
    → (p' : DownPair) × (compile_and_exchange p changed ≡ some p') × IsStored (some m) p'
unfolding compile_and_exchange
exchange-IsStored m p changed bytes counts nonempty =
    let (compiled, e, i) = acsmcompile-IsPageCompiled changed bytes (counts [] ∙ nonempty) in
    (
      record { m = compiled; n = record p.m { patterns = changed.patterns } },
      rw e refl,
      record {
        bytes = bytes;
        counts = counts;
        nonempty = nonempty;
        unsearched = λ x. absurd (cc x);
        compiled = λ x. (changed, counts, i);
      },
    )

add_str-IsStored :
    {k : Shelf} {p : DownPair} (s : Bytes)
    → IsStored k p
    → IsWord s
    → (p' : DownPair) × (add_str p s ≡ some p') × IsStored (put k s) p'
unfolding add_str acsmadd_pattern
add_str-IsStored {k} {p} s i (h, n) =
    exchange-IsStored (one_more (stock k) s) p (acsmadd_pattern p.n s) (h, i.bytes)
      (λ q. times-one_more (stock k) s q p.n.patterns i.counts)
      (one_more-nonempty (stock k) s i.nonempty n)

del_held :
    (ps : List Bytes) (s q : Bytes) (a : PageAcsm)
    → a.patterns ≡ ps
    → 0 < times q ps
    → acsmdel_pattern a s ≡ some (record a { patterns = del_after ps s })
unfolding times acsmdel_pattern
del_held [] s q a e h = absurd (omega arith)
del_held (x ∷ ps) s q a e h = rw (e, del_pattern-after s x ps) refl

del_str-IsStored :
    {k : Shelf} {p : DownPair} (s : Bytes)
    → IsStored k p
    → HasSome k
    → (p' : DownPair) × (del_str p s ≡ some p') × IsStored (take k s) p'
unfolding del_str
del_str-IsStored {k} {p} s i (q, h) =
    let ps = p.n.patterns in
    let (p', e, j) =
      exchange-IsStored (one_less (stock k) s) p (record p.n { patterns = del_after ps s })
        (AllPatterns-del_after ps s i.bytes)
        (λ q. times-del_after s q ps ∙ one_less-of_counts (stock k) s q ps i.counts)
        (one_less-nonempty (stock k) s i.nonempty) in
    (p', rw (del_held ps s q p.n refl (rw (i.counts q) h)) e, j)

run-IsStored :
    (cs : List DownChange) {k : Shelf} {p : DownPair}
    → IsStored k p
    → AllAllowed k cs
    → (p' : DownPair) × (run p cs ≡ some p') × IsStored (after_all k cs) p'
unfolding run apply
run-IsStored [] {p = p} i h = (p, refl, i)
run-IsStored (add_down s ∷ cs) i (h, hs) =
    let (p₁, e, j) = add_str-IsStored s i h in
    let (p', f, l) = run-IsStored cs j hs in (p', rw e f, l)
run-IsStored (del_down s ∷ cs) i (h, hs) =
    let (p₁, e, j) = del_str-IsStored s i h in
    let (p', f, l) = run-IsStored cs j hs in (p', rw e f, l)

search_page-acch :
    (p : DownPair) {t : StateTable} (win st : ℕ → ℕ) (keyword : Bytes) (ks : List Token)
    → p.m.state_table ≡ some t
    → search_page p win st keyword ks
      ≡ acch (record { table = t; dept = p.m.dept }) win st keyword ks
unfolding search_page acch
search_page-acch p win st keyword [] e = refl
search_page-acch p win st keyword (k ∷ ks) e = rw e refl

stored-Reports : {k : Shelf} {p : DownPair} → IsStored k p → Reports k p
unfolding search_page
stored-Reports {k = none} i = λ win st keyword t ts. rw (i.unsearched refl) refl
stored-Reports {k = some m} {p} i = λ short win st keyword ks text bytes e room.
    let (a, counts, c) = i.compiled (λ x. absurd (cc x)) in
    let same : (λ q. times q a.patterns) ≡ m = λ i q. counts q i in
    let found =
      acch-Reported a p.m c (λ q n. short q (λ z. n (counts q ∙ z))) win st keyword ks text bytes e
        room in
    subst (λ f. Reported f text (search_page p win st keyword ks)) same
      (again (search_page-acch p win st keyword ks c.compiled.has) found)

down_ac-IsStored : IsStored none down_ac
unfolding down_ac acsmnew times
down_ac-IsStored = record {
  bytes = tt;
  counts = λ q. refl;
  nonempty = refl;
  unsearched = λ e. refl;
  compiled = λ n. absurd (n refl);
}

-- From `down_ac` on every sequence of additions of strings that are not empty and of deletions from
-- lists that have some string ends without a fault, each compilation included. Before the first
-- change a search of a page that is not empty reads through NULL. After it, if every string of the
-- stock (what was added and not deleted again) fits into the array for the keyword, a search of
-- a page that decompresses to a text that leaves 260 bytes of the window free returns, without an
-- access outside the window, and when it reports a match, a string of the stock stands in the text.
pub run-Reports :
    (changes : List DownChange)
    → AllAllowed none changes
    → (p : DownPair) × (run down_ac changes ≡ some p) × Reports (after_all none changes) p
run-Reports changes h =
    let (p, e, i) = run-IsStored changes down_ac-IsStored h in (p, e, stored-Reports i)
