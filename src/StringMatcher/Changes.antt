-- ===== src/StringMatcher/Changes.antt =====
-- string_matcher.c: the changes as data, and what each pair has to find after them.
use school_project.Common.{
  ℕ, ◌*◌, ◌<◌, ◌≡◌, ◌≢◌, Option, none, some, List, [], ◌∷◌, ◌>>=◌, Bytes, length,
}
use school_project.Acsm.Patterns.{times}
use school_project.Acsm.Labels.{AllBytes}
use school_project.Acsm.Occurrences.{occurrences}
use school_project.StringMatcher.{Matchers, addstr, addstr_N, addurl, delstr, delstr_N, delurl}
use school_project.StringMatcher.Pairs.{Stock, one_more, one_less}

-- The six changes.
pub data Change : Type 0 where
  add_kw : Bytes → Change
  add_kw_N : Bytes → Change
  add_url : Bytes → Change
  del_kw : Bytes → Change
  del_kw_N : Bytes → Change
  del_url : Bytes → Change

unfoldable pub apply : Matchers → Change → Option Matchers
unfolding addstr addstr_N addurl delstr delstr_N delurl
apply m (add_kw s) = addstr m s
apply m (add_kw_N s) = addstr_N m s
apply m (add_url s) = addurl m s
apply m (del_kw s) = delstr m s
apply m (del_kw_N s) = delstr_N m s
apply m (del_url s) = delurl m s

unfoldable pub run : Matchers → List Change → Option Matchers
unfolding apply
run m [] = some m
run m (c ∷ cs) = do m' ← apply m c; run m' cs

-- What a pair has to find: `none` before the first change.
abbrev pub Shelf : Type 0
Shelf = Option Stock

abbrev pub stock : Shelf → Stock
stock none = λ q. 0
stock (some m) = m

pub record Shelves : Type 0 where
  pub kw : Shelf
  pub kw_N : Shelf
  pub url : Shelf

abbrev pub empty_shelves : Shelves
empty_shelves = record { kw = none; kw_N = none; url = none }

abbrev pub put : Shelf → Bytes → Shelf
put k s = some (one_more (stock k) s)

abbrev pub take : Shelf → Bytes → Shelf
take k s = some (one_less (stock k) s)

abbrev pub after : Shelves → Change → Shelves
after k (add_kw s) = record k { kw = put k.kw s }
after k (add_kw_N s) = record k { kw_N = put k.kw_N s }
after k (add_url s) = record k { url = put k.url s }
after k (del_kw s) = record k { kw = take k.kw s }
after k (del_kw_N s) = record k { kw_N = take k.kw_N s }
after k (del_url s) = record k { url = take k.url s }

abbrev pub after_all : Shelves → List Change → Shelves
after_all k [] = k
after_all k (c ∷ cs) = after_all (after k c) cs

-- A string that is added is not empty and consists of bytes; a deletion finds some string there.
abbrev pub IsWord : Bytes → Type 0
IsWord s = AllBytes s × (s ≢ [])

abbrev pub HasSome : Shelf → Type 0
HasSome k = (q : Bytes) × (0 < stock k q)

abbrev pub IsAllowed : Shelves → Change → Type 0
IsAllowed k (add_kw s) = IsWord s
IsAllowed k (add_kw_N s) = IsWord s
IsAllowed k (add_url s) = IsWord s
IsAllowed k (del_kw s) = HasSome k.kw
IsAllowed k (del_kw_N s) = HasSome k.kw_N
IsAllowed k (del_url s) = HasSome k.url

abbrev pub AllAllowed : Shelves → List Change → Type 0
AllAllowed k [] = Unit
AllAllowed k (c ∷ cs) = IsAllowed k c × AllAllowed (after k c) cs

-- Before the first change a search of a text that is not empty reads through NULL; after it a
-- search finds the stock.
abbrev pub Finds : Shelf → (Bytes → Option ℕ) → (Bytes → Option (List Bytes)) → Type 0
Finds none number keywords =
    (c : ℕ) (text : Bytes) → (number (c ∷ text) ≡ none) × (keywords (c ∷ text) ≡ none)
Finds (some m) number keywords =
    (text : Bytes)
    → AllBytes text
    → (kw : List Bytes) × (keywords text ≡ some kw)
      × (number text ≡ some (length kw))
      × ((q : Bytes) → times q kw ≡ m q * occurrences q text)
