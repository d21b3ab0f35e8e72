-- ===== src/DownMatch/Changes.antt =====
-- down_string_match.c: the changes as data, and what a search may report after them.
use school_project.Common.{
  ℕ, ◌+◌, ◌<◌, ◌≡◌, ◌≢◌, Option, none, some, List, [], ◌∷◌, ◌>>=◌, Bytes, length,
}
use school_project.PageSearch.{Token, decodeing, wsize, keyword_size}
use school_project.PageSearch.Sound.{AreBytes, Reported}
use school_project.StringMatcher.Changes.{Shelf, put, take, IsWord, HasSome}
use school_project.DownMatch.{DownPair, add_str, del_str, search_page}

pub data DownChange : Type 0 where
  add_down : Bytes → DownChange
  del_down : Bytes → DownChange

unfoldable pub apply : DownPair → DownChange → Option DownPair
unfolding add_str del_str
apply p (add_down s) = add_str p s
apply p (del_down s) = del_str p s

unfoldable pub run : DownPair → List DownChange → Option DownPair
unfolding apply
run p [] = some p
run p (c ∷ cs) = do p' ← apply p c; run p' cs

abbrev pub after : Shelf → DownChange → Shelf
after k (add_down s) = put k s
after k (del_down s) = take k s

abbrev pub after_all : Shelf → List DownChange → Shelf
after_all k [] = k
after_all k (c ∷ cs) = after_all (after k c) cs

abbrev pub IsAllowed : Shelf → DownChange → Type 0
IsAllowed k (add_down s) = IsWord s
IsAllowed k (del_down s) = HasSome k

abbrev pub AllAllowed : Shelf → List DownChange → Type 0
AllAllowed k [] = Unit
AllAllowed k (c ∷ cs) = IsAllowed k c × AllAllowed (after k c) cs

-- Before the first change a search of a page reads through NULL; after it a search returns, and what
-- it reports is in the stock and in the page.
abbrev pub Reports : Shelf → DownPair → Type 0
Reports none p =
    (win st : ℕ → ℕ) (keyword : Bytes) (k : Token) (ks : List Token)
    → search_page p win st keyword (k ∷ ks) ≡ none
Reports (some m) p =
    ((q : Bytes) → m q ≢ 0 → length q < keyword_size)
    → (win st : ℕ → ℕ) (keyword : Bytes) (ks : List Token) (text : Bytes) → AreBytes ks
    → decodeing ks [] ≡ some text
    → length text + 260 < wsize
    → Reported m text (search_page p win st keyword ks)
