-- ===== src/PageLog.antt =====
-- acsm.c: what is logged of a page with a keyword: `keyword_match`, `add_log` and `replace`.
pub mod Texts
pub mod Matches
mod Examples
use school_project.Common.{
  ℕ, zero, suc, ◌+◌, ◌-◌, Bool, true, false, ◌&&◌, ◌||◌, Option, none, some, List, [], ◌∷◌, ◌==◌,
  ltb, leb, if◌then◌else◌, ◌>>=◌, Bytes, length, take, drop, get_elem?, until_nul,
}
use school_project.HttpParse.{occurs}
use school_project.PageSearch.{Token, Found, no_match, lost_match, match_at, decodeing, wsize}
use school_project.DownMatch.{DownPair, search_page}

-- `unicode_to_string`: a keyword, and how JSON writes it.
pub record UnicodeToString : Type 0 where
  pub str : Bytes
  pub code : Bytes

-- The fields of the log that `add_log` fills; `fulltext` is zero before.
pub record PageLog : Type 0 where
  pub keyword : Bytes
  pub fulltext : Bytes

-- What `keyword_match` returns, and the log that it sends.
pub record Matched : Type 0 where
  pub result : ℕ
  pub log : Option PageLog

-- The characters that separate fields of the log.
unfoldable pub is_separator : ℕ → Bool
is_separator c = c == b'\n' || c == b'\r' || c == b'|'

unfoldable pub replace : Bytes → Bytes
unfolding is_separator
replace [] = []
replace (c ∷ buf) = (if is_separator c then b' ' else c) ∷ replace buf

-- A byte at which the two loops of `add_log` stop: the byte of an ASCII character, or the first
-- byte of a character of three bytes.
unfoldable pub is_start : ℕ → Bool
is_start c = ltb c 128 || leb 224 c

-- The loop over `i`.
unfoldable pub first_start : Bytes → ℕ
unfolding is_start
first_start [] = 0
first_start (c ∷ test) = if is_start c then 0 else first_start test + 1

-- The loop over `j`, down from `j`.
unfoldable pub last_start : Bytes → ℕ → Option ℕ
unfolding is_start
last_start test zero = some 0
last_start test (suc j) = do
  c ← get_elem? test (suc j)
  if is_start c then some (suc j) else last_start test j

-- The text that `add_log` puts into the log. For an empty `fulltext` it writes `test[-1]`.
unfoldable pub log_text : Bytes → Option Bytes
unfolding replace first_start last_start
log_text fulltext =
    let size = if ltb (length fulltext) 400 then length fulltext else 400 in
    let test = replace (take size fulltext) in
    if size == 0 then none else do
      j ← last_start test (size - 1)
      some (take (j - first_start test) (drop (first_start test) test))

-- The loop of `keyword_match` over `utos`. Behind a keyword that is replaced by a longer one stands
-- what the array held, which nobody has set.
unfoldable pub plain_keyword : List UnicodeToString → Bytes → Option Bytes
unfolding occurs
plain_keyword [] keyword = some keyword
plain_keyword (u ∷ utos) keyword =
    let replaced = plain_keyword utos u.str in
    let kept = plain_keyword utos keyword in
    if occurs u.code keyword
    then if leb (length u.str) (length keyword) then replaced else none
    else kept

-- The argument of `add_log`: `fulltext + log_len`.
unfoldable pub log_end : Bytes → Bytes
unfolding until_nul
log_end fulltext =
    let log_len = length fulltext in
    until_nul (drop (if ltb 200 log_len then log_len - 200 else log_len) fulltext)

-- The size of `keywords` in the log.
abbrev pub keywords_size : ℕ
keywords_size = 300

-- log_addkeyword(&log, keyword): strcat to an array that is empty.
unfoldable pub log_addkeyword : Bytes → Option Bytes
log_addkeyword kw = if leb keywords_size (length kw) then none else some kw

-- The call of `add_log`; the array of `fulltext` has `wsize` bytes, the NUL counted.
unfoldable pub text_log : Bytes → Bytes → Option PageLog
unfolding log_end log_addkeyword log_text
text_log keyword fulltext =
    if leb wsize (length fulltext)
    then none
    else log_addkeyword keyword >>= (λ keywords.
      log_text (log_end fulltext)
      >>= (λ text. some (record { keyword = keywords; fulltext = text })))

-- if (result): the log of a match at token `text_length`.
unfoldable pub page_log : List Token → ℕ → Bytes → Option PageLog
unfolding decodeing text_log
page_log ks text_length keyword =
    decodeing (take (if ltb (length ks) (text_length + 10) then length ks else text_length + 10) ks)
      []
    >>= text_log keyword

-- The loop over `utos` when `acch` has reported no match: strstr reads an array that nobody has set.
unfoldable pub unset_keyword : List UnicodeToString → Option Matched
unset_keyword [] = some (record { result = 0; log = none })
unset_keyword (u ∷ utos) = none

-- `keyword_match`; before `down_ac` there is no pair.
unfoldable pub keyword_match :
    Option DownPair → List UnicodeToString → (ℕ → ℕ) → (ℕ → ℕ) → Bytes → List Token → Option Matched
unfolding plain_keyword page_log unset_keyword
keyword_match none utos win st keyword ks = some (record { result = 0; log = none })
keyword_match (some p) utos win st keyword ks = do
  found ← search_page p win st keyword ks
  elim found [
    | no_match ↦ unset_keyword utos
    | lost_match keyword' ↦ do
      k ← plain_keyword utos keyword'
      some (record { result = 0; log = none })
    | match_at i keyword' ↦ do
      k ← plain_keyword utos keyword'
      log ← page_log ks i k
      some (record { result = 1; log = some log })
  ]
