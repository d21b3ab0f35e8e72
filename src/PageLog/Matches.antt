-- ===== src/PageLog/Matches.antt =====
-- acsm.c, `keyword_match`: a page with a keyword is logged, unless the keyword stands near its start.
use school_project.Common.{
  ℕ, ◌+◌, ◌-◌, ◌≤◌, ◌<◌, ◌≡◌, ◌≢◌, refl, ap, ◌∙◌, true, false, none, some, List, [], ◌∷◌, ◌++◌, ltb,
  leb, if◌then◌else◌, ◌==◌, arith, Bytes, length, length-append, take, drop, until_nul,
  Option-cases, inl, inr,
}
use school_project.PageSearch.{Token, match_at, decodeing, wsize}
use school_project.DownMatch.{DownPair, search_page}
use school_project.PageLog.{
  UnicodeToString, log_text, plain_keyword, log_end, log_addkeyword, text_log, page_log,
  keyword_match,
}
use school_project.PageLog.Texts.{Blanked, IsCut, log_text_exact}

drop_all : (x : Bytes) → drop (length x) x ≡ []
drop_all [] = refl
drop_all (c ∷ x) = drop_all x

drop-append : (x y : Bytes) → drop (length x) (x ++ y) ≡ y
drop-append [] y = refl
drop-append (c ∷ x) y = drop-append x y

-- A C string, and what begins with the NUL that ends it.
unfoldable pub AllNonzero : Bytes → Type 0
AllNonzero [] = Unit
AllNonzero (c ∷ x) = (c ≢ 0) × AllNonzero x

unfoldable pub BeginsNul : Bytes → Type 0
BeginsNul [] = Unit
BeginsNul (c ∷ x) = c ≡ 0

until_nul_lem : (x y : Bytes) → AllNonzero x → BeginsNul y → until_nul (x ++ y) ≡ x
unfolding until_nul AllNonzero BeginsNul
until_nul_lem [] [] h n = refl
until_nul_lem [] (c ∷ y) h n = rw n refl
until_nul_lem (c ∷ x) y (a, h) n =
    let e : (c == 0) ≡ false = ground (arith, a) in rw (e, until_nul_lem x y h n) refl

log_end_short : (text : Bytes) → length text ≤ 200 → log_end text ≡ []
unfolding log_end until_nul
log_end_short text h =
    let e : ltb 200 (length text) ≡ false = ground arith in
    rw (e, log_end) (ap until_nul (drop_all text))

log_end_long :
    (front last after : Bytes)
    → 0 < length front
    → length (last ++ after) ≡ 200
    → AllNonzero last
    → BeginsNul after
    → log_end (front ++ (last ++ after)) ≡ last
unfolding log_end
log_end_long front last after some_front long h n =
    let text = front ++ (last ++ after) in
    let size : length text ≡ length front + 200 =
      omega (arith, length-append front (last ++ after)) in
    let from : (if ltb 200 (length text) then length text - 200 else length text) ≡ length front =
      ground (arith, size) in
    ap (λ k. until_nul (drop k text)) from
    ∙ ap until_nul (drop-append front (last ++ after))
    ∙ until_nul_lem last after h n

too_long : (x : Bytes) → 300 ≤ length x → log_addkeyword x ≡ none
unfolding log_addkeyword
too_long x h = let e : leb 300 (length x) ≡ true = ground arith in rw e refl

short_enough : (x : Bytes) → length x < 300 → log_addkeyword x ≡ some x
unfolding log_addkeyword
short_enough x h = let e : leb 300 (length x) ≡ false = ground arith in rw e refl

not_full : (n : ℕ) → n < wsize → leb wsize n ≡ false
not_full n h = ground arith

last_short : (x y : Bytes) → length (x ++ y) ≡ 200 → length x ≤ 400
last_short x y h = omega (arith, length-append x y)

nonempty_length : (x : Bytes) → x ≢ [] → 0 < length x
nonempty_length [] n = absurd (n refl)
nonempty_length (c ∷ x) n = omega arith

-- The tokens that are decompressed for the log: the match and ten more, if there are so many.
abbrev pub read_again : List Token → ℕ → List Token
read_again ks i = take (if ltb (length ks) (i + 10) then length ks else i + 10) ks

-- Let the search of M report a match at token `i`, whose keyword in plain letters is `k`, and let the
-- tokens up to ten behind it decompress to a text that fits into its array. If `k` has 300 bytes or
-- more, `keyword_match` writes behind the array for the keywords of the log. If the text has at most
-- 200 bytes, `keyword_match` faults as well: for a shorter `k` it writes before an array. If `k` is
-- shorter, the text longer, and its last 200 bytes up to the first NUL among them are `last`, which is
-- not empty, `keyword_match` returns 1 and logs `k` and of `last`, in which line feeds, carriage returns and bars become blanks, what stands from the
-- first start of a character up to the last one.
pub keyword_match-logs :
    (p : DownPair) (utos : List UnicodeToString) (win st : ℕ → ℕ) (keyword : Bytes)
    (ks : List Token) (i : ℕ) (kw k text : Bytes)
    → search_page p win st keyword ks ≡ some (match_at i kw)
    → plain_keyword utos kw ≡ some k
    → decodeing (read_again ks i) [] ≡ some text
    → length text < wsize
    → (300 ≤ length k → keyword_match (some p) utos win st keyword ks ≡ none)
      × (length text ≤ 200 → keyword_match (some p) utos win st keyword ks ≡ none)
      × ((front last after : Bytes)
          → length k < 300
          → text ≡ front ++ (last ++ after)
          → front ≢ []
          → length (last ++ after) ≡ 200
          → last ≢ []
          → AllNonzero last
          → BeginsNul after
          → (x : Bytes) × (r : Bytes) × (keyword_match (some p) utos win st keyword ks
              ≡ some (record { result = 1; log = some (record { keyword = k; fulltext = r }) }))
            × Blanked last x
            × IsCut x r)
unfolding keyword_match page_log text_log
keyword_match-logs p utos win st keyword ks i kw k text found plain decoded room =
    let inside = not_full (length text) room in
    (
      λ h. rw (found, plain, decoded, inside, too_long k h, keyword_match, page_log, text_log) refl,
      λ h. elim (Option-cases (log_addkeyword k)) [
        | inl y ↦ rw (found, plain, decoded, inside, y, keyword_match, page_log, text_log) refl
        | inr (k', y) ↦
            rw
              (
                found,
                plain,
                decoded,
                inside,
                y,
                (log_text_exact (log_end text)).0 (log_end_short text h),
                keyword_match,
                page_log,
                text_log,
              )
              refl
      ],
      λ front last after small split not_all long some_last nonzero nul.
          let ended : log_end text ≡ last =
            ap log_end split
            ∙ log_end_long front last after (nonempty_length front not_all) long nonzero nul in
          let (x, r, e, blanked, cut) =
            (log_text_exact last).1 some_last (last_short last after long) in
          let e' : log_text (log_end text) ≡ some r = ap log_text ended ∙ e in
          (
            x,
            r,
            rw
                (
                  found,
                  plain,
                  decoded,
                  inside,
                  short_enough k small,
                  e',
                  keyword_match,
                  page_log,
                  text_log,
                )
                refl,
            blanked,
            cut,
          ),
    )
