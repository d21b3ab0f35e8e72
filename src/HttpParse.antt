-- ===== src/HttpParse.antt =====
-- http_parse.c: the kinds of header fields and of pages, and the decoding of a URL in place.
pub mod Decode
pub mod Pages
mod Examples
use school_project.Common.{
  ℕ, ◌+◌, ◌-◌, ◌*◌, ◌/◌, ◌%◌, Bool, true, false, not, ◌&&◌, ◌||◌, Option, none, some, List, [], ◌∷◌,
  ltb, leb, ◌==◌, if◌then◌else◌, Bytes, codes, starts_with, strstr,
}

-- The kinds of header fields, from include.h.
abbrev pub host : ℕ
host = 1

abbrev pub cookie : ℕ
cookie = 2

abbrev pub content_len : ℕ
content_len = 3

abbrev pub referer : ℕ
referer = 4

-- `_header_field_type`
unfoldable pub header_field_type : Bytes → ℕ
header_field_type at =
    if starts_with (codes "Cookie") at
    then cookie
    else if starts_with (codes "Host") at
    then host
    else if starts_with (codes "Content-Length") at
    then content_len
    else if starts_with (codes "Referer") at
    then referer
    else 0

-- strstr(s, p) as a condition.
unfoldable pub occurs : Bytes → Bytes → Bool
occurs p s = elim (strstr s p) [ none ↦ false | some t ↦ true ]

-- `_page_type_`, with the numbers of include.h: LIKE, NOTE, EDIT_NOTE, MEDIA_SET, UPLOAD_PHOTO, PHOTO,
-- ADD_FRIEND, COMMENT, STATUS, SHARE and CHAT.
unfoldable pub page_type : Bytes → ℕ
page_type path =
    if occurs (codes "like") path && not (occurs (codes "showlike") path)
    then 14
    else if occurs (codes "blog/") path
    then 3
    else if occurs (codes "NewEntry.do") path
    then 8
    else if occurs (codes "album-create-new") path
    then 6
    else if occurs (codes "upload/") path
    then 9
    else if occurs (codes ".jpg") path
    then 5
    else if occurs (codes "addfollow") path || occurs (codes "friend.do") path
    then 7
    else if occurs (codes "reply") path
        || occurs (codes "comment") path
        || occurs (codes "Comment") path
    then 4
    else if occurs (codes "status") path
    then 2
    else if occurs (codes "share/popup.do") path
        || occurs (codes "share/submit.do") path
        || occurs (codes "update.do") path
        || occurs (codes "share/ajax.do") path
    then 13
    else if occurs (codes "muc_chat") path
    then 19
    else 0

-- x >= 'A' ? ((x & 0XDF) - 'A') + 10 : (x - '0'), for a signed char, cut to a byte.
unfoldable pub digit_value : ℕ → ℕ
digit_value x =
    if leb b'A' x && ltb x 128
    then ((x - (x / 32) % 2 * 32) + 256 - b'A' + 10) % 256
    else (x + 256 - b'0') % 256

abbrev pub before : ℕ → Option Bytes → Option Bytes
before c none = none
before c (some s) = some (c ∷ s)

-- The loop of `urldecode_my`: the bytes that it writes (%00 writes a NUL among them). A '%' with
-- fewer than two characters behind it is read past the end.
unfoldable pub urldecode_my : Bytes → Option Bytes
unfolding digit_value
urldecode_my [] = some []
urldecode_my (c ∷ d ∷ e ∷ s) =
    if c == b'%'
    then before ((digit_value d * 16 + digit_value e) % 256) (urldecode_my s)
    else before (if c == b'+' then b' ' else c) (urldecode_my (d ∷ e ∷ s))
urldecode_my (c ∷ d ∷ []) =
    if c == b'%' then none else before (if c == b'+' then b' ' else c) (urldecode_my (d ∷ []))
urldecode_my (c ∷ []) = if c == b'%' then none else some ((if c == b'+' then b' ' else c) ∷ [])
