-- ===== src/HttpParse/Examples.antt =====
-- http_parse.c: some URLs, and witnesses.
use school_project.Common.{◌≡◌, refl, none, some, [], ◌∷◌, codes, arith, starts_with, strstr}
use school_project.HttpParse.{header_field_type, page_type, occurs, urldecode_my}
use school_project.HttpParse.Decode.{urldecode_my-urlencode, urlencode, hex_digit, is_plain}

host_field : header_field_type (codes "Host: a") ≡ 1
unfolding header_field_type starts_with
host_field = refl

showlike_is_no_like : page_type (codes "/showlike?comment") ≡ 4
unfolding page_type occurs strstr
showlike_is_no_like = refl

cut_percent : urldecode_my (codes "a%4") ≡ none
unfolding urldecode_my
cut_percent = refl

-- "a /"
urldecode_my-urlencode_example : urldecode_my (codes "a+%2F") ≡ some (97 ∷ 32 ∷ 47 ∷ [])
unfolding urlencode hex_digit is_plain
urldecode_my-urlencode_example =
    urldecode_my-urlencode (97 ∷ 32 ∷ 47 ∷ []) (omega arith, (omega arith, (omega arith, tt)))
