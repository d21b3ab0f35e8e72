-- ===== src/HttpFields.antt =====
-- http_parse.c: what the callbacks of the HTTP parser note of a request: its URL and its header.
pub mod Headers
mod Examples
use school_project.Common.{
  ℕ, ◌+◌, ◌-◌, Bool, true, false, ◌&&◌, ◌||◌, Option, none, some, List, [], ◌∷◌, ◌++◌, ltb, leb,
  ◌==◌, if◌then◌else◌, ◌>>=◌, Bytes, codes, length, take, drop, starts_with, strstr,
}
use school_project.Decision.{ConnectionInfo}
use school_project.HttpParse.{
  header_field_type, host, cookie, content_len, referer, page_type, occurs,
}

-- The functions of other sources: the path of a URL that parseURL and readURLField give, less its first
-- byte, and `atoi`.
pub record Parsers : Type 0 where
  pub path_of : Bytes → Bytes
  pub atoi : Bytes → ℕ

-- What the callbacks keep: `http.url`, `GET_test`, `http_field_type`, `content_length`, `con_len`
-- and the connection's `c_info`. The sizes of the arrays of `c_info` are below.
pub record HttpRequest : Type 0 where
  pub url : Bytes
  pub get_test : Bytes
  pub http_field_type : ℕ
  pub content_length : ℕ
  pub con_len : ℕ
  pub c_info : ConnectionInfo

abbrev pub id_size : ℕ
id_size = 20

abbrev pub r_id_size : ℕ
r_id_size = 52

abbrev pub comment_size : ℕ
comment_size = 10000

abbrev pub url_size : ℕ
url_size = 512

-- memcpy(x, s, 9); x[9] = '\0'. With fewer than eight characters it reads behind the NUL.
unfoldable pub nine_bytes : Bytes → Option Bytes
nine_bytes s = if ltb (length s) 8 then none else some (take 9 s)

-- The text before strchr(s, c); `none` where that is NULL.
unfoldable pub before_char : Bytes → ℕ → Option Bytes
before_char [] c = none
before_char (x ∷ s) c =
    let rest = before_char s c in if x == c then some [] else rest >>= (λ t. some (x ∷ t))

-- if (len > 0 && len < n): the text, else the empty one.
unfoldable pub if_fits : ℕ → Bytes → Bytes
if_fits n s = if ltb 0 (length s) && ltb (length s) n then s else []

-- `_url_parse` for a NOTE.
unfoldable pub note_url : ConnectionInfo → Bytes → Option ConnectionInfo
unfolding nine_bytes strstr occurs
note_url c path =
    let c' = if occurs (codes "blogs/") path then record c { p_type = 0 } else c in
    elim (strstr path (codes "blog/")) [
      | none ↦ some c'
      | some s_start ↦ nine_bytes (drop 5 s_start) >>= (λ s.
          elim (strstr (drop 6 s_start) (codes "/")) [
            | none ↦ some (record c' { s_id = s })
            | some r_start ↦
                nine_bytes (drop 1 r_start) >>= (λ r. some (record c' { s_id = s; r_id = r }))
          ])
    ]

-- `_url_parse` for a LIKE: first the resource, then the owner. Without an '&' it counts from NULL.
unfoldable pub like_r_id : ConnectionInfo → Bytes → Option ConnectionInfo
unfolding before_char if_fits strstr
like_r_id c url = elim (strstr url (codes "_")) [
  | none ↦ some c
  | some start ↦ do
    r ← before_char (drop 1 start) b'&'
    some (record c { r_id = if_fits r_id_size r })
]

unfoldable pub like_s_id : ConnectionInfo → Bytes → Option ConnectionInfo
unfolding before_char if_fits strstr
like_s_id c url = elim (strstr url (codes "owner")) [
  | none ↦ some c
  | some start ↦ do
    s ← before_char (drop 5 start) b'&'
    some (record c { s_id = if_fits id_size s })
]

-- `_url_parse` for UPLOAD_PHOTO.
unfoldable pub upload_url : ConnectionInfo → Bytes → Option ConnectionInfo
unfolding nine_bytes strstr
upload_url c url = elim (strstr url (codes "hostid=")) [
  | none ↦ some c
  | some start ↦ do u ← nine_bytes (drop 7 start); some (record c { user_id = u })
]

-- `_url_parse`, once the type of the page is known: NOTE is 3, LIKE 14 and UPLOAD_PHOTO 9.
unfoldable pub typed_url : ConnectionInfo → Bytes → Bytes → Option ConnectionInfo
unfolding note_url like_r_id like_s_id upload_url
typed_url c url path =
    if c.p_type == 3
    then note_url c path
    else if c.p_type == 14
    then like_r_id c url >>= (λ c'. like_s_id c' url)
    else if c.p_type == 9
    then upload_url c url
    else some c

unfoldable pub url_parse : Parsers → Bytes → ConnectionInfo → Option ConnectionInfo
unfolding typed_url page_type
url_parse e url c =
    if length (e.path_of url) == 0
    then some c
    else typed_url (if c.p_type == 0 then record c { p_type = page_type url } else c) url
        (e.path_of url)

-- The loop of `on_url` that copies what stands before the blank and "HTTP/1.1" to GET_test.
unfoldable pub copy_get_test : Bytes → Option Bytes
unfolding strstr
copy_get_test at = elim (strstr at (codes "HTTP/1.1")) [
  | none ↦ some []
  | some ptr ↦ let n = length at - length ptr - 1 in if ltb 512 n then none else some (take n at)
]

-- What a callback returns: the request, and whether it returns 0.
abbrev pub Returned : Type 0
Returned = HttpRequest × Bool

-- `on_url`; `url` has 300 bytes, so a length of 300 writes its NUL behind it.
unfoldable pub on_url : Parsers → HttpRequest → Bytes → ℕ → Option Returned
unfolding url_parse copy_get_test
on_url e r at len =
    if ltb 300 len || ltb len 2
    then some (r, false)
    else if leb 300 len
    then none
    else copy_get_test at >>= (λ g.
      url_parse e (take len at) r.c_info
      >>= (λ c. some (record r { url = take len at; get_test = g; c_info = c }, true)))

unfoldable pub on_header_field : HttpRequest → Bytes → HttpRequest
unfolding header_field_type
on_header_field r at = record r { http_field_type = header_field_type at }

-- case HOST: the complete URL, which strcat writes to `url`.
unfoldable pub host_value : HttpRequest → Bytes → Option ConnectionInfo
host_value r host_zhong =
    let complete = codes "http://" ++ (host_zhong ++ r.get_test) in
    if leb url_size (length complete) then none else some (record r.c_info { url = complete })

-- case COOKIE: the user, if none is known yet.
unfoldable pub cookie_value : ConnectionInfo → Bytes → ConnectionInfo
unfolding before_char if_fits strstr
cookie_value c at =
    if length c.user_id == 0
    then elim (strstr at (codes "; id=")) [
      | none ↦ c
      | some start ↦ elim (before_char (drop 5 start) b';') [
        | none ↦ c
        | some u ↦ record c { user_id = if_fits id_size u }
      ]
    ]
    else c

-- `on_header_value`
unfoldable pub on_header_value : Parsers → HttpRequest → Bytes → ℕ → Option HttpRequest
unfolding host_value cookie_value url_parse
on_header_value e r at len =
    if r.http_field_type == host
    then host_value r (take len at) >>= (λ c. some (record r { c_info = c }))
    else if r.http_field_type == cookie
    then some (record r { c_info = cookie_value r.c_info at })
    else if r.http_field_type == content_len
    then some (record r { content_length = e.atoi at })
    else if (r.http_field_type == referer) && (r.c_info.p_type == 0)
    then url_parse e (take len at) r.c_info >>= (λ c. some (record r { c_info = c }))
    else some r
