-- ===== src/HttpBody.antt =====
-- http_parse.c, `on_body`: what is noted of the body of a request.
pub mod Fields
mod Examples
use school_project.Common.{
  ℕ, ◌+◌, ◌-◌, Bool, true, false, ◌&&◌, Option, none, some, List, [], ◌∷◌, ◌++◌, ltb, leb, ◌==◌,
  if◌then◌else◌, ◌>>=◌, Bytes, codes, length, take, drop, starts_with, strstr,
}
use school_project.Decision.{ConnectionInfo}
use school_project.HttpFields.{HttpRequest, id_size, r_id_size, comment_size, before_char, if_fits}

-- qs_scanvalue(key, at, val, val_len), of qs_parse.c: what `val` is afterwards.
abbrev pub Scanner : Type 0
Scanner = Bytes → Bytes → Bytes → ℕ → Bytes

module _ (qs_scanvalue : Scanner) (at : Bytes) where
  abbrev scan_comment : Bytes → ConnectionInfo → ConnectionInfo
  scan_comment key c = record c { comment = qs_scanvalue key at c.comment comment_size }

  abbrev scan_r_id : Bytes → ConnectionInfo → ConnectionInfo
  scan_r_id key c = record c { r_id = qs_scanvalue key at c.r_id r_id_size }

  abbrev scan_s_id : Bytes → ConnectionInfo → ConnectionInfo
  scan_s_id key c = record c { s_id = qs_scanvalue key at c.s_id id_size }

  -- The user, if none is known yet.
  unfoldable pub scan_user : ConnectionInfo → ConnectionInfo
  scan_user c =
      if length c.user_id == 0
      then record c { user_id = qs_scanvalue (codes "__user") at c.user_id id_size }
      else c

  unfoldable pub comment_body : ConnectionInfo → ConnectionInfo
  comment_body c =
      let c₁ = scan_comment (codes "body") (
        scan_comment (codes "comment")
          (scan_comment (codes "content") (scan_comment (codes "c") c))) in
      let c₂ =
        scan_r_id (codes "source") (scan_r_id (codes "id") (scan_r_id (codes "entryId") c₁)) in
      scan_s_id (codes "owner") (scan_s_id (codes "entryOwnerId") c₂)

  unfoldable pub friend_body : ConnectionInfo → ConnectionInfo
  friend_body c = scan_comment (codes "why") (scan_r_id (codes "pubId") (scan_s_id (codes "id") c))

  -- A comment and, behind it, the value of another key, which is scanned into a block of `size` bytes
  -- that malloc gives with the string `fresh`.
  unfoldable pub titled_body : Bytes → Bytes → Bytes → ℕ → ConnectionInfo → Option ConnectionInfo
  titled_body key body fresh size c =
      let title = qs_scanvalue key at fresh size in
      let comment = qs_scanvalue body at c.comment comment_size ++ title in
      if leb comment_size (length comment) then none else some (record c { comment = comment })

  -- The text of a CHAT, and to whom it goes. Behind a final "to=" it reads past the NUL.
  unfoldable pub chat_text : ConnectionInfo → ConnectionInfo
  unfolding before_char if_fits strstr
  chat_text c = elim (strstr at (codes "<font>")) [
    | none ↦ c
    | some start4 ↦ elim (before_char (drop 6 start4) b'<') [
      | none ↦ c
      | some text ↦ record c { comment = if_fits 1000 text }
    ]
  ]

  unfoldable pub chat_body : ConnectionInfo → Option ConnectionInfo
  unfolding chat_text before_char if_fits strstr
  chat_body c = elim (strstr at (codes "to=")) [
    | none ↦ some (chat_text c)
    | some start5 ↦
        if ltb (length start5) 4
        then none
        else some (elim (before_char (drop 4 start5) b'@') [
          | none ↦ chat_text c
          | some text ↦ record (chat_text c) { s_id = if_fits id_size text }
        ])
  ]

  -- SHARE, a body that begins with "c=".
  unfoldable pub share_fields : ConnectionInfo → ConnectionInfo
  share_fields c =
      scan_s_id (codes "fwdOwner") (scan_r_id (codes "fwdId") (scan_comment (codes "c") c))

-- The text before strstr(s, p); `none` where that is NULL.
unfoldable pub before_text : Bytes → Bytes → Option Bytes
unfolding strstr
before_text s p = elim (strstr s p) [ none ↦ none | some t ↦ some (take (length s - length t) s) ]

-- SHARE: the comment, from the value of "post"; strncpy looks at no bound.
unfoldable pub share_comment : Bytes → ConnectionInfo → Option ConnectionInfo
unfolding before_text strstr
share_comment post c = elim (strstr post (codes "body\":\"")) [
  | none ↦ some (record c { comment = [] })
  | some p ↦ elim (before_text (drop 7 p) (codes "\",\"")) [
    | none ↦ some (record c { comment = [] })
    | some text ↦
        if leb comment_size (length text) then none else some (record c { comment = text })
  ]
]

-- The copy of the resource up to `end`, if that is behind it by at most 20 bytes.
unfoldable pub copy_share_id : Bytes → Option Bytes → ConnectionInfo → ConnectionInfo
copy_share_id resource_id none c = c
copy_share_id resource_id (some end) c =
    let r_id_len = length resource_id - length end in
    if ltb 0 r_id_len && leb r_id_len 20 then record c { r_id = take r_id_len resource_id } else c

-- SHARE: the resource. Its end is looked for from the start of the value on.
unfoldable pub share_id : Bytes → ConnectionInfo → ConnectionInfo
unfolding copy_share_id strstr starts_with
share_id post c = elim (strstr post (codes "\"id\":")) [
  | none ↦ c
  | some t ↦
      let resource_id = drop 5 t in
      if starts_with (codes "\"") resource_id
      then copy_share_id (drop 1 resource_id) (strstr post (codes "\",\"owner")) c
      else copy_share_id resource_id (strstr post (codes ",\"owner")) c
]

unfoldable pub share_body : Scanner → Bytes → ConnectionInfo → Option ConnectionInfo
unfolding share_fields share_comment share_id starts_with
share_body qs_scanvalue at c =
    if starts_with (codes "c=") at
    then some (share_fields qs_scanvalue at c)
    else let post = qs_scanvalue (codes "post") at [] 100000 in
      share_comment post c >>= (λ c'. some (share_id post c'))

-- The switch of `on_body` over the type of the page, with the numbers of include.h.
unfoldable pub typed_body : Scanner → Bytes → Bytes → ConnectionInfo → Option ConnectionInfo
unfolding comment_body friend_body titled_body chat_body share_body
typed_body qs_scanvalue fresh at c =
    if c.p_type == 4
    then some (comment_body qs_scanvalue at c)
    else if c.p_type == 7
    then some (friend_body qs_scanvalue at c)
    else if c.p_type == 8
    then titled_body qs_scanvalue at (codes "title") (codes "body") fresh 100 c
    else if c.p_type == 2
    then some (record c { comment = qs_scanvalue (codes "content") at c.comment comment_size })
    else if c.p_type == 6
    then titled_body qs_scanvalue at (codes "name") (codes "description") fresh 30 c
    else if c.p_type == 9
    then some (record c { comment = qs_scanvalue (codes "title") at c.comment comment_size })
    else if c.p_type == 19
    then chat_body qs_scanvalue at c
    else if c.p_type == 13
    then share_body qs_scanvalue at c
    else some c

unfoldable pub on_body : Scanner → Bytes → HttpRequest → Bytes → ℕ → Option HttpRequest
unfolding scan_user typed_body
on_body qs_scanvalue fresh r at len =
    typed_body qs_scanvalue fresh at (scan_user qs_scanvalue at r.c_info)
    >>= (λ c. some (record r { con_len = len; c_info = c }))
