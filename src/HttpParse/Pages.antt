-- ===== src/HttpParse/Pages.antt =====
-- http_parse.c, `_page_type_`: which URLs get no type.
use school_project.Common.{
  ◌≡◌, Bool, false, not, ◌&&◌, ◌||◌, ◌↔◌, List, [], ◌∷◌, Bytes, codes, arith,
}
use school_project.HttpParse.{occurs, page_type}

-- One of the texts occurs.
abbrev pub occurs_any : List Bytes → Bytes → Bool
occurs_any [] s = false
occurs_any (p ∷ ps) s = occurs p s || occurs_any ps s

abbrev pub page_marks : List Bytes
page_marks =
    codes "blog/"
    ∷ codes "NewEntry.do"
    ∷ codes "album-create-new"
    ∷ codes "upload/"
    ∷ codes ".jpg"
    ∷ codes "addfollow"
    ∷ codes "friend.do"
    ∷ codes "reply"
    ∷ codes "comment"
    ∷ codes "Comment"
    ∷ codes "status"
    ∷ codes "share/popup.do"
    ∷ codes "share/submit.do"
    ∷ codes "update.do"
    ∷ codes "share/ajax.do"
    ∷ codes "muc_chat"
    ∷ []

-- A URL has no type exactly if it has none of the marks of a page, and a "like" only with a
-- "showlike".
pub page_type-zero :
    (path : Bytes)
    → (page_type path ≡ 0) ↔ (
        (occurs_any page_marks path ≡ false)
        × ((occurs (codes "like") path && not (occurs (codes "showlike") path)) ≡ false))
unfolding page_type
page_type-zero path = (λ h. ground arith, λ h. ground arith)
