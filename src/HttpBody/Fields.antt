-- ===== src/HttpBody/Fields.antt =====
-- http_parse.c, `on_body`: the fields of `c_info` stay within their arrays.
use mathlib.Core.Path.{subst}
use school_project.Common.{
  sym, ◌∙◌, ℕ, ◌<◌, ◌≡◌, ◌≢◌, refl, false, some, [], ◌==◌, arith, Bytes, codes, length, Bool-cases,
  inl, inr,
}
use school_project.Decision.{ConnectionInfo}
use school_project.HttpFields.{HttpRequest, id_size, comment_size}
use school_project.HttpFields.Headers.{Fits, length_zero}
use school_project.HttpBody.{Scanner, scan_user, comment_body, friend_body, typed_body, on_body}

-- qs_scanvalue leaves a string that fits into `val` if there was one before.
abbrev pub IsBounded : Scanner → Type 0
IsBounded q = (key at val : Bytes) (n : ℕ) → length val < n → length (q key at val n) < n

-- The types whose body is only scanned: all but MEDIA_SET, EDIT_NOTE, SHARE and CHAT.
abbrev pub IsScanned : ℕ → Type 0
IsScanned t = (t ≢ 6) × (t ≢ 8) × (t ≢ 13) × (t ≢ 19)

module _ (q : Scanner) (law : IsBounded q) (at : Bytes) where
  scan_user-Fits : (c : ConnectionInfo) → Fits c → Fits (scan_user q at c)
  unfolding scan_user
  scan_user-Fits c f = elim (Bool-cases (length c.user_id == 0)) [
    | inl e ↦
        rw (e, scan_user)
          (record {
            user_id = law (codes "__user") at c.user_id id_size f.user_id;
            s_id = f.s_id;
            r_id = f.r_id;
            comment = f.comment;
            url = f.url;
          })
    | inr e ↦ rw (e, scan_user) f
  ]

  scan_user-kept :
      (c : ConnectionInfo)
      → (c.user_id ≢ [] → (scan_user q at c).user_id ≡ c.user_id)
        × ((scan_user q at c).p_type ≡ c.p_type)
        × ((scan_user q at c).url ≡ c.url)
  unfolding scan_user
  scan_user-kept c = elim (Bool-cases (length c.user_id == 0)) [
    | inl e ↦ rw (e, scan_user) (λ n. absurd (n (length_zero c.user_id e)), refl, refl)
    | inr e ↦ rw (e, scan_user) (λ n. refl, refl, refl)
  ]

  comment_body-Fits : (c : ConnectionInfo) → Fits c → Fits (comment_body q at c)
  unfolding comment_body
  comment_body-Fits c f = record {
    user_id = f.user_id;
    s_id = law _ _ _ _ (law _ _ _ _ f.s_id);
    r_id = law _ _ _ _ (law _ _ _ _ (law _ _ _ _ f.r_id));
    comment = law _ _ _ _ (law _ _ _ _ (law _ _ _ _ (law _ _ _ _ f.comment)));
    url = f.url;
  }

  friend_body-Fits : (c : ConnectionInfo) → Fits c → Fits (friend_body q at c)
  unfolding friend_body
  friend_body-Fits c f = record {
    user_id = f.user_id;
    s_id = law _ _ _ _ f.s_id;
    r_id = law _ _ _ _ f.r_id;
    comment = law _ _ _ _ f.comment;
    url = f.url;
  }

  more_comment-Fits :
      (c : ConnectionInfo) (key : Bytes)
      → Fits c
      → Fits (record c { comment = q key at c.comment comment_size })
  more_comment-Fits c key f = record {
    user_id = f.user_id;
    s_id = f.s_id;
    r_id = f.r_id;
    comment = law _ _ _ _ f.comment;
    url = f.url;
  }

  typed_body-Fits :
      (fresh : Bytes) (c : ConnectionInfo)
      → Fits c
      → IsScanned c.p_type
      → (c' : ConnectionInfo) × (typed_body q fresh at c ≡ some c')
        × Fits c'
        × (c'.user_id ≡ c.user_id)
        × (c'.p_type ≡ c.p_type)
        × (c'.url ≡ c.url)
  unfolding typed_body comment_body friend_body
  typed_body-Fits fresh c f (no_set, no_note, no_share, no_chat) =
      let set : (c.p_type == 6) ≡ false = ground (arith, no_set) in
      let note : (c.p_type == 8) ≡ false = ground (arith, no_note) in
      let share : (c.p_type == 13) ≡ false = ground (arith, no_share) in
      let chat : (c.p_type == 19) ≡ false = ground (arith, no_chat) in
      elim (Bool-cases (c.p_type == 4)) [
        | inl e ↦
            (comment_body q at c, rw (e, typed_body) refl, comment_body-Fits c f, refl, refl, refl)
        | inr e ↦ elim (Bool-cases (c.p_type == 7)) [
          | inl g ↦ (
            friend_body q at c,
            rw (e, g, typed_body) refl,
            friend_body-Fits c f,
            refl,
            refl,
            refl,
          )
          | inr g ↦ elim (Bool-cases (c.p_type == 2)) [
            | inl h ↦ (
              record c { comment = q (codes "content") at c.comment comment_size },
              rw (e, g, note, h, typed_body) refl,
              more_comment-Fits c (codes "content") f,
              refl,
              refl,
              refl,
            )
            | inr h ↦ elim (Bool-cases (c.p_type == 9)) [
              | inl k ↦ (
                record c { comment = q (codes "title") at c.comment comment_size },
                rw (e, g, note, h, set, k, typed_body) refl,
                more_comment-Fits c (codes "title") f,
                refl,
                refl,
                refl,
              )
              | inr k ↦
                  (c, rw (e, g, note, h, set, k, chat, share, typed_body) refl, f, refl, refl, refl)
            ]
          ]
        ]
      ]

-- Let qs_scanvalue leave a string that fits into the array it is given, whenever one was there
-- before, and let the fields of `c_info` fit. For every page but MEDIA_SET, EDIT_NOTE, SHARE and CHAT
-- `on_body` returns, the fields fit again, and the type, the URL and a user who is known are kept.
pub on_body-Fits :
    (q : Scanner)
    → IsBounded q
    → (fresh : Bytes) (r : HttpRequest) (at : Bytes) (len : ℕ) → Fits r.c_info
    → IsScanned r.c_info.p_type
    → (r' : HttpRequest) × (on_body q fresh r at len ≡ some r')
      × Fits r'.c_info
      × (r.c_info.user_id ≢ [] → r'.c_info.user_id ≡ r.c_info.user_id)
      × (r'.c_info.p_type ≡ r.c_info.p_type)
      × (r'.c_info.url ≡ r.c_info.url)
      × (r'.con_len ≡ len)
unfolding on_body
on_body-Fits q law fresh r at len f scanned =
    let (user, type, url) = scan_user-kept q law at r.c_info in
    let (c, e, fits, same_user, same_type, same_url) =
      typed_body-Fits q law at fresh (scan_user q at r.c_info) (scan_user-Fits q law at r.c_info f)
        (subst IsScanned (sym type) scanned) in
    (
      record r { con_len = len; c_info = c },
      rw (e, on_body) refl,
      fits,
      λ n. same_user ∙ user n,
      same_type ∙ type,
      same_url ∙ url,
      refl,
    )
