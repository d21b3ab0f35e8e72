-- ===== src/HttpFields/Headers.antt =====
-- http_parse.c, `on_header_value`: the fields of `c_info` stay within their arrays.
use school_project.Common.{
  ℕ, ◌≤◌, ◌<◌, ◌≡◌, ◌≢◌, refl, true, false, ◌&&◌, Option, none, some, [], ◌∷◌, ◌++◌, ltb, leb, ◌==◌,
  arith, Bytes, codes, length, take, drop, strstr, Bool-cases, Option-cases, inl, inr,
}
use school_project.Acsm.States.{==→eq}
use school_project.Decision.{ConnectionInfo}
use school_project.HttpParse.{host, cookie, content_len, referer}
use school_project.HttpFields.{
  Parsers, HttpRequest, id_size, r_id_size, comment_size, url_size, before_char, if_fits,
  host_value, cookie_value, on_header_value,
}

-- Every field has room for its NUL.
pub record Fits (c : ConnectionInfo) : Type 0 where
  pub user_id : length c.user_id < id_size
  pub s_id : length c.s_id < id_size
  pub r_id : length c.r_id < r_id_size
  pub comment : length c.comment < comment_size
  pub url : length c.url < url_size

-- The user, once it is known, and the rest of what a header does not tell are kept.
pub record IsKept (c c' : ConnectionInfo) : Type 0 where
  pub user : c.user_id ≢ [] → c'.user_id ≡ c.user_id
  pub s_id : c'.s_id ≡ c.s_id
  pub r_id : c'.r_id ≡ c.r_id
  pub p_type : c'.p_type ≡ c.p_type
  pub comment : c'.comment ≡ c.comment

-- What HOST writes: the complete URL.
abbrev pub complete_url : HttpRequest → Bytes → ℕ → Bytes
complete_url r at len = codes "http://" ++ (take len at ++ r.get_test)

IsKept-refl : (c : ConnectionInfo) → IsKept c c
IsKept-refl c = record { user = λ n. refl; s_id = refl; r_id = refl; p_type = refl; comment = refl }

if_fits_lem : (n : ℕ) (s : Bytes) → 0 < n → length (if_fits n s) < n
unfolding if_fits
if_fits_lem n s h = elim (Bool-cases (ltb 0 (length s) && ltb (length s) n)) [
  | inl e ↦ rw e (ground arith)
  | inr e ↦ rw e h
]

pub length_zero : (s : Bytes) → (length s == 0) ≡ true → s ≡ []
length_zero [] e = refl
length_zero (x ∷ s) e = absurd (ground arith)

cookie_value-Fits :
    (c : ConnectionInfo) (at : Bytes)
    → Fits c
    → Fits (cookie_value c at) × IsKept c (cookie_value c at)
unfolding cookie_value
cookie_value-Fits c at f = elim (Bool-cases (length c.user_id == 0)) [
  | inr e ↦ rw (e, cookie_value) (f, IsKept-refl c)
  | inl e ↦ elim (Option-cases (strstr at (codes "; id="))) [
    | inl a ↦ rw (e, a, cookie_value) (f, IsKept-refl c)
    | inr (start, a) ↦ elim (Option-cases (before_char (drop 5 start) b';')) [
      | inl b ↦ rw (e, a, b, cookie_value) (f, IsKept-refl c)
      | inr (u, b) ↦
          rw (e, a, b, cookie_value)
            (
              record {
                user_id = if_fits_lem id_size u (omega arith);
                s_id = f.s_id;
                r_id = f.r_id;
                comment = f.comment;
                url = f.url;
              },
              record {
                user = λ n. absurd (n (length_zero c.user_id e));
                s_id = refl;
                r_id = refl;
                p_type = refl;
                comment = refl;
              },
            )
    ]
  ]
]

host_value-Fits :
    (r : HttpRequest) (at : Bytes) (len : ℕ)
    → Fits r.c_info
    → length (complete_url r at len) < url_size
    → (c : ConnectionInfo) × (host_value r (take len at) ≡ some c) × Fits c × IsKept r.c_info c
unfolding host_value
host_value-Fits r at len f h =
    let e : leb url_size (length (complete_url r at len)) ≡ false = ground arith in
    (
      record r.c_info { url = complete_url r at len },
      rw (e, host_value) refl,
      record { user_id = f.user_id; s_id = f.s_id; r_id = f.r_id; comment = f.comment; url = h },
      record { user = λ n. refl; s_id = refl; r_id = refl; p_type = refl; comment = refl },
    )

-- What `on_header_value` returns: the request with the fields within their arrays.
abbrev pub Handled : HttpRequest → Option HttpRequest → Type 0
Handled r result =
    (r' : HttpRequest) × (result ≡ some r')
    × Fits r'.c_info
    × IsKept r.c_info r'.c_info
    × (r'.http_field_type ≡ r.http_field_type)
    × (r'.get_test ≡ r.get_test)

-- Let the fields of `c_info` fit into their arrays, and let the line not be a Referer of a page whose
-- type is open. For a Host line whose complete URL does not fit, `on_header_value` writes behind its
-- array. In all other cases, every other line included, it returns, the fields fit again, a user who is
-- known is kept, and so are the ids, the type of the page and the comment.
pub on_header_value-Fits :
    (e : Parsers) (r : HttpRequest) (at : Bytes) (len : ℕ)
    → Fits r.c_info
    → (r.http_field_type ≡ referer → r.c_info.p_type ≢ 0)
    → (r.http_field_type ≡ host
        → url_size ≤ length (complete_url r at len)
        → on_header_value e r at len ≡ none)
      × ((r.http_field_type ≡ host → length (complete_url r at len) < url_size)
          → Handled r (on_header_value e r at len))
unfolding on_header_value host_value
on_header_value-Fits e r at len f no_referer = (
  λ h long.
      let x : (r.http_field_type == host) ≡ true = ground (arith, h) in
      let y : leb url_size (length (complete_url r at len)) ≡ true = ground arith in
      rw (x, y, on_header_value) refl,
  λ small. elim (Bool-cases (r.http_field_type == host)) [
    | inl x ↦
        let (c, q, fits, kept) =
          host_value-Fits r at len f (small (==→eq r.http_field_type host x)) in
        (record r { c_info = c }, rw (x, q, on_header_value) refl, fits, kept, refl, refl)
    | inr x ↦ elim (Bool-cases (r.http_field_type == cookie)) [
      | inl y ↦
          let (fits, kept) = cookie_value-Fits r.c_info at f in
          (
            record r { c_info = cookie_value r.c_info at },
            rw (x, y, on_header_value) refl,
            fits,
            kept,
            refl,
            refl,
          )
      | inr y ↦ elim (Bool-cases (r.http_field_type == content_len)) [
        | inl z ↦ (
          record r { content_length = e.atoi at },
          rw (x, y, z, on_header_value) refl,
          f,
          IsKept-refl r.c_info,
          refl,
          refl,
        )
        | inr z ↦
            let w : ((r.http_field_type == referer) && (r.c_info.p_type == 0)) ≡ false =
              elim (Bool-cases (r.http_field_type == referer)) [
                | inl u ↦ ground (arith, no_referer (==→eq r.http_field_type referer u))
                | inr u ↦ rw u refl
              ] in
            (r, rw (x, y, z, w, on_header_value) refl, f, IsKept-refl r.c_info, refl, refl)
      ]
    ]
  ],
)
