-- ===== src/HttpBody/Examples.antt =====
-- Runs of `on_body`, and a witness.
use school_project.Common.{
  ◌≡◌, ◌≢◌, refl, none, some, [], ◌>>=◌, ltb, if◌then◌else◌, codes, length, strstr, starts_with,
  arith, Bool-cases, inl, inr,
}
use school_project.Decision.{ConnectionInfo}
use school_project.HttpFields.{HttpRequest}
use school_project.HttpFields.Headers.{Fits}
use school_project.HttpBody.{Scanner, chat_body, share_comment, share_id, on_body}
use school_project.HttpBody.Fields.{IsBounded, on_body-Fits}

-- A scanner that takes a short body as the value of every key.
abbrev whole : Scanner
whole key at val n = if ltb (length at) n then at else val

whole_lem : IsBounded whole
whole_lem key at val n h = elim (Bool-cases (ltb (length at) n)) [
  | inl e ↦ rw e (ground arith)
  | inr e ↦ rw e h
]

abbrev info : ConnectionInfo
info = record { user_id = codes "42"; s_id = []; r_id = []; p_type = 2; url = []; comment = [] }

abbrev status : HttpRequest
status = record {
  url = [];
  get_test = [];
  http_field_type = 0;
  content_length = 0;
  con_len = 0;
  c_info = info;
}

status_text :
    (on_body whole [] status (codes "hello") 5 >>= λ r. some r.c_info.comment)
    ≡ some (codes "hello")
unfolding on_body
status_text = refl

chat_noted :
    chat_body whole (codes "<font>hi</font> to=\"7@x") info
    ≡ some (record info { comment = codes "hi"; s_id = codes "7" })
unfolding chat_body strstr starts_with
chat_noted = refl

-- The fourth character from the end of the body is read.
chat_faults : chat_body whole (codes "to=") info ≡ none
unfolding chat_body strstr starts_with
chat_faults = refl

share_noted :
    (share_comment (codes "{\"body\":\"hi\",\"id\":12,\"owner\"}") info >>= λ c.
    some (share_id (codes "{\"body\":\"hi\",\"id\":12,\"owner\"}") c))
    ≡ some (record info { comment = codes "hi"; r_id = codes "12" })
unfolding share_comment share_id strstr starts_with
share_noted = refl

info-Fits : Fits info
info-Fits = record {
  user_id = omega arith;
  s_id = omega arith;
  r_id = omega arith;
  comment = omega arith;
  url = omega arith;
}

on_body-Fits_example :
    (r' : HttpRequest) × (on_body whole [] status (codes "hello") 5 ≡ some r')
    × Fits r'.c_info
    × (info.user_id ≢ [] → r'.c_info.user_id ≡ info.user_id)
    × (r'.c_info.p_type ≡ info.p_type)
    × (r'.c_info.url ≡ info.url)
    × (r'.con_len ≡ 5)
on_body-Fits_example = on_body-Fits whole whole_lem [] status (codes "hello") 5 info-Fits (
  λ e. absurd (omega (arith, e)),
  λ e. absurd (omega (arith, e)),
  λ e. absurd (omega (arith, e)),
  λ e. absurd (omega (arith, e)),
)
