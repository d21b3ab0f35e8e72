-- ===== src/HttpFields/Examples.antt =====
-- Runs of the callbacks of http_parse.c, and a witness.
use school_project.Common.{
  ◌≡◌, ◌≤◌, ◌<◌, refl, none, some, [], ◌>>=◌, codes, length, drop, strstr, starts_with, arith,
}
use school_project.Decision.{ConnectionInfo}
use school_project.HttpParse.{host, occurs, page_type}
use school_project.HttpFields.{
  Parsers, HttpRequest, url_size, on_url, on_header_field, on_header_value, url_parse,
}
use school_project.HttpFields.Headers.{Fits, complete_url, Handled, on_header_value-Fits}

abbrev no_info : ConnectionInfo
no_info = record { user_id = []; s_id = []; r_id = []; p_type = 0; url = []; comment = [] }

abbrev no_request : HttpRequest
no_request = record {
  url = [];
  get_test = [];
  http_field_type = 0;
  content_length = 0;
  con_len = 0;
  c_info = no_info;
}

-- The path of a URL that is only a path, and no numbers.
abbrev parsers : Parsers
parsers = record { path_of = λ url. drop 1 url; atoi = λ s. 0 }

note_ids :
    url_parse parsers (codes "/blog/123456789/987654321") no_info
    ≡ some (record no_info { p_type = 3; s_id = codes "123456789"; r_id = codes "987654321" })
unfolding url_parse page_type occurs strstr starts_with
note_ids = refl

-- The copy of nine bytes reads behind the end of the URL.
short_id_faults : url_parse parsers (codes "/blog/12") no_info ≡ none
unfolding url_parse page_type occurs strstr starts_with
short_id_faults = refl

-- The address of the first character behind NULL is computed.
like_without_and_faults : url_parse parsers (codes "/like_1") no_info ≡ none
unfolding url_parse page_type occurs strstr starts_with
like_without_and_faults = refl

url_of_300_faults : on_url parsers no_request (codes "/x") 300 ≡ none
unfolding on_url
url_of_300_faults = refl

cookie_line :
    (on_header_value parsers
        (on_header_field no_request (codes "Cookie: a=b; id=42; c=d"))
        (codes "a=b; id=42; c=d")
        15
      >>= λ r. some r.c_info.user_id)
    ≡ some (codes "42")
unfolding on_header_value on_header_field strstr starts_with
cookie_line = refl

abbrev host_line : HttpRequest
host_line = record no_request { http_field_type = 1; get_test = codes "/home" }

no_info-Fits : Fits no_info
no_info-Fits = record {
  user_id = omega arith;
  s_id = omega arith;
  r_id = omega arith;
  comment = omega arith;
  url = omega arith;
}

on_header_value-Fits_example :
    (host_line.http_field_type ≡ host
      → url_size ≤ length (complete_url host_line (codes "a.com") 5)
      → on_header_value parsers host_line (codes "a.com") 5 ≡ none)
    × ((host_line.http_field_type ≡ host
          → length (complete_url host_line (codes "a.com") 5) < url_size)
        → Handled host_line (on_header_value parsers host_line (codes "a.com") 5))
on_header_value-Fits_example =
    on_header_value-Fits parsers host_line (codes "a.com") 5 no_info-Fits
      (λ e. absurd (omega (arith, e)))
