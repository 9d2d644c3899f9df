-- ===== src/Http/Response/BlankLine.antt =====
-- The empty line behind the head of a response.
use http_file_sharing.Prelude.{
  ◌≡◌, refl, ◌∙◌, ◌≢◌, Option, none, some, [], ◌∷◌, ◌++◌, arith, if◌then◌else◌, drop, All, Bytes,
  lit, Lacks, starts_with, decimal, IsDigit, decimal_digits,
}
use http_file_sharing.Http.Request.{char_space, char_cr, crlf}
use http_file_sharing.Http.Status.{
  HttpStatus, http_ok, http_bad_request, http_unsupp_method, http_not_found, http_gen_err,
  to_string,
}
use http_file_sharing.Http.Response.{server_http_ver, server_info, HttpResponse, response_text}

-- What a client does: the text behind the first empty line.
pub after_blank_line : Bytes → Option Bytes
after_blank_line [] = none
after_blank_line (c ∷ s) =
    if starts_with (crlf ++ crlf) (c ∷ s) then some (drop 3 s) else after_blank_line s

-- A header field that has no CR ends at the CR LF behind it.
after_blank_line_text :
    (t s : Bytes) → Lacks char_cr t → after_blank_line (t ++ s) ≡ after_blank_line s
unfolding after_blank_line
after_blank_line_text [] s h = refl
after_blank_line_text (c ∷ t) s h = ground (arith, after_blank_line_text t s (h.1))

-- The text begins with another byte than CR.
abbrev pub OpensLine : Bytes → Type 0
OpensLine [] = ⊥
OpensLine (c ∷ s) = c ≢ char_cr

after_blank_line-crlf :
    (s : Bytes) → OpensLine s → after_blank_line (crlf ++ s) ≡ after_blank_line s
unfolding after_blank_line
after_blank_line-crlf [] h = absurd h
after_blank_line-crlf (c ∷ s) h = ground arith

after_blank_line_found : (s : Bytes) → after_blank_line (crlf ++ crlf ++ s) ≡ some s
unfolding after_blank_line
after_blank_line_found s = refl

pub to_string-Lacks : (s : HttpStatus) → Lacks char_cr (to_string s)
unfolding to_string lit
to_string-Lacks http_ok = omega arith
to_string-Lacks http_bad_request = omega arith
to_string-Lacks http_unsupp_method = omega arith
to_string-Lacks http_not_found = omega arith
to_string-Lacks http_gen_err = omega arith

pub digits-Lacks : (s : Bytes) → All IsDigit s → Lacks char_cr s
digits-Lacks [] h = tt
digits-Lacks (c ∷ s) h = (omega arith, digits-Lacks s (h.1))

ruleset skips = (after_blank_line_text, after_blank_line-crlf, after_blank_line_found)

pub version-Lacks : Lacks char_cr (lit "HTTP/") × Lacks char_cr (lit server_http_ver)
unfolding lit
version-Lacks = omega arith

pub fields-Lacks :
    Lacks char_cr (lit "Server: ")
    × Lacks char_cr (lit server_info)
    × Lacks char_cr (lit "Connection: close")
    × Lacks char_cr (lit "Content-type: ")
    × Lacks char_cr (lit "Content-Length: ")
unfolding lit
fields-Lacks = omega arith

pub fields-OpensLine :
    (s : Bytes)
    → OpensLine (lit "Server: " ++ s)
      × OpensLine (lit "Connection: close" ++ s)
      × OpensLine (lit "Content-type: " ++ s)
      × OpensLine (lit "Content-Length: " ++ s)
unfolding lit
fields-OpensLine s = omega arith

-- One field and its CR LF, in front of a line that is not empty.
after_blank_line_field :
    (t s : Bytes)
    → Lacks char_cr t
    → OpensLine s
    → after_blank_line (t ++ (crlf ++ s)) ≡ after_blank_line s
after_blank_line_field t s h o = after_blank_line_text t (crlf ++ s) h ∙ after_blank_line-crlf s o

after_blank_line_length :
    (r : HttpResponse)
    → after_blank_line (lit "Content-Length: " ++ (decimal r.m_len ++ (crlf ++ (crlf ++ r.m_body))))
      ≡ some r.m_body
after_blank_line_length r =
    after_blank_line_text (lit "Content-Length: ") _ (fields-Lacks.4)
    ∙ after_blank_line_text (decimal r.m_len) _ (digits-Lacks _ (decimal_digits r.m_len))
    ∙ after_blank_line_found r.m_body

pub framing_blank_line :
    (r : HttpResponse)
    → Lacks char_cr r.m_content_type
    → after_blank_line (response_text r) ≡ some r.m_body
unfolding response_text
framing_blank_line r h =
    after_blank_line_text (lit "HTTP/") _ (version-Lacks.0)
    ∙ after_blank_line_text (lit server_http_ver) _ (version-Lacks.1)
    ∙ after_blank_line_text (char_space ∷ []) _ (omega arith)
    ∙ after_blank_line_field (to_string r.m_status) _ (to_string-Lacks r.m_status)
        ((fields-OpensLine _).0)
    ∙ after_blank_line_text (lit "Server: ") _ (fields-Lacks.0)
    ∙ after_blank_line_field (lit server_info) _ (fields-Lacks.1) ((fields-OpensLine _).1)
    ∙ after_blank_line_field (lit "Connection: close") _ (fields-Lacks.2) ((fields-OpensLine _).2)
    ∙ after_blank_line_text (lit "Content-type: ") _ (fields-Lacks.3)
    ∙ after_blank_line_field r.m_content_type _ h ((fields-OpensLine _).3)
    ∙ after_blank_line_length r
