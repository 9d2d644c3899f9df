-- ===== src/Http/Response/Framing.antt =====
-- How a client takes a response apart.
use http_file_sharing.Prelude.{
  suc, ◌+◌, ◌<◌, ◌≡◌, refl, ◌∙◌, ◌≢◌, true, false, Option, none, some, [], ◌∷◌, ◌++◌, arith, ◌==◌,
  if◌then◌else◌, length, drop, Bytes, lit, Lacks, starts_with, decimal, value, decimal_digits,
  value-decimal,
}
use http_file_sharing.Http.Request.{char_space, char_cr, crlf}
use http_file_sharing.Http.Status.{HttpStatus, http_gen_err, to_string}
use http_file_sharing.Http.Response.{
  server_http_ver, server_info, HttpResponse, new_response, set_body, is_unusable, response_text,
  build_rsp,
}
use http_file_sharing.Http.Response.BlankLine.{
  after_blank_line, OpensLine, to_string-Lacks, digits-Lacks, version-Lacks, fields-Lacks,
  fields-OpensLine, framing_blank_line,
}

-- The text up to a CR.
pub upto_cr : Bytes → Bytes
upto_cr [] = []
upto_cr (c ∷ s) = let more = c ∷ upto_cr s in if c == char_cr then [] else more

-- What a client does to read a field: the text behind the first line start with that name.
pub field_value : Bytes → Bytes → Option Bytes
field_value name [] = none
field_value name (c ∷ s) =
    if starts_with (crlf ++ name) (c ∷ s)
    then some (upto_cr (drop (length name + 1) s))
    else field_value name s

field_value_text :
    (name t s : Bytes) → Lacks char_cr t → field_value name (t ++ s) ≡ field_value name s
unfolding field_value
field_value_text name [] s h = refl
field_value_text name (c ∷ t) s h = ground (arith, field_value_text name t s (h.1))

field_value_other :
    (name s : Bytes)
    → OpensLine s
    → starts_with name s ≡ false
    → field_value name (crlf ++ s) ≡ field_value name s
unfolding field_value
field_value_other name [] o h = absurd o
field_value_other name (c ∷ s) o h = ground arith

starts_with-append : (name s : Bytes) → starts_with name (name ++ s) ≡ true
starts_with-append [] s = refl
starts_with-append (c ∷ name) s = ground (arith, starts_with-append name s)

drop-append : (name s : Bytes) → drop (length name) (name ++ s) ≡ s
drop-append [] s = refl
drop-append (c ∷ name) s = drop-append name s

upto_cr-append : (t s : Bytes) → Lacks char_cr t → upto_cr (t ++ (crlf ++ s)) ≡ t
unfolding upto_cr
upto_cr-append [] s h = refl
upto_cr-append (c ∷ t) s h = ground (arith, upto_cr-append t s (h.1))

field_value_found :
    (name t s : Bytes)
    → Lacks char_cr t
    → field_value name (crlf ++ (name ++ (t ++ (crlf ++ s)))) ≡ some t
unfolding field_value
field_value_found name t s h =
    let step : length name + 1 ≡ suc (length name) = omega arith in
    rw (
      starts_with-append name (t ++ (crlf ++ s)),
      step,
      drop-append name (t ++ (crlf ++ s)),
      upto_cr-append t s h,
    )

other_fields :
    (s : Bytes)
    → (starts_with (lit "Content-Length: ") (lit "Server: " ++ s) ≡ false)
      × (starts_with (lit "Content-Length: ") (lit "Connection: close" ++ s) ≡ false)
      × (starts_with (lit "Content-Length: ") (lit "Content-type: " ++ s) ≡ false)
unfolding lit
other_fields s = (refl, refl, refl)

framing_length :
    (r : HttpResponse)
    → Lacks char_cr r.m_content_type
    → field_value (lit "Content-Length: ") (response_text r) ≡ some (decimal r.m_len)
unfolding response_text
framing_length r h =
    let name = lit "Content-Length: " in
    field_value_text name (lit "HTTP/") _ (version-Lacks.0)
    ∙ field_value_text name (lit server_http_ver) _ (version-Lacks.1)
    ∙ field_value_text name (char_space ∷ []) _ (omega arith)
    ∙ field_value_text name (to_string r.m_status) _ (to_string-Lacks r.m_status)
    ∙ field_value_other name _ ((fields-OpensLine _).0) ((other_fields _).0)
    ∙ field_value_text name (lit "Server: ") _ (fields-Lacks.0)
    ∙ field_value_text name (lit server_info) _ (fields-Lacks.1)
    ∙ field_value_other name _ ((fields-OpensLine _).1) ((other_fields _).1)
    ∙ field_value_text name (lit "Connection: close") _ (fields-Lacks.2)
    ∙ field_value_other name _ ((fields-OpensLine _).2) ((other_fields _).2)
    ∙ field_value_text name (lit "Content-type: ") _ (fields-Lacks.3)
    ∙ field_value_text name r.m_content_type _ h
    ∙ field_value_found name (decimal r.m_len) (crlf ++ r.m_body)
        (digits-Lacks _ (decimal_digits r.m_len))

-- A response that build_rsp accepts, whose content type holds no CR, is framed so that a client
-- finds the body behind the first empty line, and under Content-Length the decimal numeral of
-- m_len, which reads back as m_len.
pub build_rsp_framing :
    (r : HttpResponse)
    → is_unusable r ≡ false
    → Lacks char_cr r.m_content_type
    → let text = (build_rsp r []).0 in
      (after_blank_line text ≡ some r.m_body)
      × (field_value (lit "Content-Length: ") text ≡ some (decimal r.m_len))
      × (value 0 (decimal r.m_len) ≡ r.m_len)
unfolding build_rsp
build_rsp_framing r u h = rw u (framing_blank_line r h, framing_length r h, value-decimal r.m_len)

set_body_usable :
    (status : HttpStatus) (content_type text : Bytes)
    → status ≢ http_gen_err
    → content_type ≢ []
    → text ≢ []
    → is_unusable
        (set_body (record new_response { m_status = status; m_content_type = content_type }) text)
      ≡ false
unfolding is_unusable set_body
set_body_usable st [] tx s c t = absurd (c refl)
set_body_usable st (a ∷ ct) [] s c t = absurd (t refl)
set_body_usable st (a ∷ ct) (b ∷ tx) s c t = ground arith

-- A response object to which a body is set once, with a status, a content type without CR and a
-- body that is not empty: build_rsp succeeds, the client finds exactly that body behind the first
-- empty line, and the Content-Length that it finds is the length of that body.
pub build_rsp-set_body :
    (status : HttpStatus) (content_type text : Bytes)
    → status ≢ http_gen_err
    → Lacks char_cr content_type
    → content_type ≢ []
    → text ≢ []
    → let r =
        set_body (record new_response { m_status = status; m_content_type = content_type }) text in
      ((build_rsp r []).1 ≡ true)
      × (after_blank_line (build_rsp r []).0 ≡ some text)
      × (field_value (lit "Content-Length: ") (build_rsp r []).0 ≡ some (decimal (length text)))
unfolding set_body
build_rsp-set_body status content_type text s h c t =
    let r =
      set_body (record new_response { m_status = status; m_content_type = content_type }) text in
    let usable : is_unusable r ≡ false = set_body_usable status content_type text s c t in
    let framed = build_rsp_framing r usable h in
    (unfold build_rsp in rw usable refl, framed.0, framed.1)

pub response_text-pos : (r : HttpResponse) → 0 < length (response_text r)
unfolding response_text lit
response_text-pos r = omega arith

pub build_rsp_text :
    (r : HttpResponse) → is_unusable r ≡ false → (build_rsp r []).0 ≡ response_text r
unfolding build_rsp
build_rsp_text r u = rw u
