-- ===== src/Http/Response/Follows.antt =====
-- A file that is sent behind the head of its response.
use http_file_sharing.Prelude.{
  ℕ, ◌≡◌, sym, ap, ◌∙◌, false, some, [], ◌++◌, append_assoc, length, Bytes, lit, Lacks, decimal,
  value,
}
use http_file_sharing.Http.Request.{char_cr}
use http_file_sharing.Http.Response.{HttpResponse, is_unusable, response_text, build_rsp}
use http_file_sharing.Http.Response.BlankLine.{after_blank_line}
use http_file_sharing.Http.Response.Framing.{field_value, build_rsp_framing, build_rsp_text}

-- The file takes the place of the body.
response_text-append :
    (r : HttpResponse) (file : Bytes)
    → response_text (record r { m_body = r.m_body ++ file }) ≡ response_text r ++ file
unfolding response_text
response_text-append r file = simp append_assoc

-- What a client finds in the bytes of a file response: the file behind the empty line, and its
-- length under Content-Length.
abbrev pub Holds : Bytes → ℕ → Bytes → Type 0
Holds received size file =
    (after_blank_line received ≡ some file)
    × (field_value (lit "Content-Length: ") received ≡ some (decimal size))
    × (value 0 (decimal size) ≡ size)
    × (length file ≡ size)

pub response_text-Holds :
    (r : HttpResponse) (file : Bytes)
    → r.m_body ≡ []
    → is_unusable (record r { m_body = file }) ≡ false
    → Lacks char_cr r.m_content_type
    → length file ≡ r.m_len
    → Holds (response_text r ++ file) r.m_len file
response_text-Holds r file none_yet usable plain size =
    let whole = record r { m_body = file } in
    let same : (build_rsp whole []).0 ≡ response_text r ++ file =
      build_rsp_text whole usable
      ∙ ap (λ b. response_text (record r { m_body = b ++ file })) (sym none_yet)
      ∙ response_text-append r file in
    let (body, field, number) = build_rsp_framing whole usable plain in
    (rw same at body, rw same at field, number, size)
