-- ===== src/App/File/Paths.antt =====
-- The file that is tested for is the file that is served.
use http_file_sharing.Prelude.{
  ℕ, ◌≡◌, refl, sym, ap, ◌∙◌, ◌⊎◌, inl, inr, Option, none, some, ◌∷◌, ◌++◌, if◌then◌else◌,
  Option-cases, Bytes, codes,
}
use http_file_sharing.Prelude.Replace.{
  decode, decode_other, NoEscape, encode, decode-encode, decode-slash,
}
use http_file_sharing.App.Options.{ProgOptions}
use http_file_sharing.Filesys.{FileSystem, is_file, cook_path}
use http_file_sharing.Http.Request.{HttpRequest}
use http_file_sharing.Http.Response.{HttpResponse}
use http_file_sharing.Http.Status.{http_ok, http_not_found}
use http_file_sharing.App.File.{clean_filename, check_if_file, get_file, is_text_file}

clean-decode : (s : Bytes) → clean_filename s ≡ decode s
unfolding clean_filename
clean-decode s = refl

clean_slash : (s : Bytes) → clean_filename (b'/' ∷ s) ≡ b'/' ∷ clean_filename s
clean_slash s =
    clean-decode (b'/' ∷ s) ∙ decode_other b'/' s refl ∙ ap (λ t. b'/' ∷ t) (sym (clean-decode s))

-- What get_file makes of the response when stat succeeds.
abbrev pub serving : HttpResponse → Bytes → ℕ → HttpResponse
serving rsp name size = record rsp {
  m_rsp_filename = name;
  m_len = size;
  m_content_type =
      if is_text_file name then codes "text/plain" else codes "application/octet-stream";
}

pub get_file_found :
    (fs : FileSystem) (rsp : HttpResponse) (req : HttpRequest) (path : Bytes) (o : Option ℕ)
    → req.m_uri ≡ b'/' ∷ path
    → fs.stat (clean_filename path) ≡ o
    → get_file fs rsp req ≡ elim o [
      | none ↦ (rsp, http_not_found)
      | some size ↦ (serving rsp (clean_filename path) size, http_ok)
    ]
unfolding get_file
get_file_found fs rsp req path none e h = rw (e, get_file, h)
get_file_found fs rsp req path (some size) e h = rw (e, get_file, h, e)

-- For a URI that begins with a slash, check_if_file asks whether a path below the served directory
-- is a regular file, and get_file asks stat for the same relative path. If stat fails it reports
-- HTTP_NOT_FOUND and leaves the response as it was, and else the response names that file, with the
-- length that stat reports and the content type of its name.
pub get_file_same :
    (opts : ProgOptions) (fs : FileSystem) (rsp : HttpResponse) (req : HttpRequest) (path : Bytes)
    → req.m_uri ≡ b'/' ∷ path
    → let name = clean_filename path in
      (check_if_file opts fs req.m_uri ≡ fs.is_regular_file (opts.dir ++ b'/' ∷ name))
      × (((fs.stat name ≡ none) × (get_file fs rsp req ≡ (rsp, http_not_found)))
          ⊎ ((size : ℕ) × (fs.stat name ≡ some size)
              × (get_file fs rsp req ≡ (serving rsp name size, http_ok))))
unfolding check_if_file is_file cook_path
get_file_same opts fs rsp req path e =
    let name = clean_filename path in
    (
      ap (λ t. fs.is_regular_file (opts.dir ++ clean_filename t)) e
          ∙ ap (λ t. fs.is_regular_file (opts.dir ++ t)) (clean_slash path),
      elim (Option-cases (fs.stat name)) [
        | inl h ↦ inl (h, get_file_found fs rsp req path none e h)
        | inr (size, h) ↦ inr (size, h, get_file_found fs rsp req path (some size) e h)
      ],
    )

-- The link that a page makes for a name in a directory whose path holds no escape, when it is
-- requested, is tested as the file of that name in that directory; the name may hold spaces, but
-- no "%20".
pub check_if_file_link :
    (opts : ProgOptions) (fs : FileSystem) (dir name : Bytes)
    → NoEscape dir
    → NoEscape name
    → check_if_file opts fs (dir ++ b'/' ∷ encode name)
      ≡ fs.is_regular_file (opts.dir ++ (dir ++ b'/' ∷ name))
unfolding check_if_file
check_if_file_link opts fs dir name hd hn =
    ap (λ t. fs.is_regular_file (opts.dir ++ t))
      (clean-decode (dir ++ b'/' ∷ encode name)
        ∙ decode-slash dir (encode name) hd
        ∙ ap (λ t. dir ++ b'/' ∷ t) (decode-encode name hn))
