-- ===== src/App/Process/Get.antt =====
-- Which response a request gets.
use http_file_sharing.Prelude.{
  ℕ, ◌≡◌, refl, ap, ◌∙◌, ◌≢◌, ◌⊎◌, inl, inr, Bool, true, false, none, some, List, [], ◌∷◌, ◌++◌,
  arith, Bool-cases, length, Bytes, codes, lit, bytes_eq_ne, Lacks,
}
use http_file_sharing.App.Options.{ProgOptions}
use http_file_sharing.Filesys.{
  FileSystem, FsEntry, Listed, listed, not_listed, get_file_listing, cook_path,
}
use http_file_sharing.Http.Status.{HttpStatus, http_ok, http_unsupp_method, http_not_found}
use http_file_sharing.Http.Request.{HttpRequest}
use http_file_sharing.Http.Response.{HttpResponse, new_response, set_body}
use http_file_sharing.App.File.{clean_filename, check_if_file}
use http_file_sharing.App.File.Paths.{serving, get_file_same, get_file_found}
use http_file_sharing.App.Html.{build_rsp_html, get_404_page}
use http_file_sharing.App.Html.Pages.{build_rsp_html-none}
use http_file_sharing.App.Process.{
  html_type, put_page, get_of_file, get_of_listing, process_get_request, unsupported, answer,
}

-- The response object that process_request begins with.
abbrev pub plain_response : HttpResponse
plain_response = record new_response { m_content_type = codes "text/plain" }

abbrev pub IsGet : HttpRequest → Type 0
IsGet req = req.m_method ≡ codes "GET"

-- The response for a file.
abbrev pub file_response : Bytes → ℕ → HttpResponse
file_response name size = record (serving plain_response name size) { m_status = http_ok }

-- A response with a page of HTML.
abbrev pub page_response : HttpStatus → Bytes → HttpResponse
page_response status page = record new_response {
  m_status = status;
  m_len = length page;
  m_content_type = html_type;
  m_body = page;
}

pub answer-get :
    (opts : ProgOptions) (fs : FileSystem) (exe : Bytes) (req : HttpRequest) (src : Bytes)
    → IsGet req
    → answer opts fs exe req src ≡ process_get_request opts fs exe req plain_response src
unfolding answer
answer-get opts fs exe req src g = rw (g, answer)

module _ (opts : ProgOptions) (fs : FileSystem) (exe : Bytes) (req : HttpRequest)
    (src : Bytes) where
  file_test :
      (path : Bytes) (b : Bool)
      → req.m_uri ≡ b'/' ∷ path
      → fs.is_regular_file (opts.dir ++ b'/' ∷ clean_filename path) ≡ b
      → check_if_file opts fs req.m_uri ≡ b
  file_test path b e h = (get_file_same opts fs plain_response req path e).0 ∙ h

  pub process_file :
      check_if_file opts fs req.m_uri ≡ true
      → process_get_request opts fs exe req plain_response src
        ≡ some (get_of_file fs req plain_response src)
  unfolding process_get_request
  process_file c = rw (c, process_get_request)

  file_found :
      (path : Bytes) (size : ℕ)
      → req.m_uri ≡ b'/' ∷ path
      → fs.stat (clean_filename path) ≡ some size
      → get_of_file fs req plain_response src ≡ file_response (clean_filename path) size
  unfolding get_of_file
  file_found path size e found =
      rw (get_file_found fs plain_response req path (some size) e found, get_of_file)

  -- A GET request for a URI whose cleaned path is a regular file below the served directory, and
  -- that stat finds, is answered by that file: its name, its size, 200 OK; no other test is made
  -- of the path.
  pub answer_file :
      (path : Bytes) (size : ℕ)
      → IsGet req
      → req.m_uri ≡ b'/' ∷ path
      → fs.is_regular_file (opts.dir ++ b'/' ∷ clean_filename path) ≡ true
      → fs.stat (clean_filename path) ≡ some size
      → answer opts fs exe req src ≡ some (file_response (clean_filename path) size)
  answer_file path size g e regular found =
      answer-get opts fs exe req src g
      ∙ process_file (file_test path true e regular)
      ∙ ap (λ t. some t) (file_found path size e found)

  pub process_listing :
      (result : Listed)
      → check_if_file opts fs req.m_uri ≡ false
      → get_file_listing opts fs exe req.m_uri ≡ some result
      → process_get_request opts fs exe req plain_response src
        ≡ get_of_listing opts req plain_response src
            (fs.errno_is_enoent (cook_path opts req.m_uri))
            result
  unfolding process_get_request
  process_listing result c h = rw (c, h, process_get_request)

  page_of :
      (status : HttpStatus) (page : Bytes)
      → page ≢ []
      → put_page (record plain_response { m_status = status }) page ≡ page_response status page
  unfolding put_page set_body
  page_of status [] ne = absurd (ne refl)
  page_of status (c ∷ page) ne = refl

  html-ne-nil :
      (tree : List FsEntry) (page : Bytes)
      → build_rsp_html opts req tree src ≡ some page
      → page ≢ []
  unfolding build_rsp_html lit
  html-ne-nil tree page h z = ground arith

  pub not_found-ne-nil : get_404_page req src ≢ []
  unfolding get_404_page lit
  not_found-ne-nil z = cc

  -- A GET request for what is no regular file, when the listing succeeds and its page is made, is
  -- answered by that page with 200 OK.
  pub answer_listed :
      (tree : List FsEntry) (page : Bytes)
      → IsGet req
      → check_if_file opts fs req.m_uri ≡ false
      → get_file_listing opts fs exe req.m_uri ≡ some (listed tree)
      → build_rsp_html opts req tree src ≡ some page
      → answer opts fs exe req src ≡ some (page_response http_ok page)
  unfolding get_of_listing
  answer_listed tree page g c h p =
      answer-get opts fs exe req src g
      ∙ process_listing (listed tree) c h
      ∙ rw p (ap (λ t. some t) (page_of http_ok page (html-ne-nil tree page p)))

  -- A GET request for what is no regular file, when the listing fails, is answered by the 404 page
  -- if errno is ENOENT, and else by a response without a status, which build_rsp refuses.
  pub answer_not_listed :
      IsGet req
      → check_if_file opts fs req.m_uri ≡ false
      → get_file_listing opts fs exe req.m_uri ≡ some not_listed
      → ((fs.errno_is_enoent (cook_path opts req.m_uri) ≡ true)
          × (answer opts fs exe req src
              ≡ some (page_response http_not_found (get_404_page req src))))
        ⊎ ((fs.errno_is_enoent (cook_path opts req.m_uri) ≡ false)
            × (answer opts fs exe req src ≡ some plain_response))
  unfolding get_of_listing
  answer_not_listed g c h =
      let begun = answer-get opts fs exe req src g ∙ process_listing not_listed c h in
      elim (Bool-cases (fs.errno_is_enoent (cook_path opts req.m_uri))) [
        | inl e ↦ inl (
          e,
          begun
              ∙ rw e (
                  ap (λ t. some t)
                    (page_of http_not_found (get_404_page req src) not_found-ne-nil)),
        )
        | inr e ↦ inr (e, begun ∙ rw e refl)
      ]

  -- A GET request for a URI without a slash, the empty one included, that is no regular file, when
  -- the listing succeeds: the answer reads outside the URI.
  pub answer_no_slash :
      (tree : List FsEntry)
      → IsGet req
      → Lacks b'/' req.m_uri
      → check_if_file opts fs req.m_uri ≡ false
      → get_file_listing opts fs exe req.m_uri ≡ some (listed tree)
      → answer opts fs exe req src ≡ none
  unfolding get_of_listing
  answer_no_slash tree g l c h =
      answer-get opts fs exe req src g
      ∙ process_listing (listed tree) c h
      ∙ rw (build_rsp_html-none opts req tree src l)

  -- A request with any other method is answered by 405 and a body of 23 bytes, whatever its URI.
  pub answer_other :
      req.m_method ≢ codes "GET"
      → answer opts fs exe req src
        ≡ some (record plain_response {
          m_status = http_unsupp_method;
          m_len = 23;
          m_body = unsupported;
        })
  unfolding answer set_body
  answer_other ne = rw (bytes_eq_ne req.m_method (codes "GET") ne)
