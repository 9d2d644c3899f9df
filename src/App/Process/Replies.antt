-- ===== src/App/Process/Replies.antt =====
-- That every request to a server of readable files gets a response that can be sent.
use http_file_sharing.Prelude.{
  ℕ, ◌^◌, ◌≤◌, ◌<◌, ◌≡◌, refl, sym, ◌∙◌, ◌≢◌, ◌⊎◌, inl, inr, Bool, true, false, none, some, List,
  [], ◌∷◌, ◌++◌, arith, Bool-cases, Option-cases, length, All, Bytes, codes, bytes_eq,
  bytes_eq_sound,
}
use http_file_sharing.App.Options.{ProgOptions}
use http_file_sharing.Filesys.{slash, DirEntry, FileSystem, Listed, listed, not_listed, cook_path}
use http_file_sharing.Filesys.Reads.{IsBelow, IsSize, ListedAll, get_file_listing-some}
use http_file_sharing.Http.Status.{http_ok}
use http_file_sharing.Http.Request.{HttpRequest}
use http_file_sharing.Http.Response.{HttpResponse, set_body, is_unusable}
use http_file_sharing.App.File.{clean_filename, check_if_file}
use http_file_sharing.App.File.Paths.{get_file_found, get_file_same}
use http_file_sharing.App.Html.{get_404_page}
use http_file_sharing.App.Html.Pages.{build_rsp_html-some}
use http_file_sharing.App.Process.{put_page, get_of_file, get_of_listing, answer}
use http_file_sharing.App.Process.Get.{
  IsGet, plain_response, file_response, answer-get, answer_file, answer_other, process_file,
  process_listing,
}

-- What the file system is expected to do: the entries of a directory have names below it, sizes fit
-- in 64 bits, there is no file with an empty name, and a regular file of the served directory that
-- stat finds can be opened and is as long as stat says.
pub record IsServable (opts : ProgOptions) (fs : FileSystem) : Type 0 where
  pub names :
      (path : Bytes) (entries : List DirEntry)
      → fs.directory_iterator path ≡ some entries
      → All IsBelow entries
  pub sizes : (path : Bytes) (n : ℕ) → fs.fs_file_size path ≡ some n → n < 2 ^ 64
  pub unnamed : fs.stat [] ≡ none
  pub files :
      (name : Bytes) (size : ℕ)
      → fs.is_regular_file (opts.dir ++ slash ∷ name) ≡ true
      → fs.stat name ≡ some size
      → (content : Bytes) × (fs.fopen name ≡ some content) × (size ≤ length content)

-- A request that does not read outside its URI: a GET request has one that begins with a slash.
abbrev pub IsRooted : HttpRequest → Type 0
IsRooted req = IsGet req → (path : Bytes) × (req.m_uri ≡ slash ∷ path)

-- A response without a file.
abbrev pub IsBody : HttpResponse → Type 0
IsBody rsp = rsp.m_rsp_filename ≡ []

-- A response with a file that can be opened and is as long as the head announces.
abbrev pub IsOpened : FileSystem → HttpResponse → Type 0
IsOpened fs rsp =
    (content : Bytes) × (rsp.m_rsp_filename ≢ [])
    × (is_unusable rsp ≡ false)
    × (fs.fopen rsp.m_rsp_filename ≡ some content)
    × (rsp.m_len ≤ length content)

-- The answer is a response that can be sent.
abbrev pub HasReply : ProgOptions → FileSystem → Bytes → HttpRequest → Bytes → Type 0
HasReply opts fs exe req src =
    (rsp : HttpResponse) × ((answer opts fs exe req src ≡ some rsp)
      × (IsBody rsp ⊎ IsOpened fs rsp))

put_page-IsBody : (rsp : HttpResponse) (page : Bytes) → IsBody rsp → IsBody (put_page rsp page)
unfolding put_page set_body
put_page-IsBody rsp [] h = h
put_page-IsBody rsp (c ∷ page) h = h

pub file_response_usable :
    (name : Bytes) (size : ℕ) → name ≢ [] → is_unusable (file_response name size) ≡ false
unfolding is_unusable
file_response_usable [] size ne = absurd (ne refl)
file_response_usable (c ∷ name) size ne = refl

module _ (opts : ProgOptions) (fs : FileSystem) (exe : Bytes) (req : HttpRequest) (src : Bytes)
    (law : IsServable opts fs) where
  of_listing :
      (path : Bytes) (enoent : Bool) (result : Listed)
      → req.m_uri ≡ slash ∷ path
      → ListedAll IsSize result
      → (rsp : HttpResponse) × (get_of_listing opts req plain_response src enoent result ≡ some rsp)
        × IsBody rsp
  unfolding get_of_listing
  of_listing path true not_listed e h = (_, refl, put_page-IsBody _ (get_404_page req src) refl)
  of_listing path false not_listed e h = (_, refl, refl)
  of_listing path enoent (listed tree) e h =
      let (page, made) = build_rsp_html-some opts req tree src path e h in
      (
        put_page (record plain_response { m_status = http_ok }) page,
        rw made,
        put_page-IsBody _ page refl,
      )

  listing-HasReply :
      (path : Bytes)
      → IsGet req
      → req.m_uri ≡ slash ∷ path
      → check_if_file opts fs req.m_uri ≡ false
      → HasReply opts fs exe req src
  listing-HasReply path g e c =
      let (result, l, sizes) =
        get_file_listing-some fs law.sizes opts exe req.m_uri
          (law.names (cook_path opts req.m_uri)) in
      let (rsp, made, body) =
        of_listing path (fs.errno_is_enoent (cook_path opts req.m_uri)) result e sizes in
      (
        rsp,
        (
          answer-get opts fs exe req src g ∙ process_listing opts fs exe req src result c l ∙ made,
          inl body,
        ),
      )

  missing-IsBody :
      (path : Bytes)
      → req.m_uri ≡ slash ∷ path
      → fs.stat (clean_filename path) ≡ none
      → IsBody (get_of_file fs req plain_response src)
  unfolding get_of_file set_body
  missing-IsBody path e gone =
      rw (get_file_found fs plain_response req path none e gone, get_of_file) refl

  named : (name : Bytes) (size : ℕ) → fs.stat name ≡ some size → name ≢ []
  named [] size found e = cc (law.unnamed, found)
  named (c ∷ name) size found e = cc

  file-HasReply :
      (path : Bytes)
      → IsGet req
      → req.m_uri ≡ slash ∷ path
      → check_if_file opts fs req.m_uri ≡ true
      → HasReply opts fs exe req src
  file-HasReply path g e c =
      let name = clean_filename path in
      let regular : fs.is_regular_file (opts.dir ++ slash ∷ name) ≡ true =
        sym (get_file_same opts fs plain_response req path e).0 ∙ c in
      elim (Option-cases (fs.stat name)) [
        | inl gone ↦ (
          get_of_file fs req plain_response src,
          (
            answer-get opts fs exe req src g ∙ process_file opts fs exe req src c,
            inl (missing-IsBody path e gone),
          ),
        )
        | inr (size, found) ↦
            let (content, opened, long) = law.files name size regular found in
            let ne = named name size found in
            (
              file_response name size,
              (
                answer_file opts fs exe req src path size g e regular found,
                inr (content, ne, file_response_usable name size ne, opened, long),
              ),
            )
      ]

  pub answer-HasReply : IsRooted req → HasReply opts fs exe req src
  answer-HasReply rooted = elim (Bool-cases (bytes_eq req.m_method (codes "GET"))) [
    | inl get ↦
        let g = bytes_eq_sound req.m_method (codes "GET") get in
        let (path, e) = rooted g in
        elim (Bool-cases (check_if_file opts fs req.m_uri)) [
          | inl c ↦ file-HasReply path g e c
          | inr c ↦ listing-HasReply path g e c
        ]
    | inr other ↦ (_, (answer_other opts fs exe req src (λ g. ground arith), inl refl))
  ]
