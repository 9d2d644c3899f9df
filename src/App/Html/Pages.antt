-- ===== src/App/Html/Pages.antt =====
-- When a page is made, and where its links lead.
use http_file_sharing.Prelude.{
  ℕ, suc, ◌-◌, ◌≡◌, refl, ◌≢◌, inl, inr, Bool, true, false, Option, none, some, List, [], ◌∷◌, ◌++◌,
  arith, ◌==◌, if◌then◌else◌, Bool-cases, ◌>>=◌, length, get_or, All, Bytes, codes, lit, bytes_eq,
  Lacks,
}
use http_file_sharing.App.Options.{ProgOptions}
use http_file_sharing.Filesys.{FsEntry, slash, bytes_human_readable}
use http_file_sharing.Filesys.Names.{last_slash-cons}
use http_file_sharing.Filesys.Reads.{IsSize}
use http_file_sharing.Filesys.Size.{bytes_human_readable_lem}
use http_file_sharing.Http.Request.{HttpRequest}
use http_file_sharing.App.Html.{
  get_parent_dir, link_prefix, item_suffix, item_row, item_rows, fill_html_body, parent_links,
  build_rsp_html,
}
use http_file_sharing.App.Html.Parents.{get_parent_dir-none}

-- A value is there.
abbrev pub Is : Option Bytes → Type 0
Is o = (t : Bytes) × (o ≡ some t)

bind_some :
    (o : Option Bytes) (f : Bytes → Option Bytes) → Is o → ((t : Bytes) → Is (f t)) → Is (o >>= f)
bind_some o f (t, e) h = let (u, e') = h t in (u, rw e e')

item_row_some : (prefix : Bytes) (it : FsEntry) → IsSize it → Is (item_row prefix it)
unfolding item_row
item_row_some prefix it h = bind_some (item_suffix it) _ (suffix_some it.is_dir) (λ t. (_, refl))
  where
    suffix_some :
        (dir : Bool)
        → Is (
            if dir
            then some (codes "/")
            else (bytes_human_readable it.file_size >>= λ text.
                some (lit " (" ++ (text ++ lit ")"))))
    suffix_some true = (codes "/", refl)
    suffix_some false =
        let (k, few, e, fits, low, high) = bytes_human_readable_lem it.file_size h in rw e (_, refl)

item_rows_some :
    (prefix : Bytes) (tree : List FsEntry) → All IsSize tree → Is (item_rows prefix tree)
unfolding item_rows
item_rows_some prefix [] h = ([], refl)
item_rows_some prefix (it ∷ tree) h =
    bind_some (item_row prefix it) _ (item_row_some prefix it (h.0)) (λ row.
      bind_some (item_rows prefix tree) _ (item_rows_some prefix tree (h.1)) (λ rows. (_, refl)))

fill_html_body_some :
    (tree : List FsEntry) (uri : Bytes) → uri ≢ [] → All IsSize tree → Is (fill_html_body tree uri)
unfolding fill_html_body link_prefix
fill_html_body_some tree [] ne h = absurd (ne refl)
fill_html_body_some [] (c ∷ uri) ne h = (_, refl)
fill_html_body_some (it ∷ tree) (c ∷ uri) ne h =
    bind_some (item_rows _ (it ∷ tree)) _ (item_rows_some _ (it ∷ tree) h) (λ rows. (_, refl))

get_parent_dir_some : (c : ℕ) (s : Bytes) → Is (get_parent_dir (slash ∷ c ∷ s))
unfolding get_parent_dir
get_parent_dir_some c s =
    elim (Bool-cases (get_or (slash ∷ c ∷ s) (length (slash ∷ c ∷ s) - 1) 0 == slash)) [
      | inl e ↦
          let (max, found) = last_slash-cons (c ∷ s) (length s) in
          let size : length (slash ∷ c ∷ s) - 1 ≡ suc (length s) = omega arith in
          rw (e, size, found) (_, refl)
      | inr e ↦
          let (max, found) = last_slash-cons (c ∷ s) (suc (length s)) in rw (e, found) (_, refl)
    ]

parent_links_some : (s : Bytes) → Is (parent_links (slash ∷ s))
unfolding parent_links
parent_links_some [] = ([], refl)
parent_links_some (c ∷ s) =
    bind_some (get_parent_dir (slash ∷ c ∷ s)) _ (get_parent_dir_some c s) (λ t. (_, refl))

-- For every URI that begins with a slash, and items of 64-bit sizes, the page is made: nothing is
-- read outside a text.
pub build_rsp_html-some :
    (opts : ProgOptions) (req : HttpRequest) (tree : List FsEntry) (src path : Bytes)
    → req.m_uri ≡ slash ∷ path
    → All IsSize tree
    → (page : Bytes) × (build_rsp_html opts req tree src ≡ some page)
unfolding build_rsp_html
build_rsp_html-some opts req tree src path e h = rw e (
    bind_some (parent_links (slash ∷ path)) _ (parent_links_some path) (λ links.
      bind_some (fill_html_body tree (slash ∷ path)) _
        (fill_html_body_some tree (slash ∷ path) (λ n. cc) h) (λ body. (_, refl))))

-- For a URI without a slash, the empty one included, the page is not made: the search for the
-- parent directory reads outside the URI.
pub build_rsp_html-none :
    (opts : ProgOptions) (req : HttpRequest) (tree : List FsEntry) (src : Bytes)
    → Lacks slash req.m_uri
    → build_rsp_html opts req tree src ≡ none
unfolding build_rsp_html parent_links
build_rsp_html-none opts req tree src l =
    let other : bytes_eq req.m_uri (codes "/") ≡ false = no_root req.m_uri l in
    rw (other, get_parent_dir-none req.m_uri l)
  where
    no_root : (s : Bytes) → Lacks slash s → bytes_eq s (codes "/") ≡ false
    no_root [] h = refl
    no_root (c ∷ s) h = ground arith
