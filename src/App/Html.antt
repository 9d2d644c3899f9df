-- ===== src/App/Html.antt =====
-- src/app/html_rsp.cpp: the pages.
pub mod Links
pub mod Parents
pub mod Pages
pub mod Tests
use http_file_sharing.Prelude.{
  ℕ, zero, suc, ◌+◌, ◌-◌, ◌*◌, ◌/◌, ◌%◌, ◌^◌, ◌≤◌, ◌<◌, ◌≡◌, refl, sym, ap, ◌∙◌, ◌≢◌, ◌↔◌, ◌⊎◌, inl,
  inr, Bool, true, false, not, ◌&&◌, ◌||◌, Option, none, some, List, [], ◌∷◌, ◌++◌, map,
  append_assoc, append-nil, arith, ltb, leb, ◌==◌, if◌then◌else◌, Bool-cases, Option-cases, ◌>>=◌,
  length, get_or, take, drop, replicate, length-append, length-replicate, length-drop, length-take,
  take_all, drop_all, take-append-drop, take-append_left, drop-append_left, All, All-append, Bytes,
  codes, lit, bytes_eq, bytes_eq_sound, bytes_eq_refl, bytes_eq_sym, bytes_eq_ne, Lacks, is_empty,
  starts_with, decimal, IsDigit, value, decimal_digits, value-decimal,
}
use http_file_sharing.Prelude.Replace.{regex_replace, encode}
use http_file_sharing.App.Options.{ProgOptions}
use http_file_sharing.Filesys.{FsEntry, slash, last_slash, bytes_human_readable}
use http_file_sharing.Http.Request.{HttpRequest, char_lf}

abbrev pub line_end : Bytes
line_end = char_lf ∷ []

-- _make_http_friendly
unfoldable pub make_http_friendly : Bytes → Bytes
make_http_friendly filename = regex_replace filename (codes " ") (codes "%20")

-- __fill_src_addr
pub fill_src_addr : Bytes → Bytes
fill_src_addr src = lit "Your IP address is " ++ (src ++ (lit "<br>" ++ line_end))

-- _get_parent_dir; `none` if it reads outside the path: in front of an empty path, and when the
-- unsigned index runs below 0 because there is no slash.
unfoldable pub get_parent_dir : Bytes → Option Bytes
get_parent_dir [] = none
get_parent_dir (c ∷ s) =
    let path = c ∷ s in
    let searched =
      if get_or path (length path - 1) 0 == slash then length path - 1 else length path in
    last_slash path searched >>= λ max. some (take (max + 1) path)

-- The loop of __get_vector_of_path_nodes.
node_loop : Bytes → List Bytes → Bytes → List Bytes
node_loop temp path_nodes [] = path_nodes
node_loop temp path_nodes (c ∷ s) =
    let cut = node_loop [] (path_nodes ++ temp ∷ []) s in
    let grow = node_loop (temp ++ c ∷ []) path_nodes s in if c == slash then cut else grow

-- __get_vector_of_path_nodes, into an empty vector
unfoldable pub get_vector_of_path_nodes : Bytes → List Bytes
unfolding node_loop
get_vector_of_path_nodes parent = node_loop [] [] (drop 1 parent)

-- One link of _get_back_links.
pub back_link : Bytes → Bytes → Bytes
back_link path it = lit "<a href=\"" ++ (path ++ (lit "\">" ++ (it ++ (lit "/</a>" ++ line_end))))

-- The loop of _get_back_links.
back_loop : Bytes → List Bytes → Bytes
back_loop path [] = []
back_loop path (it ∷ nodes) = back_link (path ++ it) it ++ back_loop (path ++ it ++ codes "/") nodes

-- _get_back_links
unfoldable pub get_back_links : Bytes → Bytes
unfolding back_loop
get_back_links parent =
    lit "<a href=\"/\">Go UP: /</a>"
    ++ (line_end ++ back_loop (codes "/") (get_vector_of_path_nodes parent))

-- The links in front of the names; `none` if it reads in front of an empty URI.
pub link_prefix : Bytes → Option Bytes
link_prefix [] = none
link_prefix (c ∷ s) =
    let uri = c ∷ s in
    some (if get_or uri (length uri - 1) 0 == slash then uri else uri ++ slash ∷ [])

-- What is behind the name of an item.
pub item_suffix : FsEntry → Option Bytes
item_suffix it =
    let size = bytes_human_readable it.file_size >>= λ text. some (lit " (" ++ (text ++ lit ")")) in
    if it.is_dir then some (codes "/") else size

-- One item of the list of _fill_html_body.
pub item_row : Bytes → FsEntry → Option Bytes
unfolding item_suffix
item_row prefix it = item_suffix it >>= λ suffix. some (
    lit "<li><a href=\""
    ++ (prefix
        ++ (make_http_friendly it.name
            ++ (lit "\">" ++ (it.name ++ (suffix ++ (lit "</a> </li>" ++ line_end)))))))

-- The loop of _fill_html_body over the items.
pub item_rows : Bytes → List FsEntry → Option Bytes
unfolding item_row
item_rows prefix [] = some []
item_rows prefix (it ∷ tree) =
    item_row prefix it >>= λ row. item_rows prefix tree >>= λ rows. some (row ++ rows)

-- _fill_html_body; on an empty tree it returns in front of the end of the list.
pub fill_html_body : List FsEntry → Bytes → Option Bytes
unfolding link_prefix item_rows
fill_html_body tree uri = link_prefix uri >>= λ prefix. elim tree [
  | [] ↦
      some
        (lit "<ul style=\"list-style-type:none;\">" ++ (line_end ++ (lit "<br> <br>" ++ line_end)))
  | it ∷ more ↦ item_rows prefix (it ∷ more) >>= λ rows. some (
      lit "<ul style=\"list-style-type:none;\">"
      ++ (line_end ++ (rows ++ (lit "</ul>" ++ line_end))))
]

-- The links to the parents, for any URI but the root.
pub parent_links : Bytes → Option Bytes
parent_links uri =
    let links = get_parent_dir uri >>= λ parent.
    some (if is_empty parent then [] else get_back_links parent) in
    if bytes_eq uri (codes "/") then some [] else links

pub page_head : Bytes → Bytes
page_head title =
    lit "<html>"
    ++ (line_end
        ++ (lit "<head>"
            ++ (line_end
                ++ (lit "<meta http-equiv=\"Content-Type\" content=\"text/html; charset=utf-8\">"
                    ++ (line_end
                        ++ (lit "<title>"
                            ++ (title
                                ++ (lit "</title>"
                                    ++ (line_end ++ (lit "</head>" ++ line_end))))))))))

-- build_rsp_html, which returns HTTP_OK, with what it adds to the buffer
unfoldable pub build_rsp_html : ProgOptions → HttpRequest → List FsEntry → Bytes → Option Bytes
unfolding parent_links fill_html_body page_head fill_src_addr
build_rsp_html opts req tree src = parent_links req.m_uri >>= λ links.
    fill_html_body tree req.m_uri >>= λ body. some (
      page_head opts.server_name
      ++ (lit "<body>"
          ++ (line_end
              ++ (lit "<h1> Directory Structure for "
                  ++ (req.m_uri
                      ++ (lit "</h1>"
                          ++ (line_end
                              ++ (links
                                  ++ (lit "<hr>"
                                      ++ (body
                                          ++ (lit "<hr>"
                                              ++ (line_end
                                                  ++ (fill_src_addr src
                                                      ++ (lit "</body>"
                                                          ++ (line_end
                                                            ++ (lit "</html>"
                                                            ++ line_end))))))))))))))))

-- get_404_page
unfoldable pub get_404_page : HttpRequest → Bytes → Bytes
unfolding page_head fill_src_addr
get_404_page req src =
    page_head (lit "Ashwin Server")
    ++ (lit "<h1> 404 - Not Found </h1>"
        ++ (line_end
            ++ (lit "<hr>Resource "
                ++ (req.m_uri
                    ++ (lit " not found<br>"
                        ++ (line_end
                            ++ (lit "<a href=\"/\"> Home page</a> <br>"
                                ++ (line_end
                                    ++ (lit "<hr>"
                                        ++ (line_end
                                            ++ (fill_src_addr src
                                                ++ (lit "</body>"
                                                    ++ (line_end
                                                        ++ (lit "</html>" ++ line_end))))))))))))))
