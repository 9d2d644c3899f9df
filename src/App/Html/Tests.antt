-- ===== src/App/Html/Tests.antt =====
-- Pages and links of a few directories.
use http_file_sharing.Prelude.{◌≡◌, false, some, [], ◌∷◌, ◌++◌, arith, codes, lit}
use http_file_sharing.Filesys.{FsEntry}
use http_file_sharing.Http.Request.{HttpRequest, new_request}
use http_file_sharing.App.Html.{line_end, parent_links}
use http_file_sharing.App.Html.Links.{ancestor_links, parent_links_lem}

parent_links_lem_example :
    let links =
      lit "<a href=\"/\">Go UP: /</a>"
      ++ (line_end ++ ancestor_links [] (codes "a" ∷ codes "b" ∷ [])) in
    (parent_links (codes "/a/b/c") ≡ some links) × (parent_links (codes "/a/b/c/") ≡ some links)
parent_links_lem_example =
    parent_links_lem (codes "a" ∷ codes "b" ∷ []) (codes "c") (omega arith) (omega arith) (λ e. cc)

abbrev song : FsEntry
song = record { is_dir = false; name = codes "song.mp3"; file_size = 5000000 }

abbrev asked : HttpRequest
asked = record new_request { m_method = codes "GET"; m_uri = codes "/music" }

abbrev lost : HttpRequest
lost = record new_request { m_method = codes "GET"; m_uri = codes "music" }
