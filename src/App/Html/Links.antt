-- ===== src/App/Html/Links.antt =====
-- The links to the parent directories.
use http_file_sharing.Prelude.{
  ◌≡◌, refl, sym, ap, ◌∙◌, ◌≢◌, false, some, List, [], ◌∷◌, ◌++◌, append_assoc, append-nil, arith,
  All, Bytes, codes, lit, bytes_eq, Lacks,
}
use http_file_sharing.Filesys.{slash}
use http_file_sharing.App.Html.{
  line_end, get_parent_dir, node_loop, get_vector_of_path_nodes, back_link, back_loop,
  get_back_links, parent_links,
}
use http_file_sharing.App.Html.Parents.{get_parent_dir_name, get_parent_dir-slash}

-- The path of a directory below the root, with a slash behind each name.
abbrev pub dir_path : List Bytes → Bytes
dir_path [] = []
dir_path (node ∷ nodes) = node ++ slash ∷ dir_path nodes

node_loop-name :
    (node s temp : Bytes) (nodes : List Bytes)
    → Lacks slash node
    → node_loop temp nodes (node ++ slash ∷ s) ≡ node_loop [] (nodes ++ (temp ++ node) ∷ []) s
unfolding node_loop
node_loop-name [] s temp nodes l = ground (arith, append-nil temp)
node_loop-name (c ∷ node) s temp nodes l =
    ground
      (arith, node_loop-name node s (temp ++ c ∷ []) nodes (l.1), append_assoc temp (c ∷ []) node)

node_loop-dir_path :
    (more nodes : List Bytes)
    → All (Lacks slash) more
    → node_loop [] nodes (dir_path more) ≡ nodes ++ more
node_loop-dir_path [] nodes l = unfold node_loop in sym (append-nil nodes)
node_loop-dir_path (node ∷ more) nodes l =
    node_loop-name node (dir_path more) [] nodes (l.0)
    ∙ node_loop-dir_path more (nodes ++ node ∷ []) (l.1)
    ∙ append_assoc nodes (node ∷ []) more

-- The text of the links to the directories on the way to a directory, a line each, from the root down; the first argument is
-- the part of the way that is behind.
abbrev pub ancestor_links : List Bytes → List Bytes → Bytes
ancestor_links before [] = []
ancestor_links before (node ∷ nodes) =
    (lit "<a href=\"/"
      ++ (dir_path before ++ (node ++ (lit "\">" ++ (node ++ (lit "/</a>" ++ 10 ∷ []))))))
    ++ ancestor_links (before ++ node ∷ []) nodes

-- A link as the page writes it.
back_link-ancestor :
    (before node : Bytes)
    → back_link (slash ∷ (before ++ node)) node
      ≡ lit "<a href=\"/" ++ (before ++ (node ++ (lit "\">" ++ (node ++ (lit "/</a>" ++ 10 ∷ [])))))
unfolding back_link lit
back_link-ancestor before node =
    ap (λ t. lit "<a href=\"/" ++ t)
      (append_assoc before node (lit "\">" ++ (node ++ (lit "/</a>" ++ 10 ∷ []))))

dir_path_last :
    (before : List Bytes) (node : Bytes)
    → dir_path (before ++ node ∷ []) ≡ (dir_path before ++ node) ++ slash ∷ []
dir_path_last [] node = refl
dir_path_last (b ∷ before) node =
    ap (λ t. b ++ slash ∷ t) (dir_path_last before node)
    ∙ sym (append_assoc b (slash ∷ (dir_path before ++ node)) (slash ∷ []))
    ∙ ap (λ t. t ++ slash ∷ []) (sym (append_assoc b (slash ∷ dir_path before) node))

back_loop-ancestor_links :
    (before nodes : List Bytes)
    → back_loop (slash ∷ dir_path before) nodes ≡ ancestor_links before nodes
unfolding back_loop
back_loop-ancestor_links before [] = refl
back_loop-ancestor_links before (node ∷ nodes) =
    ap (λ t. t ++ back_loop (slash ∷ ((dir_path before ++ node) ++ slash ∷ [])) nodes)
      (back_link-ancestor (dir_path before) node)
    ∙ ap
        (λ t.
          (lit "<a href=\"/"
            ++ (dir_path before ++ (node ++ (lit "\">" ++ (node ++ (lit "/</a>" ++ 10 ∷ []))))))
          ++ t)
        (ap (λ t. back_loop (slash ∷ t) nodes) (sym (dir_path_last before node))
          ∙ back_loop-ancestor_links (before ++ node ∷ []) nodes)

-- The path of the same directory with a slash in front of each name.
abbrev up : List Bytes → Bytes
up [] = []
up (node ∷ nodes) = slash ∷ (node ++ up nodes)

dir_path-up :
    (nodes : List Bytes) (s : Bytes) → slash ∷ (dir_path nodes ++ s) ≡ up nodes ++ slash ∷ s
dir_path-up [] s = refl
dir_path-up (node ∷ nodes) s =
    ap (λ t. slash ∷ t)
      (append_assoc node (slash ∷ dir_path nodes) s
        ∙ ap (λ t. node ++ t) (dir_path-up nodes s)
        ∙ sym (append_assoc node (up nodes) (slash ∷ s)))

get_back_links-dir_path :
    (nodes : List Bytes)
    → All (Lacks slash) nodes
    → get_back_links (slash ∷ dir_path nodes)
      ≡ lit "<a href=\"/\">Go UP: /</a>" ++ (line_end ++ ancestor_links [] nodes)
unfolding get_back_links get_vector_of_path_nodes
get_back_links-dir_path nodes l =
    ap (λ t. lit "<a href=\"/\">Go UP: /</a>" ++ (line_end ++ t))
      (ap (back_loop (slash ∷ [])) (node_loop-dir_path nodes [] l)
        ∙ back_loop-ancestor_links [] nodes)

parent_links-parent :
    (uri : Bytes) (nodes : List Bytes)
    → All (Lacks slash) nodes
    → bytes_eq uri (codes "/") ≡ false
    → get_parent_dir uri ≡ some (slash ∷ dir_path nodes)
    → parent_links uri
      ≡ some (lit "<a href=\"/\">Go UP: /</a>" ++ (line_end ++ ancestor_links [] nodes))
unfolding parent_links
parent_links-parent uri nodes l other parent =
    rw (other, parent) (ap (λ t. some t) (get_back_links-dir_path nodes l))

not_root :
    (nodes : List Bytes) (s t : Bytes)
    → s ≢ []
    → bytes_eq (slash ∷ (dir_path nodes ++ (s ++ t))) (codes "/") ≡ false
not_root [] [] t ne = absurd (ne refl)
not_root [] (c ∷ s) t ne = refl
not_root ([] ∷ nodes) s t ne = refl
not_root ((c ∷ node) ∷ nodes) s t ne = refl

-- For a URI below the root that spells directory names and a last name, with or without a slash
-- behind it, the links are one to the root and then one to each directory on the way, in order,
-- each on a line of its own, with the whole path of the directory, from the root and without a slash
-- at its end, as its target, and with the name of the directory and a slash as its label.
pub parent_links_lem :
    (nodes : List Bytes) (name : Bytes)
    → All (Lacks slash) nodes
    → Lacks slash name
    → name ≢ []
    → let links = lit "<a href=\"/\">Go UP: /</a>" ++ (10 ∷ [] ++ ancestor_links [] nodes) in
      (parent_links (slash ∷ (dir_path nodes ++ name)) ≡ some links)
      × (parent_links (slash ∷ (dir_path nodes ++ (name ++ slash ∷ []))) ≡ some links)
parent_links_lem nodes name l ln ne =
    let top : some (up nodes ++ slash ∷ []) ≡ some (slash ∷ dir_path nodes) =
      ap (λ t. some t)
        (sym (dir_path-up nodes []) ∙ ap (λ t. slash ∷ t) (append-nil (dir_path nodes))) in
    (
      parent_links-parent (slash ∷ (dir_path nodes ++ name)) nodes l
          (rw (append-nil name) at (not_root nodes name [] ne))
          (ap get_parent_dir (dir_path-up nodes name)
            ∙ get_parent_dir_name (up nodes) name ln ne
            ∙ top),
      parent_links-parent (slash ∷ (dir_path nodes ++ (name ++ slash ∷ []))) nodes l
          (not_root nodes name (slash ∷ []) ne)
          (ap get_parent_dir (
              dir_path-up nodes (name ++ slash ∷ [])
              ∙ sym (append_assoc (up nodes) (slash ∷ name) (slash ∷ [])))
            ∙ get_parent_dir-slash (up nodes) name ln
            ∙ top),
    )
