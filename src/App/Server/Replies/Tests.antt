-- ===== src/App/Server/Replies/Tests.antt =====
-- A server with two workers and one client, who asks for the listing of the served directory.
use http_file_sharing.Prelude.{
  ℕ, ◌≤◌, ◌<◌, ◌≡◌, refl, inl, inr, true, false, some, List, [], ◌∷◌, map, arith, Bool-cases,
  some_inj, none-ne-some, length, All, Bytes, codes, lit, bytes_eq, decimal,
}
use http_file_sharing.Prelude.Int.{pos, negsuc}
use http_file_sharing.Prelude.Dict.{find}
use http_file_sharing.Filesys.{DirEntry, get_file_listing, extract_name_from_path}
use http_file_sharing.Filesys.Listing.{entry_of}
use http_file_sharing.Filesys.Reads.{IsBelow}
use http_file_sharing.Filesys.Tests.{nodes, top, small_dir, executable}
use http_file_sharing.Http.Receive.{recv_req}
use http_file_sharing.Http.Receive.Lines.{flatten}
use http_file_sharing.Http.Request.{parse}
use http_file_sharing.Http.Request.RoundTrip.{request_lines}
use http_file_sharing.App.Options.{default_options}
use http_file_sharing.App.Blacklist.{StatsList, is_ipaddr_blacklisted, update_ip_addr_stats}
use http_file_sharing.App.Blacklist.Tests.{row_list, row_list-IsStats}
use http_file_sharing.Tcp.Server.{get_src_addr}
use http_file_sharing.App.Server.Service.{IsServed}
use http_file_sharing.App.Server.Replies.{TakesScores, Leaves, server_serves_all}
use http_file_sharing.App.Server.Files.Tests.{
  input_net, input_net-IsNet, socket-IsSocket, Serving, listener, began, one, one_client,
  to_one_client,
}
use http_file_sharing.App.Process.Ends.{reply_text, request_read}
use http_file_sharing.App.Process.Replies.{IsServable, IsRooted}
use http_file_sharing.Tcp.Connection.{recv}
use http_file_sharing.Http.Receive.{split_lines}
use http_file_sharing.Http.Request.{parse_http_method, split_line_colon}
use http_file_sharing.Http.Response.{build_rsp, set_body, is_unusable, response_text}
use http_file_sharing.Http
use http_file_sharing.Http.Status
use http_file_sharing.Prelude.Dict.{emplace}
use http_file_sharing.Prelude.Replace.{regex_replace}
use http_file_sharing.Filesys.{
  bytes_human_readable, collect, cook_path, fill_size, get_file_size, get_filesys_structure,
  is_file, last_slash,
}
use http_file_sharing.App.File.{check_if_file, clean_filename}
use http_file_sharing.App.Html.{build_rsp_html, make_http_friendly}
use http_file_sharing.App.Process.{answer, process_get_request}

small_names :
    (path : Bytes) (entries : List DirEntry)
    → small_dir.directory_iterator path ≡ some entries
    → All IsBelow entries
small_names path entries e = elim (Bool-cases (bytes_eq path top)) [
  | inl same ↦
      let read : map (entry_of top) nodes ≡ entries =
        some_inj (map (entry_of top) nodes) entries (rw same at e) in
      rw (← read) (
        (codes ".", (codes ".git", (refl, omega arith))),
        (
          (codes ".", (codes "my file.txt", (refl, omega arith))),
          (
            (codes ".", (codes "server", (refl, omega arith))),
            ((codes ".", (codes "music", (refl, omega arith))), tt),
          ),
        ),
      )
  | inr other ↦ absurd (none-ne-some entries (rw other at e))
]

small_files :
    (name : Bytes) (size : ℕ)
    → small_dir.stat name ≡ some size
    → (content : Bytes) × (small_dir.fopen name ≡ some content) × (size ≤ length content)
small_files name size found = elim (Bool-cases (bytes_eq name (codes "my file.txt"))) [
  | inl same ↦
      let five : 5 ≡ size = some_inj 5 size (rw same at found) in
      (codes "hello", rw same, omega arith)
  | inr other ↦ absurd (none-ne-some size (rw other at found))
]

pub small_dir-IsServable : IsServable default_options small_dir
small_dir-IsServable = record {
  names = small_names;
  sizes = λ path n e. let five = some_inj 5 n e in omega arith;
  unnamed = refl;
  files = λ name size regular found. small_files name size found;
}

abbrev lines : List Bytes
lines = request_lines (codes "GET") (codes "/") (codes "HTTP/1.1\r\n") [] []

abbrev pub request : Bytes
request = flatten lines

takes : TakesScores row_list default_options (codes "10.0.0.1") [] []
unfolding update_ip_addr_stats find emplace
takes true = (true, (codes "10.0.0.1", pos 1) ∷ [], (codes "10.0.0.1", pos 1) ∷ [], refl)
takes false = (true, (codes "10.0.0.1", negsuc 0) ∷ [], (codes "10.0.0.1", negsuc 0) ∷ [], refl)

pub rooted : IsRooted (request_read (some request))
unfolding parse recv_req find recv split_lines parse_http_method
rooted get = ([], refl)

pub enough :
    length (
      reply_text default_options small_dir executable
        (some request)
        (get_src_addr (input_net request) one))
    < 2000
unfolding get_src_addr answer parse find recv_req recv split_lines parse_http_method
    process_get_request check_if_file regex_replace get_file_listing build_rsp_html
    bytes_human_readable build_rsp lit set_body make_http_friendly clean_filename collect cook_path
    extract_name_from_path fill_size get_file_size get_filesys_structure is_file last_slash
    split_line_colon is_unusable response_text Http.Status.to_string emplace decimal
enough = omega arith

server_serves_all_example :
    (sock' : List ℕ × Bytes) × (stats' db' : StatsList) × ((s' : Serving request) × IsServed
        (input_net request)
        row_list
        default_options
        small_dir
        executable
        2000
        listener
        one
        (one_client request)
        sock'
        stats'
        db'
        s')
    × Leaves
        (input_net request)
        row_list
        default_options
        small_dir
        executable
        2000
        one
        (one_client request)
        sock'
        stats'
        db'
unfolding is_ipaddr_blacklisted find get_src_addr
server_serves_all_example =
    server_serves_all (input_net request) row_list default_options small_dir executable 2000
      (input_net-IsNet request) row_list-IsStats (pos 8080) (pos 5) 2 [] [] ([], []) listener one
      small_dir-IsServable (λ ip. refl) (began request) (to_one_client request) refl refl
      (omega arith) refl (socket-IsSocket request 7) takes rooted enough
