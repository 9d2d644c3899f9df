-- ===== src/App/Process/Refused/Tests.antt =====
-- Requests that are refused, by a server of a small directory.
use http_file_sharing.Prelude.{
  ◌<◌, ◌≡◌, refl, ◌⊎◌, true, false, none, some, List, [], ◌∷◌, arith, length, Bytes, codes, lit,
  decimal,
}
use http_file_sharing.Prelude.Int.{negsuc}
use http_file_sharing.Prelude.Dict.{find, emplace}
use http_file_sharing.Tcp.Connection.Buffer.{HasSent}
use http_file_sharing.Tcp.Connection.Tests.{slow_socket, slow_socket-IsSocket}
use http_file_sharing.Filesys.{cook_path}
use http_file_sharing.Filesys.Tests.{small_dir, executable}
use http_file_sharing.Http
use http_file_sharing.Http.Status.{http_not_found}
use http_file_sharing.Http.Request.RoundTrip.{request_lines}
use http_file_sharing.Http.Response.{response_text}
use http_file_sharing.Http.Receive.Lines.{flatten}
use http_file_sharing.App.Options.{default_options}
use http_file_sharing.App.Html.{get_404_page}
use http_file_sharing.App.Blacklist.{StatsList, done, update_ip_addr_stats}
use http_file_sharing.App.Blacklist.Tests.{row_list}
use http_file_sharing.App.Process.{handled, handle_connection}
use http_file_sharing.App.Process.Get.{page_response}
use http_file_sharing.App.Process.Refused.{
  refusal, gone_page, handle_connection_read_error, handle_connection_not_listed,
}
use http_file_sharing.App.Process.Tests.{client, gone_file, gone_rows}

-- One bad request.
abbrev one_bad : StatsList
one_bad = (client, negsuc 0) ∷ []

one_bad_score :
    update_ip_addr_stats row_list default_options.blacklist_threshold client false [] []
    ≡ done (true, one_bad, one_bad)
unfolding update_ip_addr_stats find emplace
one_bad_score = refl

refusal-length : length (response_text refusal) < 200
unfolding response_text lit decimal Http.Status.to_string
refusal-length = omega arith

handle_connection_read_error_example :
    (s' : Bytes) × (handle_connection slow_socket row_list default_options small_dir executable 200
        none client [] [] []
      ≡ handled true s' one_bad one_bad)
    × HasSent slow_socket [] (response_text refusal) s'
handle_connection_read_error_example =
    handle_connection_read_error slow_socket row_list default_options small_dir executable 200
      client [] [] [] true one_bad one_bad slow_socket-IsSocket refusal-length one_bad_score

abbrev gone_lines : List Bytes
gone_lines = request_lines (codes "GET") (codes "/gone") (codes "HTTP/1.1\r\n") [] []

abbrev gone_text : Bytes
gone_text = response_text (page_response http_not_found (gone_page (codes "/gone") client))

gone_text-length : length gone_text < 3000
unfolding response_text lit decimal Http.Status.to_string get_404_page
gone_text-length = omega arith

handle_connection_not_listed_example :
    (s' : Bytes) × (handle_connection slow_socket row_list default_options small_dir executable 3000
        (some (flatten gone_lines))
        client
        []
        []
        []
      ≡ handled true s' one_bad one_bad)
    × (((small_dir.errno_is_enoent (cook_path default_options (codes "/gone")) ≡ true)
          × HasSent slow_socket [] gone_text s')
        ⊎ ((small_dir.errno_is_enoent (cook_path default_options (codes "/gone")) ≡ false)
            × (s' ≡ [])))
handle_connection_not_listed_example =
    handle_connection_not_listed slow_socket row_list default_options small_dir executable 3000
      client [] [] [] (codes "/gone") (codes "HTTP/1.1\r\n") [] true one_bad one_bad
      slow_socket-IsSocket (omega arith) (omega arith) tt (omega arith) (omega arith) gone_file
      gone_rows gone_text-length one_bad_score
