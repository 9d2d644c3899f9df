-- ===== src/App/Process/Tests.antt =====
-- Requests to a server of a small directory, over a socket that takes a few bytes at a time.
use http_file_sharing.Prelude.{
  ◌<◌, ◌≡◌, refl, ◌≢◌, ◌⊎◌, true, false, some, List, [], ◌∷◌, ◌++◌, arith, length, Bytes, codes,
  lit, decimal,
}
use http_file_sharing.Prelude.Replace.{regex_replace, rfind}
use http_file_sharing.Prelude.Int.{pos}
use http_file_sharing.Prelude.Dict.{find, emplace}
use http_file_sharing.Tcp.Connection.Tests.{slow_socket, slow_socket-IsSocket}
use http_file_sharing.App.Options.{default_options}
use http_file_sharing.Filesys.{FileSystem, FsEntry, listed, not_listed, get_file_listing}
use http_file_sharing.Filesys.Tests.{small_dir, executable}
use http_file_sharing.Http
use http_file_sharing.Http.Status.{http_ok, http_unsupp_method, http_not_found}
use http_file_sharing.Http.Request.{HttpRequest, new_request}
use http_file_sharing.Http.Request.RoundTrip.{request_lines}
use http_file_sharing.Http.Response.{HttpResponse, response_text}
use http_file_sharing.Tcp.Connection.Buffer.{HasFailed}
use http_file_sharing.Http.Response.Follows.{Holds}
use http_file_sharing.App.Process.Download.{handle_connection_download}
use http_file_sharing.Http.Receive.Lines.{flatten}
use http_file_sharing.App.File.{clean_filename, check_if_file, is_text_file}
use http_file_sharing.App.Html.{build_rsp_html}
use http_file_sharing.App.Html.Pages.{build_rsp_html-some}
use http_file_sharing.App.Blacklist.{update_ip_addr_stats, done}
use http_file_sharing.App.Blacklist.Tests.{row_list}
use http_file_sharing.App.Process.{undefined_behaviour, handled, handle_connection}
use http_file_sharing.App.Process.Get.{file_response}
use http_file_sharing.App.Process.Scenarios.{handle_connection_no_slash}

abbrev pub client : Bytes
client = codes "10.0.0.1"

abbrev request_of : Bytes → HttpRequest
request_of uri = record new_request { m_method = codes "GET"; m_uri = uri }

cleaned : clean_filename (codes "my%20file.txt") ≡ codes "my file.txt"
unfolding clean_filename regex_replace
cleaned = refl

abbrev pub file_path : Bytes
file_path = codes "my%20file.txt"

pub file_regular : small_dir.is_regular_file (codes "." ++ b'/' ∷ clean_filename file_path) ≡ true
file_regular = rw cleaned

pub file_size : small_dir.stat (clean_filename file_path) ≡ some 5
file_size = rw cleaned

abbrev root : HttpRequest
root = request_of (codes "/")

abbrev rows : List FsEntry
rows =
    record { is_dir = false; name = codes "my file.txt"; file_size = 5 }
    ∷ record { is_dir = true; name = codes "music"; file_size = 0 }
    ∷ []

made : (page : Bytes) × (build_rsp_html default_options root rows client ≡ some page)
made = build_rsp_html-some default_options root rows client [] refl (omega arith)

root_file : check_if_file default_options small_dir (codes "/") ≡ false
unfolding check_if_file regex_replace
root_file = refl

root_rows : get_file_listing default_options small_dir executable (codes "/") ≡ some (listed rows)
unfolding get_file_listing
root_rows = refl

pub gone_file : check_if_file default_options small_dir (codes "/gone") ≡ false
unfolding check_if_file regex_replace
gone_file = refl

pub gone_rows :
    get_file_listing default_options small_dir executable (codes "/gone") ≡ some not_listed
unfolding get_file_listing
gone_rows = refl

-- A directory without entries.
abbrev empty_dir : FileSystem
empty_dir = record small_dir { directory_iterator = λ path. some [] }

-- The URI of "GET" with nothing behind it is empty; it stands for the served directory itself.
empty_file : check_if_file default_options empty_dir [] ≡ false
unfolding check_if_file regex_replace
empty_file = refl

empty_rows : get_file_listing default_options empty_dir executable [] ≡ some (listed [])
unfolding get_file_listing
empty_rows = refl

abbrev pub lines : List Bytes
lines = request_lines (codes "GET") (b'/' ∷ file_path) (codes "HTTP/1.1\r\n") [] []

abbrev pub reply : HttpResponse
reply = file_response (clean_filename file_path) 5

pub reply-length : length (response_text reply) < 200
unfolding response_text lit decimal clean_filename regex_replace Http.Status.to_string is_text_file
    rfind
reply-length = omega arith

pub file_opened : small_dir.fopen (clean_filename file_path) ≡ some (codes "hello")
file_opened = rw cleaned

pub file_named : clean_filename file_path ≢ []
file_named = rw cleaned (λ e. cc)

abbrev empty_uri : List Bytes
empty_uri = request_lines (codes "GET") [] (codes "HTTP/1.1\r\n") [] []

handle_connection_no_slash_example :
    handle_connection slow_socket row_list default_options empty_dir executable 200
      (some (flatten empty_uri))
      client
      []
      []
      []
    ≡ undefined_behaviour
handle_connection_no_slash_example =
    handle_connection_no_slash slow_socket row_list default_options empty_dir executable 200 client
      [] [] [] [] (codes "HTTP/1.1\r\n") [] [] (omega arith) (omega arith) (omega arith) tt
      (omega arith) (omega arith) empty_file empty_rows

-- The sender's first request was a good one.
one_good_score :
    update_ip_addr_stats row_list default_options.blacklist_threshold client true [] []
    ≡ done (true, (client, pos 1) ∷ [], (client, pos 1) ∷ [])
unfolding update_ip_addr_stats find emplace
one_good_score = refl

handle_connection_download_example :
    (s' : Bytes) × (handle_connection slow_socket row_list default_options small_dir executable 200
        (some (flatten lines))
        client
        []
        []
        []
      ≡ handled true s' ((client, pos 1) ∷ []) ((client, pos 1) ∷ []))
    × (Holds s' 5 (codes "hello") ⊎ HasFailed slow_socket s')
handle_connection_download_example =
    handle_connection_download slow_socket row_list default_options small_dir executable 200 client
      [] [] [] file_path (codes "HTTP/1.1\r\n") [] 5 (codes "hello") true ((client, pos 1) ∷ [])
      ((client, pos 1) ∷ []) slow_socket-IsSocket refl (omega arith) (omega arith) tt (omega arith)
      (omega arith) file_regular file_size file_opened file_named (omega arith) reply-length
      (omega arith) one_good_score
