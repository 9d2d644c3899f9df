-- ===== src/App/Server/Quiet/Tests.antt =====
-- A server with two workers and one client finishes its work.
use http_file_sharing.Prelude.{ℕ, ◌<◌, refl, inl, inr, List, [], arith, Option-cases, length, Bytes}
use http_file_sharing.Prelude.Int.{pos, ◌+ℤ◌, ltb_ℤ}
use http_file_sharing.Prelude.Dict.{find, emplace, assign}
use http_file_sharing.Tcp.Server.{TcpConnection, get_src_addr}
use http_file_sharing.Filesys.Tests.{small_dir, executable}
use http_file_sharing.App.Options.{default_options}
use http_file_sharing.App.Blacklist.{StatsList, credit, map_written, update_ip_addr_stats}
use http_file_sharing.App.Blacklist.Tests.{row_list, row_list-IsStats}
use http_file_sharing.App.Server.{ServerReach}
use http_file_sharing.App.Process.Ends.{reply_text}
use http_file_sharing.App.Server.Drain.{AllReturn}
use http_file_sharing.App.Server.Files.Tests.{
  input_net, input_net-IsNet, socket-IsSocket, Serving, listener, start, began, one_client,
  to_one_client,
}
use http_file_sharing.App.Server.Quiet.{all_return, IsQuiet, server_finishes}
use http_file_sharing.App.Server.Replies.{TakesScores}
use http_file_sharing.App.Server.Replies.Tests.{small_dir-IsServable, request, rooted, enough}

takes_all : (ip : Bytes) (stats db : StatsList) → TakesScores row_list default_options ip stats db
unfolding update_ip_addr_stats
takes_all ip stats db good = elim (Option-cases (find ip stats)) [
  | inl e ↦ (
    ltb_ℤ default_options.blacklist_threshold (credit good),
    map_written ip good stats,
    emplace ip (credit good) db,
    rw (e, update_ip_addr_stats) refl,
  )
  | inr (score, e) ↦ (
    ltb_ℤ default_options.blacklist_threshold (score +ℤ credit good),
    map_written ip good stats,
    assign ip (score +ℤ credit good) db,
    rw (e, update_ip_addr_stats) refl,
  )
]

enough_for :
    (c : TcpConnection) (sock : List ℕ × Bytes)
    → length (
        reply_text default_options small_dir executable
          ((input_net request).recv c.m_fd sock).0
          (get_src_addr (input_net request) c))
      < 2000
unfolding get_src_addr
enough_for c sock = enough

all_handlers_return :
    AllReturn (input_net request) row_list default_options small_dir executable 2000 listener
all_handlers_return =
    all_return (input_net request) row_list default_options small_dir executable 2000 listener
      small_dir-IsServable (socket-IsSocket request) takes_all (λ fd sock. rooted) enough_for

server_finishes_example :
    (s' : Serving request) × ServerReach
      (input_net request)
      row_list
      default_options
      small_dir
      executable
      2000
      listener
      (one_client request)
      s'
    × IsQuiet
        (input_net request)
        row_list
        default_options
        small_dir
        executable
        2000
        (start request)
        s'
server_finishes_example =
    server_finishes (input_net request) row_list default_options small_dir executable 2000
      (input_net-IsNet request) row_list-IsStats (pos 8080) (pos 5) 2 [] [] ([], []) listener
      (λ ip. refl) (began request) (to_one_client request) (omega arith) all_handlers_return
