-- ===== src/App/Server/Shunned/Tests.antt =====
-- A client with a blacklisted address is dropped.
use http_file_sharing.Prelude.{◌≡◌, refl, true, some, [], ◌∷◌, codes}
use http_file_sharing.Prelude.Int.{pos, negsuc}
use http_file_sharing.Prelude.Dict.{find}
use http_file_sharing.Tcp.Server.{
  http_server, tcp_server, set_up, socket_fd, accept_connection, get_src_addr, destroy_connection,
}
use http_file_sharing.Tpool.{new_tpool}
use http_file_sharing.Filesys.Tests.{small_dir, executable}
use http_file_sharing.App.Options.{default_options}
use http_file_sharing.App.Blacklist.{StatsList, is_ipaddr_blacklisted, get_score_for_ipaddr}
use http_file_sharing.App.Blacklist.Tests.{row_list, row_list-IsStats}
use http_file_sharing.App.Server.{
  accepted, server_begin, loop_step, loop_moves, ServerReach, starts, moves,
}
use http_file_sharing.App.Server.Files.Tests.{input_net, Serving, listener, start, one}
use http_file_sharing.App.Server.Outside.{pending, admitted}
use http_file_sharing.App.Server.Shunned.{blacklisted_for_good}

-- Twenty bad requests.
abbrev pub bad : StatsList
bad = (codes "10.0.0.1", negsuc 19) ∷ []

abbrev pub bad_start : Serving []
bad_start = record (start []) { stats = bad; db = bad }

pub bad_began :
    server_begin
      (input_net [])
      row_list
      default_options
      small_dir
      executable
      2000
      (pos 8080)
      (pos 5)
      2
      bad
      bad
      ([], [])
    ≡ some (listener, bad_start)
unfolding server_begin http_server tcp_server set_up socket_fd new_tpool
bad_began = refl

abbrev bad_client : Serving []
bad_client = record bad_start { sock = (7 ∷ 3 ∷ [], []); loop = accepted one }

-- The connection was closed.
abbrev pub bad_dropped : Serving []
bad_dropped = record bad_start { sock = (3 ∷ [], []) }

pub to_dropped :
    ServerReach
      (input_net [])
      row_list
      default_options
      small_dir
      executable
      2000
      listener
      bad_start
      bad_dropped
unfolding loop_step accept_connection is_ipaddr_blacklisted get_src_addr find destroy_connection
to_dropped =
    moves (moves starts (loop_moves bad_start bad_client refl))
      (loop_moves bad_client bad_dropped refl)

blacklisted_for_good_example :
    (is_ipaddr_blacklisted default_options.blacklist_threshold bad (codes "10.0.0.1") ≡ true)
    × (get_score_for_ipaddr bad (codes "10.0.0.1") ≡ get_score_for_ipaddr bad (codes "10.0.0.1"))
    × (pending (input_net []) (codes "10.0.0.1") bad_dropped.pool ≡ 0)
    × (admitted (input_net []) (codes "10.0.0.1") bad_dropped.pool
        ≡ admitted (input_net []) (codes "10.0.0.1") bad_start.pool)
unfolding is_ipaddr_blacklisted find
blacklisted_for_good_example =
    blacklisted_for_good (input_net []) row_list default_options small_dir executable 2000
      row_list-IsStats (pos 8080) (pos 5) 2 bad bad ([], []) listener (codes "10.0.0.1")
      (λ ip. refl) bad_began starts refl refl refl to_dropped
