-- ===== src/App/Server/Tests.antt =====
-- A server with two workers that takes a connection.
use http_file_sharing.Prelude.{
  Bool, false, List, Bytes, ◌+◌, ◌≤◌, ◌≡◌, refl, arith, some, true, codes, lit, decimal, [], ◌∷◌,
}
use http_file_sharing.Prelude.Int.{pos, negsuc}
use http_file_sharing.Tcp.Server.{
  TcpConnection, get_src_addr, TcpServer, http_server, tcp_server, set_up, socket_fd,
  accept_connection,
}
use http_file_sharing.App.Process.{handled, answer, process_request, handle_connection}
use http_file_sharing.App.Server.Jobs.{handling}
use http_file_sharing.App.Server.Service.{IsServed}
use http_file_sharing.App.Server.Uses.{in_hand, uses}
use http_file_sharing.Http.Receive.{recv_req}
use http_file_sharing.Tcp.Connection.{recv, send_buffer}
use http_file_sharing.Http.Request.{parse}
use http_file_sharing.Http.Send.{send_http_rsp}
use http_file_sharing.Http.Response.{build_rsp, set_body}
use http_file_sharing.Http.Status.{to_string}
use http_file_sharing.Tcp.Server.Tests.{small_net, small_net-IsNet}
use http_file_sharing.Tpool.{unlocked, new_tpool, tpool_max_workers}
use http_file_sharing.Filesys.Tests.{small_dir, executable}
use http_file_sharing.App.Options.{default_options}
use http_file_sharing.App.Blacklist.Tests.{row_list, row_list-IsStats}
use http_file_sharing.App.Server.{
  at_accept, accepted, Running, server_begin, loop_step, loop_moves, ServerReach, starts, moves,
}
use http_file_sharing.App.Server.Descriptors.{IsOwned}
use http_file_sharing.App.Server.Runs.{
  server_connections, server_serves, server_distinct, server_answers,
}
use http_file_sharing.App.Server.Scores.{IsServing}
use http_file_sharing.App.Server.Progress.{job_of, IsQueued, accepted_connection-IsQueued}
use http_file_sharing.App.Server.Scoring.{server_history}
use http_file_sharing.App.Server.Accounts.{requests_of, jobs_from}
use http_file_sharing.App.Blacklist.Score.{count_of, settled, update_all}
use http_file_sharing.App.Blacklist.{
  done, get_score_for_ipaddr, is_ipaddr_blacklisted, update_ip_addr_stats,
}
use http_file_sharing.Prelude.Dict.{find, emplace}

abbrev Small : Type 0
Small = Running small_net row_list default_options small_dir executable 9

abbrev listener : TcpServer
listener = record { m_port = pos 8080; m_fd = pos 3; m_name = [] }

abbrev start : Small
start = record {
  sock = 3 ∷ [];
  loop = at_accept;
  pool = record {
    m_queue = [];
    lock = unlocked;
    m_sem = record { m_val = 0; waiting = 2; asleep = 0 };
    woken = 0;
    active = [];
    added = [];
    taken = [];
  };
  stats = [];
  db = [];
}

began :
    server_begin small_net row_list default_options small_dir executable 9
      (pos 8080)
      (pos 5)
      2
      []
      []
      []
    ≡ some (listener, start)
unfolding server_begin http_server tcp_server set_up socket_fd new_tpool
began = refl

-- One connection, which is accepted and not yet tested.
abbrev one_client : Small
one_client = record start {
  sock = 7 ∷ 3 ∷ [];
  loop = accepted (record { m_fd = 7; m_addr = 1; m_name = [] });
}

to_one_client :
    ServerReach small_net row_list default_options small_dir executable 9 listener start one_client
unfolding loop_step accept_connection
to_one_client = moves starts (loop_moves start one_client refl)

server_connections_example :
    IsOwned small_net small_net-IsNet row_list default_options small_dir executable 9
      (small_net.is_open (3 ∷ []))
      one_client
server_connections_example =
    server_connections small_net row_list default_options small_dir executable 9 small_net-IsNet
      (pos 8080) (pos 5) 2 [] [] [] listener began to_one_client

small_serves :
    (2 ≤ tpool_max_workers)
    × IsServing small_net row_list default_options small_dir executable 9 2 one_client
small_serves =
    server_serves small_net row_list default_options small_dir executable 9 row_list-IsStats
      (pos 8080) (pos 5) 2 [] [] [] listener (λ ip. refl) began to_one_client

abbrev one : TcpConnection
one = record { m_fd = 7; m_addr = 1; m_name = [] }

accepted_connection-IsQueued_example :
    (s' : Small) × IsQueued small_net row_list default_options small_dir executable 9 listener one
      one_client s'
unfolding is_ipaddr_blacklisted find
accepted_connection-IsQueued_example =
    accepted_connection-IsQueued small_net row_list default_options small_dir executable 9 listener
      2 one one_client (small_serves.1.0) (small_serves.1.1) refl refl

-- The request counts as a bad one, although no response can be sent.
bad_request :
    handling small_net row_list default_options small_dir executable 9 (job_of one) one_client
    ≡ handled true
        (7 ∷ 3 ∷ [])
        ((codes "10.0.0.1", negsuc 0) ∷ [])
        ((codes "10.0.0.1", negsuc 0) ∷ [])
unfolding handle_connection recv_req recv process_request parse answer find send_http_rsp
    send_buffer build_rsp set_body lit to_string decimal update_ip_addr_stats emplace get_src_addr
bad_request = refl

-- The client is served.
answered :
    (s' : Small) × IsServed small_net row_list default_options small_dir executable 9 listener one
      one_client
      (7 ∷ 3 ∷ [])
      ((codes "10.0.0.1", negsuc 0) ∷ [])
      ((codes "10.0.0.1", negsuc 0) ∷ [])
      s'
unfolding is_ipaddr_blacklisted find
answered =
    server_answers small_net row_list default_options small_dir executable 9 small_net-IsNet
      row_list-IsStats (pos 8080) (pos 5) 2 [] [] [] listener one true (7 ∷ 3 ∷ [])
      ((codes "10.0.0.1", negsuc 0) ∷ []) ((codes "10.0.0.1", negsuc 0) ∷ []) (λ ip. refl) began
      to_one_client refl refl (omega arith) refl bad_request

server_distinct_example :
    in_hand 7 one_client.loop + uses 7 one_client.pool.m_queue + uses 7 one_client.pool.active ≤ 1
server_distinct_example =
    server_distinct small_net row_list default_options small_dir executable 9 small_net-IsNet
      (pos 8080) (pos 5) 2 [] [] [] listener 7 began to_one_client

afterwards :
    {s s' : Small}
    → ServerReach small_net row_list default_options small_dir executable 9 listener start s
    → ServerReach small_net row_list default_options small_dir executable 9 listener s s'
    → ServerReach small_net row_list default_options small_dir executable 9 listener start s'
afterwards r starts = r
afterwards r (moves t m) = moves (afterwards r t) m

server_history_example :
    let last = answered.0 in
    (history : List (Bytes × Bool)) × (update_all row_list (negsuc 14) history [] []
      ≡ done (last.stats, last.db))
    × ((ip : Bytes)
        → (requests_of ip history ≤ jobs_from small_net ip last.pool.taken)
          × (get_score_for_ipaddr last.stats ip
              ≡ settled
                  (get_score_for_ipaddr [] ip)
                  (count_of ip true history)
                  (count_of ip false history)))
server_history_example =
    server_history small_net row_list default_options small_dir executable 9 row_list-IsStats
      (pos 8080) (pos 5) 2 [] [] [] listener (λ ip. refl) began
      (afterwards to_one_client answered.1.0)
