-- ===== src/App/Server/Files/Tests.antt =====
-- A server with two workers and one client, who asks for a file.
use http_file_sharing.Prelude.{
  ℕ, ◌≡◌, refl, true, some, List, [], ◌∷◌, ◌++◌, arith, take, Bytes, codes,
}
use http_file_sharing.Prelude.Int.{pos}
use http_file_sharing.Prelude.Dict.{find, emplace}
use http_file_sharing.Tcp.Net.{NetApi, IsNet, socket_on}
use http_file_sharing.Tcp.Api.{IsSocket}
use http_file_sharing.Tcp.Connection.Buffer.{HasSent}
use http_file_sharing.Tcp.Connection.Tests.{slow_socket, slow_socket-IsSocket}
use http_file_sharing.Tcp.Server.{
  TcpConnection, TcpServer, get_src_addr, http_server, tcp_server, set_up, socket_fd,
  accept_connection,
}
use http_file_sharing.Tcp.Server.Tests.{small_net, small_net-IsNet}
use http_file_sharing.Tpool.{unlocked, new_tpool}
use http_file_sharing.Filesys.Tests.{small_dir, executable}
use http_file_sharing.Http.Receive.Lines.{flatten}
use http_file_sharing.Http.Response.{response_text}
use http_file_sharing.App.Options.{default_options}
use http_file_sharing.App.Blacklist.{done, StatsList, is_ipaddr_blacklisted, update_ip_addr_stats}
use http_file_sharing.App.Blacklist.Tests.{row_list, row_list-IsStats}
use http_file_sharing.App.Process.Tests.{
  file_path, lines, reply, file_regular, file_size, file_opened, file_named, reply-length,
}
use http_file_sharing.App.Server.{
  at_accept, accepted, Running, server_begin, loop_step, loop_moves, ServerReach, starts, moves,
}
use http_file_sharing.App.Server.Service.{IsServed}
use http_file_sharing.App.Server.Files.{server_serves_file}

-- The descriptors of `small_net`, and what was sent; each read gives the input.
abbrev pub input_net : Bytes → NetApi
input_net input = record {
  State = List ℕ × Bytes;
  is_open = λ s fd. small_net.is_open (s.0) fd;
  socket = λ s. let r = small_net.socket (s.0) in (r.0, (r.1, s.1));
  setsockopt = λ fd s. let r = small_net.setsockopt fd (s.0) in (r.0, (r.1, s.1));
  bind = λ fd port s. let r = small_net.bind fd port (s.0) in (r.0, (r.1, s.1));
  listen = λ fd backlog s. let r = small_net.listen fd backlog (s.0) in (r.0, (r.1, s.1));
  accept = λ fd s. let r = small_net.accept fd (s.0) in (r.0, (r.1, s.1));
  close = λ fd s. (small_net.close fd (s.0), s.1);
  wire = λ fd s. s.1;
  send = λ fd s buf. let r = slow_socket.send (s.1) buf in (r.0, (s.0, r.1));
  sendfile =
      λ fd s file off count. let r = slow_socket.sendfile (s.1) file off count in (r.0, (s.0, r.1));
  recv = λ fd s. (some input, s);
  inet_ntop = small_net.inet_ntop;
  strerror = λ s. small_net.strerror (s.0);
}

pub input_net-IsNet : (input : Bytes) → IsNet (input_net input)
input_net-IsNet input = record {
  socket_some = λ s. small_net-IsNet.socket_some (s.0);
  socket_none = λ s. small_net-IsNet.socket_none (s.0);
  setsockopt_open = λ fd s. small_net-IsNet.setsockopt_open fd (s.0);
  setsockopt_bad = λ n s. small_net-IsNet.setsockopt_bad n (s.0);
  bind_open = λ fd port s. small_net-IsNet.bind_open fd port (s.0);
  listen_open = λ fd backlog s. small_net-IsNet.listen_open fd backlog (s.0);
  accept_some = λ fd s. small_net-IsNet.accept_some fd (s.0);
  accept_none = λ fd s. small_net-IsNet.accept_none fd (s.0);
  close_pos = λ fd j s. small_net-IsNet.close_pos fd j (s.0);
  close_bad = λ n s. small_net-IsNet.close_bad n (s.0);
  send_open = λ fd s buf j. refl;
  sendfile_open = λ fd s file off count j. refl;
  recv_open = λ fd s j. refl;
}

pub socket-IsSocket : (input : Bytes) (fd : ℕ) → IsSocket (socket_on (input_net input) fd)
socket-IsSocket input fd = record {
  send_some = λ s. slow_socket-IsSocket.send_some (s.1);
  send_progress = λ s. slow_socket-IsSocket.send_progress (s.1);
  send_none = λ s. slow_socket-IsSocket.send_none (s.1);
  sendfile_some = λ s. slow_socket-IsSocket.sendfile_some (s.1);
  sendfile_progress = λ s. slow_socket-IsSocket.sendfile_progress (s.1);
  sendfile_none = λ s. slow_socket-IsSocket.sendfile_none (s.1);
}

abbrev pub Serving : Bytes → Type 0
Serving input = Running (input_net input) row_list default_options small_dir executable 2000

abbrev pub listener : TcpServer
listener = record { m_port = pos 8080; m_fd = pos 3; m_name = [] }

abbrev pub start : (input : Bytes) → Serving input
start input = record {
  sock = (3 ∷ [], []);
  loop = at_accept;
  pool = record {
    m_queue = [];
    lock = unlocked;
    m_sem = record { m_val = 0; waiting = 2; asleep = 0 };
    woken = 0;
    active = [];
    added = [];
    taken = [];
  };
  stats = [];
  db = [];
}

pub began :
    (input : Bytes)
    → server_begin
        (input_net input)
        row_list
        default_options
        small_dir
        executable
        2000
        (pos 8080)
        (pos 5)
        2
        []
        []
        ([], [])
      ≡ some (listener, start input)
unfolding server_begin http_server tcp_server set_up socket_fd new_tpool
began input = refl

abbrev pub one : TcpConnection
one = record { m_fd = 7; m_addr = 1; m_name = [] }

abbrev pub one_client : (input : Bytes) → Serving input
one_client input = record (start input) { sock = (7 ∷ 3 ∷ [], []); loop = accepted one }

pub to_one_client :
    (input : Bytes)
    → ServerReach
        (input_net input)
        row_list
        default_options
        small_dir
        executable
        2000
        listener
        (start input)
        (one_client input)
unfolding loop_step accept_connection
to_one_client input = moves starts (loop_moves (start input) (one_client input) refl)

abbrev one_good : StatsList
one_good = (codes "10.0.0.1", pos 1) ∷ []

good_score :
    update_ip_addr_stats row_list default_options.blacklist_threshold
      (get_src_addr (input_net []) one)
      true
      []
      []
    ≡ done (true, one_good, one_good)
unfolding update_ip_addr_stats get_src_addr find emplace
good_score = refl

abbrev request : Bytes
request = flatten lines

server_serves_file_example :
    (sock' : List ℕ × Bytes) × ((s' : Serving request) × IsServed
        (input_net request)
        row_list
        default_options
        small_dir
        executable
        2000
        listener
        one
        (one_client request)
        sock'
        one_good
        one_good
        s')
    × HasSent
        (socket_on (input_net request) 7)
        (7 ∷ 3 ∷ [], [])
        (response_text reply ++ take 5 (codes "hello"))
        sock'
unfolding is_ipaddr_blacklisted find get_src_addr
server_serves_file_example =
    server_serves_file (input_net request) row_list default_options small_dir executable 2000
      (input_net-IsNet request) row_list-IsStats (pos 8080) (pos 5) 2 [] [] ([], []) listener one
      file_path (codes "HTTP/1.1\r\n") [] 5 (codes "hello") true one_good one_good (λ ip. refl)
      (began request) (to_one_client request) refl refl (omega arith) refl
      (socket-IsSocket request 7) (omega arith) (omega arith) tt refl (omega arith) (omega arith)
      file_regular file_size file_opened file_named (omega arith) (omega (arith, reply-length))
      (omega arith) good_score
