-- ===== src/App/Server/Files.antt =====
-- A request for a file, from the accepted connection to the bytes on the wire.
pub mod Tests
use http_file_sharing.Prelude.{
  ℕ, zero, suc, ◌+◌, ◌-◌, ◌*◌, ◌/◌, ◌%◌, ◌^◌, ◌≤◌, ◌<◌, ◌≡◌, refl, sym, ap, ◌∙◌, ◌≢◌, ◌↔◌, ◌⊎◌, inl,
  inr, Bool, true, false, not, ◌&&◌, ◌||◌, Option, none, some, List, [], ◌∷◌, ◌++◌, map,
  append_assoc, append-nil, arith, ltb, leb, ◌==◌, if◌then◌else◌, Bool-cases, Option-cases,
  some_inj, of_some, none-ne-some, ◌>>=◌, length, get_or, take, drop, replicate, length-append,
  length-replicate, length-drop, length-take, take_all, drop_all, take-append-drop,
  take-append_left, drop-append_left, All, All-append, Bytes, codes, lit, bytes_eq, bytes_eq_sound,
  bytes_eq_refl, bytes_eq_sym, bytes_eq_ne, Lacks, is_empty, starts_with, decimal, IsDigit, value,
  decimal_digits, value-decimal,
}
use http_file_sharing.Prelude.Int.{ℤ}
use http_file_sharing.Tcp.Api.{IsSocket}
use http_file_sharing.Tcp.Connection.Buffer.{HasSent}
use http_file_sharing.Tcp.Connection.{default_buffer_size}
use http_file_sharing.Tcp.Net.{NetApi, IsNet, socket_on}
use http_file_sharing.Tcp.Server.{TcpConnection, TcpServer, get_src_addr}
use http_file_sharing.Filesys.{FileSystem}
use http_file_sharing.Http.Status.{http_ok}
use http_file_sharing.Http.Request.{char_space}
use http_file_sharing.Http.Request.Parts.{IsHeader}
use http_file_sharing.Http.Request.RoundTrip.{request_lines}
use http_file_sharing.Http.Response.{response_text}
use http_file_sharing.Http.Receive.Lines.{IsLine, flatten}
use http_file_sharing.App.Options.{ProgOptions}
use http_file_sharing.App.File.{clean_filename}
use http_file_sharing.App.Blacklist.{
  Sqlite, StatsList, done, is_ipaddr_blacklisted, update_ip_addr_stats,
}
use http_file_sharing.App.Blacklist.Stats.{IsStats}
use http_file_sharing.App.Blacklist.Sync.{IsSynced}
use http_file_sharing.App.Process.{handled, score_request, handle_connection}
use http_file_sharing.App.Process.Get.{file_response}
use http_file_sharing.App.Process.Scenarios.{handle_connection_get_file}
use http_file_sharing.App.Server.{accepted, Running, server_begin, ServerReach}
use http_file_sharing.App.Server.Jobs.{handling}
use http_file_sharing.App.Server.Progress.{job_of}
use http_file_sharing.App.Server.Service.{IsServed}
use http_file_sharing.App.Server.Runs.{server_answers}

module _ (net : NetApi) (sql : Sqlite) (opts : ProgOptions) (fs : FileSystem) (exe : Bytes)
    (fuel : ℕ) where
  scored :
      (src : Bytes) (good : Bool) (stats stats' : StatsList) (db db' : sql.Db) (fd : ℕ)
      (sock : net.State)
      → update_ip_addr_stats sql opts.blacklist_threshold src true stats db
        ≡ done (good, stats', db')
      → score_request (socket_on net fd) sql opts fs exe http_ok src stats db sock
        ≡ handled good sock stats' db'
  unfolding score_request
  scored src good stats stats' db db' fd sock u = rw (u, score_request) refl

  received :
      (c : TcpConnection) (s : Running net sql opts fs exe fuel) (input : Bytes)
      → (net.recv c.m_fd s.sock).0 ≡ some input
      → handling net sql opts fs exe fuel (job_of c) s
        ≡ handle_connection
            (socket_on net c.m_fd)
            sql
            opts
            fs
            exe
            fuel
            (some input)
            (get_src_addr net c)
            s.stats
            s.db
            (net.recv c.m_fd s.sock).1
  received c s input e =
      ap
        (λ r.
          handle_connection (socket_on net c.m_fd) sql opts fs exe fuel r (get_src_addr net c)
            s.stats s.db (net.recv c.m_fd s.sock).1)
        e

  -- From any beginning of server_loop with scores that agree with the table, in any state that the
  -- threads get into: the loop accepted a connection whose address is not blacklisted, the queue is
  -- empty, not every worker runs a job, and the connection receives a GET request in one piece of
  -- whole lines that fits the buffer, for a URI below the root whose cleaned path is a regular file
  -- that can be opened and is as long as stat says; the socket behaves, and the database takes the
  -- score of a good request. Then steps of the server lead to a state with the loop in front of accept
  -- again, an empty queue and the same jobs running, in which that score is kept, the wire has gained
  -- the framed head and the file, or if a call fails only a part of these, and the socket is closed
  -- behind that.
  pub server_serves_file :
      (law : IsNet net) (stats_law : IsStats sql) (port tcp_backlog : ℤ) (tpool_size : ℕ)
      (stats : StatsList) (db : sql.Db) (sock : net.State) (server : TcpServer)
      {start s : Running net sql opts fs exe fuel} (c : TcpConnection) (path ver : Bytes)
      (headers : List (Bytes × Bytes)) (size : ℕ) (content : Bytes) (good : Bool)
      (stats' : StatsList) (db' : sql.Db)
      → IsSynced sql stats db
      → server_begin net sql opts fs exe fuel port tcp_backlog tpool_size stats db sock
        ≡ some (server, start)
      → ServerReach net sql opts fs exe fuel server start s
      → s.loop ≡ accepted c
      → s.pool.m_queue ≡ []
      → length s.pool.active < tpool_size
      → is_ipaddr_blacklisted opts.blacklist_threshold s.stats (get_src_addr net c) ≡ false
      → IsSocket (socket_on net c.m_fd)
      → Lacks char_space path
      → Lacks char_space ver
      → All IsHeader headers
      → let lines = request_lines (codes "GET") (b'/' ∷ path) ver headers [] in
        let name = clean_filename path in
        let text = response_text (file_response name size) in
        (net.recv c.m_fd s.sock).0 ≡ some (flatten lines)
        → All IsLine lines
        → length (flatten lines) < default_buffer_size
        → fs.is_regular_file (opts.dir ++ b'/' ∷ name) ≡ true
        → fs.stat name ≡ some size
        → fs.fopen name ≡ some content
        → name ≢ []
        → size ≤ length content
        → length text < fuel
        → size < fuel
        → update_ip_addr_stats sql opts.blacklist_threshold (get_src_addr net c) true s.stats s.db
          ≡ done (good, stats', db')
        → (sock' : net.State) × ((s' : Running net sql opts fs exe fuel) × IsServed net sql opts fs
              exe fuel server c s sock' stats' db' s')
          × HasSent
              (socket_on net c.m_fd)
              (net.recv c.m_fd s.sock).1
              (text ++ take size content)
              sock'
  server_serves_file law stats_law port tcp_backlog tpool_size stats db sock server {start} {s} c
        path ver headers size content good stats' db' sync e r l q room b socket lp lv wh input w
        fits regular found opened ne long enough enough' u =
      let lines = request_lines (codes "GET") (b'/' ∷ path) ver headers [] in
      let (sock', ends, wire) =
        handle_connection_get_file (socket_on net c.m_fd) sql opts fs exe fuel (get_src_addr net c)
          s.stats s.db (net.recv c.m_fd s.sock).1 path ver headers size content socket lp lv wh w
          fits regular found opened ne long enough enough' in
      let h =
        received c s (flatten lines) input
        ∙ ends
        ∙ scored (get_src_addr net c) good s.stats stats' s.db db' c.m_fd sock' u in
      (
        sock',
        server_answers net sql opts fs exe fuel law stats_law port tcp_backlog tpool_size stats db
            sock server c good sock' stats' db' sync e r l q room b h,
        wire,
      )
