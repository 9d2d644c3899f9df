-- ===== src/App/Server/Replies.antt =====
-- Any request at all, from the accepted connection to the bytes on the wire.
pub mod Tests
use http_file_sharing.Prelude.{
  ℕ, zero, suc, ◌+◌, ◌-◌, ◌*◌, ◌/◌, ◌%◌, ◌^◌, ◌≤◌, ◌<◌, ◌≡◌, refl, sym, ap, ◌∙◌, ◌≢◌, ◌↔◌, ◌⊎◌, inl,
  inr, Bool, true, false, not, ◌&&◌, ◌||◌, Option, none, some, List, [], ◌∷◌, ◌++◌, map,
  append_assoc, append-nil, arith, ltb, leb, ◌==◌, if◌then◌else◌, Bool-cases, Option-cases,
  some_inj, of_some, none-ne-some, ◌>>=◌, length, get_or, take, drop, replicate, length-append,
  length-replicate, length-drop, length-take, take_all, drop_all, take-append-drop,
  take-append_left, drop-append_left, All, All-append, Bytes, codes, lit, bytes_eq, bytes_eq_sound,
  bytes_eq_refl, bytes_eq_sym, bytes_eq_ne, Lacks, is_empty, starts_with, decimal, IsDigit, value,
  decimal_digits, value-decimal,
}
use http_file_sharing.Prelude.Int.{ℤ}
use http_file_sharing.Tcp.Api.{IsSocket}
use http_file_sharing.Tcp.Connection.Buffer.{HasSent}
use http_file_sharing.Tcp.Net.{NetApi, IsNet, socket_on}
use http_file_sharing.Tcp.Server.{TcpConnection, TcpServer, get_src_addr}
use http_file_sharing.Filesys.{FileSystem}
use http_file_sharing.Http.Status.{HttpStatus}
use http_file_sharing.App.Options.{ProgOptions}
use http_file_sharing.App.Blacklist.{
  Sqlite, StatsList, Outcome, done, is_ipaddr_blacklisted, update_ip_addr_stats,
}
use http_file_sharing.App.Blacklist.Stats.{IsStats}
use http_file_sharing.App.Blacklist.Sync.{IsSynced}
use http_file_sharing.App.Process.{handled, Handled, is_ok, score_request}
use http_file_sharing.App.Process.Ends.{Ends, reply_text, request_read, handle_connection-Ends}
use http_file_sharing.App.Process.Replies.{IsServable, IsRooted}
use http_file_sharing.App.Server.{accepted, Running, server_begin, ServerReach}
use http_file_sharing.App.Server.Jobs.{handling}
use http_file_sharing.App.Server.Progress.{job_of}
use http_file_sharing.App.Server.Service.{IsServed}
use http_file_sharing.App.Server.Runs.{server_answers}

-- The database takes the score of a request, good or bad.
abbrev pub TakesScores : (sql : Sqlite) → ProgOptions → Bytes → StatsList → sql.Db → Type 0
TakesScores sql opts ip stats db =
    (good : Bool)
    → (verdict : Bool) × (stats' : StatsList) × (db' : sql.Db) × (update_ip_addr_stats sql
          opts.blacklist_threshold ip good stats db
        ≡ done (verdict, stats', db'))

module _ (net : NetApi) (sql : Sqlite) (opts : ProgOptions) (fs : FileSystem) (exe : Bytes)
    (fuel : ℕ) where
  -- What a connection leaves: nothing beyond the read, if the client sends nothing; or the reply on the wire, or some of the first
  -- bytes of it before a call failed, and one request in the scores of its address.
  abbrev pub Leaves :
      TcpConnection → Running net sql opts fs exe fuel → net.State → StatsList → sql.Db → Type 0
  Leaves c s sock' stats' db' =
      let (received, sock) = net.recv c.m_fd s.sock in
      let src = get_src_addr net c in
      ((received ≡ some []) × (sock' ≡ sock) × (stats' ≡ s.stats) × (db' ≡ s.db))
      ⊎ ((good verdict : Bool) × (update_ip_addr_stats sql opts.blacklist_threshold src good s.stats
              s.db
            ≡ done (verdict, stats', db'))
          × HasSent (socket_on net c.m_fd) sock (reply_text opts fs exe received src) sock')

  abbrev pub LeavesAll :
      TcpConnection → Running net sql opts fs exe fuel → Handled net.State sql.Db → Type 0
  LeavesAll c s r =
      (good : Bool) × (sock' : net.State) × (stats' : StatsList) × (db' : sql.Db) × (r
        ≡ handled good sock' stats' db')
      × Leaves c s sock' stats' db'

  pub Ends-Leaves :
      (c : TcpConnection) (s : Running net sql opts fs exe fuel) (r : Handled net.State sql.Db)
      → let (received, sock) = net.recv c.m_fd s.sock in
        let src = get_src_addr net c in
        TakesScores sql opts src s.stats s.db
        → Ends (socket_on net c.m_fd) sql opts fs exe src s.stats s.db sock received r
        → LeavesAll c s r
  unfolding score_request
  Ends-Leaves c s r takes (inl (nothing, e)) =
      (false, (net.recv c.m_fd s.sock).1, s.stats, s.db, e, inl (nothing, refl, refl, refl))
  Ends-Leaves c s r takes (inr (status, sock', e, sent)) =
      let (verdict, stats', db', u) = takes (is_ok status) in
      (
        verdict,
        sock',
        stats',
        db',
        e ∙ rw (u, score_request) refl,
        inr (is_ok status, verdict, u, sent),
      )

  -- The server serves whatever it is sent: from any beginning of server_loop with scores that agree
  -- with the table, over files that can be read, in any state that the threads get into: the loop
  -- accepted a connection whose address is not blacklisted, the queue is empty, not every worker runs
  -- a job, the socket behaves, the database takes the score of its address, and what the connection
  -- receives is no GET request or one whose URI begins with a slash; the fuel is enough for the bytes
  -- of the reply. Then steps of the server lead to a state with the loop in front of accept again, an
  -- empty queue and the same jobs running, in which the socket is closed, and either the client
  -- disconnected without a byte and nothing was sent or scored, or the wire has gained the whole reply, or some of the
  -- first bytes of it before a call failed, and one request of the address is scored.
  pub server_serves_all :
      (law : IsNet net) (stats_law : IsStats sql) (port tcp_backlog : ℤ) (tpool_size : ℕ)
      (stats : StatsList) (db : sql.Db) (sock : net.State) (server : TcpServer)
      {start s : Running net sql opts fs exe fuel} (c : TcpConnection)
      → IsServable opts fs
      → IsSynced sql stats db
      → server_begin net sql opts fs exe fuel port tcp_backlog tpool_size stats db sock
        ≡ some (server, start)
      → ServerReach net sql opts fs exe fuel server start s
      → s.loop ≡ accepted c
      → s.pool.m_queue ≡ []
      → length s.pool.active < tpool_size
      → is_ipaddr_blacklisted opts.blacklist_threshold s.stats (get_src_addr net c) ≡ false
      → IsSocket (socket_on net c.m_fd)
      → TakesScores sql opts (get_src_addr net c) s.stats s.db
      → IsRooted (request_read (net.recv c.m_fd s.sock).0)
      → length (reply_text opts fs exe (net.recv c.m_fd s.sock).0 (get_src_addr net c)) < fuel
      → (sock' : net.State) × (stats' : StatsList) × (db' : sql.Db) × ((s' : Running net sql opts fs
            exe fuel)
          × IsServed net sql opts fs exe fuel server c s sock' stats' db' s')
        × Leaves c s sock' stats' db'
  server_serves_all law stats_law port tcp_backlog tpool_size stats db sock server {start} {s} c
        servable sync e r l q room b socket takes rooted enough =
      let (good, sock', stats', db', h, leaves) =
        Ends-Leaves c s (handling net sql opts fs exe fuel (job_of c) s) takes (
          handle_connection-Ends (socket_on net c.m_fd) sql opts fs exe fuel (get_src_addr net c)
            s.stats s.db (net.recv c.m_fd s.sock).1 (net.recv c.m_fd s.sock).0 socket servable
            rooted enough) in
      (
        sock',
        stats',
        db',
        server_answers net sql opts fs exe fuel law stats_law port tcp_backlog tpool_size stats db
            sock server c good sock' stats' db' sync e r l q room b h,
        leaves,
      )
