-- ===== src/App/Server/Quiet.antt =====
-- That a server can always finish the work that it has.
pub mod Tests
use http_file_sharing.Prelude.{
  ℕ, zero, suc, ◌+◌, ◌-◌, ◌*◌, ◌/◌, ◌%◌, ◌^◌, ◌≤◌, ◌<◌, ◌≡◌, refl, sym, ap, ◌∙◌, ◌≢◌, ◌↔◌, ◌⊎◌, inl,
  inr, Bool, true, false, not, ◌&&◌, ◌||◌, Option, none, some, List, [], ◌∷◌, ◌++◌, map,
  append_assoc, append-nil, arith, ltb, leb, ◌==◌, if◌then◌else◌, Bool-cases, Option-cases,
  some_inj, of_some, none-ne-some, ◌>>=◌, length, get_or, take, drop, replicate, length-append,
  length-replicate, length-drop, length-take, take_all, drop_all, take-append-drop,
  take-append_left, drop-append_left, All, All-append, Bytes, codes, lit, bytes_eq, bytes_eq_sound,
  bytes_eq_refl, bytes_eq_sym, bytes_eq_ne, Lacks, is_empty, starts_with, decimal, IsDigit, value,
  decimal_digits, value-decimal,
}
use http_file_sharing.Prelude.Int.{ℤ}
use http_file_sharing.Tcp.Net.{NetApi, IsNet, socket_on}
use http_file_sharing.Tcp.Server.{TcpConnection, TcpServer, get_src_addr}
use http_file_sharing.Tcp.Api.{IsSocket}
use http_file_sharing.App.Process.Ends.{reply_text, request_read, handle_connection-Ends}
use http_file_sharing.App.Process.Replies.{IsServable, IsRooted}
use http_file_sharing.App.Server.Jobs.{handling}
use http_file_sharing.App.Server.Replies.{TakesScores, Ends-Leaves}
use http_file_sharing.Tpool.Invariant.{IsPool, Reach-IsPool}
use http_file_sharing.Filesys.{FileSystem}
use http_file_sharing.App.Options.{ProgOptions}
use http_file_sharing.App.Blacklist.{Sqlite, StatsList}
use http_file_sharing.App.Blacklist.Stats.{IsStats}
use http_file_sharing.App.Blacklist.Sync.{IsSynced}
use http_file_sharing.App.Server.{at_accept, refers, Running, server_begin, ServerReach}
use http_file_sharing.App.Server.Descriptors.{IsOwned}
use http_file_sharing.App.Server.Drain.{AllReturn, ServerReach-trans, drains}
use http_file_sharing.App.Server.Runs.{server_serves, server_connections}

module _ (net : NetApi) (sql : Sqlite) (opts : ProgOptions) (fs : FileSystem) (exe : Bytes)
    (fuel : ℕ) where
  -- Where files can be read, sockets behave, the database takes every score, and no GET request reads
  -- outside its URI, with fuel for the bytes of each reply, every handler returns.
  pub all_return :
      (server : TcpServer)
      → IsServable opts fs
      → ((fd : ℕ) → IsSocket (socket_on net fd))
      → ((ip : Bytes) (stats : StatsList) (db : sql.Db) → TakesScores sql opts ip stats db)
      → ((fd : ℕ) (sock : net.State) → IsRooted (request_read (net.recv fd sock).0))
      → ((c : TcpConnection) (sock : net.State)
          → length (reply_text opts fs exe (net.recv c.m_fd sock).0 (get_src_addr net c)) < fuel)
      → AllReturn net sql opts fs exe fuel server
  all_return server servable sockets takes rooted enough job s =
      let c = job.connection in
      let (good, sock', stats', db', e, leaves) =
        Ends-Leaves net sql opts fs exe fuel c s (handling net sql opts fs exe fuel job s)
          (takes (get_src_addr net c) s.stats s.db)
          (handle_connection-Ends (socket_on net c.m_fd) sql opts fs exe fuel (get_src_addr net c)
            s.stats s.db (net.recv c.m_fd s.sock).1 (net.recv c.m_fd s.sock).0 (sockets c.m_fd)
            servable (rooted c.m_fd s.sock) (enough c s.sock)) in
      (good, sock', stats', db', e)

  -- The loop is in front of accept, every job that was added was taken and none waits or runs, and
  -- the same descriptors are open as when the loop began.
  abbrev pub IsQuiet : Running net sql opts fs exe fuel → Running net sql opts fs exe fuel → Type 0
  IsQuiet start s =
      (s.loop ≡ at_accept)
      × (s.pool.m_queue ≡ [])
      × (s.pool.active ≡ [])
      × (s.pool.taken ≡ s.pool.added)
      × ((fd : ℕ) → net.is_open s.sock fd ≡ net.is_open start.sock fd)

  all_closed :
      (law : IsNet net) (start s : Running net sql opts fs exe fuel)
      → s.loop ≡ at_accept
      → s.pool.m_queue ≡ []
      → s.pool.active ≡ []
      → IsOwned net law sql opts fs exe fuel (net.is_open start.sock) s
      → (fd : ℕ) → net.is_open s.sock fd ≡ net.is_open start.sock fd
  all_closed law start s loop queue active owned fd =
      let unused : refers fd s ≡ false = rw (loop, queue, active) refl in
      (owned fd).0 ∙ rw unused (or_false (net.is_open start.sock fd))
    where
      or_false : (b : Bool) → (b || false) ≡ b
      or_false true = refl
      or_false false = refl

  -- The server can always finish its work: from any beginning of server_loop with at least one worker
  -- and scores that agree with the table, if every handler returns, then from any state that the
  -- threads get into they can get to one with the loop in front of accept, in which every job that
  -- was ever added was taken and none waits or runs, and every connection is closed: just those
  -- descriptors are open that were open when the loop began.
  pub server_finishes :
      (law : IsNet net) (stats_law : IsStats sql) (port tcp_backlog : ℤ) (tpool_size : ℕ)
      (stats : StatsList) (db : sql.Db) (sock : net.State) (server : TcpServer)
      {start s : Running net sql opts fs exe fuel}
      → IsSynced sql stats db
      → server_begin net sql opts fs exe fuel port tcp_backlog tpool_size stats db sock
        ≡ some (server, start)
      → ServerReach net sql opts fs exe fuel server start s
      → 0 < tpool_size
      → AllReturn net sql opts fs exe fuel server
      → (s' : Running net sql opts fs exe fuel) × ServerReach net sql opts fs exe fuel server s s'
        × IsQuiet start s'
  server_finishes law stats_law port tcp_backlog tpool_size stats db sock server {start} {s} sync e
        r some_workers returns =
      let (few, serving) =
        server_serves net sql opts fs exe fuel stats_law port tcp_backlog tpool_size stats db sock
          server sync e r in
      let (s', (more, (loop, (queue, active)))) =
        drains net sql opts fs exe fuel server stats_law tpool_size s some_workers returns
          serving in
      let reached = ServerReach-trans net sql opts fs exe fuel server r more in
      let (few', (pool, phase, synced)) =
        server_serves net sql opts fs exe fuel stats_law port tcp_backlog tpool_size stats db sock
          server sync e reached in
      let (size, awake, order, workers) = Reach-IsPool pool in
      let owned =
        server_connections net sql opts fs exe fuel law port tcp_backlog tpool_size stats db sock
          server e reached in
      (
        s',
        more,
        (
          loop,
          queue,
          active,
          sym (order ∙ ap (λ jobs. s'.pool.taken ++ jobs) queue ∙ append-nil s'.pool.taken),
          all_closed law start s' loop queue active owned,
        ),
      )
