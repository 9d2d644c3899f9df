-- ===== src/App/Server/Runs.antt =====
-- Runs of server_loop from its beginning.
use http_file_sharing.Prelude.{
  ℕ, Bool, false, length, ◌+◌, ◌<◌, ◌≤◌, ◌≡◌, refl, ◌⊎◌, inl, inr, some, [], arith, Option-cases,
  of_some, none-ne-some, Bytes,
}
use http_file_sharing.Prelude.Int.{ℤ}
use http_file_sharing.Tcp.Net.{NetApi, IsNet}
use http_file_sharing.Tcp.Server.{
  TcpConnection, get_src_addr, TcpServer, Listening, raised, listening, http_server,
}
use http_file_sharing.Tpool.{TPool, tpool_max_workers, new_tpool, Lock, unlocked, begun}
use http_file_sharing.Filesys.{FileSystem}
use http_file_sharing.App.Options.{ProgOptions}
use http_file_sharing.App.Blacklist.{Sqlite, StatsList, is_ipaddr_blacklisted}
use http_file_sharing.App.Blacklist.Stats.{IsStats}
use http_file_sharing.App.Blacklist.Sync.{IsSynced}
use http_file_sharing.App.Server.{Loop, at_accept, accepted, Running, server_begin, ServerReach}
use http_file_sharing.App.Server.Pointers.{is_adding}
use http_file_sharing.App.Server.Distinct.{ServerReach-IsDistinct, alone}
use http_file_sharing.App.Server.Uses.{in_hand, uses}
use http_file_sharing.App.Server.Service.{IsServed, accepted_connection-IsServed}
use http_file_sharing.App.Server.Progress.{job_of}
use http_file_sharing.App.Server.Jobs.{handling}
use http_file_sharing.App.Process.{handled}
use http_file_sharing.App.Server.Descriptors.{IsOwned}
use http_file_sharing.App.Server.Lifetimes.{ServerReach-IsOwned}
use http_file_sharing.App.Server.Scores.{is_pushing, IsServing, ServerReach-IsServing}

module _ (net : NetApi) (sql : Sqlite) (opts : ProgOptions) (fs : FileSystem) (exe : Bytes)
    (fuel : ℕ) where
  Listening-cases :
      {S : Type 0} (l : Listening S)
      → ((message : Bytes) × (s : S) × (l ≡ raised message s))
        ⊎ ((server : TcpServer) × (s : S) × (l ≡ listening server s))
  Listening-cases (raised message s) = inl (message, s, refl)
  Listening-cases (listening server s) = inr (server, s, refl)

  -- What the state is when the loop begins.
  abbrev pub IsBegun : ℕ → StatsList → sql.Db → Running net sql opts fs exe fuel → Type 0
  IsBegun tpool_size stats db start =
      (start.loop ≡ at_accept)
      × (new_tpool tpool_size ≡ some start.pool)
      × (start.stats ≡ stats)
      × (start.db ≡ db)

  pub begun-pool :
      (tpool_size : ℕ) (pool : TPool)
      → new_tpool tpool_size ≡ some pool
      → (pool.m_queue ≡ [])
        × (pool.active ≡ [])
        × (pool.lock ≡ unlocked)
        × (tpool_size ≤ tpool_max_workers)
  unfolding new_tpool
  begun-pool tpool_size pool e = ground arith

  pub server_begin-IsBegun :
      (port tcp_backlog : ℤ) (tpool_size : ℕ) (stats : StatsList) (db : sql.Db) (s : net.State)
      (server : TcpServer) (start : Running net sql opts fs exe fuel)
      → server_begin net sql opts fs exe fuel port tcp_backlog tpool_size stats db s
        ≡ some (server, start)
      → IsBegun tpool_size stats db start
  unfolding server_begin
  server_begin-IsBegun port tcp_backlog tpool_size stats db s server start e =
      elim (Listening-cases (http_server net port tcp_backlog s)) [
        | inl (message, s', r) ↦ absurd (none-ne-some (server, start) (rw (r, server_begin) at e))
        | inr (server', s', r) ↦ elim (Option-cases (new_tpool tpool_size)) [
          | inl n ↦ absurd (none-ne-some (server, start) (rw (r, server_begin, n) at e))
          | inr (pool, n) ↦
              of_some (λ r. IsBegun tpool_size stats db (r.1)) _ (server, start)
                (rw (r, server_begin, n) at e) (refl, n, refl, refl)
        ]
      ]

  -- From any beginning of server_loop, whatever its threads do: beside the descriptors that were open
  -- when the loop began, the listening one included, exactly those are open to whose connections the
  -- loop, the queue or a running job points, and none of these was open then.
  pub server_connections :
      (law : IsNet net) (port tcp_backlog : ℤ) (tpool_size : ℕ) (stats : StatsList) (db : sql.Db)
      (sock : net.State) (server : TcpServer) {start s : Running net sql opts fs exe fuel}
      → server_begin net sql opts fs exe fuel port tcp_backlog tpool_size stats db sock
        ≡ some (server, start)
      → ServerReach net sql opts fs exe fuel server start s
      → IsOwned net law sql opts fs exe fuel (net.is_open start.sock) s
  server_connections law port tcp_backlog tpool_size stats db sock server {start} e r =
      let (loop, pool, same, same_db) =
        server_begin-IsBegun port tcp_backlog tpool_size stats db sock server start e in
      let (queue, active, lock, few) = begun-pool tpool_size start.pool pool in
      ServerReach-IsOwned net law sql opts fs exe fuel server loop queue active r

  -- From any beginning of server_loop with scores that agree with the table: there are at most ten
  -- workers, and whatever the threads do, the pool stays one that its own steps get it into, add_job
  -- has the mutex exactly if the loop is between its push and its post, and the scores in the map
  -- agree with the stats table.
  pub server_serves :
      (law : IsStats sql) (port tcp_backlog : ℤ) (tpool_size : ℕ) (stats : StatsList) (db : sql.Db)
      (sock : net.State) (server : TcpServer) {start s : Running net sql opts fs exe fuel}
      → IsSynced sql stats db
      → server_begin net sql opts fs exe fuel port tcp_backlog tpool_size stats db sock
        ≡ some (server, start)
      → ServerReach net sql opts fs exe fuel server start s
      → (tpool_size ≤ tpool_max_workers) × IsServing net sql opts fs exe fuel tpool_size s
  server_serves law port tcp_backlog tpool_size stats db sock server {start} sync e r =
      let (loop, pool, same, same_db) =
        server_begin-IsBegun port tcp_backlog tpool_size stats db sock server start e in
      let (queue, active, lock, few) = begun-pool tpool_size start.pool pool in
      let synced : IsSynced sql start.stats start.db = rw (same, same_db) sync in
      (
        few,
        ServerReach-IsServing net sql opts fs exe fuel law tpool_size server
            (begun start.pool pool, phase start.loop start.pool.lock loop lock, synced) r,
      )
    where
      phase :
          (l : Loop) (k : Lock)
          → l ≡ at_accept
          → k ≡ unlocked
          → is_pushing net sql opts fs exe fuel l ≡ is_adding k
      phase l k e f = rw (e, f) refl

  -- From any beginning of server_loop, whatever its threads do: there is at most one job for each
  -- connection, queued or running, and none for the one that the loop accepted and did not push yet.
  pub server_distinct :
      (law : IsNet net) (port tcp_backlog : ℤ) (tpool_size : ℕ) (stats : StatsList) (db : sql.Db)
      (sock : net.State) (server : TcpServer) {start s : Running net sql opts fs exe fuel} (fd : ℕ)
      → server_begin net sql opts fs exe fuel port tcp_backlog tpool_size stats db sock
        ≡ some (server, start)
      → ServerReach net sql opts fs exe fuel server start s
      → in_hand fd s.loop + uses fd s.pool.m_queue + uses fd s.pool.active ≤ 1
  server_distinct law port tcp_backlog tpool_size stats db sock server {start} {s} fd e r =
      let (loop, pool, same, same_db) =
        server_begin-IsBegun port tcp_backlog tpool_size stats db sock server start e in
      let (queue, active, lock, few) = begun-pool tpool_size start.pool pool in
      let distinct =
        ServerReach-IsDistinct net law sql opts fs exe fuel server loop queue active r fd in
      omega arith

  -- A connection is served from its acceptance to its end: from any beginning of server_loop with
  -- scores that agree with the table, in any state that the threads get into, when the loop accepted
  -- a connection whose address is not blacklisted, the queue is empty, not every worker runs a job,
  -- and the handler would return, then steps of the server lead to a state with the loop in front of
  -- accept again, an empty queue and the same jobs running, in which the map and the database are
  -- those that the handler left, and the socket is closed.
  pub server_answers :
      (law : IsNet net) (stats_law : IsStats sql) (port tcp_backlog : ℤ) (tpool_size : ℕ)
      (stats : StatsList) (db : sql.Db) (sock : net.State) (server : TcpServer)
      {start s : Running net sql opts fs exe fuel} (c : TcpConnection) (good : Bool)
      (sock' : net.State) (stats' : StatsList) (db' : sql.Db)
      → IsSynced sql stats db
      → server_begin net sql opts fs exe fuel port tcp_backlog tpool_size stats db sock
        ≡ some (server, start)
      → ServerReach net sql opts fs exe fuel server start s
      → s.loop ≡ accepted c
      → s.pool.m_queue ≡ []
      → length s.pool.active < tpool_size
      → is_ipaddr_blacklisted opts.blacklist_threshold s.stats (get_src_addr net c) ≡ false
      → handling net sql opts fs exe fuel (job_of c) s ≡ handled good sock' stats' db'
      → (s' : Running net sql opts fs exe fuel) × IsServed net sql opts fs exe fuel server c s sock'
          stats' db' s'
  server_answers law stats_law port tcp_backlog tpool_size stats db sock server {start} {s} c good
        sock' stats' db' sync e r l q room b h =
      let (loop, begun_pool, same, same_db) =
        server_begin-IsBegun port tcp_backlog tpool_size stats db sock server start e in
      let (queue, active, lock, few) = begun-pool tpool_size start.pool begun_pool in
      let (fit, (pool, phase, synced)) =
        server_serves stats_law port tcp_backlog tpool_size stats db sock server sync e r in
      accepted_connection-IsServed net sql opts fs exe fuel server tpool_size c s good sock' stats'
        db'
        (
          pool,
          phase,
          l,
          q,
          alone net law sql opts fs exe fuel c s l
              (ServerReach-IsDistinct net law sql opts fs exe fuel server loop queue active r),
          room,
        )
        b h
