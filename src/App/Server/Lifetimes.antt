-- ===== src/App/Server/Lifetimes.antt =====
-- The connections over a run of the server.
use http_file_sharing.Prelude.{
  ℕ, ◌≡◌, refl, sym, ap, ◌∙◌, Bool, true, false, ◌&&◌, ◌||◌, some, List, [], ◌∷◌, ◌++◌, arith, ◌==◌,
  Bytes,
}
use http_file_sharing.Tcp.Net.{NetApi, IsNet, SameOpen, socket_on}
use http_file_sharing.Tcp.Connection.Frame.{Keeps}
use http_file_sharing.Tcp.Server.{TcpServer, get_src_addr}
use http_file_sharing.Tpool.{TpoolJob}
use http_file_sharing.Filesys.{FileSystem}
use http_file_sharing.App.Options.{ProgOptions}
use http_file_sharing.App.Blacklist.{Sqlite, StatsList}
use http_file_sharing.App.Process.{handled}
use http_file_sharing.App.Process.Frame.{handle_connection-frame}
use http_file_sharing.App.Server.{
  at_accept, among, in_loop, refers, Running, run_job, ServerStep, loop_moves, worker_moves,
  job_runs, ServerReach, starts, moves,
}
use http_file_sharing.App.Server.Pointers.{in_pool, in_pool-done, in_pool-worker}
use http_file_sharing.App.Server.Descriptors.{
  IsOwned, Owned-same, release-IsOwned, loop_step-IsOwned,
}
use http_file_sharing.App.Server.Jobs.{after_job, handling, run_job_cases}

module _ (net : NetApi) (law : IsNet net) (sql : Sqlite) (opts : ProgOptions) (fs : FileSystem)
    (exe : Bytes) (fuel : ℕ) where
  -- Reading and sending open and close nothing.
  pub socket_keeps : (fd : ℕ) (s : net.State) → Keeps (socket_on net fd) (SameOpen net s)
  socket_keeps fd s = record {
    keeps_send = λ t buf h j. law.send_open fd t buf j ∙ h j;
    keeps_sendfile = λ t file off count h j. law.sendfile_open fd t file off count j ∙ h j;
  }

  handled-SameOpen :
      (job : TpoolJob) (s : Running net sql opts fs exe fuel) (good : Bool) (sock : net.State)
      (stats : StatsList) (db : sql.Db)
      → handling net sql opts fs exe fuel job s ≡ handled good sock stats db
      → SameOpen net s.sock sock
  handled-SameOpen job s good sock stats db e = rw e at (
      handle_connection-frame (socket_on net job.connection.m_fd) sql opts fs exe
        (SameOpen net s.sock) (socket_keeps job.connection.m_fd s.sock)
        (λ g t st d. SameOpen net s.sock t) (get_src_addr net job.connection) s.stats s.db
        (λ t h. h) (λ g r t st d h u. h) fuel (net.recv job.connection.m_fd s.sock).0
        (net.recv job.connection.m_fd s.sock).1 (law.recv_open job.connection.m_fd s.sock))

  run_job-IsOwned :
      (base : ℕ → Bool) (s s' : Running net sql opts fs exe fuel) (before : List TpoolJob)
      (job : TpoolJob) (after : List TpoolJob)
      → s.pool.active ≡ before ++ job ∷ after
      → run_job net sql opts fs exe fuel job (before ++ after) s ≡ some s'
      → IsOwned net law sql opts fs exe fuel base s
      → IsOwned net law sql opts fs exe fuel base s'
  run_job-IsOwned base s s' before job after a e h =
      let (good, sock, stats, db, r, same) =
        run_job_cases net sql opts fs exe fuel job (before ++ after) s s' e in
      rw same at (
        release-IsOwned net law sql opts fs exe fuel base job.connection
          (after_job net sql opts fs exe fuel job (before ++ after) s sock stats db)
          (Owned-same net law sql opts fs exe fuel base s.sock sock (λ fd. refers fd s) _
            (handled-SameOpen job s good sock stats db r)
            (λ fd.
              swap (fd == job.connection.m_fd) (in_loop fd s.loop) _
              ∙ ap (λ t. in_loop fd s.loop || t) (sym (in_pool-done fd s.pool before job after a)))
            h))
    where
      swap : (a b c : Bool) → (a || (b || c)) ≡ (b || (a || c))
      swap true true c = refl
      swap true false c = refl
      swap false b c = refl

  ServerStep-IsOwned :
      (base : ℕ → Bool) (server : TcpServer) {s s' : Running net sql opts fs exe fuel}
      → ServerStep net sql opts fs exe fuel server s s'
      → IsOwned net law sql opts fs exe fuel base s
      → IsOwned net law sql opts fs exe fuel base s'
  ServerStep-IsOwned base server (loop_moves s s' e) h =
      loop_step-IsOwned net law sql opts fs exe fuel base server s s' s.loop refl e h
  ServerStep-IsOwned base server (worker_moves s p w) h =
      Owned-same net law sql opts fs exe fuel base s.sock s.sock (λ fd. refers fd s) _ (λ fd. refl)
        (λ fd. ap (λ t. in_loop fd s.loop || t) ((in_pool-worker w).0 fd)) h
  ServerStep-IsOwned base server (job_runs s s' before job after a e) h =
      run_job-IsOwned base s s' before job after a e h

  -- From a state in which the loop is in front of accept and the pool has no job, whatever the
  -- threads do: beside the descriptors that were open at the beginning, exactly those are open to
  -- whose connections the loop, the queue or a running job points; and none of these was open at the
  -- beginning. So no connection that is still used is closed, and none that is not used stays open.
  pub ServerReach-IsOwned :
      (server : TcpServer) {start s : Running net sql opts fs exe fuel}
      → start.loop ≡ at_accept
      → start.pool.m_queue ≡ []
      → start.pool.active ≡ []
      → ServerReach net sql opts fs exe fuel server start s
      → IsOwned net law sql opts fs exe fuel (net.is_open start.sock) s
  ServerReach-IsOwned server {start} l q a starts = λ fd.
      let nothing : refers fd start ≡ false =
        ap (λ t. in_loop fd t || in_pool fd start.pool) l
        ∙ ap (λ t. among fd t || among fd start.pool.active) q
        ∙ ap (among fd) a in
      without (net.is_open start.sock fd) (refers fd start) nothing
    where
      without : (b r : Bool) → r ≡ false → (b ≡ (b || r)) × ((b && r) ≡ false)
      without b r h = ground arith
  ServerReach-IsOwned server {start} l q a (moves r m) =
      ServerStep-IsOwned (net.is_open start.sock) server m (ServerReach-IsOwned server l q a r)
