-- ===== src/App/Server/Service.antt =====
-- A connection from its acceptance to its end.
use http_file_sharing.Prelude.{
  ℕ, ◌<◌, ◌≡◌, refl, sym, ap, ◌∙◌, Bool, true, false, some, List, [], ◌∷◌, ◌++◌, arith,
  if◌then◌else◌, length, Bytes,
}
use http_file_sharing.Tcp.Net.{NetApi}
use http_file_sharing.Tcp.Server.{TcpConnection, TcpServer, get_src_addr, destroy_connection}
use http_file_sharing.Tpool.{
  TpoolJob, Lock, unlocked, adding, getting, TPool, add_push, add_post, job_done, step_push,
  step_post, Reach, next,
}
use http_file_sharing.Tpool.Invariant.{in_get, Reach-IsPool}
use http_file_sharing.Tpool.Progress.{WorkerSteps, no_worker_step, one_worker_step, unlocked-Starts}
use http_file_sharing.Filesys.{FileSystem}
use http_file_sharing.App.Options.{ProgOptions}
use http_file_sharing.App.Blacklist.{Sqlite, StatsList, is_ipaddr_blacklisted}
use http_file_sharing.App.Process.{handled}
use http_file_sharing.App.Server.{
  at_accept, accepted, among, refers, Running, release, run_job, end_job, worker_moves, job_runs,
  ServerReach, starts, moves,
}
use http_file_sharing.App.Server.Jobs.{after_job, handling}
use http_file_sharing.App.Server.Pointers.{is_adding}
use http_file_sharing.App.Server.Scores.{is_pushing}
use http_file_sharing.App.Server.Progress.{job_of, after_post, unlocked_reaches}

nothing_behind : (job : TpoolJob) (queue : List TpoolJob) → job ∷ queue ≡ job ∷ [] → queue ≡ []
nothing_behind job queue e = cc

module _ (net : NetApi) (sql : Sqlite) (opts : ProgOptions) (fs : FileSystem) (exe : Bytes)
    (fuel : ℕ) (server : TcpServer) where
  pub workers_reach :
      (start s : Running net sql opts fs exe fuel) {p q : TPool}
      → ServerReach net sql opts fs exe fuel server start (record s { pool = p })
      → WorkerSteps p q
      → ServerReach net sql opts fs exe fuel server start (record s { pool = q })
  workers_reach start s r (no_worker_step p) = r
  workers_reach start s r (one_worker_step {p} {q} w more) =
      workers_reach start s (moves r (worker_moves (record s { pool = p }) q w)) more

  -- The loop accepted a connection that no other pointer leads to, the queue is empty, and a worker
  -- is not running a job.
  abbrev pub IsReady : ℕ → TcpConnection → Running net sql opts fs exe fuel → Type 0
  IsReady count c s =
      Reach count s.pool
      × (is_pushing net sql opts fs exe fuel s.loop ≡ is_adding s.pool.lock)
      × (s.loop ≡ accepted c)
      × (s.pool.m_queue ≡ [])
      × (among c.m_fd s.pool.active ≡ false)
      × (length s.pool.active < count)

  free :
      (count : ℕ) (c : TcpConnection) (s : Running net sql opts fs exe fuel)
      → IsReady count c s
      → s.pool.lock ≡ unlocked
  free count c s (pool, phase, l, q, alone, room) =
      let (size, awake, order, workers) = Reach-IsPool pool in
      let empty : length s.pool.m_queue ≡ 0 = ap length q in
      go s.pool.lock refl (sym phase ∙ ap (is_pushing net sql opts fs exe fuel) l) (omega arith)
    where
      go :
          (lock : Lock)
          → s.pool.lock ≡ lock
          → is_adding s.pool.lock ≡ false
          → in_get s.pool.lock ≡ 0
          → s.pool.lock ≡ unlocked
      go unlocked k a g = k
      go adding k a g = let b : is_adding s.pool.lock ≡ true = ap is_adding k in absurd cc
      go getting k a g = let one : in_get s.pool.lock ≡ 1 = ap in_get k in absurd (omega arith)

  -- The connection was handled: the loop is in front of accept again, no further job waits or runs,
  -- what the handler left is kept, and the socket is closed.
  abbrev pub IsServed :
      TcpConnection
      → Running net sql opts fs exe fuel
      → net.State
      → StatsList
      → sql.Db
      → Running net sql opts fs exe fuel
      → Type 0
  IsServed c s sock stats db s' =
      ServerReach net sql opts fs exe fuel server s s'
      × (s'.loop ≡ at_accept)
      × (s'.pool.m_queue ≡ [])
      × (s'.pool.active ≡ s.pool.active)
      × (s'.sock ≡ destroy_connection net c sock)
      × (s'.stats ≡ stats)
      × (s'.db ≡ db)

  -- A worker that runs the only job of a connection closes it.
  runs :
      (c : TcpConnection) (s : Running net sql opts fs exe fuel) (others : List TpoolJob)
      (good : Bool) (sock : net.State) (stats : StatsList) (db : sql.Db)
      → s.loop ≡ at_accept
      → s.pool.m_queue ≡ []
      → among c.m_fd others ≡ false
      → handling net sql opts fs exe fuel (job_of c) s ≡ handled good sock stats db
      → run_job net sql opts fs exe fuel (job_of c) others s
        ≡ some (record (after_job net sql opts fs exe fuel (job_of c) others s sock stats db) {
          sock = destroy_connection net c sock;
        })
  unfolding run_job end_job release job_done
  runs c s others good sock stats db l q alone h =
      let left = after_job net sql opts fs exe fuel (job_of c) others s sock stats db in
      let last : refers c.m_fd left ≡ false = rw (l, q, alone) refl in
      rw (h, run_job)
        (ap (λ b. some (if b then left else record left { sock = destroy_connection net c sock }))
          last)

  -- A connection is served from its acceptance to its end: in any state in which the pool is one
  -- that its own steps get it into and add_job has the mutex exactly if the loop is in it, when the
  -- loop accepted a connection to which no running job points and whose address is not blacklisted,
  -- the queue is empty, not every worker runs a job, and the handler would return, then steps of the
  -- server lead to a state with the loop in front of accept again and the same jobs running, in which
  -- the map and the database are those that the handler left, and the socket is closed.
  pub accepted_connection-IsServed :
      (count : ℕ) (c : TcpConnection) (s : Running net sql opts fs exe fuel) (good : Bool)
      (sock : net.State) (stats : StatsList) (db : sql.Db)
      → IsReady count c s
      → is_ipaddr_blacklisted opts.blacklist_threshold s.stats (get_src_addr net c) ≡ false
      → handling net sql opts fs exe fuel (job_of c) s ≡ handled good sock stats db
      → (s' : Running net sql opts fs exe fuel) × IsServed c s sock stats db s'
  unfolding add_post add_push job_done
  accepted_connection-IsServed count c s good sock stats db ready b h =
      let unlock = free count c s ready in
      let (pool, phase, l, empty, alone, room) = ready in
      let queued = after_post net sql opts fs exe fuel server c s in
      let reached = unlocked_reaches net sql opts fs exe fuel server c s s starts l b unlock in
      let front : queued.pool.m_queue ≡ job_of c ∷ [] = ap (λ q. q ++ job_of c ∷ []) empty in
      let (q, steps, (active, added, taken, rest, lock)) =
        unlocked-Starts count queued.pool (job_of c) []
          (Reach-IsPool (
            next (next pool (step_push s.pool (job_of c) unlock))
              (step_post (add_push s.pool (job_of c)) refl)))
          refl front room in
      let started = record queued { pool = q } in
      let none_left : q.m_queue ≡ [] = nothing_behind (job_of c) q.m_queue (sym rest ∙ front) in
      (
        record (after_job net sql opts fs exe fuel (job_of c) s.pool.active started sock stats db) {
          sock = destroy_connection net c sock;
        },
        (
          moves (workers_reach s queued reached steps) (
              job_runs started _ [] (job_of c) s.pool.active active
                (runs c started s.pool.active good sock stats db refl none_left alone h)),
          refl,
          none_left,
          refl,
          refl,
          refl,
          refl,
        ),
      )
