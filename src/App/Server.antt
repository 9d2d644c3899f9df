-- ===== src/App/Server.antt =====
-- src/app/server.cpp: the accepting loop, the pool that runs _handle_connection, and the connections
-- that both share. A connection is closed when the last pointer to it goes away.
pub mod Outside
pub mod Pointers
pub mod Descriptors
pub mod Drain
pub mod Jobs
pub mod Lifetimes
pub mod Quiet
pub mod Replies
pub mod Restart
pub mod Runs
pub mod Files
pub mod Progress
pub mod Service
pub mod Shunned
pub mod Uses
pub mod Distinct
pub mod Accounts
pub mod History
pub mod Scoring
pub mod Scores
pub mod Tests
use http_file_sharing.Prelude.{
  ℕ, zero, suc, ◌+◌, ◌-◌, ◌*◌, ◌/◌, ◌%◌, ◌^◌, ◌≤◌, ◌<◌, ◌≡◌, refl, sym, ap, ◌∙◌, ◌≢◌, ◌↔◌, ◌⊎◌, inl,
  inr, Bool, true, false, not, ◌&&◌, ◌||◌, Option, none, some, List, [], ◌∷◌, ◌++◌, map,
  append_assoc, append-nil, arith, ltb, leb, ◌==◌, if◌then◌else◌, Bool-cases, Option-cases, ◌>>=◌,
  length, get_or, take, drop, replicate, length-append, length-replicate, length-drop, length-take,
  take_all, drop_all, take-append-drop, take-append_left, drop-append_left, All, All-append, Bytes,
  codes, lit, bytes_eq, bytes_eq_sound, bytes_eq_refl, bytes_eq_sym, bytes_eq_ne, Lacks, is_empty,
  starts_with, decimal, IsDigit, value, decimal_digits, value-decimal,
}
use http_file_sharing.Prelude.Int.{ℤ, pos}
use http_file_sharing.Tcp.Net.{NetApi, socket_on}
use http_file_sharing.Tcp.Server.{
  TcpConnection, TcpServer, Listening, raised, listening, http_server, destroy_server,
  http_accept_connection, destroy_connection, get_src_addr,
}
use http_file_sharing.Tpool.{
  TpoolJob, Lock, unlocked, adding, getting, TPool, new_tpool, add_push, add_post, job_done,
  WorkerStep,
}
use http_file_sharing.Filesys.{FileSystem}
use http_file_sharing.App.Options.{ProgOptions}
use http_file_sharing.App.Blacklist.{Sqlite, StatsList, is_ipaddr_blacklisted}
use http_file_sharing.App.Process.{
  Handled, handled, process_exits, exception, still_running, undefined_behaviour, handle_connection,
}

-- Where the accepting loop is: in front of accept; behind it, with a connection; behind the test of
-- the blacklist, in front of add_job; or inside add_job, between its push and its post.
pub data Loop : Type 0 where
  at_accept : Loop
  accepted checked pushing : TcpConnection → Loop

-- The state of the process, over that of the operating system and that of the database.
pub record ServerState (S D : Type 0) : Type 0 where
  pub sock : S
  pub loop : Loop
  pub pool : TPool
  pub stats : StatsList
  pub db : D

-- The pointer to _handle_connection, the only function that is queued.
abbrev pub handler : ℕ
handler = 1

-- Whether a job, one of some jobs, or the variable of the loop points to the connection of a
-- descriptor.
abbrev pub among : ℕ → List TpoolJob → Bool
among fd [] = false
among fd (job ∷ jobs) = fd == job.connection.m_fd || among fd jobs

abbrev pub in_loop : ℕ → Loop → Bool
in_loop fd at_accept = false
in_loop fd (accepted c) = fd == c.m_fd
in_loop fd (checked c) = fd == c.m_fd
in_loop fd (pushing c) = fd == c.m_fd

abbrev pub refers : {S D : Type 0} → ℕ → ServerState S D → Bool
refers fd s = in_loop fd s.loop || (among fd s.pool.m_queue || among fd s.pool.active)

module _ (net : NetApi) (sql : Sqlite) (opts : ProgOptions) (fs : FileSystem) (exe : Bytes)
    (fuel : ℕ) where
  abbrev pub Running : Type 0
  Running = ServerState net.State sql.Db

  -- A pointer to the connection went away: the last one destroys the connection.
  pub release : TcpConnection → Running → Running
  release c s = if refers c.m_fd s then s else record s { sock = destroy_connection net c s.sock }

  -- server_loop up to its loop: the listening socket, then the pool; `none` is an exception.
  unfoldable pub server_begin :
      ℤ → ℤ → ℕ → StatsList → sql.Db → net.State → Option (TcpServer × Running)
  server_begin port tcp_backlog tpool_size stats db s = elim (http_server net port tcp_backlog s) [
    | raised message s' ↦ none
    | listening server s' ↦ new_tpool tpool_size >>= λ pool.
        some (server, record { sock = s'; loop = at_accept; pool = pool; stats = stats; db = db })
  ]

  -- What the accepting thread does next: accept; the test of the blacklist, which ends the round for
  -- an address that is on it; the push of add_job, which waits for the mutex; or the post of add_job
  -- and the end of the round. `none` while it waits. Jobs can end between any two of these.
  unfoldable pub loop_step : TcpServer → Loop → Running → Option Running
  unfolding release
  loop_step server at_accept s =
      let (connection, sock) = http_accept_connection net server s.sock in
      some (record s {
        sock = sock;
        loop = elim connection [ none ↦ at_accept | some c ↦ accepted c ];
      })
  loop_step server (accepted c) s =
      if is_ipaddr_blacklisted opts.blacklist_threshold s.stats (get_src_addr net c)
      then some (release c (record s { loop = at_accept }))
      else some (record s { loop = checked c })
  loop_step server (checked c) s = elim s.pool.lock [
    | unlocked ↦ some (record s {
      loop = pushing c;
      pool = add_push s.pool (record { fn_ptr = handler; connection = c });
    })
    | adding ↦ none
    | getting ↦ none
  ]
  loop_step server (pushing c) s =
      some (release c (record s { loop = at_accept; pool = add_post s.pool }))

  -- The end of a job, once its handler has ended: the worker gives it up and drops its pointer. The
  -- other jobs are those that run on. `none` if the handler does not return.
  pub end_job : TpoolJob → List TpoolJob → Running → Handled net.State sql.Db → Option Running
  unfolding release
  end_job job others s (handled good sock stats db) = some (
      release job.connection
        (record s { sock = sock; stats = stats; db = db; pool = job_done s.pool others }))
  end_job job others s process_exits = none
  end_job job others s exception = none
  end_job job others s still_running = none
  end_job job others s undefined_behaviour = none

  -- A worker runs the job: it reads from the connection and handles it. This is one step. What the
  -- handler reads and sends concerns its own connection only, and it updates a score once, at its
  -- end and under the write lock of the blacklist; so other threads see the state before the update
  -- or the one behind it. The map inside of an update, with the new score and the table without
  -- it, is seen by no other thread, and is not one of these states: it is map_written of the state
  -- in which the update begins.
  pub run_job : TpoolJob → List TpoolJob → Running → Option Running
  unfolding end_job
  run_job job others s =
      let c = job.connection in
      let (received, sock) = net.recv c.m_fd s.sock in
      end_job job others s (
        handle_connection (socket_on net c.m_fd) sql opts fs exe fuel received (get_src_addr net c)
          s.stats s.db sock)

  -- A step of the accepting thread, of a worker that looks for a job, or of one that runs a job.
  pub data ServerStep (server : TcpServer) : Running → Running → Type 0 where
    loop_moves : (s s' : Running) → loop_step server s.loop s ≡ some s' → ServerStep server s s'
    worker_moves :
        (s : Running) (p : TPool)
        → WorkerStep s.pool p
        → ServerStep server s (record s { pool = p })
    job_runs :
        (s s' : Running) (before : List TpoolJob) (job : TpoolJob) (after : List TpoolJob)
        → s.pool.active ≡ before ++ job ∷ after
        → run_job job (before ++ after) s ≡ some s'
        → ServerStep server s s'

  -- The states that the server gets into from one in which its loop begins.
  pub data ServerReach (server : TcpServer) (start : Running) : Running → Type 0 where
    starts : ServerReach server start start
    moves :
        {s s' : Running}
        → ServerReach server start s
        → ServerStep server s s'
        → ServerReach server start s'
