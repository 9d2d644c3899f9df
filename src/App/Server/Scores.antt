-- ===== src/App/Server/Scores.antt =====
-- The pool and the scores over a run of the server.
use http_file_sharing.Prelude.{
  ℕ, ◌≡◌, refl, sym, ap, ◌∙◌, inl, inr, Bool, true, false, none, some, List, ◌∷◌, ◌++◌, Bool-cases,
  Option-cases, of_some, none-ne-some, Bytes,
}
use http_file_sharing.Tcp.Net.{NetApi, socket_on}
use http_file_sharing.Tcp.Server.{
  tcp_connection, TcpConnection, TcpServer, accept_connection, get_src_addr,
}
use http_file_sharing.Tpool.{
  TpoolJob, Lock, unlocked, adding, getting, add_push, add_post, job_done, step_push, step_post,
  step_done, WorkerStep-Step, Reach, next,
}
use http_file_sharing.Filesys.{FileSystem}
use http_file_sharing.App.Options.{ProgOptions}
use http_file_sharing.App.Blacklist.{Sqlite, StatsList, is_ipaddr_blacklisted}
use http_file_sharing.App.Blacklist.Stats.{IsStats}
use http_file_sharing.App.Blacklist.Sync.{IsSynced, update_ip_addr_stats_sync}
use http_file_sharing.App.Process.{handled}
use http_file_sharing.App.Process.Frame.{handle_connection-frame}
use http_file_sharing.App.Server.{
  Loop, at_accept, accepted, checked, pushing, handler, refers, Running, release, run_job,
  loop_step, ServerStep, loop_moves, worker_moves, job_runs, ServerReach, starts, moves,
}
use http_file_sharing.App.Server.Pointers.{is_adding, in_pool-worker}
use http_file_sharing.App.Server.Jobs.{after_job, handling, run_job_cases}

module _ (net : NetApi) (sql : Sqlite) (opts : ProgOptions) (fs : FileSystem) (exe : Bytes)
    (fuel : ℕ) where
  abbrev pub is_pushing : Loop → Bool
  is_pushing (pushing c) = true
  is_pushing _ = false

  -- The pool is one that its own threads get into; add_job has the mutex exactly if the loop is in
  -- it; and the scores agree with the table.
  abbrev pub IsServing : ℕ → Running net sql opts fs exe fuel → Type 0
  IsServing count s =
      Reach count s.pool × (is_pushing s.loop ≡ is_adding s.pool.lock) × IsSynced sql s.stats s.db

  -- A release changes the socket only.
  release-IsServing :
      (count : ℕ) (c : TcpConnection) (s : Running net sql opts fs exe fuel)
      → IsServing count s
      → IsServing count (release net sql opts fs exe fuel c s)
  unfolding release
  release-IsServing count c s h = elim (Bool-cases (refers c.m_fd s)) [
    | inl e ↦ rw e h
    | inr e ↦ rw e h
  ]

  -- Only the socket and the place of the loop change, to one outside add_job.
  elsewhere :
      (count : ℕ) (s : Running net sql opts fs exe fuel) (sock : net.State) (loop : Loop)
      → is_pushing s.loop ≡ false
      → is_pushing loop ≡ false
      → IsServing count s
      → IsServing count (record s { sock = sock; loop = loop })
  elsewhere count s sock loop l l' (pool, phase, sync) = (pool, l' ∙ sym l ∙ phase, sync)

  accept-IsServing :
      (count : ℕ) (server : TcpServer) (s s' : Running net sql opts fs exe fuel)
      → s.loop ≡ at_accept
      → loop_step net sql opts fs exe fuel server at_accept s ≡ some s'
      → IsServing count s
      → IsServing count s'
  unfolding loop_step accept_connection
  accept-IsServing count server s s' l e h =
      of_some (IsServing count) _ s' e (elim (Option-cases (net.accept server.m_fd s.sock).0) [
        | inl r ↦
            rw r (
              elsewhere count s (net.accept server.m_fd s.sock).1 at_accept (ap is_pushing l) refl
                h)
        | inr (c, r) ↦ rw r (
            elsewhere count s (net.accept server.m_fd s.sock).1
              (accepted (tcp_connection (c.0) (c.1))) (ap is_pushing l) refl h)
      ])

  push-IsServing :
      (count : ℕ) (s s' : Running net sql opts fs exe fuel) (c : TcpConnection) (lock : Lock)
      → s.pool.lock ≡ lock
      → elim lock [
        | unlocked ↦ some (record s {
          loop = pushing c;
          pool = add_push s.pool (record { fn_ptr = handler; connection = c });
        })
        | adding ↦ none
        | getting ↦ none
      ]
        ≡ some s'
      → IsServing count s
      → IsServing count s'
  unfolding add_push
  push-IsServing count s s' c unlocked k e (pool, phase, sync) =
      of_some (IsServing count) _ s' e
        (next pool (step_push s.pool (record { fn_ptr = handler; connection = c }) k), refl, sync)
  push-IsServing count s s' c adding k e h = absurd (none-ne-some s' e)
  push-IsServing count s s' c getting k e h = absurd (none-ne-some s' e)

  test-IsServing :
      (count : ℕ) (server : TcpServer) (s s' : Running net sql opts fs exe fuel) (c : TcpConnection)
      → s.loop ≡ accepted c
      → loop_step net sql opts fs exe fuel server (accepted c) s ≡ some s'
      → IsServing count s
      → IsServing count s'
  unfolding loop_step
  test-IsServing count server s s' c l e h =
      elim (Bool-cases
        (is_ipaddr_blacklisted opts.blacklist_threshold s.stats (get_src_addr net c))) [
          | inl b ↦ of_some (IsServing count) _ s' (rw b at e) (
              release-IsServing count c (record s { loop = at_accept })
                (elsewhere count s s.sock at_accept (ap is_pushing l) refl h))
          | inr b ↦
              of_some (IsServing count) _ s' (rw b at e)
                (elsewhere count s s.sock (checked c) (ap is_pushing l) refl h)
        ]

  post-IsServing :
      (count : ℕ) (server : TcpServer) (s s' : Running net sql opts fs exe fuel) (c : TcpConnection)
      → s.loop ≡ pushing c
      → loop_step net sql opts fs exe fuel server (pushing c) s ≡ some s'
      → IsServing count s
      → IsServing count s'
  unfolding loop_step add_post
  post-IsServing count server s s' c l e (pool, phase, sync) =
      let locked : s.pool.lock ≡ adding = adding_of s.pool.lock (sym phase ∙ ap is_pushing l) in
      of_some (IsServing count) _ s' e (
        release-IsServing count c (record s { loop = at_accept; pool = add_post s.pool })
          (next pool (step_post s.pool locked), refl, sync))
    where
      adding_of : (lock : Lock) → is_adding lock ≡ true → lock ≡ adding
      adding_of unlocked h = absurd cc
      adding_of adding h = refl
      adding_of getting h = absurd cc

  loop_step-IsServing :
      (count : ℕ) (server : TcpServer) (s s' : Running net sql opts fs exe fuel) (loop : Loop)
      → s.loop ≡ loop
      → loop_step net sql opts fs exe fuel server loop s ≡ some s'
      → IsServing count s
      → IsServing count s'
  unfolding loop_step
  loop_step-IsServing count server s s' at_accept l e h = accept-IsServing count server s s' l e h
  loop_step-IsServing count server s s' (accepted c) l e h =
      test-IsServing count server s s' c l e h
  loop_step-IsServing count server s s' (checked c) l e h =
      push-IsServing count s s' c s.pool.lock refl e h
  loop_step-IsServing count server s s' (pushing c) l e h = post-IsServing count server s s' c l e h

  -- A handler that returns leaves the map and the table in agreement.
  handled-IsSynced :
      (law : IsStats sql) (job : TpoolJob) (s : Running net sql opts fs exe fuel) (good : Bool)
      (sock : net.State) (stats : StatsList) (db : sql.Db)
      → handling net sql opts fs exe fuel job s ≡ handled good sock stats db
      → IsSynced sql s.stats s.db
      → IsSynced sql stats db
  handled-IsSynced law job s good sock stats db e sync = rw e at (
      handle_connection-frame (socket_on net job.connection.m_fd) sql opts fs exe (λ t. Unit)
        (record { keeps_send = λ t buf h. tt; keeps_sendfile = λ t file off count h. tt })
        (λ g t st d. IsSynced sql st d) (get_src_addr net job.connection) s.stats s.db (λ t h. sync)
        (λ g r t st d h u.
          (update_ip_addr_stats_sync sql law opts.blacklist_threshold
            (get_src_addr net job.connection) g s.stats s.db sync u).0)
        fuel (net.recv job.connection.m_fd s.sock).0 (net.recv job.connection.m_fd s.sock).1 tt)

  run_job-IsServing :
      (law : IsStats sql) (count : ℕ) (s s' : Running net sql opts fs exe fuel)
      (before : List TpoolJob) (job : TpoolJob) (after : List TpoolJob)
      → s.pool.active ≡ before ++ job ∷ after
      → run_job net sql opts fs exe fuel job (before ++ after) s ≡ some s'
      → IsServing count s
      → IsServing count s'
  unfolding job_done
  run_job-IsServing law count s s' before job after a e (pool, phase, sync) =
      let (good, sock, stats, db, r, same) =
        run_job_cases net sql opts fs exe fuel job (before ++ after) s s' e in
      rw same at (
        release-IsServing count job.connection
          (after_job net sql opts fs exe fuel job (before ++ after) s sock stats db)
          (
            next pool (step_done s.pool before job after a),
            phase,
            handled-IsSynced law job s good sock stats db r sync,
          ))

  ServerStep-IsServing :
      (law : IsStats sql) (count : ℕ) (server : TcpServer) {s s' : Running net sql opts fs exe fuel}
      → ServerStep net sql opts fs exe fuel server s s'
      → IsServing count s
      → IsServing count s'
  ServerStep-IsServing law count server (loop_moves s s' e) h =
      loop_step-IsServing count server s s' s.loop refl e h
  ServerStep-IsServing law count server (worker_moves s p w) (pool, phase, sync) =
      (next pool (WorkerStep-Step w), phase ∙ sym (in_pool-worker w).1, sync)
  ServerStep-IsServing law count server (job_runs s s' before job after a e) h =
      run_job-IsServing law count s s' before job after a e h

  -- Whatever the threads of a server do, from a state in which the loop is in front of accept, the
  -- pool is one of `count` workers whose mutex add_job does not have, and the scores agree with the
  -- stats table: the pool stays one that its own steps get it into; add_job has the mutex exactly if
  -- the loop is between its push and its post; and the scores in the map agree with the table.
  pub ServerReach-IsServing :
      (law : IsStats sql) (count : ℕ) (server : TcpServer)
      {start s : Running net sql opts fs exe fuel}
      → IsServing count start
      → ServerReach net sql opts fs exe fuel server start s
      → IsServing count s
  ServerReach-IsServing law count server h starts = h
  ServerReach-IsServing law count server h (moves r m) =
      ServerStep-IsServing law count server m (ServerReach-IsServing law count server h r)
