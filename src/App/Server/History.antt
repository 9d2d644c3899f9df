-- ===== src/App/Server/History.antt =====
-- The scores of a run of the server as a sequence of updates.
use http_file_sharing.Prelude.{
  ℕ, ◌≡◌, refl, ap, ◌⊎◌, inl, inr, Bool, none, some, List, [], ◌∷◌, ◌++◌, arith, Bool-cases,
  of_some, none-ne-some, Bytes,
}
use http_file_sharing.Tcp.Net.{NetApi, socket_on}
use http_file_sharing.Tcp.Server.{TcpConnection, TcpServer, accept_connection, get_src_addr}
use http_file_sharing.Tpool.{TpoolJob, Lock, unlocked, adding, getting, add_push, add_post}
use http_file_sharing.Filesys.{FileSystem}
use http_file_sharing.App.Options.{ProgOptions}
use http_file_sharing.App.Blacklist.{
  Sqlite, done, StatsList, is_ipaddr_blacklisted, update_ip_addr_stats,
}
use http_file_sharing.App.Blacklist.Score.{update_all}
use http_file_sharing.App.Process.{handled}
use http_file_sharing.App.Process.Frame.{handle_connection-frame}
use http_file_sharing.App.Server.{
  Loop, at_accept, accepted, checked, pushing, handler, refers, Running, release, loop_step,
  run_job, loop_moves, worker_moves, job_runs, ServerReach, starts, moves,
}
use http_file_sharing.App.Server.Jobs.{after_job, handling, run_job_cases}
use http_file_sharing.App.Server.Accounts.{
  Accounts, update_all-append, worker-Accounts, done-Accounts, jobs_from,
}

module _ (net : NetApi) (sql : Sqlite) (opts : ProgOptions) (fs : FileSystem) (exe : Bytes)
    (fuel : ℕ) where
  -- The scores are those that a history of single updates leaves, and the history has at most one
  -- request for each connection that was taken and is not running.
  abbrev pub Replays :
      StatsList → sql.Db → List (Bytes × Bool) → Running net sql opts fs exe fuel → Type 0
  Replays stats db history s =
      (update_all sql opts.blacklist_threshold history stats db ≡ done (s.stats, s.db))
      × Accounts net history s.pool

  abbrev pub HasHistory : StatsList → sql.Db → Running net sql opts fs exe fuel → Type 0
  HasHistory stats db s = (history : List (Bytes × Bool)) × Replays stats db history s

  release-HasHistory :
      (stats : StatsList) (db : sql.Db) (c : TcpConnection) (s : Running net sql opts fs exe fuel)
      → HasHistory stats db s
      → HasHistory stats db (release net sql opts fs exe fuel c s)
  unfolding release
  release-HasHistory stats db c s h = elim (Bool-cases (refers c.m_fd s)) [
    | inl e ↦ rw e h
    | inr e ↦ rw e h
  ]

  push-HasHistory :
      (stats : StatsList) (db : sql.Db) (s s' : Running net sql opts fs exe fuel)
      (c : TcpConnection) (lock : Lock)
      → elim lock [
        | unlocked ↦ some (record s {
          loop = pushing c;
          pool = add_push s.pool (record { fn_ptr = handler; connection = c });
        })
        | adding ↦ none
        | getting ↦ none
      ]
        ≡ some s'
      → HasHistory stats db s
      → HasHistory stats db s'
  unfolding add_push
  push-HasHistory stats db s s' c unlocked e h = of_some (HasHistory stats db) _ s' e h
  push-HasHistory stats db s s' c adding e h = absurd (none-ne-some s' e)
  push-HasHistory stats db s s' c getting e h = absurd (none-ne-some s' e)

  loop_step-HasHistory :
      (stats : StatsList) (db : sql.Db) (server : TcpServer)
      (s s' : Running net sql opts fs exe fuel) (loop : Loop)
      → loop_step net sql opts fs exe fuel server loop s ≡ some s'
      → HasHistory stats db s
      → HasHistory stats db s'
  unfolding loop_step accept_connection add_post
  loop_step-HasHistory stats db server s s' at_accept e h = of_some (HasHistory stats db) _ s' e h
  loop_step-HasHistory stats db server s s' (accepted c) e h =
      elim (Bool-cases
        (is_ipaddr_blacklisted opts.blacklist_threshold s.stats (get_src_addr net c))) [
          | inl b ↦
              of_some (HasHistory stats db) _ s' (rw b at e)
                (release-HasHistory stats db c (record s { loop = at_accept }) h)
          | inr b ↦ of_some (HasHistory stats db) _ s' (rw b at e) h
        ]
  loop_step-HasHistory stats db server s s' (checked c) e h =
      push-HasHistory stats db s s' c s.pool.lock e h
  loop_step-HasHistory stats db server s s' (pushing c) e h =
      of_some (HasHistory stats db) _ s' e
        (release-HasHistory stats db c (record s { loop = at_accept; pool = add_post s.pool }) h)

  -- A handler that returns scored one request or none.
  abbrev pub IsScored : TpoolJob → Running net sql opts fs exe fuel → StatsList → sql.Db → Type 0
  IsScored job s stats db =
      ((stats ≡ s.stats) × (db ≡ s.db))
      ⊎ ((good result : Bool) × (update_ip_addr_stats sql opts.blacklist_threshold
              (get_src_addr net job.connection) good s.stats s.db
            ≡ done (result, stats, db)))

  pub handled-IsScored :
      (job : TpoolJob) (s : Running net sql opts fs exe fuel) (good : Bool) (sock : net.State)
      (stats : StatsList) (db : sql.Db)
      → handling net sql opts fs exe fuel job s ≡ handled good sock stats db
      → IsScored job s stats db
  handled-IsScored job s good sock stats db e = rw e at (
      handle_connection-frame (socket_on net job.connection.m_fd) sql opts fs exe (λ t. Unit)
        (record { keeps_send = λ t buf h. tt; keeps_sendfile = λ t file off count h. tt })
        (λ g t st d. IsScored job s st d) (get_src_addr net job.connection) s.stats s.db
        (λ t h. inl (refl, refl)) (λ g r t st d h u. inr (g, r, u)) fuel
        (net.recv job.connection.m_fd s.sock).0 (net.recv job.connection.m_fd s.sock).1 tt)

  run_job-HasHistory :
      (stats : StatsList) (db : sql.Db) (s s' : Running net sql opts fs exe fuel)
      (before : List TpoolJob) (job : TpoolJob) (after : List TpoolJob)
      → s.pool.active ≡ before ++ job ∷ after
      → run_job net sql opts fs exe fuel job (before ++ after) s ≡ some s'
      → HasHistory stats db s
      → HasHistory stats db s'
  run_job-HasHistory stats db s s' before job after a e (history, (replay, accounts)) =
      let (good, sock, stats', db', r, same) =
        run_job_cases net sql opts fs exe fuel job (before ++ after) s s' e in
      let (without, with_one) = done-Accounts net history s.pool before job after a accounts in
      rw same at (
        release-HasHistory stats db job.connection
          (after_job net sql opts fs exe fuel job (before ++ after) s sock stats' db')
          (elim (handled-IsScored job s good sock stats' db' r) [
            | inl (st, d) ↦ (history, (rw (st, d) replay, without))
            | inr (g, result, u) ↦ (
              history ++ (get_src_addr net job.connection, g) ∷ [],
              (
                update_all-append sql opts.blacklist_threshold history
                    (get_src_addr net job.connection) g result stats s.stats stats' db s.db db'
                    replay u,
                with_one g,
              ),
            )
          ]))

  pub ServerReach-HasHistory :
      (server : TcpServer) {start s : Running net sql opts fs exe fuel}
      → start.pool.active ≡ []
      → ServerReach net sql opts fs exe fuel server start s
      → HasHistory start.stats start.db s
  unfolding update_all
  ServerReach-HasHistory server {start} a starts = (
    [],
    (
      refl,
      λ ip.
          let none_runs : jobs_from net ip start.pool.active ≡ 0 = ap (jobs_from net ip) a in
          omega arith,
    ),
  )
  ServerReach-HasHistory server {start} a (moves r (loop_moves s s' e)) =
      loop_step-HasHistory start.stats start.db server s s' s.loop e
        (ServerReach-HasHistory server a r)
  ServerReach-HasHistory server {start} a (moves r (worker_moves s p w)) =
      let (history, (replay, accounts)) = ServerReach-HasHistory server a r in
      (history, (replay, worker-Accounts net history w accounts))
  ServerReach-HasHistory server {start} a (moves r (job_runs s s' before job after act e)) =
      run_job-HasHistory start.stats start.db s s' before job after act e
        (ServerReach-HasHistory server a r)
