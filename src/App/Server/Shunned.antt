-- ===== src/App/Server/Shunned.antt =====
-- What becomes of an address once it is blacklisted.
pub mod Tests
use http_file_sharing.Prelude.{
  ℕ, zero, suc, ◌+◌, ◌-◌, ◌*◌, ◌/◌, ◌%◌, ◌^◌, ◌≤◌, ◌<◌, ◌≡◌, refl, sym, ap, ◌∙◌, ◌≢◌, ◌↔◌, ◌⊎◌, inl,
  inr, Bool, true, false, not, ◌&&◌, ◌||◌, Option, none, some, List, [], ◌∷◌, ◌++◌, map,
  append_assoc, append-nil, arith, ltb, leb, ◌==◌, if◌then◌else◌, Bool-cases, Option-cases,
  some_inj, of_some, none-ne-some, ◌>>=◌, length, get_or, take, drop, replicate, length-append,
  length-replicate, length-drop, length-take, take_all, drop_all, take-append-drop,
  take-append_left, drop-append_left, All, All-append, Bytes, codes, lit, bytes_eq, bytes_eq_sound,
  bytes_eq_refl, bytes_eq_sym, bytes_eq_ne, Lacks, is_empty, starts_with, decimal, IsDigit, value,
  decimal_digits, value-decimal,
}
use http_file_sharing.Prelude.Int.{ℤ, ltb_ℤ}
use http_file_sharing.Prelude.Dict.{find}
use http_file_sharing.Tcp.Net.{NetApi}
use http_file_sharing.Tcp.Server.{TcpConnection, TcpServer, accept_connection, get_src_addr}
use http_file_sharing.Tpool.{
  TpoolJob, Lock, unlocked, adding, getting, TPool, wake, wait_round, add_push, add_post,
  worker_wait, worker_wake, get_lock, get_front, job_done, WorkerStep, worker_tests, worker_wakes,
  worker_locks, worker_takes,
}
use http_file_sharing.Tpool.Invariant.{get_front_lem, served}
use http_file_sharing.Filesys.{FileSystem}
use http_file_sharing.App.Options.{ProgOptions}
use http_file_sharing.App.Blacklist.{
  Sqlite, StatsList, done, is_ipaddr_blacklisted, get_score_for_ipaddr, update_ip_addr_stats,
}
use http_file_sharing.App.Blacklist.Stats.{IsStats}
use http_file_sharing.App.Blacklist.Sync.{IsSynced, update_ip_addr_stats_sync}
use http_file_sharing.App.Server.{
  Loop, at_accept, accepted, checked, pushing, handler, refers, Running, release, loop_step,
  run_job, server_begin, ServerStep, loop_moves, worker_moves, job_runs, ServerReach, starts, moves,
}
use http_file_sharing.App.Server.Accounts.{jobs_from, jobs_from-append}
use http_file_sharing.App.Server.History.{IsScored, handled-IsScored}
use http_file_sharing.App.Server.Runs.{server_serves}
use http_file_sharing.App.Server.Jobs.{after_job, run_job_cases}
use http_file_sharing.App.Server.Outside.{
  IsOut, pending, passed, admitted, push-IsOut, worker-IsOut, done-IsOut, blacklisted_score,
  score_blacklisted,
}

module _ (net : NetApi) (sql : Sqlite) (opts : ProgOptions) (fs : FileSystem) (exe : Bytes)
    (fuel : ℕ) (ip : Bytes) (score : ℤ) (n : ℕ)
    (low : ltb_ℤ score opts.blacklist_threshold ≡ true) where
  -- The address has that score, nothing pending, and `n` jobs were added for it; the scores agree
  -- with the table; and the loop does not hold a connection of it that passed the test.
  abbrev pub IsShunned : Running net sql opts fs exe fuel → Type 0
  IsShunned s =
      (find ip s.stats ≡ some score)
      × (IsOut net ip n s.pool × (IsSynced sql s.stats s.db × (passed net ip s.loop ≡ false)))

  release-IsShunned :
      (c : TcpConnection) (s : Running net sql opts fs exe fuel)
      → IsShunned s
      → IsShunned (release net sql opts fs exe fuel c s)
  unfolding release
  release-IsShunned c s h = elim (Bool-cases (refers c.m_fd s)) [ inl e ↦ rw e h | inr e ↦ rw e h ]

  push-IsShunned :
      (s s' : Running net sql opts fs exe fuel) (c : TcpConnection) (lock : Lock)
      → elim lock [
        | unlocked ↦ some (record s {
          loop = pushing c;
          pool = add_push s.pool (record { fn_ptr = handler; connection = c });
        })
        | adding ↦ none
        | getting ↦ none
      ]
        ≡ some s'
      → bytes_eq (get_src_addr net c) ip ≡ false
      → IsShunned s
      → IsShunned s'
  push-IsShunned s s' c unlocked e other (found, (out, (sync, before))) = of_some IsShunned _ s' e (
    found,
    (
      push-IsOut net ip n s.pool (record { fn_ptr = handler; connection = c }) other out,
      (sync, refl),
    ),
  )
  push-IsShunned s s' c adding e other h = absurd (none-ne-some s' e)
  push-IsShunned s s' c getting e other h = absurd (none-ne-some s' e)

  -- A connection that passes the test is of another address.
  passed_other :
      (s : Running net sql opts fs exe fuel) (c : TcpConnection)
      → find ip s.stats ≡ some score
      → is_ipaddr_blacklisted opts.blacklist_threshold s.stats (get_src_addr net c) ≡ false
      → bytes_eq (get_src_addr net c) ip ≡ false
  passed_other s c found passed = elim (Bool-cases (bytes_eq (get_src_addr net c) ip)) [
    | inr other ↦ other
    | inl same ↦
        let mine = bytes_eq_sound (get_src_addr net c) ip same in
        let listed = score_blacklisted opts.blacklist_threshold score s.stats ip found low in
        let passed' = rw mine at passed in absurd cc
  ]

  loop_step-IsShunned :
      (server : TcpServer) (s s' : Running net sql opts fs exe fuel) (loop : Loop)
      → s.loop ≡ loop
      → loop_step net sql opts fs exe fuel server loop s ≡ some s'
      → IsShunned s
      → IsShunned s'
  unfolding loop_step accept_connection add_post
  loop_step-IsShunned server s s' at_accept l e (found, (out, (sync, before))) =
      of_some IsShunned _ s' e (elim (Option-cases (net.accept server.m_fd s.sock).0) [
        | inl r ↦ rw r (found, (out, (sync, refl)))
        | inr (c, r) ↦ rw r (found, (out, (sync, refl)))
      ])
  loop_step-IsShunned server s s' (accepted c) l e (found, (out, (sync, before))) =
      elim (Bool-cases
        (is_ipaddr_blacklisted opts.blacklist_threshold s.stats (get_src_addr net c))) [
          | inl b ↦
              of_some IsShunned _ s' (rw b at e)
                (release-IsShunned c (record s { loop = at_accept }) (found, (out, (sync, refl))))
          | inr b ↦
              of_some IsShunned _ s' (rw b at e) (found, (out, (sync, passed_other s c found b)))
        ]
  loop_step-IsShunned server s s' (checked c) l e h =
      push-IsShunned s s' c s.pool.lock e (sym (ap (passed net ip) l) ∙ h.1.1.1) h
  loop_step-IsShunned server s s' (pushing c) l e (found, (out, (sync, before))) =
      of_some IsShunned _ s' e (
        release-IsShunned c (record s { loop = at_accept; pool = add_post s.pool })
          (found, (out, (sync, refl))))

  -- A handler of another address leaves the score, and the agreement.
  scored_other :
      (law : IsStats sql) (job : TpoolJob) (s : Running net sql opts fs exe fuel)
      (stats : StatsList) (db : sql.Db)
      → bytes_eq (get_src_addr net job.connection) ip ≡ false
      → IsScored net sql opts fs exe fuel job s stats db
      → find ip s.stats ≡ some score
      → IsSynced sql s.stats s.db
      → (find ip stats ≡ some score) × IsSynced sql stats db
  scored_other law job s stats db other (inl (st, d)) found sync = (rw st found, rw (st, d) sync)
  scored_other law job s stats db other (inr (good, result, u)) found sync =
      let (sync', kept, verdict) =
        update_ip_addr_stats_sync sql law opts.blacklist_threshold (get_src_addr net job.connection)
          good s.stats s.db sync u in
      (rw (kept ip, other) found, sync')

  run_job-IsShunned :
      (law : IsStats sql) (s s' : Running net sql opts fs exe fuel) (before : List TpoolJob)
      (job : TpoolJob) (after : List TpoolJob)
      → s.pool.active ≡ before ++ job ∷ after
      → run_job net sql opts fs exe fuel job (before ++ after) s ≡ some s'
      → IsShunned s
      → IsShunned s'
  run_job-IsShunned law s s' before job after a e (found, (out, (sync, held))) =
      let (good, sock, stats, db, r, same) =
        run_job_cases net sql opts fs exe fuel job (before ++ after) s s' e in
      let (out', other) = done-IsOut net ip n s.pool before job after a out in
      let (found', sync') =
        scored_other law job s stats db other
          (handled-IsScored net sql opts fs exe fuel job s good sock stats db r) found sync in
      rw same at (
        release-IsShunned job.connection
          (after_job net sql opts fs exe fuel job (before ++ after) s sock stats db)
          (found', (out', (sync', held))))

  pub ServerReach-IsShunned :
      (law : IsStats sql) (server : TcpServer) {start s : Running net sql opts fs exe fuel}
      → IsShunned start
      → ServerReach net sql opts fs exe fuel server start s
      → IsShunned s
  ServerReach-IsShunned law server h starts = h
  ServerReach-IsShunned law server h (moves r (loop_moves s s' e)) =
      loop_step-IsShunned server s s' s.loop refl e (ServerReach-IsShunned law server h r)
  ServerReach-IsShunned law server h (moves r (worker_moves s p w)) =
      let (found, (out, kept)) = ServerReach-IsShunned law server h r in
      (found, (worker-IsOut net ip n w out, kept))
  ServerReach-IsShunned law server h (moves r (job_runs s s' before job after a e)) =
      run_job-IsShunned law s s' before job after a e (ServerReach-IsShunned law server h r)

module _ (net : NetApi) (sql : Sqlite) (opts : ProgOptions) (fs : FileSystem) (exe : Bytes)
    (fuel : ℕ) where
  -- An address stays blacklisted for good: from any beginning of server_loop with scores that agree
  -- with the table, when in a state that the threads get into the address is blacklisted, no job of
  -- it is queued or runs, and the accepting thread does not hold a connection of it that already
  -- passed the test of the blacklist, then whatever the threads do from there, it has the same score
  -- and is still blacklisted, no job of it is queued or runs, and none was added for it.
  pub blacklisted_for_good :
      (law : IsStats sql) (port tcp_backlog : ℤ) (tpool_size : ℕ) (stats : StatsList) (db : sql.Db)
      (sock : net.State) (server : TcpServer) {start s s' : Running net sql opts fs exe fuel}
      (ip : Bytes)
      → IsSynced sql stats db
      → server_begin net sql opts fs exe fuel port tcp_backlog tpool_size stats db sock
        ≡ some (server, start)
      → ServerReach net sql opts fs exe fuel server start s
      → is_ipaddr_blacklisted opts.blacklist_threshold s.stats ip ≡ true
      → pending net ip s.pool ≡ 0
      → passed net ip s.loop ≡ false
      → ServerReach net sql opts fs exe fuel server s s'
      → (is_ipaddr_blacklisted opts.blacklist_threshold s'.stats ip ≡ true)
        × (get_score_for_ipaddr s'.stats ip ≡ get_score_for_ipaddr s.stats ip)
        × (pending net ip s'.pool ≡ 0)
        × (admitted net ip s'.pool ≡ admitted net ip s.pool)
  unfolding get_score_for_ipaddr
  blacklisted_for_good law port tcp_backlog tpool_size stats db sock server {start} {s} {s'} ip sync
        e r listed out held more =
      let (size, (pool, phase, synced)) =
        server_serves net sql opts fs exe fuel law port tcp_backlog tpool_size stats db sock server
          sync e r in
      let (score, found, low) = blacklisted_score opts.blacklist_threshold s.stats ip listed in
      let (found', ((out', same), kept)) =
        ServerReach-IsShunned net sql opts fs exe fuel ip score (admitted net ip s.pool) low law
          server (found, ((out, refl), (synced, held))) more in
      (
        score_blacklisted opts.blacklist_threshold score s'.stats ip found' low,
        found' ∙ sym found,
        out',
        same,
      )
