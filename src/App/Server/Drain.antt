-- ===== src/App/Server/Drain.antt =====
-- How a server comes to rest.
use http_file_sharing.Prelude.{
  ℕ, ◌<◌, ◌≡◌, refl, sym, ap, ◌∙◌, inl, inr, Bool, true, false, List, [], ◌∷◌, arith, Bool-cases,
  length, Bytes,
}
use http_file_sharing.Tcp.Net.{NetApi}
use http_file_sharing.Tcp.Server.{TcpConnection, TcpServer, get_src_addr}
use http_file_sharing.Tpool.{TpoolJob, Lock, unlocked, adding, getting, add_post, job_done}
use http_file_sharing.Tpool.Invariant.{Reach-IsPool}
use http_file_sharing.Tpool.Progress.{CanStart, front-Starts, unlocked-Starts}
use http_file_sharing.Filesys.{FileSystem}
use http_file_sharing.App.Options.{ProgOptions}
use http_file_sharing.App.Blacklist.{Sqlite, StatsList, is_ipaddr_blacklisted}
use http_file_sharing.App.Blacklist.Stats.{IsStats}
use http_file_sharing.App.Process.{handled}
use http_file_sharing.App.Server.{
  Loop, at_accept, accepted, checked, pushing, refers, Running, release, loop_step, run_job,
  end_job, loop_moves, job_runs, ServerReach, starts, moves,
}
use http_file_sharing.App.Server.Jobs.{after_job, handling}
use http_file_sharing.App.Server.Pointers.{is_adding}
use http_file_sharing.App.Server.Progress.{
  accepted_connection-IsQueued, checked_connection-IsQueued,
}
use http_file_sharing.App.Server.Scores.{is_pushing, IsServing, ServerReach-IsServing}
use http_file_sharing.App.Server.Service.{workers_reach}

module _ (net : NetApi) (sql : Sqlite) (opts : ProgOptions) (fs : FileSystem) (exe : Bytes)
    (fuel : ℕ) (server : TcpServer) where
  pub ServerReach-trans :
      {s t u : Running net sql opts fs exe fuel}
      → ServerReach net sql opts fs exe fuel server s t
      → ServerReach net sql opts fs exe fuel server t u
      → ServerReach net sql opts fs exe fuel server s u
  ServerReach-trans r starts = r
  ServerReach-trans r (moves more m) = moves (ServerReach-trans r more) m

  -- Every handler returns, whatever the state in which it begins.
  abbrev pub AllReturn : Type 0
  AllReturn =
      (job : TpoolJob) (s : Running net sql opts fs exe fuel)
      → (good : Bool) × (sock : net.State) × (stats : StatsList) × (db : sql.Db) × (handling net sql
            opts fs exe fuel job s
          ≡ handled good sock stats db)

  -- A state that is reached, and where its loop, its queue and its running jobs are.
  abbrev pub Gets : Running net sql opts fs exe fuel → Loop → List TpoolJob → List TpoolJob → Type 0
  Gets s loop queue active =
      (s' : Running net sql opts fs exe fuel) × (ServerReach net sql opts fs exe fuel server s s'
        × ((s'.loop ≡ loop) × ((s'.pool.m_queue ≡ queue) × (s'.pool.active ≡ active))))

  -- A release leaves the loop and the pool.
  released :
      (c : TcpConnection) (s : Running net sql opts fs exe fuel)
      → ((release net sql opts fs exe fuel c s).loop ≡ s.loop)
        × ((release net sql opts fs exe fuel c s).pool ≡ s.pool)
  unfolding release
  released c s = elim (Bool-cases (refers c.m_fd s)) [
    | inl e ↦ rw e (refl, refl)
    | inr e ↦ rw e (refl, refl)
  ]

  runs_one :
      AllReturn
      → (s : Running net sql opts fs exe fuel) (job : TpoolJob) (rest : List TpoolJob)
      → s.pool.active ≡ job ∷ rest
      → Gets s s.loop s.pool.m_queue rest
  unfolding run_job end_job job_done
  runs_one returns s job rest e =
      let (good, sock, stats, db, h) = returns job s in
      let left = after_job net sql opts fs exe fuel job rest s sock stats db in
      let (loop, pool) = released job.connection left in
      (
        release net sql opts fs exe fuel job.connection left,
        (
          moves starts (job_runs s _ [] job rest e (rw (h, run_job, end_job) refl)),
          (loop, (ap (λ p. p.m_queue) pool, ap (λ p. p.active) pool)),
        ),
      )

  runs_all :
      AllReturn
      → (jobs : List TpoolJob) (s : Running net sql opts fs exe fuel) → s.pool.active ≡ jobs
      → Gets s s.loop s.pool.m_queue []
  runs_all returns [] s e = (s, (starts, (refl, (refl, e))))
  runs_all returns (job ∷ rest) s e =
      let (s1, (r1, (loop1, (queue1, active1)))) = runs_one returns s job rest e in
      let (s2, (r2, (loop2, (queue2, active2)))) = runs_all returns rest s1 active1 in
      (s2, (ServerReach-trans r1 r2, (loop2 ∙ loop1, (queue2 ∙ queue1, active2))))

  same_tail : (job : TpoolJob) (xs ys : List TpoolJob) → job ∷ xs ≡ job ∷ ys → xs ≡ ys
  same_tail job xs ys e = cc

  started :
      (s : Running net sql opts fs exe fuel) (job : TpoolJob) (rest : List TpoolJob)
      → s.pool.m_queue ≡ job ∷ rest
      → s.pool.active ≡ []
      → CanStart s.pool job
      → Gets s s.loop rest (job ∷ [])
  started s job rest h idle (q, steps, (active, added, taken, front, lock)) = (
    record s { pool = q },
    (
      workers_reach net sql opts fs exe fuel server s s starts steps,
      (refl, (same_tail job q.m_queue rest (sym front ∙ h), active ∙ ap (λ t. job ∷ t) idle)),
    ),
  )

  -- A pool without running jobs gets to the one at the front of its queue.
  starts_front :
      (count : ℕ) (s : Running net sql opts fs exe fuel) (job : TpoolJob) (rest : List TpoolJob)
      → IsServing net sql opts fs exe fuel count s
      → 0 < count
      → s.loop ≡ at_accept
      → s.pool.m_queue ≡ job ∷ rest
      → s.pool.active ≡ []
      → Gets s s.loop rest (job ∷ [])
  starts_front count s job rest (pool, phase, sync) some_workers l h idle =
      let room : length s.pool.active ≡ 0 = ap length idle in
      go s.pool.lock refl (sym phase ∙ ap (is_pushing net sql opts fs exe fuel) l) (omega arith)
    where
      go :
          (lock : Lock)
          → s.pool.lock ≡ lock
          → is_adding s.pool.lock ≡ false
          → length s.pool.active < count
          → Gets s s.loop rest (job ∷ [])
      go unlocked k a room =
          started s job rest h idle
            (unlocked-Starts count s.pool job rest (Reach-IsPool pool) k h room)
      go getting k a room = started s job rest h idle (front-Starts s.pool job rest k h)
      go adding k a room = let b : is_adding s.pool.lock ≡ true = ap is_adding k in absurd cc

  drains_queue :
      (law : IsStats sql) (count : ℕ)
      → 0 < count
      → AllReturn
      → (queue : List TpoolJob) (s : Running net sql opts fs exe fuel)
      → IsServing net sql opts fs exe fuel count s
      → s.loop ≡ at_accept
      → s.pool.m_queue ≡ queue
      → s.pool.active ≡ []
      → Gets s at_accept [] []
  drains_queue law count some_workers returns [] s serving l h idle = (s, (starts, (l, (h, idle))))
  drains_queue law count some_workers returns (job ∷ rest) s serving l h idle =
      let (s1, (r1, (loop1, (queue1, active1)))) =
        starts_front count s job rest serving some_workers l h idle in
      let (s2, (r2, (loop2, (queue2, active2)))) = runs_one returns s1 job [] active1 in
      let r = ServerReach-trans r1 r2 in
      let (s3, (r3, at_rest)) =
        drains_queue law count some_workers returns rest s2
          (ServerReach-IsServing net sql opts fs exe fuel law count server serving r)
          (loop2 ∙ loop1 ∙ l) (queue2 ∙ queue1) active2 in
      (s3, (ServerReach-trans r r3, at_rest))

  -- The accepting thread gets to the front of accept.
  abbrev GetsBack : Running net sql opts fs exe fuel → Type 0
  GetsBack s =
      (s' : Running net sql opts fs exe fuel) × (ServerReach net sql opts fs exe fuel server s s'
        × (s'.loop ≡ at_accept))

  gets_back :
      (count : ℕ) (s : Running net sql opts fs exe fuel) (loop : Loop)
      → IsServing net sql opts fs exe fuel count s
      → s.loop ≡ loop
      → GetsBack s
  unfolding loop_step
  gets_back count s at_accept serving l = (s, (starts, l))
  gets_back count s (pushing c) serving l =
      let after = record s { loop = at_accept; pool = add_post s.pool } in
      (
        release net sql opts fs exe fuel c after,
        (moves starts (loop_moves s _ (rw (l, loop_step) refl)), (released c after).0),
      )
  gets_back count s (checked c) (pool, phase, sync) l =
      let (s', (r, loop, sock, added, queue)) =
        checked_connection-IsQueued net sql opts fs exe fuel server count c s s pool phase starts
          (refl, refl) l in
      (s', (r, loop))
  gets_back count s (accepted c) (pool, phase, sync) l =
      elim (Bool-cases
        (is_ipaddr_blacklisted opts.blacklist_threshold s.stats (get_src_addr net c))) [
          | inl b ↦ (
            release net sql opts fs exe fuel c (record s { loop = at_accept }),
            (
              moves starts (loop_moves s _ (rw (l, loop_step, b) refl)),
              (released c (record s { loop = at_accept })).0,
            ),
          )
          | inr b ↦
              let (s', (r, loop, sock, added, queue)) =
                accepted_connection-IsQueued net sql opts fs exe fuel server count c s pool phase l
                  b in
              (s', (r, loop))
        ]

  -- From any state that keeps the invariants, the server gets to one without work.
  pub drains :
      (law : IsStats sql) (count : ℕ) (s : Running net sql opts fs exe fuel)
      → 0 < count
      → AllReturn
      → IsServing net sql opts fs exe fuel count s
      → Gets s at_accept [] []
  drains law count s some_workers returns serving =
      let (s1, (r1, loop1)) = gets_back count s s.loop serving refl in
      let (s2, (r2, (loop2, (queue2, active2)))) = runs_all returns s1.pool.active s1 refl in
      let r = ServerReach-trans r1 r2 in
      let (s3, (r3, at_rest)) =
        drains_queue law count some_workers returns s2.pool.m_queue s2
          (ServerReach-IsServing net sql opts fs exe fuel law count server serving r)
          (loop2 ∙ loop1) refl active2 in
      (s3, (ServerReach-trans r r3, at_rest))
