-- ===== src/App/Server/Distinct.antt =====
-- How many jobs there are for a connection, over a run of the server.
use http_file_sharing.Prelude.{
  ℕ, ◌+◌, ◌≤◌, ◌≡◌, refl, ap, ◌∙◌, inl, inr, Bool, false, ◌||◌, Option, none, some, List, [], ◌∷◌,
  ◌++◌, arith, ◌==◌, Bool-cases, Option-cases, of_some, none-ne-some, Bytes,
}
use http_file_sharing.Tcp.Net.{NetApi, IsNet}
use http_file_sharing.Tcp.Server.{
  tcp_connection, TcpConnection, TcpServer, accept_connection, get_src_addr,
}
use http_file_sharing.Tpool.{TpoolJob, Lock, unlocked, adding, getting, add_push, add_post}
use http_file_sharing.Filesys.{FileSystem}
use http_file_sharing.App.Options.{ProgOptions}
use http_file_sharing.App.Blacklist.{Sqlite, is_ipaddr_blacklisted}
use http_file_sharing.App.Server.{
  Loop, at_accept, accepted, checked, pushing, handler, among, refers, Running, release, loop_step,
  run_job, ServerStep, loop_moves, worker_moves, job_runs, ServerReach, starts, moves,
}
use http_file_sharing.App.Server.Descriptors.{IsOwned}
use http_file_sharing.App.Server.Lifetimes.{ServerReach-IsOwned}
use http_file_sharing.App.Server.Jobs.{after_job, run_job_cases}
use http_file_sharing.App.Server.Uses.{
  is_of, uses, in_hand, pool_uses, uses-among, pool_uses-push, pool_uses-done, pool_uses-worker,
}

module _ (net : NetApi) (law : IsNet net) (sql : Sqlite) (opts : ProgOptions) (fs : FileSystem)
    (exe : Bytes) (fuel : ℕ) where
  -- A connection has at most one job, and none as long as the loop has not pushed it.
  abbrev pub IsDistinct : Running net sql opts fs exe fuel → Type 0
  IsDistinct s = (fd : ℕ) → in_hand fd s.loop + pool_uses fd s.pool ≤ 1

  release-IsDistinct :
      (c : TcpConnection) (s : Running net sql opts fs exe fuel)
      → IsDistinct s
      → IsDistinct (release net sql opts fs exe fuel c s)
  unfolding release
  release-IsDistinct c s h = elim (Bool-cases (refers c.m_fd s)) [ inl e ↦ rw e h | inr e ↦ rw e h ]

  accepted-uses :
      (base : ℕ → Bool) (server : TcpServer) (s : Running net sql opts fs exe fuel)
      (result : Option (ℕ × ℕ))
      → s.loop ≡ at_accept
      → (net.accept server.m_fd s.sock).0 ≡ result
      → IsOwned net law sql opts fs exe fuel base s
      → IsDistinct s
      → (fd : ℕ)
      → in_hand fd
            (elim result [ none ↦ at_accept | some r ↦ accepted (tcp_connection (r.0) (r.1)) ])
          + pool_uses fd s.pool
        ≤ 1
  accepted-uses base server s none l e owned h fd =
      let here : in_hand fd s.loop ≡ 0 = ap (in_hand fd) l in let few = h fd in omega arith
  accepted-uses base server s (some (new, addr)) l e owned h fd = elim (Bool-cases (fd == new)) [
    | inl q ↦
        let is : fd ≡ new = ground arith in
        let closed : net.is_open s.sock fd ≡ false =
          ap (net.is_open s.sock) is ∙ (law.accept_some server.m_fd s.sock new addr e).0 in
        let unused : refers fd s ≡ false =
          unowned (net.is_open s.sock fd) (base fd) (refers fd s) closed (owned fd).0 in
        let queue : uses fd s.pool.m_queue ≡ 0 = uses-among fd s.pool.m_queue (ground arith) in
        let active : uses fd s.pool.active ≡ 0 = uses-among fd s.pool.active (ground arith) in
        rw q (omega arith)
    | inr q ↦ let few = h fd in rw q (omega arith)
  ]
    where
      unowned : (o b r : Bool) → o ≡ false → o ≡ (b || r) → r ≡ false
      unowned o b r c e = ground arith

  accept-IsDistinct :
      (base : ℕ → Bool) (server : TcpServer) (s s' : Running net sql opts fs exe fuel)
      → s.loop ≡ at_accept
      → loop_step net sql opts fs exe fuel server at_accept s ≡ some s'
      → IsOwned net law sql opts fs exe fuel base s
      → IsDistinct s
      → IsDistinct s'
  unfolding loop_step accept_connection
  accept-IsDistinct base server s s' l e owned h =
      of_some IsDistinct _ s' e (elim (Option-cases (net.accept server.m_fd s.sock).0) [
        | inl r ↦ rw r (accepted-uses base server s none l r owned h)
        | inr (c, r) ↦ rw r (accepted-uses base server s (some c) l r owned h)
      ])

  push-IsDistinct :
      (s s' : Running net sql opts fs exe fuel) (c : TcpConnection) (lock : Lock)
      → elim lock [
        | unlocked ↦ some (record s {
          loop = pushing c;
          pool = add_push s.pool (record { fn_ptr = handler; connection = c });
        })
        | adding ↦ none
        | getting ↦ none
      ]
        ≡ some s'
      → s.loop ≡ checked c
      → IsDistinct s
      → IsDistinct s'
  push-IsDistinct s s' c unlocked e l h = of_some IsDistinct _ s' e (λ fd.
      let here : in_hand fd s.loop ≡ is_of fd c = ap (in_hand fd) l in
      let few = h fd in
      omega (arith, pool_uses-push fd s.pool (record { fn_ptr = handler; connection = c })))
  push-IsDistinct s s' c adding e l h = absurd (none-ne-some s' e)
  push-IsDistinct s s' c getting e l h = absurd (none-ne-some s' e)

  test-IsDistinct :
      (server : TcpServer) (s s' : Running net sql opts fs exe fuel) (c : TcpConnection)
      → s.loop ≡ accepted c
      → loop_step net sql opts fs exe fuel server (accepted c) s ≡ some s'
      → IsDistinct s
      → IsDistinct s'
  unfolding loop_step
  test-IsDistinct server s s' c l e h =
      elim (Bool-cases
        (is_ipaddr_blacklisted opts.blacklist_threshold s.stats (get_src_addr net c))) [
          | inl b ↦ of_some IsDistinct _ s' (rw b at e) (
              release-IsDistinct c (record s { loop = at_accept })
                (λ fd. let few = h fd in omega arith))
          | inr b ↦ of_some IsDistinct _ s' (rw b at e) (λ fd.
              let here : in_hand fd s.loop ≡ is_of fd c = ap (in_hand fd) l in
              let few = h fd in omega arith)
        ]

  post-IsDistinct :
      (server : TcpServer) (s s' : Running net sql opts fs exe fuel) (c : TcpConnection)
      → loop_step net sql opts fs exe fuel server (pushing c) s ≡ some s'
      → IsDistinct s
      → IsDistinct s'
  unfolding loop_step add_post
  post-IsDistinct server s s' c e h = of_some IsDistinct _ s' e (
      release-IsDistinct c (record s { loop = at_accept; pool = add_post s.pool })
        (λ fd. let few = h fd in omega arith))

  loop_step-IsDistinct :
      (base : ℕ → Bool) (server : TcpServer) (s s' : Running net sql opts fs exe fuel) (loop : Loop)
      → s.loop ≡ loop
      → loop_step net sql opts fs exe fuel server loop s ≡ some s'
      → IsOwned net law sql opts fs exe fuel base s
      → IsDistinct s
      → IsDistinct s'
  unfolding loop_step
  loop_step-IsDistinct base server s s' at_accept l e owned h =
      accept-IsDistinct base server s s' l e owned h
  loop_step-IsDistinct base server s s' (accepted c) l e owned h =
      test-IsDistinct server s s' c l e h
  loop_step-IsDistinct base server s s' (checked c) l e owned h =
      push-IsDistinct s s' c s.pool.lock e l h
  loop_step-IsDistinct base server s s' (pushing c) l e owned h = post-IsDistinct server s s' c e h

  run_job-IsDistinct :
      (s s' : Running net sql opts fs exe fuel) (before : List TpoolJob) (job : TpoolJob)
      (after : List TpoolJob)
      → s.pool.active ≡ before ++ job ∷ after
      → run_job net sql opts fs exe fuel job (before ++ after) s ≡ some s'
      → IsDistinct s
      → IsDistinct s'
  run_job-IsDistinct s s' before job after a e h =
      let (good, sock, stats, db, r, same) =
        run_job_cases net sql opts fs exe fuel job (before ++ after) s s' e in
      rw same at (
        release-IsDistinct job.connection
          (after_job net sql opts fs exe fuel job (before ++ after) s sock stats db)
          (λ fd. let few = h fd in omega (arith, pool_uses-done fd s.pool before job after a)))

  pub ServerStep-IsDistinct :
      (base : ℕ → Bool) (server : TcpServer) {s s' : Running net sql opts fs exe fuel}
      → ServerStep net sql opts fs exe fuel server s s'
      → IsOwned net law sql opts fs exe fuel base s
      → IsDistinct s
      → IsDistinct s'
  ServerStep-IsDistinct base server (loop_moves s s' e) owned h =
      loop_step-IsDistinct base server s s' s.loop refl e owned h
  ServerStep-IsDistinct base server (worker_moves s p w) owned h =
      λ fd. let few = h fd in omega (arith, pool_uses-worker fd w)
  ServerStep-IsDistinct base server (job_runs s s' before job after a e) owned h =
      run_job-IsDistinct s s' before job after a e h

  pub ServerReach-IsDistinct :
      (server : TcpServer) {start s : Running net sql opts fs exe fuel}
      → start.loop ≡ at_accept
      → start.pool.m_queue ≡ []
      → start.pool.active ≡ []
      → ServerReach net sql opts fs exe fuel server start s
      → IsDistinct s
  ServerReach-IsDistinct server {start} l q a starts = λ fd.
      let loop : in_hand fd start.loop ≡ 0 = ap (in_hand fd) l in
      let queue : uses fd start.pool.m_queue ≡ 0 = ap (uses fd) q in
      let active : uses fd start.pool.active ≡ 0 = ap (uses fd) a in omega arith
  ServerReach-IsDistinct server {start} l q a (moves r m) =
      ServerStep-IsDistinct (net.is_open start.sock) server m
        (ServerReach-IsOwned net law sql opts fs exe fuel server l q a r)
        (ServerReach-IsDistinct server l q a r)

  -- No job has the connection that the loop holds.
  pub alone :
      (c : TcpConnection) (s : Running net sql opts fs exe fuel)
      → s.loop ≡ accepted c
      → IsDistinct s
      → among c.m_fd s.pool.active ≡ false
  alone c s l h =
      let mine : in_hand c.m_fd s.loop ≡ 1 = ap (in_hand c.m_fd) l ∙ self c.m_fd in
      let few = h c.m_fd in unused c.m_fd s.pool.active (omega arith)
    where
      self : (n : ℕ) → is_of n (tcp_connection (n) (0)) ≡ 1
      self n = ground arith

      unused : (fd : ℕ) (jobs : List TpoolJob) → uses fd jobs ≡ 0 → among fd jobs ≡ false
      unused fd [] u = refl
      unused fd (job ∷ jobs) u = ground (arith, unused fd jobs)
