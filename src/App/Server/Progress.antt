-- ===== src/App/Server/Progress.antt =====
-- How an accepted connection gets into the queue of the pool.
use http_file_sharing.Prelude.{
  ℕ, ◌≡◌, refl, sym, ap, ◌∙◌, true, false, some, List, [], ◌∷◌, ◌++◌, arith, if◌then◌else◌, length,
  Bytes,
}
use http_file_sharing.Tcp.Net.{NetApi}
use http_file_sharing.Tcp.Server.{TcpConnection, TcpServer, get_src_addr, destroy_connection}
use http_file_sharing.Tpool.{
  TpoolJob, Lock, unlocked, adding, getting, add_push, add_post, worker_takes, Reach,
}
use http_file_sharing.Tpool.Invariant.{IsPool, in_get, served, get_front_lem, Reach-IsPool}
use http_file_sharing.Filesys.{FileSystem}
use http_file_sharing.App.Options.{ProgOptions}
use http_file_sharing.App.Blacklist.{Sqlite, is_ipaddr_blacklisted}
use http_file_sharing.App.Server.{
  at_accept, accepted, checked, pushing, handler, refers, Running, release, loop_step, loop_moves,
  worker_moves, ServerReach, starts, moves,
}
use http_file_sharing.App.Server.Pointers.{is_adding, among-append}
use http_file_sharing.App.Server.Scores.{is_pushing}

-- The job of a connection.
abbrev pub job_of : TcpConnection → TpoolJob
job_of c = record { fn_ptr = handler; connection = c }

module _ (net : NetApi) (sql : Sqlite) (opts : ProgOptions) (fs : FileSystem) (exe : Bytes)
    (fuel : ℕ) (server : TcpServer) where
  -- The loop is in front of accept again, with the connection at the end of the queue; no socket was
  -- touched, and every other job was added before.
  abbrev pub IsQueued :
      TcpConnection → Running net sql opts fs exe fuel → Running net sql opts fs exe fuel → Type 0
  IsQueued c s s' =
      ServerReach net sql opts fs exe fuel server s s'
      × (s'.loop ≡ at_accept)
      × (s'.sock ≡ s.sock)
      × (s'.pool.added ≡ s.pool.added ++ job_of c ∷ [])
      × ((rest : List TpoolJob) × (s'.pool.m_queue ≡ rest ++ job_of c ∷ []))

  after_push : TcpConnection → Running net sql opts fs exe fuel → Running net sql opts fs exe fuel
  after_push c s = record s { loop = pushing c; pool = add_push s.pool (job_of c) }

  abbrev pub after_post :
      TcpConnection → Running net sql opts fs exe fuel → Running net sql opts fs exe fuel
  after_post c s = record s { loop = at_accept; pool = add_post (add_push s.pool (job_of c)) }

  -- Behind the test.
  after_test : TcpConnection → Running net sql opts fs exe fuel → Running net sql opts fs exe fuel
  after_test c s = record s { loop = checked c }

  passes :
      (c : TcpConnection) (s : Running net sql opts fs exe fuel)
      → s.loop ≡ accepted c
      → is_ipaddr_blacklisted opts.blacklist_threshold s.stats (get_src_addr net c) ≡ false
      → loop_step net sql opts fs exe fuel server s.loop s ≡ some (after_test c s)
  unfolding loop_step after_test
  passes c s l b = rw (l, loop_step, b) refl

  pushes :
      (c : TcpConnection) (s : Running net sql opts fs exe fuel)
      → s.loop ≡ checked c
      → s.pool.lock ≡ unlocked
      → loop_step net sql opts fs exe fuel server s.loop s ≡ some (after_push c s)
  unfolding loop_step after_push add_push
  pushes c s l k = rw (l, loop_step, k) refl

  refers-queued :
      (c : TcpConnection) (s : Running net sql opts fs exe fuel)
      → refers c.m_fd (after_post c s) ≡ true
  unfolding add_post add_push
  refers-queued c s = ground (arith, among-append c.m_fd s.pool.m_queue (job_of c ∷ []))

  posts :
      (c : TcpConnection) (s : Running net sql opts fs exe fuel)
      → loop_step net sql opts fs exe fuel server (pushing c) (after_push c s)
        ≡ some (after_post c s)
  unfolding loop_step after_push release
  posts c s =
      ap
        (λ b. some (
          if b
          then after_post c s
          else record (after_post c s) { sock = destroy_connection net c s.sock }))
        (refers-queued c s)

  -- A connection that passed the test is pushed and posted, when the mutex is free.
  checked_reaches :
      (c : TcpConnection) (start s : Running net sql opts fs exe fuel)
      → ServerReach net sql opts fs exe fuel server start s
      → s.loop ≡ checked c
      → s.pool.lock ≡ unlocked
      → ServerReach net sql opts fs exe fuel server start (after_post c s)
  unfolding after_push
  checked_reaches c start s r l k =
      moves (moves r (loop_moves s (after_push c s) (pushes c s l k)))
        (loop_moves (after_push c s) (after_post c s) (posts c s))

  pub unlocked_reaches :
      (c : TcpConnection) (start s : Running net sql opts fs exe fuel)
      → ServerReach net sql opts fs exe fuel server start s
      → s.loop ≡ accepted c
      → is_ipaddr_blacklisted opts.blacklist_threshold s.stats (get_src_addr net c) ≡ false
      → s.pool.lock ≡ unlocked
      → ServerReach net sql opts fs exe fuel server start (after_post c s)
  unfolding after_test
  unlocked_reaches c start s r l b k =
      checked_reaches c start (after_test c s)
        (moves r (loop_moves s (after_test c s) (passes c s l b))) refl k

  -- What the pushed connection leaves as it was.
  unlocked-IsQueued :
      (c : TcpConnection) (before s : Running net sql opts fs exe fuel)
      → ServerReach net sql opts fs exe fuel server before s
      → (s.sock ≡ before.sock) × (s.pool.added ≡ before.pool.added)
      → s.loop ≡ checked c
      → s.pool.lock ≡ unlocked
      → (s' : Running net sql opts fs exe fuel) × IsQueued c before s'
  unfolding add_post add_push
  unlocked-IsQueued c before s r (sock, added) l k = (
    after_post c s,
    (
      checked_reaches c before s r l k,
      refl,
      sock,
      ap (λ jobs. jobs ++ job_of c ∷ []) added,
      (s.pool.m_queue, refl),
    ),
  )

  locked-IsQueued :
      (count : ℕ) (c : TcpConnection) (before s : Running net sql opts fs exe fuel)
      (queue : List TpoolJob)
      → IsPool count s.pool
      → ServerReach net sql opts fs exe fuel server before s
      → (s.sock ≡ before.sock) × (s.pool.added ≡ before.pool.added)
      → s.pool.m_queue ≡ queue
      → s.loop ≡ checked c
      → s.pool.lock ≡ getting
      → (s' : Running net sql opts fs exe fuel) × IsQueued c before s'
  locked-IsQueued count c before s [] (size, awake, order, workers) r kept q l k =
      let none_left : length s.pool.m_queue ≡ 0 = ap length q in
      let one : in_get s.pool.lock ≡ 1 = ap in_get k in absurd (omega arith)
  locked-IsQueued count c before s (job ∷ rest) h r kept q l k =
      let pool = served s.pool job rest in
      unlocked-IsQueued c before (record s { pool = pool })
        (moves r
          (worker_moves s pool (worker_takes s.pool pool k (get_front_lem s.pool (job ∷ rest) q))))
        kept l refl

  -- A connection that passed the test gets into the queue, whoever has the mutex.
  pub checked_connection-IsQueued :
      (count : ℕ) (c : TcpConnection) (before s : Running net sql opts fs exe fuel)
      → Reach count s.pool
      → is_pushing net sql opts fs exe fuel s.loop ≡ is_adding s.pool.lock
      → ServerReach net sql opts fs exe fuel server before s
      → (s.sock ≡ before.sock) × (s.pool.added ≡ before.pool.added)
      → s.loop ≡ checked c
      → (s' : Running net sql opts fs exe fuel) × IsQueued c before s'
  checked_connection-IsQueued count c before s pool phase r kept l = go s.pool.lock refl
    where
      go :
          (lock : Lock)
          → s.pool.lock ≡ lock
          → (s' : Running net sql opts fs exe fuel) × IsQueued c before s'
      go unlocked k = unlocked-IsQueued c before s r kept l k
      go adding k =
          let busy : is_pushing net sql opts fs exe fuel s.loop ≡ true = phase ∙ ap is_adding k in
          let idle : is_pushing net sql opts fs exe fuel s.loop ≡ false =
            ap (is_pushing net sql opts fs exe fuel) l in
          absurd cc
      go getting k =
          locked-IsQueued count c before s s.pool.m_queue (Reach-IsPool pool) r kept refl l k

  -- The accepting thread is not held up for good: from any state in which the pool is one that its
  -- own steps get it into and add_job has the mutex exactly if the loop is in it, when the loop has
  -- accepted a connection whose address is not blacklisted, steps of the server lead to a state with
  -- the loop in front of accept again and the connection at the end of the queue, in which no socket
  -- was touched and nothing else was added to the queue.
  pub accepted_connection-IsQueued :
      (count : ℕ) (c : TcpConnection) (s : Running net sql opts fs exe fuel)
      → Reach count s.pool
      → is_pushing net sql opts fs exe fuel s.loop ≡ is_adding s.pool.lock
      → s.loop ≡ accepted c
      → is_ipaddr_blacklisted opts.blacklist_threshold s.stats (get_src_addr net c) ≡ false
      → (s' : Running net sql opts fs exe fuel) × IsQueued c s s'
  unfolding after_test
  accepted_connection-IsQueued count c s pool phase l b =
      checked_connection-IsQueued count c s (after_test c s) pool
        (sym (ap (is_pushing net sql opts fs exe fuel) l) ∙ phase)
        (moves starts (loop_moves s (after_test c s) (passes c s l b))) (refl, refl) refl
