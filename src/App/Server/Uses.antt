-- ===== src/App/Server/Uses.antt =====
-- How many jobs have a connection, before and after a step.
use http_file_sharing.Prelude.{
  ℕ, ◌+◌, ◌≡◌, refl, sym, ap, ◌∙◌, false, some, List, [], ◌∷◌, ◌++◌, arith, ◌==◌, if◌then◌else◌,
  of_some, none-ne-some,
}
use http_file_sharing.Tcp.Server.{TcpConnection}
use http_file_sharing.Tpool.{
  TpoolJob, TPool, wake, wait_round, add_push, add_post, worker_wait, worker_wake, get_lock,
  get_front, job_done, WorkerStep, worker_tests, worker_wakes, worker_locks, worker_takes,
}
use http_file_sharing.Tpool.Invariant.{served, get_front_lem}
use http_file_sharing.App.Server.{Loop, at_accept, accepted, checked, pushing, among}

-- One, if the descriptor is that of the connection.
abbrev pub is_of : ℕ → TcpConnection → ℕ
is_of fd c = if fd == c.m_fd then 1 else 0

-- How many of the jobs have the connection of a descriptor.
abbrev pub uses : ℕ → List TpoolJob → ℕ
uses fd [] = 0
uses fd (job ∷ jobs) = is_of fd job.connection + uses fd jobs

-- One, if the loop has accepted the connection and not yet pushed its job.
abbrev pub in_hand : ℕ → Loop → ℕ
in_hand fd at_accept = 0
in_hand fd (accepted c) = is_of fd c
in_hand fd (checked c) = is_of fd c
in_hand fd (pushing c) = 0

abbrev pub pool_uses : ℕ → TPool → ℕ
pool_uses fd p = uses fd p.m_queue + uses fd p.active

uses-append : (fd : ℕ) (xs ys : List TpoolJob) → uses fd (xs ++ ys) ≡ uses fd xs + uses fd ys
uses-append fd [] ys = omega arith
uses-append fd (x ∷ xs) ys = omega (arith, uses-append fd xs ys)

pub uses-among : (fd : ℕ) (jobs : List TpoolJob) → among fd jobs ≡ false → uses fd jobs ≡ 0
uses-among fd [] h = refl
uses-among fd (job ∷ jobs) h = ground (arith, uses-among fd jobs)

pub pool_uses-push :
    (fd : ℕ) (p : TPool) (job : TpoolJob)
    → pool_uses fd (add_push p job) ≡ is_of fd job.connection + pool_uses fd p
unfolding add_push
pool_uses-push fd p job = omega (arith, uses-append fd p.m_queue (job ∷ []))

pub pool_uses-post : (fd : ℕ) (p : TPool) → pool_uses fd (add_post p) ≡ pool_uses fd p
unfolding add_post
pool_uses-post fd p = refl

pub pool_uses-done :
    (fd : ℕ) (p : TPool) (before : List TpoolJob) (job : TpoolJob) (after : List TpoolJob)
    → p.active ≡ before ++ job ∷ after
    → pool_uses fd p ≡ is_of fd job.connection + pool_uses fd (job_done p (before ++ after))
unfolding job_done
pool_uses-done fd p before job after e =
    ap (λ t. uses fd p.m_queue + uses fd t) e
    ∙ omega (arith, uses-append fd before (job ∷ after), uses-append fd before after)

pool_uses-served :
    (fd : ℕ) (p q : TPool) (queue : List TpoolJob)
    → p.m_queue ≡ queue
    → get_front p ≡ some q
    → pool_uses fd q ≡ pool_uses fd p
pool_uses-served fd p q [] h f = absurd (none-ne-some q (sym (get_front_lem p [] h) ∙ f))
pool_uses-served fd p q (job ∷ rest) h f =
    of_some (λ t. pool_uses fd t ≡ pool_uses fd p) (served p job rest) q
      (sym (get_front_lem p (job ∷ rest) h) ∙ f)
      (let size : uses fd p.m_queue ≡ is_of fd job.connection + uses fd rest = ap (uses fd) h in
        omega arith)

pub pool_uses-worker : (fd : ℕ) {p q : TPool} → WorkerStep p q → pool_uses fd q ≡ pool_uses fd p
unfolding worker_wait wait_round worker_wake wake get_lock
pool_uses-worker fd (worker_tests p h) = refl
pool_uses-worker fd (worker_wakes p h) = refl
pool_uses-worker fd (worker_locks p h e) = refl
pool_uses-worker fd (worker_takes p q e f) = pool_uses-served fd p q p.m_queue refl f
