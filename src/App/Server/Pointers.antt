-- ===== src/App/Server/Pointers.antt =====
-- Which pointers to a connection there are, before and after a step.
use http_file_sharing.Prelude.{
  ℕ, ◌≡◌, refl, sym, ap, ◌∙◌, Bool, true, false, ◌||◌, some, List, [], ◌∷◌, ◌++◌, arith, ◌==◌,
}
use http_file_sharing.Tpool.{
  TpoolJob, Lock, unlocked, adding, TPool, wake, wait_round, add_push, add_post, worker_wait,
  worker_wake, get_lock, get_front, job_done, WorkerStep, worker_tests, worker_wakes, worker_locks,
  worker_takes,
}
use http_file_sharing.Tpool.Invariant.{served, get_front_lem}
use http_file_sharing.App.Server.{among}

-- Whether the pool has a job with the connection of a descriptor.
abbrev pub in_pool : ℕ → TPool → Bool
in_pool fd p = among fd p.m_queue || among fd p.active

pub among-append :
    (fd : ℕ) (xs ys : List TpoolJob) → among fd (xs ++ ys) ≡ (among fd xs || among fd ys)
among-append fd [] ys = refl
among-append fd (x ∷ xs) ys = ground (arith, among-append fd xs ys)

pub in_pool-push :
    (fd : ℕ) (p : TPool) (job : TpoolJob)
    → in_pool fd (add_push p job) ≡ (fd == job.connection.m_fd || in_pool fd p)
unfolding add_push
in_pool-push fd p job = ground (arith, among-append fd p.m_queue (job ∷ []))

pub in_pool-post : (fd : ℕ) (p : TPool) → in_pool fd (add_post p) ≡ in_pool fd p
unfolding add_post
in_pool-post fd p = refl

pub in_pool-done :
    (fd : ℕ) (p : TPool) (before : List TpoolJob) (job : TpoolJob) (after : List TpoolJob)
    → p.active ≡ before ++ job ∷ after
    → in_pool fd p ≡ (fd == job.connection.m_fd || in_pool fd (job_done p (before ++ after)))
unfolding job_done
in_pool-done fd p before job after e =
    ap (λ t. among fd p.m_queue || among fd t) e
    ∙ ground (arith, among-append fd before (job ∷ after), among-append fd before after)

in_pool-served :
    (fd : ℕ) (p q : TPool) (queue : List TpoolJob)
    → p.m_queue ≡ queue
    → get_front p ≡ some q
    → (in_pool fd q ≡ in_pool fd p) × (q.lock ≡ unlocked)
in_pool-served fd p q [] h f = let none_left = get_front_lem p [] h in absurd cc
in_pool-served fd p q (job ∷ rest) h f =
    let same : served p job rest ≡ q = some_inj _ _ (sym (get_front_lem p (job ∷ rest) h) ∙ f) in
    rw (sym same, h) (flags (fd == job.connection.m_fd) (among fd rest) (among fd p.active), refl)
  where
    some_inj : (a b : TPool) → some a ≡ some b → a ≡ b
    some_inj a b e = cc

    flags : (a b c : Bool) → (b || (a || c)) ≡ ((a || b) || c)
    flags true true c = refl
    flags true false c = refl
    flags false true c = refl
    flags false false c = refl

abbrev pub is_adding : Lock → Bool
is_adding adding = true
is_adding _ = false

-- A worker that looks for a job moves it at most from the queue to the jobs that run, and leaves the
-- mutex to add_job.
pub in_pool-worker :
    {p q : TPool}
    → WorkerStep p q
    → ((fd : ℕ) → in_pool fd q ≡ in_pool fd p) × (is_adding q.lock ≡ is_adding p.lock)
unfolding worker_wait wait_round worker_wake wake get_lock
in_pool-worker (worker_tests p h) = ((λ fd. refl), refl)
in_pool-worker (worker_wakes p h) = ((λ fd. refl), refl)
in_pool-worker (worker_locks p h e) = ((λ fd. refl), sym (ap is_adding e))
in_pool-worker (worker_takes p q e f) = (
  (λ fd. (in_pool-served fd p q p.m_queue refl f).0),
  ap is_adding (in_pool-served 0 p q p.m_queue refl f).1 ∙ sym (ap is_adding e),
)
