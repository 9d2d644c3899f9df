-- ===== src/Tpool/Progress.antt =====
-- How a queued job gets to a worker.
use http_file_sharing.Prelude.{
  ℕ, suc, ◌+◌, ◌<◌, ◌≡◌, refl, sym, ap, ◌∙◌, ◌⊎◌, inl, inr, List, [], ◌∷◌, ◌++◌, arith, ltb,
  Bool-cases, length,
}
use http_file_sharing.Tpool.{
  TpoolJob, wait_round, Lock, unlocked, adding, getting, TPool, add_post, worker_wait, get_lock,
  Step, step_post, WorkerStep, worker_tests, worker_locks, worker_takes, WorkerStep-Step, Reach,
  next,
}
use http_file_sharing.Tpool.Invariant.{IsPool, in_add, in_get, served, get_front_lem, Reach-IsPool}

-- Steps of any threads, one after the other.
pub data Steps : TPool → TPool → Type 0 where
  no_step : (p : TPool) → Steps p p
  one_step : {p q r : TPool} → Step p q → Steps q r → Steps p r

-- Steps of the workers that are not running a job.
pub data WorkerSteps : TPool → TPool → Type 0 where
  no_worker_step : (p : TPool) → WorkerSteps p p
  one_worker_step : {p q r : TPool} → WorkerStep p q → WorkerSteps q r → WorkerSteps p r

WorkerSteps-Steps : {p q : TPool} → WorkerSteps p q → Steps p q
WorkerSteps-Steps (no_worker_step p) = no_step p
WorkerSteps-Steps (one_worker_step s more) = one_step (WorkerStep-Step s) (WorkerSteps-Steps more)

-- The job at the front has begun to run, no other job was added, taken or ended, and the mutex is
-- free.
abbrev pub Starts : TPool → TpoolJob → TPool → Type 0
Starts p job q =
    (q.active ≡ job ∷ p.active)
    × (q.added ≡ p.added)
    × (q.taken ≡ p.taken ++ job ∷ [])
    × (p.m_queue ≡ job ∷ q.m_queue)
    × (q.lock ≡ unlocked)

abbrev pub CanStart : TPool → TpoolJob → Type 0
CanStart p job = (q : TPool) × WorkerSteps p q × Starts p job q

pub front-Starts :
    (p : TPool) (job : TpoolJob) (rest : List TpoolJob)
    → p.lock ≡ getting
    → p.m_queue ≡ job ∷ rest
    → CanStart p job
front-Starts p job rest e h = (
  served p job rest,
  one_worker_step (worker_takes p (served p job rest) e (get_front_lem p (job ∷ rest) h))
      (no_worker_step (served p job rest)),
  (refl, refl, refl, h, refl),
)

lock-Starts :
    (p : TPool) (job : TpoolJob) (rest : List TpoolJob)
    → p.lock ≡ unlocked
    → 0 < p.woken
    → p.m_queue ≡ job ∷ rest
    → CanStart p job
unfolding get_lock
lock-Starts p job rest e w h =
    let (q, steps, starts) = front-Starts (get_lock p) job rest refl h in
    (q, one_worker_step (worker_locks p w e) steps, starts)

-- A worker that tests a positive value passes.
wait-passes :
    (p : TPool)
    → 0 < p.m_sem.m_val
    → ((worker_wait p).woken ≡ p.woken + 1)
      × ((worker_wait p).lock ≡ p.lock)
      × ((worker_wait p).m_queue ≡ p.m_queue)
      × ((worker_wait p).active ≡ p.active)
      × ((worker_wait p).added ≡ p.added)
      × ((worker_wait p).taken ≡ p.taken)
unfolding worker_wait wait_round
wait-passes p h = ground arith

wait-Starts :
    (p : TPool) (job : TpoolJob) (rest : List TpoolJob)
    → p.lock ≡ unlocked
    → 0 < p.m_sem.m_val
    → 0 < p.m_sem.waiting
    → p.m_queue ≡ job ∷ rest
    → CanStart p job
wait-Starts p job rest e v w h =
    let (woken, lock, queue, active, added, taken) = wait-passes p v in
    let (q, steps, (runs, same, order, front, free)) =
      lock-Starts (worker_wait p) job rest (lock ∙ e) (omega arith) (queue ∙ h) in
    (
      q,
      one_worker_step (worker_tests p w) steps,
      (
        runs ∙ ap (λ t. job ∷ t) active,
        same ∙ added,
        order ∙ ap (λ t. t ++ job ∷ []) taken,
        sym queue ∙ front,
        free,
      ),
    )

pub unlocked-Starts :
    (count : ℕ) (p : TPool) (job : TpoolJob) (rest : List TpoolJob)
    → IsPool count p
    → p.lock ≡ unlocked
    → p.m_queue ≡ job ∷ rest
    → length p.active < count
    → CanStart p job
unlocked-Starts count p job rest (queue, awake, order, workers) e h room =
    let a : in_add p.lock ≡ 0 = ap in_add e in
    let g : in_get p.lock ≡ 0 = ap in_get e in
    let size : length p.m_queue ≡ suc (length rest) = ap length h in
    elim (Bool-cases (ltb 0 p.woken)) [
      | inl w ↦ lock-Starts p job rest e (ground arith) h
      | inr w ↦
          let nobody : p.woken ≡ 0 = ground arith in
          wait-Starts p job rest e (omega arith) (omega arith) h
    ]

-- Whenever a job is first in the queue and fewer than `count` jobs run, the threads that are in the
-- pool can bring it to a worker, without a further job being added or a running job having to end.
pub queued_job-Starts :
    {count : ℕ} {p : TPool} {job : TpoolJob} {rest : List TpoolJob}
    → Reach count p
    → p.m_queue ≡ job ∷ rest
    → length p.active < count
    → (q : TPool) × Steps p q × Starts p job q
unfolding add_post
queued_job-Starts {count = count} {p = p} {job = job} {rest = rest} r h room =
    elim (lock_cases p.lock) [
      | inl e ↦
          let (q, steps, starts) = unlocked-Starts count p job rest (Reach-IsPool r) e h room in
          (q, WorkerSteps-Steps steps, starts)
      | inr (inl e) ↦
          let (q, steps, starts) =
            unlocked-Starts count (add_post p) job rest (Reach-IsPool (next r (step_post p e))) refl
              h room in
          (q, one_step (step_post p e) (WorkerSteps-Steps steps), starts)
      | inr (inr e) ↦
          let (q, steps, starts) = front-Starts p job rest e h in
          (q, WorkerSteps-Steps steps, starts)
    ]
  where
    lock_cases : (l : Lock) → (l ≡ unlocked) ⊎ (l ≡ adding) ⊎ (l ≡ getting)
    lock_cases unlocked = inl refl
    lock_cases adding = inr (inl refl)
    lock_cases getting = inr (inr refl)
