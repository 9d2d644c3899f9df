-- ===== src/Tpool.antt =====
-- src/framework/tpool/semaphore.cpp and src/framework/tpool/tpool.cpp: a pool of worker threads on
-- one queue. A step is what a thread does while it holds a mutex, so steps of the accepting thread
-- and of the workers alternate freely.
pub mod Invariant
pub mod Progress
pub mod Fairness
pub mod Refinement
pub mod Service
pub mod Tests
use http_file_sharing.Prelude.{
  ℕ, ◌+◌, ◌-◌, ◌<◌, ◌≡◌, Bool, true, false, Option, none, some, List, [], ◌∷◌, ◌++◌, ltb, ◌==◌,
  if◌then◌else◌,
}
use http_file_sharing.Tcp.Server.{TcpConnection}

-- _TPool_job: the value of the function pointer, and the connection, whose object does not change
-- while it is shared.
pub record TpoolJob : Type 0 where
  pub fn_ptr : ℕ
  pub connection : TcpConnection

-- The semaphore, with the threads that are inside wait: those that are about to test the value, and
-- those that are blocked in the condition variable.
pub record Semaphore : Type 0 where
  pub m_val : ℕ
  pub waiting : ℕ
  pub asleep : ℕ

-- Semaphore::Semaphore with an initial value, and the one without
abbrev pub initial_semaphore : ℕ → Semaphore
initial_semaphore initial_val = record { m_val = initial_val; waiting = 0; asleep = 0 }

abbrev pub new_semaphore : Semaphore
new_semaphore = initial_semaphore 0

-- notify_one, and also a wake-up without a notification: one blocked thread tests the value again.
unfoldable pub wake : Semaphore → Semaphore
wake s = if s.asleep == 0 then s else record s { waiting = s.waiting + 1; asleep = s.asleep - 1 }

-- Semaphore::post
pub post : Semaphore → Semaphore
unfolding wake
post s = wake (record s { m_val = s.m_val + 1 })

-- One test of the loop of Semaphore::wait by a thread that holds the mutex: it blocks, or it takes
-- one and returns, which the flag tells.
unfoldable pub wait_round : Semaphore → Semaphore × Bool
wait_round s =
    if s.m_val == 0
    then (record s { waiting = s.waiting - 1; asleep = s.asleep + 1 }, false)
    else (record s { m_val = s.m_val - 1; waiting = s.waiting - 1 }, true)

-- Who holds m_queue_mutex: nobody, add_job between its push and its post, or get_job.
pub data Lock : Type 0 where
  unlocked adding getting : Lock

-- The pool: its queue, its mutex and its semaphore; the number of workers that have returned from
-- wait and want the mutex; the jobs that run; and the jobs that were ever added and ever taken, in
-- order.
pub record TPool : Type 0 where
  pub m_queue : List TpoolJob
  pub lock : Lock
  pub m_sem : Semaphore
  pub woken : ℕ
  pub active : List TpoolJob
  pub added : List TpoolJob
  pub taken : List TpoolJob

abbrev pub tpool_max_workers : ℕ
tpool_max_workers = 10

-- The constructor; `none` is its exception. Each worker begins with wait.
unfoldable pub new_tpool : ℕ → Option TPool
new_tpool count =
    if ltb tpool_max_workers count
    then none
    else some (record {
      m_queue = [];
      lock = unlocked;
      m_sem = record new_semaphore { waiting = count };
      woken = 0;
      active = [];
      added = [];
      taken = [];
    })

-- add_job up to its push, and its post with the release of the mutex.
unfoldable pub add_push : TPool → TpoolJob → TPool
add_push p job = record p {
  m_queue = p.m_queue ++ job ∷ [];
  lock = adding;
  added = p.added ++ job ∷ [];
}

unfoldable pub add_post : TPool → TPool
unfolding post
add_post p = record p { lock = unlocked; m_sem = post p.m_sem }

-- One test of a worker in wait.
unfoldable pub worker_wait : TPool → TPool
unfolding wait_round
worker_wait p =
    let (sem, passed) = wait_round p.m_sem in
    record p { m_sem = sem; woken = if passed then p.woken + 1 else p.woken }

unfoldable pub worker_wake : TPool → TPool
unfolding wake
worker_wake p = record p { m_sem = wake p.m_sem }

-- get_job behind wait: the mutex, then front and pop; `none` is a call on an empty queue.
unfoldable pub get_lock : TPool → TPool
get_lock p = record p { lock = getting; woken = p.woken - 1 }

unfoldable pub get_front : TPool → Option TPool
get_front p = elim p.m_queue [
  | [] ↦ none
  | job ∷ queue ↦ some (record p {
    m_queue = queue;
    lock = unlocked;
    active = job ∷ p.active;
    taken = p.taken ++ job ∷ [];
  })
]

-- A job ends, and its worker calls get_job again.
unfoldable pub job_done : TPool → List TpoolJob → TPool
job_done p rest = record p {
  active = rest;
  m_sem = record (p.m_sem) { waiting = p.m_sem.waiting + 1 };
}

-- What the threads can do next.
pub data Step : TPool → TPool → Type 0 where
  step_push : (p : TPool) (job : TpoolJob) → p.lock ≡ unlocked → Step p (add_push p job)
  step_post : (p : TPool) → p.lock ≡ adding → Step p (add_post p)
  step_wait : (p : TPool) → 0 < p.m_sem.waiting → Step p (worker_wait p)
  step_wake : (p : TPool) → 0 < p.m_sem.asleep → Step p (worker_wake p)
  step_lock : (p : TPool) → 0 < p.woken → p.lock ≡ unlocked → Step p (get_lock p)
  step_front : (p q : TPool) → p.lock ≡ getting → get_front p ≡ some q → Step p q
  step_done :
      (p : TPool) (before : List TpoolJob) (job : TpoolJob) (after : List TpoolJob)
      → p.active ≡ before ++ job ∷ after
      → Step p (job_done p (before ++ after))

-- The steps of the workers that are not running a job.
pub data WorkerStep : TPool → TPool → Type 0 where
  worker_tests : (p : TPool) → 0 < p.m_sem.waiting → WorkerStep p (worker_wait p)
  worker_wakes : (p : TPool) → 0 < p.m_sem.asleep → WorkerStep p (worker_wake p)
  worker_locks : (p : TPool) → 0 < p.woken → p.lock ≡ unlocked → WorkerStep p (get_lock p)
  worker_takes : (p q : TPool) → p.lock ≡ getting → get_front p ≡ some q → WorkerStep p q

pub WorkerStep-Step : {p q : TPool} → WorkerStep p q → Step p q
WorkerStep-Step (worker_tests p h) = step_wait p h
WorkerStep-Step (worker_wakes p h) = step_wake p h
WorkerStep-Step (worker_locks p h e) = step_lock p h e
WorkerStep-Step (worker_takes p q e f) = step_front p q e f

-- The states that a pool of that many workers can get into.
pub data Reach (count : ℕ) : TPool → Type 0 where
  begun : (p : TPool) → new_tpool count ≡ some p → Reach count p
  next : {p q : TPool} → Reach count p → Step p q → Reach count q
