-- ===== src/Tpool/Invariant.antt =====
-- What holds in every state of the pool.
use http_file_sharing.Prelude.{
  ℕ, suc, ◌+◌, ◌≤◌, ◌<◌, ◌≡◌, refl, sym, ap, ◌∙◌, ◌⊎◌, none, some, List, [], ◌∷◌, ◌++◌,
  append_assoc, arith, length, length-append,
}
use http_file_sharing.Tpool.{
  TpoolJob, wake, post, wait_round, Lock, unlocked, adding, getting, TPool, new_tpool, add_push,
  add_post, worker_wait, worker_wake, get_lock, get_front, job_done, Step, step_push, step_post,
  step_wait, step_wake, step_lock, step_front, step_done, Reach, begun, next,
}

-- One, if add_job is between its push and its post; and one, if a worker is in front of its pop.
abbrev pub in_add : Lock → ℕ
in_add adding = 1
in_add _ = 0

abbrev pub in_get : Lock → ℕ
in_get getting = 1
in_get _ = 0

-- The queue holds what the semaphore counts and what is on its way from or to it; a thread is
-- blocked only if as many others as the semaphore counts will test its value; the jobs are in the
-- order in which they were added; and no worker is lost.
abbrev pub IsPool : ℕ → TPool → Type 0
IsPool count p =
    (length p.m_queue ≡ p.m_sem.m_val + p.woken + in_add p.lock + in_get p.lock)
    × ((p.m_sem.asleep ≡ 0) ⊎ (p.m_sem.m_val ≤ p.m_sem.waiting))
    × (p.added ≡ p.taken ++ p.m_queue)
    × (p.m_sem.waiting + p.m_sem.asleep + p.woken + in_get p.lock + length p.active ≡ count)

new_tpool-IsPool : (count : ℕ) (p : TPool) → new_tpool count ≡ some p → IsPool count p
unfolding new_tpool
new_tpool-IsPool count p e = ground arith

add_push-IsPool :
    (count : ℕ) (p : TPool) (job : TpoolJob)
    → p.lock ≡ unlocked
    → IsPool count p
    → IsPool count (add_push p job)
unfolding add_push
add_push-IsPool count p job e (queue, awake, order, workers) =
    let a = ap in_add e in
    let g = ap in_get e in
    (
      omega (arith, length-append p.m_queue (job ∷ [])),
      awake,
      rw order (append_assoc p.taken p.m_queue (job ∷ [])),
      omega arith,
    )

add_post-IsPool :
    (count : ℕ) (p : TPool) → p.lock ≡ adding → IsPool count p → IsPool count (add_post p)
unfolding add_post post wake
add_post-IsPool count p e (queue, awake, order, workers) =
    let a = ap in_add e in let g = ap in_get e in ground arith

worker_wait-IsPool :
    (count : ℕ) (p : TPool) → 0 < p.m_sem.waiting → IsPool count p → IsPool count (worker_wait p)
unfolding worker_wait wait_round
worker_wait-IsPool count p h (queue, awake, order, workers) = ground arith

worker_wake-IsPool : (count : ℕ) (p : TPool) → IsPool count p → IsPool count (worker_wake p)
unfolding worker_wake wake
worker_wake-IsPool count p (queue, awake, order, workers) = ground arith

get_lock-IsPool :
    (count : ℕ) (p : TPool)
    → 0 < p.woken
    → p.lock ≡ unlocked
    → IsPool count p
    → IsPool count (get_lock p)
unfolding get_lock
get_lock-IsPool count p h e (queue, awake, order, workers) =
    let a = ap in_add e in let g = ap in_get e in (omega arith, awake, order, omega arith)

-- What front and pop make of a pool whose queue begins with a job.
abbrev pub served : TPool → TpoolJob → List TpoolJob → TPool
served p job rest = record p {
  m_queue = rest;
  lock = unlocked;
  active = job ∷ p.active;
  taken = p.taken ++ job ∷ [];
}

pub get_front_lem :
    (p : TPool) (queue : List TpoolJob)
    → p.m_queue ≡ queue
    → get_front p ≡ elim queue [ [] ↦ none | job ∷ rest ↦ some (served p job rest) ]
unfolding get_front
get_front_lem p [] e = rw (e, get_front)
get_front_lem p (job ∷ rest) e = rw (e, get_front)

pub served-IsPool :
    (count : ℕ) (p : TPool) (job : TpoolJob) (rest : List TpoolJob)
    → p.lock ≡ getting
    → p.m_queue ≡ job ∷ rest
    → IsPool count p
    → IsPool count (served p job rest)
served-IsPool count p job rest e h (queue, awake, order, workers) =
    let a = ap in_add e in
    let g = ap in_get e in
    let size : length p.m_queue ≡ suc (length rest) = ap length h in
    (
      omega arith,
      awake,
      order ∙ ap (λ t. p.taken ++ t) h ∙ sym (append_assoc p.taken (job ∷ []) rest),
      omega arith,
    )

get_front-IsPool :
    (count : ℕ) (p q : TPool) (queue : List TpoolJob)
    → p.m_queue ≡ queue
    → p.lock ≡ getting
    → get_front p ≡ some q
    → IsPool count p
    → IsPool count q
get_front-IsPool count p q [] h e f inv = let none_left = get_front_lem p [] h in absurd cc
get_front-IsPool count p q (job ∷ rest) h e f inv =
    let same : served p job rest ≡ q = some_inj _ _ (sym (get_front_lem p (job ∷ rest) h) ∙ f) in
    rw (sym same) (served-IsPool count p job rest e h inv)
  where
    some_inj : (a b : TPool) → some a ≡ some b → a ≡ b
    some_inj a b e = cc

job_done-IsPool :
    (count : ℕ) (p : TPool) (before : List TpoolJob) (job : TpoolJob) (after : List TpoolJob)
    → p.active ≡ before ++ job ∷ after
    → IsPool count p
    → IsPool count (job_done p (before ++ after))
unfolding job_done
job_done-IsPool count p before job after e (queue, awake, order, workers) =
    let size : length p.active ≡ length before + suc (length after) =
      ap length e ∙ length-append before (job ∷ after) in
    (queue, omega arith, order, omega (arith, length-append before after))

Step-IsPool : (count : ℕ) {p q : TPool} → Step p q → IsPool count p → IsPool count q
Step-IsPool count (step_push p job e) inv = add_push-IsPool count p job e inv
Step-IsPool count (step_post p e) inv = add_post-IsPool count p e inv
Step-IsPool count (step_wait p h) inv = worker_wait-IsPool count p h inv
Step-IsPool count (step_wake p h) inv = worker_wake-IsPool count p inv
Step-IsPool count (step_lock p h e) inv = get_lock-IsPool count p h e inv
Step-IsPool count (step_front p q e f) inv = get_front-IsPool count p q p.m_queue refl e f inv
Step-IsPool count (step_done p before job after e) inv =
    job_done-IsPool count p before job after e inv

-- In every state that a pool of `count` workers gets into, with any interleaving of add_job and the
-- workers: the queue is as long as the semaphore's value, the workers past it and the job of an
-- add_job that is not posted yet make it; no more is counted than threads will look at while one is
-- blocked; the jobs taken and then those queued are the jobs added, in order; and each worker is in
-- wait, past it, in front of its pop, or running one job.
pub Reach-IsPool : {count : ℕ} {p : TPool} → Reach count p → IsPool count p
Reach-IsPool {count = count} (begun p e) = new_tpool-IsPool count p e
Reach-IsPool {count = count} (next r s) = Step-IsPool count s (Reach-IsPool r)
