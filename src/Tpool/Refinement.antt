-- ===== src/Tpool/Refinement.antt =====
-- The pool as its users see it: jobs that wait in order, and at most so many that run.
use http_file_sharing.Prelude.{
  ℕ, ◌<◌, ◌≡◌, refl, sym, ap, ◌∙◌, ◌⊎◌, inl, inr, some, List, [], ◌∷◌, ◌++◌, arith, length,
}
use http_file_sharing.Tpool.{
  TpoolJob, TPool, new_tpool, add_push, add_post, worker_wait, worker_wake, get_lock, get_front,
  job_done, Step, step_push, step_post, step_wait, step_wake, step_lock, step_front, step_done,
  Reach, begun, next,
}
use http_file_sharing.Tpool.Invariant.{Reach-IsPool, in_get, served, get_front_lem}

pub record Service : Type 0 where
  pub pending : List TpoolJob
  pub running : List TpoolJob

-- What a pool of `count` workers promises: a job is put behind those that wait; the first that waits
-- starts if fewer than `count` run; and any job that runs may end.
pub data Serve (count : ℕ) : Service → Service → Type 0 where
  submit :
      (s : Service) (job : TpoolJob) → Serve count s (record s { pending = s.pending ++ job ∷ [] })
  start :
      (s : Service) (job : TpoolJob) (rest : List TpoolJob)
      → s.pending ≡ job ∷ rest
      → length s.running < count
      → Serve count s (record { pending = rest; running = job ∷ s.running })
  finish :
      (s : Service) (before : List TpoolJob) (job : TpoolJob) (after : List TpoolJob)
      → s.running ≡ before ++ job ∷ after
      → Serve count s (record s { running = before ++ after })

pub data Serves (count : ℕ) : Service → Service → Type 0 where
  idle : (s : Service) → Serves count s s
  then_serve : {s t u : Service} → Serves count s t → Serve count t u → Serves count s u

abbrev pub view : TPool → Service
view p = record { pending = p.m_queue; running = p.active }

abbrev pub no_jobs : Service
no_jobs = record { pending = []; running = [] }

front-start :
    (count : ℕ) (p q : TPool) (queue : List TpoolJob)
    → p.m_queue ≡ queue
    → length p.active < count
    → get_front p ≡ some q
    → Serve count (view p) (view q)
front-start count p q [] h room f = let none_left = get_front_lem p [] h in absurd cc
front-start count p q (job ∷ rest) h room f =
    let same : some (served p job rest) ≡ some q = sym (get_front_lem p (job ∷ rest) h) ∙ f in
    rw (sym (some_inj _ _ same)) (start (view p) job rest h room)
  where
    some_inj : (a b : TPool) → some a ≡ some b → a ≡ b
    some_inj a b e = cc

Step-Serve :
    {count : ℕ} {p q : TPool}
    → Reach count p
    → Step p q
    → (view q ≡ view p) ⊎ Serve count (view p) (view q)
unfolding add_push add_post worker_wait worker_wake get_lock job_done
Step-Serve r (step_push p job e) = inr (submit (view p) job)
Step-Serve r (step_post p e) = inl refl
Step-Serve r (step_wait p h) = inl refl
Step-Serve r (step_wake p h) = inl refl
Step-Serve r (step_lock p h e) = inl refl
Step-Serve r (step_front p q e f) =
    let (queue, awake, order, workers) = Reach-IsPool r in
    let g : in_get p.lock ≡ 1 = ap in_get e in
    inr (front-start _ p q p.m_queue refl (omega arith) f)
Step-Serve r (step_done p before job after e) = inr (finish (view p) before job after e)

begun-view : (count : ℕ) (p : TPool) → new_tpool count ≡ some p → view p ≡ no_jobs
unfolding new_tpool
begun-view count p e = ground arith

-- The pool refines the service: whatever its threads do from the constructor on, the jobs that are
-- queued and those that run develop by submitting at the end, starting the first while fewer than
-- `count` run, and ending; the mutex, the semaphore and the wake-ups are not seen.
pub Reach-Serves : {count : ℕ} {p : TPool} → Reach count p → Serves count no_jobs (view p)
Reach-Serves (begun p e) = rw (begun-view _ p e) (idle no_jobs)
Reach-Serves (next r s) = elim (Step-Serve r s) [
  | inl same ↦ rw same (Reach-Serves r)
  | inr serve ↦ then_serve (Reach-Serves r) serve
]
