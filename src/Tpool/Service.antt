-- ===== src/Tpool/Service.antt =====
-- What the invariant means for the jobs.
use http_file_sharing.Prelude.{
  ℕ, ◌<◌, ◌≡◌, refl, ap, ◌∙◌, some, List, [], ◌∷◌, ◌++◌, append-nil, arith, length,
}
use http_file_sharing.Tpool.{TpoolJob, unlocked, getting, TPool, get_front, Reach}
use http_file_sharing.Tpool.Invariant.{in_add, in_get, Reach-IsPool, served, get_front_lem}

split_front :
    (p : TPool) (queue : List TpoolJob)
    → p.m_queue ≡ queue
    → 0 < length queue
    → p.added ≡ p.taken ++ p.m_queue
    → (job : TpoolJob) × (rest : List TpoolJob) × (p.added ≡ p.taken ++ job ∷ rest)
      × (get_front p ≡ some (served p job rest))
split_front p [] e h order = absurd (omega arith)
split_front p (job ∷ rest) e h order =
    (job, rest, order ∙ ap (λ t. p.taken ++ t) e, get_front_lem p (job ∷ rest) e)

-- Whenever a worker holds the mutex in get_job, the queue is not empty: front and pop succeed, and
-- what the worker takes and runs is the oldest added job that no worker has taken yet.
pub get_front_oldest :
    {count : ℕ} {p : TPool}
    → Reach count p
    → p.lock ≡ getting
    → (job : TpoolJob) × (rest : List TpoolJob) × (p.added ≡ p.taken ++ job ∷ rest)
      × (get_front p ≡ some (served p job rest))
get_front_oldest {p = p} r e =
    let (queue, awake, order, workers) = Reach-IsPool r in
    let g : in_get p.lock ≡ 1 = ap in_get e in split_front p p.m_queue refl (omega arith) order

-- No wake-up is lost: when a worker is blocked while the mutex is free and no worker is on its way
-- to it, then no job is queued, so every job that was added has been taken.
pub blocked_all_taken :
    {count : ℕ} {p : TPool}
    → Reach count p
    → p.lock ≡ unlocked
    → p.woken ≡ 0
    → p.m_sem.waiting ≡ 0
    → 0 < p.m_sem.asleep
    → p.added ≡ p.taken
blocked_all_taken {p = p} r e w v h =
    let (queue, awake, order, workers) = Reach-IsPool r in
    let a : in_add p.lock ≡ 0 = ap in_add e in
    let g : in_get p.lock ≡ 0 = ap in_get e in
    let empty : length p.m_queue ≡ 0 = omega arith in
    order ∙ ap (λ t. p.taken ++ t) (length-nil p.m_queue empty) ∙ append-nil p.taken
  where
    length-nil : (l : List TpoolJob) → length l ≡ 0 → l ≡ []
    length-nil [] h = refl
    length-nil (x ∷ l) h = absurd (omega arith)
