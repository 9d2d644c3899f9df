-- ===== src/Tpool/Fairness.antt =====
-- How every queued job gets to a worker, whatever is in front of it.
use http_file_sharing.Prelude.{
  ℕ, suc, ◌≤◌, ◌<◌, ◌≡◌, refl, sym, ap, ◌∙◌, List, [], ◌∷◌, ◌++◌, arith, length,
}
use http_file_sharing.Tpool.{TpoolJob, TPool, job_done, step_done, Reach, next}
use http_file_sharing.Tpool.Invariant.{Reach-IsPool}
use http_file_sharing.Tpool.Progress.{Steps, no_step, one_step, queued_job-Starts}

Steps-trans : {p q r : TPool} → Steps p q → Steps q r → Steps p r
Steps-trans (no_step p) more = more
Steps-trans (one_step s steps) more = one_step s (Steps-trans steps more)

Reach-Steps : {count : ℕ} {p q : TPool} → Reach count p → Steps p q → Reach count q
Reach-Steps r (no_step p) = r
Reach-Steps r (one_step s steps) = Reach-Steps (next r s) steps

-- There is a worker without a job, or there is one once a job has ended.
HasRoom : ℕ → TPool → Type 0
HasRoom count p =
    (q : TPool) × Steps p q
    × (q.added ≡ p.added)
    × (q.m_queue ≡ p.m_queue)
    × (length q.active < count)

makes_room :
    (count : ℕ) (p : TPool) (active : List TpoolJob)
    → p.active ≡ active
    → 0 < count
    → length p.active ≤ count
    → HasRoom count p
unfolding HasRoom job_done
makes_room count p [] e some_workers h =
    let none_runs : length p.active ≡ 0 = ap length e in (p, no_step p, refl, refl, omega arith)
makes_room count p (job ∷ rest) e some_workers h =
    let size : length p.active ≡ suc (length rest) = ap length e in
    (
      job_done p rest,
      one_step (step_done p [] job rest e) (no_step (job_done p rest)),
      refl,
      refl,
      omega arith,
    )

room : {count : ℕ} {p : TPool} → Reach count p → 0 < count → HasRoom count p
room {count} {p} r some_workers =
    let (queue, awake, order, workers) = Reach-IsPool r in
    makes_room count p p.active refl some_workers (omega arith)

tail_eq : (job : TpoolJob) (xs ys : List TpoolJob) → job ∷ xs ≡ job ∷ ys → xs ≡ ys
tail_eq job xs ys e = cc

-- The job runs, what was behind it in the queue is still there, and nothing was added.
abbrev pub GetsTo : TPool → TpoolJob → List TpoolJob → TPool → Type 0
GetsTo p job rest q =
    Steps p q
    × ((others : List TpoolJob) × (q.active ≡ job ∷ others))
    × (q.m_queue ≡ rest)
    × (q.added ≡ p.added)

front-GetsTo :
    {count : ℕ} {p : TPool} (job : TpoolJob) (rest : List TpoolJob)
    → Reach count p
    → 0 < count
    → p.m_queue ≡ job ∷ rest
    → (q : TPool) × GetsTo p job rest q
unfolding HasRoom
front-GetsTo {count} {p} job rest r some_workers h =
    let (p1, steps, added, queue, free) = room r some_workers in
    let (q, more, (active, added', taken, behind, lock)) =
      queued_job-Starts {job = job} {rest = rest} (Reach-Steps r steps) (queue ∙ h) free in
    (
      q,
      (
        Steps-trans steps more,
        (p1.active, active),
        tail_eq job q.m_queue rest (sym behind ∙ queue ∙ h),
        added' ∙ added,
      ),
    )

-- No job starves: from any state of a pool with a worker, for every job in the queue, whatever is
-- in front of it, the threads of the pool can get to a state in which that job runs and just the jobs
-- behind it are queued, without a further job being added.
pub every_job-GetsTo :
    {count : ℕ} (before : List TpoolJob) {p : TPool} (job : TpoolJob) (rest : List TpoolJob)
    → Reach count p
    → 0 < count
    → p.m_queue ≡ before ++ job ∷ rest
    → (q : TPool) × GetsTo p job rest q
every_job-GetsTo [] job rest r some_workers h = front-GetsTo job rest r some_workers h
every_job-GetsTo (first ∷ before) job rest r some_workers h =
    let (p1, (steps, runs, queue, added)) =
      front-GetsTo first (before ++ job ∷ rest) r some_workers h in
    let (q, (more, runs', queue', added')) =
      every_job-GetsTo before job rest (Reach-Steps r steps) some_workers queue in
    (q, (Steps-trans steps more, runs', queue', added' ∙ added))
