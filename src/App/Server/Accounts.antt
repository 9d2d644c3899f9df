-- ===== src/App/Server/Accounts.antt =====
-- Histories of updates, and how many requests of an address they have.
use http_file_sharing.Prelude.{
  ℕ, ◌+◌, ◌≤◌, ◌≡◌, refl, sym, ap, ◌∙◌, inl, inr, Bool, true, false, some, List, [], ◌∷◌, ◌++◌,
  arith, if◌then◌else◌, of_some, none-ne-some, Bytes, bytes_eq,
}
use http_file_sharing.Prelude.Int.{ℤ}
use http_file_sharing.Tcp.Net.{NetApi}
use http_file_sharing.Tcp.Server.{get_src_addr}
use http_file_sharing.Tpool.{
  TpoolJob, TPool, wake, wait_round, worker_wait, worker_wake, get_lock, get_front, job_done,
  WorkerStep, worker_tests, worker_wakes, worker_locks, worker_takes,
}
use http_file_sharing.Tpool.Invariant.{served, get_front_lem}
use http_file_sharing.App.Blacklist.{Outcome-cases, Sqlite, done, StatsList, update_ip_addr_stats}
use http_file_sharing.App.Blacklist.Score.{count_of, update_all}

-- The requests of an address in a history.
abbrev pub requests_of : Bytes → List (Bytes × Bool) → ℕ
requests_of ip history = count_of ip true history + count_of ip false history

count_of-append :
    (ip : Bytes) (good : Bool) (xs ys : List (Bytes × Bool))
    → count_of ip good (xs ++ ys) ≡ count_of ip good xs + count_of ip good ys
count_of-append ip good [] ys = omega arith
count_of-append ip good ((j, g) ∷ xs) ys = ground (arith, count_of-append ip good xs ys)

requests_of-append :
    (ip : Bytes) (history : List (Bytes × Bool)) (j : Bytes) (good : Bool)
    → requests_of ip (history ++ (j, good) ∷ [])
      ≡ requests_of ip history + (if bytes_eq j ip then 1 else 0)
requests_of-append ip history j good =
    let a = count_of-append ip true history ((j, good) ∷ []) in
    let b = count_of-append ip false history ((j, good) ∷ []) in ground arith

pub update_all-append :
    (sql : Sqlite) (threshold : ℤ) (history : List (Bytes × Bool)) (ip : Bytes) (good result : Bool)
    (stats mid last : StatsList) (db mid_db last_db : sql.Db)
    → update_all sql threshold history stats db ≡ done (mid, mid_db)
    → update_ip_addr_stats sql threshold ip good mid mid_db ≡ done (result, last, last_db)
    → update_all sql threshold (history ++ (ip, good) ∷ []) stats db ≡ done (last, last_db)
unfolding update_all
update_all-append sql threshold [] ip good result stats mid last db mid_db last_db h u =
    let same : stats ≡ mid = ground arith in
    let same_db : db ≡ mid_db = ground arith in rw (same, same_db, u, update_all) refl
update_all-append sql threshold ((j, g) ∷ history) ip good result stats mid last db mid_db last_db h
      u =
    elim (Outcome-cases (update_ip_addr_stats sql threshold j g stats db)) [
      | inr (inl e) ↦ absurd (ground arith)
      | inr (inr e) ↦ absurd (ground arith)
      | inl ((b, stats', db'), e) ↦
          rw (e, update_all)
            (update_all-append sql threshold history ip good result stats' mid last db' mid_db
              last_db (rw (e, update_all) at h) u)
    ]

module _ (net : NetApi) where
  -- How many of the jobs have a connection from that address.
  abbrev pub jobs_from : Bytes → List TpoolJob → ℕ
  jobs_from ip [] = 0
  jobs_from ip (job ∷ jobs) =
      (if bytes_eq (get_src_addr net job.connection) ip then 1 else 0) + jobs_from ip jobs

  pub jobs_from-append :
      (ip : Bytes) (xs ys : List TpoolJob)
      → jobs_from ip (xs ++ ys) ≡ jobs_from ip xs + jobs_from ip ys
  jobs_from-append ip [] ys = omega arith
  jobs_from-append ip (x ∷ xs) ys = omega (arith, jobs_from-append ip xs ys)

  -- An address has no more running jobs and requests than it had connections that workers took.
  abbrev pub Accounts : List (Bytes × Bool) → TPool → Type 0
  Accounts history p =
      (ip : Bytes) → requests_of ip history + jobs_from ip p.active ≤ jobs_from ip p.taken

  served-Accounts :
      (history : List (Bytes × Bool)) (p q : TPool) (queue : List TpoolJob)
      → p.m_queue ≡ queue
      → get_front p ≡ some q
      → Accounts history p
      → Accounts history q
  served-Accounts history p q [] h f a = absurd (none-ne-some q (sym (get_front_lem p [] h) ∙ f))
  served-Accounts history p q (job ∷ rest) h f a =
      of_some (Accounts history) (served p job rest) q (sym (get_front_lem p (job ∷ rest) h) ∙ f)
        (λ ip. let few = a ip in omega (arith, jobs_from-append ip p.taken (job ∷ [])))

  pub worker-Accounts :
      (history : List (Bytes × Bool)) {p q : TPool}
      → WorkerStep p q
      → Accounts history p
      → Accounts history q
  unfolding worker_wait wait_round worker_wake wake get_lock
  worker-Accounts history (worker_tests p h) a = a
  worker-Accounts history (worker_wakes p h) a = a
  worker-Accounts history (worker_locks p h e) a = a
  worker-Accounts history (worker_takes p q e f) a = served-Accounts history p q p.m_queue refl f a

  -- The job ends, without or with a request that was scored.
  pub done-Accounts :
      (history : List (Bytes × Bool)) (p : TPool) (before : List TpoolJob) (job : TpoolJob)
      (after : List TpoolJob)
      → p.active ≡ before ++ job ∷ after
      → Accounts history p
      → Accounts history (job_done p (before ++ after))
        × ((good : Bool)
            → Accounts
                (history ++ (get_src_addr net job.connection, good) ∷ [])
                (job_done p (before ++ after)))
  unfolding job_done
  done-Accounts history p before job after e a = (
    (λ ip. let few = a ip in let all = total ip in omega arith),
    (λ good ip.
        let few = a ip in
        let all = total ip in
        omega (arith, requests_of-append ip history (get_src_addr net job.connection) good)),
  )
    where
      total :
          (ip : Bytes)
          → jobs_from ip p.active
            ≡ (if bytes_eq (get_src_addr net job.connection) ip then 1 else 0)
              + jobs_from ip (before ++ after)
      total ip =
          ap (jobs_from ip) e
          ∙ omega
              (arith, jobs_from-append ip before (job ∷ after), jobs_from-append ip before after)
