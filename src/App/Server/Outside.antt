-- ===== src/App/Server/Outside.antt =====
-- Addresses that have no job in the pool, and blacklisted scores.
use http_file_sharing.Prelude.{
  ℕ, ◌+◌, ◌≡◌, refl, sym, ap, ◌∙◌, inl, inr, Bool, true, false, some, List, [], ◌∷◌, ◌++◌, arith,
  Bool-cases, Option-cases, of_some, none-ne-some, Bytes, bytes_eq,
}
use http_file_sharing.Prelude.Int.{ℤ, ltb_ℤ}
use http_file_sharing.Prelude.Dict.{find}
use http_file_sharing.Tcp.Net.{NetApi}
use http_file_sharing.Tcp.Server.{get_src_addr}
use http_file_sharing.Tpool.{
  TpoolJob, TPool, wake, wait_round, add_push, worker_wait, worker_wake, get_lock, get_front,
  job_done, WorkerStep, worker_tests, worker_wakes, worker_locks, worker_takes,
}
use http_file_sharing.Tpool.Invariant.{get_front_lem, served}
use http_file_sharing.App.Blacklist.{StatsList, is_ipaddr_blacklisted}
use http_file_sharing.App.Server.{Loop, checked}
use http_file_sharing.App.Server.Accounts.{jobs_from, jobs_from-append}

module _ (net : NetApi) (ip : Bytes) where
  -- The jobs of the address that wait or run, and all that were ever added.
  abbrev pub pending : TPool → ℕ
  pending p = jobs_from net ip p.m_queue + jobs_from net ip p.active

  abbrev pub admitted : TPool → ℕ
  admitted p = jobs_from net ip p.added

  -- Whether the accepting thread holds a connection of the address that passed the test of the
  -- blacklist, and has not pushed it yet.
  abbrev pub passed : Loop → Bool
  passed (checked c) = bytes_eq (get_src_addr net c) ip
  passed _ = false

  -- The address has nothing pending, and as many jobs were added for it as that.
  abbrev pub IsOut : ℕ → TPool → Type 0
  IsOut n p = (pending p ≡ 0) × (admitted p ≡ n)

  pub push-IsOut :
      (n : ℕ) (p : TPool) (job : TpoolJob)
      → bytes_eq (get_src_addr net job.connection) ip ≡ false
      → IsOut n p
      → IsOut n (add_push p job)
  unfolding add_push
  push-IsOut n p job other (none_pending, before) = (
    omega (arith, jobs_from-append net ip p.m_queue (job ∷ []), other_job),
    omega (arith, jobs_from-append net ip p.added (job ∷ []), other_job),
  )
    where
      other_job : jobs_from net ip (job ∷ []) ≡ 0
      other_job = rw other (omega arith)

  served-IsOut :
      (n : ℕ) (p q : TPool) (queue : List TpoolJob)
      → p.m_queue ≡ queue
      → get_front p ≡ some q
      → IsOut n p
      → IsOut n q
  served-IsOut n p q [] h f out = absurd (none-ne-some q (sym (get_front_lem p [] h) ∙ f))
  served-IsOut n p q (job ∷ rest) h f (none_pending, before) =
      let size : jobs_from net ip p.m_queue ≡ jobs_from net ip (job ∷ rest) =
        ap (jobs_from net ip) h in
      of_some (IsOut n) (served p job rest) q (sym (get_front_lem p (job ∷ rest) h) ∙ f)
        (omega arith, before)

  pub worker-IsOut : (n : ℕ) {p q : TPool} → WorkerStep p q → IsOut n p → IsOut n q
  unfolding worker_wait wait_round worker_wake wake get_lock
  worker-IsOut n (worker_tests p h) out = out
  worker-IsOut n (worker_wakes p h) out = out
  worker-IsOut n (worker_locks p h e) out = out
  worker-IsOut n (worker_takes p q e f) out = served-IsOut n p q p.m_queue refl f out

  -- A job that runs is of another address.
  pub done-IsOut :
      (n : ℕ) (p : TPool) (before : List TpoolJob) (job : TpoolJob) (after : List TpoolJob)
      → p.active ≡ before ++ job ∷ after
      → IsOut n p
      → IsOut n (job_done p (before ++ after))
        × (bytes_eq (get_src_addr net job.connection) ip ≡ false)
  unfolding job_done
  done-IsOut n p before job after e (none_pending, added) =
      let size : jobs_from net ip p.active ≡ jobs_from net ip (before ++ job ∷ after) =
        ap (jobs_from net ip) e in
      let parts = jobs_from-append net ip before (job ∷ after) in
      let rest = jobs_from-append net ip before after in
      (
        (omega arith, added),
        elim (Bool-cases (bytes_eq (get_src_addr net job.connection) ip)) [
          | inl mine ↦
              let one : jobs_from net ip (job ∷ after) ≡ 1 + jobs_from net ip after =
                rw mine refl in
              absurd (omega arith)
          | inr other ↦ other
        ],
      )

pub blacklisted_score :
    (threshold : ℤ) (stats : StatsList) (ip : Bytes)
    → is_ipaddr_blacklisted threshold stats ip ≡ true
    → (score : ℤ) × (find ip stats ≡ some score) × (ltb_ℤ score threshold ≡ true)
unfolding is_ipaddr_blacklisted
blacklisted_score threshold stats ip h = elim (Option-cases (find ip stats)) [
  | inl e ↦ absurd (let b = rw (e, is_ipaddr_blacklisted) at h in cc)
  | inr (score, e) ↦ (score, e, rw (e, is_ipaddr_blacklisted) at h)
]

pub score_blacklisted :
    (threshold score : ℤ) (stats : StatsList) (ip : Bytes)
    → find ip stats ≡ some score
    → ltb_ℤ score threshold ≡ true
    → is_ipaddr_blacklisted threshold stats ip ≡ true
unfolding is_ipaddr_blacklisted
score_blacklisted threshold score stats ip e low = rw (e, is_ipaddr_blacklisted) low
