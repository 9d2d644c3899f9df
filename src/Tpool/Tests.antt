-- ===== src/Tpool/Tests.antt =====
-- A pool of one worker that gets a job while the worker is blocked.
use http_file_sharing.Prelude.{◌≡◌, refl, [], ◌∷◌, arith}
use http_file_sharing.Tpool.{
  TpoolJob, wake, post, wait_round, unlocked, getting, TPool, new_tpool, add_push, add_post,
  worker_wait, get_lock, step_push, step_post, step_wait, step_lock, Reach, begun, next,
}
use http_file_sharing.Tpool.Invariant.{IsPool, Reach-IsPool}
use http_file_sharing.Tpool.Refinement.{Serves, no_jobs, Reach-Serves}
use http_file_sharing.Tpool.Fairness.{GetsTo, every_job-GetsTo}
use http_file_sharing.Tpool.Service.{blocked_all_taken}

abbrev job : TpoolJob
job = record { fn_ptr = 1; connection = record { m_fd = 7; m_addr = 1; m_name = [] } }

abbrev fresh : TPool
fresh = record {
  m_queue = [];
  lock = unlocked;
  m_sem = record { m_val = 0; waiting = 1; asleep = 0 };
  woken = 0;
  active = [];
  added = [];
  taken = [];
}

abbrev blocked : TPool
blocked = record fresh { m_sem = record { m_val = 0; waiting = 0; asleep = 1 } }

-- The worker is in front of its pop.
abbrev popping : TPool
popping = record fresh {
  m_queue = job ∷ [];
  lock = getting;
  m_sem = record { m_val = 0; waiting = 0; asleep = 0 };
  added = job ∷ [];
}

to_blocked : Reach 1 blocked
unfolding new_tpool worker_wait wait_round
to_blocked = next (begun fresh refl) (step_wait fresh (omega arith))

to_popping : Reach 1 popping
unfolding add_push add_post post wake worker_wait wait_round get_lock
to_popping =
    let pushed = add_push blocked job in
    let posted = add_post pushed in
    let passed = worker_wait posted in
    next
      (next (next (next to_blocked (step_push blocked job refl)) (step_post pushed refl))
        (step_wait posted (omega arith)))
      (step_lock passed (omega arith) refl)

Reach-IsPool_example : IsPool 1 popping
Reach-IsPool_example = Reach-IsPool to_popping

blocked_all_taken_example : blocked.added ≡ blocked.taken
blocked_all_taken_example = blocked_all_taken to_blocked refl refl refl (omega arith)

Reach-Serves_example : Serves 1 no_jobs (record { pending = job ∷ []; running = [] })
Reach-Serves_example = Reach-Serves to_popping

abbrev second : TpoolJob
second = record { fn_ptr = 1; connection = record { m_fd = 8; m_addr = 2; m_name = [] } }

-- Two jobs are queued, and the worker is on its way.
abbrev two_queued : TPool
two_queued = record fresh {
  m_queue = job ∷ second ∷ [];
  m_sem = record { m_val = 2; waiting = 1; asleep = 0 };
  added = job ∷ second ∷ [];
}

to_two_queued : Reach 1 two_queued
unfolding add_push add_post post wake
to_two_queued =
    let pushed = add_push blocked job in
    let posted = add_post pushed in
    let again = add_push posted second in
    next
      (next (next (next to_blocked (step_push blocked job refl)) (step_post pushed refl))
        (step_push posted second refl))
      (step_post again refl)

every_job-GetsTo_example : (q : TPool) × GetsTo two_queued second [] q
every_job-GetsTo_example = every_job-GetsTo (job ∷ []) second [] to_two_queued (omega arith) refl
