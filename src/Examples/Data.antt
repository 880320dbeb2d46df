-- ===== src/Examples/Data.antt =====
-- A small workload: jobs by their pointers, and the levels that they come into.
use tensor_sched.Prelude.{ℕ, zero, suc, true, [], ◌∷◌, ◌≡◌, refl, pos, count, arith}
use tensor_sched.Job.{JobPriority, Store, new_job, update}
use tensor_sched.SingleLevelQueue
use tensor_sched.MlfqJobQueue.{
  MlfqJobQueue, init, push_at, push_new, requeue_preempted, tick_waiting, pointers,
}
use tensor_sched.MlfqJobQueue.Invariant.{IsValid, init-IsValid}
use tensor_sched.MlfqJobQueue.Pushing.{push_new-Enters, requeue_preempted-Enters}
use tensor_sched.MlfqJobQueue.Views.{tick_waiting-IsValid}

-- Job 1 is critical, job 2 high, all others low; job `p` was submitted at time `p`.
abbrev pub priority_of : ℕ → JobPriority
priority_of (suc zero) = JobPriority.critical
priority_of (suc (suc zero)) = JobPriority.high
priority_of _ = JobPriority.low

abbrev pub jobs : Store
jobs p = new_job p (b'J' ∷ []) (priority_of p) (pos 30) (pos 512) (pos 5) p

-- Job 2 waits on level 0.
abbrev pub one : Store × MlfqJobQueue
one = push_new 5 jobs 2 init

pub one-IsValid : IsValid one.0 one.1
unfolding init SingleLevelQueue.init
one-IsValid = (push_new-Enters 5 jobs 2 init refl (init-IsValid jobs)).valid

-- And job 3 on level 1.
abbrev pub two : Store × MlfqJobQueue
two = requeue_preempted 6 one.0 3 true one.1

pub three_is_out : count 3 (pointers one.1) ≡ 0
unfolding push_new push_at init SingleLevelQueue.init SingleLevelQueue.push SingleLevelQueue.insert
three_is_out = refl

pub two-IsValid : IsValid two.0 two.1
unfolding push_new update
two-IsValid =
    (requeue_preempted-Enters 6 one.0 3 true one.1 (omega arith) three_is_out one-IsValid).valid

-- The store after `n` ticks of the dispatcher's clock.
abbrev pub after_ticks : ℕ → Store
after_ticks zero = two.0
after_ticks (suc n) = tick_waiting (after_ticks n) two.1

pub after_ticks-IsValid : (n : ℕ) → IsValid (after_ticks n) two.1
after_ticks-IsValid zero = two-IsValid
after_ticks-IsValid (suc n) = tick_waiting-IsValid (after_ticks n) two.1 (after_ticks-IsValid n)

-- Jobs that have all waited 20 ticks.
abbrev pub old_jobs : Store
old_jobs p = record (jobs p) { aging_ticks = 20 }
