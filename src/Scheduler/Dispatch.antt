-- ===== src/Scheduler/Dispatch.antt =====
-- The dispatcher thread: one round of `runDispatcher`, `checkPreemptions` and `requestPreemption`.
pub mod Preempt
pub mod Cycle
use tensor_sched.Prelude.{
  ℕ, zero, suc, ◌+◌, ◌%◌, Bool, true, false, List, [], ◌∷◌, Option, none, some, ◌==◌, if◌then◌else◌,
  ℤ,
}
use tensor_sched.Job.{Job, JobStatus, priority_value}
use tensor_sched.MlfqJobQueue
use tensor_sched.ResourceManager.{get_free_worker_slot}
use tensor_sched.Scheduler.{Scheduler, put_job, add_log}
use tensor_sched.Scheduler.Records.{SchedulerStats, LogEvent}

abbrev pub is_running : JobStatus → Bool
is_running JobStatus.running = true
is_running _ = false

-- What a won compare-exchange does to the target.
abbrev pub preempt : Job → Job
preempt j = record j { status = JobStatus.preempted; preemption_count = suc j.preemption_count }

module _ {S : Type 0} (text : ℕ → LogEvent → List ℕ) where
  -- The compare-exchange from RUNNING to PREEMPTED, and what follows where it succeeds. A null
  -- pointer is `none`.
  unfoldable pub request_preemption : ℕ → Option ℕ → Scheduler S → Bool × Scheduler S
  request_preemption now none s = (false, s)
  request_preemption now (some target) s =
      let j = s.store target in
      let counted = record s.stats { total_preemptions = suc s.stats.total_preemptions } in
      let s' = put_job target (preempt j) (record s { stats = counted }) in
      if is_running j.status
      then (true, add_log text now (LogEvent.preempted (preempt j)) 4 s')
      else (false, s)

  -- One slot of the loop of `checkPreemptions`.
  unfoldable pub check_slot : ℕ → Option ℕ → Scheduler S → Scheduler S
  check_slot now none s = s
  check_slot now (some job) s =
      let j = s.store job in
      if is_running j.status
      then (if MlfqJobQueue.has_better_candidate s.store s.queue j.mlfq_level
            (priority_value j.priority)
          then (request_preemption now (some job) s).1
          else s)
      else s

  unfoldable pub check_slots : ℕ → List (Option ℕ) → Scheduler S → Scheduler S
  check_slots now [] s = s
  check_slots now (slot ∷ slots) s = check_slots now slots (check_slot now slot s)

  unfoldable pub check_preemptions : ℕ → Scheduler S → Scheduler S
  check_preemptions now s = check_slots now s.active_jobs s

-- The ticking of round `cycle`, a number from 1 on.
unfoldable pub tick : {S : Type 0} → ℕ → Scheduler S → Scheduler S
tick cycle s =
    if cycle % 4 == 0
    then record s {
      store = MlfqJobQueue.tick_waiting s.store s.queue;
      global_tick = suc s.global_tick;
    }
    else s

-- The pop, with the job and the slot number that the new worker gets; `none` where the round ends in
-- the 50 ms sleep.
unfoldable pub pop_job : {S : Type 0} → Scheduler S → Option (ℕ × ℤ) × Scheduler S
pop_job s =
    let (found, q) = MlfqJobQueue.try_pop s.queue in
    let s' = record s { queue = q } in
    elim found [
      | none ↦ (none, s')
      | some job ↦ (some (job, get_free_worker_slot s'.resources), s')
    ]

-- One round of the loop.
unfoldable pub dispatch :
    {S : Type 0} (text : ℕ → LogEvent → List ℕ) → ℕ → ℕ → Scheduler S → Option (ℕ × ℤ) × Scheduler S
dispatch text now cycle s = pop_job (check_preemptions text now (tick cycle s))
