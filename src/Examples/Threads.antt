-- ===== src/Examples/Threads.antt =====
-- scheduler.cpp on the small workload.
use tensor_sched.Prelude.{
  ℕ, count, true, List, [], ◌∷◌, ◌≡◌, refl, some, none, arith, ◌==◌, if◌then◌else◌, ap,
}
use tensor_sched.Job.{update, Job, JobStatus}
use tensor_sched.SingleLevelQueue
use tensor_sched.MlfqJobQueue
use tensor_sched.MlfqJobQueue.{pointers}
use tensor_sched.SingleLevelQueue.Tick.{wait}
use tensor_sched.MlfqJobQueue.Invariant.{IsValid, init-IsValid, AreLevels-AgreesOn}
use tensor_sched.Semaphore.{counter}
use tensor_sched.Scheduler.{Scheduler, new_scheduler, submit_job}
use tensor_sched.Scheduler.Records.{LogEvent}
use tensor_sched.Scheduler.Worker.{slice, finish}
use tensor_sched.Scheduler.Worker.Finish.{Leaves, finish_lem}
use tensor_sched.Scheduler.Worker.Slice.{Ends, slice_runs}
use tensor_sched.Scheduler.Dispatch.{dispatch, check_preemptions, request_preemption}
use tensor_sched.Scheduler.Dispatch.Cycle.{IsApart, dispatch_lem}
use tensor_sched.Scheduler.Dispatch.Preempt.{
  yielded, request_preemption_once, check_preemptions_lem,
}
use tensor_sched.Scheduler.Submit.{submit_job_lem}
use tensor_sched.Examples.Data.{jobs, one, one-IsValid}

abbrev no_text : ℕ → LogEvent → List ℕ
no_text now e = []

-- Job 3 runs in slot 0.
abbrev running_job : ℕ → Job
running_job p = record (jobs p) { status = JobStatus.running; has_started = true }

abbrev busy : Scheduler ℕ
busy = record (new_scheduler counter running_job) {
  queue = one.1;
  active_jobs = some 3 ∷ none ∷ none ∷ none ∷ [];
  running = true;
}

-- Job 2, of high priority, waits on the level of job 3, of low priority.
check_preemptions_lem_example :
    ((check_preemptions no_text 9 busy).store 3).status ≡ JobStatus.preempted
unfolding new_scheduler MlfqJobQueue.init SingleLevelQueue.init MlfqJobQueue.push_new
    MlfqJobQueue.push_at SingleLevelQueue.push SingleLevelQueue.insert
    MlfqJobQueue.has_better_candidate SingleLevelQueue.empty SingleLevelQueue.top_priority
check_preemptions_lem_example = ap (λ j. j.status) ((check_preemptions_lem no_text 9 busy).1 3)

-- Job 2 stands on level 0 of the queue, job 3 in a slot.
busy-IsApart : IsApart busy.active_jobs busy.queue
unfolding new_scheduler MlfqJobQueue.init SingleLevelQueue.init MlfqJobQueue.push_new
    MlfqJobQueue.push_at SingleLevelQueue.push SingleLevelQueue.insert
busy-IsApart p m = ground (arith, m)

abbrev ready_job : ℕ → Job
ready_job p = if p == 3 then running_job p else one.0 p

abbrev working : Scheduler ℕ
working = record busy { store = ready_job }

working-IsValid : IsValid working.store working.queue
unfolding new_scheduler MlfqJobQueue.init SingleLevelQueue.init MlfqJobQueue.push_new
    MlfqJobQueue.push_at SingleLevelQueue.push SingleLevelQueue.insert update
working-IsValid = record {
  three = one-IsValid.three;
  levels =
      AreLevels-AgreesOn one.0 ready_job 0 one.1 (λ p. ground arith) (λ p m. ground (arith, m))
        one-IsValid.levels;
  distinct = one-IsValid.distinct;
}

dispatch_lem_example :
    (dispatch no_text 9 4 working).1.store 2
    ≡ yielded
        (λ p. wait (working.store p) (count p (pointers working.queue)))
        working.queue
        working.active_jobs
        2
dispatch_lem_example = (dispatch_lem no_text 9 4 working working-IsValid busy-IsApart).2 refl 2

-- The burst of job 3 is 5, its quantum on level 0 is 2.
slice_runs_example : Ends no_text 9 3 0 2 5 busy (slice no_text 3 9 3 0 busy)
unfolding new_scheduler
slice_runs_example =
    slice_runs no_text 9 3 0 2 3 5 busy refl refl refl (omega arith) (omega arith) refl
      (omega arith)

request_preemption_once_example : (request_preemption no_text 9 (some 3) busy).0 ≡ true
unfolding new_scheduler
request_preemption_once_example = (request_preemption_once no_text 9 10 3 busy).0

submit_job_lem_example :
    (submit_job no_text 5 (some 2) (new_scheduler counter jobs)).all_jobs ≡ 2 ∷ []
unfolding new_scheduler MlfqJobQueue.init SingleLevelQueue.init
submit_job_lem_example =
    (submit_job_lem no_text 5 2 (new_scheduler counter jobs) (omega arith) refl
      (init-IsValid jobs)).0

-- Job 3 has used up its quantum of 2 on level 0, and has 3 ticks of its burst left.
abbrev used_quantum : ℕ → Job
used_quantum p = record (jobs p) {
  status = JobStatus.preempted;
  elapsed_ticks = 2;
  ticks_this_slice = 2;
}

abbrev ending : Scheduler ℕ
ending = new_scheduler counter used_quantum

finish_lem_example : Leaves no_text 9 3 true ending (finish no_text 9 3 true ending)
unfolding new_scheduler MlfqJobQueue.init SingleLevelQueue.init
finish_lem_example =
    (finish_lem no_text 9 3 true ending (omega arith) refl (init-IsValid used_quantum)).0
