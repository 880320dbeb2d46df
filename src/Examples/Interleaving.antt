-- ===== src/Examples/Interleaving.antt =====
-- The threads of scheduler.cpp together: job 2 is submitted, handed out, and its worker gets as far as
-- the search for an entry of `active_jobs_`.
use tensor_sched.Prelude.{
  ℕ, zero, suc, List, [], ◌∷◌, ◌≡◌, ◌<◌, ◌≤◌, ◌+ℤ◌, refl, some, none, pos, arith, count, get_or,
}
use tensor_sched.Job.{update}
use tensor_sched.SingleLevelQueue
use tensor_sched.MlfqJobQueue
use tensor_sched.MlfqJobQueue.{pointers}
use tensor_sched.ResourceManager
use tensor_sched.ResourceManager.{max_concurrent, total_cpu}
use tensor_sched.ResourceManager.Ledger.{Grant, cpu_of}
use tensor_sched.Semaphore.{counter}
use tensor_sched.Scheduler
use tensor_sched.Scheduler.{Scheduler, new_scheduler, submit_job, add_log}
use tensor_sched.Scheduler.Records.{LogEvent}
use tensor_sched.Scheduler.Worker.{place, announce}
use tensor_sched.Scheduler.Dispatch.{tick, check_slot, pop_job}
use tensor_sched.Scheduler.System.{
  Pc, entering, waiting, reserving, choosing, placing, Thread, popping, checking, ticking, System,
  submit, next_round, look, looked, spawn, work, init, Reach, here, later, enter, pass, accept,
  choose, with_slots, reserve_for,
}
use tensor_sched.Scheduler.System.Invariant.{IsFit, grants}
use tensor_sched.Scheduler.System.Safety.{reachable_jobs, reachable_budget, reachable_place}
use tensor_sched.Scheduler.System.Custody.Result.{IsSomewhere, no_job_lost}
use tensor_sched.Scheduler.System.Progress.{workers_can_end}
use tensor_sched.Examples.Data.{jobs}

abbrev quiet : ℕ → LogEvent → List ℕ
quiet now e = []

abbrev needs : ℕ → Grant
needs p = record { cpu = 30; mem = 512 }

jobs-IsFit : (p : ℕ) → IsFit needs p (jobs p)
jobs-IsFit p = record { cpu_eq = refl; memory_eq = refl; level_lt = omega arith }

abbrev submitted : System ℕ
submitted =
    let m = init counter quiet jobs in record m { sched = submit_job quiet 5 (some 2) m.sched }

submitted-Reach : Reach counter quiet jobs submitted
unfolding new_scheduler MlfqJobQueue.init SingleLevelQueue.init add_log Scheduler.start
submitted-Reach = later here (submit 5 2 refl (λ i t e. cc))

abbrev ticked : System ℕ
ticked = record submitted { sched = tick 1 submitted.sched; phase = checking 0; cycle = 1 }

ticked-Reach : Reach counter quiet jobs ticked
unfolding new_scheduler submit_job add_log Scheduler.start
ticked-Reach = later submitted-Reach (next_round refl refl)

abbrev looked_until : ℕ → System ℕ
looked_until zero = ticked
looked_until (suc k) = record (looked_until k) {
  sched =
      check_slot quiet 7 (get_or (looked_until k).sched.active_jobs k none) (looked_until k).sched;
  phase = checking (suc k);
}

looked-Reach : (k : ℕ) → k ≤ 4 → Reach counter quiet jobs (looked_until k)
looked-Reach zero le = ticked-Reach
looked-Reach (suc zero) le = later (looked-Reach zero (omega arith)) (look 7 0 refl (omega arith))
looked-Reach (suc (suc k)) le =
    later (looked-Reach (suc k) (omega (arith, le))) (look 7 (suc k) refl (omega (arith, le)))

abbrev asking : System ℕ
asking = record (looked_until 4) { phase = popping }

asking-Reach : Reach counter quiet jobs asking
asking-Reach = later (looked-Reach 4 (omega arith)) (looked refl)

abbrev worker_at : Pc → List Thread
worker_at p = record { job = 2; pc = p } ∷ []

abbrev spawned : System ℕ
spawned = record asking {
  sched = (pop_job asking.sched).1;
  threads = worker_at (entering (pos 0));
  phase = ticking;
}

spawned-Reach : Reach counter quiet jobs spawned
unfolding pop_job tick check_slot submit_job new_scheduler add_log MlfqJobQueue.init
    MlfqJobQueue.push_new MlfqJobQueue.push_at MlfqJobQueue.try_pop SingleLevelQueue.try_pop
    SingleLevelQueue.init SingleLevelQueue.push SingleLevelQueue.insert update
    ResourceManager.get_free_worker_slot ResourceManager.first_free ResourceManager.new_manager
    Scheduler.start
spawned-Reach = later asking-Reach (spawn 2 (pos 0) refl refl)

-- The worker moves from `p` to `q`.
abbrev moved : Pc → Scheduler ℕ → System ℕ
moved p s = record spawned { sched = s; threads = worker_at p }

abbrev announced : Scheduler ℕ
announced = announce quiet 8 2 spawned.sched

abbrev passed : Scheduler ℕ
passed = with_slots 3 announced

abbrev reserved : Scheduler ℕ
reserved = record passed { resources = (reserve_for 2 passed).1 }

waiting-Reach : Reach counter quiet jobs (moved (waiting (pos 0)) announced)
waiting-Reach =
    later spawned-Reach (work 0 8 (record { job = 2; pc = entering (pos 0) }) refl enter)

reserving-Reach : Reach counter quiet jobs (moved (reserving (pos 0)) passed)
unfolding announce pop_job tick check_slot submit_job new_scheduler add_log
    ResourceManager.new_manager MlfqJobQueue.try_pop MlfqJobQueue.push_new MlfqJobQueue.push_at
    MlfqJobQueue.init SingleLevelQueue.try_pop SingleLevelQueue.push SingleLevelQueue.insert
    SingleLevelQueue.init Scheduler.start
reserving-Reach =
    later waiting-Reach (work 0 8 (record { job = 2; pc = waiting (pos 0) }) refl (pass refl))

choosing-Reach : Reach counter quiet jobs (moved (choosing (pos 0)) reserved)
unfolding announce pop_job tick check_slot submit_job new_scheduler add_log MlfqJobQueue.push_new
    update MlfqJobQueue.tick_waiting SingleLevelQueue.tick_waiting SingleLevelQueue.tick_nodes
    ResourceManager.new_manager ResourceManager.reserve ◌+ℤ◌ MlfqJobQueue.try_pop
    MlfqJobQueue.push_at MlfqJobQueue.init SingleLevelQueue.try_pop SingleLevelQueue.push
    SingleLevelQueue.insert SingleLevelQueue.init Scheduler.start
choosing-Reach =
    later reserving-Reach (work 0 8 (record { job = 2; pc = reserving (pos 0) }) refl (accept refl))

placing-Reach : Reach counter quiet jobs (moved (placing 0) reserved)
placing-Reach =
    later choosing-Reach (work 0 8 (record { job = 2; pc = choosing (pos 0) }) refl choose)

reachable_jobs_example : count 2 (pointers reserved.queue) ≡ 0
reachable_jobs_example =
    ((reachable_jobs counter needs quiet jobs-IsFit placing-Reach).1 0
      (record { job = 2; pc = placing 0 }) refl refl).0

reachable_budget_example : cpu_of (grants needs (worker_at (placing 0))) ≤ total_cpu
reachable_budget_example = (reachable_budget counter needs quiet jobs-IsFit placing-Reach).4

reachable_place_example : (place 2 (pos 0) reserved).0 < max_concurrent
reachable_place_example =
    (reachable_place counter needs quiet jobs-IsFit placing-Reach 0 0
      (record { job = 2; pc = placing 0 }) refl refl).0

workers_can_end_example :
    (workers_can_end counter needs quiet jobs-IsFit placing-Reach).0.sched.resources.slots
    ≡ max_concurrent
workers_can_end_example = (workers_can_end counter needs quiet jobs-IsFit placing-Reach).3

no_job_lost_example : IsSomewhere counter needs quiet 2 submitted
unfolding new_scheduler MlfqJobQueue.init SingleLevelQueue.init submit_job add_log Scheduler.start
no_job_lost_example =
    no_job_lost counter needs quiet jobs-IsFit (later here (submit 5 2 refl (λ i t e. cc))) 2 refl
      refl
