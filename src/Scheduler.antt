-- ===== src/Scheduler.antt =====
-- scheduler.h and scheduler.cpp: the scheduler's state and what its threads do. A thread's work is
-- cut where another thread can come between: at its waits, and between two critical sections.
pub mod Records
pub mod Worker
pub mod Dispatch
pub mod Submit
pub mod Averages
pub mod Lifetime
pub mod System
use Prim.Native.String.{String}
use tensor_sched.Prelude.{
  ℕ, zero, suc, ◌+◌, Bool, true, false, List, [], ◌∷◌, ◌++◌, Option, none, some, ltb, if◌then◌else◌,
  length, take, replicate, ℤ, pos,
}
use tensor_sched.Job.{Job, JobStatus, Store, update, max_jobs, priority_value}
use tensor_sched.MlfqJobQueue
use tensor_sched.MlfqJobQueue.{MlfqJobQueue}
use tensor_sched.ResourceManager
use tensor_sched.ResourceManager.{ResourceManager, max_concurrent}
use tensor_sched.Ring
use tensor_sched.Ring.{Ring}
use tensor_sched.Semaphore.{Semaphore}
use Records.{
  SchedulerStats, no_stats, GanttRecord, blank_gantt, LogEntry, blank_log, LogEvent, max_gantt,
  max_log,
}

-- `S` is the type of the semaphore's states. `all_jobs_count_` is the length of `all_jobs`.
pub record Scheduler (S : Type 0) : Type 0 where
  pub store : Store
  pub queue : MlfqJobQueue
  pub resources : ResourceManager S
  pub stats : SchedulerStats
  pub all_jobs : List ℕ
  pub active_jobs : List (Option ℕ)
  pub gantt : Ring GanttRecord
  pub log : Ring LogEntry
  pub global_tick : ℕ
  pub running : Bool

-- The constructor, over the store of the moment.
unfoldable pub new_scheduler : (sem : Semaphore) → Store → Scheduler sem.State
new_scheduler sem h = record {
  store = h;
  queue = MlfqJobQueue.init;
  resources = ResourceManager.new_manager sem;
  stats = no_stats;
  all_jobs = [];
  active_jobs = replicate max_concurrent none;
  gantt = Ring.new_ring max_gantt blank_gantt;
  log = Ring.new_ring max_log blank_log;
  global_tick = 0;
  running = false;
}

abbrev pub mlfq_level_str : ℤ → String
mlfq_level_str (pos zero) = "L0[HIGH]"
mlfq_level_str (pos (suc zero)) = "L1[MID ]"
mlfq_level_str (pos (suc (suc zero))) = "L2[LOW ]"
mlfq_level_str _ = "L?"

-- A write of the fields of one job.
abbrev pub put_job : {S : Type 0} → ℕ → Job → Scheduler S → Scheduler S
put_job p j s = record s { store = update s.store p j }

-- `text now e` is what `timestamp` and `snprintf` leave in the message buffer for the event `e`.
module _ {S : Type 0} (text : ℕ → LogEvent → List ℕ) where
  unfoldable pub add_log : ℕ → LogEvent → ℕ → Scheduler S → Scheduler S
  add_log now event color_hint s =
      let entry : LogEntry = record { text = take 255 (text now event); color_hint = color_hint } in
      record s { log = Ring.add max_log entry s.log }

  -- Creating the two threads is left to `Lifetime`.
  unfoldable pub start : ℕ → Scheduler S → Scheduler S
  unfolding add_log
  start now s =
      if s.running
      then s
      else add_log now LogEvent.ruled 5 (
          add_log now LogEvent.concurrency 5 (
            add_log now LogEvent.threshold 5 (
              add_log now LogEvent.quanta 5 (
                add_log now LogEvent.online 5
                  (add_log now LogEvent.ruled 5 (record s { running = true }))))))

  -- A null pointer is `none`.
  unfoldable pub submit_job : ℕ → Option ℕ → Scheduler S → Scheduler S
  unfolding add_log
  submit_job now none s = s
  submit_job now (some job) s =
      let listed =
        if ltb (length s.all_jobs) max_jobs then s.all_jobs ++ (job ∷ []) else s.all_jobs in
      let counted = record s.stats { total_submitted = suc s.stats.total_submitted } in
      let s' =
        add_log now (LogEvent.submitted (s.store job)) 0
          (record s { all_jobs = listed; stats = counted }) in
      let (h, q) = MlfqJobQueue.push_new now s'.store job s'.queue in
      record s' { store = h; queue = q }

  -- One pass of `runAging`, with the reading of the clock that each job gets.
  unfoldable pub run_aging : ℕ → (ℕ → ℕ) → Scheduler S → Scheduler S
  unfolding add_log
  run_aging now clock s =
      let (h, q, promoted) = MlfqJobQueue.run_aging clock s.store s.queue in
      let total = s.stats.total_aging_promotions + promoted in
      let s' = record s { store = h; queue = q } in
      if ltb 0 promoted
      then add_log now (LogEvent.aged promoted total) 5
          (record s' { stats = record s.stats { total_aging_promotions = total } })
      else s'

unfoldable pub add_gantt : {S : Type 0} → ℕ → ℕ → ℕ → ℕ → Bool → List ℕ → Scheduler S → Scheduler S
add_gantt job_id worker mlfq_level priority preempted name s =
    let g : GanttRecord = record {
      job_id = job_id;
      worker = worker;
      mlfq_level = mlfq_level;
      priority = priority;
      tick = s.global_tick;
      preempted = preempted;
      job_name = take 31 name;
    } in
    record s { gantt = Ring.add max_gantt g s.gantt }

unfoldable pub all_jobs_snapshot : {S : Type 0} → ℕ → Scheduler S → List ℕ
all_jobs_snapshot max_count s =
    take (if ltb (length s.all_jobs) max_count then length s.all_jobs else max_count) s.all_jobs

unfoldable pub log_snapshot : {S : Type 0} → ℕ → Scheduler S → List LogEntry
log_snapshot max_count s = Ring.snapshot max_log blank_log max_count s.log

unfoldable pub gantt_snapshot : {S : Type 0} → ℕ → Scheduler S → List GanttRecord
gantt_snapshot max_count s = Ring.snapshot max_gantt blank_gantt max_count s.gantt
