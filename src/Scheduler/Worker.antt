-- ===== src/Scheduler/Worker.antt =====
-- A worker thread: `workerFunc`, cut into its steps. `job` is the thread's job and `slot` its slot.
pub mod Slice
pub mod Place
pub mod Finish
use tensor_sched.Prelude.{
  ℕ, zero, suc, ◌+◌, ◌-◌, ◌%◌, Bool, true, false, List, Option, none, some, if◌then◌else◌, ltb, ℤ,
  pos, pos_part, ltb_ℤ, leb_ℤ, ◌&&◌, get_or, set,
}
use tensor_sched.Job.{Job, JobStatus, priority_value, quantum_expired, Store, update}
use tensor_sched.MlfqJobQueue
use tensor_sched.ResourceManager
use tensor_sched.ResourceManager.{ResourceManager, max_concurrent, get_free_worker_slot}
use tensor_sched.Semaphore.{Semaphore}
use tensor_sched.Scheduler.{Scheduler, put_job, add_log, add_gantt}
use tensor_sched.Scheduler.Records.{SchedulerStats, LogEvent}

-- The slot that the search for a free one starts from, where the dispatcher found none.
abbrev pub start_slot : {S : Type 0} → ℤ → ResourceManager S → ℕ
start_slot slot rm =
    if ltb_ℤ slot (pos 0)
    then (let found = get_free_worker_slot rm in if ltb_ℤ found (pos 0) then 0 else pos_part found)
    else pos_part slot

abbrev pub is_null : Option ℕ → Bool
is_null none = true
is_null (some p) = false

-- The loop over `active_jobs_` with `rounds` left, at `i`; `slot` stays if no entry is null.
unfoldable pub choose_slot : List (Option ℕ) → ℕ → ℕ → ℕ → ℕ
choose_slot active slot i zero = slot
choose_slot active slot i (suc rounds) =
    let later = choose_slot active slot (i + 1) rounds in
    if is_null (get_or active ((slot + i) % max_concurrent) none)
    then (slot + i) % max_concurrent
    else later

unfoldable pub place : {S : Type 0} → ℕ → ℤ → Scheduler S → ℕ × Scheduler S
unfolding choose_slot
place job slot s =
    let chosen = choose_slot s.active_jobs (start_slot slot s.resources) 0 max_concurrent in
    (chosen, record s { active_jobs = set s.active_jobs chosen (some job) })

unfoldable pub vacate : {S : Type 0} → ℕ → Scheduler S → Scheduler S
vacate slot s = record s { active_jobs = set s.active_jobs slot none }

unfoldable pub free_slot : {S : Type 0} → ℕ → Scheduler S → Scheduler S
free_slot slot s = record s { resources = ResourceManager.set_worker_free (pos slot) s.resources }

abbrev pub start_job : ℕ → ℕ → Job → Job
start_job now slot j = record j {
  status = JobStatus.running;
  assigned_worker = pos slot;
  has_started = true;
  start_time = if j.has_started then j.start_time else now;
}

abbrev pub is_preempted : JobStatus → Bool
is_preempted JobStatus.preempted = true
is_preempted _ = false

-- How one round of the tick loop ends: another round, the loop's condition false, or a break with
-- `was_preempted` set.
pub data Round : Type 0 where
  again over broken : Round

abbrev pub tick_job : Job → Job
tick_job j = record j {
  elapsed_ticks = suc j.elapsed_ticks;
  ticks_this_slice = suc j.ticks_this_slice;
}

module _ {S : Type 0} (text : ℕ → LogEvent → List ℕ) where
  unfoldable pub announce : ℕ → ℕ → Scheduler S → Scheduler S
  announce now job s = add_log text now (LogEvent.queuing (s.store job)) 0 s

  -- After a refused `acquire`.
  unfoldable pub fail : ℕ → ℕ → Scheduler S → Scheduler S
  fail now job s =
      let failed = record (s.store job) { status = JobStatus.failed } in
      let counted = record s.stats { total_failed = suc s.stats.total_failed } in
      add_log text now
        (LogEvent.refused failed (ResourceManager.free_cpu s.resources)
          (ResourceManager.free_memory s.resources))
        3 (put_job job failed (record s { stats = counted }))

  -- From the placing to the loop.
  unfoldable pub start : ℕ → ℕ → ℕ → Scheduler S → Scheduler S
  start now job slot s =
      let j = start_job now slot (s.store job) in
      let rm =
        ResourceManager.set_worker_busy (pos slot) j.id (priority_value j.priority) j.mlfq_level
          j.name s.resources in
      add_log text now (LogEvent.started j slot) 1 (put_job job j (record s { resources = rm }))

  -- One round of the loop, its 200 ms sleep included.
  unfoldable pub round : ℕ → ℕ → ℕ → Scheduler S → Round × Scheduler S
  round now job slot s =
      let j = s.store job in
      let quantum_end =
        add_log text now (LogEvent.quantum_used (record j { status = JobStatus.preempted })) 0
          (put_job job (record j { status = JobStatus.preempted }) s) in
      let one_tick =
        add_gantt j.id slot j.mlfq_level (priority_value j.priority) false j.name
          (put_job job (tick_job j) s) in
      if ltb_ℤ (pos j.elapsed_ticks) j.burst_time && s.running
      then (if is_preempted j.status
          then (Round.broken, s)
          else if quantum_expired j
          then (Round.broken, quantum_end)
          else (Round.again, one_tick))
      else (Round.over, s)

  -- The loop on fuel; `none` where the fuel runs out. No other thread comes between here.
  unfoldable pub slice : ℕ → ℕ → ℕ → ℕ → Scheduler S → Option (Bool × Scheduler S)
  slice zero now job slot s = none
  slice (suc fuel) now job slot s =
      let (r, s') = round now job slot s in
      elim r [
        | Round.again ↦ slice fuel now job slot s'
        | Round.over ↦ some (false, s')
        | Round.broken ↦ some (true, s')
      ]

  -- What the worker does with its job once the slot and the budget are given back.
  unfoldable pub finish : ℕ → ℕ → Bool → Scheduler S → Scheduler S
  finish now job was_preempted s =
      let j = s.store job in
      let completed = record j { finish_time = now; status = JobStatus.completed } in
      let counted = record s.stats { total_completed = suc s.stats.total_completed } in
      let done =
        add_log text now (LogEvent.finished completed) 2
          (put_job job completed (record s { stats = counted })) in
      let (h, q) = MlfqJobQueue.requeue_preempted now s.store job (quantum_expired j) s.queue in
      let requeued =
        add_log text now (LogEvent.requeued (h job) j.mlfq_level (h job).mlfq_level) 0
          (record s { store = h; queue = q }) in
      if leb_ℤ j.burst_time (pos j.elapsed_ticks)
      then done
      else if was_preempted
      then requeued
      else s
