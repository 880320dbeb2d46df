-- ===== src/Scheduler/Records.antt =====
-- The records of scheduler.h, and the events that scheduler.cpp writes to its log.
use tensor_sched.Prelude.{ℕ, Bool, false, List, [], ℤ}
use tensor_sched.Job.{Job}

-- The counters. The averages, which are floating-point numbers, stand in `Scheduler.Averages`.
pub record SchedulerStats : Type 0 where
  pub total_submitted : ℕ
  pub total_completed : ℕ
  pub total_failed : ℕ
  pub total_preemptions : ℕ
  pub total_aging_promotions : ℕ

abbrev pub no_stats : SchedulerStats
no_stats = record {
  total_submitted = 0;
  total_completed = 0;
  total_failed = 0;
  total_preemptions = 0;
  total_aging_promotions = 0;
}

pub record GanttRecord : Type 0 where
  pub job_id : ℕ
  pub worker : ℕ
  pub mlfq_level : ℕ
  pub priority : ℕ
  pub tick : ℕ
  pub preempted : Bool
  pub job_name : List ℕ

-- A cell as `memset` leaves it.
abbrev pub blank_gantt : GanttRecord
blank_gantt = record {
  job_id = 0;
  worker = 0;
  mlfq_level = 0;
  priority = 0;
  tick = 0;
  preempted = false;
  job_name = [];
}

pub record LogEntry : Type 0 where
  pub text : List ℕ
  pub color_hint : ℕ

abbrev pub blank_log : LogEntry
blank_log = record { text = []; color_hint = 0 }

abbrev pub max_gantt : ℕ
max_gantt = 2000

abbrev pub max_log : ℕ
max_log = 500

-- What a log line is about: the job as it stands, and the other arguments of the `snprintf`.
pub data LogEvent : Type 0 where
  submitted : Job → LogEvent
  preempted : Job → LogEvent
  queuing : Job → LogEvent
  refused : Job → (free_cpu free_memory : ℤ) → LogEvent
  started : Job → (slot : ℕ) → LogEvent
  quantum_used : Job → LogEvent
  finished : Job → LogEvent
  requeued : Job → (old_level new_level : ℕ) → LogEvent
  aged : (promoted total : ℕ) → LogEvent
  -- From here on: the lines of `start`, of which the first comes twice, and that of `stop`.
  ruled online quanta threshold concurrency stopped : LogEvent
