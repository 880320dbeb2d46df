-- ===== src/Job.antt =====
-- job.h: the job record, its enumerations and its accessors.
pub mod Slice
pub mod Progress
use Prim.Native.String.{String}
use tensor_sched.Prelude.{
  ℕ, ◌-◌, Bool, false, List, ◌||◌, ◌==◌, leb, if◌then◌else◌, take, get_or, [], ◌∷◌, ℤ, pos, negsuc,
  ◌-ℤ◌, ltb_ℤ, leb_ℤ, pos_part, ◌≡◌, ◌≢◌, arith,
}

pub data JobStatus : Type 0 where
  waiting ready running preempted completed failed : JobStatus

pub data JobPriority : Type 0 where
  low medium high critical : JobPriority

abbrev pub mlfq_levels : ℕ
mlfq_levels = 3

abbrev pub mlfq_quantum : List ℕ
mlfq_quantum = 2 ∷ 4 ∷ 8 ∷ []

abbrev pub aging_threshold : ℕ
aging_threshold = 15

abbrev pub max_jobs : ℕ
max_jobs = 256

-- The counters and levels are only written with numbers that are not negative; the other `int`s are
-- what a caller passes. A time is a reading of the steady clock, 0 for the epoch.
pub record Job : Type 0 where
  pub id : ℕ
  pub name : List ℕ
  pub priority : JobPriority
  pub cpu_required : ℤ
  pub memory_required : ℤ
  pub burst_time : ℤ
  pub status : JobStatus
  pub elapsed_ticks : ℕ
  pub wait_ticks : ℕ
  pub preemption_count : ℕ
  pub mlfq_level : ℕ
  pub ticks_this_slice : ℕ
  pub aging_ticks : ℕ
  pub has_started : Bool
  pub assigned_worker : ℤ
  pub submit_time : ℕ
  pub start_time : ℕ
  pub finish_time : ℕ
  pub last_ready_time : ℕ

-- The constructor at clock reading `now`: `name` keeps at most 63 bytes of the C string.
abbrev pub new_job : ℕ → List ℕ → JobPriority → ℤ → ℤ → ℤ → ℕ → Job
new_job id name prio cpu mem burst now = record {
  id = id;
  name = take 63 name;
  priority = prio;
  cpu_required = cpu;
  memory_required = mem;
  burst_time = burst;
  status = waiting;
  elapsed_ticks = 0;
  wait_ticks = 0;
  preemption_count = 0;
  mlfq_level = 0;
  ticks_this_slice = 0;
  aging_ticks = 0;
  has_started = false;
  assigned_worker = negsuc 0;
  submit_time = now;
  start_time = 0;
  finish_time = 0;
  last_ready_time = now;
}

abbrev pub priority_value : JobPriority → ℕ
priority_value low = 1
priority_value medium = 2
priority_value high = 3
priority_value critical = 4

unfoldable pub remaining_ticks : Job → ℤ
remaining_ticks j =
    let rem = j.burst_time -ℤ pos j.elapsed_ticks in if ltb_ℤ rem (pos 0) then pos 0 else rem

-- A level out of range counts as the last one.
abbrev pub slice_level : ℤ → ℕ
slice_level lvl =
    if ltb_ℤ lvl (pos 0) || leb_ℤ (pos mlfq_levels) lvl then mlfq_levels - 1 else pos_part lvl

-- `MLFQ_QUANTUM[lvl]`, read in range by both callers.
abbrev pub slice_quantum : Job → ℕ
slice_quantum j = get_or mlfq_quantum (slice_level (pos j.mlfq_level)) 0

unfoldable pub ticks_left_in_slice : Job → ℤ
ticks_left_in_slice j =
    let left = pos (slice_quantum j) -ℤ pos j.ticks_this_slice in
    if ltb_ℤ left (pos 0) then pos 0 else left

unfoldable pub quantum_expired : Job → Bool
quantum_expired j = leb (slice_quantum j) j.ticks_this_slice

-- A `Job*` is a number, and the store says what stands there. Every component that keeps a job keeps
-- its pointer, so an update of the store is seen by all of them.
abbrev pub Store : Type 0
Store = ℕ → Job

-- A write through the pointer `p`.
unfoldable pub update : Store → ℕ → Job → Store
update h p j q = if q == p then j else h q

pub update_self : (h : Store) (p : ℕ) (j : Job) → update h p j p ≡ j
unfolding update
update_self h p j = ground arith

pub update_ne : (h : Store) (p q : ℕ) (j : Job) → q ≢ p → update h p j q ≡ h q
unfolding update
update_ne h p q j ne = ground arith

abbrev pub status_str : JobStatus → String
status_str waiting = "WAITING"
status_str ready = "READY"
status_str running = "RUNNING"
status_str preempted = "PREEMPTED"
status_str completed = "COMPLETED"
status_str failed = "FAILED"

abbrev pub priority_str : JobPriority → String
priority_str low = "LOW"
priority_str medium = "MEDIUM"
priority_str high = "HIGH"
priority_str critical = "CRITICAL"
