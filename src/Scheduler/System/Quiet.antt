-- ===== src/Scheduler/System/Quiet.antt =====
-- Operations of a worker that touch neither the queue, nor the slots, nor the budget, and of the jobs
-- only their own.
use tensor_sched.Prelude.{ℕ, Bool, true, false, List, ◌≡◌, ◌≢◌, refl, arith, if◌then◌else◌, ℤ, pos}
use tensor_sched.Job.{Job, JobStatus, Store, update}
use tensor_sched.ResourceManager.{ResourceManager, set_worker_busy, set_worker_free}
use tensor_sched.Scheduler.{Scheduler, put_job, add_log, add_gantt}
use tensor_sched.Scheduler.Records.{LogEvent}
use tensor_sched.Scheduler.Worker.{Round, tick_job, announce, fail, start, free_slot, round}

-- The same permits and sums.
pub record SameFunds {S : Type 0} (r r' : ResourceManager S) : Type 0 where
  pub slots_eq : r'.slots ≡ r.slots
  pub cpu_eq : r'.used_cpu ≡ r.used_cpu
  pub memory_eq : r'.used_memory ≡ r.used_memory
  pub active_eq : r'.active_jobs ≡ r.active_jobs

-- The same needs, level and rank.
pub record SameNeeds (j j' : Job) : Type 0 where
  pub cpu_eq : j'.cpu_required ≡ j.cpu_required
  pub memory_eq : j'.memory_required ≡ j.memory_required
  pub level_eq : j'.mlfq_level ≡ j.mlfq_level
  pub priority_eq : j'.priority ≡ j.priority
  pub submit_eq : j'.submit_time ≡ j.submit_time

pub record Quiet {S : Type 0} (job : ℕ) (s s' : Scheduler S) : Type 0 where
  pub queue_eq : s'.queue ≡ s.queue
  pub active_eq : s'.active_jobs ≡ s.active_jobs
  pub running_eq : s'.running ≡ s.running
  pub funds_eq : SameFunds s.resources s'.resources
  pub others : (p : ℕ) → p ≢ job → s'.store p ≡ s.store p
  pub needs_eq : (p : ℕ) → SameNeeds (s.store p) (s'.store p)

pub SameFunds-refl : {S : Type 0} (r : ResourceManager S) → SameFunds r r
SameFunds-refl r = record { slots_eq = refl; cpu_eq = refl; memory_eq = refl; active_eq = refl }

pub SameNeeds-refl : (j : Job) → SameNeeds j j
SameNeeds-refl j = record {
  cpu_eq = refl;
  memory_eq = refl;
  level_eq = refl;
  priority_eq = refl;
  submit_eq = refl;
}

-- A write of fields other than these through the job's pointer.
SameNeeds-update :
    (h : Store) (job : ℕ) (j : Job)
    → SameNeeds (h job) j
    → (p : ℕ) → SameNeeds (h p) (update h job j p)
unfolding update
SameNeeds-update h job j same p = ground (arith, same)

others_update : (h : Store) (job : ℕ) (j : Job) (p : ℕ) → p ≢ job → update h job j p ≡ h p
unfolding update
others_update h job j p ne = ground (arith, ne)

module _ {S : Type 0} where
  busy-SameFunds :
      (slot : ℤ) (id prio level : ℕ) (name : List ℕ) (r : ResourceManager S)
      → SameFunds r (set_worker_busy slot id prio level name r)
  unfolding set_worker_busy
  busy-SameFunds slot id prio level name r = ground arith

  free-SameFunds : (slot : ℤ) (r : ResourceManager S) → SameFunds r (set_worker_free slot r)
  unfolding set_worker_free
  free-SameFunds slot r = ground arith

  pub free_slot-Quiet : (job k : ℕ) (s : Scheduler S) → Quiet job s (free_slot k s)
  unfolding free_slot
  free_slot-Quiet job k s = record {
    queue_eq = refl;
    active_eq = refl;
    running_eq = refl;
    funds_eq = free-SameFunds (pos k) s.resources;
    others = λ p ne. refl;
    needs_eq = λ p. SameNeeds-refl (s.store p);
  }

  module _ (text : ℕ → LogEvent → List ℕ) (now job : ℕ) where
    pub announce-Quiet : (s : Scheduler S) → Quiet job s (announce text now job s)
    unfolding announce add_log
    announce-Quiet s = record {
      queue_eq = refl;
      active_eq = refl;
      running_eq = refl;
      funds_eq = SameFunds-refl s.resources;
      others = λ p ne. refl;
      needs_eq = λ p. SameNeeds-refl (s.store p);
    }

    pub fail-Quiet : (s : Scheduler S) → Quiet job s (fail text now job s)
    unfolding fail add_log
    fail-Quiet s = record {
      queue_eq = refl;
      active_eq = refl;
      running_eq = refl;
      funds_eq = SameFunds-refl s.resources;
      others = others_update s.store job _;
      needs_eq = SameNeeds-update s.store job _ (ground arith);
    }

    pub start-Quiet : (k : ℕ) (s : Scheduler S) → Quiet job s (start text now job k s)
    unfolding start add_log
    start-Quiet k s = record {
      queue_eq = refl;
      active_eq = refl;
      running_eq = refl;
      funds_eq = busy-SameFunds (pos k) _ _ _ _ s.resources;
      others = others_update s.store job _;
      needs_eq = SameNeeds-update s.store job _ (ground arith);
    }

    pub self-Quiet : (s : Scheduler S) → Quiet job s s
    self-Quiet s = record {
      queue_eq = refl;
      active_eq = refl;
      running_eq = refl;
      funds_eq = SameFunds-refl s.resources;
      others = λ p ne. refl;
      needs_eq = λ p. SameNeeds-refl (s.store p);
    }

    Quiet-if :
        (b : Bool) (s : Scheduler S) (x y : Round × Scheduler S)
        → Quiet job s x.1
        → Quiet job s y.1
        → Quiet job s (if b then x else y).1
    Quiet-if true s x y u v = u
    Quiet-if false s x y u v = v

    expired-Quiet :
        (s : Scheduler S)
        → Quiet job s (
            add_log text now
              (LogEvent.quantum_used (record (s.store job) { status = JobStatus.preempted }))
              0
              (put_job job (record (s.store job) { status = JobStatus.preempted }) s))
    unfolding add_log
    expired-Quiet s = record {
      queue_eq = refl;
      active_eq = refl;
      running_eq = refl;
      funds_eq = SameFunds-refl s.resources;
      others = others_update s.store job _;
      needs_eq = SameNeeds-update s.store job _ (ground arith);
    }

    ticked-Quiet :
        (id k level prio : ℕ) (b : Bool) (name : List ℕ) (s : Scheduler S)
        → Quiet job s (add_gantt id k level prio b name (put_job job (tick_job (s.store job)) s))
    unfolding add_gantt
    ticked-Quiet id k level prio b name s = record {
      queue_eq = refl;
      active_eq = refl;
      running_eq = refl;
      funds_eq = SameFunds-refl s.resources;
      others = others_update s.store job _;
      needs_eq = SameNeeds-update s.store job _ (ground arith);
    }

    pub round-Quiet : (k : ℕ) (s : Scheduler S) → Quiet job s (round text now job k s).1
    unfolding round
    round-Quiet k s = search (Quiet-if, self-Quiet, expired-Quiet, ticked-Quiet)
