-- ===== src/Scheduler/System.antt =====
-- All threads of scheduler.cpp over one scheduler: the dispatcher, the aging thread, the workers that
-- the dispatcher has created, and callers of `submitJob` and `stop`, interleaved in any order.
--
-- A step is a wait, or the code up to the next place where another thread could change what this one
-- reads: a critical section, or a run of writes to the thread's own job. A call on the queue of
-- levels is one step, though the code locks one level at a time.
pub mod Threads
pub mod Invariant
pub mod Seats
pub mod Quiet
pub mod Effect
pub mod Moves
pub mod Closing
pub mod Keeps
pub mod Others
pub mod Dispatching
pub mod Safety
pub mod Running
pub mod Progress
pub mod Leaving
pub mod Custody
use tensor_sched.Prelude.{
  ℕ, suc, ◌<◌, Bool, true, false, List, [], ◌∷◌, ◌++◌, Option, none, some, ◌≡◌, ℤ, pos, get_or, set,
  get_elem?, count,
}
use tensor_sched.Job.{Job, Store}
use tensor_sched.MlfqJobQueue.{pointers}
use tensor_sched.Semaphore.{Semaphore}
use tensor_sched.ResourceManager
use tensor_sched.ResourceManager.{max_concurrent}
use tensor_sched.Scheduler
use tensor_sched.Scheduler.{Scheduler, new_scheduler, add_log, submit_job, run_aging}
use tensor_sched.Scheduler.Records.{LogEvent}
use tensor_sched.Scheduler.Worker.{
  start_slot, place, vacate, free_slot, announce, fail, start, Round, round, finish,
}
use tensor_sched.Scheduler.Dispatch.{tick, check_slot, pop_job}

-- Where a worker stands in `workerFunc`, with the local variables that are live there: `slot`, and
-- `was_preempted` after the loop.
pub data Pc : Type 0 where
  entering : ℤ → Pc
  waiting : ℤ → Pc  -- before `sem_wait`
  reserving : ℤ → Pc  -- in `acquire`, before the mutex
  refusing : Pc  -- before the `sem_post` of `acquire`
  failing : Pc
  choosing : ℤ → Pc  -- `acquire` has returned true
  placing : ℕ → Pc  -- before `active_mutex_`
  starting : ℕ → Pc
  looping : ℕ → Pc  -- head of the loop
  vacating : ℕ → Bool → Pc
  freeing : ℕ → Bool → Pc
  releasing : Bool → Pc
  posting : Bool → Pc  -- before the `sem_post` of `release`
  ending : Bool → Pc
  done : Pc

pub record Thread : Type 0 where
  pub job : ℕ
  pub pc : Pc

-- Where the dispatcher stands: at the head of its loop, in `checkPreemptions` before slot `k` with
-- `active_mutex_` held, or before `tryPop`.
pub data Phase : Type 0 where
  ticking : Phase
  checking : ℕ → Phase
  popping : Phase

-- `active_mutex_` is with the dispatcher.
abbrev pub is_locked : Phase → Bool
is_locked (checking k) = true
is_locked _ = false

pub record System (S : Type 0) : Type 0 where
  pub sched : Scheduler S
  pub threads : List Thread
  pub phase : Phase
  pub cycle : ℕ

abbrev pub with_slots : {S : Type 0} → S → Scheduler S → Scheduler S
with_slots t s = record s { resources = record s.resources { slots = t } }

-- The part of `acquire` under the mutex, for the needs of `job`.
abbrev pub reserve_for : {S : Type 0} → ℕ → Scheduler S → Bool × ResourceManager.ResourceManager S
reserve_for job s =
    ResourceManager.reserve (s.store job).cpu_required (s.store job).memory_required s.resources

-- The part of `release` under the mutex.
abbrev pub unreserve_for : {S : Type 0} → ℕ → Scheduler S → Scheduler S
unreserve_for job s = record s {
  resources =
      ResourceManager.unreserve (s.store job).cpu_required (s.store job).memory_required
        s.resources;
}

module _ (sem : Semaphore) (text : ℕ → LogEvent → List ℕ) where
  open sem use {State, wait, post}

  -- A step of the worker for `job`, at clock reading `now`; `locked` where the dispatcher holds
  -- `active_mutex_`.
  pub data Move (locked : Bool) (now job : ℕ) (s : Scheduler State)
      : Pc → Pc → Scheduler State → Type 0 where
    enter :
        {slot : ℤ} → Move locked now job s (entering slot) (waiting slot) (announce text now job s)
    pass :
        {slot : ℤ} {t : State}
        → wait s.resources.slots ≡ some t
        → Move locked now job s (waiting slot) (reserving slot) (with_slots t s)
    accept :
        {slot : ℤ}
        → (reserve_for job s).0 ≡ true
        → Move locked now job s
            (reserving slot)
            (choosing slot)
            (record s { resources = (reserve_for job s).1 })
    refuse :
        {slot : ℤ}
        → (reserve_for job s).0 ≡ false
        → Move locked now job s
            (reserving slot)
            refusing
            (record s { resources = (reserve_for job s).1 })
    give_up : Move locked now job s refusing failing (with_slots (post s.resources.slots) s)
    report : Move locked now job s failing done (fail text now job s)
    choose :
        {slot : ℤ} → Move locked now job s (choosing slot) (placing (start_slot slot s.resources)) s
    take :
        {k : ℕ}
        → locked ≡ false
        → Move locked now job s
            (placing k)
            (starting (place job (pos k) s).0)
            (place job (pos k) s).1
    begin : {k : ℕ} → Move locked now job s (starting k) (looping k) (start text now job k s)
    go_on :
        {k : ℕ}
        → (round text now job k s).0 ≡ Round.again
        → Move locked now job s (looping k) (looping k) (round text now job k s).1
    run_out :
        {k : ℕ}
        → (round text now job k s).0 ≡ Round.over
        → Move locked now job s (looping k) (vacating k false) (round text now job k s).1
    cut :
        {k : ℕ}
        → (round text now job k s).0 ≡ Round.broken
        → Move locked now job s (looping k) (vacating k true) (round text now job k s).1
    leave :
        {k : ℕ} {b : Bool}
        → locked ≡ false
        → Move locked now job s (vacating k b) (freeing k b) (vacate k s)
    clear : {k : ℕ} {b : Bool} → Move locked now job s (freeing k b) (releasing b) (free_slot k s)
    give_back : {b : Bool} → Move locked now job s (releasing b) (posting b) (unreserve_for job s)
    free_up :
        {b : Bool}
        → Move locked now job s (posting b) (ending b) (with_slots (post s.resources.slots) s)
    close : {b : Bool} → Move locked now job s (ending b) done (finish text now job b s)

  -- A step of the system.
  pub data Step (m : System State) : System State → Type 0 where
    -- A call of `submitJob` with a job that is neither queued nor with a worker.
    submit :
        (now job : ℕ)
        → count job (pointers m.sched.queue) ≡ 0
        → ((i : ℕ) (t : Thread) → get_elem? m.threads i ≡ some t → t.job ≡ job → t.pc ≡ done)
        → Step m (record m { sched = submit_job text now (some job) m.sched })
    -- `stop`, before it joins the two threads, and after.
    halt : Step m (record m { sched = record m.sched { running = false } })
    close_log :
        (now : ℕ)
        → m.sched.running ≡ false
        → Step m (record m { sched = add_log text now LogEvent.stopped 5 m.sched })
    age :
        (now : ℕ) (clock : ℕ → ℕ)
        → m.sched.running ≡ true
        → Step m (record m { sched = run_aging text now clock m.sched })
    next_round :
        m.phase ≡ ticking
        → m.sched.running ≡ true
        → Step m (record m {
          sched = tick (suc m.cycle) m.sched;
          phase = checking 0;
          cycle = suc m.cycle;
        })
    look :
        (now k : ℕ)
        → m.phase ≡ checking k
        → k < max_concurrent
        → Step m (record m {
          sched = check_slot text now (get_or m.sched.active_jobs k none) m.sched;
          phase = checking (suc k);
        })
    looked : m.phase ≡ checking max_concurrent → Step m (record m { phase = popping })
    idle :
        m.phase ≡ popping
        → (pop_job m.sched).0 ≡ none
        → Step m (record m { sched = (pop_job m.sched).1; phase = ticking })
    spawn :
        (job : ℕ) (slot : ℤ)
        → m.phase ≡ popping
        → (pop_job m.sched).0 ≡ some (job, slot)
        → Step m (record m {
          sched = (pop_job m.sched).1;
          threads = m.threads ++ (record { job = job; pc = entering slot } ∷ []);
          phase = ticking;
        })
    work :
        (i now : ℕ) (t : Thread) {p : Pc} {s : Scheduler State}
        → get_elem? m.threads i ≡ some t
        → Move (is_locked m.phase) now t.job m.sched t.pc p s
        → Step m (record m { sched = s; threads = set m.threads i (record t { pc = p }) })

  -- Over the jobs of `h`, once `start` has created its two threads; the clock reads 0 at first.
  abbrev pub init : Store → System State
  init h = record {
    sched = Scheduler.start text 0 (new_scheduler sem h);
    threads = [];
    phase = ticking;
    cycle = 0;
  }

  pub data Reach (h : Store) : System State → Type 0 where
    here : Reach h (init h)
    later : {m n : System State} → Reach h m → Step m n → Reach h n
