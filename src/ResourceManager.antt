-- ===== src/ResourceManager.antt =====
-- resource_manager.h: the budget of processor share and memory, the semaphore that bounds the running
-- jobs, and the table of worker slots. What the mutex guards is one step.
pub mod Ledger
pub mod Slots
use tensor_sched.Prelude.{
  ℕ, zero, suc, Bool, true, false, not, ◌&&◌, ◌||◌, List, [], ◌∷◌, Option, none, some, leb,
  if◌then◌else◌, ℤ, pos, negsuc, pos_part, inc, dec, ◌-◌, ◌+ℤ◌, ◌-ℤ◌, ltb_ℤ, leb_ℤ, set, get_or,
  take, replicate, ◌≡◌, arith,
}
use tensor_sched.Semaphore.{Semaphore}

abbrev pub total_cpu : ℕ
total_cpu = 100

abbrev pub total_memory : ℕ
total_memory = 4096

abbrev pub max_concurrent : ℕ
max_concurrent = 4

pub record WorkerSlot : Type 0 where
  pub busy : Bool
  pub job_id : ℤ
  pub priority : ℕ
  pub mlfq_level : ℕ
  pub job_name : List ℕ

abbrev pub free_slot : WorkerSlot
free_slot = record { busy = false; job_id = negsuc 0; priority = 0; mlfq_level = 0; job_name = [] }

-- `S` is the type of the semaphore's states.
pub record ResourceManager (S : Type 0) : Type 0 where
  pub used_cpu : ℤ
  pub used_memory : ℤ
  pub active_jobs : ℤ
  pub slots : S
  pub workers : List WorkerSlot

-- `if (x < 0) x = 0`
abbrev pub at_least_zero : ℤ → ℤ
at_least_zero x = if ltb_ℤ x (pos 0) then pos 0 else x

pub at_least_zero-pos : (n : ℕ) → at_least_zero (pos n) ≡ pos n
at_least_zero-pos n = ground arith

-- A slot out of range is ignored.
abbrev pub slot_in_range : ℤ → Bool
slot_in_range slot = not (ltb_ℤ slot (pos 0) || leb_ℤ (pos max_concurrent) slot)

-- The loop of `getFreeWorkerSlot` from index `i` on.
unfoldable pub first_free : ℕ → List WorkerSlot → ℤ
first_free i [] = negsuc 0
first_free i (w ∷ ws) = if not w.busy then pos i else first_free (suc i) ws

module _ {S : Type 0} where
  -- The part of `acquire` under the mutex.
  unfoldable pub reserve : ℤ → ℤ → ResourceManager S → Bool × ResourceManager S
  reserve cpu mem rm =
      let ok =
        leb_ℤ (rm.used_cpu +ℤ cpu) (pos total_cpu)
        && leb_ℤ (rm.used_memory +ℤ mem) (pos total_memory) in
      if ok
      then (
        true,
        record rm {
          used_cpu = rm.used_cpu +ℤ cpu;
          used_memory = rm.used_memory +ℤ mem;
          active_jobs = inc rm.active_jobs;
        },
      )
      else (false, rm)

  -- The part of `release` under the mutex.
  unfoldable pub unreserve : ℤ → ℤ → ResourceManager S → ResourceManager S
  unreserve cpu mem rm = record rm {
    used_cpu = at_least_zero (rm.used_cpu -ℤ cpu);
    used_memory = at_least_zero (rm.used_memory -ℤ mem);
    active_jobs = at_least_zero (dec rm.active_jobs);
  }

  unfoldable pub set_worker_busy : ℤ → ℕ → ℕ → ℕ → List ℕ → ResourceManager S → ResourceManager S
  set_worker_busy slot job_id priority mlfq_level name rm =
      if slot_in_range slot
      then record rm {
        workers = set rm.workers (pos_part slot) (record {
          busy = true;
          job_id = pos job_id;
          priority = priority;
          mlfq_level = mlfq_level;
          job_name = take 63 name;
        });
      }
      else rm

  unfoldable pub set_worker_free : ℤ → ResourceManager S → ResourceManager S
  set_worker_free slot rm =
      if slot_in_range slot
      then record rm { workers = set rm.workers (pos_part slot) free_slot }
      else rm

  unfoldable pub get_free_worker_slot : ResourceManager S → ℤ
  get_free_worker_slot rm = first_free 0 rm.workers

  unfoldable pub get_worker : ResourceManager S → ℤ → WorkerSlot
  get_worker rm i =
      get_or rm.workers
        (pos_part (
          if ltb_ℤ i (pos 0)
          then pos 0
          else if leb_ℤ (pos max_concurrent) i
          then pos (max_concurrent - 1)
          else i))
        free_slot

  unfoldable pub free_cpu : ResourceManager S → ℤ
  free_cpu rm = pos total_cpu -ℤ rm.used_cpu

  unfoldable pub free_memory : ResourceManager S → ℤ
  free_memory rm = pos total_memory -ℤ rm.used_memory

module _ (sem : Semaphore) where
  open sem use {State, init, wait, post}

  unfoldable pub new_manager : ResourceManager State
  new_manager = record {
    used_cpu = pos 0;
    used_memory = pos 0;
    active_jobs = pos 0;
    slots = init max_concurrent;
    workers = replicate max_concurrent free_slot;
  }

  -- What follows the wait: the reservation, and the slot given back if the job does not fit.
  abbrev pub settle : Bool × ResourceManager State → Bool × ResourceManager State
  settle (ok, rm) = (ok, if ok then rm else record rm { slots = post rm.slots })

  -- `none` where the caller blocks in `sem_wait`.
  unfoldable pub acquire : ℤ → ℤ → ResourceManager State → Option (Bool × ResourceManager State)
  acquire cpu mem rm = elim (wait rm.slots) [
    | none ↦ none
    | some s ↦ some (settle (reserve cpu mem (record rm { slots = s })))
  ]

  unfoldable pub release : ℤ → ℤ → ResourceManager State → ResourceManager State
  release cpu mem rm = let rm' = unreserve cpu mem rm in record rm' { slots = post rm'.slots }
