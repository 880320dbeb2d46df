-- ===== src/Scheduler/System/Invariant.antt =====
-- What holds in every state that the threads reach together.
use tensor_sched.Prelude.{
  ℕ, ◌+◌, ◌≤◌, ◌<◌, Bool, true, false, List, [], ◌∷◌, ◌++◌, Option, none, some, ◌≡◌, ◌==◌,
  if◌then◌else◌, get_elem?, get_or, count, length, pos,
}
use tensor_sched.Job.{Job, mlfq_levels}
use tensor_sched.MlfqJobQueue.{pointers}
use tensor_sched.MlfqJobQueue.Invariant.{IsValid}
use tensor_sched.ResourceManager.{max_concurrent}
use tensor_sched.ResourceManager.Ledger.{Grant, Funds}
use tensor_sched.Semaphore.{Semaphore}
use tensor_sched.Scheduler.{Scheduler}
use tensor_sched.Scheduler.System.{
  Pc, entering, waiting, failing, choosing, placing, starting, looping, vacating, freeing,
  releasing, ending, done, Thread,
}
use tensor_sched.Scheduler.System.Threads.{sum_of}

-- From `sem_wait` to the `sem_post` after it.
abbrev pub permit : Pc → ℕ
permit (entering _) = 0
permit (waiting _) = 0
permit failing = 0
permit (ending _) = 0
permit done = 0
permit _ = 1

-- From the reservation to the end of the mutex section of `release`.
abbrev pub is_granted : Pc → Bool
is_granted (choosing _) = true
is_granted (placing _) = true
is_granted (starting _) = true
is_granted (looping _) = true
is_granted (vacating _ _) = true
is_granted (freeing _ _) = true
is_granted (releasing _) = true
is_granted _ = false

-- The entry of `active_jobs_` that is the worker's.
abbrev pub seat : Pc → Option ℕ
seat (starting k) = some k
seat (looping k) = some k
seat (vacating k _) = some k
seat _ = none

abbrev pub is_seated : Option ℕ → ℕ
is_seated none = 0
is_seated (some k) = 1

-- The worker still has its job: it has neither failed, completed, requeued nor left it.
abbrev pub is_alive : Pc → ℕ
is_alive done = 0
is_alive _ = 1

abbrev pub holds : Thread → ℕ
holds t = permit t.pc

abbrev pub sits : Thread → ℕ
sits t = is_seated (seat t.pc)

abbrev pub sits_for : ℕ → Thread → ℕ
sits_for p t = if t.job == p then is_seated (seat t.pc) else 0

abbrev pub owns : ℕ → Thread → ℕ
owns p t = if t.job == p then is_alive t.pc else 0

-- The entries of `active_jobs_` that are not null, and those that point to `p`.
abbrev pub occupied : List (Option ℕ) → ℕ
occupied [] = 0
occupied (none ∷ slots) = occupied slots
occupied (some q ∷ slots) = 1 + occupied slots

abbrev pub occurs : ℕ → List (Option ℕ) → ℕ
occurs p [] = 0
occurs p (none ∷ slots) = occurs p slots
occurs p (some q ∷ slots) = (if q == p then 1 else 0) + occurs p slots

-- What the threads have out of the budget; `needs p` is what job `p` asks for.
module _ (needs : ℕ → Grant) where
  abbrev pub grant_at : ℕ → Pc → List Grant
  grant_at job pc = if is_granted pc then needs job ∷ [] else []

  abbrev pub grants : List Thread → List Grant
  grants [] = []
  grants (t ∷ ts) = grant_at t.job t.pc ++ grants ts

  pub record IsFit (p : ℕ) (j : Job) : Type 0 where
    pub cpu_eq : j.cpu_required ≡ pos (needs p).cpu
    pub memory_eq : j.memory_required ≡ pos (needs p).mem
    pub level_lt : j.mlfq_level < mlfq_levels

-- The job's pointer stands in the entry that the worker has.
abbrev pub HasEntry : List (Option ℕ) → ℕ → Option ℕ → Type 0
HasEntry active job none = Unit {0}
HasEntry active job (some k) = (k < max_concurrent) × (get_or active k none ≡ some job)

pub record Seated (active : List (Option ℕ)) (ts : List Thread) : Type 0 where
  pub four : length active ≡ max_concurrent
  pub entries : occupied active ≡ sum_of sits ts
  pub entries_of : (p : ℕ) → occurs p active ≡ sum_of (sits_for p) ts
  pub each : (i : ℕ) (t : Thread) → get_elem? ts i ≡ some t → HasEntry active t.job (seat t.pc)

module _ (sem : Semaphore) (needs : ℕ → Grant) where
  open sem use {State, value}

  pub record Inv (s : Scheduler State) (ts : List Thread) : Type 0 where
    pub fits : (p : ℕ) → IsFit needs p (s.store p)
    pub valid : IsValid s.store s.queue
    pub owned : (p : ℕ) → count p (pointers s.queue) + sum_of (owns p) ts ≤ 1
    pub permits : value s.resources.slots + sum_of holds ts ≡ max_concurrent
    pub funds : Funds s.resources (grants needs ts)
    pub seated : Seated s.active_jobs ts
