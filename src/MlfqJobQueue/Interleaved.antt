-- ===== src/MlfqJobQueue/Interleaved.antt =====
-- The levels as threads meet them: each level of `levels_` has its own mutex, so a call that visits
-- several levels is a step for each level, and other threads may come in between.
--
-- A job that no thread but one can reach is written by that thread alone: `pushNew`,
-- `requeuePreempted` and each round of the inner loop of `runAging` are one step each.
pub mod Levels
pub mod Sound
pub mod Safety
pub mod Acts
pub mod Scans
pub mod Runs
use tensor_sched.Prelude.{
  ℕ, zero, suc, ◌+◌, ◌<◌, Bool, List, [], ◌∷◌, ◌++◌, Option, none, some, ◌==◌, if◌then◌else◌, ◌≡◌,
  get_or, set, count,
}
use tensor_sched.Job.{Job, Store, update, mlfq_levels}
use tensor_sched.SingleLevelQueue
use tensor_sched.SingleLevelQueue.{SingleLevelQueue}
use tensor_sched.MlfqJobQueue.{
  MlfqJobQueue, init, aged_buf, push_at, push_new, requeue_preempted, queued_at, pointers,
}

-- `levels_[l]`.
abbrev pub level : MlfqJobQueue → ℕ → SingleLevelQueue
level qs l = get_or qs l SingleLevelQueue.init

-- `levels_[l].tryPop()`.
unfoldable pub pop_at : ℕ → MlfqJobQueue → Option ℕ × MlfqJobQueue
pop_at l qs = let (found, q) = SingleLevelQueue.try_pop (level qs l) in (found, set qs l q)

-- `levels_[l].drainAged(aged, AGED_BUF)`.
unfoldable pub drain_at : Store → ℕ → MlfqJobQueue → List ℕ × MlfqJobQueue
drain_at h l qs =
    let (aged, q) = SingleLevelQueue.drain_aged h aged_buf (level qs l) in (aged, set qs l q)

-- `levels_[l].tickWaiting()`.
unfoldable pub tick_at : Store → ℕ → MlfqJobQueue → Store
tick_at h l qs = SingleLevelQueue.tick_waiting h (level qs l)

-- One round of the inner loop of `runAging`.
unfoldable pub promote_one : ℕ → ℕ → Store → ℕ → MlfqJobQueue → Store × MlfqJobQueue
promote_one now new_lvl h job qs =
    let h' = update h job (queued_at new_lvl now (h job)) in (h', push_at h' new_lvl job qs)

pub record State : Type 0 where
  pub store : Store
  pub levels : MlfqJobQueue
  -- Of `runAging`: the part of `aged` still to do, `lvl`, and the count returned.
  pub aged : List ℕ
  pub lvl : ℕ
  pub promoted : ℕ
  -- The jobs submitted so far, those popped that a thread works on, and those it is done with.
  pub submitted : List ℕ
  pub held : List ℕ
  pub closed : List ℕ

-- Over the jobs of `h`, before any call.
abbrev pub start : Store → State
start h = record {
  store = h;
  levels = init;
  aged = [];
  lvl = mlfq_levels;
  promoted = 0;
  submitted = [];
  held = [];
  closed = [];
}

abbrev pub without : ℕ → List ℕ → List ℕ
without p [] = []
without p (q ∷ qs) = if q == p then qs else q ∷ without p qs

abbrev pub found_in : Option ℕ → List ℕ → List ℕ
found_in none ps = ps
found_in (some job) ps = job ∷ ps

pub data Step (s : State) : State → Type 0 where
  submit :
      (now job : ℕ)
      → count job s.submitted ≡ 0
      → Step s (record s {
        store = (push_new now s.store job s.levels).0;
        levels = (push_new now s.store job s.levels).1;
        submitted = job ∷ s.submitted;
      })
  requeue :
      (now job : ℕ) (demote : Bool)
      → 0 < count job s.held
      → Step s (record s {
        store = (requeue_preempted now s.store job demote s.levels).0;
        levels = (requeue_preempted now s.store job demote s.levels).1;
        held = without job s.held;
      })
  pop :
      (l : ℕ)
      → l < mlfq_levels
      → Step s (record s {
        levels = (pop_at l s.levels).1;
        held = found_in (pop_at l s.levels).0 s.held;
      })
  -- What the thread that holds a job writes to it, which is neither its rank nor its level.
  work :
      (job : ℕ) (j : Job)
      → 0 < count job s.held
      → j.priority ≡ (s.store job).priority
      → j.submit_time ≡ (s.store job).submit_time
      → j.mlfq_level ≡ (s.store job).mlfq_level
      → Step s (record s { store = update s.store job j })
  close :
      (job : ℕ)
      → 0 < count job s.held
      → Step s (record s { held = without job s.held; closed = job ∷ s.closed })
  tick : (l : ℕ) → l < mlfq_levels → Step s (record s { store = tick_at s.store l s.levels })
  -- The outer loop of `runAging` is at the level below `new_lvl`.
  drain :
      (new_lvl : ℕ)
      → s.aged ≡ []
      → suc new_lvl < mlfq_levels
      → Step s (record s {
        levels = (drain_at s.store (suc new_lvl) s.levels).1;
        aged = (drain_at s.store (suc new_lvl) s.levels).0;
        lvl = suc new_lvl;
      })
  promote :
      (now new_lvl job : ℕ) (rest : List ℕ)
      → s.aged ≡ job ∷ rest
      → s.lvl ≡ suc new_lvl
      → Step s (record s {
        store = (promote_one now new_lvl s.store job s.levels).0;
        levels = (promote_one now new_lvl s.store job s.levels).1;
        aged = rest;
        promoted = suc s.promoted;
      })

pub data Run (s : State) : State → Type 0 where
  here : Run s s
  later : {t u : State} → Run s t → Step t u → Run s u
