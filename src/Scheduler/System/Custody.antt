-- ===== src/Scheduler/System/Custody.antt =====
-- Where a job may be, and the steps of the dispatcher that leave it there.
pub mod Steps
pub mod Result
use tensor_sched.Prelude.{
  ℕ, zero, suc, ◌+◌, ◌%◌, ◌≤◌, ◌<◌, Bool, true, false, List, [], ◌∷◌, ◌++◌, Option, none, some, ◌≡◌,
  ◌≢◌, refl, sym, ap, ◌∙◌, arith, ◌==◌, ◌||◌, ◌&&◌, if◌then◌else◌, get_elem?, get_or, set, count,
  length, ◌⊎◌, inl, inr, ℤ, pos, Bool-cases, ltb, leb_ℤ, ==→eq,
}
use native.Mathlib.Decide.{ℕ_discrete}
use tensor_sched.Job.{Job, JobStatus, Store, update}
use tensor_sched.MlfqJobQueue
use tensor_sched.MlfqJobQueue.{MlfqJobQueue, pointers, push_new}
use tensor_sched.MlfqJobQueue.Ageing.Pass.{run_aging-Ages}
use tensor_sched.MlfqJobQueue.Views.{tick_waiting_lem}
use tensor_sched.ResourceManager.Ledger.{Grant}
use tensor_sched.Semaphore.{Semaphore}
use tensor_sched.Scheduler.{Scheduler, submit_job, run_aging, add_log}
use tensor_sched.Scheduler.Records.{LogEvent}
use tensor_sched.Scheduler.Dispatch.{tick, check_slot, request_preemption, pop_job}
use tensor_sched.Scheduler.Dispatch.Preempt.{is_active, yielded, check_slot-store, check_slot-queue}
use tensor_sched.Scheduler.Dispatch.Cycle.{tick-rest}
use tensor_sched.Scheduler.System.{
  Pc, done, entering, Thread, System, Step, Move, submit, halt, age, next_round, look, looked, idle,
  spawn, work, Reach, here, later,
}
use tensor_sched.Scheduler.System.Threads.{
  sum_of, sum_of-append, sum_of-set, sum_of-member, sum_of-two, get_elem?-set, get_elem?-snoc,
}
use tensor_sched.Scheduler.System.Invariant.{is_alive, owns, IsFit, Inv}
use tensor_sched.Scheduler.System.Keeps.{Inv-Relies, Move-alive}
use tensor_sched.Scheduler.System.Others.{submit-Enters, age-parts}
use tensor_sched.Scheduler.System.Dispatching.{popped, rest, idle_empty, spawn-count}
use tensor_sched.Scheduler.System.Leaving.{
  IsOver, IsSpent, ran_out, Apart, Settled, Own, Move-Apart, Move-Own,
}
use tensor_sched.Scheduler.System.Safety.{Reach-Inv}

-- The job is still over if it was, and its burst and its ticks are the same.
pub record Goes (j j' : Job) : Type 0 where
  pub over : IsOver j → IsOver j'
  pub burst_eq : j'.burst_time ≡ j.burst_time
  pub elapsed_eq : j'.elapsed_ticks ≡ j.elapsed_ticks

pub Goes-by :
    (j j' : Job)
    → j'.status ≡ j.status
    → j'.burst_time ≡ j.burst_time
    → j'.elapsed_ticks ≡ j.elapsed_ticks
    → Goes j j'
Goes-by j j' s b e = record { over = λ o. rw s o; burst_eq = b; elapsed_eq = e }

yielded-Goes :
    (h : Store) (q : MlfqJobQueue) (slots : List (Option ℕ)) (p : ℕ)
    → Goes (h p) (yielded h q slots p)
yielded-Goes h q slots p = record {
  over = λ o. elim o [ inl e ↦ inl (ground (arith, e)) | inr e ↦ inr (ground (arith, e)) ];
  burst_eq = ground arith;
  elapsed_eq = ground arith;
}

module _ {S : Type 0} where
  -- What holds of job `p`: it is queued or a worker has it, or it is over, or the scheduler stops.
  abbrev pub Kept : ℕ → Scheduler S → List Thread → Type 0
  Kept p s ts =
      (0 < count p (pointers s.queue) + sum_of (owns p) ts)
      ⊎ (IsOver (s.store p) ⊎ (s.running ≡ false))

  -- Loops that have ended without a preemption had a reason to.
  abbrev pub AreSpent : Scheduler S → List Thread → Type 0
  AreSpent s ts =
      (i : ℕ) (t : Thread) → get_elem? ts i ≡ some t → ran_out t.pc ≡ true → IsSpent t.job s

  -- A step of another thread than a worker.
  pub record Steady (s s' : Scheduler S) : Type 0 where
    pub goes : (p : ℕ) → Goes (s.store p) (s'.store p)
    pub stays : s.running ≡ false → s'.running ≡ false

  pub Steady-IsSpent : (s s' : Scheduler S) → Steady s s' → (p : ℕ) → IsSpent p s → IsSpent p s'
  Steady-IsSpent s s' e p (inl over) = inl (rw ((e.goes p).burst_eq, (e.goes p).elapsed_eq) over)
  Steady-IsSpent s s' e p (inr off) = inr (e.stays off)

  pub Steady-AreSpent :
      (s s' : Scheduler S) (ts : List Thread) → Steady s s' → AreSpent s ts → AreSpent s' ts
  Steady-AreSpent s s' ts e a i t at out = Steady-IsSpent s s' e t.job (a i t at out)

  pub Steady-Kept :
      (s s' : Scheduler S) (ts ts' : List Thread) (p : ℕ)
      → Steady s s'
      → count p (pointers s.queue) + sum_of (owns p) ts
        ≤ count p (pointers s'.queue) + sum_of (owns p) ts'
      → Kept p s ts
      → Kept p s' ts'
  Steady-Kept s s' ts ts' p e le (inl held) = inl (omega (arith, held, le))
  Steady-Kept s s' ts ts' p e le (inr (inl over)) = inr (inl ((e.goes p).over over))
  Steady-Kept s s' ts ts' p e le (inr (inr off)) = inr (inr (e.stays off))

  pub tick-Steady : (cycle : ℕ) (s : Scheduler S) → Steady s (tick cycle s)
  unfolding tick
  tick-Steady cycle s = record {
    goes = λ p. elim (Bool-cases (cycle % 4 == 0)) [
      | inl e ↦ rw (e, tick_waiting_lem s.store s.queue p) (Goes-by (s.store p) _ refl refl refl)
      | inr e ↦ rw e (Goes-by (s.store p) _ refl refl refl)
    ];
    stays = λ off. ground (arith, off);
  }

  module _ (text : ℕ → LogEvent → List ℕ) where
    check_slot-running :
        (now : ℕ) (slot : Option ℕ) (s : Scheduler S)
        → (check_slot text now slot s).running ≡ s.running
    unfolding check_slot request_preemption add_log
    check_slot-running now none s = refl
    check_slot-running now (some job) s = ground arith

    pub look-Steady :
        (now : ℕ) (slot : Option ℕ) (s : Scheduler S) → Steady s (check_slot text now slot s)
    look-Steady now slot s = record {
      goes =
          λ p. rw (check_slot-store text now slot s p) (yielded-Goes s.store s.queue (slot ∷ []) p);
      stays = λ off. check_slot-running now slot s ∙ off;
    }
