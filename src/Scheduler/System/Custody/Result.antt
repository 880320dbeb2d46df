-- ===== src/Scheduler/System/Custody/Result.antt =====
-- No job is lost between the queue and the threads.
use tensor_sched.Prelude.{
  ℕ, suc, ◌<◌, Bool, true, false, List, some, ◌≡◌, refl, sym, ap, ◌∙◌, arith, ◌==◌, ◌||◌, get_elem?,
  count, ◌⊎◌, inl, inr, Bool-cases, ==→eq,
}
use native.Mathlib.Decide.{dec_lt}
use tensor_sched.Job.{Store}
use tensor_sched.MlfqJobQueue.{pointers}
use tensor_sched.ResourceManager.Ledger.{Grant}
use tensor_sched.Semaphore.{Semaphore}
use tensor_sched.Scheduler.{Scheduler, add_log}
use tensor_sched.Scheduler.Records.{LogEvent}
use tensor_sched.Scheduler.Dispatch.Preempt.{check_slot-queue}
use tensor_sched.Scheduler.Dispatch.Cycle.{tick-rest}
use tensor_sched.Scheduler.System.{
  Thread, System, Step, submit, halt, close_log, age, next_round, look, looked, idle, spawn, work,
  Reach, here, later,
}
use tensor_sched.Scheduler.System.Threads.{sum_of-positive}
use tensor_sched.Scheduler.System.Invariant.{is_alive, owns, IsFit, Inv}
use tensor_sched.Scheduler.System.Leaving.{IsOver}
use tensor_sched.Scheduler.System.Progress.{living}
use tensor_sched.Scheduler.System.Safety.{Reach-Inv}
use tensor_sched.Scheduler.System.Custody.{
  Kept, AreSpent, Steady-AreSpent, Steady-Kept, tick-Steady, look-Steady,
}
use tensor_sched.Scheduler.System.Custody.Steps.{
  age-Steady, work-Kept, work-AreSpent, pop-Steady, idle-Kept, spawn-Kept, spawn-AreSpent,
  submit-Kept, submit-AreSpent,
}

closed :
    {S : Type 0} (text : ℕ → LogEvent → List ℕ) (now : ℕ) (s : Scheduler S)
    → s.running ≡ false
    → (add_log text now LogEvent.stopped 5 s).running ≡ false
unfolding add_log
closed text now s off = off

owns-positive : (t : Thread) (p : ℕ) → 0 < owns p t → (t.job ≡ p) × (is_alive t.pc ≡ 1)
owns-positive t p lt = (ground (arith, lt), living t.pc (ground (arith, lt)))

module _ (sem : Semaphore) (needs : ℕ → Grant) (text : ℕ → LogEvent → List ℕ) where
  open sem use {State}

  -- The step is a call of `submitJob` with the job.
  abbrev pub submits : {m n : System State} → Step sem text m n → ℕ → Bool
  submits (submit now job out finished) p = p == job
  submits _ p = false

  abbrev pub was_submitted : {h : Store} {m : System State} → Reach sem text h m → ℕ → Bool
  was_submitted here p = false
  was_submitted (later r st) p = submits st p || was_submitted r p

  -- The job is queued, or with a worker, or over.
  abbrev pub IsSomewhere : ℕ → System State → Type 0
  IsSomewhere p m =
      (0 < count p (pointers m.sched.queue))
      ⊎ (((i : ℕ) × (t : Thread) × (get_elem? m.threads i ≡ some t)
            × (t.job ≡ p)
            × (is_alive t.pc ≡ 1))
          ⊎ IsOver (m.sched.store p))

  Step-AreSpent :
      {m n : System State}
      → Step sem text m n
      → Inv sem needs m.sched m.threads
      → AreSpent m.sched m.threads
      → AreSpent n.sched n.threads
  Step-AreSpent {m} (submit now job out finished) v a =
      submit-AreSpent sem needs text m.sched m.threads v now job out finished a
  Step-AreSpent halt v a = λ i t at out. inr refl
  Step-AreSpent (close_log now off) v a = λ i t at out. inr (closed text now _ off)
  Step-AreSpent {m} (age now clock on) v a =
      Steady-AreSpent m.sched _ m.threads
        (age-Steady sem needs text m.sched m.threads v now clock).0 a
  Step-AreSpent {m} (next_round e on) v a =
      Steady-AreSpent m.sched _ m.threads (tick-Steady (suc m.cycle) m.sched) a
  Step-AreSpent {m} (look now k e lt) v a =
      Steady-AreSpent m.sched _ m.threads (look-Steady text now _ m.sched) a
  Step-AreSpent (looked e) v a = a
  Step-AreSpent {m} (idle e none_found) v a =
      Steady-AreSpent m.sched _ m.threads (pop-Steady sem needs text m.sched m.threads v) a
  Step-AreSpent {m} (spawn job slot e found) v a =
      spawn-AreSpent sem needs text m.sched m.threads v job slot a
  Step-AreSpent {m} (work i now t {p} {s} at mv) v a =
      work-AreSpent sem needs text m.sched m.threads v i now _ t p s at mv a

  Step-Kept :
      {m n : System State} (q : ℕ)
      → (st : Step sem text m n) → Inv sem needs m.sched m.threads
      → AreSpent m.sched m.threads
      → (submits st q ≡ true) ⊎ Kept q m.sched m.threads
      → Kept q n.sched n.threads
  Step-Kept {m} q (submit now job out finished) v a (inl e) =
      submit-Kept sem needs text m.sched m.threads v now job q out (inl (==→eq q job e))
  Step-Kept {m} q (submit now job out finished) v a (inr k) =
      submit-Kept sem needs text m.sched m.threads v now job q out (inr k)
  Step-Kept q st v a (inl e) = cc e
  Step-Kept q halt v a (inr k) = inr (inr refl)
  Step-Kept q (close_log now off) v a (inr k) = inr (inr (closed text now _ off))
  Step-Kept {m} q (age now clock on) v a (inr k) =
      let (steady, same) = age-Steady sem needs text m.sched m.threads v now clock in
      Steady-Kept m.sched _ m.threads m.threads q steady (omega (arith, same q)) k
  Step-Kept {m} q (next_round e on) v a (inr k) =
      Steady-Kept m.sched _ m.threads m.threads q (tick-Steady (suc m.cycle) m.sched)
        (omega (arith, ap (λ qs. count q (pointers qs)) (tick-rest (suc m.cycle) m.sched).0)) k
  Step-Kept {m} q (look now n e lt) v a (inr k) =
      Steady-Kept m.sched _ m.threads m.threads q (look-Steady text now _ m.sched)
        (omega (arith, ap (λ qs. count q (pointers qs)) (check_slot-queue text now _ m.sched))) k
  Step-Kept q (looked e) v a (inr k) = k
  Step-Kept {m} q (idle e none_found) v a (inr k) =
      idle-Kept sem needs text m.sched m.threads v q none_found k
  Step-Kept {m} q (spawn job slot e found) v a (inr k) =
      spawn-Kept sem needs text m.sched m.threads v q job slot found k
  Step-Kept {m} q (work i now t {p} {s} at mv) v a (inr k) =
      work-Kept sem needs text m.sched m.threads v i now _ t p s at mv a q k

  module _ {h : Store} (fit : (p : ℕ) → IsFit needs p (h p)) where
    Reach-Kept :
        {m : System State} (r : Reach sem text h m)
        → AreSpent m.sched m.threads
          × ((p : ℕ) → was_submitted r p ≡ true → Kept p m.sched m.threads)
    Reach-Kept here = (λ i t e out. cc e, λ p e. cc e)
    Reach-Kept (later r st) =
        let (spent, kept) = Reach-Kept r in
        let v = Reach-Inv sem needs text fit r in
        (
          Step-AreSpent st v spent,
          λ p e. Step-Kept p st v spent (elim (Bool-cases (submits st p)) [
            | inl now ↦ inl now
            | inr not_now ↦ inr (kept p (ground (arith, e, not_now)))
          ]),
        )

    -- Over jobs that ask for no less than nothing and start on a level in range, in every reachable
    -- state in which the scheduler still runs, no job is lost: one that was
    -- submitted on the way is in the queue, or a worker that has not ended has it, or it is completed
    -- or failed.
    pub no_job_lost :
        {m : System State} (r : Reach sem text h m) (p : ℕ)
        → was_submitted r p ≡ true
        → m.sched.running ≡ true
        → IsSomewhere p m
    no_job_lost {m} r p e on = elim ((Reach-Kept r).1 p e) [
      | inl held ↦ elim (dec_lt 0 (count p (pointers m.sched.queue))) [
        | yes queued ↦ inl queued
        | no unqueued ↦
            let (i, t, at, owned) =
              sum_of-positive (owns p) m.threads (omega (arith, held, unqueued)) in
            let (same, alive) = owns-positive t p owned in inr (inl (i, t, at, same, alive))
      ]
      | inr (inl over) ↦ inr (inr over)
      | inr (inr off) ↦ absurd (let bad : true ≡ false = sym on ∙ off in cc bad)
    ]
