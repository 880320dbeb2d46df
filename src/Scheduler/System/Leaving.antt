-- ===== src/Scheduler/System/Leaving.antt =====
-- What the steps of a worker do to the other jobs, and what becomes of its own job when it ends.
use tensor_sched.Prelude.{
  ℕ, ◌<◌, Bool, true, false, List, ◌≡◌, ◌≢◌, refl, sym, ap, ◌∙◌, arith, count, ℤ, pos, ltb_ℤ, leb_ℤ,
  not, ◌⊎◌, inl, inr, Bool-cases,
}
use tensor_sched.Job.{Job, JobStatus, update}
use tensor_sched.MlfqJobQueue.{pointers}
use tensor_sched.Semaphore.{Semaphore}
use tensor_sched.ResourceManager.Ledger.{Grant}
use tensor_sched.Scheduler.{Scheduler, add_log}
use tensor_sched.Scheduler.Records.{LogEvent}
use tensor_sched.Scheduler.Worker.{Round, round, place, vacate, free_slot, fail, finish}
use tensor_sched.Scheduler.Worker.Finish.{finish_lem}
use tensor_sched.Scheduler.System.{
  Pc, vacating, freeing, releasing, posting, ending, Move, enter, pass, accept, refuse, give_up,
  report, choose, take, begin, go_on, run_out, cut, leave, clear, give_back, free_up, close,
}
use tensor_sched.Scheduler.System.Invariant.{is_alive}
use tensor_sched.Scheduler.System.Effect.{Relies}
use tensor_sched.Scheduler.System.Quiet.{
  Quiet, announce-Quiet, fail-Quiet, start-Quiet, round-Quiet, free_slot-Quiet, self-Quiet,
}

abbrev pub IsOver : Job → Type 0
IsOver j = (j.status ≡ JobStatus.completed) ⊎ (j.status ≡ JobStatus.failed)

-- The loop has ended without a preemption.
abbrev pub ran_out : Pc → Bool
ran_out (vacating k b) = not b
ran_out (freeing k b) = not b
ran_out (releasing b) = not b
ran_out (posting b) = not b
ran_out (ending b) = not b
ran_out _ = false

module _ {S : Type 0} where
  -- The job has run for its burst, or the scheduler stops.
  abbrev pub IsSpent : ℕ → Scheduler S → Type 0
  IsSpent job s =
      (leb_ℤ (s.store job).burst_time (pos (s.store job).elapsed_ticks) ≡ true)
      ⊎ (s.running ≡ false)

  -- Another job is where and what it was.
  pub record Apart (job : ℕ) (s s' : Scheduler S) : Type 0 where
    pub store_eq : (q : ℕ) → q ≢ job → s'.store q ≡ s.store q
    pub count_eq : (q : ℕ) → q ≢ job → count q (pointers s'.queue) ≡ count q (pointers s.queue)
    pub running_eq : s'.running ≡ s.running

  Quiet-Apart : (job : ℕ) (s s' : Scheduler S) → Quiet job s s' → Apart job s s'
  Quiet-Apart job s s' e = record {
    store_eq = e.others;
    count_eq = λ q ne. ap (λ qs. count q (pointers qs)) e.queue_eq;
    running_eq = e.running_eq;
  }

  place-Quiet_parts :
      (job : ℕ) (slot : ℤ) (s : Scheduler S)
      → Apart job s (place job slot s).1 × ((place job slot s).1.queue ≡ s.queue)
  unfolding place
  place-Quiet_parts job slot s =
      (record { store_eq = λ q ne. refl; count_eq = λ q ne. refl; running_eq = refl }, refl)

  vacate-parts :
      (job k : ℕ) (s : Scheduler S)
      → Apart job s (vacate k s) × (IsSpent job s → IsSpent job (vacate k s))
  unfolding vacate
  vacate-parts job k s =
      (record { store_eq = λ q ne. refl; count_eq = λ q ne. refl; running_eq = refl }, λ x. x)

  free_slot-IsSpent : (job k : ℕ) (s : Scheduler S) → IsSpent job s → IsSpent job (free_slot k s)
  unfolding free_slot
  free_slot-IsSpent job k s x = x

  module _ (text : ℕ → LogEvent → List ℕ) (now job : ℕ) where
    over-IsSpent :
        (k : ℕ) (s : Scheduler S)
        → (round text now job k s).0 ≡ Round.over
        → IsSpent job (round text now job k s).1
    unfolding round
    over-IsSpent k s e =
        elim (Bool-cases (ltb_ℤ (pos (s.store job).elapsed_ticks) (s.store job).burst_time)) [
          | inl more ↦ elim (Bool-cases s.running) [
            | inl on ↦ absurd (ground (arith, e, more, on))
            | inr off ↦ inr (ground (arith, e, more, off))
          ]
          | inr spent ↦ inl (ground (arith, e, spent))
        ]

    fail-IsOver : (s : Scheduler S) → IsOver ((fail text now job s).store job)
    unfolding fail add_log update
    fail-IsOver s = inr (ground arith)

    finish-running : (b : Bool) (s : Scheduler S) → (finish text now job b s).running ≡ s.running
    unfolding finish add_log
    finish-running b s = ground arith

  -- The job is queued again, or done with, or the scheduler stops.
  abbrev pub Settled : ℕ → Scheduler S → Type 0
  Settled job s = (0 < count job (pointers s.queue)) ⊎ (IsOver (s.store job) ⊎ (s.running ≡ false))

  -- After a step to `p'` the worker still has its job, or the job is settled.
  abbrev pub Own : ℕ → Pc → Scheduler S → Type 0
  Own job p' s' =
      ((is_alive p' ≡ 1) × (ran_out p' ≡ true → IsSpent job s'))
      ⊎ ((is_alive p' ≡ 0) × Settled job s')

module _ (sem : Semaphore) (needs : ℕ → Grant) (text : ℕ → LogEvent → List ℕ) (now job : ℕ) where
  open sem use {State}

  close-Apart :
      (b : Bool) (s : Scheduler State)
      → Relies sem needs job (ending b) s
      → Apart job s (finish text now job b s)
  close-Apart b s r =
      elim (finish_lem text now job b s (r.fits job).level_lt r.unqueued r.valid).0 [
        | inl c ↦ record {
          store_eq = c.others;
          count_eq = λ q ne. ap (λ qs. count q (pointers qs)) c.queue_kept;
          running_eq = finish-running text now job b s;
        }
        | inr (inl (_, k)) ↦ record {
          store_eq = k.enters.others;
          count_eq = λ q ne. ground (arith, k.enters.added q, ne);
          running_eq = finish-running text now job b s;
        }
        | inr (inr (_, _, same)) ↦
            rw same (record { store_eq = λ q ne. refl; count_eq = λ q ne. refl; running_eq = refl })
      ]

  close-Settled :
      (b : Bool) (s : Scheduler State)
      → Relies sem needs job (ending b) s
      → (ran_out (ending b) ≡ true → IsSpent job s)
      → Settled job (finish text now job b s)
  close-Settled b s r spent =
      elim (finish_lem text now job b s (r.fits job).level_lt r.unqueued r.valid).0 [
        | inl c ↦ inr (inl (inl (ap (λ j. j.status) c.closed)))
        | inr (inl (_, k)) ↦ inl (ground (arith, k.enters.added job))
        | inr (inr (uncut, more, same)) ↦ elim (spent (ap (λ c. ran_out (ending c)) uncut)) [
          | inl over ↦ absurd (let bad : true ≡ false = sym over ∙ more in cc bad)
          | inr off ↦ inr (inr (rw same off))
        ]
      ]

  pub Move-Apart :
      {locked : Bool} {s : Scheduler State} {p p' : Pc} {s' : Scheduler State}
      → Move sem text locked now job s p p' s'
      → Relies sem needs job p s
      → Apart job s s'
  Move-Apart {s} (enter {slot}) r = Quiet-Apart job s _ (announce-Quiet text now job s)
  Move-Apart {s} (pass {slot} {t} e) r = record {
    store_eq = λ q ne. refl;
    count_eq = λ q ne. refl;
    running_eq = refl;
  }
  Move-Apart {s} (accept {slot} e) r = record {
    store_eq = λ q ne. refl;
    count_eq = λ q ne. refl;
    running_eq = refl;
  }
  Move-Apart {s} (refuse {slot} e) r = record {
    store_eq = λ q ne. refl;
    count_eq = λ q ne. refl;
    running_eq = refl;
  }
  Move-Apart {s} give_up r = record {
    store_eq = λ q ne. refl;
    count_eq = λ q ne. refl;
    running_eq = refl;
  }
  Move-Apart {s} report r = Quiet-Apart job s _ (fail-Quiet text now job s)
  Move-Apart {s} (choose {slot}) r = Quiet-Apart job s s (self-Quiet text now job s)
  Move-Apart {s} (take {k} e) r = (place-Quiet_parts job (pos k) s).0
  Move-Apart {s} (begin {k}) r = Quiet-Apart job s _ (start-Quiet text now job k s)
  Move-Apart {s} (go_on {k} e) r = Quiet-Apart job s _ (round-Quiet text now job k s)
  Move-Apart {s} (run_out {k} e) r = Quiet-Apart job s _ (round-Quiet text now job k s)
  Move-Apart {s} (cut {k} e) r = Quiet-Apart job s _ (round-Quiet text now job k s)
  Move-Apart {s} (leave {k} {b} e) r = (vacate-parts job k s).0
  Move-Apart {s} (clear {k} {b}) r = Quiet-Apart job s _ (free_slot-Quiet job k s)
  Move-Apart {s} (give_back {b}) r = record {
    store_eq = λ q ne. refl;
    count_eq = λ q ne. refl;
    running_eq = refl;
  }
  Move-Apart {s} (free_up {b}) r = record {
    store_eq = λ q ne. refl;
    count_eq = λ q ne. refl;
    running_eq = refl;
  }
  Move-Apart {s} (close {b}) r = close-Apart b s r

  pub Move-Own :
      {locked : Bool} {s : Scheduler State} {p p' : Pc} {s' : Scheduler State}
      → Move sem text locked now job s p p' s'
      → Relies sem needs job p s
      → (ran_out p ≡ true → IsSpent job s)
      → Own job p' s'
  Move-Own enter r spent = inl (refl, λ e. cc e)
  Move-Own (pass e) r spent = inl (refl, λ e. cc e)
  Move-Own (accept e) r spent = inl (refl, λ e. cc e)
  Move-Own (refuse e) r spent = inl (refl, λ e. cc e)
  Move-Own give_up r spent = inl (refl, λ e. cc e)
  Move-Own {s} report r spent = inr (refl, inr (inl (fail-IsOver text now job s)))
  Move-Own choose r spent = inl (refl, λ e. cc e)
  Move-Own (take e) r spent = inl (refl, λ e. cc e)
  Move-Own begin r spent = inl (refl, λ e. cc e)
  Move-Own (go_on e) r spent = inl (refl, λ e. cc e)
  Move-Own {s} (run_out {k} e) r spent = inl (refl, λ out. over-IsSpent text now job k s e)
  Move-Own (cut e) r spent = inl (refl, λ e. cc e)
  Move-Own {s} (leave {k} {b} e) r spent = inl (refl, λ out. (vacate-parts job k s).1 (spent out))
  Move-Own {s} (clear {k} {b}) r spent = inl (refl, λ out. free_slot-IsSpent job k s (spent out))
  Move-Own {s} (give_back {b}) r spent = inl (refl, λ out. spent out)
  Move-Own {s} (free_up {b}) r spent = inl (refl, λ out. spent out)
  Move-Own {s} (close {b}) r spent = inr (refl, close-Settled b s r spent)
