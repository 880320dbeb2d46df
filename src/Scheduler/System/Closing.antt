-- ===== src/Scheduler/System/Closing.antt =====
-- The last step of a worker, and the steps that are quiet: with them every step has an effect of the
-- one form.
use tensor_sched.Prelude.{
  ℕ, ◌+◌, ◌≤◌, ◌<◌, Bool, true, false, List, ◌≡◌, refl, ap, ◌∙◌, arith, ◌==◌, if◌then◌else◌, count,
  length, inl, inr,
}
use native.Mathlib.Decide.{ℕ_discrete}
use tensor_sched.Job.{mlfq_levels, update}
use tensor_sched.MlfqJobQueue.{pointers, requeue_preempted}
use tensor_sched.MlfqJobQueue.Invariant.{IsValid}
use tensor_sched.MlfqJobQueue.Ageing.Starvation.{marked_below}
use tensor_sched.ResourceManager.Ledger.{Grant}
use tensor_sched.Semaphore.{Semaphore}
use tensor_sched.Scheduler.{Scheduler, add_log}
use tensor_sched.Scheduler.Records.{LogEvent}
use tensor_sched.Scheduler.Worker.{finish}
use tensor_sched.Scheduler.Worker.Finish.{Completes, Leaves, finish_lem}
use tensor_sched.Scheduler.System.{
  Pc, entering, waiting, refusing, failing, choosing, placing, starting, looping, vacating, freeing,
  releasing, posting, ending, done, Move, enter, pass, accept, refuse, give_up, report, choose,
  take, begin, go_on, run_out, cut, leave, clear, give_back, free_up, close,
}
use tensor_sched.Scheduler.System.Quiet.{
  SameNeeds, SameNeeds-refl, announce-Quiet, fail-Quiet, start-Quiet, round-Quiet, free_slot-Quiet,
  self-Quiet,
}
use tensor_sched.Scheduler.System.Effect.{Effect, Relies, Quiet-Effect, SameNeeds-IsValid}
use tensor_sched.Scheduler.System.Moves.{
  pass-Effect, post-Effect, accept-Effect, refuse-Effect, give_back-Effect, take-Effect,
  leave-Effect,
}

module _ (sem : Semaphore) (needs : ℕ → Grant) (text : ℕ → LogEvent → List ℕ) (now job : ℕ) where
  open sem use {State}

  finish-costs :
      (b : Bool) (s : Scheduler State) (q : ℕ)
      → (((finish text now job b s).store q).cpu_required ≡ (s.store q).cpu_required)
        × (((finish text now job b s).store q).memory_required ≡ (s.store q).memory_required)
  unfolding finish add_log requeue_preempted update
  finish-costs b s q = ground arith

  -- What `finish` does to the jobs and the queue.
  record Ends (s s' : Scheduler State) : Type 0 where
    valid : IsValid s'.store s'.queue
    level : (q : ℕ) → (s'.store q).mlfq_level < mlfq_levels
    counts :
        (q : ℕ)
        → count q (pointers s'.queue) ≤ count q (pointers s.queue) + (if job == q then 1 else 0)

  completed-SameNeeds :
      (s s' : Scheduler State)
      → Completes text now job s s'
      → (q : ℕ) → SameNeeds (s.store q) (s'.store q)
  completed-SameNeeds s s' c q = elim (ℕ_discrete q job) [
    | yes e ↦
        rw (e, c.closed)
          (record {
            cpu_eq = refl;
            memory_eq = refl;
            level_eq = refl;
            priority_eq = refl;
            submit_eq = refl;
          })
    | no ne ↦ rw (c.others q ne) (SameNeeds-refl (s.store q))
  ]

  Leaves-Ends :
      (b : Bool) (s s' : Scheduler State) (p : Pc)
      → Relies sem needs job p s
      → Leaves text now job b s s'
      → Ends s s'
  Leaves-Ends b s s' p r (inl c) = record {
    valid = rw c.queue_kept (
        SameNeeds-IsValid s.store s'.store s.queue (completed-SameNeeds s s' c)
          (λ q m. c.others q (λ eq. absurd (ground (arith, r.unqueued, m, eq)))) r.valid);
    level = λ q. elim (ℕ_discrete q job) [
      | yes e ↦ rw (e, c.closed) (r.fits job).level_lt
      | no ne ↦ rw (c.others q ne) (r.fits q).level_lt
    ];
    counts = λ q. rw c.queue_kept (omega arith);
  }
  Leaves-Ends b s s' p r (inr (inl (_, q))) = record {
    valid = q.enters.valid;
    level = λ a. elim (ℕ_discrete a job) [
      | yes e ↦
          let queued : 0 < count job (pointers s'.queue) = ground (arith, q.enters.added job) in
          rw e (
            omega (
              arith,
              q.enters.valid.three,
              marked_below s'.store 0 job s'.queue q.enters.valid.levels queued,
            ))
      | no ne ↦ rw (q.enters.others a ne) (r.fits a).level_lt
    ];
    counts = λ a. omega (arith, q.enters.added a);
  }
  Leaves-Ends b s s' p r (inr (inr (_, _, e))) =
      rw e (record { valid = r.valid; level = λ q. (r.fits q).level_lt; counts = λ q. omega arith })

  close-Effect :
      (b : Bool) (s : Scheduler State)
      → Relies sem needs job (ending b) s
      → Effect sem needs job (ending b) done s (finish text now job b s)
  close-Effect b s r =
      let (l, same_resources, same_active) =
        finish_lem text now job b s (r.fits job).level_lt r.unqueued r.valid in
      let e = Leaves-Ends b s (finish text now job b s) (ending b) r l in
      record {
        fits = λ q. record {
          cpu_eq = (finish-costs b s q).0 ∙ (r.fits q).cpu_eq;
          memory_eq = (finish-costs b s q).1 ∙ (r.fits q).memory_eq;
          level_lt = e.level q;
        };
        valid = e.valid;
        queued = λ q. ground (arith, e.counts q);
        permits = rw same_resources;
        funds = λ front back f. rw same_resources f;
        four = ap length same_active;
        entries = rw same_active;
        entries_of = λ q. rw same_active;
        mine = tt;
        theirs = λ q k ne g. rw same_active g;
      }

  -- Whatever a worker does next: what it gains, the shared state has given up.
  pub Move-Effect :
      {locked : Bool} {s : Scheduler State} {p p' : Pc} {s' : Scheduler State}
      → Move sem text locked now job s p p' s'
      → Relies sem needs job p s
      → Effect sem needs job p p' s s'
  Move-Effect {s} (enter {slot}) r =
      Quiet-Effect sem needs job (entering slot) (waiting slot) s _ (ground arith)
        (announce-Quiet text now job s) r
  Move-Effect {s} (pass {slot} {t} e) r = pass-Effect sem needs job slot s t e r
  Move-Effect {s} (accept {slot} e) r = accept-Effect sem needs job slot s e r
  Move-Effect {s} (refuse {slot} e) r = refuse-Effect sem needs job slot s e r
  Move-Effect {s} give_up r = post-Effect sem needs job refusing failing s refl refl refl refl r
  Move-Effect {s} report r =
      Quiet-Effect sem needs job failing done s _ (ground arith) (fail-Quiet text now job s) r
  Move-Effect {s} (choose {slot}) r =
      Quiet-Effect sem needs job (choosing slot) (placing _) s s (ground arith)
        (self-Quiet text now job s) r
  Move-Effect {s} (take {k} e) r = take-Effect sem needs job k s r
  Move-Effect {s} (begin {k}) r =
      Quiet-Effect sem needs job (starting k) (looping k) s _ (ground arith)
        (start-Quiet text now job k s) r
  Move-Effect {s} (go_on {k} e) r =
      Quiet-Effect sem needs job (looping k) (looping k) s _ (ground arith)
        (round-Quiet text now job k s) r
  Move-Effect {s} (run_out {k} e) r =
      Quiet-Effect sem needs job (looping k) (vacating k false) s _ (ground arith)
        (round-Quiet text now job k s) r
  Move-Effect {s} (cut {k} e) r =
      Quiet-Effect sem needs job (looping k) (vacating k true) s _ (ground arith)
        (round-Quiet text now job k s) r
  Move-Effect {s} (leave {k} {b} e) r = leave-Effect sem needs job k b s r
  Move-Effect {s} (clear {k} {b}) r =
      Quiet-Effect sem needs job (freeing k b) (releasing b) s _ (ground arith)
        (free_slot-Quiet job k s) r
  Move-Effect {s} (give_back {b}) r = give_back-Effect sem needs job b s r
  Move-Effect {s} (free_up {b}) r =
      post-Effect sem needs job (posting b) (ending b) s refl refl refl refl r
  Move-Effect {s} (close {b}) r = close-Effect b s r
