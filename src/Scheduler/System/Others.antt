-- ===== src/Scheduler/System/Others.antt =====
-- Steps of the dispatcher, of the aging thread and of callers keep the invariant.
use tensor_sched.Prelude.{
  ℕ, ◌+◌, ◌≤◌, ◌<◌, ◌%◌, false, List, some, ◌≡◌, refl, ◌∙◌, arith, ◌==◌, get_elem?, count, inl, inr,
  Bool-cases, ltb,
}
use tensor_sched.Job.{Job, update, mlfq_levels}
use tensor_sched.MlfqJobQueue
use tensor_sched.MlfqJobQueue.{MlfqJobQueue, pointers, push_new}
use tensor_sched.MlfqJobQueue.Invariant.{IsValid}
use tensor_sched.MlfqJobQueue.Pushing.{Enters, push_new-Enters}
use tensor_sched.MlfqJobQueue.Ageing.Pass.{run_aging-Ages}
use tensor_sched.MlfqJobQueue.Views.{tick_waiting_lem}
use tensor_sched.ResourceManager.Ledger.{Grant}
use tensor_sched.Semaphore.{Semaphore}
use tensor_sched.Scheduler.{Scheduler, submit_job, run_aging, add_log}
use tensor_sched.Scheduler.Records.{LogEvent}
use tensor_sched.Scheduler.Dispatch.{tick}
use tensor_sched.Scheduler.Dispatch.Cycle.{tick-rest, tick-IsValid}
use tensor_sched.Scheduler.System.{Thread, done}
use tensor_sched.Scheduler.System.Threads.{sum_of, sum_of-zero}
use tensor_sched.Scheduler.System.Invariant.{owns, IsFit, Inv}

module _ (sem : Semaphore) (needs : ℕ → Grant) where
  open sem use {State}

  -- The threads, the resources and the entries are as before.
  pub record Behind (s s' : Scheduler State) (ts : List Thread) : Type 0 where
    pub fits : (p : ℕ) → IsFit needs p (s'.store p)
    pub valid : IsValid s'.store s'.queue
    pub owned : (p : ℕ) → count p (pointers s'.queue) + sum_of (owns p) ts ≤ 1
    pub resources_eq : s'.resources ≡ s.resources
    pub active_eq : s'.active_jobs ≡ s.active_jobs

  pub Behind-Inv :
      (s s' : Scheduler State) (ts : List Thread)
      → Inv sem needs s ts
      → Behind s s' ts
      → Inv sem needs s' ts
  Behind-Inv s s' ts v b = record {
    fits = b.fits;
    valid = b.valid;
    owned = b.owned;
    permits = rw b.resources_eq v.permits;
    funds = rw b.resources_eq v.funds;
    seated = rw b.active_eq v.seated;
  }

  -- A job with the needs of `j`, and a level in range.
  pub IsFit-costs :
      (p : ℕ) (j j' : Job)
      → j'.cpu_required ≡ j.cpu_required
      → j'.memory_required ≡ j.memory_required
      → j'.mlfq_level < mlfq_levels
      → IsFit needs p j
      → IsFit needs p j'
  IsFit-costs p j j' c m l f = record {
    cpu_eq = c ∙ f.cpu_eq;
    memory_eq = m ∙ f.memory_eq;
    level_lt = l;
  }

  module _ (s : Scheduler State) (ts : List Thread) (v : Inv sem needs s ts) where
    pub halt-Inv : Inv sem needs (record s { running = false }) ts
    halt-Inv = Behind-Inv s _ ts v (record {
      fits = v.fits;
      valid = v.valid;
      owned = v.owned;
      resources_eq = refl;
      active_eq = refl;
    })

    tick-fits : (cycle p : ℕ) → IsFit needs p ((tick cycle s).store p)
    unfolding tick
    tick-fits cycle p = elim (Bool-cases (cycle % 4 == 0)) [
      | inl e ↦
          rw (e, tick_waiting_lem s.store s.queue p)
            (IsFit-costs p (s.store p) _ refl refl (v.fits p).level_lt (v.fits p))
      | inr e ↦ rw e (v.fits p)
    ]

    pub tick-Inv : (cycle : ℕ) → Inv sem needs (tick cycle s) ts
    tick-Inv cycle =
        let (same_queue, same_active, same_resources) = tick-rest cycle s in
        Behind-Inv s (tick cycle s) ts v (record {
          fits = tick-fits cycle;
          valid = rw same_queue (tick-IsValid cycle s v.valid);
          owned = rw same_queue v.owned;
          resources_eq = same_resources;
          active_eq = same_active;
        })

    module _ (text : ℕ → LogEvent → List ℕ) where
      pub close_log-Inv : (now : ℕ) → Inv sem needs (add_log text now LogEvent.stopped 5 s) ts
      unfolding add_log
      close_log-Inv now = Behind-Inv s _ ts v (record {
        fits = v.fits;
        valid = v.valid;
        owned = v.owned;
        resources_eq = refl;
        active_eq = refl;
      })

      submit-rest :
          (now job : ℕ)
          → ((submit_job text now (some job) s).resources ≡ s.resources)
            × ((submit_job text now (some job) s).active_jobs ≡ s.active_jobs)
      unfolding submit_job add_log
      submit-rest now job = (refl, refl)

      pub submit-Enters :
          (now job : ℕ)
          → count job (pointers s.queue) ≡ 0
          → Enters s.store s.queue job 0
              ((submit_job text now (some job) s).store, (submit_job text now (some job) s).queue)
      unfolding submit_job add_log
      submit-Enters now job out = push_new-Enters now s.store job s.queue out v.valid

      submit-fits : (now job p : ℕ) → IsFit needs p ((submit_job text now (some job) s).store p)
      unfolding submit_job add_log push_new update
      submit-fits now job p = elim (Bool-cases (p == job)) [
        | inl e ↦ rw e (
            IsFit-costs p (s.store p) _ (ground (arith, e)) (ground (arith, e)) (omega arith)
              (v.fits p))
        | inr e ↦ rw e (v.fits p)
      ]

      pub submit-Inv :
          (now job : ℕ)
          → count job (pointers s.queue) ≡ 0
          → ((i : ℕ) (t : Thread) → get_elem? ts i ≡ some t → t.job ≡ job → t.pc ≡ done)
          → Inv sem needs (submit_job text now (some job) s) ts
      submit-Inv now job out finished =
          let e = submit-Enters now job out in
          Behind-Inv s (submit_job text now (some job) s) ts v (record {
            fits = submit-fits now job;
            valid = e.valid;
            owned = λ p. ground (arith, v.owned p, e.added p, out, unowned);
            resources_eq = (submit-rest now job).0;
            active_eq = (submit-rest now job).1;
          })
        where
          laid_down : (t : Thread) → (t.job ≡ job → t.pc ≡ done) → owns job t ≡ 0
          laid_down t d = ground (arith, d)

          unowned : sum_of (owns job) ts ≡ 0
          unowned = sum_of-zero (owns job) ts (λ i t e. laid_down t (finished i t e))

      pub age-parts :
          (now : ℕ) (clock : ℕ → ℕ)
          → let (h, q, _) = MlfqJobQueue.run_aging clock s.store s.queue in
            let s' = run_aging text now clock s in
            (s'.store ≡ h)
            × (s'.queue ≡ q)
            × (s'.resources ≡ s.resources)
            × (s'.active_jobs ≡ s.active_jobs)
      unfolding run_aging add_log
      age-parts now clock =
          elim (Bool-cases (ltb 0 (MlfqJobQueue.run_aging clock s.store s.queue).2)) [
            | inl e ↦ rw e (refl, refl, refl, refl)
            | inr e ↦ rw e (refl, refl, refl, refl)
          ]

      pub age-Inv : (now : ℕ) (clock : ℕ → ℕ) → Inv sem needs (run_aging text now clock s) ts
      age-Inv now clock =
          let (store_eq, queue_eq, resources_eq, active_eq) = age-parts now clock in
          let (valid, same, _, raised) = run_aging-Ages clock s.store s.queue v.valid in
          Behind-Inv s (run_aging text now clock s) ts v (record {
            fits = λ p.
                rw (store_eq, raised p)
                  (IsFit-costs p (s.store p) _ (ground arith) (ground arith)
                    (ground (arith, (v.fits p).level_lt)) (v.fits p));
            valid = rw (store_eq, queue_eq) valid;
            owned = λ p. rw queue_eq (omega (arith, same p, v.owned p));
            resources_eq = resources_eq;
            active_eq = active_eq;
          })
