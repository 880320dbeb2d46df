-- ===== src/Scheduler/Worker/Finish.antt =====
-- The end of `workerFunc`: the job is completed, requeued or left.
use Prim.Native.Nat.{min}
use tensor_sched.Prelude.{
  ℕ, suc, ◌+◌, ◌<◌, Bool, true, false, List, ◌≡◌, ◌≢◌, refl, arith, count, ◌⊎◌, inl, inr, pos,
  leb_ℤ, ◌≤ℤ◌, if◌then◌else◌, Bool-cases,
}
use tensor_sched.Job.{JobStatus, mlfq_levels, quantum_expired, update_self, update_ne}
use tensor_sched.MlfqJobQueue.{pointers}
use tensor_sched.MlfqJobQueue.Invariant.{IsValid}
use tensor_sched.MlfqJobQueue.Pushing.{Enters, requeue_preempted-Enters}
use tensor_sched.Scheduler.{Scheduler, add_log}
use tensor_sched.Scheduler.Records.{LogEvent}
use tensor_sched.Scheduler.Worker.{finish}

module _ {S : Type 0} (text : ℕ → LogEvent → List ℕ) (now job : ℕ) where
  -- The job has run for its burst: it is completed now, and counted.
  pub record Completes (s s' : Scheduler S) : Type 0 where
    pub used_up : (s.store job).burst_time ≤ℤ pos (s.store job).elapsed_ticks
    pub closed :
        s'.store job ≡ record (s.store job) { finish_time = now; status = JobStatus.completed }
    pub others : (p : ℕ) → p ≢ job → s'.store p ≡ s.store p
    pub queue_kept : s'.queue ≡ s.queue
    pub one_more : s'.stats.total_completed ≡ suc s.stats.total_completed

  -- The job has work left and was preempted: it comes into the queue, a level down if its quantum
  -- is used up.
  pub record Requeues (s s' : Scheduler S) : Type 0 where
    pub unfinished : leb_ℤ (s.store job).burst_time (pos (s.store job).elapsed_ticks) ≡ false
    pub enters :
        Enters s.store s.queue job
          (if quantum_expired (s.store job)
            then min ((s.store job).mlfq_level + 1) 2
            else (s.store job).mlfq_level)
          (s'.store, s'.queue)
    pub stats_kept : s'.stats ≡ s.stats

  -- What becomes of the job, with `was_preempted` as the loop has left it.
  abbrev pub Leaves : Bool → Scheduler S → Scheduler S → Type 0
  Leaves was_preempted s s' =
      Completes s s'
      ⊎ (((was_preempted ≡ true) × Requeues s s')
          ⊎ ((was_preempted ≡ false)
              × (leb_ℤ (s.store job).burst_time (pos (s.store job).elapsed_ticks) ≡ false)
              × (s' ≡ s)))

  -- The levels being valid, the job not queued and its level in range: a worker that is done with a
  -- job completes it exactly when it has run for its burst, also if it was preempted in the last
  -- tick. Otherwise a preempted job comes back into the queue, one level down (but no lower than
  -- the last) exactly when its quantum is used up. A job that was neither is left as it was. The
  -- resources and the slots are not touched.
  pub finish_lem :
      (was_preempted : Bool) (s : Scheduler S)
      → (s.store job).mlfq_level < mlfq_levels
      → count job (pointers s.queue) ≡ 0
      → IsValid s.store s.queue
      → let s' = finish text now job was_preempted s in
        Leaves was_preempted s s' × (s'.resources ≡ s.resources) × (s'.active_jobs ≡ s.active_jobs)
  unfolding finish add_log
  finish_lem was_preempted s lt out v =
      elim (Bool-cases (leb_ℤ (s.store job).burst_time (pos (s.store job).elapsed_ticks))) [
        | inl over ↦ rw over (
          inl (record {
            used_up = ground (arith, over);
            closed = update_self s.store job _;
            others = λ p ne. update_ne s.store job p _ ne;
            queue_kept = refl;
            one_more = refl;
          }),
          refl,
          refl,
        )
        | inr more ↦ elim (Bool-cases was_preempted) [
          | inl cut ↦
              rw (more, cut)
                (
                  inr (
                      inl (
                        refl,
                        record {
                          unfinished = more;
                          enters =
                              requeue_preempted-Enters now s.store job
                                (quantum_expired (s.store job)) s.queue lt out v;
                          stats_kept = refl;
                        },
                      )),
                  refl,
                  refl,
                )
          | inr ran_on ↦ rw (more, ran_on) (inr (inr (refl, refl, refl)), refl, refl)
        ]
      ]
