-- ===== src/Scheduler/Submit.antt =====
-- `submitJob`.
use tensor_sched.Prelude.{
  ℕ, suc, ◌≤◌, ◌<◌, List, [], ◌∷◌, ◌++◌, some, ◌≡◌, refl, sym, ap, zero, take-nil, arith, count,
  length, take, ltb, if◌then◌else◌, Bool-cases, inl, inr,
}
use tensor_sched.Job.{max_jobs}
use tensor_sched.MlfqJobQueue.{pointers}
use tensor_sched.MlfqJobQueue.Invariant.{IsValid}
use tensor_sched.MlfqJobQueue.Pushing.{Enters, push_new-Enters}
use tensor_sched.Scheduler.{Scheduler, submit_job, add_log}
use tensor_sched.Scheduler.Records.{LogEvent}

take-append_room {ℓ} :
    {A : Type ℓ} (n : ℕ) (xs : List A) (x : A)
    → length xs < n
    → take n (xs ++ (x ∷ [])) ≡ xs ++ (x ∷ [])
take-append_room zero xs x lt = absurd (omega arith)
take-append_room (suc n) [] x lt = ap (λ r. x ∷ r) (take-nil n)
take-append_room (suc n) (y ∷ ys) x lt = ap (◌∷◌ y) (take-append_room n ys x (omega arith))

take-append_full {ℓ} :
    {A : Type ℓ} (n : ℕ) (xs : List A) (x : A) → n ≡ length xs → take n (xs ++ (x ∷ [])) ≡ xs
take-append_full zero [] x e = refl
take-append_full (suc n) [] x e = absurd (omega arith)
take-append_full zero (y ∷ ys) x e = absurd (omega arith)
take-append_full (suc n) (y ∷ ys) x e = ap (◌∷◌ y) (take-append_full n ys x (omega arith))

module _ {S : Type 0} (text : ℕ → LogEvent → List ℕ) where
  -- The levels being valid and the job not queued: a job submitted while the table of all jobs has room is listed and queued; one submitted when
  -- the table is full is queued all the same, but never listed. Either way it is counted as
  -- submitted and enters the queue at level 0 as `push_new` brings it in.
  pub submit_job_lem :
      (now job : ℕ) (s : Scheduler S)
      → length s.all_jobs ≤ max_jobs
      → count job (pointers s.queue) ≡ 0
      → IsValid s.store s.queue
      → let s' = submit_job text now (some job) s in
        (s'.all_jobs ≡ take max_jobs (s.all_jobs ++ (job ∷ [])))
        × (s'.stats.total_submitted ≡ suc s.stats.total_submitted)
        × Enters s.store s.queue job 0 (s'.store, s'.queue)
  unfolding submit_job add_log
  submit_job_lem now job s le out v = (listed, refl, push_new-Enters now s.store job s.queue out v)
    where
      listed :
          (if ltb (length s.all_jobs) max_jobs then s.all_jobs ++ (job ∷ []) else s.all_jobs)
          ≡ take max_jobs (s.all_jobs ++ (job ∷ []))
      listed = elim (Bool-cases (ltb (length s.all_jobs) max_jobs)) [
        | inl room ↦ rw room (sym (take-append_room max_jobs s.all_jobs job (ground arith)))
        | inr full ↦ rw full (sym (take-append_full max_jobs s.all_jobs job (ground arith)))
      ]
