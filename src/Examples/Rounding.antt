-- ===== src/Examples/Rounding.antt =====
-- The percentage of a job, over whole numbers with division rounding down.
use native.Mathlib.Nat.{le-div_iff_mul-le, mul-le-mul_right}
use tensor_sched.Prelude.{
  ℕ, suc, ◌+◌, ◌*◌, ◌/◌, ◌≤◌, ◌-◌, ◌≡◌, arith, ltb, leb, [], ◌∷◌, pos_part, true, false,
}
use tensor_sched.Double.{Double, IsRounded}
use tensor_sched.Job.{Store, JobStatus}
use tensor_sched.Job.Progress.{completion_pct, progress_lem}
use tensor_sched.Semaphore.{counter}
use tensor_sched.Scheduler.{Scheduler, new_scheduler, all_jobs_snapshot}
use tensor_sched.Scheduler.Averages.{Averages, recalc_stats, recalc_stats_lem}
use tensor_sched.Examples.Data.{jobs}

instance abbrev whole : Double ℕ
whole = record {
  of_int = pos_part;
  seconds = λ from until. until - from;
  add = λ a b. a + b;
  mul = λ a b. a * b;
  div = λ a b. a / b;
  le = leb;
  gt = λ a b. ltb b a;
}

quotient : (a b : ℕ) → suc b ≤ a → 1 ≤ a / suc b
quotient a b le = (le-div_iff_mul-le {k = suc b} {x = 1} {y = a} (omega arith)).1 (omega arith)

product : (x n : ℕ) → 1 ≤ x → suc n ≤ x * suc n
product x n le = omega (arith, mul-le-mul_right {m = 1} {n = x} (suc n) le)

at_least : (a b : ℕ) → a ≤ b → leb a b ≡ true
at_least a b le = ground arith

whole-IsRounded : IsRounded ℕ
whole-IsRounded = record {
  of_int_mono = λ a b le. ground arith;
  gt_irrefl = λ a. ground arith;
  antisym = λ x n le not_gt. ground arith;
  div_nonneg = λ a b. at_least 0 (a / suc b) (omega arith);
  div_ge = λ a b le. at_least 1 (a / suc b) (quotient a b le);
  mul_nonneg = λ x n le. at_least 0 (x * suc n) (omega arith);
  mul_ge = λ x n le. at_least (suc n) (x * suc n) (product x n (ground arith));
}

progress_lem_example : ltb 100 (completion_pct (jobs 3)) ≡ false
progress_lem_example = (progress_lem whole-IsRounded (jobs 3)).1

abbrev closed_jobs : Store
closed_jobs p = record (jobs p) {
  status = JobStatus.completed;
  wait_ticks = 3 * p;
  finish_time = 9;
}

-- Jobs 1 and 3 are listed.
abbrev after_two : Scheduler ℕ
after_two = record (new_scheduler counter closed_jobs) { all_jobs = 1 ∷ 3 ∷ [] }

abbrev zeros : Averages ℕ
zeros = record { avg_wait_ticks = 0; avg_turnaround_sec = 0; throughput = 0; cpu_utilization = 0 }

recalc_stats_lem_example : (recalc_stats after_two zeros).avg_wait_ticks ≡ 6
unfolding all_jobs_snapshot new_scheduler
recalc_stats_lem_example = ((recalc_stats_lem after_two zeros).2 (omega arith)).0
