-- ===== src/Scheduler/Averages.antt =====
-- `recalcStats` of scheduler.cpp: the averages over the completed jobs, which the dashboard shows. They
-- are kept apart from the other counters, since nothing but the dashboard reads them.
use mathlib.Core.Path.{subst}
use tensor_sched.Prelude.{
  ℕ, suc, ◌+◌, ◌<◌, Bool, true, false, List, [], ◌∷◌, ◌≡◌, refl, sym, ap, ◌∙◌, arith, pos, ltb,
  if◌then◌else◌, length, Bool-cases, inl, inr,
}
use tensor_sched.Job.{JobStatus, Store, max_jobs}
use tensor_sched.ResourceManager.{ResourceManager, total_cpu, total_memory}
use tensor_sched.Scheduler.{Scheduler, all_jobs_snapshot}
use tensor_sched.Double.{Double, nought, hundred}

abbrev pub is_completed : JobStatus → Bool
is_completed JobStatus.completed = true
is_completed _ = false

-- The completed ones of some jobs.
abbrev pub completed_of : Store → List ℕ → List ℕ
completed_of h [] = []
completed_of h (p ∷ ps) =
    if is_completed (h p).status then p ∷ completed_of h ps else completed_of h ps

-- The floating-point fields of `SchedulerStats`.
pub record Averages {ℓ} (W : Type ℓ) : Type ℓ where
  pub avg_wait_ticks : W
  pub avg_turnaround_sec : W
  pub throughput : W
  pub cpu_utilization : W

module _ {ℓ} {W : Type ℓ} ⦃d : Double W⦄ where
  -- `used_cpu_.load() * 100.0 / TOTAL_CPU`, and the same of the memory.
  abbrev pub cpu_pct : {S : Type 0} → ResourceManager S → W
  cpu_pct rm = d.div (d.mul (d.of_int rm.used_cpu) hundred) (d.of_int (pos total_cpu))

  abbrev pub memory_pct : {S : Type 0} → ResourceManager S → W
  memory_pct rm = d.div (d.mul (d.of_int rm.used_memory) hundred) (d.of_int (pos total_memory))

  -- The loop: `total_wait`, `total_turn` and `completed` after the jobs left.
  unfoldable pub totals : Store → List ℕ → W → W → ℕ → W × W × ℕ
  totals h [] total_wait total_turn completed = (total_wait, total_turn, completed)
  totals h (p ∷ ps) total_wait total_turn completed =
      let j = h p in
      if is_completed j.status
      then totals h ps (d.add total_wait (d.of_int (pos j.wait_ticks)))
          (d.add total_turn (d.seconds j.submit_time j.finish_time)) (completed + 1)
      else totals h ps total_wait total_turn completed

  -- The block under `completed > 0`.
  unfoldable pub average : W × W × ℕ → Averages W → Averages W
  average (total_wait, total_turn, completed) a =
      let avg_turn = d.div total_turn (d.of_int (pos completed)) in
      if ltb 0 completed
      then record a {
        avg_wait_ticks = d.div total_wait (d.of_int (pos completed));
        avg_turnaround_sec = avg_turn;
        throughput =
            if d.gt avg_turn nought then d.div (d.of_int (pos completed)) avg_turn else nought;
      }
      else a

  unfoldable pub recalc_stats : {S : Type 0} → Scheduler S → Averages W → Averages W
  unfolding totals average
  recalc_stats s a =
      let jobs = all_jobs_snapshot max_jobs s in
      record (average (totals s.store jobs nought nought 0) a) {
        cpu_utilization = cpu_pct s.resources;
      }

  -- A sum over jobs in their order.
  abbrev pub sum_from : (ℕ → W) → W → List ℕ → W
  sum_from f total [] = total
  sum_from f total (p ∷ ps) = sum_from f (d.add total (f p)) ps

  abbrev pub waited : Store → ℕ → W
  waited h p = d.of_int (pos (h p).wait_ticks)

  abbrev pub turned : Store → ℕ → W
  turned h p = d.seconds (h p).submit_time (h p).finish_time

  totals_lem :
      (h : Store) (ps : List ℕ) (total_wait total_turn : W) (n : ℕ)
      → totals h ps total_wait total_turn n ≡ (
        sum_from (waited h) total_wait (completed_of h ps),
        sum_from (turned h) total_turn (completed_of h ps),
        n + length (completed_of h ps),
      )
  unfolding totals
  totals_lem h [] total_wait total_turn n = ap (λ k. (total_wait, total_turn, k)) (omega arith)
  totals_lem h (p ∷ ps) total_wait total_turn n = elim (Bool-cases (is_completed (h p).status)) [
    | inl closed ↦
        let more : n + 1 + length (completed_of h ps) ≡ n + suc (length (completed_of h ps)) =
          omega arith in
        rw closed (
          totals_lem h ps _ _ (n + 1)
          ∙ ap
              (λ k. (
                sum_from (waited h) (d.add total_wait (waited h p)) (completed_of h ps),
                sum_from (turned h) (d.add total_turn (turned h p)) (completed_of h ps),
                k,
              ))
              more)
    | inr other ↦ rw other (totals_lem h ps total_wait total_turn n)
  ]

  abbrev mean : W → W → ℕ → Averages W → Averages W
  mean w t n a =
      let avg_turn = d.div t (d.of_int (pos n)) in
      record a {
        avg_wait_ticks = d.div w (d.of_int (pos n));
        avg_turnaround_sec = avg_turn;
        throughput = if d.gt avg_turn nought then d.div (d.of_int (pos n)) avg_turn else nought;
      }

  average_none : (w t : W) (n : ℕ) (a : Averages W) → n ≡ 0 → average (w, t, n) a ≡ a
  unfolding average
  average_none w t n a e = let no : ltb 0 n ≡ false = ground arith in rw no refl

  average_some : (w t : W) (n : ℕ) (a : Averages W) → 0 < n → average (w, t, n) a ≡ mean w t n a
  unfolding average
  average_some w t n a lt = let yes : ltb 0 n ≡ true = ground arith in rw yes refl

  rate_of :
      (w t : W) (n : ℕ) (a b : Averages W)
      → b ≡ mean w t n a
      → (d.gt b.avg_turnaround_sec nought ≡ true
          → b.throughput ≡ d.div (d.of_int (pos n)) b.avg_turnaround_sec)
        × (d.gt b.avg_turnaround_sec nought ≡ false → b.throughput ≡ nought)
  rate_of w t n a b e =
      subst
        (λ b.
          (d.gt b.avg_turnaround_sec nought ≡ true
            → b.throughput ≡ d.div (d.of_int (pos n)) b.avg_turnaround_sec)
          × (d.gt b.avg_turnaround_sec nought ≡ false → b.throughput ≡ nought))
        (sym e) (λ g. rw g refl, λ g. rw g refl)

  -- The averages are those of the jobs that are listed and completed: the mean of their waiting ticks,
  -- the mean of the time from submission to finish, and the number of them for one such time, or zero
  -- where it is not above zero. While no job is completed they stay as they were. The utilization is
  -- that of the moment.
  pub recalc_stats_lem :
      {S : Type 0} (s : Scheduler S) (a : Averages W)
      → let done = completed_of s.store (all_jobs_snapshot max_jobs s) in
        let n = d.of_int (pos (length done)) in
        let b = recalc_stats s a in
        (b.cpu_utilization ≡ cpu_pct s.resources)
        × (done ≡ [] → b ≡ record a { cpu_utilization = cpu_pct s.resources })
        × (0 < length done
            → (b.avg_wait_ticks ≡ d.div (sum_from (waited s.store) nought done) n)
              × (b.avg_turnaround_sec ≡ d.div (sum_from (turned s.store) nought done) n)
              × (d.gt b.avg_turnaround_sec nought ≡ true
                  → b.throughput ≡ d.div n b.avg_turnaround_sec)
              × (d.gt b.avg_turnaround_sec nought ≡ false → b.throughput ≡ nought))
  unfolding recalc_stats
  recalc_stats_lem s a = (
    refl,
    λ none.
        ap with_cpu
          (ap (λ t. average t a) found ∙ average_none _ _ _ a (omega (arith, ap length none))),
    λ some. (
      ap (λ b. b.avg_wait_ticks) (same some),
      ap (λ b. b.avg_turnaround_sec) (same some),
      (rate_of _ _ _ a _ (same some)).0,
      (rate_of _ _ _ a _ (same some)).1,
    ),
  )
    where
      with_cpu : Averages W → Averages W
      with_cpu b = record b { cpu_utilization = cpu_pct s.resources }

      done : List ℕ
      done = completed_of s.store (all_jobs_snapshot max_jobs s)

      found : totals s.store (all_jobs_snapshot max_jobs s) nought nought 0 ≡ (
        sum_from (waited s.store) nought done,
        sum_from (turned s.store) nought done,
        length done,
      )
      found =
          let e : 0 + length done ≡ length done = omega arith in
          totals_lem s.store (all_jobs_snapshot max_jobs s) nought nought 0
          ∙ ap
              (λ n.
                (sum_from (waited s.store) nought done, sum_from (turned s.store) nought done, n))
              e

      same :
          0 < length done
          → average (totals s.store (all_jobs_snapshot max_jobs s) nought nought 0) a
            ≡ mean
                (sum_from (waited s.store) nought done)
                (sum_from (turned s.store) nought done)
                (length done)
                a
      same some = ap (λ t. average t a) found ∙ average_some _ _ _ a some
