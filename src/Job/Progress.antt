-- ===== src/Job/Progress.antt =====
-- How far a job has come: its percentage, and what is left of it.
use tensor_sched.Prelude.{
  zero, suc, true, false, ◌≡◌, refl, arith, ℤ, pos, negsuc, ◌≤ℤ◌, leb_ℤ, if◌then◌else◌, Bool-cases,
  inl, inr,
}
use tensor_sched.Job.{Job, remaining_ticks, ticks_left_in_slice, quantum_expired}
use tensor_sched.Job.Slice.{remaining_lem}
use tensor_sched.Double.{Double, IsRounded, nought, hundred, ◌⊑◌}

module _ {ℓ} {W : Type ℓ} ⦃d : Double W⦄ where
  unfoldable pub completion_pct : Job → W
  completion_pct j =
      let p = d.mul (d.div (d.of_int (pos j.elapsed_ticks)) (d.of_int j.burst_time)) hundred in
      if leb_ℤ j.burst_time (pos 0) then hundred else if d.gt p hundred then hundred else p

  module _ (laws : IsRounded W) where
    within : (p : W) → d.gt (if d.gt p hundred then hundred else p) hundred ≡ false
    within p = elim (Bool-cases (d.gt p hundred)) [
      | inl over ↦ rw over (laws.gt_irrefl (pos 100))
      | inr under ↦ rw under under
    ]

    full : (p : W) → hundred ⊑ p → (if d.gt p hundred then hundred else p) ≡ hundred
    full p le = elim (Bool-cases (d.gt p hundred)) [
      | inl over ↦ rw over refl
      | inr under ↦ rw under (laws.antisym p 99 le under)
    ]

    nonneg : (p : W) → nought ⊑ p → nought ⊑ (if d.gt p hundred then hundred else p)
    nonneg p le = elim (Bool-cases (d.gt p hundred)) [
      | inl over ↦ rw over (laws.of_int_mono (pos 0) (pos 100) (omega arith))
      | inr under ↦ rw under le
    ]

    pct_nonneg : (j : Job) → nought ⊑ completion_pct j
    unfolding completion_pct
    pct_nonneg j = elim (Bool-cases (leb_ℤ j.burst_time (pos 0))) [
      | inl none ↦ rw none (laws.of_int_mono (pos 0) (pos 100) (omega arith))
      | inr some ↦ rw some (nonneg _ (positive j.burst_time some))
    ]
      where
        positive :
            (b : ℤ)
            → leb_ℤ b (pos 0) ≡ false
            → nought ⊑ d.mul (d.div (d.of_int (pos j.elapsed_ticks)) (d.of_int b)) hundred
        positive (pos zero) e = cc
        positive (pos (suc n)) e = laws.mul_nonneg _ 99 (laws.div_nonneg j.elapsed_ticks n)
        positive (negsuc n) e = absurd (ground (arith, e))

    pct_full : (j : Job) → j.burst_time ≤ℤ pos j.elapsed_ticks → completion_pct j ≡ hundred
    unfolding completion_pct
    pct_full j done = elim (Bool-cases (leb_ℤ j.burst_time (pos 0))) [
      | inl none ↦ rw none refl
      | inr some ↦ rw some (full _ (whole j.burst_time some done))
    ]
      where
        whole :
            (b : ℤ)
            → leb_ℤ b (pos 0) ≡ false
            → b ≤ℤ pos j.elapsed_ticks
            → hundred ⊑ d.mul (d.div (d.of_int (pos j.elapsed_ticks)) (d.of_int b)) hundred
        whole (pos zero) e le = cc
        whole (pos (suc n)) e le = laws.mul_ge _ 99 (laws.div_ge j.elapsed_ticks n (omega arith))
        whole (negsuc n) e le = absurd (ground (arith, e))

    pct_within : (j : Job) → d.gt (completion_pct j) hundred ≡ false
    unfolding completion_pct
    pct_within j = elim (Bool-cases (leb_ℤ j.burst_time (pos 0))) [
      | inl none ↦ rw none (laws.gt_irrefl (pos 100))
      | inr some ↦ rw some (within _)
    ]

    -- With rounding as IEEE 754 has it: the percentage that a job shows is not below 0 nor above 100,
    -- and it is 100 where no tick of the burst is left. The ticks left of the burst and of the slice
    -- never go below zero; a job has none left of its burst exactly when it has run for its burst (or
    -- longer), and none of its slice exactly when its quantum has expired.
    pub progress_lem :
        (j : Job)
        → (nought ⊑ completion_pct j)
          × (d.gt (completion_pct j) hundred ≡ false)
          × (remaining_ticks j ≡ pos 0 → completion_pct j ≡ hundred)
          × ((remaining_ticks j ≡ pos 0 → j.burst_time ≤ℤ pos j.elapsed_ticks)
              × (j.burst_time ≤ℤ pos j.elapsed_ticks → remaining_ticks j ≡ pos 0)
              × (pos 0 ≤ℤ remaining_ticks j))
          × ((ticks_left_in_slice j ≡ pos 0 → quantum_expired j ≡ true)
              × (quantum_expired j ≡ true → ticks_left_in_slice j ≡ pos 0)
              × (pos 0 ≤ℤ ticks_left_in_slice j))
    progress_lem j = (
      pct_nonneg j,
      pct_within j,
      λ e. pct_full j ((remaining_lem j).0.0 e),
      (remaining_lem j).0,
      (remaining_lem j).1,
    )
