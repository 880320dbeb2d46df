-- ===== src/Job/Slice.antt =====
-- The remaining ticks of a job and of its slice.
use tensor_sched.Prelude.{true, ◌≡◌, arith, ℤ, pos, ◌-ℤ◌, ◌≤ℤ◌, ltb_ℤ, if◌then◌else◌, leb}
use tensor_sched.Job.{Job, slice_quantum, quantum_expired, ticks_left_in_slice, remaining_ticks}

-- A difference that is raised to zero where it is negative.
abbrev clamp : ℤ → ℤ
clamp x = if ltb_ℤ x (pos 0) then pos 0 else x

clamp_done : (a b : ℤ) → clamp (a -ℤ b) ≡ pos 0 → a ≤ℤ b
unfolding ◌-ℤ◌
clamp_done a b e = ground arith

clamp_le : (a b : ℤ) → a ≤ℤ b → clamp (a -ℤ b) ≡ pos 0
unfolding ◌-ℤ◌
clamp_le a b le = ground arith

clamp_nonneg : (x : ℤ) → pos 0 ≤ℤ clamp x
clamp_nonneg x = ground arith

-- The two accessors never go below zero. A job has no tick of its burst left exactly when it has
-- run for its burst (or longer), and none of its slice left exactly when its quantum has expired.
pub remaining_lem :
    (j : Job)
    → ((remaining_ticks j ≡ pos 0 → j.burst_time ≤ℤ pos j.elapsed_ticks)
        × (j.burst_time ≤ℤ pos j.elapsed_ticks → remaining_ticks j ≡ pos 0)
        × (pos 0 ≤ℤ remaining_ticks j))
      × ((ticks_left_in_slice j ≡ pos 0 → quantum_expired j ≡ true)
          × (quantum_expired j ≡ true → ticks_left_in_slice j ≡ pos 0)
          × (pos 0 ≤ℤ ticks_left_in_slice j))
unfolding remaining_ticks ticks_left_in_slice quantum_expired
remaining_lem j = (
  (
    clamp_done j.burst_time (pos j.elapsed_ticks),
    clamp_le j.burst_time (pos j.elapsed_ticks),
    clamp_nonneg (j.burst_time -ℤ pos j.elapsed_ticks),
  ),
  (
    λ e. used (clamp_done (pos (slice_quantum j)) (pos j.ticks_this_slice) e),
    λ e. clamp_le (pos (slice_quantum j)) (pos j.ticks_this_slice) (leb_le e),
    clamp_nonneg (pos (slice_quantum j) -ℤ pos j.ticks_this_slice),
  ),
)
  where
    used :
        pos (slice_quantum j) ≤ℤ pos j.ticks_this_slice
        → leb (slice_quantum j) j.ticks_this_slice ≡ true
    used le = ground (arith, le)

    leb_le :
        leb (slice_quantum j) j.ticks_this_slice ≡ true
        → pos (slice_quantum j) ≤ℤ pos j.ticks_this_slice
    leb_le e = ground (arith, e)
