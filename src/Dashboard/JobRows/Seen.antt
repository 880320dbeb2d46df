-- ===== src/Dashboard/JobRows/Seen.antt =====
-- Which jobs have a row in the job table.
use tensor_sched.Prelude.{ℕ, ◌*◌, false, List, some, ◌≡◌, get_elem?, ℤ, pos, ◌+ℤ◌}
use tensor_sched.Job.{Store}
use tensor_sched.Scheduler.{Scheduler}
use tensor_sched.Dashboard.JobRows.{Row, row_h, row_of, is_hidden}

-- Where row `k` begins.
abbrev pub row_y : ℤ → ℕ → ℤ
row_y top k = top +ℤ pos (k * row_h)

module _ (fit : List ℕ → List ℕ) (clip_y clip_h : ℕ) (h : Store) where
  -- The job at `k` has a row, and it is seen at least in part.
  abbrev pub Shows : ℤ → List ℕ → ℕ → Row → Type 0
  Shows top js k r =
      (job : ℕ) × (get_elem? js k ≡ some job)
      × (is_hidden clip_y clip_h (row_y top k) ≡ false)
      × (r ≡ row_of fit h job (row_y top k))
