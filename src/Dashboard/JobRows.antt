-- ===== src/Dashboard/JobRows.antt =====
-- The rows of `drawJobTable` of main.cpp, in a table of height `h` at `y`. The columns are the same in
-- every row and are left out, and so is the percentage. What fits of a name in its column is a parameter.
pub mod Seen
use Prim.Native.Nat.{min}
use Prim.Native.String.{String}
use tensor_sched.Prelude.{
  ℕ, ◌+◌, ◌-◌, Bool, ◌||◌, List, [], ◌∷◌, Option, none, some, ltb, if◌then◌else◌, get_or, ℤ, pos,
  ◌+ℤ◌, ◌-ℤ◌, ltb_ℤ,
}
use tensor_sched.Job.{Job, JobStatus, Store, mlfq_levels, max_jobs, status_str, priority_str}
use tensor_sched.Scheduler.{Scheduler, all_jobs_snapshot}
use tensor_sched.Dashboard.{sort_jobs}
use tensor_sched.Dashboard.Paint.{
  Color, c_panel, c_panel3, c_teal, c_pink, c_green, c_coral, mlfq_col, status_color,
  priority_color,
}

pub record Row : Type 0 where
  pub job : ℕ
  pub ry : ℤ
  pub background : Color
  pub mark : Option Color  -- the bar at the left edge
  pub id : ℕ
  pub name : List ℕ  -- as much of it as fits
  pub priority : String
  pub priority_col : Color
  pub status : String
  pub status_col : Color
  pub level : ℕ
  pub level_col : Color
  pub cpu : ℤ
  pub memory : ℤ
  pub progress_col : Color
  pub preemptions : Option ℕ

abbrev pub row_h : ℕ
row_h = 34

abbrev pub background_of : JobStatus → Color
background_of JobStatus.running = c_panel3
background_of _ = c_panel

-- A job that runs or is preempted has a level in range.
abbrev pub mark_of : JobStatus → ℕ → Option Color
mark_of JobStatus.running level = some (get_or mlfq_col level c_teal)
mark_of JobStatus.preempted level = some c_pink
mark_of _ level = none

abbrev pub progress_color : JobStatus → Color
progress_color JobStatus.completed = c_green
progress_color JobStatus.failed = c_coral
progress_color JobStatus.preempted = c_pink
progress_color _ = c_teal

-- The test at the head of the loop: the row at `ry` is above the clip or below it.
abbrev pub is_hidden : (clip_y clip_h : ℕ) → ℤ → Bool
is_hidden clip_y clip_h ry =
    ltb_ℤ (ry +ℤ pos row_h) (pos clip_y) || ltb_ℤ (pos (clip_y + clip_h)) ry

module _ (fit : List ℕ → List ℕ) where
  abbrev pub row_of : Store → ℕ → ℤ → Row
  row_of h job ry =
      let j = h job in
      let lvl = min j.mlfq_level (mlfq_levels - 1) in
      record {
        job = job;
        ry = ry;
        background = background_of j.status;
        mark = mark_of j.status j.mlfq_level;
        id = j.id;
        name = fit j.name;
        priority = priority_str j.priority;
        priority_col = priority_color j.priority;
        status = status_str j.status;
        status_col = status_color j.status;
        level = lvl;
        level_col = get_or mlfq_col lvl c_teal;
        cpu = j.cpu_required;
        memory = j.memory_required;
        progress_col = progress_color j.status;
        preemptions = if ltb 0 j.preemption_count then some j.preemption_count else none;
      }

  unfoldable pub job_rows : (clip_y clip_h : ℕ) → Store → ℤ → List ℕ → List Row
  job_rows clip_y clip_h h ry [] = []
  job_rows clip_y clip_h h ry (job ∷ rest) =
      let later = job_rows clip_y clip_h h (ry +ℤ pos row_h) rest in
      if is_hidden clip_y clip_h ry then later else row_of h job ry ∷ later

  unfoldable pub job_table : {S : Type 0} → (job_scroll : ℤ) → (y h : ℕ) → Scheduler S → List Row
  job_table job_scroll y h s =
      let clip_y = y + 48 in
      let clip_h = h - 52 in
      let jobs_buf = sort_jobs s.store (all_jobs_snapshot max_jobs s) in
      job_rows clip_y clip_h s.store (pos clip_y -ℤ job_scroll) jobs_buf
