-- ===== src/Examples/Screen.antt =====
-- The state of the dashboard on small inputs.
use tensor_sched.Prelude.{true, pos, [], ◌∷◌, arith, ℕ, ◌==◌, ◌||◌, if◌then◌else◌}
use tensor_sched.Job.{Store, JobStatus}
use tensor_sched.Semaphore.{counter}
use tensor_sched.Scheduler.{Scheduler, new_scheduler}
use tensor_sched.Dashboard.NameField.{Key, FieldEvent, NameField, Fits, on_events, on_events-Fits}
use tensor_sched.Examples.Data.{jobs}

-- Jobs 2 and 3 run, the others wait.
abbrev status_of : ℕ → JobStatus
status_of p = if (p == 2) || (p == 3) then JobStatus.running else JobStatus.waiting

abbrev some_run : Store
some_run p = record (jobs p) { status = status_of p }

abbrev listed : Scheduler ℕ
listed = record (new_scheduler counter some_run) { all_jobs = 1 ∷ 3 ∷ 4 ∷ 2 ∷ [] }

abbrev named : NameField
named = record { name_buf = pos b'J' ∷ []; is_focused = true }

named-Fits : Fits named
named-Fits = record { room = omega arith; printable = (omega arith, tt) }

on_events-Fits_example :
    Fits
      (on_events (FieldEvent.text_input (pos b'o') ∷ FieldEvent.key_down Key.backspace ∷ []) named)
on_events-Fits_example =
    on_events-Fits (FieldEvent.text_input (pos b'o') ∷ FieldEvent.key_down Key.backspace ∷ []) named
      named-Fits
