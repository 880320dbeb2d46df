-- ===== src/Dashboard/Form/Jobs.antt =====
-- What a click on the form makes of it, and the job that comes of it.
use tensor_sched.Prelude.{
  ℕ, suc, ◌≤◌, true, false, List, some, ◌≡◌, refl, arith, ℤ, Bool-cases, ◌⊎◌, inl, inr,
}
use tensor_sched.Job.{Job, JobStatus, new_job}
use tensor_sched.ResourceManager.{total_cpu, total_memory}
use tensor_sched.Scheduler.{submit_job, put_job}
use tensor_sched.Scheduler.Records.{LogEvent}
use tensor_sched.Dashboard.Form.{
  PanelEvent, FormState, edit_form, fade, hits_button, Desk, name_or_job, priority_at, create_job,
  form_panel,
}
use tensor_sched.Dashboard.Form.Values.{IsWithin, IsForm, edit_form-IsForm, fade-IsForm}

-- A job that is new, has work to do, and asks for no more than there is.
pub record IsRunnable (j : Job) : Type 0 where
  pub cpu_range : IsWithin 1 total_cpu j.cpu_required
  pub memory_range : IsWithin 1 total_memory j.memory_required
  pub burst_range : IsWithin 1 100 j.burst_time
  pub status_eq : j.status ≡ JobStatus.waiting
  pub level_eq : j.mlfq_level ≡ 0

pub IsWithin-wider :
    (lo hi lo' hi' : ℕ) (v : ℤ) → lo' ≤ lo → hi ≤ hi' → IsWithin lo hi v → IsWithin lo' hi' v
IsWithin-wider lo hi lo' hi' v below above (n, e, l, h) =
    (n, e, omega (arith, below, l), omega (arith, above, h))

module _ (address : ℕ → ℕ) (label : List ℤ → ℕ → List ℕ) {S : Type 0}
    (text : ℕ → LogEvent → List ℕ) where
  -- One job more: a runnable one of the next id, at the address that it gets.
  abbrev pub Submits : ℕ → Desk S → Desk S → Type 0
  Submits now d d' =
      (j : Job) × IsRunnable j
      × (j.id ≡ d.next_job_id)
      × (d'.next_job_id ≡ suc d.next_job_id)
      × (d'.sched
          ≡ submit_job text now (some (address d.next_job_id))
              (put_job (address d.next_job_id) j d.sched))

  -- The form of the dashboard keeps its values in the ranges of their sliders, whatever the event and
  -- wherever the panel stands. Its panel answers false and leaves the scheduler as it is, or answers
  -- true and submits one new job of the next id, which has work to do, asks for no more than the
  -- budgets and starts on level 0.
  pub form_panel_lem :
      (offset : ℤ → ℕ → ℕ → ℕ → ℤ) (now ms x y w h : ℕ) (ev : PanelEvent) (d : Desk S)
      → IsForm d.form
      → let (submitted, d') = form_panel address label text offset now ms x y w h ev d in
        IsForm d'.form
        × (((submitted ≡ false) × (d'.sched ≡ d.sched) × (d'.next_job_id ≡ d.next_job_id))
            ⊎ ((submitted ≡ true) × Submits now d d'))
  unfolding form_panel create_job
  form_panel_lem offset now ms x y w h ev d i = elim (Bool-cases (hits_button x y w h ev)) [
    | inl hit ↦ rw hit (flashed, inr (refl, (job, runnable, refl, refl, refl)))
    | inr miss ↦ rw miss (kept, inl (refl, refl, refl))
  ]
    where
      f : FormState
      f = fade ms (edit_form offset x y w ev d.form)

      kept : IsForm f
      kept = fade-IsForm ms _ (edit_form-IsForm offset x y w ev d.form i)

      flashed : IsForm (record f { submit_flash = true; flash_ms = ms })
      flashed = record {
        prio_lt = kept.prio_lt;
        cpu_range = kept.cpu_range;
        memory_range = kept.memory_range;
        burst_range = kept.burst_range;
      }

      job : Job
      job =
          new_job d.next_job_id (label (name_or_job f.name_buf) d.next_job_id)
            (priority_at f.prio_idx) f.cpu f.memory f.burst now

      runnable : IsRunnable job
      runnable = record {
        cpu_range =
            IsWithin-wider 5 80 1 total_cpu f.cpu (omega arith) (omega arith) kept.cpu_range;
        memory_range =
            IsWithin-wider 64 1024 1 total_memory f.memory (omega arith) (omega arith)
              kept.memory_range;
        burst_range =
            IsWithin-wider 2 40 1 100 f.burst (omega arith) (omega arith) kept.burst_range;
        status_eq = refl;
        level_eq = refl;
      }
