-- ===== src/Examples/Desk.antt =====
-- The form and the presets of main.cpp on a scheduler without jobs.
use tensor_sched.Prelude.{ℕ, false, List, [], ◌∷◌, ◌≡◌, refl, pos, negsuc, ℤ, arith, ◌+◌}
use tensor_sched.Semaphore.{counter}
use tensor_sched.Scheduler.{new_scheduler}
use tensor_sched.Scheduler.Records.{LogEvent}
use tensor_sched.Dashboard.Form.{PanelEvent, mouse_down, other_event, Desk, new_form, form_panel}
use tensor_sched.Dashboard.Form.Values.{IsForm}
use tensor_sched.Dashboard.Form.Jobs.{form_panel_lem}
use tensor_sched.Dashboard.Form.Hidden.{form_frames, form_frames_idle}
use tensor_sched.Dashboard.Frame.{Event, App}
use tensor_sched.Dashboard.Frame.Invariant.{IsApp, frames, frames-IsApp}
use tensor_sched.Examples.Data.{jobs}

abbrev mute : ℕ → LogEvent → List ℕ
mute now e = []

abbrev plain : List ℤ → ℕ → List ℕ
plain name id = id ∷ []

-- The slider's place is ignored.
abbrev leftmost : ℤ → ℕ → ℕ → ℕ → ℤ
leftmost mx sx sw range = pos 0

abbrev address : ℕ → ℕ
address id = id + 1000

abbrev desk : Desk ℕ
desk = record { form = new_form; next_job_id = 1; sched = new_scheduler counter jobs }

new_form-IsForm : IsForm new_form
new_form-IsForm = record {
  prio_lt = omega arith;
  cpu_range = (20, refl, omega arith, omega arith);
  memory_range = (256, refl, omega arith, omega arith);
  burst_range = (10, refl, omega arith, omega arith);
}

-- A click on the button, in a panel that is high enough to show it.
form_panel_lem_example :
    IsForm
      (form_panel address plain mute leftmost 5 7 6 100 278 400
        (mouse_down (pos 50) (pos 460))
        desk).1.form
form_panel_lem_example =
    (form_panel_lem address plain mute leftmost 5 7 6 100 278 400 (mouse_down (pos 50) (pos 460))
      desk new_form-IsForm).0

-- A click on the name field, then one in the lower right corner of the window.
abbrev clicks : List (ℕ × ℕ × PanelEvent)
clicks =
    (5, 7, mouse_down (pos 50) (pos 830))
    ∷ (6, 90, mouse_down (pos 1400) (pos 879))
    ∷ (7, 91, other_event)
    ∷ []

form_frames_idle_example :
    (form_frames address plain mute leftmost clicks desk).sched ≡ new_scheduler counter jobs
form_frames_idle_example =
    (form_frames_idle address plain mute leftmost clicks desk (refl, (refl, (tt, tt))) refl).0

abbrev app : App ℕ
app = record {
  desk = desk;
  job_scroll = pos 0;
  gantt_scroll = pos 0;
  log_scroll = pos 0;
  active_tab = 0;
  quit = false;
}

app-IsApp : IsApp app
app-IsApp = record {
  desk_fits = record {
    form_fits = new_form-IsForm;
    name_fits = record {
      room = omega arith;
      printable = (omega arith, (omega arith, (omega arith, tt)));
    };
  };
  job_scroll_up = (0, refl);
  gantt_scroll_up = (0, refl);
  log_scroll_up = (0, refl);
  tab_lt = omega arith;
}

-- A frame with a turn of the wheel over the log and a typed letter, then one with a click on a tab.
abbrev run : List (ℕ × ℕ × List Event)
run =
    (5, 7, Event.wheel (pos 700) (pos 800) (negsuc 2) ∷ Event.text_input (pos b'x') ∷ [])
    ∷ (6, 24, Event.mouse (mouse_down (pos 1000) (pos 220)) ∷ [])
    ∷ []

frames-IsApp_example : IsApp (frames address plain mute leftmost run app)
frames-IsApp_example = frames-IsApp address plain mute leftmost run app app-IsApp
