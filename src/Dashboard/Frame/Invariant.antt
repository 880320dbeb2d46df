-- ===== src/Dashboard/Frame/Invariant.antt =====
-- What holds of the dashboard after every frame.
use tensor_sched.Prelude.{
  ℕ, ◌*◌, ◌<◌, Bool, true, false, List, [], ◌∷◌, ◌≡◌, refl, ap, arith, length, ◌==◌, if◌then◌else◌,
  ℤ, pos, negsuc, ◌+ℤ◌, ◌-ℤ◌, Bool-cases, inl, inr,
}
use tensor_sched.Job.{max_jobs}
use tensor_sched.Scheduler.{all_jobs_snapshot}
use tensor_sched.Scheduler.Records.{LogEvent}
use tensor_sched.Dashboard.NameField
use tensor_sched.Dashboard.NameField.{Key, NameField, Fits, press-Fits, type_char-Fits}
use tensor_sched.Dashboard.Form.{
  PanelEvent, mouse_down, mouse_motion, other_event, FormState, edit_form, fade, hits_button, Desk,
  create_job, form_panel, show_form,
}
use tensor_sched.Dashboard.Form.Columns.{pick_column-lt}
use tensor_sched.Dashboard.Form.Values.{IsForm}
use tensor_sched.Dashboard.Form.Jobs.{form_panel_lem}
use tensor_sched.Dashboard.Presets.{preset_panel, click_tab}
use tensor_sched.Dashboard.Presets.Click.{preset_panel_lem}
use tensor_sched.Dashboard.Frame.{
  Event, App, name_field, with_field, times, at_least_zero, on_form, scroll_tab, scroll, poll,
  poll_all, clip_jobs, last_event, frame,
}

abbrev pub IsCount : ℤ → Type 0
IsCount z = (n : ℕ) × (z ≡ pos n)

pub record IsDesk {S : Type 0} (d : Desk S) : Type 0 where
  pub form_fits : IsForm d.form
  pub name_fits : Fits (name_field d.form)

pub record IsApp {S : Type 0} (a : App S) : Type 0 where
  pub desk_fits : IsDesk a.desk
  pub job_scroll_up : IsCount a.job_scroll
  pub gantt_scroll_up : IsCount a.gantt_scroll
  pub log_scroll_up : IsCount a.log_scroll
  pub tab_lt : a.active_tab < 3

at_least_zero-IsCount : (z : ℤ) → IsCount (at_least_zero z)
at_least_zero-IsCount (pos n) = let e : at_least_zero (pos n) ≡ pos n = ground arith in (n, e)
at_least_zero-IsCount (negsuc n) = let e : at_least_zero (negsuc n) ≡ pos 0 = ground arith in (0, e)

module _ {S : Type 0} where
  IsApp-if : (b : Bool) (a c : App S) → IsApp a → IsApp c → IsApp (if b then a else c)
  IsApp-if true a c p q = p
  IsApp-if false a c p q = q

  on_form-IsApp : (n : NameField) (a : App S) → Fits n → IsApp a → IsApp (on_form (with_field n) a)
  on_form-IsApp n a fits i = record {
    desk_fits = record {
      form_fits = record {
        prio_lt = i.desk_fits.form_fits.prio_lt;
        cpu_range = i.desk_fits.form_fits.cpu_range;
        memory_range = i.desk_fits.form_fits.memory_range;
        burst_range = i.desk_fits.form_fits.burst_range;
      };
      name_fits = record { room = fits.room; printable = fits.printable };
    };
    job_scroll_up = i.job_scroll_up;
    gantt_scroll_up = i.gantt_scroll_up;
    log_scroll_up = i.log_scroll_up;
    tab_lt = i.tab_lt;
  }

  -- Scroll positions that are not negative.
  scrolled-IsApp :
      (a : App S) (jobs gantt log : ℤ) (quit : Bool)
      → IsCount jobs
      → IsCount gantt
      → IsCount log
      → IsApp a
      → IsApp (record a { job_scroll = jobs; gantt_scroll = gantt; log_scroll = log; quit = quit })
  scrolled-IsApp a jobs gantt log quit j g l i = record {
    desk_fits = i.desk_fits;
    job_scroll_up = j;
    gantt_scroll_up = g;
    log_scroll_up = l;
    tab_lt = i.tab_lt;
  }

  sideways-IsApp :
      (a : App S) (b c : Bool) (jobs gantt : ℤ)
      → IsApp a
      → IsApp (
          if b
          then record a { job_scroll = at_least_zero jobs }
          else if c
          then record a { gantt_scroll = at_least_zero gantt }
          else a)
  sideways-IsApp a b c jobs gantt i =
      IsApp-if b _ _
        (scrolled-IsApp a _ a.gantt_scroll a.log_scroll a.quit (at_least_zero-IsCount jobs)
          i.gantt_scroll_up i.log_scroll_up i)
        (IsApp-if c _ _
          (scrolled-IsApp a a.job_scroll _ a.log_scroll a.quit i.job_scroll_up
            (at_least_zero-IsCount gantt) i.log_scroll_up i)
          i)

  scroll_tab-IsApp : (mx dy : ℤ) (a : App S) → IsApp a → IsApp (scroll_tab mx dy a)
  scroll_tab-IsApp mx dy a i =
      IsApp-if _ _ _
        (sideways-IsApp a (a.active_tab == 0) (a.active_tab == 1) (a.job_scroll -ℤ times dy 34)
          (a.gantt_scroll +ℤ times dy 5) i)
        i

  scroll-IsApp : (mx my dy : ℤ) (a : App S) → IsApp a → IsApp (scroll mx my dy a)
  unfolding scroll
  scroll-IsApp mx my dy a i =
      let b = scroll_tab mx dy a in
      let j = scroll_tab-IsApp mx dy a i in
      IsApp-if _ _ _
        (scrolled-IsApp b b.job_scroll b.gantt_scroll _ b.quit j.job_scroll_up j.gantt_scroll_up
          (at_least_zero-IsCount (b.log_scroll +ℤ times dy 3)) j)
        j

  poll-IsApp : (e : Event) (a : App S) → IsApp a → IsApp (poll e a)
  unfolding poll
  poll-IsApp Event.window_closed a i =
      scrolled-IsApp a a.job_scroll a.gantt_scroll a.log_scroll true i.job_scroll_up
        i.gantt_scroll_up i.log_scroll_up i
  poll-IsApp Event.escape a i =
      scrolled-IsApp a a.job_scroll a.gantt_scroll a.log_scroll true i.job_scroll_up
        i.gantt_scroll_up i.log_scroll_up i
  poll-IsApp (Event.key_down k) a i =
      on_form-IsApp (NameField.press k (name_field a.desk.form)) a
        (press-Fits k (name_field a.desk.form) i.desk_fits.name_fits) i
  poll-IsApp (Event.text_input c) a i =
      on_form-IsApp (NameField.type_char c (name_field a.desk.form)) a
        (type_char-Fits c (name_field a.desk.form) i.desk_fits.name_fits) i
  poll-IsApp (Event.wheel mx my dy) a i = scroll-IsApp mx my dy a i
  poll-IsApp (Event.mouse e) a i = i

  poll_all-IsApp : (es : List Event) (a : App S) → IsApp a → IsApp (poll_all es a)
  poll_all-IsApp [] a i = i
  poll_all-IsApp (e ∷ es) a i = poll_all-IsApp es (poll e a) (poll-IsApp e a i)

  clip_jobs-IsApp : (h : ℕ) (a : App S) → IsApp a → IsApp (clip_jobs h a)
  unfolding clip_jobs
  clip_jobs-IsApp h a i =
      IsApp-if _ _ _
        (scrolled-IsApp a _ a.gantt_scroll a.log_scroll a.quit
          (at_least_zero-IsCount
            (pos (length (all_jobs_snapshot max_jobs a.desk.sched) * 34) -ℤ (pos h -ℤ pos 52)))
          i.gantt_scroll_up i.log_scroll_up i)
        i

click_tab-lt : (x y w : ℕ) (e : PanelEvent) (tab : ℕ) → tab < 3 → click_tab x y w e tab < 3
unfolding click_tab
click_tab-lt x y w (mouse_down mx my) tab lt =
    pick_column-lt 5 _ _ _ _ mx my 0 3 tab 3 (omega arith) lt
click_tab-lt x y w (mouse_motion mx my held) tab lt = lt
click_tab-lt x y w other_event tab lt = lt

fade-name : (ms : ℕ) (f : FormState) → (fade ms f).name_buf ≡ f.name_buf
fade-name ms f = ground arith

module _ (address : ℕ → ℕ) (label : List ℤ → ℕ → List ℕ) {S : Type 0} (text : ℕ → LogEvent → List ℕ)
    (offset : ℤ → ℕ → ℕ → ℕ → ℤ) where
  show_form-name :
      (now ms : ℕ) (e : PanelEvent) (d : Desk S)
      → (show_form address label text offset now ms e d).form.name_buf ≡ d.form.name_buf
  unfolding show_form form_panel create_job edit_form
  show_form-name now ms e d = elim (Bool-cases (hits_button 6 788 278 86 e)) [
    | inl hit ↦ rw hit (fade-name ms _)
    | inr miss ↦ rw miss (fade-name ms _)
  ]

  show_form-IsDesk :
      (now ms : ℕ) (e : PanelEvent) (d : Desk S)
      → IsDesk d
      → IsDesk (show_form address label text offset now ms e d)
  unfolding show_form
  show_form-IsDesk now ms e d i =
      let same = show_form-name now ms e d in
      record {
        form_fits =
            (form_panel_lem address label text offset now ms 6 788 278 86 e d i.form_fits).0;
        name_fits = record {
          room = rw same i.name_fits.room;
          printable = rw same i.name_fits.printable;
        };
      }

  preset_panel-form :
      (now x y w : ℕ) (e : PanelEvent) (d : Desk S)
      → (preset_panel address label text now x y w e d).form ≡ d.form
  unfolding preset_panel create_job
  preset_panel-form now x y w (mouse_down mx my) d =
      elim (preset_panel_lem address label text now x y w mx my d) [
        | inl (same, _) ↦ ap (λ c. c.form) same
        | inr (k, p, at, hit, same, _) ↦ ap (λ c. c.form) same
      ]
  preset_panel-form now x y w (mouse_motion mx my held) d = refl
  preset_panel-form now x y w other_event d = refl

  frame-IsApp :
      (now ms : ℕ) (es : List Event) (a : App S)
      → IsApp a
      → IsApp (frame address label text offset now ms es a)
  unfolding frame
  frame-IsApp now ms es a i = IsApp-if _ _ _ (clip_jobs-IsApp 462 c shown) shown
    where
      b : App S
      b = poll_all es a

      e : PanelEvent
      e = last_event other_event es

      formed : Desk S
      formed = show_form address label text offset now ms e b.desk

      c : App S
      c = record b {
        desk = preset_panel address label text now 290 170 1144 e formed;
        active_tab = click_tab 290 218 1144 e b.active_tab;
      }

      shown : IsApp c
      shown =
          let j = poll_all-IsApp es a i in
          let d = show_form-IsDesk now ms e b.desk j.desk_fits in
          let same = preset_panel-form now 290 170 1144 e formed in
          record {
            desk_fits = record { form_fits = rw same d.form_fits; name_fits = rw same d.name_fits };
            job_scroll_up = j.job_scroll_up;
            gantt_scroll_up = j.gantt_scroll_up;
            log_scroll_up = j.log_scroll_up;
            tab_lt = click_tab-lt 290 218 1144 e b.active_tab j.tab_lt;
          }

  -- The frames of a run, each with its readings and its events.
  abbrev pub frames : List (ℕ × ℕ × List Event) → App S → App S
  frames [] a = a
  frames ((now, ms, es) ∷ fs) a = frames fs (frame address label text offset now ms es a)

  -- Frame after frame, whatever is typed, turned and clicked: the values of the form keep to the
  -- ranges of their sliders and the name to the printable bytes that its buffer has room for, the
  -- three scroll positions do not go below zero, and the tab is one of the three.
  pub frames-IsApp : (fs : List (ℕ × ℕ × List Event)) (a : App S) → IsApp a → IsApp (frames fs a)
  frames-IsApp [] a i = i
  frames-IsApp ((now, ms, es) ∷ fs) a i = frames-IsApp fs _ (frame-IsApp now ms es a i)
