-- ===== src/Dashboard/Frame.antt =====
-- A frame of the main loop of main.cpp: the events that it polls, then the panels. The panels get the
-- last event of the frame only. `now` is the clock's reading in the frame, `ms` that of
-- `SDL_GetTicks`.
pub mod Invariant
use tensor_sched.Prelude.{
  ℕ, ◌+◌, ◌-◌, ◌*◌, Bool, true, false, not, List, [], ◌∷◌, length, ltb, ◌==◌, ◌&&◌, if◌then◌else◌,
  ℤ, pos, negsuc, pos_part, neg_part, ◌+ℤ◌, ◌-ℤ◌, ltb_ℤ,
}
use tensor_sched.Job.{max_jobs}
use tensor_sched.Scheduler.{all_jobs_snapshot}
use tensor_sched.Scheduler.Records.{LogEvent}
use tensor_sched.Dashboard.NameField
use tensor_sched.Dashboard.NameField.{Key, NameField}
use tensor_sched.Dashboard.Form.{
  PanelEvent, other_event, FormState, is_focus, Desk, show_form, win_h, sb_w, pad,
}
use tensor_sched.Dashboard.Presets.{preset_panel, click_tab}

-- `wheel` has what `SDL_GetMouseState` gives and the wheel's way.
pub data Event : Type 0 where
  window_closed escape : Event
  key_down : Key → Event
  text_input : ℤ → Event
  wheel : (mx my dy : ℤ) → Event
  mouse : PanelEvent → Event

-- The form and the scheduler, the scroll positions and the tab of `UIState`, and `quit`.
pub record App (S : Type 0) : Type 0 where
  pub desk : Desk S
  pub job_scroll : ℤ
  pub gantt_scroll : ℤ
  pub log_scroll : ℤ
  pub active_tab : ℕ
  pub quit : Bool

abbrev pub name_field : FormState → NameField
name_field f = record { name_buf = f.name_buf; is_focused = is_focus 0 f.focused }

abbrev pub with_field : NameField → FormState → FormState
with_field n f = record f {
  name_buf = n.name_buf;
  focused = if is_focus 0 f.focused && not n.is_focused then negsuc 0 else f.focused;
}

-- `std::max(0, z)`.
abbrev pub at_least_zero : ℤ → ℤ
at_least_zero z = if ltb_ℤ (pos 0) z then z else pos 0

abbrev pub times : ℤ → ℕ → ℤ
times z n = pos (pos_part z * n) -ℤ pos (neg_part z * n)

module _ {S : Type 0} where
  abbrev pub on_form : (FormState → FormState) → App S → App S
  on_form g a = record a { desk = record a.desk { form = g a.desk.form } }

  -- Right of the side bar.
  abbrev pub scroll_tab : ℤ → ℤ → App S → App S
  scroll_tab mx dy a =
      if ltb_ℤ (pos (sb_w + pad)) mx
      then (if a.active_tab == 0
          then record a { job_scroll = at_least_zero (a.job_scroll -ℤ times dy 34) }
          else if a.active_tab == 1
          then record a { gantt_scroll = at_least_zero (a.gantt_scroll +ℤ times dy 5) }
          else a)
      else a

  unfoldable pub scroll : ℤ → ℤ → ℤ → App S → App S
  scroll mx my dy a =
      let b = scroll_tab mx dy a in
      if ltb_ℤ (pos (win_h - 180)) my
      then record b { log_scroll = at_least_zero (b.log_scroll +ℤ times dy 3) }
      else b

  -- One round of the loop over `SDL_PollEvent`.
  unfoldable pub poll : Event → App S → App S
  unfolding scroll
  poll Event.window_closed a = record a { quit = true }
  poll Event.escape a = record a { quit = true }
  poll (Event.key_down k) a = on_form (λ f. with_field (NameField.press k (name_field f)) f) a
  poll (Event.text_input c) a = on_form (λ f. with_field (NameField.type_char c (name_field f)) f) a
  poll (Event.wheel mx my dy) a = scroll mx my dy a
  poll (Event.mouse e) a = a

  abbrev pub poll_all : List Event → App S → App S
  poll_all [] a = a
  poll_all (e ∷ es) a = poll_all es (poll e a)

  -- `drawJobTable` at height `h` keeps the scroll position above the end of the table.
  unfoldable pub clip_jobs : ℕ → App S → App S
  clip_jobs h a =
      let rows = length (all_jobs_snapshot max_jobs a.desk.sched) in
      let max_scr = at_least_zero (pos (rows * 34) -ℤ (pos h -ℤ pos 52)) in
      if ltb_ℤ max_scr a.job_scroll then record a { job_scroll = max_scr } else a

abbrev pub as_panel_event : Event → PanelEvent
as_panel_event (Event.mouse e) = e
as_panel_event _ = other_event

-- `ev_copy`, from the one that the frame begins with.
abbrev pub last_event : PanelEvent → List Event → PanelEvent
last_event e [] = e
last_event e (f ∷ es) = last_event (as_panel_event f) es

module _ (address : ℕ → ℕ) (label : List ℤ → ℕ → List ℕ) {S : Type 0} (text : ℕ → LogEvent → List ℕ)
    (offset : ℤ → ℕ → ℕ → ℕ → ℤ) where
  unfoldable pub frame : ℕ → ℕ → List Event → App S → App S
  unfolding poll clip_jobs
  frame now ms es a =
      let b = poll_all es a in
      let e = last_event other_event es in
      let formed = show_form address label text offset now ms e b.desk in
      let desk = preset_panel address label text now 290 170 1144 e formed in
      let tab = click_tab 290 218 1144 e b.active_tab in
      let c = record b { desk = desk; active_tab = tab } in if tab == 0 then clip_jobs 462 c else c
