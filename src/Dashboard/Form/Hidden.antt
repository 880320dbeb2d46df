-- ===== src/Dashboard/Form/Hidden.antt =====
-- The form as `main` places it: at 6, 788 with a width of 278 and a height of 86, in a window of
-- 1440 by 880.
use tensor_sched.Prelude.{
  ℕ, ◌+◌, ◌≡◌, refl, ap, ◌∙◌, arith, List, [], ◌∷◌, Bool, true, false, ℤ, pos, ltb_ℤ, All,
  if◌then◌else◌,
}
use tensor_sched.Scheduler.Records.{LogEvent}
use tensor_sched.Dashboard.Form.{
  PanelEvent, mouse_down, mouse_motion, other_event, FormState, is_focus, click_name, slider,
  edit_form, fade, hits_button, Desk, form_panel, show_form, win_h,
}

-- No click below the window's lower edge.
abbrev pub IsInWindow : PanelEvent → Type 0
IsInWindow (mouse_down mx my) = ltb_ℤ my (pos win_h) ≡ true
IsInWindow _ = Unit {0}

-- No slider has the focus.
abbrev pub is_clear : ℤ → Bool
is_clear f =
    if is_focus 2 f
    then false
    else if is_focus 3 f
    then false
    else if is_focus 4 f
    then false
    else true

slider_out :
    (offset : ℤ → ℕ → ℕ → ℕ → ℤ) (fid lo hi x w fy : ℕ) (ev : PanelEvent) (val focused : ℤ)
    → IsInWindow ev
    → is_focus fid focused ≡ false
    → slider offset fid lo hi x w (872 + fy) ev (val, focused) ≡ (val, focused)
unfolding slider
slider_out offset fid lo hi x w fy (mouse_down mx my) val focused inside e = ground (arith, inside)
slider_out offset fid lo hi x w fy (mouse_motion mx my held) val focused inside e =
    ground (arith, e)
slider_out offset fid lo hi x w fy other_event val focused inside e = refl

click_name-clear :
    (x y w : ℕ) (ev : PanelEvent) (focused : ℤ)
    → is_clear focused ≡ true
    → is_clear (click_name x y w ev focused) ≡ true
unfolding click_name
click_name-clear x y w (mouse_down mx my) focused e = ground (arith, e)
click_name-clear x y w (mouse_motion mx my held) focused e = e
click_name-clear x y w other_event focused e = e

module _ (offset : ℤ → ℕ → ℕ → ℕ → ℤ) where
  edit_form_out :
      (ev : PanelEvent) (f : FormState)
      → IsInWindow ev
      → is_clear f.focused ≡ true
      → let f' = edit_form offset 6 788 278 ev f in
        (f'.cpu ≡ f.cpu)
        × (f'.memory ≡ f.memory)
        × (f'.burst ≡ f.burst)
        × (is_clear f'.focused ≡ true)
  unfolding edit_form
  edit_form_out ev f inside e = rw (cpu, memory, burst) (refl, refl, refl, clear)
    where
      focused : ℤ
      focused = click_name 6 788 278 ev f.focused

      clear : is_clear focused ≡ true
      clear = click_name-clear 6 788 278 ev f.focused e

      cpu : slider offset 2 5 80 6 278 898 ev (f.cpu, focused) ≡ (f.cpu, focused)
      cpu = slider_out offset 2 5 80 6 278 26 ev f.cpu focused inside (ground (arith, clear))

      memory : slider offset 3 64 1024 6 278 930 ev (f.memory, focused) ≡ (f.memory, focused)
      memory =
          slider_out offset 3 64 1024 6 278 58 ev f.memory focused inside (ground (arith, clear))

      burst : slider offset 4 2 40 6 278 962 ev (f.burst, focused) ≡ (f.burst, focused)
      burst = slider_out offset 4 2 40 6 278 90 ev f.burst focused inside (ground (arith, clear))

hits_button_out : (ev : PanelEvent) → IsInWindow ev → hits_button 6 788 278 86 ev ≡ false
unfolding hits_button
hits_button_out (mouse_down mx my) inside = ground (arith, inside)
hits_button_out (mouse_motion mx my held) inside = refl
hits_button_out other_event inside = refl

fade-fields :
    (ms : ℕ) (f : FormState)
    → ((fade ms f).cpu ≡ f.cpu)
      × ((fade ms f).memory ≡ f.memory)
      × ((fade ms f).burst ≡ f.burst)
      × ((fade ms f).focused ≡ f.focused)
fade-fields ms f = ground arith

module _ (address : ℕ → ℕ) (label : List ℤ → ℕ → List ℕ) {S : Type 0} (text : ℕ → LogEvent → List ℕ)
    (offset : ℤ → ℕ → ℕ → ℕ → ℤ) where
  -- The panel over the events of some frames, each with its clock reading and its `SDL_GetTicks`.
  abbrev pub form_frames : List (ℕ × ℕ × PanelEvent) → Desk S → Desk S
  form_frames [] d = d
  form_frames ((now, ms, ev) ∷ evs) d =
      form_frames evs (show_form address label text offset now ms ev d)

  record Unmoved (d d' : Desk S) : Type 0 where
    cpu_eq : d'.form.cpu ≡ d.form.cpu
    memory_eq : d'.form.memory ≡ d.form.memory
    burst_eq : d'.form.burst ≡ d.form.burst
    sched_eq : d'.sched ≡ d.sched
    clear : is_clear d'.form.focused ≡ true

  show_form-Unmoved :
      (now ms : ℕ) (ev : PanelEvent) (d : Desk S)
      → IsInWindow ev
      → is_clear d.form.focused ≡ true
      → Unmoved d (show_form address label text offset now ms ev d)
  unfolding form_panel show_form
  show_form-Unmoved now ms ev d inside e =
      let (cpu, memory, burst, clear) = edit_form_out offset ev d.form inside e in
      let (cpu', memory', burst', focus') = fade-fields ms (edit_form offset 6 788 278 ev d.form) in
      rw (hits_button_out ev inside) (record {
        cpu_eq = cpu' ∙ cpu;
        memory_eq = memory' ∙ memory;
        burst_eq = burst' ∙ burst;
        sched_eq = refl;
        clear = ap is_clear focus' ∙ clear;
      })

  -- In the window as `main` makes it, the form is out of reach: whatever events the frames bring,
  -- with the clicks inside the window and no slider in focus at first, the panel submits no job and
  -- leaves its three sliders as they are.
  pub form_frames_idle :
      (evs : List (ℕ × ℕ × PanelEvent)) (d : Desk S)
      → All (λ e. IsInWindow e.2) evs
      → is_clear d.form.focused ≡ true
      → let d' = form_frames evs d in
        (d'.sched ≡ d.sched)
        × (d'.form.cpu ≡ d.form.cpu)
        × (d'.form.memory ≡ d.form.memory)
        × (d'.form.burst ≡ d.form.burst)
  form_frames_idle [] d inside e = (refl, refl, refl, refl)
  form_frames_idle ((now, ms, ev) ∷ evs) d (here, inside) e =
      let u = show_form-Unmoved now ms ev d here e in
      let (sched, cpu, memory, burst) = form_frames_idle evs _ inside u.clear in
      (sched ∙ u.sched_eq, cpu ∙ u.cpu_eq, memory ∙ u.memory_eq, burst ∙ u.burst_eq)
