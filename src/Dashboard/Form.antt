-- ===== src/Dashboard/Form.antt =====
-- The form of main.cpp: what `drawFormPanel` does with the event of the frame. Sizes and places are numbers, at which all the hit tests below agree with those on
-- `int`s: a width that would be negative leaves an empty box either way.
pub mod Values
pub mod Columns
pub mod Jobs
pub mod Hidden
use tensor_sched.Prelude.{
  ℕ, zero, suc, ◌+◌, ◌-◌, ◌*◌, ◌/◌, ◌%◌, Bool, true, false, List, [], ◌∷◌, some, ltb, if◌then◌else◌,
  ◌&&◌, ℤ, pos, negsuc, ◌+ℤ◌, ltb_ℤ, leb_ℤ,
}
use tensor_sched.Job.{JobPriority, Job, new_job}
use tensor_sched.Scheduler.{Scheduler, submit_job, put_job}
use tensor_sched.Scheduler.Records.{LogEvent}

-- The events that the panels look at; all others, and the null pointer of a frame without event, are
-- `other_event`. `held` is the left button's state.
pub data PanelEvent : Type 0 where
  mouse_down : (mx my : ℤ) → PanelEvent
  mouse_motion : (mx my : ℤ) (held : Bool) → PanelEvent
  other_event : PanelEvent

-- `name_buf` is kept up to its terminator; a `char` is signed.
pub record FormState : Type 0 where
  pub name_buf : List ℤ
  pub prio_idx : ℕ
  pub cpu : ℤ
  pub memory : ℤ
  pub burst : ℤ
  pub focused : ℤ
  pub submit_flash : Bool
  pub flash_ms : ℕ

abbrev pub new_form : FormState
new_form = record {
  name_buf = pos b'J' ∷ pos b'o' ∷ pos b'b' ∷ [];
  prio_idx = 2;
  cpu = pos 20;
  memory = pos 256;
  burst = pos 10;
  focused = negsuc 0;
  submit_flash = false;
  flash_ms = 0;
}

-- The sizes of `main` and the place of the panel: below the header and three panels of the side bar.
abbrev pub win_h : ℕ
win_h = 880

abbrev hdr_h : ℕ
hdr_h = 58

abbrev pub sb_w : ℕ
sb_w = 278

abbrev pub pad : ℕ
pad = 6

abbrev pub form_y : ℕ
form_y = hdr_h + pad + 244 + 220 + 260

abbrev pub form_h : ℕ
form_h = win_h - form_y - pad

-- From `x0` to before `x1`, and from `y0` to before `y1`.
abbrev pub in_box : ℤ → ℤ → ℕ → ℕ → ℕ → ℕ → Bool
in_box mx my x0 x1 y0 y1 =
    leb_ℤ (pos x0) mx && ltb_ℤ mx (pos x1) && leb_ℤ (pos y0) my && ltb_ℤ my (pos y1)

abbrev pub is_focus : ℕ → ℤ → Bool
is_focus fid focused = leb_ℤ (pos fid) focused && leb_ℤ focused (pos fid)

-- A click and the name field of the panel at `x`, `y` of width `w`.
unfoldable pub click_name : ℕ → ℕ → ℕ → PanelEvent → ℤ → ℤ
click_name x y w (mouse_down mx my) focused =
    if in_box mx my (x + 10) (x + w - 10) (y + 38) (y + 60)
    then pos 0
    else if is_focus 0 focused
    then negsuc 0
    else focused
click_name x y w _ focused = focused

-- The loop over a row of buttons of width `bw` with `gap` between, at button `i` with `rounds` left:
-- the last one that is hit.
unfoldable pub pick_column : ℕ → ℕ → ℕ → ℕ → ℕ → ℤ → ℤ → ℕ → ℕ → ℕ → ℕ
pick_column gap bw x y0 y1 mx my i zero picked = picked
pick_column gap bw x y0 y1 mx my i (suc rounds) picked =
    let bx = x + i * (bw + gap) in
    pick_column gap bw x y0 y1 mx my (suc i) rounds
      (if in_box mx my bx (bx + bw) y0 y1 then i else picked)

-- The four priority buttons.
unfoldable pub click_priority : ℕ → ℕ → ℕ → PanelEvent → ℕ → ℕ
unfolding pick_column
click_priority x y w (mouse_down mx my) picked =
    pick_column 4 ((w - 20 - 3 * 4) / 4) (x + 10) (y + 80) (y + 102) mx my 0 4 picked
click_priority x y w _ picked = picked

-- `std::max(minv, std::min(maxv, val))`.
abbrev pub clamp : ℤ → ℤ → ℤ → ℤ
clamp minv maxv val =
    let low = if ltb_ℤ val maxv then val else maxv in if ltb_ℤ minv low then low else minv

-- `offset mx sx sw range` is `(int)((float)(mx - sx) / sw * range + 0.5f)`.
module _ (offset : ℤ → ℕ → ℕ → ℕ → ℤ) where
  abbrev pub slider_value : ℕ → ℕ → ℕ → ℕ → ℤ → ℤ
  slider_value minv maxv x w mx =
      clamp (pos minv) (pos maxv) (pos minv +ℤ offset mx (x + 10) (w - 20) (maxv - minv))

  -- The slider `fid` at height `fy`, over its value and `focused`.
  unfoldable pub slider : ℕ → ℕ → ℕ → ℕ → ℕ → ℕ → PanelEvent → ℤ × ℤ → ℤ × ℤ
  slider fid minv maxv x w fy (mouse_down mx my) (val, focused) =
      if in_box mx my (x + 10) (x + 10 + (w - 20)) (fy + 8) (fy + 22)
      then (slider_value minv maxv x w mx, pos fid)
      else (val, focused)
  slider fid minv maxv x w fy (mouse_motion mx my held) (val, focused) =
      if held && is_focus fid focused
      then (slider_value minv maxv x w mx, focused)
      else (val, focused)
  slider fid minv maxv x w fy other_event (val, focused) = (val, focused)

  -- The fields of the panel at `x`, `y` of width `w`.
  unfoldable pub edit_form : ℕ → ℕ → ℕ → PanelEvent → FormState → FormState
  edit_form x y w ev f =
      let f0 = click_name x y w ev f.focused in
      let (cpu, f1) = slider 2 5 80 x w (y + 110) ev (f.cpu, f0) in
      let (memory, f2) = slider 3 64 1024 x w (y + 142) ev (f.memory, f1) in
      let (burst, f3) = slider 4 2 40 x w (y + 174) ev (f.burst, f2) in
      record f {
        prio_idx = click_priority x y w ev f.prio_idx;
        cpu = cpu;
        memory = memory;
        burst = burst;
        focused = f3;
      }

-- The flash of the button ends 300 ms after the click; times are 32-bit numbers.
abbrev pub fade : ℕ → FormState → FormState
fade ms f =
    if f.submit_flash && ltb ((ms + 4294967296 - f.flash_ms) % 4294967296) 300
    then f
    else record f { submit_flash = false }

-- The top of the button of the panel at `y` of height `h`.
abbrev pub button_y : ℕ → ℕ → ℕ
button_y y h = if ltb (y + h - 46) (y + 212) then y + 212 else y + h - 46

unfoldable pub hits_button : ℕ → ℕ → ℕ → ℕ → PanelEvent → Bool
hits_button x y w h (mouse_down mx my) =
    in_box mx my (x + 10) (x + w - 10) (button_y y h) (button_y y h + 34)
hits_button x y w h _ = false

-- The form, `g_next_job_id` and the scheduler.
pub record Desk (S : Type 0) : Type 0 where
  pub form : FormState
  pub next_job_id : ℕ
  pub sched : Scheduler S

-- `static_cast<JobPriority>(prio_idx + 1)`, which is done in range only.
abbrev pub priority_at : ℕ → JobPriority
priority_at zero = JobPriority.low
priority_at (suc zero) = JobPriority.medium
priority_at (suc (suc zero)) = JobPriority.high
priority_at (suc (suc (suc n))) = JobPriority.critical

abbrev pub name_or_job : List ℤ → List ℤ
name_or_job [] = pos b'J' ∷ pos b'o' ∷ pos b'b' ∷ []
name_or_job (c ∷ cs) = c ∷ cs

-- `address` gives the pointer that `new` returns for the job of an id, `label` what `snprintf` writes
-- for "%s-%d".
module _ (address : ℕ → ℕ) (label : List ℤ → ℕ → List ℕ) {S : Type 0}
    (text : ℕ → LogEvent → List ℕ) where
  -- A new job, submitted at clock reading `now`.
  unfoldable pub create_job : ℕ → List ℤ → JobPriority → ℤ → ℤ → ℤ → Desk S → Desk S
  create_job now name prio cpu mem burst d =
      let id = d.next_job_id in
      let job = new_job id (label name id) prio cpu mem burst now in
      record d {
        next_job_id = suc id;
        sched = submit_job text now (some (address id)) (put_job (address id) job d.sched);
      }

  -- `drawFormPanel` at clock reading `now` and `SDL_GetTicks` `ms`: whether it has submitted, and what
  -- it leaves.
  unfoldable pub form_panel :
      (ℤ → ℕ → ℕ → ℕ → ℤ) → ℕ → ℕ → ℕ → ℕ → ℕ → ℕ → PanelEvent → Desk S → Bool × Desk S
  form_panel offset now ms x y w h ev d =
      let f = fade ms (edit_form offset x y w ev d.form) in
      let flashed = record f { submit_flash = true; flash_ms = ms } in
      if hits_button x y w h ev
      then (
        true,
        create_job now (name_or_job f.name_buf) (priority_at f.prio_idx) f.cpu f.memory f.burst
            (record d { form = flashed }),
      )
      else (false, record d { form = f })

  -- What a frame of `main` makes of its event here.
  unfoldable pub show_form : (ℤ → ℕ → ℕ → ℕ → ℤ) → ℕ → ℕ → PanelEvent → Desk S → Desk S
  unfolding form_panel
  show_form offset now ms ev d =
      if ltb 80 form_h then (form_panel offset now ms pad form_y sb_w form_h ev d).1 else d
