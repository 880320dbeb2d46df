-- ===== src/Dashboard/Presets.antt =====
-- The preset buttons and the tab bar of main.cpp: what `drawPresets` and `drawTabBar` do with the event
-- of the frame.
pub mod Click
use tensor_sched.Prelude.{ℕ, zero, suc, ◌+◌, ◌-◌, ◌*◌, ◌/◌, List, [], ◌∷◌, if◌then◌else◌, ℤ, pos}
use tensor_sched.Job.{JobPriority}
use tensor_sched.Scheduler.Records.{LogEvent}
use tensor_sched.Dashboard.Form.{PanelEvent, mouse_down, in_box, pick_column, Desk, create_job}

-- Without the label and the colour of the button.
pub record Preset : Type 0 where
  pub name : List ℤ
  pub prio : JobPriority
  pub cpu : ℤ
  pub mem : ℤ
  pub burst : ℤ

abbrev preset : List ℤ → JobPriority → ℕ → ℕ → ℕ → Preset
preset name prio cpu mem burst = record {
  name = name;
  prio = prio;
  cpu = pos cpu;
  mem = pos mem;
  burst = pos burst;
}

abbrev pub presets : List Preset
presets =
    preset (pos b'M' ∷ pos b'a' ∷ pos b't' ∷ pos b'M' ∷ pos b'u' ∷ pos b'l' ∷ []) JobPriority.high
      30 512 20
    ∷ preset (pos b'S' ∷ pos b'o' ∷ pos b'r' ∷ pos b't' ∷ []) JobPriority.medium 15 128 10
    ∷ preset (pos b'M' ∷ pos b'L' ∷ pos b'T' ∷ pos b'r' ∷ pos b'a' ∷ pos b'i' ∷ pos b'n' ∷ [])
        JobPriority.critical 60 768 35
    ∷ preset (pos b'F' ∷ pos b'i' ∷ pos b'l' ∷ pos b'e' ∷ pos b'I' ∷ pos b'd' ∷ pos b'x' ∷ [])
        JobPriority.low 10 64 8
    ∷ preset
        (pos b'C' ∷ pos b'o' ∷ pos b'm' ∷ pos b'p' ∷ pos b'r' ∷ pos b'e' ∷ pos b's' ∷ pos b's' ∷ [])
        JobPriority.medium 25 256 14
    ∷ preset (pos b'R' ∷ pos b'e' ∷ pos b'n' ∷ pos b'd' ∷ pos b'e' ∷ pos b'r' ∷ []) JobPriority.high
        45 512 28
    ∷ preset (pos b'C' ∷ pos b'k' ∷ pos b'P' ∷ pos b't' ∷ []) JobPriority.critical 70 1024 40
    ∷ preset (pos b'D' ∷ pos b'a' ∷ pos b'e' ∷ pos b'm' ∷ pos b'o' ∷ pos b'n' ∷ []) JobPriority.low
        8 64 6
    ∷ []

unfoldable pub click_tab : ℕ → ℕ → ℕ → PanelEvent → ℕ → ℕ
unfolding pick_column
click_tab x y w (mouse_down mx my) tab = pick_column 5 ((w - 2 * 5) / 3) x y (y + 28) mx my 0 3 tab
click_tab x y w _ tab = tab

module _ (address : ℕ → ℕ) (label : List ℤ → ℕ → List ℕ) {S : Type 0}
    (text : ℕ → LogEvent → List ℕ) where
  abbrev pub submit_preset : ℕ → Preset → Desk S → Desk S
  submit_preset now p d = create_job address label text now p.name p.prio p.cpu p.mem p.burst d

  -- The loop over the buttons at button `i`, with the presets that are left.
  unfoldable pub click_presets : ℕ → ℕ → ℕ → ℕ → ℤ → ℤ → ℕ → List Preset → Desk S → Desk S
  click_presets now x y bw mx my i [] d = d
  click_presets now x y bw mx my i (p ∷ ps) d =
      let bx = x + i * (bw + 5) in
      click_presets now x y bw mx my (suc i) ps
        (if in_box mx my bx (bx + bw) y (y + 40) then submit_preset now p d else d)

  unfoldable pub preset_panel : ℕ → ℕ → ℕ → ℕ → PanelEvent → Desk S → Desk S
  unfolding click_presets
  preset_panel now x y w (mouse_down mx my) d =
      click_presets now x y ((w - 7 * 5) / 8) mx my 0 presets d
  preset_panel now x y w _ d = d
