-- ===== src/Dashboard/Form/Values.antt =====
-- The values of the form keep to the ranges of their sliders.
use tensor_sched.Prelude.{
  ℕ, ◌+◌, ◌-◌, ◌%◌, ◌≤◌, ◌<◌, Bool, true, false, ◌≡◌, refl, arith, ltb, if◌then◌else◌, ◌&&◌, ℤ, pos,
  negsuc, ◌+ℤ◌, Bool-cases, inl, inr,
}
use tensor_sched.Dashboard.Form.{
  PanelEvent, mouse_down, mouse_motion, other_event, FormState, clamp, slider_value, slider,
  click_priority, edit_form, fade,
}
use tensor_sched.Dashboard.Form.Columns.{pick_column-lt}

abbrev pub IsWithin : ℕ → ℕ → ℤ → Type 0
IsWithin lo hi v = (n : ℕ) × (v ≡ pos n) × (lo ≤ n) × (n ≤ hi)

pub record IsForm (f : FormState) : Type 0 where
  pub prio_lt : f.prio_idx < 4
  pub cpu_range : IsWithin 5 80 f.cpu
  pub memory_range : IsWithin 64 1024 f.memory
  pub burst_range : IsWithin 2 40 f.burst

clamp-IsWithin : (lo hi : ℕ) (v : ℤ) → lo ≤ hi → IsWithin lo hi (clamp (pos lo) (pos hi) v)
clamp-IsWithin lo hi (pos n) le =
    let low = if ltb n hi then n else hi in
    let m = if ltb lo low then low else lo in
    let e : clamp (pos lo) (pos hi) (pos n) ≡ pos m = ground arith in
    (m, e, ground arith, ground (arith, le))
clamp-IsWithin lo hi (negsuc n) le =
    let low : clamp (pos lo) (pos hi) (negsuc n) ≡ pos lo = ground arith in
    rw low (lo, refl, omega arith, le)

IsWithin-if :
    (lo hi : ℕ) (b : Bool) (u v : ℤ × ℤ)
    → IsWithin lo hi u.0
    → IsWithin lo hi v.0
    → IsWithin lo hi (if b then u else v).0
IsWithin-if lo hi true u v p q = p
IsWithin-if lo hi false u v p q = q

module _ (offset : ℤ → ℕ → ℕ → ℕ → ℤ) where
  slider-IsWithin :
      (fid lo hi x w fy : ℕ) (ev : PanelEvent) (at : ℤ × ℤ)
      → lo ≤ hi
      → IsWithin lo hi at.0
      → IsWithin lo hi (slider offset fid lo hi x w fy ev at).0
  unfolding slider
  slider-IsWithin fid lo hi x w fy (mouse_down mx my) at le p =
      IsWithin-if lo hi _ (slider_value offset lo hi x w mx, pos fid) at
        (clamp-IsWithin lo hi (pos lo +ℤ offset mx (x + 10) (w - 20) (hi - lo)) le) p
  slider-IsWithin fid lo hi x w fy (mouse_motion mx my held) at le p =
      IsWithin-if lo hi _ (slider_value offset lo hi x w mx, at.1) at
        (clamp-IsWithin lo hi (pos lo +ℤ offset mx (x + 10) (w - 20) (hi - lo)) le) p
  slider-IsWithin fid lo hi x w fy other_event at le p = p

  click_priority-lt :
      (x y w : ℕ) (ev : PanelEvent) (picked : ℕ) → picked < 4 → click_priority x y w ev picked < 4
  unfolding click_priority
  click_priority-lt x y w (mouse_down mx my) picked lt =
      pick_column-lt 4 _ _ _ _ mx my 0 4 picked 4 (omega arith) lt
  click_priority-lt x y w (mouse_motion mx my held) picked lt = lt
  click_priority-lt x y w other_event picked lt = lt

  pub edit_form-IsForm :
      (x y w : ℕ) (ev : PanelEvent) (f : FormState)
      → IsForm f
      → IsForm (edit_form offset x y w ev f)
  unfolding edit_form
  edit_form-IsForm x y w ev f i = record {
    prio_lt = click_priority-lt x y w ev f.prio_idx i.prio_lt;
    cpu_range = slider-IsWithin 2 5 80 x w (y + 110) ev _ (omega arith) i.cpu_range;
    memory_range = slider-IsWithin 3 64 1024 x w (y + 142) ev _ (omega arith) i.memory_range;
    burst_range = slider-IsWithin 4 2 40 x w (y + 174) ev _ (omega arith) i.burst_range;
  }

pub fade-IsForm : (ms : ℕ) (f : FormState) → IsForm f → IsForm (fade ms f)
fade-IsForm ms f i =
    elim (Bool-cases (f.submit_flash && ltb ((ms + 4294967296 - f.flash_ms) % 4294967296) 300)) [
      | inl on ↦ rw on i
      | inr off ↦ rw off (record {
        prio_lt = i.prio_lt;
        cpu_range = i.cpu_range;
        memory_range = i.memory_range;
        burst_range = i.burst_range;
      })
    ]
