-- ===== src/Dashboard/Paint.antt =====
-- The palette and the rectangles of main.cpp. Coordinates and lengths are natural numbers: no call
-- that is modelled has a negative one.
use tensor_sched.Prelude.{ℕ, ◌-◌, ◌||◌, List, [], ◌∷◌, ◌==◌, if◌then◌else◌, get_or}
use tensor_sched.Job.{JobStatus, JobPriority, priority_value}

pub record Color : Type 0 where
  pub r : ℕ
  pub g : ℕ
  pub b : ℕ
  pub a : ℕ

abbrev opaque : ℕ → ℕ → ℕ → Color
opaque r g b = record { r = r; g = g; b = b; a = 255 }

abbrev pub c_panel : Color
c_panel = opaque 14 18 32

abbrev pub c_panel2 : Color
c_panel2 = opaque 20 26 46

abbrev pub c_panel3 : Color
c_panel3 = opaque 28 36 60

abbrev pub c_border : Color
c_border = opaque 40 54 92

abbrev pub c_teal : Color
c_teal = opaque 0 220 180

abbrev pub c_amber : Color
c_amber = opaque 255 176 30

abbrev pub c_coral : Color
c_coral = opaque 255 80 80

abbrev pub c_blue : Color
c_blue = opaque 80 168 255

abbrev pub c_purple : Color
c_purple = opaque 175 145 255

abbrev pub c_green : Color
c_green = opaque 72 230 120

abbrev pub c_pink : Color
c_pink = opaque 255 110 200

abbrev pub c_text2 : Color
c_text2 = opaque 125 155 200

abbrev pub c_text3 : Color
c_text3 = opaque 58 80 126

abbrev pub mlfq_col : List Color
mlfq_col = c_teal ∷ c_amber ∷ c_coral ∷ []

abbrev pub prio_col : List Color
prio_col = c_text2 ∷ c_blue ∷ c_amber ∷ c_coral ∷ []

abbrev pub log_cols : List Color
log_cols = c_text2 ∷ c_teal ∷ c_green ∷ c_coral ∷ c_pink ∷ c_purple ∷ []

abbrev pub status_color : JobStatus → Color
status_color JobStatus.waiting = c_text3
status_color JobStatus.ready = c_amber
status_color JobStatus.running = c_teal
status_color JobStatus.preempted = c_pink
status_color JobStatus.completed = c_green
status_color JobStatus.failed = c_coral

-- `PRIO_COL[idx]`, whose index is in range for each priority.
abbrev pub priority_color : JobPriority → Color
priority_color p = get_or prio_col (priority_value p - 1) c_text2

-- A filled rectangle.
pub record Fill : Type 0 where
  pub x : ℕ
  pub y : ℕ
  pub w : ℕ
  pub h : ℕ
  pub color : Color

-- `fillRect`: nothing is filled where a side is zero.
abbrev pub fill_rect : (x y w h : ℕ) → Color → List Fill
fill_rect x y w h c =
    if (w == 0) || (h == 0) then [] else record { x = x; y = y; w = w; h = h; color = c } ∷ []
