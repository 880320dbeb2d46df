-- ===== src/Dashboard/LogPanel.antt =====
-- `drawLogPanel` of main.cpp: the lines of the log in a panel of height `h` at `y`. The panel of `main`
-- is 156 high. What fits of a text in its font is a parameter, and so is the division of floats in
-- the fading-in of a line.
pub mod Lines
pub mod History
use Prim.Native.Nat.{min, ◌^◌}
use tensor_sched.Prelude.{
  ℕ, ◌+◌, ◌-◌, ◌*◌, ◌/◌, ◌%◌, List, [], ◌∷◌, ltb, if◌then◌else◌, get_or, length, drop,
}
use tensor_sched.Dashboard.{UiLogEntry, UiState, ui_log_max, ui_log_snapshot}
use tensor_sched.Dashboard.Paint.{Color, log_cols, c_text2}

pub record Line : Type 0 where
  pub ly : ℕ
  pub text : List ℕ
  pub color : Color

abbrev pub line_h : ℕ
line_h = 14

abbrev pub clip_h : ℕ → ℕ
clip_h h = h - 30

abbrev pub vis : ℕ → ℕ
vis h = clip_h h / line_h

abbrev pub max_s : ℕ → ℕ → ℕ
max_s h total = total - vis h

-- The number of the first entry shown.
abbrev pub first_shown : (h total log_scroll : ℕ) → ℕ
first_shown h total log_scroll = min total (max_s h total - log_scroll)

-- The difference of two readings of `SDL_GetTicks`, which has 32 bits.
abbrev pub age_of : ℕ → ℕ → ℕ
age_of now_ms born_ms = (now_ms + 2 ^ 32 - born_ms) % 2 ^ 32

module _ (fit : List ℕ → List ℕ) (dimmed : ℕ → ℕ) where
  abbrev pub log_line : (now_ms ly : ℕ) → UiLogEntry → Line
  log_line now_ms ly e =
      let age = age_of now_ms e.born_ms in
      let tc = get_or log_cols (if ltb e.color_hint 6 then e.color_hint else 0) c_text2 in
      record {
        ly = ly;
        text = fit e.text;
        color = record tc { a = if ltb age 200 then dimmed age else 255 };
      }

  -- The loop over the entries from `i` on.
  unfoldable pub log_lines : (now_ms y h ly : ℕ) → List UiLogEntry → List Line
  log_lines now_ms y h ly [] = []
  log_lines now_ms y h ly (e ∷ es) =
      let rest = log_lines now_ms y h (ly + line_h) es in
      if ltb ly (y + h - 4) then log_line now_ms ly e ∷ rest else []

  unfoldable pub log_panel : (now_ms y h : ℕ) → UiState → List Line
  log_panel now_ms y h ui =
      let entries = ui_log_snapshot ui_log_max ui in
      log_lines now_ms y h (y + 26) (drop (first_shown h (length entries) ui.log_scroll) entries)
