-- ===== src/Dashboard/GanttPanel/Legend.antt =====
-- The legend of the Gantt chart, and what is filled by one call of `fillRect`.
use tensor_sched.Prelude.{
  ℕ, zero, suc, ◌+◌, ◌-◌, ◌≤◌, ◌<◌, ◌||◌, List, ◌++◌, arith, ◌==◌, get_or, All, All-append,
  Bool-cases, inl, inr,
}
use tensor_sched.Dashboard.Paint.{Color, Fill, fill_rect, mlfq_col, c_teal}
use tensor_sched.Dashboard.GanttPanel.{legend}

pub fill_rect-All {κ} :
    (P : Fill → Type κ) (x y w h : ℕ) (c : Color)
    → (0 < w → 0 < h → P (record { x = x; y = y; w = w; h = h; color = c }))
    → All P (fill_rect x y w h c)
fill_rect-All P x y w h c p = elim (Bool-cases ((w == 0) || (h == 0))) [
  | inl e ↦ rw e tt
  | inr e ↦ rw e (p (ground arith) (ground arith), tt)
]

pub fill_rect-then {κ} :
    (P : Fill → Type κ) (x y w h : ℕ) (c : Color) (rest : List Fill)
    → (0 < w → 0 < h → P (record { x = x; y = y; w = w; h = h; color = c }))
    → All P rest
    → All P (fill_rect x y w h c ++ rest)
fill_rect-then P x y w h c rest p a =
    All-append P (fill_rect x y w h c) rest (fill_rect-All P x y w h c p) a

-- The rectangle lies in the heading of a panel, above the clip.
abbrev pub IsHeading : (x y w : ℕ) → Fill → Type 0
IsHeading x y w f =
    (0 < f.w) × (0 < f.h) × (x ≤ f.x) × (f.x + f.w ≤ x + w) × (y ≤ f.y) × (f.y + f.h ≤ y + 32)

-- How far the legend reaches to the left.
abbrev pub legend_w : (text_w : ℕ → ℕ) → ℕ → ℕ
legend_w text_w zero = 0
legend_w text_w (suc l) = text_w l + 42 + legend_w text_w l

pub legend-All :
    (text_w : ℕ → ℕ) (x y w lx n : ℕ)
    → x + legend_w text_w n ≤ lx
    → lx ≤ x + w
    → All (IsHeading x y w) (legend text_w y lx n)
unfolding legend
legend-All text_w x y w lx zero left right = tt
legend-All text_w x y w lx (suc l) left right =
    fill_rect-then (IsHeading x y w) (lx - (text_w l + 4) - 16) (y + 10) 12 10
      (get_or mlfq_col l c_teal) (legend text_w y (lx - (text_w l + 4) - 22) l)
      (λ a b. (a, b, omega arith, omega arith, omega arith, omega arith))
      (legend-All text_w x y w (lx - (text_w l + 4) - 22) l (omega arith) (omega arith))
