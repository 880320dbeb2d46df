-- ===== src/Dashboard/GanttPanel/Layout.antt =====
-- The layout of the Gantt chart.
use Prim.Native.Nat.{min, max}
use native.Mathlib.Nat.{
  le-div_iff_mul-le, mul-le-mul_left, mul-le-mul_right, suc-mul, div-mul-le_self, div-le_self,
}
use tensor_sched.Prelude.{
  ℕ, zero, suc, ◌+◌, ◌-◌, ◌*◌, ◌/◌, ◌≤◌, ◌<◌, List, [], ◌∷◌, ◌++◌, ◌≡◌, arith, ltb, leb, ◌==◌,
  if◌then◌else◌, get_or, length, drop, All, All-append, All-map, ◌⊎◌, Bool-cases, inl, inr,
  length-take,
}
use tensor_sched.ResourceManager.{max_concurrent}
use tensor_sched.Job.{mlfq_levels}
use tensor_sched.Scheduler.Records.{GanttRecord}
use tensor_sched.Dashboard.Paint.{Fill, fill_rect, mlfq_col, c_teal, c_panel2, c_border, c_pink}
use tensor_sched.Dashboard.GanttPanel.Legend.{
  fill_rect-All, fill_rect-then, IsHeading, legend_w, legend-All,
}
use tensor_sched.Dashboard.GanttPanel.{
  left_pad, row_h, area_w, tick_w, visible, start_i, end_i, with_alpha, worker_rows, bar, bars,
  shown, legend, clipped, ruler, gantt_panel,
}

-- The rectangle lies in the clip of a panel, and has an area.
abbrev pub IsInside : (x y w h : ℕ) → Fill → Type 0
IsInside x y w h f =
    (0 < f.w)
    × (0 < f.h)
    × (x + left_pad ≤ f.x)
    × (f.x + f.w ≤ x + left_pad + area_w w)
    × (y + 32 ≤ f.y)
    × (f.y + f.h ≤ y + 32 + (h - 44))

row_fits : (h wk : ℕ) → wk < max_concurrent → wk * row_h h + row_h h ≤ h - 44
row_fits h wk lt =
    omega
      (arith, mul-le-mul_right {m = suc wk} (row_h h) lt, div-mul-le_self (h - 44) max_concurrent)

column_fits : (w count k : ℕ) → k < visible w count → k * tick_w w count + tick_w w count ≤ area_w w
column_fits w count k lt =
    let at_most : suc k * max 2 (tick_w w count) ≤ area_w w =
      (le-div_iff_mul-le (omega arith)).0 lt in
    let same : max 2 (tick_w w count) ≡ tick_w w count = omega arith in
    let at_most' : suc k * tick_w w count ≤ area_w w = rw same at at_most in
    omega (arith, suc-mul k (tick_w w count))

some_visible : (w count : ℕ) → 36 ≤ w → 0 < visible w count
some_visible w count wide =
    let smaller : area_w w / max 1 count ≤ area_w w = div-le_self (area_w w) (max 1 count) in
    (le-div_iff_mul-le {x = 1} (omega arith)).1 (omega (arith, smaller))

module _ (x y w h : ℕ) (wide : 36 ≤ w) (high : 60 ≤ h) where
  tall : 4 ≤ row_h h
  tall = omega arith

  worker_rows-All :
      (wk n : ℕ) → wk + n ≤ max_concurrent → All (IsInside x y w h) (worker_rows x y w h wk n)
  unfolding worker_rows
  worker_rows-All wk zero le = tt
  worker_rows-All wk (suc n) le =
      let fits = row_fits h wk (omega arith) in
      let wy = y + 32 + wk * row_h h in
      fill_rect-then (IsInside x y w h) (x + left_pad) wy (area_w w) (row_h h - 2) c_panel2 _
        (λ a b. (a, b, omega arith, omega arith, omega arith, omega (arith, fits)))
        (fill_rect-then (IsInside x y w h) (x + left_pad) (wy + row_h h - 2) (area_w w) 1 c_border
          (worker_rows x y w h (suc wk) n)
          (λ a b. (a, b, omega arith, omega arith, omega (arith, tall), omega (arith, fits, tall)))
          (worker_rows-All (suc wk) n (omega arith)))

  bar_fits : (pval : ℕ) → pval ≤ 4 → (row_h h - 4) * pval / 4 ≤ row_h h - 4
  bar_fits pval le = omega (arith, mul-le-mul_left (row_h h - 4) le)

  bar-All :
      (tick k : ℕ) (g : GanttRecord)
      → 2 ≤ tick
      → k * tick + tick ≤ area_w w
      → All (IsInside x y w h) (bar x y h tick k g)
  unfolding bar
  bar-All tick k g two fits_x = elim (Bool-cases (leb max_concurrent g.worker)) [
    | inl e ↦ rw e tt
    | inr e ↦ rw e (painted (row_fits h g.worker (ground arith)))
  ]
    where
      wy : ℕ
      wy = y + 32 + g.worker * row_h h

      gx : ℕ
      gx = x + left_pad + k * tick

      bar_h : ℕ
      bar_h = (row_h h - 4) * max 1 (min 4 g.priority) / 4

      painted :
          g.worker * row_h h + row_h h ≤ h - 44
          → All (IsInside x y w h) (
              fill_rect gx (wy + (row_h h - 4 - bar_h)) (max 1 (tick - 1)) bar_h (
                with_alpha (if g.preempted then 75 else 170) (
                  get_or mlfq_col
                    (if ltb g.mlfq_level mlfq_levels then g.mlfq_level else 0)
                    c_teal))
              ++ (if g.preempted then fill_rect gx wy tick 2 c_pink else []))
      painted fits =
          let small = bar_fits (max 1 (min 4 g.priority)) (omega arith) in
          fill_rect-then (IsInside x y w h) gx (wy + (row_h h - 4 - bar_h)) (max 1 (tick - 1)) bar_h
            _ _
            (λ a b. (
              a,
              b,
              omega arith,
              omega (arith, two, fits_x),
              omega arith,
              omega (arith, fits, small, tall),
            ))
            (elim (Bool-cases g.preempted) [
              | inl p ↦ rw p (
                  fill_rect-All (IsInside x y w h) gx wy tick 2 c_pink (λ a b. (
                    a,
                    b,
                    omega arith,
                    omega (arith, fits_x),
                    omega arith,
                    omega (arith, fits, tall),
                  )))
              | inr p ↦ rw p tt
            ])

  bars-All :
      (count k : ℕ) (gs : List GanttRecord)
      → k + length gs ≤ visible w count
      → All (IsInside x y w h) (bars x y h (tick_w w count) k gs)
  unfolding bars
  bars-All count k [] le = tt
  bars-All count k (g ∷ gs) le =
      All-append (IsInside x y w h) (bar x y h (tick_w w count) k g)
        (bars x y h (tick_w w count) (suc k) gs)
        (bar-All (tick_w w count) k g (omega arith) (column_fits w count k (omega arith)))
        (bars-All count (suc k) gs (omega arith))

  clipped-All :
      (gantt_scroll : ℕ) (gbuf : List GanttRecord)
      → All (IsInside x y w h) (clipped gantt_scroll x y w h gbuf)
  unfolding clipped
  clipped-All gantt_scroll gbuf =
      All-append (IsInside x y w h) (worker_rows x y w h 0 max_concurrent)
        (bars x y h (tick_w w (length gbuf)) 0 (shown w gantt_scroll gbuf))
        (worker_rows-All 0 max_concurrent (omega arith))
        (bars-All (length gbuf) 0 (shown w gantt_scroll gbuf)
          (omega (arith, length-take _ (drop (start_i w (length gbuf) gantt_scroll) gbuf))))

  ruler-All : All (IsInside x y w h) (ruler x y w h)
  ruler-All =
      fill_rect-All (IsInside x y w h) (x + left_pad) (y + h - 14) (area_w w) 1 c_border
        (λ a b. (a, b, omega arith, omega arith, omega arith, omega arith))

-- In a panel that is at least 60 high, and wide enough for its legend, each rectangle that the Gantt
-- chart fills with `fillRect` has an area, and lies either in the heading, or in the area of the clip
-- below it. What is filled while the clip is set, the rows, bars and markers, lies in that area, so the
-- clip cuts nothing off. The records shown run from `start_i` up to `end_i`, of the records there are;
-- they are never none if there is a record, and they end with the newest one unless the chart is
-- scrolled.
pub gantt_panel-IsInside :
    (text_w : ℕ → ℕ) (gantt_scroll x y w h : ℕ) (gbuf : List GanttRecord)
    → 12 + legend_w text_w mlfq_levels ≤ w
    → 60 ≤ h
    → let count = length gbuf in
      All
        (λ f. IsHeading x y w f ⊎ IsInside x y w h f)
        (gantt_panel text_w gantt_scroll x y w h gbuf)
      × All (IsInside x y w h) (clipped gantt_scroll x y w h gbuf)
      × (end_i w count gantt_scroll ≤ count)
      × (0 < count → start_i w count gantt_scroll < end_i w count gantt_scroll)
      × (gantt_scroll ≡ 0 → end_i w count gantt_scroll ≡ count)
unfolding gantt_panel
gantt_panel-IsInside text_w gantt_scroll x y w h gbuf wide high = (
  elim (Bool-cases (length gbuf == 0)) [
    | inl e ↦ rw e tt
    | inr e ↦ rw e (
        All-append Placed (legend text_w y (x + w - 12) mlfq_levels)
          (clipped gantt_scroll x y w h gbuf ++ ruler x y w h)
          (All-map (IsHeading x y w) _ (λ f. inl)
            (legend-All text_w x y w (x + w - 12) mlfq_levels (omega arith) (omega arith)))
          (All-map (IsInside x y w h) _ (λ f. inr)
            (All-append (IsInside x y w h) (clipped gantt_scroll x y w h gbuf) (ruler x y w h)
              (clipped-All x y w h wide' high gantt_scroll gbuf) (ruler-All x y w h wide' high))))
  ],
  clipped-All x y w h wide' high gantt_scroll gbuf,
  omega arith,
  λ some_record. omega (arith, some_visible w (length gbuf) wide'),
  λ e. omega arith,
)
  where
    wide' : 36 ≤ w
    wide' = omega arith

    Placed : Fill → Type 0
    Placed f = IsHeading x y w f ⊎ IsInside x y w h f
