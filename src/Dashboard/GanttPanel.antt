-- ===== src/Dashboard/GanttPanel.antt =====
-- `drawGanttPanel` of main.cpp: the rectangles that it fills with `fillRect`, for a panel of width `w`
-- and height `h` at `x` and `y`: the legend, the rows and the bars under the clip, and the ruler. The
-- panel of `main` is 1144 wide and 462 high. Left out are the rounded background and its border, drawn
-- first over the whole panel, and the texts; the width of a label of the legend is a parameter.
pub mod Legend
pub mod Layout
use Prim.Native.Nat.{min, max}
use tensor_sched.Prelude.{
  ℕ, zero, suc, ◌+◌, ◌-◌, ◌*◌, ◌/◌, List, [], ◌∷◌, ◌++◌, ltb, leb, ◌==◌, if◌then◌else◌, get_or,
  length, take, drop,
}
use tensor_sched.ResourceManager.{max_concurrent}
use tensor_sched.Job.{mlfq_levels}
use tensor_sched.Scheduler.Records.{GanttRecord}
use tensor_sched.Dashboard.Paint.{
  Color, Fill, fill_rect, mlfq_col, c_teal, c_panel2, c_border, c_pink,
}

abbrev pub left_pad : ℕ
left_pad = 24

abbrev pub row_h : ℕ → ℕ
row_h h = (h - 44) / max_concurrent

abbrev pub area_w : ℕ → ℕ
area_w w = w - left_pad - 10

abbrev pub tick_w : ℕ → ℕ → ℕ
tick_w w count = max 2 (area_w w / max 1 count)

abbrev pub visible : ℕ → ℕ → ℕ
visible w count = area_w w / max 2 (tick_w w count)

abbrev pub start_i : ℕ → ℕ → ℕ → ℕ
start_i w count gantt_scroll = count - visible w count - gantt_scroll

abbrev pub end_i : ℕ → ℕ → ℕ → ℕ
end_i w count gantt_scroll = min count (start_i w count gantt_scroll + visible w count)

-- The rows of the workers from `wk` on, `n` of them.
unfoldable pub worker_rows : (x y w h wk n : ℕ) → List Fill
worker_rows x y w h wk zero = []
worker_rows x y w h wk (suc n) =
    let wy = y + 32 + wk * row_h h in
    fill_rect (x + left_pad) wy (area_w w) (row_h h - 2) c_panel2
    ++ (fill_rect (x + left_pad) (wy + row_h h - 2) (area_w w) 1 c_border
        ++ worker_rows x y w h (suc wk) n)

abbrev pub with_alpha : ℕ → Color → Color
with_alpha a c = record c { a = a }

-- The bar of the record that stands `k` places after `start_i`. The worker and the level of a record
-- are not negative.
unfoldable pub bar : (x y h tick k : ℕ) → GanttRecord → List Fill
bar x y h tick k g =
    let wy = y + 32 + g.worker * row_h h in
    let gx = x + left_pad + k * tick in
    let pval = max 1 (min 4 g.priority) in
    let bar_h = (row_h h - 4) * pval / 4 in
    let bar_y = wy + (row_h h - 4 - bar_h) in
    let lvl = if ltb g.mlfq_level mlfq_levels then g.mlfq_level else 0 in
    let lc = get_or mlfq_col lvl c_teal in
    let bc = with_alpha (if g.preempted then 75 else 170) lc in
    if leb max_concurrent g.worker
    then []
    else fill_rect gx bar_y (max 1 (tick - 1)) bar_h bc
      ++ (if g.preempted then fill_rect gx wy tick 2 c_pink else [])

unfoldable pub bars : (x y h tick k : ℕ) → List GanttRecord → List Fill
bars x y h tick k [] = []
bars x y h tick k (g ∷ gs) = bar x y h tick k g ++ bars x y h tick (suc k) gs

-- The records from `start_i` up to `end_i`.
abbrev pub shown : ℕ → ℕ → List GanttRecord → List GanttRecord
shown w gantt_scroll gbuf =
    let count = length gbuf in
    take (end_i w count gantt_scroll - start_i w count gantt_scroll)
      (drop (start_i w count gantt_scroll) gbuf)

-- The squares of the legend for the levels below `n`, from the last on, where `lx` is `lx`; the label
-- of level `l` is `text_w l` wide.
unfoldable pub legend : (text_w : ℕ → ℕ) (y lx n : ℕ) → List Fill
legend text_w y lx zero = []
legend text_w y lx (suc l) =
    let lx' = lx - (text_w l + 4) in
    fill_rect (lx' - 16) (y + 10) 12 10 (get_or mlfq_col l c_teal) ++ legend text_w y (lx' - 22) l

-- What is drawn while the clip is set.
unfoldable pub clipped : (gantt_scroll x y w h : ℕ) → List GanttRecord → List Fill
clipped gantt_scroll x y w h gbuf =
    let count = length gbuf in
    worker_rows x y w h 0 max_concurrent
    ++ bars x y h (tick_w w count) 0 (shown w gantt_scroll gbuf)

abbrev pub ruler : (x y w h : ℕ) → List Fill
ruler x y w h = fill_rect (x + left_pad) (y + h - 14) (area_w w) 1 c_border

-- The calls of `fillRect`, in order.
unfoldable pub gantt_panel :
    (text_w : ℕ → ℕ) (gantt_scroll x y w h : ℕ) → List GanttRecord → List Fill
gantt_panel text_w gantt_scroll x y w h gbuf =
    if length gbuf == 0
    then []
    else legend text_w y (x + w - 12) mlfq_levels
      ++ (clipped gantt_scroll x y w h gbuf ++ ruler x y w h)
