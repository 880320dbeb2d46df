-- ===== src/Dashboard/Form/Columns.antt =====
-- Rows of buttons: a click takes at most one of them.
use tensor_sched.Prelude.{ℕ, zero, suc, ◌+◌, ◌*◌, ◌≤◌, ◌<◌, true, false, ◌≡◌, arith, ℤ, pos, ltb_ℤ}
use tensor_sched.Dashboard.Form.{in_box, pick_column}

pub pick_column-lt :
    (gap bw x y0 y1 : ℕ) (mx my : ℤ) (i rounds picked n : ℕ)
    → i + rounds ≤ n
    → picked < n
    → pick_column gap bw x y0 y1 mx my i rounds picked < n
unfolding pick_column
pick_column-lt gap bw x y0 y1 mx my i zero picked n le lt = lt
pick_column-lt gap bw x y0 y1 mx my i (suc rounds) picked n le lt =
    pick_column-lt gap bw x y0 y1 mx my (suc i) rounds _ n (omega (arith, le))
      (ground (arith, le, lt))

-- A box further to the right than the click is not hit.
pub in_box-left :
    (mx my : ℤ) (x0 x1 y0 y1 : ℕ) → ltb_ℤ mx (pos x0) ≡ true → in_box mx my x0 x1 y0 y1 ≡ false
in_box-left mx my x0 x1 y0 y1 e = ground (arith, e)

-- What is hit lies before every column after it.
pub in_box-next :
    (mx my : ℤ) (x bw gap y0 y1 i : ℕ)
    → in_box mx my (x + i * (bw + gap)) (x + i * (bw + gap) + bw) y0 y1 ≡ true
    → ltb_ℤ mx (pos (x + suc i * (bw + gap))) ≡ true
in_box-next mx my x bw gap y0 y1 i e = ground (arith, e)
