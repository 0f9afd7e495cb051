-- ===== src/Tests/Window.antt =====
-- The theorems on the cells, the cursor and the rows of FreeCalc, on concrete sheets.
-- Cells at 10, 20 and 30, in rows 0, 255 and 4.
use rsx.Base.{
  List, [], arith, false, if◌then◌else◌, ltb, map, refl, some, true, ℕ, ◌+◌, ◌-◌, ◌<◌, ◌==◌, ◌∷◌,
  ◌≡◌,
}
use rsx.Calc.{Cell}
use rsx.Calc.Cells.{Heap, dispose_all, dispose_loop, do_dispose}
use rsx.Calc.Cells.Chain.{AreApart, IsChain, IsOutside, last_or}
use rsx.Calc.Cells.Chained.{IsSheet, dispose_all-empty, do_dispose-removes}
use rsx.Calc.Cursor.{Arrow, Screen, key_up, process_cursor}
use rsx.Calc.Cursor.Arrives.{Moves, col_after, row_after}
use rsx.Calc.Cursor.Lost.{process_cursor-lost}
use rsx.Calc.Cursor.Moves.{process_cursor-Moves}
use rsx.Calc.Cursor.Reach.{Reaches, press-Reaches}
use rsx.Calc.Cursor.Shown.{IsNarrow, IsShown, total_width}
use rsx.Calc.Rows.{is_deleted, row_edit, shift, without}
use rsx.Calc.Rows.Counts.{AreInSheet, count_at, count_at-delete, count_at-insert}
use rsx.Tests.Sheet.{whole}

abbrev cell_in : ℕ → Cell ℕ
cell_in r = record {
  row = r;
  col = 0;
  flag = 65;
  ready = 1;
  value = 0;
  align = 0;
  prec = 2;
  alen = 2;
  form = b'x' ∷ [];
}

abbrev heap : Heap ℕ
heap = record {
  chead = 10;
  ctail = 30;
  next = λ p. if p == 10 then 20 else if p == 20 then 30 else 0;
  cell = λ p. if p == 10 then cell_in 0 else if p == 20 then cell_in 255 else cell_in 4;
}

heap-IsSheet : IsSheet heap (10 ∷ 20 ∷ 30 ∷ [])
unfolding IsChain AreApart IsOutside last_or
heap-IsSheet = record {
  chain = (refl, omega arith, (refl, omega arith, (refl, omega arith, refl)));
  tail = refl;
  apart = ((omega arith, (omega arith, tt)), ((omega arith, tt), (tt, tt)));
}

do_dispose-removes_example :
    (g : Heap ℕ) × (do_dispose 5 20 heap ≡ some g) × IsSheet g (10 ∷ 30 ∷ []) × (g.cell ≡ heap.cell)
do_dispose-removes_example =
    do_dispose-removes 5 heap (10 ∷ []) 20 (30 ∷ []) (omega arith) heap-IsSheet

dispose_all-empty_example :
    (g : Heap ℕ) × (dispose_loop 5 heap.chead heap ≡ some g)
    × IsSheet g []
    × (dispose_all 5 heap ≡ some g)
dispose_all-empty_example = dispose_all-empty 5 heap (10 ∷ 20 ∷ 30 ∷ []) (omega arith) heap-IsSheet

-- The window at E4, with the cursor in its first cell.
abbrev window : Screen
window = record { home_r = 3; home_c = 4; cur_r = 3; cur_c = 4; screen = 80; width = λ i. 9 }

window-IsNarrow : IsNarrow window
window-IsNarrow = (omega arith, λ i. omega arith)

window-IsShown : IsShown window
unfolding total_width
window-IsShown = record {
  below = omega arith;
  within = omega arith;
  row_in = omega arith;
  right_of = omega arith;
  col_in = omega arith;
  fits = omega arith;
}

process_cursor-Moves_example :
    (t : Screen) × (process_cursor 256 key_up window ≡ some t)
    × Moves window (row_after key_up 3) (col_after key_up 4) t
process_cursor-Moves_example =
    process_cursor-Moves 256 key_up window (omega arith) window-IsNarrow window-IsShown

press-Reaches_example : (ks : List Arrow) × Reaches 256 ks window 200 0
press-Reaches_example =
    press-Reaches 256 window 200 0 (omega arith) window-IsNarrow window-IsShown (omega arith)
      (omega arith)

-- A first column of 100 characters on a screen of 80.
abbrev wide : Screen
wide = record {
  home_r = 0;
  home_c = 0;
  cur_r = 5;
  cur_c = 0;
  screen = 80;
  width = λ i. if i == 0 then 100 else 9;
}

process_cursor-lost_example :
    (t : Screen) × (process_cursor 256 key_up wide ≡ some t)
    × (t.home_r ≡ 255)
    × (t.cur_r < t.home_r)
process_cursor-lost_example =
    process_cursor-lost 256 wide refl (omega arith) (omega arith) refl (omega arith) (omega arith)

abbrev three : List (Cell ℕ)
three = cell_in 0 ∷ cell_in 255 ∷ cell_in 4 ∷ []

three-AreInSheet : AreInSheet three
unfolding AreInSheet
three-AreInSheet =
    (omega arith, omega arith, (omega arith, omega arith, (omega arith, omega arith, tt)))

count_at-insert_example :
    count_at (map (shift whole (row_edit true 2)) three) 0 0
    ≡ (if ltb 0 2 then count_at three 0 0 else if 0 == 2 then 0 else count_at three (0 - 1) 0)
      + (if 0 == 0 then count_at three 255 0 else 0)
count_at-insert_example =
    count_at-insert whole 2 0 0 three (omega arith) (omega arith) three-AreInSheet

count_at-delete_example :
    count_at
      (map
        (shift whole (row_edit false 0))
        (without whole (is_deleted whole (row_edit false 0) 0 0) three))
      3
      0
    ≡ (if ltb 3 0 then count_at three 3 0 else if ltb 3 255 then count_at three (3 + 1) 0 else 0)
count_at-delete_example =
    count_at-delete whole 0 3 0 0 three (omega arith) (omega arith) three-AreInSheet
