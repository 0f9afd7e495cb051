-- ===== src/Calc/Rows.antt =====
-- The insertion and the deletion of rows and columns in calc/c/calc.c: `insert`, `delete` and the
-- cases I and D of `do_command`, on the list of the cells, less what they write to the terminal.
pub mod Counts
use rsx.Base.{
  Bool, List, Option, [], false, if◌then◌else◌, leb, ltb, map, not, some, ℕ, ◌%◌, ◌&&◌, ◌++◌, ◌+◌,
  ◌-◌, ◌==◌, ◌>>=◌, ◌||◌, ◌∷◌,
}
use rsx.Calc.{Cell, Real, turned_onto}
use rsx.Calc.Formula.Parse.{formula}
use rsx.Calc.Names.{Edit}

-- What the command asks for: the edit of the references, and the row or column at the cursor.
unfoldable pub row_edit : Bool → ℕ → Edit
row_edit more cur = record {
  test_r = cur;
  test_c = 0;
  del_row = if more then 1 else 65535;
  del_col = 0;
}

unfoldable pub col_edit : Bool → ℕ → Edit
col_edit more cur = record {
  test_r = 0;
  test_c = cur;
  del_row = 0;
  del_col = if more then 1 else 65535;
}

-- `for (i = 254; i >= cur_c; --i) width[i+1] = width[i];`, and the loop of the deletion.
unfoldable pub widen : ℕ → (ℕ → ℕ) → ℕ → ℕ
widen cur width i = if ltb cur i && leb i 255 then width (i - 1) else width i

unfoldable pub narrow_widths : ℕ → (ℕ → ℕ) → ℕ → ℕ
narrow_widths cur width i = if leb cur i && leb i 254 then width (i + 1) else width i

module _ {V : Type 0} (real : Real V) where
  unfoldable pub not_ready : Cell V → Cell V
  not_ready p = record p { ready = 0 }

  -- `head->row += del_row` on a byte, where the cell is at or behind the place; `ready = 0`
  unfoldable pub shift : Edit → Cell V → Cell V
  unfolding not_ready
  shift e p =
      if leb e.test_r p.row && leb e.test_c p.col
      then not_ready (record p { row = (p.row + e.del_row) % 256; col = (p.col + e.del_col) % 256 })
      else not_ready p

  -- The cell in the work cell: its references are rewritten as its formula is read. The other cells
  -- are not looked at under local_edit.
  unfoldable pub edit_cell : Edit → ℕ → Cell V → Option (Cell V)
  edit_cell e f p = do
    (v, s) ← formula real (some e) f (record {
      place = ([], p.form);
      alen = p.alen;
      cells = [];
      error = false;
      calc_error = false;
    })
    some (record p { value = v; alen = s.alen; form = turned_onto s.place.0 s.place.1; ready = 1 })

  -- The second loop: a cell whose text has grown is disposed of, and a new one goes to the end of
  -- the chain. The two lists are the cells that stay in their order and those at the end.
  unfoldable pub edit_loop : Edit → ℕ → List (Cell V) → Option (List (Cell V) × List (Cell V))
  edit_loop e f [] = some ([], [])
  edit_loop e f (p ∷ ps) = do
    (stay, at_end) ← edit_loop e f ps
    let edited = (do
      q ← edit_cell e f p
      some (if ltb p.alen q.alen then (stay, q ∷ at_end) else (q ∷ stay, at_end)))
    if p.ready == 0 && p.flag == 70 then edited else some (p ∷ stay, at_end)

  unfoldable pub insert_cells : Edit → ℕ → List (Cell V) → Option (List (Cell V))
  insert_cells e f cells = do
    (stay, at_end) ← edit_loop e f (map not_ready cells)
    some (map (shift e) (stay ++ at_end))

  -- The first loop of `delete`: the cells that the test is true of are disposed of.
  unfoldable pub without : (Cell V → Bool) → List (Cell V) → List (Cell V)
  without gone [] = []
  without gone (p ∷ ps) = let rest = without gone ps in if gone p then rest else p ∷ rest

  -- `((del_row != 0) && (head->row == cur_r)) || ((del_col != 0) && (head->col == cur_c))`
  unfoldable pub is_deleted : Edit → ℕ → ℕ → Cell V → Bool
  is_deleted e cur_r cur_c p =
      (not (e.del_row == 0) && p.row == cur_r) || (not (e.del_col == 0) && p.col == cur_c)

  unfoldable pub delete_cells : Edit → ℕ → ℕ → ℕ → List (Cell V) → Option (List (Cell V))
  delete_cells e cur_r cur_c f cells = insert_cells e f (without (is_deleted e cur_r cur_c) cells)
