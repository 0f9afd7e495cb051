-- ===== src/Calc/Rows/Counts.antt =====
-- Where the cells of calc/c/calc.c are after a row is inserted or deleted.
use rsx.Base.{
  ==→eq, ==→ne, Bool, Bool-cases, List, [], arith, false, if◌then◌else◌, inl, inr, leb, leb→le,
  le→leb, ltb, map, refl, suc, true, ℕ, ◌%◌, ◌&&◌, ◌+◌, ◌-◌, ◌<◌, ◌==◌, ◌||◌, ◌∷◌, ◌≡◌, ◌≢◌, ◌≤◌,
}
use rsx.Calc.{Cell, Real}
use rsx.Calc.Rows.{is_deleted, not_ready, row_edit, shift, without}

module _ {V : Type 0} where
  -- The number of the cells at a place.
  unfoldable pub count_at : List (Cell V) → ℕ → ℕ → ℕ
  count_at [] r c = 0
  count_at (p ∷ ps) r c =
      let rest = count_at ps r c in if p.row == r && p.col == c then suc rest else rest

  -- The coordinates are bytes.
  unfoldable pub AreInSheet : List (Cell V) → Type 0
  AreInSheet [] = Unit
  AreInSheet (p ∷ ps) = (p.row < 256) × (p.col < 256) × AreInSheet ps

-- One cell, whose column is the one looked for or not, beside the counts of the others.
one_cell :
    (same : Bool) (cur r row m n a b z : ℕ)
    → cur < 256
    → r < 256
    → row < 256
    → m ≡ (if leb cur row then (row + 1) % 256 else row)
    → n ≡ (if ltb r cur then a else if r == cur then 0 else b) + (if r == 0 then z else 0)
    → (if m == r && same then suc n else n)
      ≡ (if ltb r cur
          then (if row == r && same then suc a else a)
          else if r == cur
          then 0
          else (if row == r - 1 && same then suc b else b))
        + (if r == 0 then (if row == 255 && same then suc z else z) else 0)
one_cell true cur r row m n a b z h k l e i = elim (Bool-cases (leb cur row)) [
  | inl y ↦ elim (Bool-cases (row == 255)) [
    | inl x ↦ ground (arith, at_end (==→eq row 255 x), y, x)
    | inr x ↦ ground (arith, inside (==→ne row 255 x), y, x)
  ]
  | inr y ↦ ground arith
]
  where
    at_end : row ≡ 255 → (row + 1) % 256 ≡ 0
    at_end x = omega arith

    inside : row ≢ 255 → (row + 1) % 256 ≡ row + 1
    inside x = ground arith
one_cell false cur r row m n a b z h k l e i = ground arith

module _ {V : Type 0} (real : Real V) where
  shift_row :
      (cur : ℕ) (p : Cell V)
      → p.row < 256
      → p.col < 256
      → ((shift real (row_edit true cur) p).row
          ≡ (if leb cur p.row then (p.row + 1) % 256 else p.row))
        × ((shift real (row_edit true cur) p).col ≡ p.col)
  unfolding shift row_edit not_ready
  shift_row cur p h k = elim (Bool-cases (leb cur p.row)) [
    | inl z ↦ rw (z, le→leb 0 p.col (omega arith)) (refl, omega arith)
    | inr z ↦ rw z (refl, refl)
  ]

  -- The last loop of insert, when a row is inserted at row cur, on cells whose coordinates are bytes:
  -- the cells above it are where they were, those at it and below are one row lower, and none is left
  -- at row cur; but the cells of the last row come to row 0.
  pub count_at-insert :
      (cur r c : ℕ) (cells : List (Cell V))
      → cur < 256
      → r < 256
      → AreInSheet cells
      → count_at (map (shift real (row_edit true cur)) cells) r c
        ≡ (if ltb r cur
            then count_at cells r c
            else if r == cur
            then 0
            else count_at cells (r - 1) c)
          + (if r == 0 then count_at cells 255 c else 0)
  unfolding count_at AreInSheet
  count_at-insert cur r c [] h k all = ground arith
  count_at-insert cur r c (p ∷ ps) h k (row, col, all) =
      let (at_row, at_col) = shift_row cur p row col in
      let rest = count_at-insert cur r c ps h k all in
      rw at_col (
        one_cell (p.col == c) cur r p.row (shift real (row_edit true cur) p).row
          (count_at (map (shift real (row_edit true cur)) ps) r c) (count_at ps r c)
          (count_at ps (r - 1) c) (count_at ps 255 c) h k row at_row rest)

-- One cell at another row than the deleted one.
one_less :
    (same : Bool) (cur r row m n a b : ℕ)
    → cur < 256
    → r < 256
    → row < 256
    → row ≢ cur
    → m ≡ (if leb cur row then row - 1 else row)
    → n ≡ (if ltb r cur then a else if ltb r 255 then b else 0)
    → (if m == r && same then suc n else n) ≡ (
        if ltb r cur
        then (if row == r && same then suc a else a)
        else if ltb r 255
        then (if row == r + 1 && same then suc b else b)
        else 0)
one_less true cur r row m n a b h k l ne e i = ground arith
one_less false cur r row m n a b h k l ne e i = ground arith

-- A cell in the deleted row is at none of the places that are looked for.
none_less :
    (same : Bool) (cur r row n a b : ℕ)
    → row ≡ cur
    → n ≡ (if ltb r cur then a else if ltb r 255 then b else 0)
    → n ≡ (
        if ltb r cur
        then (if row == r && same then suc a else a)
        else if ltb r 255
        then (if row == r + 1 && same then suc b else b)
        else 0)
none_less true cur r row n a b e i = ground arith
none_less false cur r row n a b e i = ground arith

module _ {V : Type 0} (real : Real V) where
  unshift_row :
      (cur : ℕ) (p : Cell V)
      → p.row < 256
      → p.col < 256
      → p.row ≢ cur
      → ((shift real (row_edit false cur) p).row ≡ (if leb cur p.row then p.row - 1 else p.row))
        × ((shift real (row_edit false cur) p).col ≡ p.col)
  unfolding shift row_edit not_ready
  unshift_row cur p h k ne = elim (Bool-cases (leb cur p.row)) [
    | inl z ↦
        rw (z, le→leb 0 p.col (omega arith)) (less p.row (leb→le cur p.row z) ne h, omega arith)
    | inr z ↦ rw z (refl, refl)
  ]
    where
      less : (row : ℕ) → cur ≤ row → row ≢ cur → row < 256 → (row + 65535) % 256 ≡ row - 1
      less row below ne h = ground arith

  -- The row that is deleted is the only one that the test of `delete` is true of.
  deleted_row :
      (cur col : ℕ) (p : Cell V) → is_deleted real (row_edit false cur) cur col p ≡ (p.row == cur)
  unfolding is_deleted row_edit
  deleted_row cur col p = or_no (p.row == cur) (p.col == col)
    where
      or_no : (a b : Bool) → (a || (false && b)) ≡ a
      or_no true b = refl
      or_no false b = refl

  -- The first and the last loop of delete together, when row cur is deleted, on cells whose
  -- coordinates are bytes: the cells above it are where they were, those below it are one row higher,
  -- and the others are gone; the last row is empty.
  pub count_at-delete :
      (cur r col c : ℕ) (cells : List (Cell V))
      → cur < 256
      → r < 256
      → AreInSheet cells
      → count_at
          (map
            (shift real (row_edit false cur))
            (without real (is_deleted real (row_edit false cur) cur col) cells))
          r
          c
        ≡ (if ltb r cur
            then count_at cells r c
            else if ltb r 255
            then count_at cells (r + 1) c
            else 0)
  unfolding count_at AreInSheet without
  count_at-delete cur r col c [] h k all = ground arith
  count_at-delete cur r col c (p ∷ ps) h k (row, col_in, all) =
      let rest = count_at-delete cur r col c ps h k all in
      elim (Bool-cases (p.row == cur)) [
        | inl z ↦
            rw (deleted_row cur col p, z)
              (none_less (p.col == c) cur r p.row _ (count_at ps r c) (count_at ps (r + 1) c)
                (==→eq p.row cur z) rest)
        | inr z ↦
            let (at_row, at_col) = unshift_row cur p row col_in (==→ne p.row cur z) in
            rw (deleted_row cur col p, z, at_col)
              (one_less (p.col == c) cur r p.row (shift real (row_edit false cur) p).row _
                (count_at ps r c) (count_at ps (r + 1) c) h k row (==→ne p.row cur z) at_row rest)
      ]
