-- ===== src/Calc/Formula.antt =====
-- The evaluation of formulas in calc/c/calc.c: the state, the cells, and the characters that are
-- taken from the text. `Formula/Parse` has the functions that call each other.
-- The cell that is evaluated (its text at `*ip`, and `alen`), the chain of cells from `chead`, and
-- the two flags.
pub mod Grammar
pub mod Parse
pub mod Ends
pub mod Lengths
pub mod Evaluates
pub mod Products
pub mod Terms
pub mod Sums
pub mod Skipped
use rsx.Base.{
  Bool, List, Option, [], if◌then◌else◌, leb, length, ltb, none, some, suc, true, zero, ℕ, ◌&&◌,
  ◌==◌, ◌∷◌,
}
use rsx.Calc.{Cell, Place, step, this_char}
use rsx.Calc.Names.{Edit, get_xy}
use rsx.Calc.Text.{log_code, skip_spaces, starts_with}

pub record State (V : Type 0) : Type 0 where
  pub place : Place
  pub alen : ℕ
  pub cells : List (Cell V)
  pub error : Bool
  pub calc_error : Bool

module _ {V : Type 0} where
  -- `get_point`: the first cell at the place, or NULL.
  unfoldable pub get_point : List (Cell V) → ℕ → ℕ → Option (Cell V)
  get_point [] r c = none
  get_point (p ∷ ps) r c = if p.row == r && p.col == c then some p else get_point ps r c

  -- A store through the pointer that `get_point` has returned.
  unfoldable pub set_point : List (Cell V) → ℕ → ℕ → (Cell V → Cell V) → List (Cell V)
  set_point [] r c g = []
  set_point (p ∷ ps) r c g = if p.row == r && p.col == c then g p ∷ ps else p ∷ set_point ps r c g

  unfoldable pub char_at : State V → ℕ
  unfolding this_char
  char_at s = this_char s.place.1

  unfoldable pub next : State V → State V
  unfolding step
  next s = record s { place = step s.place }

  unfoldable pub steps : ℕ → State V → State V
  unfolding next
  steps zero s = s
  steps (suc n) s = steps n (next s)

  unfoldable pub fail : State V → State V
  fail s = record s { error = true }

  unfoldable pub calc_fail : State V → State V
  calc_fail s = record s { calc_error = true }

  -- `if (*ip > p->alen) error = true`
  unfoldable pub check_end : State V → State V
  unfolding fail
  check_end s = if ltb s.alen (length s.place.0) then fail s else s

  unfoldable pub rem_blanks : State V → State V
  unfolding check_end skip_spaces
  rem_blanks s = check_end (record s { place = skip_spaces s.place.0 s.place.1 })

  -- `if (p->form[*ip] == c) ++(*ip); else error = true;`
  unfoldable pub take_char : ℕ → State V → State V
  unfolding char_at next fail
  take_char c s = if char_at s == c then next s else fail s

  unfoldable pub eat_char : ℕ → State V → State V
  unfolding take_char rem_blanks
  eat_char c s = take_char c (rem_blanks s)

  unfoldable pub take_word : List ℕ → State V → State V
  unfolding starts_with steps fail
  take_word w s = if starts_with w s.place.1 then steps (length w) s else fail s

  -- `eat_then` and `eat_else`, on `@THEN` and `@ELSE`
  unfoldable pub eat_word : List ℕ → State V → State V
  unfolding take_word rem_blanks
  eat_word w s = take_word w (rem_blanks s)

  unfoldable pub get_log : State V → ℕ × State V
  unfolding rem_blanks log_code steps fail
  get_log s =
      let t = rem_blanks s in
      let (op, n) = log_code t.place.1 in (op, if op == 0 then fail t else steps n t)

  -- `get_xy` on the state
  unfoldable pub get_xy_of : Option Edit → State V → (ℕ × ℕ) × State V
  unfolding get_xy
  get_xy_of e s =
      let (n, now) = get_xy e s.alen s.place in
      ((n.row, n.col), record s { place = now.0; alen = now.1 })

  -- `get_range`: the two corners, or none where one is outside the sheet.
  unfoldable pub get_range : Option Edit → State V → Option ((ℕ × ℕ) × (ℕ × ℕ)) × State V
  unfolding get_xy_of eat_char
  get_range e s =
      let (from, t) = get_xy_of e s in
      let (to, u) = get_xy_of e (eat_char 58 t) in
      (
        if leb from.0 255 && leb from.1 255 && leb to.0 255 && leb to.1 255
            then some (from, to)
            else none,
        u,
      )
