-- ===== src/Calc.antt =====
-- calc/c/calc.c, the spreadsheet FreeCalc: the cells, the state of an evaluation, and the numbers.
pub mod Names
pub mod Text
pub mod Functions
pub mod Formula
pub mod Cursor
pub mod Cells
pub mod Rows
use rsx.Base.{Bool, List, [], ℕ, ◌∷◌}

-- `struct cell` without its link: `form` is the text up to its NUL, `value` a double.
pub record Cell (V : Type 0) : Type 0 where
  pub row : ℕ
  pub col : ℕ
  pub flag : ℕ
  pub ready : ℕ
  pub value : V
  pub align : ℕ
  pub prec : ℕ
  pub alen : ℕ
  pub form : List ℕ

-- What the code uses of the doubles and of math.h, and `strtod` with the number of characters it
-- reads.
pub record Real (V : Type 0) : Type 0 where
  pub of_int : ℕ → V
  pub pi : V
  pub neg : V → V
  pub add : V → V → V
  pub sub : V → V → V
  pub mul : V → V → V
  pub div : V → V → V
  pub equal : V → V → Bool
  pub less : V → V → Bool
  pub less_eq : V → V → Bool
  pub trunc : V → V
  pub round : V → V
  pub sqrt : V → V
  pub exp : V → V
  pub log : V → V
  pub sin : V → V
  pub cos : V → V
  pub tan : V → V
  pub atan : V → V
  pub strtod : List ℕ → V × ℕ

-- A text and the index in it: the characters before `*ip`, the last one first, and the others.
abbrev pub Place : Type 0
Place = List ℕ × List ℕ

-- `p->form[*ip]`
unfoldable pub this_char : List ℕ → ℕ
this_char [] = 0
this_char (c ∷ cs) = c

-- `++(*ip)`
unfoldable pub step : Place → Place
step (b, []) = (b, [])
step (b, c ∷ cs) = (c ∷ b, cs)

-- The first list, turned, in front of the second.
unfoldable pub turned_onto : List ℕ → List ℕ → List ℕ
turned_onto [] b = b
turned_onto (c ∷ cs) b = turned_onto cs (c ∷ b)
