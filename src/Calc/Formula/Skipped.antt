-- ===== src/Calc/Formula/Skipped.antt =====
-- `&&` and `||` in the loop of `logical` in calc/c/calc.c.
-- If the comparison in front of an & is false, logical does not read the one behind it: it is done
-- with the text at the second comparison, unless another & or | follows at once, and the eat_then of
-- an @IF then finds no @THEN there. The same holds of a | behind a comparison that is true.
use rsx.Base.{Bool, Option, false, if◌then◌else◌, some, suc, true, ℕ, ◌==◌, ◌≡◌}
use rsx.Calc.{Real}
use rsx.Calc.Formula.{State, char_at, next, rem_blanks}
use rsx.Calc.Formula.Parse.{logical, what}
use rsx.Calc.Names.{Edit}

pub logical-skips :
    {V : Type 0} (real : Real V) (e : Option Edit) (f : ℕ) (holds : Bool) (s t : State V)
    → what real e (suc (suc f)) s ≡ some (holds, t)
    → char_at (rem_blanks t) ≡ (if holds then 124 else 38)
    → (char_at (rem_blanks (next (rem_blanks t))) == 38) ≡ false
    → (char_at (rem_blanks (next (rem_blanks t))) == 124) ≡ false
    → logical real e (suc (suc (suc f))) s ≡ some (holds, rem_blanks (next (rem_blanks t)))
unfolding logical
logical-skips real e f true s t run op no_and no_or = rw (run, op, no_and, no_or)
logical-skips real e f false s t run op no_and no_or = rw (run, op, no_and, no_or)
