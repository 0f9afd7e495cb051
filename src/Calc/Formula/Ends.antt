-- ===== src/Calc/Formula/Ends.antt =====
-- The characters that a formula of calc/c/calc.c and its parts begin and end with.
-- A character that cannot go on a number or a name, and is no blank.
use rsx.Base.{
  Bool, List, [], append_assoc, arith, false, leb, length, not, refl, some, true, ℕ, ◌&&◌, ◌++◌,
  ◌+◌, ◌<◌, ◌==◌, ◌||◌, ◌∷◌, ◌≡◌,
}
use rsx.Calc.{Cell, Real, this_char}
use rsx.Calc.Formula.{get_point}
use rsx.Calc.Formula.Grammar.{
  Factors, Powers, Terms, Variable, after_whole, cell, factors_text, is_numeral, minus_term,
  no_factor, no_power, no_term, number, over, parenthesis, plus, powers_text, terms_text, times,
  to_the, variable_text,
}
use rsx.Calc.Names.{column_letters, dollar, is_digit, is_letter, reference, row_digits}
use rsx.Calc.Names.Reading.{column_letters-first}
use rsx.Calc.Text.{starts_with}

unfoldable pub ends_variable : ℕ → Bool
unfolding is_letter is_digit
ends_variable c = not (is_letter c || is_digit c || (leb 97 c && leb c 122) || c == 46 || c == 32)

unfoldable pub ends_powers : ℕ → Bool
unfolding ends_variable
ends_powers c = ends_variable c && not (c == 94)

unfoldable pub ends_factors : ℕ → Bool
unfolding ends_powers
ends_factors c = ends_powers c && not (c == 42) && not (c == 47)

-- A character that cannot go on a formula.
unfoldable pub ends_sum : ℕ → Bool
unfolding ends_factors
ends_sum c = ends_factors c && not (c == 43) && not (c == 45)

-- `strtod`, as documented: it reads the longest numeral at the start of the text.
abbrev pub ReadsNumerals : {V : Type 0} → Real V → Type 0
ReadsNumerals real =
    (t rest : List ℕ)
    → is_numeral t ≡ true
    → ends_variable (this_char rest) ≡ true
    → real.strtod (t ++ rest) ≡ ((real.strtod t).0, length t)

-- Every formula of the sheet, a cell that is no text, has been evaluated.
abbrev pub IsCalculated : {V : Type 0} → List (Cell V) → Type 0
IsCalculated {V = V} cells =
    (r c : ℕ) (p : Cell V)
    → get_point cells r c ≡ some p
    → (p.flag == 65) ≡ false
    → (p.ready == 0) ≡ false

pub factors-end : (c : ℕ) → ends_sum c ≡ true → ends_factors c ≡ true
unfolding ends_sum
factors-end c h = ground arith

pub powers-end : (c : ℕ) → ends_factors c ≡ true → ends_powers c ≡ true
unfolding ends_factors
powers-end c h = ground arith

pub variable-end : (c : ℕ) → ends_powers c ≡ true → ends_variable c ≡ true
unfolding ends_powers
variable-end c h = ground arith

pub no_blank : (c : ℕ) → ends_variable c ≡ true → (c == 32) ≡ false
unfolding ends_variable
no_blank c h = ground arith

pub no_caret : (c : ℕ) → ends_powers c ≡ true → (c == 94) ≡ false
unfolding ends_powers
no_caret c h = ground arith

pub no_operator : (c : ℕ) → ends_factors c ≡ true → ((c == 42) ≡ false) × ((c == 47) ≡ false)
unfolding ends_factors
no_operator c h = ground arith

pub no_sign : (c : ℕ) → ends_sum c ≡ true → ((c == 43) ≡ false) × ((c == 45) ≡ false)
unfolding ends_sum
no_sign c h = ground arith

-- What follows a part of a formula ends it.
pub powers_text-ends :
    (ps : Powers) (rest : List ℕ)
    → ends_variable (this_char rest) ≡ true
    → ends_variable (this_char (powers_text ps rest)) ≡ true
unfolding powers_text this_char ends_variable
powers_text-ends no_power rest h = h
powers_text-ends (to_the v ps) rest h = refl

pub factors_text-ends :
    (fs : Factors) (rest : List ℕ)
    → ends_powers (this_char rest) ≡ true
    → ends_powers (this_char (factors_text fs rest)) ≡ true
unfolding factors_text this_char ends_powers
factors_text-ends no_factor rest h = h
factors_text-ends (times v ps fs) rest h = refl
factors_text-ends (over v ps fs) rest h = refl

pub terms_text-ends :
    (ts : Terms) (rest : List ℕ)
    → ends_factors (this_char rest) ≡ true
    → ends_factors (this_char (terms_text ts rest)) ≡ true
unfolding terms_text this_char ends_factors
terms_text-ends no_term rest h = h
terms_text-ends (plus v ps fs ts) rest h = refl
terms_text-ends (minus_term v ps fs ts) rest h = refl

-- The first character of a variable: a digit, a letter, or one of `$`, `(` and `-`.
unfoldable pub starts_variable : ℕ → Bool
unfolding is_digit is_letter
starts_variable c = is_digit c || (is_letter c || (c == 36 || (c == 40 || c == 45)))

pub starts-no_blank : (c : ℕ) → starts_variable c ≡ true → (c == 32) ≡ false
unfolding starts_variable
starts-no_blank c h = ground arith

pub starts-no_function : (c : ℕ) → starts_variable c ≡ true → (64 == c) ≡ false
unfolding starts_variable
starts-no_function c h = ground arith

digit-starts : (c : ℕ) → is_digit c ≡ true → starts_variable c ≡ true
unfolding starts_variable
digit-starts c h = ground arith

letter-starts : (c : ℕ) → is_letter c ≡ true → starts_variable c ≡ true
unfolding starts_variable
letter-starts c h = ground arith

-- A reference begins with `$` or a letter.
pub reference-first :
    (ac ar : Bool) (r c : ℕ) (rest : List ℕ)
    → c < 256
    → (is_letter (this_char (reference ac ar r c ++ rest))
        || this_char (reference ac ar r c ++ rest) == 36)
      ≡ true
unfolding reference dollar this_char is_letter
reference-first true ar r c rest h = refl
reference-first false ar r c rest h = rw (
  append_assoc (column_letters c) (dollar ar ++ row_digits (r + 1)) rest,
  column_letters-first c ((dollar ar ++ row_digits (r + 1)) ++ rest) h,
)

-- It is none of the other characters that the code looks for.
pub first-plain :
    (c : ℕ)
    → (is_letter c || c == 36) ≡ true
    → ((c == 43) ≡ false)
      × ((c == 45) ≡ false)
      × ((c == 64) ≡ false)
      × ((c == 40) ≡ false)
      × ((c == 46) ≡ false)
      × (is_digit c ≡ false)
      × ((c == 32) ≡ false)
unfolding is_letter is_digit
first-plain c h = ground arith

pub digit-plain :
    (c : ℕ)
    → is_digit c ≡ true
    → ((c == 43) ≡ false) × ((c == 45) ≡ false) × ((c == 46) ≡ false) × ((c == 32) ≡ false)
unfolding is_digit
digit-plain c h = ground arith

first-starts : (c : ℕ) → (is_letter c || c == 36) ≡ true → starts_variable c ≡ true
unfolding starts_variable
first-starts c h = ground arith

and_left : (a b : Bool) → (a && b) ≡ true → a ≡ true
and_left true b h = refl
and_left false b h = h

pub numeral-first :
    (t rest : List ℕ) → is_numeral t ≡ true → is_digit (this_char (t ++ rest)) ≡ true
unfolding is_numeral this_char
numeral-first [] rest h = cc h
numeral-first (c ∷ cs) rest h = and_left (is_digit c) (after_whole cs) h

pub variable_text-starts :
    (v : Variable) (rest : List ℕ) → starts_variable (this_char (variable_text v rest)) ≡ true
unfolding variable_text this_char starts_variable
variable_text-starts (number t h) rest =
    digit-starts (this_char (t ++ rest)) (numeral-first t rest h)
variable_text-starts (cell true ac ar r c h k) rest = refl
variable_text-starts (cell false ac ar r c h k) rest =
    first-starts (this_char (reference ac ar r c ++ rest)) (reference-first ac ar r c rest k)
variable_text-starts (parenthesis v ps fs ts) rest = refl

-- A text that does not begin with `@` is no condition.
pub not_if :
    (cs : List ℕ) → (64 == this_char cs) ≡ false → starts_with (b'@' ∷ b'I' ∷ b'F' ∷ []) cs ≡ false
unfolding starts_with this_char
not_if [] h = refl
not_if (c ∷ cs) h = rw h

pub nonempty : (cs : List ℕ) → starts_variable (this_char cs) ≡ true → 0 < length cs
unfolding starts_variable this_char is_digit is_letter
nonempty [] h = cc h
nonempty (c ∷ cs) h = omega arith

pub ends-no_digit : (c : ℕ) → ends_variable c ≡ true → is_digit c ≡ false
unfolding ends_variable is_digit
ends-no_digit c h = ground arith

-- A parenthesis ends the formula in it.
pub closing : ends_sum 41 ≡ true
unfolding ends_sum
closing = refl
