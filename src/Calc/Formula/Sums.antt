-- ===== src/Calc/Formula/Sums.antt =====
-- The functions of calc/c/calc.c read the text of a formula and give its value.
use rsx.Base.{
  ==_refl, Bool, List, arith, false, length, none, refl, some, suc, true, zero, ℕ, ◌++◌, ◌+◌, ◌<◌,
  ◌==◌, ◌∷◌, ◌≡◌, ◌≤◌,
}
use rsx.Calc.{Cell, Real, step, this_char}
use rsx.Calc.Formula.{State, char_at, eat_char, next, take_char}
use rsx.Calc.Formula.Ends.{
  IsCalculated, ReadsNumerals, closing, digit-plain, ends-no_digit, ends_sum, nonempty,
  numeral-first, variable_text-starts,
}
use rsx.Calc.Formula.Evaluates.{get_constant-state, number-is_constant, variable-cell}
use rsx.Calc.Formula.Grammar.{
  Factors, Powers, Sum, Terms, Variable, cell, factors_text, factors_value, is_numeral, minus_term,
  no_factor, no_power, no_term, number, over, parenthesis, past_factors, past_powers, past_sum,
  past_terms, past_variable, plus, powers_text, powers_value, sum_fuel, sum_text, sum_value,
  terms_text, terms_value, times, to_the, variable_fuel, variable_text, variable_value,
}
use rsx.Calc.Formula.Lengths.{
  past_factors-length, past_powers-length, past_terms-length, past_variable-length,
}
use rsx.Calc.Formula.Parse.{formula, variable}
use rsx.Calc.Formula.Products.{
  blank, no_factor-state, no_power-state, over-state, times-state, to_the-state,
}
use rsx.Calc.Formula.Terms.{
  FactorsRead, PowersRead, TermsRead, Variables, formula-state, here, minus_term-state,
  no_term-state, plus-state,
}
use rsx.Calc.Names.{is_digit}
use rsx.Calc.Text.{is_constant}

module _ {V : Type 0} (real : Real V) (alen : ℕ) (cells : List (Cell V)) (error : Bool)
    (strtod : ReadsNumerals real) (calculated : IsCalculated cells) where
  abbrev place_at : List ℕ → List ℕ → Bool → State V
  place_at = here real alen cells error strtod calculated

  abbrev ReadVariable : Variable → Type 0
  ReadVariable = Variables real alen cells error strtod calculated

  abbrev ReadPowers : Powers → Type 0
  ReadPowers = PowersRead real alen cells error strtod calculated

  abbrev ReadFactors : Factors → Type 0
  ReadFactors = FactorsRead real alen cells error strtod calculated

  abbrev ReadTerms : Terms → Type 0
  ReadTerms = TermsRead real alen cells error strtod calculated

  eat_char-place_at :
      (c : ℕ) (b rest : List ℕ) (failed : Bool)
      → length b ≤ alen
      → (c == 32) ≡ false
      → eat_char c (place_at b (c ∷ rest) failed) ≡ place_at (c ∷ b) rest failed
  unfolding eat_char take_char char_at next step this_char
  eat_char-place_at c b rest failed fits h =
      rw (blank real alen cells error strtod calculated b (c ∷ rest) failed fits h, ==_refl c)

  number-state : (t : List ℕ) (n : is_numeral t ≡ true) → ReadVariable (number t n)
  unfolding variable variable_text past_variable variable_value variable_fuel
  number-state t n zero b rest failed e h fits = absurd (omega arith)
  number-state t n (suc f) b rest failed e h fits =
      let (_, _, _, unblank) = digit-plain _ (numeral-first t rest n) in
      rw (
        blank real alen cells error strtod calculated b (t ++ rest) failed (omega arith) unblank,
        number-is_constant real alen cells error strtod calculated t rest (numeral-first t rest n),
        get_constant-state real alen cells error strtod calculated t b rest failed n h (omega arith)
            unblank,
      )

  cell-state :
      (m ac ar : Bool) (r c : ℕ) (h : r < 256) (k : c < 256) → ReadVariable (cell m ac ar r c h k)
  unfolding variable_text past_variable variable_value variable_fuel
  cell-state m ac ar r c h k f b rest failed e ends fits =
      variable-cell real alen cells error strtod calculated f m ac ar r c b rest failed e h k
        (omega (arith, nonempty _ (variable_text-starts (cell m ac ar r c h k) rest)))
        (ends-no_digit _ ends)

  parenthesis-state :
      (v : Variable) (ps : Powers) (fs : Factors) (ts : Terms)
      → ReadVariable v
      → ReadPowers ps
      → ReadFactors fs
      → ReadTerms ts
      → ReadVariable (parenthesis v ps fs ts)
  unfolding variable variable_text past_variable variable_value variable_fuel is_constant is_digit
      char_at next step this_char
  parenthesis-state v ps fs ts hv hp hf ht zero b rest failed e h fits = absurd (omega arith)
  parenthesis-state v ps fs ts hv hp hf ht (suc f) b rest failed e h fits =
      let text = variable_text v (powers_text ps (factors_text fs (terms_text ts (41 ∷ rest)))) in
      let long =
        past_variable-length v (40 ∷ b)
          (powers_text ps (factors_text fs (terms_text ts (41 ∷ rest)))) in
      let longer =
        past_powers-length ps (past_variable v (40 ∷ b))
          (factors_text fs (terms_text ts (41 ∷ rest))) in
      let longest =
        past_factors-length fs (past_powers ps (past_variable v (40 ∷ b)))
          (terms_text ts (41 ∷ rest)) in
      let whole =
        past_terms-length ts (past_factors fs (past_powers ps (past_variable v (40 ∷ b))))
          (41 ∷ rest) in
      rw (
        blank real alen cells error strtod calculated b (40 ∷ text) failed (omega arith) refl,
        formula-state real alen cells error strtod calculated v ps fs ts hv hp hf ht f (40 ∷ b)
            (41 ∷ rest) failed (omega arith) closing (omega arith),
        eat_char-place_at 41
            (past_terms ts (past_factors fs (past_powers ps (past_variable v (40 ∷ b))))) rest
            (terms_value real cells ts (
              factors_value real cells fs
                (powers_value real cells ps (variable_value real cells v failed)))).1
            (omega (arith, long, longer, longest, whole)) refl,
      )

  mutual
    variable-Reads : (v : Variable) → ReadVariable v
    variable-Reads (number t n) = number-state t n
    variable-Reads (cell m ac ar r c h k) = cell-state m ac ar r c h k
    variable-Reads (parenthesis v ps fs ts) =
        parenthesis-state v ps fs ts (variable-Reads v) (powers-Reads ps) (factors-Reads fs)
          (terms-Reads ts)

    powers-Reads : (ps : Powers) → ReadPowers ps
    powers-Reads no_power = no_power-state real alen cells error strtod calculated
    powers-Reads (to_the v ps) =
        to_the-state real alen cells error strtod calculated v ps (variable-Reads v)
          (powers-Reads ps)

    factors-Reads : (fs : Factors) → ReadFactors fs
    factors-Reads no_factor = no_factor-state real alen cells error strtod calculated
    factors-Reads (times v ps fs) =
        times-state real alen cells error strtod calculated v ps fs (variable-Reads v)
          (powers-Reads ps) (factors-Reads fs)
    factors-Reads (over v ps fs) =
        over-state real alen cells error strtod calculated v ps fs (variable-Reads v)
          (powers-Reads ps) (factors-Reads fs)

    terms-Reads : (ts : Terms) → ReadTerms ts
    terms-Reads no_term = no_term-state real alen cells error strtod calculated
    terms-Reads (plus v ps fs ts) =
        plus-state real alen cells error strtod calculated v ps fs ts (variable-Reads v)
          (powers-Reads ps) (factors-Reads fs) (terms-Reads ts)
    terms-Reads (minus_term v ps fs ts) =
        minus_term-state real alen cells error strtod calculated v ps fs ts (variable-Reads v)
          (powers-Reads ps) (factors-Reads fs) (terms-Reads ts)

-- If every cell of the sheet that is no text has been evaluated, and the text of an arithmetic
-- formula stands at the place, within the length of the cell's text and followed by a character
-- that cannot go on a formula, then formula with enough fuel gives the usual value of the
-- formula, by the rank of the operators, from the left, with the values of the cells. It leaves
-- the place behind the text, the cells and the flag of a wrong text as they are, and sets the
-- flag calc_error just if a cell has no value, a divisor is 0, or the base of a power is not
-- positive. strtod is to read the longest numeral.
pub formula-sum_value :
    {V : Type 0} (real : Real V) (alen : ℕ) (cells : List (Cell V)) (error failed : Bool)
    → ReadsNumerals real
    → IsCalculated cells
    → (e : Sum) (f : ℕ) (b rest : List ℕ) → sum_fuel e ≤ f
    → ends_sum (this_char rest) ≡ true
    → length b + length (sum_text e rest) ≤ alen
    → formula real none f (record {
      place = (b, sum_text e rest);
      alen = alen;
      cells = cells;
      error = error;
      calc_error = failed;
    })
      ≡ some (
        (sum_value real cells e failed).0,
        record {
          place = (past_sum e b, rest);
          alen = alen;
          cells = cells;
          error = error;
          calc_error = (sum_value real cells e failed).1;
        },
      )
unfolding sum_text past_sum sum_value sum_fuel
formula-sum_value real alen cells error failed strtod calculated e f b rest n h fits =
    formula-state real alen cells error strtod calculated e.first e.powers e.factors e.terms
      (variable-Reads real alen cells error strtod calculated e.first)
      (powers-Reads real alen cells error strtod calculated e.powers)
      (factors-Reads real alen cells error strtod calculated e.factors)
      (terms-Reads real alen cells error strtod calculated e.terms) f b rest failed n h fits
