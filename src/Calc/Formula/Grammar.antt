-- ===== src/Calc/Formula/Grammar.antt =====
-- The arithmetic formulas that calc/c/calc.c evaluates, as trees: their text, their value, and the
-- fuel that their evaluation takes. A text is written in front of what follows it.
use rsx.Base.{
  Bool, List, [], false, if◌then◌else◌, ltb, none, some, true, ℕ, ◌&&◌, ◌++◌, ◌+◌, ◌<◌, ◌==◌, ◌||◌,
  ◌∷◌, ◌≡◌,
}
use rsx.Calc.{Cell, Real, turned_onto}
use rsx.Calc.Formula.{get_point}
use rsx.Calc.Names.{is_digit, reference}

unfoldable pub all_digits : List ℕ → Bool
unfolding is_digit
all_digits [] = true
all_digits (c ∷ cs) = is_digit c && all_digits cs

unfoldable pub after_whole : List ℕ → Bool
unfolding is_digit all_digits
after_whole [] = true
after_whole (c ∷ cs) =
    let more = after_whole cs in if c == 46 then all_digits cs else is_digit c && more

-- A digit, more of them, and maybe a point with digits behind it.
unfoldable pub is_numeral : List ℕ → Bool
unfolding is_digit after_whole
is_numeral [] = false
is_numeral (c ∷ cs) = is_digit c && after_whole cs

mutual
  -- What stands between operators: `12.5`, `$A1`, `-A1`, and a formula in parentheses.
  pub data Variable : Type 0 where
    number : (t : List ℕ) → is_numeral t ≡ true → Variable
    cell : (minus ac ar : Bool) (r c : ℕ) → r < 256 → c < 256 → Variable
    parenthesis : Variable → Powers → Factors → Terms → Variable

  -- `^a^b`
  pub data Powers : Type 0 where
    no_power : Powers
    to_the : Variable → Powers → Powers

  -- `*a^b/c`
  pub data Factors : Type 0 where
    no_factor : Factors
    times : Variable → Powers → Factors → Factors
    over : Variable → Powers → Factors → Factors

  -- `+a*b-c`
  pub data Terms : Type 0 where
    no_term : Terms
    plus : Variable → Powers → Factors → Terms → Terms
    minus_term : Variable → Powers → Factors → Terms → Terms

unfoldable pub sign : Bool → List ℕ → List ℕ
sign true rest = 45 ∷ rest
sign false rest = rest

unfoldable mutual
  unfolding sign reference

  pub variable_text : Variable → List ℕ → List ℕ
  variable_text (number t h) rest = t ++ rest
  variable_text (cell m ac ar r c h k) rest = sign m (reference ac ar r c ++ rest)
  variable_text (parenthesis v ps fs ts) rest =
      40 ∷ variable_text v (powers_text ps (factors_text fs (terms_text ts (41 ∷ rest))))

  pub powers_text : Powers → List ℕ → List ℕ
  powers_text no_power rest = rest
  powers_text (to_the v ps) rest = 94 ∷ variable_text v (powers_text ps rest)

  pub factors_text : Factors → List ℕ → List ℕ
  factors_text no_factor rest = rest
  factors_text (times v ps fs) rest = 42 ∷ variable_text v (powers_text ps (factors_text fs rest))
  factors_text (over v ps fs) rest = 47 ∷ variable_text v (powers_text ps (factors_text fs rest))

  pub terms_text : Terms → List ℕ → List ℕ
  terms_text no_term rest = rest
  terms_text (plus v ps fs ts) rest =
      43 ∷ variable_text v (powers_text ps (factors_text fs (terms_text ts rest)))
  terms_text (minus_term v ps fs ts) rest =
      45 ∷ variable_text v (powers_text ps (factors_text fs (terms_text ts rest)))

-- The text that has been read, turned, in front of what was read before.
unfoldable mutual
  unfolding sign reference turned_onto

  pub past_variable : Variable → List ℕ → List ℕ
  past_variable (number t h) b = turned_onto t b
  past_variable (cell m ac ar r c h k) b = turned_onto (reference ac ar r c) (sign m b)
  past_variable (parenthesis v ps fs ts) b =
      41 ∷ past_terms ts (past_factors fs (past_powers ps (past_variable v (40 ∷ b))))

  pub past_powers : Powers → List ℕ → List ℕ
  past_powers no_power b = b
  past_powers (to_the v ps) b = past_powers ps (past_variable v (94 ∷ b))

  pub past_factors : Factors → List ℕ → List ℕ
  past_factors no_factor b = b
  past_factors (times v ps fs) b = past_factors fs (past_powers ps (past_variable v (42 ∷ b)))
  past_factors (over v ps fs) b = past_factors fs (past_powers ps (past_variable v (47 ∷ b)))

  pub past_terms : Terms → List ℕ → List ℕ
  past_terms no_term b = b
  past_terms (plus v ps fs ts) b =
      past_terms ts (past_factors fs (past_powers ps (past_variable v (43 ∷ b))))
  past_terms (minus_term v ps fs ts) b =
      past_terms ts (past_factors fs (past_powers ps (past_variable v (45 ∷ b))))

unfoldable mutual
  pub variable_fuel : Variable → ℕ
  variable_fuel (number t h) = 1
  variable_fuel (cell m ac ar r c h k) = 4
  variable_fuel (parenthesis v ps fs ts) =
      5 + variable_fuel v + powers_fuel ps + factors_fuel fs + terms_fuel ts

  pub powers_fuel : Powers → ℕ
  powers_fuel no_power = 1
  powers_fuel (to_the v ps) = 1 + variable_fuel v + powers_fuel ps

  pub factors_fuel : Factors → ℕ
  factors_fuel no_factor = 1
  factors_fuel (times v ps fs) = 2 + variable_fuel v + powers_fuel ps + factors_fuel fs
  factors_fuel (over v ps fs) = 2 + variable_fuel v + powers_fuel ps + factors_fuel fs

  pub terms_fuel : Terms → ℕ
  terms_fuel no_term = 1
  terms_fuel (plus v ps fs ts) =
      3 + variable_fuel v + powers_fuel ps + factors_fuel fs + terms_fuel ts
  terms_fuel (minus_term v ps fs ts) =
      3 + variable_fuel v + powers_fuel ps + factors_fuel fs + terms_fuel ts

-- The value of a formula: the usual one, by the rank of the operators, from the left. The flag says
-- that it has none: a reference to a cell that has no value, a division by 0, a power of a number
-- that is not positive. The number beside it is then the one without that operation.
module _ {V : Type 0} (real : Real V) (cells : List (Cell V)) where
  unfoldable pub cell_value : ℕ → ℕ → Bool → V × Bool
  cell_value r c failed = elim (get_point cells r c) [
    | none ↦ (real.of_int 0, true)
    | some p ↦ if p.flag == 65 || ltb 1 p.ready then (real.of_int 0, true) else (p.value, failed)
  ]

  unfoldable pub power_value : V → V × Bool → V × Bool
  power_value a (b, failed) =
      if real.less (real.of_int 0) a
      then (real.exp (real.mul b (real.log a)), failed)
      else (a, true)

  unfoldable pub quotient : V → V × Bool → V × Bool
  quotient a (b, failed) =
      if real.equal b (real.of_int 0) then (a, true) else (real.div a b, failed)

  unfoldable pub negated : Bool → V × Bool → V × Bool
  negated m (a, failed) = (if m then real.neg a else a, failed)

  unfoldable mutual
    pub variable_value : Variable → Bool → V × Bool
    variable_value (number t h) failed = ((real.strtod t).0, failed)
    variable_value (cell m ac ar r c h k) failed = negated m (cell_value r c failed)
    variable_value (parenthesis v ps fs ts) failed =
        terms_value ts (factors_value fs (powers_value ps (variable_value v failed)))

    pub powers_value : Powers → V × Bool → V × Bool
    powers_value no_power a = a
    powers_value (to_the v ps) a = powers_value ps (power_value a.0 (variable_value v a.1))

    pub factors_value : Factors → V × Bool → V × Bool
    factors_value no_factor a = a
    factors_value (times v ps fs) a =
        let b = powers_value ps (variable_value v a.1) in factors_value fs (real.mul a.0 b.0, b.1)
    factors_value (over v ps fs) a =
        factors_value fs (quotient a.0 (powers_value ps (variable_value v a.1)))

    pub terms_value : Terms → V × Bool → V × Bool
    terms_value no_term a = a
    terms_value (plus v ps fs ts) a =
        let b = factors_value fs (powers_value ps (variable_value v a.1)) in
        terms_value ts (real.add a.0 b.0, b.1)
    terms_value (minus_term v ps fs ts) a =
        let b = factors_value fs (powers_value ps (variable_value v a.1)) in
        terms_value ts (real.sub a.0 b.0, b.1)

-- A formula: a first variable, and what follows it.
pub record Sum : Type 0 where
  pub first : Variable
  pub powers : Powers
  pub factors : Factors
  pub terms : Terms

unfoldable pub sum_text : Sum → List ℕ → List ℕ
unfolding variable_text
sum_text e rest =
    variable_text e.first (powers_text e.powers (factors_text e.factors (terms_text e.terms rest)))

unfoldable pub past_sum : Sum → List ℕ → List ℕ
unfolding past_variable
past_sum e b =
    past_terms e.terms (past_factors e.factors (past_powers e.powers (past_variable e.first b)))

unfoldable pub sum_fuel : Sum → ℕ
unfolding variable_fuel
sum_fuel e =
    4 + variable_fuel e.first + powers_fuel e.powers + factors_fuel e.factors + terms_fuel e.terms

unfoldable pub sum_value : {V : Type 0} (real : Real V) → List (Cell V) → Sum → Bool → V × Bool
unfolding variable_value
sum_value real cells e failed = terms_value real cells e.terms (
    factors_value real cells e.factors
      (powers_value real cells e.powers (variable_value real cells e.first failed)))
