-- ===== src/Calc/Formula/Lengths.antt =====
-- The lengths of the texts of formulas in calc/c/calc.c: what has been read and what is left are
-- together as long as before.
use rsx.Base.{Bool, List, arith, false, length, length-append, refl, true, ℕ, ◌++◌, ◌+◌, ◌∷◌, ◌≡◌}
use rsx.Calc.Formula.Grammar.{
  Factors, Powers, Terms, Variable, cell, factors_text, minus_term, no_factor, no_power, no_term,
  number, over, parenthesis, past_factors, past_powers, past_terms, past_variable, plus,
  powers_text, sign, terms_text, times, to_the, variable_text,
}
use rsx.Calc.Names.{reference}
use rsx.Calc.Names.Shifting.{length-turned_onto}

sign-length :
    (m : Bool) (b s : List ℕ) → length (sign m b) + length s ≡ length b + length (sign m s)
unfolding sign
sign-length true b s = omega arith
sign-length false b s = refl

mutual
  unfolding variable_text past_variable

  pub past_variable-length :
      (v : Variable) (b rest : List ℕ)
      → length (past_variable v b) + length rest ≡ length b + length (variable_text v rest)
  past_variable-length (number t h) b rest =
      omega (arith, length-turned_onto t b, length-append t rest)
  past_variable-length (cell m ac ar r c h k) b rest = omega (
    arith,
    length-turned_onto (reference ac ar r c) (sign m b),
    length-append (reference ac ar r c) rest,
    sign-length m b (reference ac ar r c ++ rest),
  )
  past_variable-length (parenthesis v ps fs ts) b rest = omega (
    arith,
    past_terms-length ts (past_factors fs (past_powers ps (past_variable v (40 ∷ b)))) (41 ∷ rest),
    past_factors-length fs (past_powers ps (past_variable v (40 ∷ b))) (terms_text ts (41 ∷ rest)),
    past_powers-length ps (past_variable v (40 ∷ b)) (factors_text fs (terms_text ts (41 ∷ rest))),
    past_variable-length v (40 ∷ b) (powers_text ps (factors_text fs (terms_text ts (41 ∷ rest)))),
  )

  pub past_powers-length :
      (ps : Powers) (b rest : List ℕ)
      → length (past_powers ps b) + length rest ≡ length b + length (powers_text ps rest)
  past_powers-length no_power b rest = refl
  past_powers-length (to_the v ps) b rest = omega (
    arith,
    past_powers-length ps (past_variable v (94 ∷ b)) rest,
    past_variable-length v (94 ∷ b) (powers_text ps rest),
  )

  pub past_factors-length :
      (fs : Factors) (b rest : List ℕ)
      → length (past_factors fs b) + length rest ≡ length b + length (factors_text fs rest)
  past_factors-length no_factor b rest = refl
  past_factors-length (times v ps fs) b rest = omega (
    arith,
    past_factors-length fs (past_powers ps (past_variable v (42 ∷ b))) rest,
    past_powers-length ps (past_variable v (42 ∷ b)) (factors_text fs rest),
    past_variable-length v (42 ∷ b) (powers_text ps (factors_text fs rest)),
  )
  past_factors-length (over v ps fs) b rest = omega (
    arith,
    past_factors-length fs (past_powers ps (past_variable v (47 ∷ b))) rest,
    past_powers-length ps (past_variable v (47 ∷ b)) (factors_text fs rest),
    past_variable-length v (47 ∷ b) (powers_text ps (factors_text fs rest)),
  )

  pub past_terms-length :
      (ts : Terms) (b rest : List ℕ)
      → length (past_terms ts b) + length rest ≡ length b + length (terms_text ts rest)
  past_terms-length no_term b rest = refl
  past_terms-length (plus v ps fs ts) b rest = omega (
    arith,
    past_terms-length ts (past_factors fs (past_powers ps (past_variable v (43 ∷ b)))) rest,
    past_factors-length fs (past_powers ps (past_variable v (43 ∷ b))) (terms_text ts rest),
    past_powers-length ps (past_variable v (43 ∷ b)) (factors_text fs (terms_text ts rest)),
    past_variable-length v (43 ∷ b) (powers_text ps (factors_text fs (terms_text ts rest))),
  )
  past_terms-length (minus_term v ps fs ts) b rest = omega (
    arith,
    past_terms-length ts (past_factors fs (past_powers ps (past_variable v (45 ∷ b)))) rest,
    past_factors-length fs (past_powers ps (past_variable v (45 ∷ b))) (terms_text ts rest),
    past_powers-length ps (past_variable v (45 ∷ b)) (factors_text fs (terms_text ts rest)),
    past_variable-length v (45 ∷ b) (powers_text ps (factors_text fs (terms_text ts rest))),
  )
