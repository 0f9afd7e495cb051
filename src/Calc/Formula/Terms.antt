-- ===== src/Calc/Formula/Terms.antt =====
-- The functions of calc/c/calc.c read sums, and `formula` what is no condition.
use rsx.Base.{Bool, List, arith, length, none, suc, true, zero, ℕ, ◌+◌, ◌∷◌, ◌≡◌, ◌≤◌}
use rsx.Calc.{Cell, Real, step, this_char}
use rsx.Calc.Formula.{State, char_at, next}
use rsx.Calc.Formula.Ends.{
  IsCalculated, ReadsNumerals, ends_factors, ends_sum, factors-end, no_sign, not_if,
  starts-no_blank, starts-no_function, terms_text-ends, variable_text-starts,
}
use rsx.Calc.Formula.Grammar.{
  Factors, Powers, Terms, Variable, factors_fuel, factors_text, factors_value, minus_term, no_term,
  past_factors, past_powers, past_terms, past_variable, plus, powers_fuel, powers_text,
  powers_value, terms_fuel, terms_text, terms_value, variable_fuel, variable_text, variable_value,
}
use rsx.Calc.Formula.Lengths.{past_factors-length, past_powers-length, past_variable-length}
use rsx.Calc.Formula.Parse.{formula, mul_div_pow, sum_loop}
use rsx.Calc.Formula.Products.{
  ReadsFactors, ReadsPowers, ReadsTerms, ReadsVariable, at, blank, product-state, read,
}

module _ {V : Type 0} (real : Real V) (alen : ℕ) (cells : List (Cell V)) (error : Bool)
    (strtod : ReadsNumerals real) (calculated : IsCalculated cells) where
  abbrev pub here : List ℕ → List ℕ → Bool → State V
  here b rest failed = at real alen cells error strtod calculated b rest failed

  abbrev pub Variables : Variable → Type 0
  Variables = ReadsVariable real alen cells error strtod calculated

  abbrev pub PowersRead : Powers → Type 0
  PowersRead = ReadsPowers real alen cells error strtod calculated

  abbrev pub FactorsRead : Factors → Type 0
  FactorsRead = ReadsFactors real alen cells error strtod calculated

  abbrev pub TermsRead : Terms → Type 0
  TermsRead = ReadsTerms real alen cells error strtod calculated

  product :
      (v : Variable) (ps : Powers) (fs : Factors) (f : ℕ) (b rest : List ℕ) (failed : Bool)
      → Variables v
      → PowersRead ps
      → FactorsRead fs
      → 2 + variable_fuel v + powers_fuel ps + factors_fuel fs ≤ f
      → ends_factors (this_char rest) ≡ true
      → length b + length (variable_text v (powers_text ps (factors_text fs rest))) ≤ alen
      → mul_div_pow real none f
          (here b (variable_text v (powers_text ps (factors_text fs rest))) failed)
        ≡ read real alen cells error strtod calculated
            (factors_value real cells fs
              (powers_value real cells ps (variable_value real cells v failed)))
            (past_factors fs (past_powers ps (past_variable v b)))
            rest
  product = product-state real alen cells error strtod calculated

  pub no_term-state : TermsRead no_term
  unfolding sum_loop terms_text terms_value past_terms terms_fuel char_at
  no_term-state zero a b rest n h fits = absurd (omega arith)
  no_term-state (suc f) a b rest n h fits =
      let (no_plus, no_minus) = no_sign _ h in rw (no_plus, no_minus)

  pub plus-state :
      (v : Variable) (ps : Powers) (fs : Factors) (ts : Terms)
      → Variables v
      → PowersRead ps
      → FactorsRead fs
      → TermsRead ts
      → TermsRead (plus v ps fs ts)
  unfolding sum_loop terms_text terms_value past_terms terms_fuel char_at next step this_char
  plus-state v ps fs ts hv hp hf ht zero a b rest n h fits = absurd (omega arith)
  plus-state v ps fs ts hv hp hf ht (suc f) a b rest n h fits =
      let ends = terms_text-ends ts rest (factors-end _ h) in
      let long =
        past_variable-length v (43 ∷ b) (powers_text ps (factors_text fs (terms_text ts rest))) in
      let longer =
        past_powers-length ps (past_variable v (43 ∷ b)) (factors_text fs (terms_text ts rest)) in
      let longest =
        past_factors-length fs (past_powers ps (past_variable v (43 ∷ b))) (terms_text ts rest) in
      let now =
        factors_value real cells fs
          (powers_value real cells ps (variable_value real cells v a.1)) in
      rw (
        product v ps fs f (43 ∷ b) (terms_text ts rest) a.1 hv hp hf (omega arith) ends
            (omega arith),
        ht f (real.add a.0 now.0, now.1)
            (past_factors fs (past_powers ps (past_variable v (43 ∷ b)))) rest (omega arith) h
            (omega (arith, long, longer, longest)),
      )

  pub minus_term-state :
      (v : Variable) (ps : Powers) (fs : Factors) (ts : Terms)
      → Variables v
      → PowersRead ps
      → FactorsRead fs
      → TermsRead ts
      → TermsRead (minus_term v ps fs ts)
  unfolding sum_loop terms_text terms_value past_terms terms_fuel char_at next step this_char
  minus_term-state v ps fs ts hv hp hf ht zero a b rest n h fits = absurd (omega arith)
  minus_term-state v ps fs ts hv hp hf ht (suc f) a b rest n h fits =
      let ends = terms_text-ends ts rest (factors-end _ h) in
      let long =
        past_variable-length v (45 ∷ b) (powers_text ps (factors_text fs (terms_text ts rest))) in
      let longer =
        past_powers-length ps (past_variable v (45 ∷ b)) (factors_text fs (terms_text ts rest)) in
      let longest =
        past_factors-length fs (past_powers ps (past_variable v (45 ∷ b))) (terms_text ts rest) in
      let now =
        factors_value real cells fs
          (powers_value real cells ps (variable_value real cells v a.1)) in
      rw (
        product v ps fs f (45 ∷ b) (terms_text ts rest) a.1 hv hp hf (omega arith) ends
            (omega arith),
        ht f (real.sub a.0 now.0, now.1)
            (past_factors fs (past_powers ps (past_variable v (45 ∷ b)))) rest (omega arith) h
            (omega (arith, long, longer, longest)),
      )

  -- `formula` on a formula that is no condition.
  pub formula-state :
      (v : Variable) (ps : Powers) (fs : Factors) (ts : Terms)
      → Variables v
      → PowersRead ps
      → FactorsRead fs
      → TermsRead ts
      → (f : ℕ) (b rest : List ℕ) (failed : Bool)
      → 4 + variable_fuel v + powers_fuel ps + factors_fuel fs + terms_fuel ts ≤ f
      → ends_sum (this_char rest) ≡ true
      → length b + length (variable_text v (powers_text ps (factors_text fs (terms_text ts rest))))
        ≤ alen
      → formula real none f
          (here b (variable_text v (powers_text ps (factors_text fs (terms_text ts rest)))) failed)
        ≡ read real alen cells error strtod calculated
            (terms_value real cells ts (
              factors_value real cells fs
                (powers_value real cells ps (variable_value real cells v failed))))
            (past_terms ts (past_factors fs (past_powers ps (past_variable v b))))
            rest
  unfolding formula
  formula-state v ps fs ts hv hp hf ht zero b rest failed n h fits = absurd (omega arith)
  formula-state v ps fs ts hv hp hf ht (suc zero) b rest failed n h fits = absurd (omega arith)
  formula-state v ps fs ts hv hp hf ht (suc (suc f)) b rest failed n h fits =
      let ends = terms_text-ends ts rest (factors-end _ h) in
      let first = variable_text-starts v (powers_text ps (factors_text fs (terms_text ts rest))) in
      let long = past_variable-length v b (powers_text ps (factors_text fs (terms_text ts rest))) in
      let longer =
        past_powers-length ps (past_variable v b) (factors_text fs (terms_text ts rest)) in
      let longest =
        past_factors-length fs (past_powers ps (past_variable v b)) (terms_text ts rest) in
      let now =
        factors_value real cells fs
          (powers_value real cells ps (variable_value real cells v failed)) in
      rw (
        blank real alen cells error strtod calculated b
            (variable_text v (powers_text ps (factors_text fs (terms_text ts rest)))) failed
            (omega arith) (starts-no_blank _ first),
        not_if (variable_text v (powers_text ps (factors_text fs (terms_text ts rest))))
            (starts-no_function _ first),
        product v ps fs f b (terms_text ts rest) failed hv hp hf (omega arith) ends fits,
        ht f now (past_factors fs (past_powers ps (past_variable v b))) rest (omega arith) h
            (omega (arith, long, longer, longest)),
      )
