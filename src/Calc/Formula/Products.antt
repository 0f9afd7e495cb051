-- ===== src/Calc/Formula/Products.antt =====
-- The functions of calc/c/calc.c read powers and products, and give their value.
use rsx.Base.{
  Bool, Bool-cases, List, arith, false, inl, inr, length, none, refl, some, suc, true, zero, ℕ, ◌+◌,
  ◌==◌, ◌∷◌, ◌≡◌, ◌≤◌,
}
use rsx.Calc.{Cell, Real, step, this_char}
use rsx.Calc.Formula.{State, calc_fail, char_at, next, rem_blanks}
use rsx.Calc.Formula.Ends.{
  IsCalculated, ReadsNumerals, ends_factors, ends_powers, ends_sum, ends_variable,
  factors_text-ends, no_blank, no_caret, no_operator, powers-end, powers_text-ends, variable-end,
}
use rsx.Calc.Formula.Evaluates.{rem_blanks-state, state}
use rsx.Calc.Formula.Grammar.{
  Factors, Powers, Terms, Variable, factors_fuel, factors_text, factors_value, no_factor, no_power,
  over, past_factors, past_powers, past_terms, past_variable, power_value, powers_fuel, powers_text,
  powers_value, quotient, terms_fuel, terms_text, terms_value, times, to_the, variable_fuel,
  variable_text, variable_value,
}
use rsx.Calc.Formula.Lengths.{past_powers-length, past_variable-length}
use rsx.Calc.Formula.Parse.{
  Outcome, divide, mul_div_pow, power, power_loop, product_loop, raise, sum_loop, variable,
}

module _ {V : Type 0} (real : Real V) (alen : ℕ) (cells : List (Cell V)) (error : Bool)
    (strtod : ReadsNumerals real) (calculated : IsCalculated cells) where
  abbrev pub at : List ℕ → List ℕ → Bool → State V
  at b rest failed = state real alen cells error strtod calculated b rest failed

  abbrev pub read : V × Bool → List ℕ → List ℕ → Outcome V V
  read (a, failed) b rest = some (a, at b rest failed)

  pub blank :
      (b rest : List ℕ) (failed : Bool)
      → length b ≤ alen
      → (this_char rest == 32) ≡ false
      → rem_blanks (at b rest failed) ≡ at b rest failed
  blank = rem_blanks-state real alen cells error strtod calculated

  -- With enough fuel, and a text that is within its length.
  abbrev pub ReadsVariable : Variable → Type 0
  ReadsVariable v =
      (f : ℕ) (b rest : List ℕ) (failed : Bool)
      → variable_fuel v ≤ f
      → ends_variable (this_char rest) ≡ true
      → length b + length (variable_text v rest) ≤ alen
      → variable real none f (at b (variable_text v rest) failed)
        ≡ read (variable_value real cells v failed) (past_variable v b) rest

  abbrev pub ReadsPowers : Powers → Type 0
  ReadsPowers ps =
      (f : ℕ) (a : V × Bool) (b rest : List ℕ)
      → powers_fuel ps ≤ f
      → ends_powers (this_char rest) ≡ true
      → length b + length (powers_text ps rest) ≤ alen
      → power_loop real none f a.0 (at b (powers_text ps rest) a.1)
        ≡ read (powers_value real cells ps a) (past_powers ps b) rest

  abbrev pub ReadsFactors : Factors → Type 0
  ReadsFactors fs =
      (f : ℕ) (a : V × Bool) (b rest : List ℕ)
      → factors_fuel fs ≤ f
      → ends_factors (this_char rest) ≡ true
      → length b + length (factors_text fs rest) ≤ alen
      → product_loop real none f a.0 (at b (factors_text fs rest) a.1)
        ≡ read (factors_value real cells fs a) (past_factors fs b) rest

  abbrev pub ReadsTerms : Terms → Type 0
  ReadsTerms ts =
      (f : ℕ) (a : V × Bool) (b rest : List ℕ)
      → terms_fuel ts ≤ f
      → ends_sum (this_char rest) ≡ true
      → length b + length (terms_text ts rest) ≤ alen
      → sum_loop real none f a.0 (at b (terms_text ts rest) a.1)
        ≡ read (terms_value real cells ts a) (past_terms ts b) rest

  pub power-state :
      (v : Variable) (ps : Powers) (f : ℕ) (b rest : List ℕ) (failed : Bool)
      → ReadsVariable v
      → ReadsPowers ps
      → 1 + variable_fuel v + powers_fuel ps ≤ f
      → ends_powers (this_char rest) ≡ true
      → length b + length (variable_text v (powers_text ps rest)) ≤ alen
      → power real none f (at b (variable_text v (powers_text ps rest)) failed)
        ≡ read
            (powers_value real cells ps (variable_value real cells v failed))
            (past_powers ps (past_variable v b))
            rest
  unfolding power
  power-state v ps zero b rest failed hv hp n h fits = absurd (omega arith)
  power-state v ps (suc f) b rest failed hv hp n h fits =
      let ends = powers_text-ends ps rest (variable-end _ h) in
      let long = past_variable-length v b (powers_text ps rest) in
      rw (
        hv f b (powers_text ps rest) failed (omega arith) ends fits,
        blank (past_variable v b) (powers_text ps rest) (variable_value real cells v failed).1
            (omega (arith, long)) (no_blank _ ends),
        hp f (variable_value real cells v failed) (past_variable v b) rest (omega arith) h
            (omega (arith, long)),
      )

  pub raise-state :
      (a : V) (b : V × Bool) (p rest : List ℕ)
      → raise real a b.0 (at p rest b.1)
        ≡ ((power_value real cells a b).0, at p rest (power_value real cells a b).1)
  unfolding raise calc_fail power_value
  raise-state a b p rest = elim (Bool-cases (real.less (real.of_int 0) a)) [
    | inl z ↦ rw (power_value, z) refl
    | inr z ↦ rw (power_value, z) refl
  ]

  pub divide-state :
      (a : V) (b : V × Bool) (p rest : List ℕ)
      → divide real a b.0 (at p rest b.1)
        ≡ ((quotient real cells a b).0, at p rest (quotient real cells a b).1)
  unfolding divide calc_fail quotient
  divide-state a b p rest = elim (Bool-cases (real.equal b.0 (real.of_int 0))) [
    | inl z ↦ rw (quotient, z) refl
    | inr z ↦ rw (quotient, z) refl
  ]

  pub no_power-state : ReadsPowers no_power
  unfolding power_loop powers_text powers_value past_powers powers_fuel char_at
  no_power-state zero a b rest n h fits = absurd (omega arith)
  no_power-state (suc f) a b rest n h fits = rw (no_caret _ h)

  pub to_the-state :
      (v : Variable) (ps : Powers) → ReadsVariable v → ReadsPowers ps → ReadsPowers (to_the v ps)
  unfolding power_loop powers_text powers_value past_powers powers_fuel char_at next step this_char
  to_the-state v ps hv hp zero a b rest n h fits = absurd (omega arith)
  to_the-state v ps hv hp (suc f) a b rest n h fits =
      let ends = powers_text-ends ps rest (variable-end _ h) in
      let long = past_variable-length v (94 ∷ b) (powers_text ps rest) in
      let now = power_value real cells a.0 (variable_value real cells v a.1) in
      rw (
        hv f (94 ∷ b) (powers_text ps rest) a.1 (omega arith) ends (omega arith),
        raise-state a.0 (variable_value real cells v a.1) (past_variable v (94 ∷ b))
            (powers_text ps rest),
        blank (past_variable v (94 ∷ b)) (powers_text ps rest) now.1 (omega (arith, long))
            (no_blank _ ends),
        hp f now (past_variable v (94 ∷ b)) rest (omega arith) h (omega (arith, long)),
      )

  pub no_factor-state : ReadsFactors no_factor
  unfolding product_loop factors_text factors_value past_factors factors_fuel char_at
  no_factor-state zero a b rest n h fits = absurd (omega arith)
  no_factor-state (suc f) a b rest n h fits =
      let (no_star, no_slash) = no_operator _ h in rw (no_star, no_slash)

  pub times-state :
      (v : Variable) (ps : Powers) (fs : Factors)
      → ReadsVariable v
      → ReadsPowers ps
      → ReadsFactors fs
      → ReadsFactors (times v ps fs)
  unfolding product_loop factors_text factors_value past_factors factors_fuel char_at next step
      this_char
  times-state v ps fs hv hp hf zero a b rest n h fits = absurd (omega arith)
  times-state v ps fs hv hp hf (suc f) a b rest n h fits =
      let ends = factors_text-ends fs rest (powers-end _ h) in
      let long = past_variable-length v (42 ∷ b) (powers_text ps (factors_text fs rest)) in
      let longer = past_powers-length ps (past_variable v (42 ∷ b)) (factors_text fs rest) in
      let now = powers_value real cells ps (variable_value real cells v a.1) in
      rw (
        power-state v ps f (42 ∷ b) (factors_text fs rest) a.1 hv hp (omega arith) ends
            (omega arith),
        hf f (real.mul a.0 now.0, now.1) (past_powers ps (past_variable v (42 ∷ b))) rest
            (omega arith) h (omega (arith, long, longer)),
      )

  pub over-state :
      (v : Variable) (ps : Powers) (fs : Factors)
      → ReadsVariable v
      → ReadsPowers ps
      → ReadsFactors fs
      → ReadsFactors (over v ps fs)
  unfolding product_loop factors_text factors_value past_factors factors_fuel char_at next step
      this_char
  over-state v ps fs hv hp hf zero a b rest n h fits = absurd (omega arith)
  over-state v ps fs hv hp hf (suc f) a b rest n h fits =
      let ends = factors_text-ends fs rest (powers-end _ h) in
      let long = past_variable-length v (47 ∷ b) (powers_text ps (factors_text fs rest)) in
      let longer = past_powers-length ps (past_variable v (47 ∷ b)) (factors_text fs rest) in
      let now = powers_value real cells ps (variable_value real cells v a.1) in
      rw (
        power-state v ps f (47 ∷ b) (factors_text fs rest) a.1 hv hp (omega arith) ends
            (omega arith),
        divide-state a.0 now (past_powers ps (past_variable v (47 ∷ b))) (factors_text fs rest),
        hf f (quotient real cells a.0 now) (past_powers ps (past_variable v (47 ∷ b))) rest
            (omega arith) h (omega (arith, long, longer)),
      )

  pub product-state :
      (v : Variable) (ps : Powers) (fs : Factors) (f : ℕ) (b rest : List ℕ) (failed : Bool)
      → ReadsVariable v
      → ReadsPowers ps
      → ReadsFactors fs
      → 2 + variable_fuel v + powers_fuel ps + factors_fuel fs ≤ f
      → ends_factors (this_char rest) ≡ true
      → length b + length (variable_text v (powers_text ps (factors_text fs rest))) ≤ alen
      → mul_div_pow real none f
          (at b (variable_text v (powers_text ps (factors_text fs rest))) failed)
        ≡ read
            (factors_value real cells fs
              (powers_value real cells ps (variable_value real cells v failed)))
            (past_factors fs (past_powers ps (past_variable v b)))
            rest
  unfolding mul_div_pow
  product-state v ps fs zero b rest failed hv hp hf n h fits = absurd (omega arith)
  product-state v ps fs (suc f) b rest failed hv hp hf n h fits =
      let ends = factors_text-ends fs rest (powers-end _ h) in
      let long = past_variable-length v b (powers_text ps (factors_text fs rest)) in
      let longer = past_powers-length ps (past_variable v b) (factors_text fs rest) in
      rw (
        power-state v ps f b (factors_text fs rest) failed hv hp (omega arith) ends fits,
        hf f (powers_value real cells ps (variable_value real cells v failed))
            (past_powers ps (past_variable v b)) rest (omega arith) h (omega (arith, long, longer)),
      )
