-- ===== src/Tests/Sheet.antt =====
-- Concrete sheets of FreeCalc, with whole numbers in place of the doubles.
-- The digits and the point at the start of a text.
use rsx.Base.{
  Bool, Bool-cases, List, Option, [], ap, append-nil, arith, false, if◌then◌else◌, inl, inr, leb,
  length, ltb, none, refl, some, subst, suc, sym, take, true, ℕ, ◌&&◌, ◌*◌, ◌++◌, ◌+◌, ◌-◌, ◌/◌,
  ◌==◌, ◌∷◌, ◌≡◌, ◌≤◌,
}
use rsx.Calc.{Cell, Real, this_char}
use rsx.Calc.Formula.{get_point}
use rsx.Calc.Formula.Ends.{
  IsCalculated, ReadsNumerals, digit-plain, ends-no_digit, ends_sum, ends_variable,
}
use rsx.Calc.Formula.Grammar.{
  Sum, after_whole, all_digits, cell, cell_value, is_numeral, minus_term, negated, no_factor,
  no_power, no_term, number, parenthesis, past_sum, plus, power_value, quotient, sum_fuel, sum_text,
  sum_value, times,
}
use rsx.Calc.Formula.Parse.{formula}
use rsx.Calc.Formula.Sums.{formula-sum_value}
use rsx.Calc.Names.{column_letters, dollar, get_xy, is_digit, is_letter, reference, row_digits}
use rsx.Calc.Names.Moving.{Followed, get_xy-Followed}
use rsx.Calc.Rows.{row_edit}

unfoldable pub fraction_length : List ℕ → ℕ
fraction_length [] = 0
fraction_length (c ∷ cs) = let rest = fraction_length cs in if is_digit c then suc rest else 0

unfoldable pub whole_length : List ℕ → ℕ
unfolding fraction_length
whole_length [] = 0
whole_length (c ∷ cs) =
    let rest = whole_length cs in
    if c == 46 then suc (fraction_length cs) else if is_digit c then suc rest else 0

unfoldable pub digits_value : ℕ → List ℕ → ℕ
digits_value v [] = v
digits_value v (c ∷ cs) =
    let rest = digits_value (v * 10 + (c - 48)) cs in if is_digit c then rest else v

abbrev pub whole : Real ℕ
whole = record {
  of_int = λ n. n;
  pi = 3;
  neg = λ n. 0 - n;
  add = λ a b. a + b;
  sub = λ a b. a - b;
  mul = λ a b. a * b;
  div = λ a b. a / b;
  equal = λ a b. a == b;
  less = ltb;
  less_eq = leb;
  trunc = λ a. a;
  round = λ a. a;
  sqrt = λ a. a;
  exp = λ a. a;
  log = λ a. a;
  sin = λ a. a;
  cos = λ a. a;
  tan = λ a. a;
  atan = λ a. a;
  strtod = λ t. (digits_value 0 (take (whole_length t) t), whole_length t);
}

take-append : (t rest : List ℕ) → take (length t) (t ++ rest) ≡ t
take-append [] rest = refl
take-append (c ∷ cs) rest = ap {B = List ℕ} (λ r. c ∷ r) (take-append cs rest)

and_both : (a b : Bool) → (a && b) ≡ true → (a ≡ true) × (b ≡ true)
and_both true b h = (refl, h)
and_both false b h = cc h

fraction_length-all :
    (t rest : List ℕ)
    → all_digits t ≡ true
    → is_digit (this_char rest) ≡ false
    → fraction_length (t ++ rest) ≡ length t
unfolding fraction_length all_digits this_char
fraction_length-all [] [] h e = refl
fraction_length-all [] (c ∷ rest) h e = rw e
fraction_length-all (c ∷ cs) rest h e =
    let (digit, more) = and_both (is_digit c) (all_digits cs) h in
    rw (digit, fraction_length-all cs rest more e)

ends-no_point : (c : ℕ) → ends_variable c ≡ true → (c == 46) ≡ false
unfolding ends_variable
ends-no_point c h = ground arith

if_true : {b : Bool} (d f : Bool) → b ≡ true → (if b then d else f) ≡ true → d ≡ true
if_true d f z h = rw z at h

if_false : {b : Bool} (d f : Bool) → b ≡ false → (if b then d else f) ≡ true → f ≡ true
if_false d f z h = rw z at h

whole_length-after :
    (t rest : List ℕ)
    → after_whole t ≡ true
    → ends_variable (this_char rest) ≡ true
    → whole_length (t ++ rest) ≡ length t
unfolding whole_length after_whole this_char
whole_length-after [] [] h e = refl
whole_length-after [] (c ∷ rest) h e = rw (ends-no_point c e, ends-no_digit c e)
whole_length-after (c ∷ cs) rest h e = elim (Bool-cases (c == 46)) [
  | inl z ↦ rw (
    z,
    fraction_length-all cs rest (if_true (all_digits cs) (is_digit c && after_whole cs) z h)
        (ends-no_digit _ e),
  )
  | inr z ↦
      let (digit, more) =
        and_both (is_digit c) (after_whole cs)
          (if_false (all_digits cs) (is_digit c && after_whole cs) z h) in
      rw (z, digit, whole_length-after cs rest more e)
]

whole_length-numeral :
    (t rest : List ℕ)
    → is_numeral t ≡ true
    → ends_variable (this_char rest) ≡ true
    → whole_length (t ++ rest) ≡ length t
unfolding whole_length is_numeral
whole_length-numeral [] rest h e = cc h
whole_length-numeral (c ∷ cs) rest h e =
    let (digit, more) = and_both (is_digit c) (after_whole cs) h in
    let (_, _, no_point, _) = digit-plain c digit in
    rw (no_point, digit, whole_length-after cs rest more e)

whole_length_self : (t : List ℕ) → is_numeral t ≡ true → whole_length t ≡ length t
unfolding ends_variable this_char is_digit is_letter
whole_length_self t h =
    subst (λ s. whole_length s ≡ length t) (append-nil t) (whole_length-numeral t [] h refl)

take_self : (t : List ℕ) → take (length t) t ≡ t
take_self t = subst (λ s. take (length t) s ≡ t) (append-nil t) (take-append t [])

whole-ReadsNumerals : ReadsNumerals whole
whole-ReadsNumerals t rest h e =
    rw (whole_length-numeral t rest h e, take-append t rest, whole_length_self t h, take_self t)

-- A1 is 5 and has been evaluated, A2 is a text; B1 is to be `A1+2*(3-1)`.
abbrev five : Cell ℕ
five = record {
  row = 0;
  col = 0;
  flag = 70;
  ready = 1;
  value = 5;
  align = 0;
  prec = 2;
  alen = 2;
  form = b'5' ∷ [];
}

abbrev label : Cell ℕ
label = record five { row = 1; flag = 65; ready = 0 }

abbrev sheet : List (Cell ℕ)
sheet = five ∷ label ∷ []

sheet-IsCalculated : IsCalculated sheet
unfolding get_point
sheet-IsCalculated r c p h formula = elim (Bool-cases (0 == r && 0 == c)) [
  | inl z ↦
      let found : some five ≡ some p = rw z at h in
      ap (λ o. elim o [ none ↦ false | some q ↦ q.ready == 0 ]) (sym found)
  | inr z ↦ elim (Bool-cases (1 == r && 0 == c)) [
    | inl y ↦
        let found : some label ≡ some p = rw (z, y) at h in
        let text : true ≡ (p.flag == 65) =
          ap (λ o. elim o [ none ↦ true | some q ↦ q.flag == 65 ]) found in
        cc (text, formula)
    | inr y ↦ let missing : ◌≡◌ {A = Option (Cell ℕ)} none (some p) = rw (z, y) at h in cc missing
  ]
]

one_numeral : is_numeral (b'1' ∷ []) ≡ true
unfolding is_numeral is_digit after_whole
one_numeral = refl

two_numeral : is_numeral (b'2' ∷ []) ≡ true
unfolding is_numeral is_digit after_whole
two_numeral = refl

three_numeral : is_numeral (b'3' ∷ []) ≡ true
unfolding is_numeral is_digit after_whole
three_numeral = refl

abbrev sample : Sum
sample = record {
  first = cell false false false 0 0 (omega arith) (omega arith);
  powers = no_power;
  factors = no_factor;
  terms =
      plus (number (b'2' ∷ []) two_numeral) no_power
        (times
          (parenthesis (number (b'3' ∷ []) three_numeral) no_power no_factor
            (minus_term (number (b'1' ∷ []) one_numeral) no_power no_factor no_term))
          no_power no_factor)
        no_term;
}

-- The text that the tree stands for, the value, and the fuel.
sample_text :
    sum_text sample [] ≡ b'A' ∷ b'1' ∷ b'+' ∷ b'2' ∷ b'*' ∷ b'(' ∷ b'3' ∷ b'-' ∷ b'1' ∷ b')' ∷ []
unfolding sum_text reference column_letters row_digits dollar
sample_text = refl

sample_value : sum_value whole sheet sample false ≡ (9, false)
unfolding sum_value cell_value get_point negated quotient power_value whole_length fraction_length
    digits_value is_digit
sample_value = refl

sample_fuel : sum_fuel sample ≤ 60
unfolding sum_fuel
sample_fuel = omega arith

no_more : ends_sum (this_char []) ≡ true
unfolding ends_sum this_char
no_more = refl

length-sample : length {A = ℕ} [] + length (sum_text sample []) ≤ 20
length-sample = rw sample_text (omega arith)

plus_no_digit : is_digit (this_char (b'+' ∷ [])) ≡ false
unfolding is_digit this_char
plus_no_digit = refl

d10_length : length (reference true false 9 3) ≡ 4
unfolding reference column_letters row_digits dollar
d10_length = refl

formula-sum_value_example :
    formula whole none 60 (record {
      place = ([], sum_text sample []);
      alen = 20;
      cells = sheet;
      error = false;
      calc_error = false;
    })
    ≡ some (
      (sum_value whole sheet sample false).0,
      record {
        place = (past_sum sample [], []);
        alen = 20;
        cells = sheet;
        error = false;
        calc_error = (sum_value whole sheet sample false).1;
      },
    )
formula-sum_value_example =
    formula-sum_value whole 20 sheet false false whole-ReadsNumerals sheet-IsCalculated sample 60 []
      [] sample_fuel no_more length-sample

-- Row 4 is inserted above the cell D10, which `$D10` goes on to name.
get_xy-Followed_example :
    ((get_xy (some (row_edit true 3)) 6 ([], reference true false 9 3 ++ b'+' ∷ [])).0.row ≡ 9)
    × ((get_xy (some (row_edit true 3)) 6 ([], reference true false 9 3 ++ b'+' ∷ [])).0.col ≡ 3)
    × Followed
        (row_edit true 3)
        6
        []
        (b'+' ∷ [])
        true
        false
        9
        3
        (get_xy (some (row_edit true 3)) 6 ([], reference true false 9 3 ++ b'+' ∷ [])).1
get_xy-Followed_example =
    get_xy-Followed (row_edit true 3) 6 [] (b'+' ∷ []) true false 9 3 (omega arith) (omega arith)
      plus_no_digit (omega arith, tt) (omega (arith, d10_length))
