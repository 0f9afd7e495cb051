-- ===== src/Calc/Formula/Evaluates.antt =====
-- The functions of calc/c/calc.c read the text of a formula and give its value.
use rsx.Base.{
  Bool, Bool-cases, List, Option-cases, [], arith, false, ge→ltb, inl, inr, length, le→leb, ltb,
  none, refl, some, suc, true, zero, ℕ, ◌++◌, ◌<◌, ◌==◌, ◌||◌, ◌∷◌, ◌≡◌, ◌≤◌,
}
use rsx.Calc.{Cell, Real, step, this_char, turned_onto}
use rsx.Calc.Formula.{
  State, calc_fail, char_at, check_end, get_point, get_xy_of, next, rem_blanks, steps,
}
use rsx.Calc.Formula.Ends.{
  IsCalculated, ReadsNumerals, digit-plain, ends_variable, first-plain, reference-first,
}
use rsx.Calc.Formula.Grammar.{cell_value, is_numeral, negated, sign}
use rsx.Calc.Formula.Parse.{atom, elementary, get_constant, simple, skip_plus, variable}
use rsx.Calc.Names.{get_xy, is_digit, reference}
use rsx.Calc.Names.Reading.{read_name-reference}
use rsx.Calc.Text.{is_constant, skip_spaces}
use rsx.Directory.{blank}

module _ {V : Type 0} (real : Real V) (alen : ℕ) (cells : List (Cell V)) (error : Bool)
    (strtod : ReadsNumerals real) (calculated : IsCalculated cells) where
  abbrev pub state : List ℕ → List ℕ → Bool → State V
  state b rest failed = record {
    place = (b, rest);
    alen = alen;
    cells = cells;
    error = error;
    calc_error = failed;
  }

  check_end-state :
      (b rest : List ℕ) (failed : Bool)
      → length b ≤ alen
      → check_end (state b rest failed) ≡ state b rest failed
  unfolding check_end
  check_end-state b rest failed h = rw (ge→ltb alen (length b) h)

  pub rem_blanks-state :
      (b rest : List ℕ) (failed : Bool)
      → length b ≤ alen
      → (this_char rest == 32) ≡ false
      → rem_blanks (state b rest failed) ≡ state b rest failed
  unfolding rem_blanks skip_spaces this_char
  rem_blanks-state b [] failed h k = check_end-state b [] failed h
  rem_blanks-state b (c ∷ cs) failed h k = rw k (check_end-state b (c ∷ cs) failed h)

  steps-state :
      (t b rest : List ℕ) (failed : Bool)
      → steps (length t) (state b (t ++ rest) failed) ≡ state (turned_onto t b) rest failed
  unfolding steps next step turned_onto
  steps-state [] b rest failed = refl
  steps-state (c ∷ cs) b rest failed = steps-state cs (c ∷ b) rest failed

  pub get_constant-state :
      (t b rest : List ℕ) (failed : Bool)
      → is_numeral t ≡ true
      → ends_variable (this_char rest) ≡ true
      → length b ≤ alen
      → (this_char (t ++ rest) == 32) ≡ false
      → get_constant real (state b (t ++ rest) failed)
        ≡ ((real.strtod t).0, state (turned_onto t b) rest failed)
  unfolding get_constant
  get_constant-state t b rest failed n h fits k =
      rw (
        rem_blanks-state b (t ++ rest) failed fits k,
        strtod t rest n h,
        steps-state t b rest failed,
      )

  not_text : (a b : Bool) → (a || b) ≡ false → a ≡ false
  not_text a b h = ground arith

  atom-state :
      (f r c : ℕ) (b rest : List ℕ) (failed : Bool)
      → 0 < f
      → atom real none f r c (state b rest failed)
        ≡ some (
          (cell_value real cells r c failed).0,
          state b rest (cell_value real cells r c failed).1,
        )
  unfolding atom cell_value calc_fail
  atom-state zero r c b rest failed n = absurd (omega arith)
  atom-state (suc f) r c b rest failed n = elim (Option-cases (get_point cells r c)) [
    | inl z ↦ rw (atom, cell_value, z) refl
    | inr (p, z) ↦ elim (Bool-cases (p.flag == 65 || ltb 1 p.ready)) [
      | inl y ↦ rw (atom, cell_value, z, y) refl
      | inr y ↦ rw (atom, cell_value, z, y, calculated r c p z (not_text (p.flag == 65) _ y)) refl
    ]
  ]

  elementary-state :
      (f : ℕ) (ac ar : Bool) (r c : ℕ) (b rest : List ℕ) (failed : Bool)
      → 1 < f
      → r < 256
      → c < 256
      → length b ≤ alen
      → is_digit (this_char rest) ≡ false
      → elementary real none f (state b (reference ac ar r c ++ rest) failed)
        ≡ some (
          (cell_value real cells r c failed).0,
          state (turned_onto (reference ac ar r c) b) rest (cell_value real cells r c failed).1,
        )
  unfolding elementary get_xy_of get_xy
  elementary-state zero ac ar r c b rest failed n h k fits e = absurd (omega arith)
  elementary-state (suc f) ac ar r c b rest failed n h k fits e =
      let (_, _, _, _, _, _, blank) = first-plain _ (reference-first ac ar r c rest k) in
      rw (
        rem_blanks-state b (reference ac ar r c ++ rest) failed fits blank,
        read_name-reference ac ar r c b rest h k e,
        le→leb r 255 (omega arith),
        le→leb c 255 (omega arith),
        atom-state f r c (turned_onto (reference ac ar r c) b) rest failed (omega arith),
      )

  simple-state :
      (f : ℕ) (m ac ar : Bool) (r c : ℕ) (b rest : List ℕ) (failed : Bool)
      → 2 < f
      → r < 256
      → c < 256
      → length b < alen
      → is_digit (this_char rest) ≡ false
      → simple real none f (state b (sign m (reference ac ar r c ++ rest)) failed)
        ≡ some (
          (negated real cells m (cell_value real cells r c failed)).0,
          state
              (turned_onto (reference ac ar r c) (sign m b))
              rest
              (negated real cells m (cell_value real cells r c failed)).1,
        )
  unfolding simple sign skip_plus next step char_at negated
  simple-state zero m ac ar r c b rest failed n h k fits e = absurd (omega arith)
  simple-state (suc f) true ac ar r c b rest failed n h k fits e =
      let (_, _, call, _, _, _, _) = first-plain _ (reference-first ac ar r c rest k) in
      rw (
        rem_blanks-state b (45 ∷ (reference ac ar r c ++ rest)) failed (omega arith) refl,
        call,
        elementary-state f ac ar r c (45 ∷ b) rest failed (omega arith) h k fits e,
      )
  simple-state (suc f) false ac ar r c b rest failed n h k fits e =
      let (no_plus, no_minus, call, _, _, _, blank) =
        first-plain _ (reference-first ac ar r c rest k) in
      rw (
        rem_blanks-state b (reference ac ar r c ++ rest) failed (omega arith) blank,
        no_plus,
        no_minus,
        call,
        elementary-state f ac ar r c b rest failed (omega arith) h k (omega arith) e,
      )

  -- A constant is recognised by its first character, and a reference is none.
  pub number-is_constant :
      (t rest : List ℕ) → is_digit (this_char (t ++ rest)) ≡ true → is_constant (t ++ rest) ≡ true
  unfolding is_constant
  number-is_constant t rest h =
      let (no_plus, no_minus, no_point, _) = digit-plain (this_char (t ++ rest)) h in
      rw (no_plus, no_minus, no_point, h)

  cell-no_constant :
      (m ac ar : Bool) (r c : ℕ) (rest : List ℕ)
      → c < 256
      → is_constant (sign m (reference ac ar r c ++ rest)) ≡ false
  unfolding is_constant sign this_char
  cell-no_constant true ac ar r c rest k =
      let (_, _, _, _, point, digit, _) = first-plain _ (reference-first ac ar r c rest k) in
      rw (point, digit)
  cell-no_constant false ac ar r c rest k =
      let (no_plus, no_minus, _, _, point, digit, _) =
        first-plain _ (reference-first ac ar r c rest k) in
      rw (no_plus, no_minus, point, digit)

  cell-plain :
      (m ac ar : Bool) (r c : ℕ) (rest : List ℕ)
      → c < 256
      → ((this_char (sign m (reference ac ar r c ++ rest)) == 32) ≡ false)
        × ((this_char (sign m (reference ac ar r c ++ rest)) == 40) ≡ false)
  unfolding sign this_char
  cell-plain true ac ar r c rest k = (refl, refl)
  cell-plain false ac ar r c rest k =
      let (_, _, _, bracket, _, _, blank) = first-plain _ (reference-first ac ar r c rest k) in
      (blank, bracket)

  pub variable-cell :
      (f : ℕ) (m ac ar : Bool) (r c : ℕ) (b rest : List ℕ) (failed : Bool)
      → 3 < f
      → r < 256
      → c < 256
      → length b < alen
      → is_digit (this_char rest) ≡ false
      → variable real none f (state b (sign m (reference ac ar r c ++ rest)) failed)
        ≡ some (
          (negated real cells m (cell_value real cells r c failed)).0,
          state
              (turned_onto (reference ac ar r c) (sign m b))
              rest
              (negated real cells m (cell_value real cells r c failed)).1,
        )
  unfolding variable char_at
  variable-cell zero m ac ar r c b rest failed n h k fits e = absurd (omega arith)
  variable-cell (suc f) m ac ar r c b rest failed n h k fits e =
      let (blank, bracket) = cell-plain m ac ar r c rest k in
      rw (
        rem_blanks-state b (sign m (reference ac ar r c ++ rest)) failed (omega arith) blank,
        cell-no_constant m ac ar r c rest k,
        bracket,
        simple-state f m ac ar r c b rest failed (omega arith) h k fits e,
      )
