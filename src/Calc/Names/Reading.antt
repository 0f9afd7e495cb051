-- ===== src/Calc/Names/Reading.antt =====
-- What `get_xy` reads where `dis_rc` has printed, and the names it writes into a formula.
-- A text that does not go on with a character of the kind.
use rsx.Base.{
  ==→eq, ==→ne, Bool, Bool-cases, List, [], append_assoc, arith, false, inl, inr, ltb, ltb→ge, refl,
  true, ℕ, ◌%◌, ◌*◌, ◌++◌, ◌+◌, ◌-◌, ◌/◌, ◌<◌, ◌==◌, ◌∷◌, ◌≡◌, ◌≢◌, ◌≤◌,
}
use rsx.Calc.{step, this_char, turned_onto}
use rsx.Calc.Names.{
  after_dollar, column_letters, digits_at, dollar, has_dollar, is_digit, is_letter, less_one,
  letters_at, named, read_digits, read_letters, read_name, read_row, reference, row_digits,
}

read_letters-stop :
    (v : ℕ) (b t : List ℕ) → is_letter (this_char t) ≡ false → read_letters v b t ≡ (v, (b, t))
unfolding read_letters this_char
read_letters-stop v b [] h = refl
read_letters-stop v b (c ∷ cs) h = rw h

read_digits-stop :
    (v : ℕ) (b t : List ℕ) → is_digit (this_char t) ≡ false → read_digits v b t ≡ (v, (b, t))
unfolding read_digits this_char
read_digits-stop v b [] h = refl
read_digits-stop v b (c ∷ cs) h = rw h

read_letters-step :
    (v c : ℕ) (b t : List ℕ)
    → is_letter c ≡ true
    → read_letters v b (c ∷ t) ≡ read_letters ((v * 26 + (c - 64)) % 65536) (c ∷ b) t
unfolding read_letters
read_letters-step v c b t h = rw h

read_digits-step :
    (v c : ℕ) (b t : List ℕ)
    → is_digit c ≡ true
    → read_digits v b (c ∷ t) ≡ read_digits ((v * 10 + (c - 48)) % 65536) (c ∷ b) t
unfolding read_digits
read_digits-step v c b t h = rw h

letter : (d : ℕ) → d < 26 → is_letter (65 + d) ≡ true
unfolding is_letter
letter d h = ground arith

digit : (d : ℕ) → d < 10 → is_digit (48 + d) ≡ true
unfolding is_digit
digit d h = ground arith

-- One letter, or two, as `dis_rc` prints them.
pub read_letters-column :
    (c : ℕ) (b t : List ℕ)
    → c < 256
    → is_letter (this_char t) ≡ false
    → read_letters 0 b (column_letters c ++ t) ≡ (c + 1, (turned_onto (column_letters c) b, t))
unfolding column_letters turned_onto
read_letters-column c b t h e = elim (Bool-cases (c / 26 == 0)) [
  | inl z ↦ rw (
    z,
    read_letters-step 0 (65 + c % 26) b t (letter (c % 26) (omega arith)),
    read_letters-stop (((0 * 26 + ((65 + c % 26) - 64)) % 65536)) ((65 + c % 26) ∷ b) t e,
    one (==→eq (c / 26) 0 z),
  )
  | inr z ↦ rw (
    z,
    read_letters-step 0 (65 + (c / 26 - 1)) b ((65 + c % 26) ∷ t)
        (letter (c / 26 - 1) (omega arith)),
    read_letters-step ((0 * 26 + ((65 + (c / 26 - 1)) - 64)) % 65536) (65 + c % 26)
        ((65 + (c / 26 - 1)) ∷ b) t (letter (c % 26) (omega arith)),
    read_letters-stop _ _ t e,
    two (==→ne (c / 26) 0 z),
  )
]
  where
    one : c / 26 ≡ 0 → (0 * 26 + ((65 + c % 26) - 64)) % 65536 ≡ c + 1
    one z = omega arith

    two :
        c / 26 ≢ 0
        → (((0 * 26 + ((65 + (c / 26 - 1)) - 64)) % 65536) * 26 + ((65 + c % 26) - 64)) % 65536
          ≡ c + 1
    two z = ground arith

-- Up to three digits.
pub read_digits-row :
    (r : ℕ) (b t : List ℕ)
    → r < 1000
    → is_digit (this_char t) ≡ false
    → read_digits 0 b (row_digits r ++ t) ≡ (r, (turned_onto (row_digits r) b, t))
unfolding row_digits turned_onto
read_digits-row r b t h e = elim (Bool-cases (ltb 0 (r / 100))) [
  | inl z ↦ rw (
    z,
    read_digits-step _ (48 + r / 100) _ _ (digit (r / 100) (omega arith)),
    read_digits-step _ (48 + r % 100 / 10) _ _ (digit (r % 100 / 10) (omega arith)),
    read_digits-step _ (48 + r % 10) _ _ (digit (r % 10) (omega arith)),
    read_digits-stop _ _ t e,
    three,
  )
  | inr z ↦ elim (Bool-cases (ltb 9 r)) [
    | inl y ↦ rw (
      z,
      y,
      read_digits-step _ (48 + r % 100 / 10) _ _ (digit (r % 100 / 10) (omega arith)),
      read_digits-step _ (48 + r % 10) _ _ (digit (r % 10) (omega arith)),
      read_digits-stop _ _ t e,
      two (ltb→ge 0 (r / 100) z),
    )
    | inr y ↦ rw (
      z,
      y,
      read_digits-step _ (48 + r % 10) _ _ (digit (r % 10) (omega arith)),
      read_digits-stop _ _ t e,
      one (ltb→ge 9 r y),
    )
  ]
]
  where
    three :
        ((((0 * 10 + ((48 + r / 100) - 48)) % 65536) * 10 + ((48 + r % 100 / 10) - 48)) % 65536 * 10
            + ((48 + r % 10) - 48))
          % 65536
        ≡ r
    three = omega arith

    two :
        r / 100 ≤ 0
        → (((0 * 10 + ((48 + r % 100 / 10) - 48)) % 65536) * 10 + ((48 + r % 10) - 48)) % 65536 ≡ r
    two z = omega arith

    one : r ≤ 9 → (0 * 10 + ((48 + r % 10) - 48)) % 65536 ≡ r
    one y = omega arith

-- A column's name begins with a letter, a row's with a digit.
pub column_letters-first :
    (c : ℕ) (t : List ℕ) → c < 256 → is_letter (this_char (column_letters c ++ t)) ≡ true
unfolding column_letters this_char
column_letters-first c t h = elim (Bool-cases (c / 26 == 0)) [
  | inl z ↦ rw (z, letter (c % 26) (omega arith))
  | inr z ↦ rw (z, letter (c / 26 - 1) (omega arith))
]

row_digits-first : (r : ℕ) (t : List ℕ) → r < 1000 → is_digit (this_char (row_digits r ++ t)) ≡ true
unfolding row_digits this_char
row_digits-first r t h = elim (Bool-cases (ltb 0 (r / 100))) [
  | inl z ↦ rw (z, digit (r / 100) (omega arith))
  | inr z ↦ elim (Bool-cases (ltb 9 r)) [
    | inl y ↦ rw (z, y, digit (r % 100 / 10) (omega arith))
    | inr y ↦ rw (z, y, digit (r % 10) (omega arith))
  ]
]

digit-no_letter : (c : ℕ) → is_digit c ≡ true → is_letter c ≡ false
unfolding is_digit is_letter
digit-no_letter c h = ground arith

digit-no_dollar : (c : ℕ) → is_digit c ≡ true → (c == 36) ≡ false
unfolding is_digit
digit-no_dollar c h = ground arith

letter-no_dollar : (c : ℕ) → is_letter c ≡ true → (c == 36) ≡ false
unfolding is_letter
letter-no_dollar c h = ground arith

less_one-suc : (r : ℕ) → r < 256 → less_one (r + 1) ≡ r
unfolding less_one
less_one-suc r h = omega arith

dollar-no_letter :
    (ar : Bool) (r : ℕ) (t : List ℕ)
    → r < 1000
    → is_letter (this_char (dollar ar ++ (row_digits r ++ t))) ≡ false
unfolding dollar this_char is_letter
dollar-no_letter true r t h = refl
dollar-no_letter false r t h = digit-no_letter _ (row_digits-first r t h)

read_name-row :
    (ac ar : Bool) (r v : ℕ) (b t : List ℕ)
    → r < 256
    → is_digit (this_char t) ≡ false
    → read_row ac (v, (b, dollar ar ++ (row_digits (r + 1) ++ t))) ≡ record {
      row = r;
      col = less_one v;
      absolute_r = ar;
      absolute_c = ac;
      place = (turned_onto (row_digits (r + 1)) (turned_onto (dollar ar) b), t);
    }
unfolding read_row has_dollar after_dollar digits_at named dollar turned_onto step this_char
read_name-row ac true r v b t h e =
    rw (read_digits-row (r + 1) (36 ∷ b) t (omega arith) e, less_one-suc r h)
read_name-row ac false r v b t h e = rw (
  digit-no_dollar _ (row_digits-first (r + 1) t (omega arith)),
  read_digits-row (r + 1) b t (omega arith) e,
  less_one-suc r h,
)

read_name-column :
    (ac ar : Bool) (r c : ℕ) (b t : List ℕ)
    → r < 256
    → c < 256
    → is_digit (this_char t) ≡ false
    → read_name (b, dollar ac ++ (column_letters c ++ (dollar ar ++ (row_digits (r + 1) ++ t))))
      ≡ record {
        row = r;
        col = c;
        absolute_r = ar;
        absolute_c = ac;
        place = (
          turned_onto (row_digits (r + 1)) (
              turned_onto (dollar ar) (turned_onto (column_letters c) (turned_onto (dollar ac) b))),
          t,
        );
      }
unfolding read_name has_dollar after_dollar letters_at dollar turned_onto step this_char
read_name-column true ar r c b t h k e = rw (
  read_letters-column c (36 ∷ b) (dollar ar ++ (row_digits (r + 1) ++ t)) k
      (dollar-no_letter ar (r + 1) t (omega arith)),
  read_name-row true ar r (c + 1) (turned_onto (column_letters c) (36 ∷ b)) t h e,
  less_one-suc c k,
)
read_name-column false ar r c b t h k e = rw (
  letter-no_dollar _ (column_letters-first c (dollar ar ++ (row_digits (r + 1) ++ t)) k),
  read_letters-column c b (dollar ar ++ (row_digits (r + 1) ++ t)) k
      (dollar-no_letter ar (r + 1) t (omega arith)),
  read_name-row false ar r (c + 1) (turned_onto (column_letters c) b) t h e,
  less_one-suc c k,
)

pub turned_onto-append : (s t b : List ℕ) → turned_onto (s ++ t) b ≡ turned_onto t (turned_onto s b)
unfolding turned_onto
turned_onto-append [] t b = refl
turned_onto-append (c ∷ s) t b = turned_onto-append s t (c ∷ b)

-- A reference, with or without `$`, is read as it was written.
pub read_name-reference :
    (ac ar : Bool) (r c : ℕ) (b t : List ℕ)
    → r < 256
    → c < 256
    → is_digit (this_char t) ≡ false
    → read_name (b, reference ac ar r c ++ t) ≡ record {
      row = r;
      col = c;
      absolute_r = ar;
      absolute_c = ac;
      place = (turned_onto (reference ac ar r c) b, t);
    }
unfolding reference
read_name-reference ac ar r c b t h k e = simp (append_assoc, turned_onto-append, read_name-column)
