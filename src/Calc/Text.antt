-- ===== src/Calc/Text.antt =====
-- What calc/c/calc.c looks for in the text of a formula from `*ip` on: blanks, words, names of
-- functions, constants, comparisons and ranges.
use rsx.Base.{Bool, List, [], drop, false, if◌then◌else◌, suc, true, zero, ℕ, ◌&&◌, ◌==◌, ◌||◌, ◌∷◌}
use rsx.Calc.{Place, this_char}
use rsx.Calc.Names.{is_digit, is_letter}

unfoldable pub skip_spaces : List ℕ → List ℕ → Place
skip_spaces b [] = (b, [])
skip_spaces b (c ∷ cs) = let more = skip_spaces (c ∷ b) cs in if c == 32 then more else (b, c ∷ cs)

-- `strncmp(&p->form[*ip], word, n) == 0`
unfoldable pub starts_with : List ℕ → List ℕ → Bool
starts_with [] cs = true
starts_with (w ∷ ws) [] = false
starts_with (w ∷ ws) (c ∷ cs) = w == c && starts_with ws cs

-- The scan in `get_function`: a name of at most n letters and digits.
unfoldable pub read_token : ℕ → List ℕ → List ℕ → List ℕ × Place
unfolding is_letter is_digit
read_token zero b cs = ([], (b, cs))
read_token (suc n) b [] = ([], (b, []))
read_token (suc n) b (c ∷ cs) =
    let more = read_token n (c ∷ b) cs in
    if is_letter c || is_digit c then (c ∷ more.0, more.1) else ([], (b, c ∷ cs))

-- `is_constant`, behind the blanks
unfoldable pub is_constant : List ℕ → Bool
unfolding is_digit this_char
is_constant cs =
    let c =
      (if this_char cs == 43 || this_char cs == 45 then this_char (drop 1 cs) else this_char cs) in
    c == 46 || is_digit c

-- The operator that `get_log` finds, 0 for none, and its length.
unfoldable pub log_code : List ℕ → ℕ × ℕ
unfolding this_char
log_code [] = (0, 0)
log_code (c ∷ cs) =
    if c == 61
    then (1, 1)
    else if c == 60
    then (if this_char cs == 62 then (2, 2) else if this_char cs == 61 then (6, 2) else (4, 1))
    else if c == 62
    then (if this_char cs == 61 then (5, 2) else (3, 1))
    else (0, 0)

-- The test in `array_function`: the text goes on with letters, digits, `$` and blanks to a colon.
unfoldable pub is_range : List ℕ → Bool
unfolding is_letter is_digit
is_range [] = false
is_range (c ∷ cs) =
    let more = is_range cs in
    if is_letter c || is_digit c || c == 36 || c == 32 then more else c == 58

unfoldable pub same_text : List ℕ → List ℕ → Bool
same_text [] [] = true
same_text [] (b ∷ bs) = false
same_text (a ∷ rest) [] = false
same_text (a ∷ rest) (b ∷ bs) = a == b && same_text rest bs
