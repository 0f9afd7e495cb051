-- ===== src/Calc/Names.antt =====
-- Names of cells in calc/c/calc.c: `dis_rc`, and `get_xy` with the change of a name that an
-- inserted or deleted row or column asks for. A short is its value modulo 2 ^ 16.
pub mod Moving
pub mod Reading
pub mod Shifting
use rsx.Base.{
  Block, Bool, List, Option, [], false, get_or, if◌then◌else◌, leb, length, ltb, none, some, suc,
  true, update, zero, ℕ, ◌%◌, ◌&&◌, ◌*◌, ◌++◌, ◌+◌, ◌-◌, ◌/◌, ◌==◌, ◌||◌, ◌∷◌,
}
use rsx.Calc.{Place, step, this_char, turned_onto}

unfoldable pub is_letter : ℕ → Bool
is_letter c = leb 65 c && leb c 90

unfoldable pub is_digit : ℕ → Bool
is_digit c = leb 48 c && leb c 57

-- `--` on a short
unfoldable pub less_one : ℕ → ℕ
less_one v = (v + 65535) % 65536

-- `v1 = c / 26`: one letter or two
unfoldable pub column_letters : ℕ → List ℕ
column_letters c =
    if c / 26 == 0 then (65 + c % 26) ∷ [] else (65 + (c / 26 - 1)) ∷ (65 + c % 26) ∷ []

-- The digits of a number below 1000.
unfoldable pub row_digits : ℕ → List ℕ
row_digits r =
    if ltb 0 (r / 100)
    then (48 + r / 100) ∷ (48 + r % 100 / 10) ∷ (48 + r % 10) ∷ []
    else if ltb 9 r
    then (48 + r % 100 / 10) ∷ (48 + r % 10) ∷ []
    else (48 + r % 10) ∷ []

-- What `dis_rc` prints.
unfoldable pub dis_rc : ℕ → ℕ → List ℕ
dis_rc r c = column_letters c ++ row_digits (r + 1)

-- `while` a letter: `*ccol = *ccol*26 + p->form[*ip]-'A'+1`
unfoldable pub read_letters : ℕ → List ℕ → List ℕ → ℕ × Place
unfolding is_letter
read_letters v b [] = (v, (b, []))
read_letters v b (c ∷ cs) =
    let more = read_letters ((v * 26 + (c - 64)) % 65536) (c ∷ b) cs in
    if is_letter c then more else (v, (b, c ∷ cs))

unfoldable pub read_digits : ℕ → List ℕ → List ℕ → ℕ × Place
unfolding is_digit
read_digits v b [] = (v, (b, []))
read_digits v b (c ∷ cs) =
    let more = read_digits ((v * 10 + (c - 48)) % 65536) (c ∷ b) cs in
    if is_digit c then more else (v, (b, c ∷ cs))

-- What `get_xy` has read: `*rrow`, `*ccol`, the two flags, and the text behind the name.
pub record Name : Type 0 where
  pub row : ℕ
  pub col : ℕ
  pub absolute_r : Bool
  pub absolute_c : Bool
  pub place : Place

unfoldable pub has_dollar : Place → Bool
unfolding this_char
has_dollar (b, cs) = this_char cs == 36

unfoldable pub after_dollar : Place → Place
unfolding step has_dollar
after_dollar p = if has_dollar p then step p else p

-- The second half of the reading, behind the letters.
unfoldable pub digits_at : Place → ℕ × Place
digits_at (b, cs) = read_digits 0 b cs

unfoldable pub letters_at : Place → ℕ × Place
letters_at (b, cs) = read_letters 0 b cs

unfoldable pub named : Bool → Bool → ℕ → ℕ × Place → Name
unfolding less_one
named ac ar v (w, end) = record {
  row = less_one w;
  col = less_one v;
  absolute_r = ar;
  absolute_c = ac;
  place = end;
}

unfoldable pub read_row : Bool → ℕ × Place → Name
unfolding has_dollar after_dollar digits_at named
read_row ac (v, p) = named ac (has_dollar p) v (digits_at (after_dollar p))

-- `get_xy` up to the test of `local_edit`.
unfoldable pub read_name : Place → Name
unfolding has_dollar after_dollar letters_at read_row
read_name p = read_row (has_dollar p) (letters_at (after_dollar p))

unfoldable pub dollar : Bool → List ℕ
dollar true = 36 ∷ []
dollar false = []

-- The text of a reference: `$` where it is absolute, and the name.
unfoldable pub reference : Bool → Bool → ℕ → ℕ → List ℕ
reference ac ar r c = dollar ac ++ (column_letters c ++ (dollar ar ++ row_digits (r + 1)))

-- What the insertion or the deletion of a row or of a column asks of the references: `test_r`,
-- `test_c`, `del_row` and `del_col`, of which -1 is 65535.
pub record Edit : Type 0 where
  pub test_r : ℕ
  pub test_c : ℕ
  pub del_row : ℕ
  pub del_col : ℕ

-- `*rrow >= test_r` on a short that may be negative
unfoldable pub at_or_behind : ℕ → ℕ → Bool
at_or_behind v test = leb test v && ltb v 32768

-- `r = *rrow + del_row; if (absolute_r) r = *rrow`
unfoldable pub moved : Bool → ℕ → ℕ → ℕ
moved absolute del v = if absolute then v else (v + del) % 65536

-- `l`: the length of the new name
unfoldable pub name_length : Bool → Bool → ℕ → ℕ → ℕ
name_length ac ar r c =
    (if ltb r 9 || leb 32768 r then 1 else if ltb r 99 then 2 else 3)
    + (if ltb c 26 || leb 32768 c then 1 else 2)
    + (if ar then 1 else 0)
    + (if ac then 1 else 0)

-- The name asks for a change: it stands at or behind the row or the column.
unfoldable pub asks : Edit → ℕ → ℕ → Bool
asks e r c = at_or_behind r e.test_r && at_or_behind c e.test_c

-- The new name is in the sheet, and the text with it fits the 70 characters of the work cell.
unfoldable pub has_room : ℕ → ℕ → ℕ → ℕ → ℕ → ℕ → Bool
has_room alen is ip r c l =
    ltb (alen + l + is) (70 + ip) && leb ip alen && ltb is ip && leb r 255 && leb c 255

-- `form` with the place in it: the text, and behind it its NUL. What the buffer holds behind the NUL
-- is taken to be NULs too.
unfoldable pub form_of : Place → Block
form_of (b, cs) i = get_or (turned_onto b cs) i 0

-- `for (i = *ip; i <= p->alen; ++i) p->form[i-(*ip)+is] = p->form[i]`, n steps.
unfoldable pub shift_down : (n from to : ℕ) → Block → Block
shift_down zero from to form = form
shift_down (suc n) from to form = shift_down n (suc from) (suc to) (update form to (form from))

-- `for (i = is; i < *ip; ++i) p->form[p->alen+is-i] = 0`, n steps.
unfoldable pub wipe : (n top : ℕ) → Block → Block
wipe zero top form = form
wipe (suc n) top form = wipe n (top - 1) (update form top 0)

-- `for (i = p->alen-1; i >= *ip; --i) p->form[i-(*ip)+is+l] = p->form[i-(*ip)+is]`, n steps.
unfoldable pub shift_up : (n from to : ℕ) → Block → Block
shift_up zero from to form = form
shift_up (suc n) from to form = shift_up n from to (update form (to + n) (form (from + n)))

-- The characters of the new name, one by one: `p->form[i++] = c`
unfoldable pub put_text : List ℕ → ℕ → Block → Block
put_text [] at form = form
put_text (c ∷ cs) at form = put_text cs (suc at) (update form at c)

-- n characters of the array.
unfoldable pub chars : (n at : ℕ) → Block → List ℕ
chars zero at form = []
chars (suc n) at form = form at ∷ chars n (suc at) form

-- The text up to its NUL, in an array of n characters.
unfoldable pub until_nul : (n at : ℕ) → Block → List ℕ
until_nul zero at form = []
until_nul (suc n) at form =
    let rest = until_nul n (suc at) form in if form at == 0 then [] else form at ∷ rest

-- The place at a character of the 70 of the work cell.
unfoldable pub place_in : Block → ℕ → Place
unfolding chars until_nul
place_in form at = (turned_onto (chars at 0 form) [], until_nul 70 at form)

-- The array with the name from `is` to `ip` replaced by a new one of length l.
unfoldable pub replaced : (alen is ip l : ℕ) → List ℕ → Block → Block
unfolding shift_down wipe shift_up put_text
replaced alen is ip l name form =
    put_text name is (
      shift_up (alen - ip) is (is + l)
        (wipe (ip - is) alen (shift_down (suc alen - ip) ip is form)))

-- The name that was read is replaced by the new one: the place behind it, and the length of the
-- text. `before` are the characters in front of the name.
unfoldable pub changed_name : Edit → ℕ → Place → Name → Place × ℕ
unfolding form_of replaced place_in
changed_name e alen (before, _) n =
    let r = moved n.absolute_r e.del_row n.row in
    let c = moved n.absolute_c e.del_col n.col in
    let l = name_length n.absolute_c n.absolute_r r c in
    let is = length before in
    let ip = length n.place.0 in
    if asks e n.row n.col && has_room alen is ip r c l
    then (
      place_in (replaced alen is ip l (reference n.absolute_c n.absolute_r r c) (form_of n.place))
          (is + l),
      alen + l + is - ip,
    )
    else (n.place, alen)

-- `get_xy`: without an edit (`local_edit` is false) the text stays as it is.
unfoldable pub get_xy : Option Edit → ℕ → Place → Name × (Place × ℕ)
get_xy none alen p = let n = read_name p in (n, (n.place, alen))
get_xy (some e) alen p = let n = read_name p in (n, changed_name e alen p n)
