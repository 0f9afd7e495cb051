-- ===== src/Dates.antt =====
-- Tools/linux/vol180/misc.c and the dates and names in an entry of the index file, indexf.c.
-- `localtime`, `mktime` and `toupper` are the C library's: a `struct tm` is the argument, or the
-- function a parameter. A string is the list of its characters.
pub mod Stamps
use rsx.Base.{
  Block, Bool, List, [], get_int16, get_or, has_bit, if◌then◌else◌, leb, length, ltb, suc, take,
  zero, ℕ, ◌%◌, ◌&&◌, ◌*◌, ◌++◌, ◌+◌, ◌-◌, ◌/◌, ◌==◌, ◌||◌, ◌∷◌,
}

-- The fields of `struct tm` that the code uses, with the year and the month as they are printed.
pub record Tm : Type 0 where
  pub year : ℕ
  pub month : ℕ
  pub day : ℕ
  pub hour : ℕ
  pub minute : ℕ
  pub second : ℕ

-- `%02d` for a number below 100, and `%04d` for one below 10000, as digits.
abbrev pub two_digits : ℕ → List ℕ
two_digits n = (n / 10) ∷ (n % 10) ∷ []

abbrev pub four_digits : ℕ → List ℕ
four_digits n = (n / 1000) ∷ (n / 100 % 10) ∷ (n / 10 % 10) ∷ (n % 10) ∷ []

-- `temp`, without the 15th character that `snprintf` cuts.
unfoldable pub date_digits : Tm → List ℕ
date_digits t = take 14 (
    four_digits t.year
    ++ two_digits t.month
    ++ two_digits t.day
    ++ two_digits t.hour
    ++ two_digits t.minute
    ++ two_digits t.second)

-- `((temp[2*i] - '0') << 4) + (temp[2*i+1] - '0')`, stored in a byte.
abbrev pub pack : List ℕ → ℕ → ℕ
pack temp i = (get_or temp (2 * i) 0 * 16 + get_or temp (2 * i + 1) 0) % 256

-- `set_date`: seven bytes at `at`.
unfoldable pub set_date : Block → ℕ → Tm → Block
unfolding date_digits
set_date buf at t o = if leb at o && ltb o (at + 7) then pack (date_digits t) (o - at) else buf o

unfoldable pub set_cdate : Block → Tm → Block
unfolding set_date
set_cdate entry t = set_date entry 16 t

unfoldable pub set_mdate : Block → Tm → Block
unfolding set_date
set_mdate entry t = set_date entry 23 t

-- `((e >> 4) & 0x0F) * 10 + (e & 0x0F)`
abbrev pub from_bcd : ℕ → ℕ
from_bcd e = e / 16 % 16 * 10 + e % 16

-- The digits that `timestamp_str` and `timestamp_to_secs` read at `at`.
unfoldable pub read_stamp : Block → ℕ → Tm
read_stamp e at = record {
  year = e at / 16 % 16 * 1000 + e at % 16 * 100 + from_bcd (e (at + 1));
  month = from_bcd (e (at + 2));
  day = from_bcd (e (at + 3));
  hour = from_bcd (e (at + 4));
  minute = from_bcd (e (at + 5));
  second = from_bcd (e (at + 6));
}

abbrev pub is_month : ℕ → Bool
is_month m = leb 1 m && leb m 12

-- `%d`: the decimal digits, in front of acc.
unfoldable pub decimal : ℕ → ℕ → List ℕ → List ℕ
decimal zero n acc = acc
decimal (suc fuel) n acc =
    let acc' = (48 + n % 10) ∷ acc in
    let more = decimal fuel (n / 10) acc' in if n / 10 == 0 then acc' else more

unfoldable pub repeated : ℕ → ℕ → List ℕ
repeated zero c = []
repeated (suc n) c = c ∷ repeated n c

-- A field of `printf` of width w, filled from the left.
unfoldable pub filled : ℕ → ℕ → List ℕ → List ℕ
unfolding repeated
filled w fill cs = repeated (w - length cs) fill ++ cs

-- `month`
abbrev pub month_names : List (List ℕ)
month_names =
    (b'J' ∷ b'a' ∷ b'n' ∷ [])
    ∷ (b'F' ∷ b'e' ∷ b'b' ∷ [])
    ∷ (b'M' ∷ b'a' ∷ b'r' ∷ [])
    ∷ (b'A' ∷ b'p' ∷ b'r' ∷ [])
    ∷ (b'M' ∷ b'a' ∷ b'y' ∷ [])
    ∷ (b'J' ∷ b'u' ∷ b'n' ∷ [])
    ∷ (b'J' ∷ b'u' ∷ b'l' ∷ [])
    ∷ (b'A' ∷ b'u' ∷ b'g' ∷ [])
    ∷ (b'S' ∷ b'e' ∷ b'p' ∷ [])
    ∷ (b'O' ∷ b'c' ∷ b't' ∷ [])
    ∷ (b'N' ∷ b'o' ∷ b'v' ∷ [])
    ∷ (b'D' ∷ b'e' ∷ b'c' ∷ [])
    ∷ []

-- `sprintf(str, "%2d-%s-%04d  %02d:%02d:%02d", dd, month[mm-1], yy, h, m, s)`
unfoldable pub stamp_text : Tm → List ℕ
unfolding decimal filled
stamp_text t =
    filled 2 b' ' (decimal 5 t.day [])
    ++ (b'-' ∷ get_or month_names (t.month - 1) [])
    ++ (b'-' ∷ filled 4 b'0' (decimal 5 t.year []))
    ++ (b' ' ∷ b' ' ∷ filled 2 b'0' (decimal 5 t.hour []))
    ++ (b':' ∷ filled 2 b'0' (decimal 5 t.minute []))
    ++ (b':' ∷ filled 2 b'0' (decimal 5 t.second []))

-- `timestamp_str`: the date that is printed, or the empty string.
unfoldable pub timestamp_str : Block → ℕ → List ℕ
unfolding read_stamp stamp_text
timestamp_str e at = let t = read_stamp e at in if is_month t.month then stamp_text t else []

-- `timestamp_to_secs`, with the C library's `mktime` on the fields that are set.
unfoldable pub timestamp_to_secs : (Tm → ℕ) → Block → ℕ → ℕ
unfolding read_stamp
timestamp_to_secs mktime e at = let t = read_stamp e at in if is_month t.month then mktime t else 0

-- `strupr`
unfoldable pub strupr : (ℕ → ℕ) → List ℕ → List ℕ
strupr toupper [] = []
strupr toupper (c ∷ cs) = toupper c ∷ strupr toupper cs

-- `if (perm & m) strcat(temp, c)` for the four rights of one class, from mask m down.
abbrev pub right : ℕ → ℕ → ℕ → List ℕ → List ℕ
right perm m c cs = if has_bit perm m then c ∷ cs else cs

abbrev pub rights : ℕ → ℕ → List ℕ → List ℕ
rights perm m rest =
    right perm m 82 (right perm (m / 2) 87 (right perm (m / 4) 69 (right perm (m / 8) 68 rest)))

-- `perm_str`: system, owner, group and world, with commas between.
unfoldable pub perm_str : ℕ → List ℕ
perm_str perm =
    rights perm 0x8000
      (44 ∷ rights perm 0x0800 (44 ∷ rights perm 0x0080 (44 ∷ rights perm 0x0008 [])))

-- `*s ? *s++ : ' '`: character i of a string in a field.
abbrev pub padded : List ℕ → ℕ → ℕ
padded s i = get_or s i 32

-- `set_name`: the name, the extension and the version in an entry of the index file.
unfoldable pub set_name : Block → (fname ext : List ℕ) → ℕ → Block
set_name entry fname ext vers o =
    if leb 50 o && ltb o 59
    then padded fname (o - 50)
    else if leb 59 o && ltb o 62
    then padded ext (o - 59)
    else if o == 62
    then vers % 256
    else if o == 63
    then vers / 256 % 256
    else entry o

-- The characters of a field that are neither zero nor blank.
abbrev pub keep : ℕ → List ℕ → List ℕ
keep c cs = if (c == 0) || (c == 32) then cs else c ∷ cs

unfoldable pub field_text : Block → (at len : ℕ) → List ℕ
field_text entry at zero = []
field_text entry at (suc n) = keep (entry at) (field_text entry (at + 1) n)

-- The version is printed by `snprintf(p, 5, "%d", vers)`: its digits, cut after four.
unfoldable pub get_name : Block → List ℕ
unfolding field_text decimal
get_name entry =
    field_text entry 50 9
    ++ (46 ∷ field_text entry 59 3)
    ++ (59 ∷ take 4 (decimal 5 (get_int16 entry 62) []))
