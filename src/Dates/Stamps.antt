-- ===== src/Dates/Stamps.antt =====
-- What is read from dates, names and permissions after they are stored: indexf.c and misc.c.
use rsx.Base.{
  Block, Bool-cases, List, [], ap, arith, eq→==, get_or, if◌then◌else◌, inl, inr, leb, ltb, ltb→ge,
  ltb→lt, ne→==, refl, suc, true, zero, ℕ, ◌%◌, ◌*◌, ◌+◌, ◌-◌, ◌/◌, ◌<◌, ◌∙◌, ◌∷◌, ◌≡◌,
}
use rsx.Dates.{
  Tm, date_digits, decimal, filled, from_bcd, is_month, month_names, pack, read_stamp, set_date,
  stamp_text, timestamp_str,
}

-- A date in the range of the seven bytes.
abbrev pub IsDate : Tm → Type 0
IsDate t =
    (t.year < 10000)
    × (leb 1 t.month ≡ true)
    × (t.month < 13)
    × (t.day < 100)
    × (t.hour < 100)
    × (t.minute < 100)
    × (t.second < 100)

stored :
    (buf : Block) (at : ℕ) (t : Tm) (i : ℕ)
    → i < 7
    → set_date buf at t (at + i) ≡ pack (date_digits t) i
unfolding set_date
stored buf at t i h = ground arith

stored_first : (buf : Block) (at : ℕ) (t : Tm) → set_date buf at t at ≡ pack (date_digits t) 0
unfolding set_date
stored_first buf at t = ground arith

bcd_back : (n : ℕ) → n < 100 → from_bcd ((n / 10 * 16 + n % 10) % 256) ≡ n
bcd_back n h = omega arith

year_back :
    (y : ℕ)
    → y < 10000
    → (y / 1000 * 16 + y / 100 % 10) % 256 / 16 % 16 * 1000
        + (y / 1000 * 16 + y / 100 % 10) % 256 % 16 * 100
        + from_bcd ((y / 10 % 10 * 16 + y % 10) % 256)
      ≡ y
year_back y h = omega arith

tm_eq :
    (t : Tm) {y m d h n s : ℕ}
    → y ≡ t.year
    → m ≡ t.month
    → d ≡ t.day
    → h ≡ t.hour
    → n ≡ t.minute
    → s ≡ t.second
    → record { year = y; month = m; day = d; hour = h; minute = n; second = s } ≡ t
tm_eq t ey em ed eh en es =
    λ i. record { year = ey i; month = em i; day = ed i; hour = eh i; minute = en i; second = es i }

read_stamp-set_date :
    (buf : Block) (at : ℕ) (t : Tm) → IsDate t → read_stamp (set_date buf at t) at ≡ t
unfolding read_stamp date_digits
read_stamp-set_date buf at t h =
    rw
      (
        stored_first buf at t,
        stored buf at t 1 (omega arith),
        stored buf at t 2 (omega arith),
        stored buf at t 3 (omega arith),
        stored buf at t 4 (omega arith),
        stored buf at t 5 (omega arith),
        stored buf at t 6 (omega arith),
      )
      (tm_eq t (year_back t.year h.0) (bcd_back t.month (omega arith)) (bcd_back t.day h.3)
        (bcd_back t.hour h.4) (bcd_back t.minute h.5) (bcd_back t.second h.6))

-- The names of the months, one behind the other.
abbrev pub month_letters : List ℕ
month_letters =
    b'J' ∷ b'a' ∷ b'n' ∷ b'F' ∷ b'e' ∷ b'b' ∷ b'M' ∷ b'a' ∷ b'r' ∷ b'A' ∷ b'p' ∷ b'r' ∷ b'M' ∷ b'a'
    ∷ b'y' ∷ b'J' ∷ b'u' ∷ b'n' ∷ b'J' ∷ b'u' ∷ b'l' ∷ b'A' ∷ b'u' ∷ b'g' ∷ b'S' ∷ b'e' ∷ b'p'
    ∷ b'O' ∷ b'c' ∷ b't' ∷ b'N' ∷ b'o' ∷ b'v' ∷ b'D' ∷ b'e' ∷ b'c' ∷ []

-- A date as it stands on the listing, character by character.
unfoldable pub date_text : Tm → List ℕ
date_text t =
    (if ltb t.day 10 then 32 else 48 + t.day / 10)
    ∷ (48 + t.day % 10)
    ∷ 45
    ∷ get_or month_letters (3 * (t.month - 1)) 0
    ∷ get_or month_letters (3 * (t.month - 1) + 1) 0
    ∷ get_or month_letters (3 * (t.month - 1) + 2) 0
    ∷ 45
    ∷ (48 + t.year / 1000)
    ∷ (48 + t.year / 100 % 10)
    ∷ (48 + t.year / 10 % 10)
    ∷ (48 + t.year % 10)
    ∷ 32
    ∷ 32
    ∷ (48 + t.hour / 10)
    ∷ (48 + t.hour % 10)
    ∷ 58
    ∷ (48 + t.minute / 10)
    ∷ (48 + t.minute % 10)
    ∷ 58
    ∷ (48 + t.second / 10)
    ∷ (48 + t.second % 10)
    ∷ []

month_text :
    (k : ℕ)
    → k < 12
    → get_or month_names k []
      ≡ get_or month_letters (3 * k) 0
        ∷ get_or month_letters (3 * k + 1) 0
        ∷ get_or month_letters (3 * k + 2) 0
        ∷ []
month_text zero h = refl
month_text (suc zero) h = refl
month_text (suc (suc zero)) h = refl
month_text (suc (suc (suc zero))) h = refl
month_text (suc (suc (suc (suc zero)))) h = refl
month_text (suc (suc (suc (suc (suc zero))))) h = refl
month_text (suc (suc (suc (suc (suc (suc zero)))))) h = refl
month_text (suc (suc (suc (suc (suc (suc (suc zero))))))) h = refl
month_text (suc (suc (suc (suc (suc (suc (suc (suc zero)))))))) h = refl
month_text (suc (suc (suc (suc (suc (suc (suc (suc (suc zero))))))))) h = refl
month_text (suc (suc (suc (suc (suc (suc (suc (suc (suc (suc zero)))))))))) h = refl
month_text (suc (suc (suc (suc (suc (suc (suc (suc (suc (suc (suc zero))))))))))) h = refl
month_text (suc (suc (suc (suc (suc (suc (suc (suc (suc (suc (suc (suc k)))))))))))) h =
    absurd (omega arith)

below_ten : (n : ℕ) → n < 10 → n % 10 ≡ n
below_ten n h = omega arith

one_digit : (n : ℕ) → n < 10 → decimal 5 n [] ≡ (48 + n % 10) ∷ []
unfolding decimal
one_digit n h = rw (eq→== (n / 10) 0 (omega arith)) refl

two_digits_of : (n : ℕ) → 9 < n → n < 100 → decimal 5 n [] ≡ (48 + n / 10) ∷ (48 + n % 10) ∷ []
unfolding decimal
two_digits_of n h k =
    rw
      (
        ne→== (n / 10) 0 (omega arith),
        eq→== (n / 10 / 10) 0 (omega arith),
        below_ten (n / 10) (omega arith),
      )
      refl

two_filled :
    (n fill : ℕ)
    → n < 100
    → filled 2 fill (decimal 5 n []) ≡ (if ltb n 10 then fill else 48 + n / 10) ∷ (48 + n % 10) ∷ []
unfolding filled
two_filled n fill h = elim (Bool-cases (ltb n 10)) [
  | inl z ↦ rw (z, one_digit n (ltb→lt n 10 z)) refl
  | inr z ↦ rw (z, two_digits_of n (ltb→ge n 10 z) h) refl
]

three_digits_of :
    (n : ℕ)
    → 99 < n
    → n < 1000
    → decimal 5 n [] ≡ (48 + n / 100) ∷ (48 + n / 10 % 10) ∷ (48 + n % 10) ∷ []
unfolding decimal
three_digits_of n h k =
    rw
      (
        ne→== (n / 10) 0 (omega arith),
        ne→== (n / 10 / 10) 0 (omega arith),
        eq→== (n / 10 / 10 / 10) 0 (omega arith),
        (let e : n / 10 / 10 % 10 ≡ n / 100 = omega arith in e),
      )
      refl

four_digits_of :
    (n : ℕ)
    → 999 < n
    → n < 10000
    → decimal 5 n []
      ≡ (48 + n / 1000) ∷ (48 + n / 100 % 10) ∷ (48 + n / 10 % 10) ∷ (48 + n % 10) ∷ []
unfolding decimal
four_digits_of n h k =
    rw
      (
        ne→== (n / 10) 0 (omega arith),
        ne→== (n / 10 / 10) 0 (omega arith),
        ne→== (n / 10 / 10 / 10) 0 (omega arith),
        eq→== (n / 10 / 10 / 10 / 10) 0 (omega arith),
        (let e : n / 10 / 10 / 10 % 10 ≡ n / 1000 = omega arith in e),
        (let e : n / 10 / 10 % 10 ≡ n / 100 % 10 = omega arith in e),
      )
      refl

four_filled :
    (n : ℕ)
    → n < 10000
    → filled 4 48 (decimal 5 n [])
      ≡ (48 + n / 1000) ∷ (48 + n / 100 % 10) ∷ (48 + n / 10 % 10) ∷ (48 + n % 10) ∷ []
unfolding filled
four_filled n h = elim (Bool-cases (ltb n 10)) [
  | inl z ↦
      let small = ltb→lt n 10 z in
      let e3 : n / 1000 ≡ 0 = omega arith in
      let e2 : n / 100 % 10 ≡ 0 = omega arith in
      let e1 : n / 10 % 10 ≡ 0 = omega arith in rw (one_digit n small, e3, e2, e1) refl
  | inr z ↦ elim (Bool-cases (ltb n 100)) [
    | inl y ↦
        let small = ltb→lt n 100 y in
        let e3 : n / 1000 ≡ 0 = omega arith in
        let e2 : n / 100 % 10 ≡ 0 = omega arith in
        let e1 : n / 10 % 10 ≡ n / 10 = omega arith in
        rw (two_digits_of n (ltb→ge n 10 z) small, e3, e2, e1) refl
    | inr y ↦ elim (Bool-cases (ltb n 1000)) [
      | inl x ↦
          let small = ltb→lt n 1000 x in
          let e3 : n / 1000 ≡ 0 = omega arith in
          let e2 : n / 100 % 10 ≡ n / 100 = omega arith in
          rw (three_digits_of n (ltb→ge n 100 y) small, e3, e2) refl
      | inr x ↦ rw (four_digits_of n (ltb→ge n 1000 x) h) refl
    ]
  ]
]

two_zero : (n : ℕ) → n < 100 → filled 2 48 (decimal 5 n []) ≡ (48 + n / 10) ∷ (48 + n % 10) ∷ []
two_zero n h = two_filled n 48 h ∙ ap (λ c. c ∷ (48 + n % 10) ∷ []) (tens n)
  where
    tens : (n : ℕ) → (if ltb n 10 then 48 else 48 + n / 10) ≡ 48 + n / 10
    tens n = ground arith

printed : (t : Tm) → IsDate t → (if is_month t.month then stamp_text t else []) ≡ date_text t
unfolding stamp_text date_text
printed t h =
    let in_year : is_month t.month ≡ true = ground (arith, h.1, h.2) in
    rw
      (
        in_year,
        two_filled t.day 32 h.3,
        month_text (t.month - 1) (omega (arith, h.2)),
        four_filled t.year h.0,
        two_zero t.hour h.4,
        two_zero t.minute h.5,
        two_zero t.second h.6,
      )
      refl

-- For a date that set_date has stored, with a year of at most four digits, a month from 1 to 12
-- and the other fields below 100, timestamp_str prints the day in two characters, the first of
-- them a blank if it has one digit, the three letters of the month, and the year in four digits,
-- with dashes between, and behind two blanks the time in two digits each, with colons between.
pub timestamp_str-set_date :
    (buf : Block) (at : ℕ) (t : Tm) → IsDate t → timestamp_str (set_date buf at t) at ≡ date_text t
unfolding timestamp_str
timestamp_str-set_date buf at t h =
    ap (λ u. if is_month u.month then stamp_text u else []) (read_stamp-set_date buf at t h)
    ∙ printed t h
