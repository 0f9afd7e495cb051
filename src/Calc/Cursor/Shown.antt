-- ===== src/Calc/Cursor/Shown.antt =====
-- What `on_screen` of calc/c/calc.c computes, on columns that are narrower than the screen.
-- The widths of n columns.
use rsx.Base.{
  Bool, Bool-cases, ap, arith, false, ge→ltb, inl, inr, le→leb, ltb, ltb→ge, lt→leb, lt→ltb, refl,
  subst, suc, sym, true, zero, ℕ, ◌%◌, ◌*◌, ◌+◌, ◌-◌, ◌<◌, ◌||◌, ◌∙◌, ◌≡◌, ◌≤◌,
}
use rsx.Calc.Cursor.{Screen, add_widths, byte_step, on_screen, short_less}

unfoldable pub total_width : (ℕ → ℕ) → ℕ → ℕ → ℕ
total_width width from zero = 0
total_width width from (suc n) = width from + total_width width (suc from) n

-- Every column fits the screen beside the four characters of the row's number.
abbrev pub IsNarrow : Screen → Type 0
IsNarrow s = (s.screen ≤ 132) × ((i : ℕ) → s.width i + 4 < s.screen)

-- The cursor is in the sheet, in the window, and all of its column is on the screen.
pub record IsShown (s : Screen) : Type 0 where
  pub below : s.home_r ≤ s.cur_r
  pub within : s.cur_r < s.home_r + 20
  pub row_in : s.cur_r < 256
  pub right_of : s.home_c ≤ s.cur_c
  pub col_in : s.cur_c < 256
  pub fits : 4 + total_width s.width s.home_c (suc s.cur_c - s.home_c) < s.screen

total_width-bound :
    (width : ℕ → ℕ) (m : ℕ)
    → ((i : ℕ) → width i ≤ m)
    → (n from : ℕ) → total_width width from n ≤ m * n
unfolding total_width
total_width-bound width m h zero from = omega arith
total_width-bound width m h (suc n) from =
    ground (arith, h from, total_width-bound width m h n (suc from))

add_widths-total :
    (width : ℕ → ℕ) (n from col : ℕ)
    → col + total_width width from n < 65536
    → add_widths width from n col ≡ col + total_width width from n
unfolding add_widths total_width
add_widths-total width zero from col h = omega arith
add_widths-total width (suc n) from col h =
    rw (add_widths-total width n (suc from) ((col + width from) % 65536) (omega arith))
      (omega arith)

pub total_width-last :
    (width : ℕ → ℕ) (n from : ℕ)
    → total_width width from (suc n) ≡ total_width width from n + width (from + n)
unfolding total_width
total_width-last width zero from = let last = ap width last_index in omega (arith, last)
  where
    last_index : from ≡ from + 0
    last_index = omega arith
total_width-last width (suc n) from =
    let last = ap width last_index in omega (arith, last, total_width-last width n (suc from))
  where
    last_index : suc from + n ≡ from + suc n
    last_index = omega arith

-- One column.
pub total_width-one :
    (s : Screen) → IsNarrow s → (i n : ℕ) → n ≡ 1 → 4 + total_width s.width i n < s.screen
unfolding total_width
total_width-one s narrow i n e =
    subst (λ m. 4 + total_width s.width i m < s.screen) (sym e) (single i)
  where
    single : (i : ℕ) → 4 + total_width s.width i 1 < s.screen
    single i = omega (arith, narrow.1 i)

-- Within the window, `on_screen` compares the widths.
pub on_screen-total :
    (s : Screen) (r c : ℕ)
    → IsNarrow s
    → s.home_r ≤ r
    → r < s.home_r + 20
    → s.home_c ≤ c
    → c < 256
    → on_screen s r c ≡ ltb (4 + total_width s.width s.home_c (suc c - s.home_c)) s.screen
unfolding on_screen short_less
on_screen-total s r c narrow up down left h = rw (
  ge→ltb r s.home_r up,
  ge→ltb c s.home_c left,
  lt→leb (s.home_r + 20) r down,
  add_widths-total s.width (suc c - s.home_c) s.home_c 4 (omega (arith, bound, scaled)),
  lt→leb 32768 (4 + total_width s.width s.home_c (suc c - s.home_c)) (omega (arith, bound, scaled)),
)
  where
    bound : total_width s.width s.home_c (suc c - s.home_c) ≤ 127 * (suc c - s.home_c)
    bound =
        total_width-bound s.width 127 (λ i. omega (arith, narrow.0, narrow.1 i)) (suc c - s.home_c)
          s.home_c

    scaled : 127 * (suc c - s.home_c) ≤ 32512
    scaled = omega arith

-- A place that is not on the screen is outside the window, or its column does not fit.
pub on_screen-false :
    (s : Screen) (r c : ℕ)
    → on_screen s r c ≡ false
    → IsNarrow s
    → s.home_r ≤ r
    → r < s.home_r + 20
    → s.home_c ≤ c
    → c < 256
    → s.screen ≤ 4 + total_width s.width s.home_c (suc c - s.home_c)
on_screen-false s r c e narrow up down left h =
    ltb→ge _ s.screen (sym (on_screen-total s r c narrow up down left h) ∙ e)

pub byte_more : (v : ℕ) → v < 255 → byte_step true v ≡ v + 1
unfolding byte_step
byte_more v h = omega arith

pub byte_less : (v : ℕ) → 0 < v → v < 256 → byte_step false v ≡ v - 1
unfolding byte_step
byte_less v h k = omega arith

or_true : (b : Bool) → (b || true) ≡ true
or_true true = refl
or_true false = refl

pub above : (s : Screen) (r c : ℕ) → r < s.home_r → on_screen s r c ≡ false
unfolding on_screen
above s r c h = rw (lt→ltb r s.home_r h)

pub beneath : (s : Screen) (r c : ℕ) → s.home_r + 20 ≤ r → on_screen s r c ≡ false
unfolding on_screen
beneath s r c h =
    rw (ge→ltb r s.home_r (omega arith), le→leb (s.home_r + 20) r h, or_true (ltb c s.home_c))

pub beside : (s : Screen) (r c : ℕ) → c < s.home_c → on_screen s r c ≡ false
unfolding on_screen
beside s r c h = elim (Bool-cases (ltb r s.home_r)) [
  | inl z ↦ rw z
  | inr z ↦ rw (z, lt→ltb c s.home_c h)
]
