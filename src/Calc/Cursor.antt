-- ===== src/Calc/Cursor.antt =====
-- The cursor of calc/c/calc.c: `on_screen`, `vertical`, `horizontal` and `process_cursor`, less what
-- they write to the terminal.
pub mod Shown
pub mod Arrives
pub mod Moves
pub mod Reach
pub mod Lost
use rsx.Base.{
  Bool, List, Option, [], false, if◌then◌else◌, leb, ltb, none, not, some, suc, true, zero, ℕ, ◌%◌,
  ◌&&◌, ◌+◌, ◌-◌, ◌>>=◌, ◌||◌, ◌∷◌,
}

-- `home_r`, `home_c`, `cur_r`, `cur_c`, the width of the screen and those of the columns.
pub record Screen : Type 0 where
  pub home_r : ℕ
  pub home_c : ℕ
  pub cur_r : ℕ
  pub cur_c : ℕ
  pub screen : ℕ
  pub width : ℕ → ℕ

-- `for (i = from; n more; ++i) col += width[i]` on a short
unfoldable pub add_widths : (ℕ → ℕ) → ℕ → ℕ → ℕ → ℕ
add_widths width from zero col = col
add_widths width from (suc n) col = add_widths width (suc from) n ((col + width from) % 65536)

-- `col < screen`, where `col` may be negative
unfoldable pub short_less : ℕ → ℕ → Bool
short_less col screen = leb 32768 col || ltb col screen

unfoldable pub on_screen : Screen → ℕ → ℕ → Bool
unfolding add_widths short_less
on_screen s r c =
    if ltb r s.home_r || (ltb c s.home_c || leb (s.home_r + 20) r)
    then false
    else short_less (add_widths s.width s.home_c (suc c - s.home_c) 4) s.screen

-- The new value of a byte: one more, or one less.
unfoldable pub byte_step : Bool → ℕ → ℕ
byte_step true v = (v + 1) % 256
byte_step false v = (v + 255) % 256

-- `vertical(1)` and `vertical(-1)`
unfoldable pub vertical : Bool → Screen → Screen
unfolding byte_step
vertical more s = record s { cur_r = byte_step more s.cur_r; home_r = byte_step more s.home_r }

-- The loop in `horizontal`, on fuel: none says that the fuel is used up.
unfoldable pub scroll : ℕ → Screen → Option Screen
unfolding on_screen
scroll zero s = none
scroll (suc f) s =
    let again = scroll f (record s { home_c = byte_step true s.home_c }) in
    if ltb s.home_c s.cur_c && not (on_screen s s.cur_r s.cur_c) then again else some s

unfoldable pub horizontal : ℕ → Bool → Screen → Option Screen
unfolding scroll byte_step
horizontal f more s =
    scroll f (record s { cur_c = byte_step more s.cur_c; home_c = byte_step more s.home_c })

-- The keys `ESC [ A` to `ESC [ D`.
pub data Arrow : Type 0 where
  key_up key_down key_right key_left : Arrow

unfoldable pub process_cursor : ℕ → Arrow → Screen → Option Screen
unfolding on_screen vertical horizontal
process_cursor f key_up s =
    if ltb 0 s.cur_r
    then (if on_screen s (s.cur_r - 1) s.cur_c
        then some (record s { cur_r = s.cur_r - 1 })
        else some (vertical false s))
    else some s
process_cursor f key_down s =
    if ltb s.cur_r 255
    then (if on_screen s (s.cur_r + 1) s.cur_c
        then some (record s { cur_r = s.cur_r + 1 })
        else some (vertical true s))
    else some s
process_cursor f key_right s =
    if ltb s.cur_c 255
    then (if on_screen s s.cur_r (s.cur_c + 1)
        then some (record s { cur_c = s.cur_c + 1 })
        else horizontal f true s)
    else some s
process_cursor f key_left s =
    if ltb 0 s.cur_c
    then (if on_screen s s.cur_r (s.cur_c - 1)
        then some (record s { cur_c = s.cur_c - 1 })
        else horizontal f false s)
    else some s

unfoldable pub press : ℕ → List Arrow → Screen → Option Screen
press f [] s = some s
press f (k ∷ ks) s = process_cursor f k s >>= press f ks
