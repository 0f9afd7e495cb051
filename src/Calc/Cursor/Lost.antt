-- ===== src/Calc/Cursor/Lost.antt =====
-- A column of calc/c/calc.c that is as wide as the screen.
use rsx.Base.{
  Bool-cases, arith, false, ge→ltb, inl, inr, leb, ltb, lt→leb, lt→ltb, refl, some, subst, suc, sym,
  ℕ, ◌+◌, ◌-◌, ◌<◌, ◌||◌, ◌≡◌, ◌≤◌,
}
use rsx.Calc.Cursor.{
  Screen, add_widths, byte_step, key_up, on_screen, process_cursor, short_less, vertical,
}

one_column :
    (width : ℕ → ℕ) (from n : ℕ)
    → n ≡ 1
    → 4 + width from < 32768
    → add_widths width from n 4 ≡ 4 + width from
unfolding add_widths
one_column width from n e h = subst (λ m. add_widths width from m 4 ≡ 4 + width from) (sym e) single
  where
    single : add_widths width from 1 4 ≡ 4 + width from
    single = omega arith

too_wide :
    (s : Screen) (r : ℕ)
    → s.home_c ≡ s.cur_c
    → 4 + s.width s.home_c < 32768
    → s.screen ≤ 4 + s.width s.home_c
    → on_screen s r s.cur_c ≡ false
unfolding on_screen short_less
too_wide s r left h wide =
    elim (Bool-cases (ltb r s.home_r || (ltb s.cur_c s.home_c || leb (s.home_r + 20) r))) [
      | inl z ↦ rw z
      | inr z ↦ rw (
        z,
        one_column s.width s.home_c (suc s.cur_c - s.home_c) (omega (arith, left)) h,
        lt→leb 32768 (4 + s.width s.home_c) h,
        ge→ltb (4 + s.width s.home_c) s.screen wide,
      )
    ]

-- When the cursor stands below the first row of a window at the top of the sheet, in a column at the
-- left of the window that does not fit the screen, the key up brings the first row of the window to
-- 255, and the cursor's row is no longer in the window: on_screen, which vertical is chosen by, is
-- false for the row above as well, for the width.
pub process_cursor-lost :
    (f : ℕ) (s : Screen)
    → s.home_r ≡ 0
    → 0 < s.cur_r
    → s.cur_r < 20
    → s.home_c ≡ s.cur_c
    → 4 + s.width s.home_c < 32768
    → s.screen ≤ 4 + s.width s.home_c
    → (t : Screen) × (process_cursor f key_up s ≡ some t) × (t.home_r ≡ 255) × (t.cur_r < t.home_r)
unfolding process_cursor vertical byte_step
process_cursor-lost f s top pos low left short wide = (
  vertical false s,
  rw (lt→ltb 0 s.cur_r pos, too_wide s (s.cur_r - 1) left short wide) refl,
  omega (arith, top),
  omega (arith, top),
)
