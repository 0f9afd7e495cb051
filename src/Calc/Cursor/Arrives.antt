-- ===== src/Calc/Cursor/Arrives.antt =====
-- Where the arrow keys of calc/c/calc.c lead to, and the loop that brings a column onto the screen.
-- Where a key leads to: at the edge of the sheet the cursor stays, with a bell.
use rsx.Base.{
  Bool-cases, arith, if◌then◌else◌, inl, inr, ltb, ltb→ge, ltb→lt, refl, some, suc, sym, true, zero,
  ℕ, ◌+◌, ◌-◌, ◌<◌, ◌∙◌, ◌≡◌, ◌≤◌,
}
use rsx.Calc.Cursor.{
  Arrow, Screen, byte_step, key_down, key_left, key_right, key_up, on_screen, scroll,
}
use rsx.Calc.Cursor.Shown.{
  IsNarrow, IsShown, byte_more, on_screen-total, total_width, total_width-one,
}

unfoldable pub row_after : Arrow → ℕ → ℕ
row_after key_up r = r - 1
row_after key_down r = if ltb r 255 then r + 1 else r
row_after key_right r = r
row_after key_left r = r

unfoldable pub col_after : Arrow → ℕ → ℕ
col_after key_up c = c
col_after key_down c = c
col_after key_right c = if ltb c 255 then c + 1 else c
col_after key_left c = c - 1

-- From s to t the cursor goes to the place, and is shown there, on the same sheet.
pub record Moves (s : Screen) (row col : ℕ) (t : Screen) : Type 0 where
  pub at_row : t.cur_r ≡ row
  pub at_col : t.cur_c ≡ col
  pub shown : IsShown t
  pub narrow : IsNarrow t

-- The loop of `horizontal` ends with the cursor's column on the screen.
pub scroll-Moves :
    (f : ℕ) (s : Screen)
    → IsNarrow s
    → s.home_r ≤ s.cur_r
    → s.cur_r < s.home_r + 20
    → s.cur_r < 256
    → s.home_c ≤ s.cur_c
    → s.cur_c < 256
    → s.cur_c < f + s.home_c
    → (t : Screen) × (scroll f s ≡ some t) × Moves s s.cur_r s.cur_c t
unfolding scroll
scroll-Moves zero s narrow below within row right_of col enough = absurd (omega arith)
scroll-Moves (suc f) s narrow below within row right_of col enough =
    elim (Bool-cases (ltb s.home_c s.cur_c)) [
      | inr z ↦ (
        s,
        rw (z) refl,
        record {
          at_row = refl;
          at_col = refl;
          shown = record {
            below = below;
            within = within;
            row_in = row;
            right_of = right_of;
            col_in = col;
            fits =
                total_width-one s narrow s.home_c (suc s.cur_c - s.home_c)
                  (omega (arith, ltb→ge _ _ z));
          };
          narrow = narrow;
        },
      )
      | inl z ↦ elim (Bool-cases (on_screen s s.cur_r s.cur_c)) [
        | inl y ↦ (
          s,
          rw (z, y) refl,
          record {
            at_row = refl;
            at_col = refl;
            shown = record {
              below = below;
              within = within;
              row_in = row;
              right_of = right_of;
              col_in = col;
              fits =
                  ltb→lt _ _
                    (sym (on_screen-total s s.cur_r s.cur_c narrow below within right_of col) ∙ y);
            };
            narrow = narrow;
          },
        )
        | inr y ↦
            let next_c = byte_more s.home_c (omega (arith, ltb→lt _ _ z)) in
            let (t, run, m) =
              scroll-Moves f (record s { home_c = byte_step true s.home_c }) narrow below within row
                (omega (arith, next_c, ltb→lt _ _ z)) col (omega (arith, next_c)) in
            (
              t,
              rw (z, y) run,
              record { at_row = m.at_row; at_col = m.at_col; shown = m.shown; narrow = m.narrow },
            )
      ]
    ]

-- The screen with the cursor at a place in a window.
pub arrived :
    (s : Screen) (top left r c row col : ℕ)
    → IsNarrow s
    → r ≡ row
    → c ≡ col
    → top ≤ r
    → r < top + 20
    → r < 256
    → left ≤ c
    → c < 256
    → 4 + total_width s.width left (suc c - left) < s.screen
    → Moves s row col (record s { home_r = top; home_c = left; cur_r = r; cur_c = c })
arrived s top left r c row col narrow at_row at_col below within row_in right_of col_in fits =
    record {
      at_row = at_row;
      at_col = at_col;
      shown = record {
        below = below;
        within = within;
        row_in = row_in;
        right_of = right_of;
        col_in = col_in;
        fits = fits;
      };
      narrow = narrow;
    }
