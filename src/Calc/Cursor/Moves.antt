-- ===== src/Calc/Cursor/Moves.antt =====
-- The arrow keys of calc/c/calc.c keep the cursor on the screen.
use rsx.Base.{
  Bool-cases, ap, arith, false, inl, inr, ltb, ltb→ge, ltb→lt, lt→ltb, refl, some, subst, suc, sym,
  true, ℕ, ◌+◌, ◌-◌, ◌<◌, ◌∙◌, ◌≡◌, ◌≤◌,
}
use rsx.Calc.Cursor.{
  Arrow, Screen, byte_step, horizontal, key_down, key_left, key_right, key_up, on_screen,
  process_cursor, vertical,
}
use rsx.Calc.Cursor.Arrives.{Moves, arrived, col_after, row_after, scroll-Moves}
use rsx.Calc.Cursor.Shown.{
  IsNarrow, IsShown, above, beneath, beside, byte_less, byte_more, on_screen-total, total_width,
  total_width-last,
}

module _ (s : Screen) (narrow : IsNarrow s) (shown : IsShown s) where
  open shown use {below, within, row_in, right_of, col_in, fits}

  -- The key does nothing but ring the bell.
  stays : Moves s s.cur_r s.cur_c s
  stays =
      arrived s s.home_r s.home_c s.cur_r s.cur_c s.cur_r s.cur_c narrow refl refl below within
        row_in right_of col_in fits

  pub up-Moves :
      (f : ℕ)
      → (t : Screen) × (process_cursor f key_up s ≡ some t) × Moves s (s.cur_r - 1) s.cur_c t
  unfolding process_cursor vertical
  up-Moves f = elim (Bool-cases (ltb 0 s.cur_r)) [
    | inr z ↦ (s, rw z refl, subst (λ r. Moves s r s.cur_c s) (omega (arith, ltb→ge _ _ z)) stays)
    | inl z ↦
        let pos = ltb→lt _ _ z in
        elim (Bool-cases (ltb s.home_r s.cur_r)) [
          | inl y ↦
              let under = ltb→lt _ _ y in
              (
                record s { cur_r = s.cur_r - 1 },
                rw
                    (
                      z,
                      on_screen-total s (s.cur_r - 1) s.cur_c narrow (omega arith) (omega arith)
                          right_of col_in,
                      lt→ltb _ s.screen fits,
                    )
                    refl,
                arrived s s.home_r s.home_c (s.cur_r - 1) s.cur_c _ _ narrow refl refl (omega arith)
                    (omega arith) (omega arith) right_of col_in fits,
              )
          | inr y ↦
              let top = ltb→ge _ _ y in
              (
                vertical false s,
                rw (z, above s (s.cur_r - 1) s.cur_c (omega arith)) refl,
                arrived s (byte_step false s.home_r) s.home_c (byte_step false s.cur_r) s.cur_c _ _
                    narrow (byte_less s.cur_r pos row_in) refl
                    (omega (
                      arith,
                      byte_less s.cur_r pos row_in,
                      byte_less s.home_r (omega arith) (omega arith),
                    ))
                    (omega (
                      arith,
                      byte_less s.cur_r pos row_in,
                      byte_less s.home_r (omega arith) (omega arith),
                    ))
                    (omega (arith, byte_less s.cur_r pos row_in)) right_of col_in fits,
              )
        ]
  ]

  pub down-Moves :
      (f : ℕ)
      → (t : Screen) × (process_cursor f key_down s ≡ some t)
        × Moves s (row_after key_down s.cur_r) s.cur_c t
  unfolding process_cursor vertical row_after
  down-Moves f = elim (Bool-cases (ltb s.cur_r 255)) [
    | inr z ↦ (s, rw z refl, rw z stays)
    | inl z ↦
        let more = ltb→lt _ _ z in
        elim (Bool-cases (ltb (s.cur_r + 1) (s.home_r + 20))) [
          | inl y ↦
              let over = ltb→lt _ _ y in
              (
                record s { cur_r = s.cur_r + 1 },
                rw
                    (
                      z,
                      on_screen-total s (s.cur_r + 1) s.cur_c narrow (omega arith) over right_of
                          col_in,
                      lt→ltb _ s.screen fits,
                    )
                    refl,
                rw z (
                    arrived s s.home_r s.home_c (s.cur_r + 1) s.cur_c _ _ narrow refl refl
                      (omega arith) over (omega arith) right_of col_in fits),
              )
          | inr y ↦
              let bottom = ltb→ge _ _ y in
              (
                vertical true s,
                rw (z, beneath s (s.cur_r + 1) s.cur_c bottom) refl,
                rw z (
                    arrived s (byte_step true s.home_r) s.home_c (byte_step true s.cur_r) s.cur_c _
                      _ narrow (byte_more s.cur_r more) refl
                      (omega (arith, byte_more s.cur_r more, byte_more s.home_r (omega arith)))
                      (omega (arith, byte_more s.cur_r more, byte_more s.home_r (omega arith)))
                      (omega (arith, byte_more s.cur_r more)) right_of col_in fits),
              )
        ]
  ]

  pub right-Moves :
      (f : ℕ)
      → 256 ≤ f
      → (t : Screen) × (process_cursor f key_right s ≡ some t)
        × Moves s s.cur_r (col_after key_right s.cur_c) t
  unfolding process_cursor horizontal col_after
  right-Moves f enough = elim (Bool-cases (ltb s.cur_c 255)) [
    | inr z ↦ (s, rw z refl, rw z stays)
    | inl z ↦
        let more = ltb→lt _ _ z in
        elim (Bool-cases (on_screen s s.cur_r (s.cur_c + 1))) [
          | inl y ↦ (
            record s { cur_c = s.cur_c + 1 },
            rw (z, y) refl,
            rw z (
                arrived s s.home_r s.home_c s.cur_r (s.cur_c + 1) _ _ narrow refl refl below within
                  row_in (omega arith) (omega arith)
                  (ltb→lt _ _ (
                    sym (
                      on_screen-total s s.cur_r (s.cur_c + 1) narrow below within (omega arith)
                        (omega arith))
                    ∙ y))),
          )
          | inr y ↦
              let cur = byte_more s.cur_c more in
              let home = byte_more s.home_c (omega arith) in
              let (t, run, m) =
                scroll-Moves f
                  (record s { cur_c = byte_step true s.cur_c; home_c = byte_step true s.home_c })
                  narrow below within row_in (omega (arith, cur, home)) (omega (arith, cur))
                  (omega (arith, cur)) in
              (
                t,
                rw (z, y) run,
                rw z (record {
                  at_row = m.at_row;
                  at_col = m.at_col ∙ cur;
                  shown = m.shown;
                  narrow = m.narrow;
                }),
              )
        ]
  ]

  -- One column less takes no more room.
  fits_left :
      0 < s.cur_c
      → s.home_c < s.cur_c
      → 4 + total_width s.width s.home_c (suc (s.cur_c - 1) - s.home_c) < s.screen
  fits_left pos under =
      let same = ap (total_width s.width s.home_c) one_less in
      let whole = ap (total_width s.width s.home_c) split in
      omega (arith, same, whole, total_width-last s.width (s.cur_c - s.home_c) s.home_c, fits)
    where
      one_less : suc (s.cur_c - 1) - s.home_c ≡ s.cur_c - s.home_c
      one_less = omega arith

      split : suc s.cur_c - s.home_c ≡ suc (s.cur_c - s.home_c)
      split = omega arith

  pub left-Moves :
      (f : ℕ)
      → 256 ≤ f
      → (t : Screen) × (process_cursor f key_left s ≡ some t) × Moves s s.cur_r (s.cur_c - 1) t
  unfolding process_cursor horizontal
  left-Moves f enough = elim (Bool-cases (ltb 0 s.cur_c)) [
    | inr z ↦ (s, rw z refl, subst (λ c. Moves s s.cur_r c s) (omega (arith, ltb→ge _ _ z)) stays)
    | inl z ↦
        let pos = ltb→lt _ _ z in
        elim (Bool-cases (ltb s.home_c s.cur_c)) [
          | inl y ↦
              let under = ltb→lt _ _ y in
              (
                record s { cur_c = s.cur_c - 1 },
                rw
                    (
                      z,
                      on_screen-total s s.cur_r (s.cur_c - 1) narrow below within (omega arith)
                          (omega arith),
                      lt→ltb _ s.screen (fits_left pos under),
                    )
                    refl,
                arrived s s.home_r s.home_c s.cur_r (s.cur_c - 1) _ _ narrow refl refl below within
                    row_in (omega arith) (omega arith) (fits_left pos under),
              )
          | inr y ↦
              let cur = byte_less s.cur_c pos col_in in
              let home = byte_less s.home_c (omega (arith, ltb→ge _ _ y)) (omega arith) in
              let (t, run, m) =
                scroll-Moves f
                  (record s { cur_c = byte_step false s.cur_c; home_c = byte_step false s.home_c })
                  narrow below within row_in (omega (arith, cur, home)) (omega (arith, cur))
                  (omega (arith, cur)) in
              (
                t,
                rw (z, beside s s.cur_r (s.cur_c - 1) (omega (arith, ltb→ge _ _ y))) run,
                record {
                  at_row = m.at_row;
                  at_col = m.at_col ∙ cur;
                  shown = m.shown;
                  narrow = m.narrow;
                },
              )
        ]
  ]

-- If every column is narrower than the screen less the four characters of the row's number, and the
-- cursor is shown, an arrow key moves it by one row or one column, or leaves it at the edge of the
-- sheet, and the cursor is shown again: the window goes with it. The loop of horizontal ends.
pub process_cursor-Moves :
    (f : ℕ) (k : Arrow) (s : Screen)
    → 256 ≤ f
    → IsNarrow s
    → IsShown s
    → (t : Screen) × (process_cursor f k s ≡ some t)
      × Moves s (row_after k s.cur_r) (col_after k s.cur_c) t
unfolding row_after col_after
process_cursor-Moves f key_up s enough narrow shown = up-Moves s narrow shown f
process_cursor-Moves f key_down s enough narrow shown = down-Moves s narrow shown f
process_cursor-Moves f key_right s enough narrow shown = right-Moves s narrow shown f enough
process_cursor-Moves f key_left s enough narrow shown = left-Moves s narrow shown f enough
