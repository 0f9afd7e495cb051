-- ===== src/Calc/Cursor/Reach.antt =====
-- The arrow keys of calc/c/calc.c lead from every cell to every other.
use rsx.Base.{
  Bool-cases, List, Option-cases, [], ap, arith, if◌then◌else◌, inl, inr, leb, leb→le, leb→lt, ltb,
  lt→ltb, refl, some, suc, zero, ℕ, ◌++◌, ◌+◌, ◌-◌, ◌<◌, ◌>>=◌, ◌∙◌, ◌∷◌, ◌≡◌, ◌≤◌,
}
use rsx.Calc.{step}
use rsx.Calc.Cursor.{Arrow, Screen, key_down, key_left, key_right, key_up, press, process_cursor}
use rsx.Calc.Cursor.Arrives.{Moves, col_after, row_after}
use rsx.Calc.Cursor.Moves.{down-Moves, left-Moves, right-Moves, up-Moves}
use rsx.Calc.Cursor.Shown.{IsNarrow, IsShown}

unfoldable pub presses : ℕ → Arrow → List Arrow
presses zero k = []
presses (suc n) k = k ∷ presses n k

unfoldable pub repeated : (ℕ → ℕ) → ℕ → ℕ → ℕ
repeated step zero v = v
repeated step (suc n) v = repeated step n (step v)

abbrev down_step : ℕ → ℕ
down_step v = if ltb v 255 then v + 1 else v

down_steps : (n v : ℕ) → v + n < 256 → repeated down_step n v ≡ v + n
unfolding repeated
down_steps zero v h = omega arith
down_steps (suc n) v h =
    rw (lt→ltb v 255 (omega arith)) (down_steps n (v + 1) (omega arith) ∙ omega arith)

up_steps : (n v : ℕ) → repeated (λ w. w - 1) n v ≡ v - n
unfolding repeated
up_steps zero v = omega arith
up_steps (suc n) v = up_steps n (v - 1) ∙ omega arith

-- A number of presses of one key, of which each adds one step.
abbrev pub Reaches : ℕ → List Arrow → Screen → ℕ → ℕ → Type 0
Reaches f ks s r c = (t : Screen) × (press f ks s ≡ some t) × Moves s r c t

press-append :
    (f : ℕ) (ks js : List Arrow) (s : Screen) → press f (ks ++ js) s ≡ (press f ks s >>= press f js)
unfolding press
press-append f [] js s = refl
press-append f (k ∷ ks) js s = elim (Option-cases (process_cursor f k s)) [
  | inl z ↦ rw (z) refl
  | inr (t, z) ↦ rw (z) (press-append f ks js t)
]

first_key :
    (f : ℕ) (k : Arrow) (ks : List Arrow) (s t : Screen) (r c : ℕ)
    → process_cursor f k s ≡ some t
    → Reaches f ks t r c
    → Reaches f (k ∷ ks) s r c
unfolding press
first_key f k ks s t r c run (u, more, m) = (
  u,
  rw run more,
  record { at_row = m.at_row; at_col = m.at_col; shown = m.shown; narrow = m.narrow },
)

-- The same place under other names.
renamed_place :
    (f : ℕ) (ks : List Arrow) {s : Screen} {r c row col : ℕ}
    → r ≡ row
    → c ≡ col
    → Reaches f ks s r c
    → Reaches f ks s row col
renamed_place f ks p q (t, run, m) = (
  t,
  run,
  record { at_row = m.at_row ∙ p; at_col = m.at_col ∙ q; shown = m.shown; narrow = m.narrow },
)

module _ (f : ℕ) (enough : 256 ≤ f) where
  by_rows :
      (k : Arrow) (step : ℕ → ℕ)
      → ((s : Screen)
          → IsNarrow s
          → IsShown s
          → (t : Screen) × (process_cursor f k s ≡ some t) × Moves s (step s.cur_r) s.cur_c t)
      → (n : ℕ) (s : Screen) → IsNarrow s
      → IsShown s
      → Reaches f (presses n k) s (repeated step n s.cur_r) s.cur_c
  unfolding presses press repeated
  by_rows k step h zero s narrow shown =
      (s, refl, record { at_row = refl; at_col = refl; shown = shown; narrow = narrow })
  by_rows k step h (suc n) s narrow shown =
      let (t, run, m) = h s narrow shown in
      first_key f k (presses n k) s t (repeated step n (step s.cur_r)) s.cur_c run (
        renamed_place f (presses n k) (ap (repeated step n) m.at_row) m.at_col
          (by_rows k step h n t m.narrow m.shown))

  by_columns :
      (k : Arrow) (step : ℕ → ℕ)
      → ((s : Screen)
          → IsNarrow s
          → IsShown s
          → (t : Screen) × (process_cursor f k s ≡ some t) × Moves s s.cur_r (step s.cur_c) t)
      → (n : ℕ) (s : Screen) → IsNarrow s
      → IsShown s
      → Reaches f (presses n k) s s.cur_r (repeated step n s.cur_c)
  unfolding presses press repeated
  by_columns k step h zero s narrow shown =
      (s, refl, record { at_row = refl; at_col = refl; shown = shown; narrow = narrow })
  by_columns k step h (suc n) s narrow shown =
      let (t, run, m) = h s narrow shown in
      first_key f k (presses n k) s t s.cur_r (repeated step n (step s.cur_c)) run (
        renamed_place f (presses n k) m.at_row (ap (repeated step n) m.at_col)
          (by_columns k step h n t m.narrow m.shown))

  -- To a row: up or down as often as it is away.
  row_reached :
      (s : Screen) (r : ℕ)
      → IsNarrow s
      → IsShown s
      → r < 256
      → (ks : List Arrow) × Reaches f ks s r s.cur_c
  unfolding row_after
  row_reached s r narrow shown h = elim (Bool-cases (leb s.cur_r r)) [
    | inl z ↦ (
      presses (r - s.cur_r) key_down,
      renamed_place f (presses (r - s.cur_r) key_down)
          (down_steps (r - s.cur_r) s.cur_r (omega (arith, leb→le _ _ z))
            ∙ omega (arith, leb→le _ _ z))
          refl
          (by_rows key_down down_step (λ u n v. down-Moves u n v f) (r - s.cur_r) s narrow shown),
    )
    | inr z ↦ (
      presses (s.cur_r - r) key_up,
      renamed_place f (presses (s.cur_r - r) key_up)
          (up_steps (s.cur_r - r) s.cur_r ∙ omega (arith, leb→lt _ _ z)) refl
          (by_rows key_up (λ v. v - 1) (λ u n v. up-Moves u n v f) (s.cur_r - r) s narrow shown),
    )
  ]

  column_reached :
      (s : Screen) (c : ℕ)
      → IsNarrow s
      → IsShown s
      → c < 256
      → (ks : List Arrow) × Reaches f ks s s.cur_r c
  unfolding col_after
  column_reached s c narrow shown h = elim (Bool-cases (leb s.cur_c c)) [
    | inl z ↦ (
      presses (c - s.cur_c) key_right,
      renamed_place f (presses (c - s.cur_c) key_right) refl
          (down_steps (c - s.cur_c) s.cur_c (omega (arith, leb→le _ _ z))
            ∙ omega (arith, leb→le _ _ z))
          (by_columns key_right down_step (λ u n v. right-Moves u n v f enough) (c - s.cur_c) s
            narrow shown),
    )
    | inr z ↦ (
      presses (s.cur_c - c) key_left,
      renamed_place f (presses (s.cur_c - c) key_left) refl
          (up_steps (s.cur_c - c) s.cur_c ∙ omega (arith, leb→lt _ _ z))
          (by_columns key_left (λ v. v - 1) (λ u n v. left-Moves u n v f enough) (s.cur_c - c) s
            narrow shown),
    )
  ]

-- From a shown cursor on a sheet of narrow columns, some sequence of arrow keys leads to any row and
-- any column of the sheet, and the cursor is shown there.
pub press-Reaches :
    (f : ℕ) (s : Screen) (r c : ℕ)
    → 256 ≤ f
    → IsNarrow s
    → IsShown s
    → r < 256
    → c < 256
    → (ks : List Arrow) × Reaches f ks s r c
press-Reaches f s r c enough narrow shown h k =
    let (ks, (t, run, m)) = row_reached f enough s r narrow shown h in
    let (js, (u, more, n)) = column_reached f enough t c m.narrow m.shown k in
    (
      ks ++ js,
      (
        u,
        press-append f ks js s ∙ ap (λ o. o >>= press f js) run ∙ more,
        record {
          at_row = n.at_row ∙ m.at_row;
          at_col = n.at_col;
          shown = n.shown;
          narrow = n.narrow;
        },
      ),
    )
