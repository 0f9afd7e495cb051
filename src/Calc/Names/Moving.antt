-- ===== src/Calc/Names/Moving.antt =====
-- The references of a formula when a row or a column is inserted or deleted: `get_xy` under
-- `local_edit`.
use rsx.Base.{
  Bool, Bool-cases, List, arith, eq→==, false, ge→ltb, if◌then◌else◌, inl, inr, leb, length,
  length-append, ltb, ltb→ge, ltb→lt, lt→leb, lt→ltb, ne→==, refl, some, true, ℕ, ◌++◌, ◌+◌, ◌-◌,
  ◌/◌, ◌<◌, ◌||◌, ◌≡◌, ◌≤◌, ◌⊎◌, sym, subst,
}
use rsx.Calc.{Place, this_char, turned_onto}
use rsx.Calc.Names.{
  Edit, asks, changed_name, column_letters, form_of, place_in, replaced, dollar, get_xy, has_room,
  is_digit, moved, name_length, reference, row_digits,
}
use rsx.Calc.Names.Shifting.{HasNoNul, length-turned_onto, place_in-replaced}
use rsx.Calc.Names.Reading.{read_name-reference}

length-column :
    (c : ℕ) → c < 256 → length (column_letters c) ≡ (if ltb c 26 || leb 32768 c then 1 else 2)
unfolding column_letters
length-column c h = elim (Bool-cases (ltb c 26)) [
  | inl z ↦ rw (z, eq→== (c / 26) 0 (omega (arith, ltb→lt c 26 z)))
  | inr z ↦ rw (z, lt→leb 32768 c (omega arith), ne→== (c / 26) 0 (ground (arith, ltb→ge c 26 z)))
]

length-row :
    (r : ℕ)
    → r < 256
    → length (row_digits (r + 1))
      ≡ (if ltb r 9 || leb 32768 r then 1 else if ltb r 99 then 2 else 3)
unfolding row_digits
length-row r h = elim (Bool-cases (ltb r 9)) [
  | inl z ↦ rw (
    z,
    ge→ltb 0 ((r + 1) / 100) (omega (arith, ltb→lt r 9 z)),
    ge→ltb 9 (r + 1) (omega (arith, ltb→lt r 9 z)),
  )
  | inr z ↦ elim (Bool-cases (ltb r 99)) [
    | inl y ↦ rw (
      z,
      y,
      lt→leb 32768 r (omega arith),
      ge→ltb 0 ((r + 1) / 100) (omega (arith, ltb→lt r 99 y)),
      lt→ltb 9 (r + 1) (omega (arith, ltb→ge r 9 z)),
    )
    | inr y ↦ rw (
      z,
      y,
      lt→leb 32768 r (omega arith),
      lt→ltb 0 ((r + 1) / 100) (omega (arith, ltb→ge r 99 y)),
    )
  ]
]

length-dollar : (a : Bool) → length (dollar a) ≡ (if a then 1 else 0)
unfolding dollar
length-dollar true = refl
length-dollar false = refl

-- The length that `get_xy` computes for the new name is the one of its text.
pub length-reference :
    (ac ar : Bool) (r c : ℕ)
    → r < 256
    → c < 256
    → length (reference ac ar r c) ≡ name_length ac ar r c
unfolding reference name_length
length-reference ac ar r c h k =
    rw
      (
        length-append (dollar ac) (column_letters c ++ (dollar ar ++ row_digits (r + 1))),
        length-append (column_letters c) (dollar ar ++ row_digits (r + 1)),
        length-append (dollar ar) (row_digits (r + 1)),
        length-dollar ac,
        length-dollar ar,
        length-column c k,
        length-row r h,
      )
      (omega arith)

if_pos : (b : Bool) (m n : ℕ) → 0 < m → 0 < n → 0 < (if b then m else n)
if_pos true m n h k = h
if_pos false m n h k = k

length-reference_pos :
    (ac ar : Bool) (r c : ℕ) → r < 256 → c < 256 → 0 < length (reference ac ar r c)
unfolding name_length
length-reference_pos ac ar r c h k =
    rw (length-reference ac ar r c h k)
      (omega (arith, if_pos (ltb c 26 || leb 32768 c) 1 2 (omega arith) (omega arith)))

-- What `get_xy` leaves of a reference: the place behind it, and the length of the text. Either it
-- stands where the edit does not reach, or the moved cell is outside the sheet, or the text would
-- be too long, and the text is as before; or the reference to the moved cell stands in its place.
pub data Followed (e : Edit) (alen : ℕ) (b t : List ℕ) (ac ar : Bool) (r c : ℕ)
    : Place × ℕ → Type 0 where
  not_asked :
      asks e r c ≡ false
      → Followed e alen b t ac ar r c ((turned_onto (reference ac ar r c) b, t), alen)
  left_sheet :
      asks e r c ≡ true
      → (255 < moved ar e.del_row r) ⊎ (255 < moved ac e.del_col c)
      → Followed e alen b t ac ar r c ((turned_onto (reference ac ar r c) b, t), alen)
  no_room :
      asks e r c ≡ true
      → 70 + length (reference ac ar r c)
        ≤ alen + length (reference ac ar (moved ar e.del_row r) (moved ac e.del_col c))
      → Followed e alen b t ac ar r c ((turned_onto (reference ac ar r c) b, t), alen)
  renamed :
      asks e r c ≡ true
      → moved ar e.del_row r < 256
      → moved ac e.del_col c < 256
      → (len : ℕ)
      → len + length (reference ac ar r c)
        ≡ alen + length (reference ac ar (moved ar e.del_row r) (moved ac e.del_col c))
      → len < 70
      → Followed e alen b t ac ar r c
          ((turned_onto (reference ac ar (moved ar e.del_row r) (moved ac e.del_col c)) b, t), len)

has_room-true :
    (alen is ip r c l : ℕ)
    → has_room alen is ip r c l ≡ true
    → (alen + l + is < 70 + ip) × (r < 256) × (c < 256)
unfolding has_room
has_room-true alen is ip r c l h = ground arith

has_room-false :
    (alen is ip r c l : ℕ)
    → has_room alen is ip r c l ≡ false
    → ip ≤ alen
    → is < ip
    → r < 256
    → c < 256
    → 70 + ip ≤ alen + l + is
unfolding has_room
has_room-false alen is ip r c l h = ground arith

module _ (e : Edit) (alen : ℕ) (b t : List ℕ) (ac ar : Bool) (r c : ℕ) where
  abbrev new_r : ℕ
  new_r = moved ar e.del_row r

  abbrev new_c : ℕ
  new_c = moved ac e.del_col c

  abbrev new_length : ℕ
  new_length = name_length ac ar new_r new_c

  abbrev end : ℕ
  end = length (turned_onto (reference ac ar r c) b)

  -- The place and the length that are left when the name is replaced.
  abbrev new_name : Place × ℕ
  new_name = (
    place_in
        (replaced alen (length b) end new_length (reference ac ar new_r new_c)
          (form_of (turned_onto (reference ac ar r c) b, t)))
        (length b + new_length),
    alen + new_length + length b - end,
  )

  reference_replaced :
      asks e r c ≡ true
      → r < 256
      → c < 256
      → HasNoNul t
      → alen ≡ length b + length (reference ac ar r c) + length t + 1
      → has_room alen (length b) end new_r new_c new_length ≡ true
      → Followed e alen b t ac ar r c new_name
  reference_replaced z h k clean whole y =
      let (room, in_r, in_c) = has_room-true alen (length b) end new_r new_c new_length y in
      let long = length-reference ac ar new_r new_c in_r in_c in
      let here = length-turned_onto (reference ac ar r c) b in
      let pos = length-reference_pos ac ar new_r new_c in_r in_c in
      let old_pos = length-reference_pos ac ar r c h k in
      let place =
        place_in-replaced alen end new_length b (reference ac ar r c) (reference ac ar new_r new_c)
          t old_pos pos here (sym long) whole (omega (arith, here, whole)) clean in
      subst (λ p. Followed e alen b t ac ar r c (p, alen + new_length + length b - end)) (sym place)
        (renamed z in_r in_c _ (omega (arith, here, long, whole)) (omega (arith, here, whole)))

  -- A moved cell in the sheet has no room only in a text that is too long.
  left_alone :
      asks e r c ≡ true
      → r < 256
      → c < 256
      → length (reference ac ar r c) + length b ≤ alen
      → has_room alen (length b) end new_r new_c new_length ≡ false
      → Followed e alen b t ac ar r c ((turned_onto (reference ac ar r c) b, t), alen)
  left_alone z h k fits y = elim (Bool-cases (ltb new_r 256)) [
    | inr v ↦ left_sheet z (inl (ltb→ge new_r 256 v))
    | inl v ↦ elim (Bool-cases (ltb new_c 256)) [
      | inr w ↦ left_sheet z (inr (ltb→ge new_c 256 w))
      | inl w ↦ no_room z (
          omega (
            arith,
            length-turned_onto (reference ac ar r c) b,
            length-reference ac ar new_r new_c (ltb→lt new_r 256 v) (ltb→lt new_c 256 w),
            has_room-false alen (length b) end new_r new_c new_length y
                (omega (arith, length-turned_onto (reference ac ar r c) b))
                (omega (
                  arith,
                  length-turned_onto (reference ac ar r c) b,
                  length-reference_pos ac ar r c h k,
                ))
                (ltb→lt new_r 256 v) (ltb→lt new_c 256 w),
          ))
    ]
  ]

pub changed_name-Followed :
    (e : Edit) (alen : ℕ) (b s t : List ℕ) (ac ar : Bool) (r c : ℕ)
    → r < 256
    → c < 256
    → HasNoNul t
    → alen ≡ length b + length (reference ac ar r c) + length t + 1
    → Followed e alen b t ac ar r c (
        changed_name e alen
          (b, s)
          (record {
            row = r;
            col = c;
            absolute_r = ar;
            absolute_c = ac;
            place = (turned_onto (reference ac ar r c) b, t);
          }))
unfolding changed_name
changed_name-Followed e alen b s t ac ar r c h k clean whole = elim (Bool-cases (asks e r c)) [
  | inr z ↦ rw z (not_asked z)
  | inl z ↦
      elim (Bool-cases (
        has_room alen (length b) (end e alen b t ac ar r c) (new_r e alen b t ac ar r c)
          (new_c e alen b t ac ar r c) (new_length e alen b t ac ar r c))) [
            | inl y ↦ rw (z, y) (reference_replaced e alen b t ac ar r c z h k clean whole y)
            | inr y ↦ rw (z, y) (left_alone e alen b t ac ar r c z h k (omega arith) y)
          ]
]

-- On a reference to a cell of the sheet, followed by no digit, in a text without a NUL behind the
-- reference and whose length alen counts the NUL at its end, get_xy under local_edit reads the
-- row and the column, and has one of four outcomes. The reference stands in front of the inserted
-- or deleted row or column, or the moved cell would be outside the sheet, or the text would be
-- longer than the 69 characters allowed: the text and its length are as before. Or the loops that
-- shift the array leave the reference to the moved cell in place of the old one, with the same
-- `$`, between the same two parts of the text, and the length has changed by the difference of
-- the two.
pub get_xy-Followed :
    (e : Edit) (alen : ℕ) (b t : List ℕ) (ac ar : Bool) (r c : ℕ)
    → r < 256
    → c < 256
    → is_digit (this_char t) ≡ false
    → HasNoNul t
    → alen ≡ length b + length (reference ac ar r c) + length t + 1
    → ((get_xy (some e) alen (b, reference ac ar r c ++ t)).0.row ≡ r)
      × ((get_xy (some e) alen (b, reference ac ar r c ++ t)).0.col ≡ c)
      × Followed e alen b t ac ar r c (get_xy (some e) alen (b, reference ac ar r c ++ t)).1
unfolding get_xy
get_xy-Followed e alen b t ac ar r c h k d clean whole =
    rw (read_name-reference ac ar r c b t h k d) (
      refl,
      refl,
      changed_name-Followed e alen b (reference ac ar r c ++ t) t ac ar r c h k clean whole,
    )
