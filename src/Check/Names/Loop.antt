-- ===== src/Check/Names/Loop.antt =====
-- The loop of `valid_name` over one field, in check.c.
use rsx.Base.{
  ==_refl, Block, Bool, Bool-cases, Option, arith, eq-cases, false, ge→ltb, if◌then◌else◌, inl, inr,
  ltb, ltb→ge, ltb→lt, lt→ltb, ne→==, none, not, refl, some, subst, suc, sym, true, update,
  update_ne, zero, ℕ, ◌+◌, ◌-◌, ◌<◌, ◌==◌, ◌||◌, ◌∙◌, ◌≡◌, ◌≢◌, ◌≤◌, ◌⊎◌,
}
use rsx.Check.Names.{field_loop, valid_char}

-- One of the r characters from the i-th of the field on is not a blank.
abbrev pub later : Block → (at r i : ℕ) → Bool
later e at zero i = false
later e at (suc r) i = not (e (at + i) == 32) || later e at r (i + 1)

-- The character that belongs at place k of a field: a blank before other characters becomes an
-- underscore, and so does a character that is not allowed.
abbrev pub repaired : (at len : ℕ) → Block → ℕ → ℕ
repaired at len e k =
    if e (at + k) == 32
    then (if later e at (len - (k + 1)) (k + 1) then 95 else 32)
    else valid_char (e (at + k))

-- A field of an entry, repaired; the entry stays valid if nothing had to be changed.
pub data FieldRepaired (at len : ℕ) (e : Block) (valid : Bool)
    : Option (Bool × Block) → Type 0 where
  field_repaired :
      {b : Bool} {w : Block}
      → ((k : ℕ) → k < len → w (at + k) ≡ repaired at len e k)
      → ((y : ℕ) → (y < at) ⊎ (at + len ≤ y) → w y ≡ e y)
      → (b ≡ true → (valid ≡ true) × ((y : ℕ) → w y ≡ e y))
      → (b ≡ false → (valid ≡ false) ⊎ ((k : ℕ) × (k < len) × (repaired at len e k ≢ e (at + k))))
      → FieldRepaired at len e valid (some (b, w))

later-true :
    (e : Block) (at r a i : ℕ) → a ≤ i → i < a + r → e (at + i) ≢ 32 → later e at r a ≡ true
later-true e at zero a i low high ne = absurd (omega arith)
later-true e at (suc r) a i low high ne = elim (eq-cases a i) [
  | inl same ↦ rw (same, ne→== (e (at + i)) 32 ne) refl
  | inr far ↦
      let rest = later-true e at r (a + 1) i (omega (arith, far)) (omega arith) ne in
      ground (arith, rest)
]

later-false :
    (e : Block) (at r a : ℕ)
    → ((k : ℕ) → a ≤ k → k < a + r → e (at + k) ≡ 32)
    → later e at r a ≡ false
later-false e at zero a blanks = refl
later-false e at (suc r) a blanks =
    let rest = later-false e at r (a + 1) (λ k low high. blanks k (omega arith) (omega arith)) in
    rw (blanks a (omega arith) (omega arith), rest) refl

-- Rounds that are enough for the last r characters.
abbrev pub budget : (len r : ℕ) → ℕ
budget len zero = 1
budget len (suc r) = budget len r + (len + 1)

-- How far the loop has come: the characters before i are repaired, the others are as they were.
pub record IsDone (at len : ℕ) (e0 : Block) (v0 : Bool) (i : ℕ) (valid : Bool) (e : Block)
    : Type 0 where
  pub before : (k : ℕ) → k < i → e (at + k) ≡ repaired at len e0 k
  pub rest : (y : ℕ) → (y < at) ⊎ (at + i ≤ y) → e y ≡ e0 y
  pub same : valid ≡ true → (v0 ≡ true) × ((y : ℕ) → e y ≡ e0 y)
  pub changed :
      valid ≡ false → (v0 ≡ false) ⊎ ((k : ℕ) × (k < len) × (repaired at len e0 k ≢ e0 (at + k)))

module _ (at len : ℕ) (e0 : Block) (v0 : Bool) where
  -- Character i has the right value already.
  keep :
      (i : ℕ) (valid : Bool) (e : Block)
      → IsDone at len e0 v0 i valid e
      → repaired at len e0 i ≡ e0 (at + i)
      → IsDone at len e0 v0 (i + 1) valid e
  keep i valid e h right = record {
    before = λ k less. elim (eq-cases k i) [
      | inl here ↦ rw (here) (h.rest (at + i) (inr (omega arith)) ∙ sym right)
      | inr ne ↦ h.before k (omega (arith, ne))
    ];
    rest = λ y far. h.rest y (ground (arith, far));
    same = h.same;
    changed = h.changed;
  }

  -- It is changed.
  change :
      (i x : ℕ) (valid : Bool) (e : Block)
      → IsDone at len e0 v0 i valid e
      → i < len
      → repaired at len e0 i ≡ x
      → x ≢ e0 (at + i)
      → IsDone at len e0 v0 (i + 1) false (update e (at + i) x)
  change i x valid e h less right other = record {
    before = λ k below. elim (eq-cases k i) [
      | inl here ↦ rw (here, ==_refl (at + i)) (sym right)
      | inr ne ↦
          update_ne e (at + i) (at + k) x (λ z. omega (arith, ne)) ∙ h.before k (omega (arith, ne))
    ];
    rest = λ y far.
        update_ne e (at + i) y x (λ z. omega (arith, far)) ∙ h.rest y (ground (arith, far));
    same = λ z. absurd (ground (arith, z));
    changed = λ z. inr (i, less, λ q. other (sym right ∙ q));
  }

  -- At the end of the field, with blanks from j on.
  at_end :
      (j : ℕ) (valid : Bool) (e : Block)
      → IsDone at len e0 v0 j valid e
      → j ≤ len
      → ((k : ℕ) → j ≤ k → k < len → e0 (at + k) ≡ 32)
      → FieldRepaired at len e0 v0 (some (valid, e))
  at_end j valid e h room blanks =
      field_repaired
        (λ k less. elim (Bool-cases (ltb k j)) [
          | inl low ↦ h.before k (ltb→lt k j low)
          | inr high ↦
              let up = ltb→ge k j high in
              let none_left =
                later-false e0 at (len - (k + 1)) (k + 1)
                  (λ q a b. blanks q (omega arith) (omega arith)) in
              h.rest (at + k) (inr (omega arith)) ∙ rw (none_left, blanks k up less) refl
        ])
        (λ y far. h.rest y (ground (arith, far))) h.same h.changed

  -- What the loop starts a round with, r characters before the end.
  abbrev pub IsReady : Option ℕ → (i r fuel : ℕ) → Bool → Block → Type 0
  IsReady none i r fuel valid e = (budget len r ≤ fuel) × IsDone at len e0 v0 i valid e
  IsReady (some j) i r fuel valid e =
      (q : ℕ) × (j + 1 + q ≡ len)
      × (j < i)
      × (budget len q + r + 1 ≤ fuel)
      × IsDone at len e0 v0 j valid e
      × ((k : ℕ) → j ≤ k → k < i → e0 (at + k) ≡ 32)

  loop_ends :
      (fuel i : ℕ) (space : Option ℕ) (valid : Bool) (e : Block)
      → i ≡ len
      → field_loop (suc fuel) at len i space valid e ≡ some (valid, e)
  unfolding field_loop
  loop_ends fuel i space valid e h = rw (field_loop, ge→ltb i len (omega arith)) refl

  on_blank :
      (fuel i : ℕ) (space : Option ℕ) (valid : Bool) (e : Block)
      → i < len
      → e (at + i) ≡ 32
      → field_loop (suc fuel) at len i space valid e
        ≡ field_loop fuel at len (i + 1) (elim space [ none ↦ some i | some j ↦ some j ]) valid e
  unfolding field_loop
  on_blank fuel i space valid e less h = rw (field_loop, lt→ltb i len less, h) refl

  go_back :
      (fuel i j : ℕ) (valid : Bool) (e : Block)
      → i < len
      → e (at + i) ≢ 32
      → field_loop (suc fuel) at len i (some j) valid e
        ≡ field_loop fuel at len (j + 1) none false (update e (at + j) 95)
  unfolding field_loop
  go_back fuel i j valid e less h = rw (field_loop, lt→ltb i len less, ne→== (e (at + i)) 32 h) refl

  on_char :
      (fuel i c : ℕ) (valid : Bool) (e : Block)
      → i < len
      → e (at + i) ≡ c
      → c ≢ 32
      → field_loop (suc fuel) at len i none valid e ≡ elim (valid_char c == c) [
        | true ↦ field_loop fuel at len (i + 1) none valid e
        | false ↦ field_loop fuel at len (i + 1) none false (update e (at + i) (valid_char c))
      ]
  unfolding field_loop
  on_char fuel i c valid e less here h =
      subst
        (λ x. field_loop (suc fuel) at len i none valid e ≡ elim (valid_char x == x) [
          | true ↦ field_loop fuel at len (i + 1) none valid e
          | false ↦ field_loop fuel at len (i + 1) none false (update e (at + i) (valid_char x))
        ])
        here
        (rw (field_loop, lt→ltb i len less, ne→== (e (at + i)) 32 (λ z. h (sym here ∙ z))) refl)

  char_kept : (i : ℕ) → e0 (at + i) ≢ 32 → repaired at len e0 i ≡ valid_char (e0 (at + i))
  char_kept i ne = rw (ne→== (e0 (at + i)) 32 ne) refl

  pub loop-FieldRepaired :
      (fuel i r : ℕ) (space : Option ℕ) (valid : Bool) (e : Block)
      → i + r ≡ len
      → IsReady space i r fuel valid e
      → FieldRepaired at len e0 v0 (field_loop fuel at len i space valid e)
  loop-FieldRepaired zero i zero none valid e end h = absurd (omega (arith, h.0))
  loop-FieldRepaired zero i (suc r) none valid e end h = absurd (omega (arith, h.0))
  loop-FieldRepaired zero i r (some j) valid e end h = absurd (omega (arith, h.3))
  loop-FieldRepaired (suc fuel) i zero none valid e end h =
      rw (loop_ends fuel i none valid e (omega arith))
        (at_end i valid e h.1 (omega arith) (λ k a b. absurd (omega arith)))
  loop-FieldRepaired (suc fuel) i zero (some j) valid e end h =
      rw (loop_ends fuel i (some j) valid e (omega arith))
        (at_end j valid e h.4 (omega (arith, h.2)) (λ k a b. h.5 k a (omega arith)))
  loop-FieldRepaired (suc fuel) i (suc r) none valid e end h =
      let here : e (at + i) ≡ e0 (at + i) = h.1.rest (at + i) (inr (omega arith)) in
      elim (eq-cases (e0 (at + i)) 32) [
        | inl gap ↦ rw (on_blank fuel i none valid e (omega arith) (here ∙ gap)) (
            loop-FieldRepaired fuel (i + 1) r (some i) valid e (omega arith) (
              r,
              omega arith,
              omega arith,
              omega (arith, h.0),
              h.1,
              λ k a b. (let same : k ≡ i = omega arith in rw (same) gap),
            ))
        | inr ne ↦
            let value = char_kept i ne in
            rw (on_char fuel i (e0 (at + i)) valid e (omega arith) here ne)
              (elim (eq-cases (valid_char (e0 (at + i))) (e0 (at + i))) [
                | inl fine ↦
                    rw (fine, ==_refl (e0 (at + i)))
                      (loop-FieldRepaired fuel (i + 1) r none valid e (omega arith)
                        (omega (arith, h.0), keep i valid e h.1 (value ∙ fine)))
                | inr bad ↦
                    let c = valid_char (e0 (at + i)) in
                    rw (ne→== c (e0 (at + i)) bad) (
                      loop-FieldRepaired fuel (i + 1) r none false (update e (at + i) c)
                        (omega arith)
                        (omega (arith, h.0), change i c valid e h.1 (omega arith) value bad))
              ])
      ]
  loop-FieldRepaired (suc fuel) i (suc r) (some j) valid e end h =
      let here : e (at + i) ≡ e0 (at + i) = h.4.rest (at + i) (inr (omega (arith, h.2))) in
      let gap : e0 (at + j) ≡ 32 = h.5 j (omega arith) h.2 in
      elim (eq-cases (e0 (at + i)) 32) [
        | inl blank_too ↦ rw (on_blank fuel i (some j) valid e (omega arith) (here ∙ blank_too)) (
            loop-FieldRepaired fuel (i + 1) r (some j) valid e (omega arith) (
              h.0,
              h.1,
              omega (arith, h.2),
              omega (arith, h.3),
              h.4,
              λ k a b. elim (eq-cases k i) [
                | inl same ↦ rw (same) blank_too
                | inr before_it ↦ h.5 k a (omega (arith, before_it))
              ],
            ))
        | inr ne ↦
            let more =
              later-true e0 at (len - (j + 1)) (j + 1) i (omega (arith, h.2)) (omega (arith, h.2))
                ne in
            let right : repaired at len e0 j ≡ 95 = rw (gap, more) refl in
            rw (go_back fuel i j valid e (omega arith) (λ z. ne (sym here ∙ z))) (
              loop-FieldRepaired fuel (j + 1) h.0 none false (update e (at + j) 95) h.1 (
                omega (arith, h.3),
                change j 95 valid e h.4 (omega (arith, h.2)) right (λ z. omega (arith, z, gap)),
              ))
      ]
