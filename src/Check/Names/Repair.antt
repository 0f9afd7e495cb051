-- ===== src/Check/Names/Repair.antt =====
-- What `valid_name` of check.c makes of the two fields of a name.
use rsx.Base.{
  Block, Bool, Option, arith, false, inl, inr, none, refl, some, suc, sym, true, zero, ℕ, ◌+◌, ◌-◌,
  ◌<◌, ◌∙◌, ◌≡◌, ◌≢◌, ◌≤◌, ◌⊎◌,
}
use rsx.Check.Names.{field_fuel, field_loop, valid_name}
use rsx.Check.Names.Loop.{FieldRepaired, field_repaired, later, loop-FieldRepaired, repaired}

later-same :
    (e w : Block) (at r i : ℕ) → ((y : ℕ) → at ≤ y → w y ≡ e y) → later w at r i ≡ later e at r i
later-same e w at zero i same = refl
later-same e w at (suc r) i same =
    rw (same (at + i) (omega arith), later-same e w at r (i + 1) same) refl

repaired-same :
    (at len : ℕ) (e w : Block) (k : ℕ)
    → ((y : ℕ) → at ≤ y → w y ≡ e y)
    → repaired at len w k ≡ repaired at len e k
repaired-same at len e w k same =
    rw (same (at + k) (omega arith), later-same e w at (len - (k + 1)) (k + 1) same) refl

-- The repair of both fields of an entry.
pub data NameRepaired (e : Block) : Option (Bool × Block) → Type 0 where
  name_repaired :
      {b : Bool} {w : Block}
      → ((k : ℕ) → k < 9 → w (2 + k) ≡ repaired 2 9 e k)
      → ((k : ℕ) → k < 3 → w (11 + k) ≡ repaired 11 3 e k)
      → ((y : ℕ) → (y < 2) ⊎ (14 ≤ y) → w y ≡ e y)
      → (b ≡ true → (y : ℕ) → w y ≡ e y)
      → (b ≡ false
          → ((k : ℕ) × (k < 9) × (repaired 2 9 e k ≢ e (2 + k)))
            ⊎ ((k : ℕ) × (k < 3) × (repaired 11 3 e k ≢ e (11 + k))))
      → NameRepaired e (some (b, w))

second_field :
    (e e1 : Block) (b1 : Bool) {x : Option (Bool × Block)}
    → FieldRepaired 2 9 e true (some (b1, e1))
    → FieldRepaired 11 3 e1 b1 x
    → NameRepaired e x
second_field e e1 b1 (field_repaired name1 frame1 same1 changed1)
      (field_repaired {b} {w} name2 frame2 same2 changed2) =
    let ext_same : (y : ℕ) → 11 ≤ y → e1 y ≡ e y = λ y h. frame1 y (inr h) in
    name_repaired (λ k h. frame2 (2 + k) (inl (omega arith)) ∙ name1 k h)
      (λ k h. name2 k h ∙ repaired-same 11 3 e e1 k ext_same)
      (λ y h. frame2 y (ground (arith, h)) ∙ frame1 y (ground (arith, h)))
      (λ t y. (same2 t).1 y ∙ (same1 (same2 t).0).1 y)
      (λ f. elim (changed2 f) [
        | inl earlier ↦ elim (changed1 earlier) [
          | inl no_way ↦ absurd (ground (arith, no_way))
          | inr c ↦ inl c
        ]
        | inr c ↦ inr (
          c.0,
          c.1,
          λ z.
              c.2 (
                repaired-same 11 3 e e1 c.0 ext_same ∙ z ∙ sym (ext_same (11 + c.0) (omega arith))),
        )
      ])

name_steps :
    (e : Block) (x : Option (Bool × Block))
    → FieldRepaired 2 9 e true x
    → NameRepaired e
        (elim x [ none ↦ none | some (valid, e1) ↦ field_loop (field_fuel 3) 11 3 0 none valid e1 ])
name_steps e none h = elim h [ ]
name_steps e (some (b1, e1)) h = second_field e e1 b1 h (
    loop-FieldRepaired 11 3 e1 b1 (field_fuel 3) 0 3 none b1 e1 refl (
      omega arith,
      record {
        before = λ k less. absurd (omega arith);
        rest = λ y far. refl;
        same = λ t. (t, λ y. refl);
        changed = λ f. inl f;
      },
    ))

-- `valid_name` ends, although its loops go back to earlier characters. Each character of the two
-- fields gets its repaired value, the other bytes of the entry stay, and the result is that the name
-- is valid just if no character has changed.
pub valid_name-NameRepaired : (e : Block) → NameRepaired e (valid_name e)
unfolding valid_name
valid_name-NameRepaired e = name_steps e (field_loop (field_fuel 9) 2 9 0 none true e) (
    loop-FieldRepaired 2 9 e true (field_fuel 9) 0 9 none true e refl (
      omega arith,
      record {
        before = λ k less. absurd (omega arith);
        rest = λ y far. refl;
        same = λ t. (t, λ y. refl);
        changed = λ f. inl f;
      },
    ))
