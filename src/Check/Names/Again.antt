-- ===== src/Check/Names/Again.antt =====
-- A name that has been repaired is valid.
use rsx.Base.{
  AreBytes, Block, Bool, Bool-cases, Option, arith, eq-cases, false, inl, inr, ne→==, none, not,
  passes, passes-at, refl, some, suc, true, zero, ℕ, ◌&&◌, ◌+◌, ◌-◌, ◌<◌, ◌==◌, ◌||◌, ◌∙◌, ◌≡◌, ◌≢◌,
}
use rsx.Check.Names.{valid_char, valid_name}
use rsx.Check.Names.Loop.{later, repaired}
use rsx.Check.Names.Repair.{NameRepaired, name_repaired, valid_name-NameRepaired}

-- All characters are valid that stay as they are, and an underscore is one.
char_again_table :
    passes 256
      (λ c. (valid_char (valid_char c) == valid_char c) && ((c == 32) || not (valid_char c == 32)))
    ≡ true
unfolding passes valid_char
char_again_table = refl

char_again :
    (c : ℕ) → c < 256 → (valid_char (valid_char c) ≡ valid_char c) × (c ≢ 32 → valid_char c ≢ 32)
char_again c h =
    let row = passes-at _ h char_again_table in
    (ground (arith, row), λ ne e. ground (arith, row, ne, e))

later-repaired :
    (e w : Block) (at len r i : ℕ)
    → i + r ≡ len
    → ((k : ℕ) → k < len → w (at + k) ≡ repaired at len e k)
    → AreBytes e
    → later e at r i ≡ false
    → later w at r i ≡ false
later-repaired e w at len zero i end equal bytes h = refl
later-repaired e w at len (suc r) i end equal bytes h =
    let here : e (at + i) ≡ 32 = ground (arith, h) in
    let others : later e at r (i + 1) ≡ false = ground (arith, h) in
    let left : len - (i + 1) ≡ r = omega arith in
    let blank_too : w (at + i) ≡ 32 = equal i (omega arith) ∙ rw (here, left, others) refl in
    rw (blank_too, later-repaired e w at len r (i + 1) (omega arith) equal bytes others) refl

repaired-again :
    (e w : Block) (at len k : ℕ)
    → k < len
    → ((j : ℕ) → j < len → w (at + j) ≡ repaired at len e j)
    → AreBytes e
    → repaired at len w k ≡ w (at + k)
unfolding valid_char
repaired-again e w at len k less equal bytes = elim (eq-cases (e (at + k)) 32) [
  | inr ne ↦
      let c = char_again (e (at + k)) (bytes (at + k)) in
      let value : w (at + k) ≡ valid_char (e (at + k)) =
        equal k less ∙ rw (ne→== (e (at + k)) 32 ne) refl in
      rw (value, ne→== (valid_char (e (at + k))) 32 (c.1 ne)) c.0
  | inl gap ↦ elim (Bool-cases (later e at (len - (k + 1)) (k + 1))) [
    | inl more ↦ let value : w (at + k) ≡ 95 = equal k less ∙ rw (gap, more) refl in rw (value) refl
    | inr none_left ↦
        let value : w (at + k) ≡ 32 = equal k less ∙ rw (gap, none_left) refl in
        let after_it =
          later-repaired e w at len (len - (k + 1)) (k + 1) (omega arith) equal bytes none_left in
        rw (value, after_it) refl
  ]
]

-- The check accepts the name.
abbrev pub IsAccepted : Option (Bool × Block) → Type 0
IsAccepted none = ⊥
IsAccepted (some (b, w)) = b ≡ true

-- It accepts the name that it has left.
abbrev pub IsStable : Option (Bool × Block) → Type 0
IsStable none = ⊥
IsStable (some (b, w)) = IsAccepted (valid_name w)

accepted :
    (w : Block) (x : Option (Bool × Block))
    → ((k : ℕ) → k < 9 → repaired 2 9 w k ≡ w (2 + k))
    → ((k : ℕ) → k < 3 → repaired 11 3 w k ≡ w (11 + k))
    → NameRepaired w x
    → IsAccepted x
accepted w none fine1 fine2 h = elim h [ ]
accepted w (some (b, u)) fine1 fine2 (name_repaired n1 n2 frame kept changed) =
    elim (Bool-cases b) [
      | inl valid ↦ valid
      | inr no_more ↦ elim (changed no_more) [
        | inl c ↦ absurd (c.2 (fine1 c.0 c.1))
        | inr c ↦ absurd (c.2 (fine2 c.0 c.1))
      ]
    ]

stable : (e : Block) (x : Option (Bool × Block)) → AreBytes e → NameRepaired e x → IsStable x
stable e none bytes h = elim h [ ]
stable e (some (b, w)) bytes (name_repaired n1 n2 frame kept changed) =
    accepted w (valid_name w) (λ k less. repaired-again e w 2 9 k less n1 bytes)
      (λ k less. repaired-again e w 11 3 k less n2 bytes) (valid_name-NameRepaired w)

-- A second check of the name of an entry of bytes finds it valid.
pub valid_name-IsStable : (e : Block) → AreBytes e → IsStable (valid_name e)
valid_name-IsStable e bytes = stable e (valid_name e) bytes (valid_name-NameRepaired e)
