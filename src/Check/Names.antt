-- ===== src/Check/Names.antt =====
-- The names in directory entries: `valid_char` and `valid_name` of Tools/linux/vol180/check.c.
pub mod Loop
pub mod Repair
pub mod Again
use rsx.Base.{
  Block, Bool, List, Option, [], false, if◌then◌else◌, leb, ltb, none, some, suc, true, update,
  zero, ℕ, ◌&&◌, ◌*◌, ◌+◌, ◌-◌, ◌==◌, ◌||◌, ◌∷◌,
}

-- The characters `%?*:;.,()<>[]{}/\|` and the NUL, which `strchr` finds too.
abbrev pub invalid : List ℕ
invalid =
    37 ∷ 63 ∷ 42 ∷ 58 ∷ 59 ∷ 46 ∷ 44 ∷ 40 ∷ 41 ∷ 60 ∷ 62 ∷ 91 ∷ 93 ∷ 123 ∷ 125 ∷ 47 ∷ 92 ∷ 124 ∷ 0
    ∷ []

abbrev pub has_char : ℕ → List ℕ → Bool
has_char c [] = false
has_char c (x ∷ xs) = (c == x) || has_char c xs

-- `toupper`
abbrev pub to_upper : ℕ → ℕ
to_upper c = if leb 97 c && leb c 122 then c - 32 else c

unfoldable pub valid_char : ℕ → ℕ
valid_char c = let up = to_upper c in if has_char up invalid then 95 else up

-- The loop over the `len` characters of a field at `at`, on fuel, from character i on and with the
-- first of the blanks before it, if there are any. It goes back to that one when it meets a
-- character that is not a blank.
unfoldable pub field_loop :
    ℕ → (at len i : ℕ) → (space : Option ℕ) → (valid : Bool) → Block → Option (Bool × Block)
field_loop zero at len i space valid e = none
field_loop (suc fuel) at len i space valid e = elim (ltb i len) [
  | false ↦ some (valid, e)
  | true ↦ elim (e (at + i) == 32) [
    | true ↦ field_loop fuel at len (i + 1) (elim space [ none ↦ some i | some j ↦ some j ]) valid e
    | false ↦ elim space [
      | some j ↦ field_loop fuel at len (j + 1) none false (update e (at + j) 95)
      | none ↦ elim (valid_char (e (at + i)) == e (at + i)) [
        | true ↦ field_loop fuel at len (i + 1) none valid e
        | false ↦
            field_loop fuel at len (i + 1) none false (update e (at + i) (valid_char (e (at + i))))
      ]
    ]
  ]
]

abbrev pub field_fuel : ℕ → ℕ
field_fuel len = (len + 1) * (len + 2)

-- `valid_name`: whether the name is valid, and the entry with its repair.
unfoldable pub valid_name : Block → Option (Bool × Block)
valid_name e = elim (field_loop (field_fuel 9) 2 9 0 none true e) [
  | none ↦ none
  | some (valid, e1) ↦ field_loop (field_fuel 3) 11 3 0 none valid e1
]
