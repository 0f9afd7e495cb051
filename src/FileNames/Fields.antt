-- ===== src/FileNames/Fields.antt =====
-- The lengths of what `parse_name` of fileio.c puts into the arrays of its callers.
use rsx.Base.{
  Bool-cases, List, Option, [], arith, inl, inr, length, none, some, suc, take, zero, ℕ, ◌%◌, ◌<◌,
  ◌==◌, ◌∷◌, ◌≤◌,
}
use rsx.FileNames.{
  ParsedName, before_version, in_directory, name_parts, parse_file, parse_name, split_at,
}

length-take_le : {A : Type 0} (n : ℕ) (xs : List A) → length (take n xs) ≤ n
length-take_le zero xs = omega arith
length-take_le (suc n) [] = omega arith
length-take_le (suc n) (x ∷ xs) = omega (arith, length-take_le n xs)

-- A name fits the arrays of ten, ten and four characters with their NULs, and the `short`.
unfoldable pub FitsArrays : Option ParsedName → Type 0
FitsArrays none = Unit
FitsArrays (some p) =
    (length p.dirname ≤ 9) × (length p.fname ≤ 9) × (length p.ext ≤ 3) × (p.vers < 65536)

version-lt :
    (atoi : List ℕ → ℕ) (n : ℕ) (p : List ℕ)
    → (length (before_version atoi n p).0 ≤ n) × ((before_version atoi n p).1 < 65536)
version-lt atoi n p = in_text (split_at 59 p)
  where
    in_text :
        (s : Option (List ℕ × List ℕ))
        → (let r = elim s as (λ x. List ℕ × ℕ) [
          | some r ↦ (take n r.0, atoi r.1 % 65536)
          | none ↦ (take n p, 0)
        ] in
            (length r.0 ≤ n) × (r.1 < 65536))
    in_text none = (length-take_le n p, omega arith)
    in_text (some r) = (length-take_le n r.0, omega arith)

parts-fit :
    (atoi : List ℕ → ℕ) (dirname p : List ℕ) (s : Option (List ℕ × List ℕ))
    → length dirname ≤ 9
    → FitsArrays (some (name_parts atoi dirname p s))
unfolding FitsArrays
parts-fit atoi dirname p (some r) h =
    (h, length-take_le 9 r.0, (version-lt atoi 3 r.1).0, (version-lt atoi 3 r.1).1)
parts-fit atoi dirname p none h = (h, (version-lt atoi 9 p).0, omega arith, (version-lt atoi 9 p).1)

parse_file-fit :
    (atoi : List ℕ → ℕ) (dirname p : List ℕ)
    → length dirname ≤ 9
    → FitsArrays (some (parse_file atoi dirname p))
unfolding parse_file
parse_file-fit atoi dirname p h = parts-fit atoi dirname p (split_at 46 p) h

directory-fit :
    (atoi : List ℕ → ℕ) (s : Option (List ℕ × List ℕ)) → FitsArrays (in_directory atoi s)
unfolding FitsArrays
directory-fit atoi none = tt
directory-fit atoi (some r) = parse_file-fit atoi (take 9 r.0) r.1 (length-take_le 9 r.0)

-- Whatever the text, the parts that parse_name splits off fit the arrays of nine, nine and three
-- characters and a NUL that its callers pass, and the version fits a short.
pub parse_name-FitsArrays : (atoi : List ℕ → ℕ) (str : List ℕ) → FitsArrays (parse_name atoi str)
unfolding parse_name
parse_name-FitsArrays atoi [] = parse_file-fit atoi [] [] (omega arith)
parse_name-FitsArrays atoi (c ∷ p) = elim (Bool-cases (c == 91)) [
  | inl e ↦ rw (e) (directory-fit atoi (split_at 93 p))
  | inr e ↦ rw (e) (parse_file-fit atoi [] (c ∷ p) (omega arith))
]
