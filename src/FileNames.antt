-- ===== src/FileNames.antt =====
-- Tools/linux/vol180/fileio.c: file names as text, and the list of the headers in use.
-- A string is the list of its characters without the NUL.
pub mod Shared
pub mod Fields
use rsx.Base.{
  List, Option, [], get_or, if◌then◌else◌, leb, none, some, take, ℕ, ◌%◌, ◌++◌, ◌+◌, ◌-◌, ◌==◌, ◌∷◌,
}
use rsx.Dates.{decimal}

-- `q = strchr(p, c)`: the text before and behind the first c.
unfoldable pub split_at : ℕ → List ℕ → Option (List ℕ × List ℕ)
split_at c [] = none
split_at c (x ∷ xs) =
    let rest = split_at c xs in
    if x == c then some ([], xs) else elim rest [ none ↦ none | some r ↦ some (x ∷ r.0, r.1) ]

pub record ParsedName : Type 0 where
  pub dirname : List ℕ
  pub fname : List ℕ
  pub ext : List ℕ
  pub vers : ℕ

-- The part of `parse_name` behind the directory; `maxlen` is 9 for a name without a dot. The version
-- is `atoi` of the text behind the semicolon, of the C library, kept as a `short`.
abbrev pub before_version : (List ℕ → ℕ) → ℕ → List ℕ → List ℕ × ℕ
before_version atoi maxlen p = elim (split_at 59 p) [
  | some r ↦ (take maxlen r.0, atoi r.1 % 65536)
  | none ↦ (take maxlen p, 0)
]

abbrev pub name_parts : (List ℕ → ℕ) → List ℕ → List ℕ → Option (List ℕ × List ℕ) → ParsedName
name_parts atoi dirname p (some r) =
    let (ext, vers) = before_version atoi 3 r.1 in
    record { dirname = dirname; fname = take 9 r.0; ext = ext; vers = vers }
name_parts atoi dirname p none =
    let (fname, vers) = before_version atoi 9 p in
    record { dirname = dirname; fname = fname; ext = []; vers = vers }

unfoldable pub parse_file : (List ℕ → ℕ) → List ℕ → List ℕ → ParsedName
unfolding split_at
parse_file atoi dirname p = name_parts atoi dirname p (split_at 46 p)

abbrev pub in_directory : (List ℕ → ℕ) → Option (List ℕ × List ℕ) → Option ParsedName
in_directory atoi none = none
in_directory atoi (some r) = some (parse_file atoi (take 9 r.0) r.1)

-- `parse_name`; `none` is the return of 0, for a directory without its closing bracket.
unfoldable pub parse_name : (List ℕ → ℕ) → List ℕ → Option ParsedName
unfolding split_at parse_file
parse_name atoi [] = some (parse_file atoi [] [])
parse_name atoi (c ∷ p) =
    if c == 91 then in_directory atoi (split_at 93 p) else some (parse_file atoi [] (c ∷ p))

-- The characters of a field that are not blank.
unfoldable pub not_blank : List ℕ → List ℕ
not_blank [] = []
not_blank (c ∷ cs) = let rest = not_blank cs in if c == 32 then rest else c ∷ rest

-- `get_file_name`, of the directory, the name, the extension and the version in a header.
unfoldable pub get_file_name : (dirname fname ext : List ℕ) → (vers : ℕ) → List ℕ
unfolding not_blank
get_file_name dirname fname ext vers =
    let name = not_blank fname ++ (46 ∷ not_blank ext) ++ (59 ∷ take 4 (decimal 5 vers [])) in
    if leb 1 (get_or dirname 0 0) then (91 ∷ not_blank dirname) ++ (93 ∷ name) else name

unfoldable pub get_dir_name : List ℕ → List ℕ
unfolding not_blank
get_dir_name fname = not_blank fname

-- A header of `fcblist`: the file, and how many FCBs use it.
pub record Use : Type 0 where
  pub inode : ℕ
  pub usecnt : ℕ

-- `get_fcb` on `fcblist`; memory does not run out.
unfoldable pub add_use : ℕ → List Use → Option (List Use)
add_use ino [] = none
add_use ino (h ∷ hs) =
    let rest = add_use ino hs in
    if h.inode == ino
    then some (record h { usecnt = h.usecnt + 1 } ∷ hs)
    else elim rest [ none ↦ none | some us ↦ some (h ∷ us) ]

unfoldable pub get_fcb : ℕ → List Use → List Use
unfolding add_use
get_fcb ino hs = elim (add_use ino hs) [
  | some us ↦ us
  | none ↦ record { inode = ino; usecnt = 1 } ∷ hs
]

-- `free_fcb` on `fcblist`: the header is the one of its file, as a file has one header at most.
unfoldable pub free_fcb : ℕ → List Use → List Use
free_fcb ino [] = []
free_fcb ino (h ∷ hs) =
    let rest = free_fcb ino hs in
    if h.inode == ino
    then (if h.usecnt - 1 == 0 then hs else record h { usecnt = h.usecnt - 1 } ∷ hs)
    else h ∷ rest
