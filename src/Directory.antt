-- ===== src/Directory.antt =====
-- Tools/linux/vol180/dirio.c: the 16-byte entries of a directory. A C string is the list of its
-- characters without the NUL at the end; they are ASCII, so that `char` and `unsigned char` agree.
pub mod Match
use rsx.Base.{
  Block, Bool, List, [], false, get_int16, if◌then◌else◌, ltb, set_int16, suc, true, update, zero,
  ℕ, ◌&&◌, ◌==◌, ◌∷◌,
}

abbrev pub blank : ℕ
blank = 0x20

-- `for (i = 0; i < n; ++i) entry[i+at] = *p ? *p++ : ' ';`
pub fill_field : ℕ → ℕ → List ℕ → Block → Block
fill_field zero at p entry = entry
fill_field (suc n) at [] entry = fill_field n (suc at) [] (update entry at blank)
fill_field (suc n) at (ch ∷ p) entry = fill_field n (suc at) p (update entry at ch)

-- `set_dir_entry`
pub set_dir_entry : Block → ℕ → List ℕ → List ℕ → ℕ → Block
unfolding fill_field
set_dir_entry entry inode fname ext vers =
    set_int16 (fill_field 3 11 ext (fill_field 9 2 fname (set_int16 entry 0 inode))) 14 vers

-- One loop of `match`: a blank at the end of the string stops it, a character that differs fails.
-- The characters of the string are of type `char`, which is signed: one from 128 on is negative, and
-- differs from every byte of the entry.
-- Behind the NUL, which only a NUL in the entry leads to, the string is read as NULs.
pub match_field : ℕ → ℕ → List ℕ → Block → Bool
match_field zero at p dirent = true
match_field (suc n) at [] dirent =
    let rest = match_field n (suc at) [] dirent in
    if dirent at == blank then true else if dirent at == 0 then rest else false
match_field (suc n) at (ch ∷ p) dirent =
    let rest = match_field n (suc at) p dirent in
    if (dirent at == ch) && ltb ch 128 then rest else false

-- `match`; `vers` is the bit pattern of a `short`, which is positive below 32768.
pub match : Block → List ℕ → List ℕ → ℕ → Bool
unfolding match_field
match dirent fname ext vers =
    if match_field 9 2 fname dirent
    then (if match_field 3 11 ext dirent
        then (if ltb 0 vers && ltb vers 32768 then get_int16 dirent 14 == vers else true)
        else false)
    else false
