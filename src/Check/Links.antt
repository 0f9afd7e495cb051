-- ===== src/Check/Links.antt =====
-- The link counts: the search for lost files of `check_directories` in Tools/linux/vol180/check.c.
use rsx.Base.{
  Block, Bool, Option, false, get_int16, if◌then◌else◌, leb, ltb, none, not, set_int16, some, suc,
  true, update, zero, ℕ, ◌%◌, ◌+◌, ◌-◌, ◌==◌, ◌||◌,
}
use rsx.Bitmap.{Volume}
use rsx.Buffer.{Cache}
use rsx.Check.{Pass, and_then, count_if, load_inode, proceed, save_inode}
use rsx.Check.Names.{valid_name}

-- The link count that an entry gets, with the number of directory entries that name it; a file
-- that no directory names keeps its count.
unfoldable pub fix_lcnt : (lcnt found : ℕ) → ℕ
fix_lcnt lcnt found = if ltb lcnt found then found else if found == 0 then lcnt else found

-- `check for lost files`, with the rounds left; `ixmap` counts the directory entries.
unfoldable pub check_links :
    ℕ → Bool → Volume → (ixmap : ℕ → ℕ) → (i : ℕ) → Block → (errcnt : ℕ) → Cache → Pass
unfolding fix_lcnt
check_links zero read_only g ixmap i inode errcnt v = proceed errcnt v
check_links (suc n) read_only g ixmap i inode errcnt v =
    load_inode g (i + 1) inode errcnt v λ entry w.
      let lcnt = get_int16 entry 0 in
      let fixed = set_int16 entry 0 (fix_lcnt lcnt (ixmap i)) in
      elim (lcnt == ixmap i) [
        | true ↦ check_links n read_only g ixmap (i + 1) entry errcnt w
        | false ↦ elim (fix_lcnt lcnt (ixmap i) == lcnt) [
          | true ↦ check_links n read_only g ixmap (i + 1) entry (errcnt + 1) w
          | false ↦
              and_then (save_inode read_only g (i + 1) fixed (errcnt + 1) w)
                (check_links n read_only g ixmap (i + 1) fixed)
        ]
      ]

-- What `check_directory` does with an entry that is not deleted: the number of errors, whether the entry
-- is to be saved, the entry and the count of links. `inode` is the entry of the index file, read
-- for a number below `inodes`.
unfoldable pub check_dirent :
    (inodes : ℕ) → (inode dirent : Block) → (ixmap : ℕ → ℕ) → Option (ℕ × Bool × Block × (ℕ → ℕ))
check_dirent inodes inode dirent ixmap =
    let ino = get_int16 dirent 0 in
    let deleted = set_int16 dirent 0 0 in
    if leb inodes ino || (get_int16 inode 0 == 0)
    then some (1, true, deleted, ixmap)
    else elim (valid_name dirent) [
      | none ↦ none
      | some (valid, e) ↦ some (
        count_if (not valid),
        not valid,
        e,
        update ixmap (ino - 1) ((ixmap (ino - 1) + 1) % 65536),
      )
    ]
