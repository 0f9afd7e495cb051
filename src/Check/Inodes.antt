-- ===== src/Check/Inodes.antt =====
-- The check of the index file: `check_index_file` of Tools/linux/vol180/check.c.
pub mod Sound
pub mod Entries
use rsx.Base.{
  Block, Bool, false, get_int16, get_int24, has_bit, if◌then◌else◌, leb, ltb, not, set_int16,
  set_int24, suc, true, update, zero, zeros, ℕ, ◌%◌, ◌*◌, ◌+◌, ◌-◌, ◌/◌, ◌==◌, ◌^◌, ◌||◌,
}
use rsx.Bitmap.{Volume, bmhdrsz}
use rsx.Buffer.{Cache}
use rsx.Check.{Pass, abort, and_then, count_if, load_inode, proceed, save_inode}
use rsx.IndexFile.{read_inode}

-- The local variables of the loop that are checked and stored back.
pub record Fields : Type 0 where
  pub lcnt : ℕ
  pub nalloc : ℕ
  pub nused : ℕ
  pub lbcnt : ℕ

abbrev pub read_fields : Block → Fields
read_fields e = record {
  lcnt = get_int16 e 0;
  nalloc = get_int24 e 8;
  nused = get_int24 e 11;
  lbcnt = get_int16 e 14;
}

abbrev pub store_fields : Block → Fields → Block
store_fields e f =
    set_int16 (set_int24 (set_int24 (set_int16 e 0 f.lcnt) 8 f.nalloc) 11 f.nused) 14 f.lbcnt

-- A contiguous file that goes behind the end of the volume is truncated.
unfoldable pub truncate : (nblocks blkno : ℕ) → Fields → ℕ × Fields
truncate nblocks blkno f =
    let left = nblocks - blkno - 1 in
    if ltb nblocks (blkno + f.nalloc)
    then (1, record f { lcnt = if left == 0 then 0 else f.lcnt; nalloc = left })
    else (0, f)

-- Its used blocks are some of the allocated ones.
unfoldable pub limit_used : Fields → ℕ × Fields
limit_used f = if ltb f.nalloc f.nused then (1, record f { nused = f.nalloc }) else (0, f)

-- The checks of a contiguous file.
unfoldable pub check_contiguous : (nblocks blkno : ℕ) → Fields → ℕ × Fields
unfolding truncate limit_used
check_contiguous nblocks blkno f =
    let (errs1, f1) = truncate nblocks blkno f in
    let (errs2, f2) = limit_used f1 in
    if leb nblocks blkno then (1, record f { lcnt = 0 }) else (errs1 + errs2, f2)

-- The checks of any other file.
unfoldable pub check_mapped : (nblocks blkno : ℕ) → Fields → ℕ × Fields
check_mapped nblocks blkno f =
    if blkno == 0
    then (if ltb 0 f.nalloc then (1, record f { lcnt = 0 }) else (0, f))
    else if ltb blkno 2 || leb nblocks blkno
    then (1, record f { lcnt = 0 })
    else (0, f)

-- The check of the last block's length.
unfoldable pub limit_lbcnt : Fields → ℕ × Fields
limit_lbcnt f = if ltb 512 f.lbcnt then (1, record f { lbcnt = 512 }) else (0, f)

-- The body of the loop on an entry in use: the number of errors and the fields that are stored.
unfoldable pub check_fields : (nblocks blkno : ℕ) → (contiguous : Bool) → Fields → ℕ × Fields
unfolding check_contiguous check_mapped limit_lbcnt
check_fields nblocks blkno contiguous f =
    let (errs1, f1) =
      if contiguous then check_contiguous nblocks blkno f else check_mapped nblocks blkno f in
    let (errs2, f2) = limit_lbcnt f1 in (errs1 + errs2, f2)

-- The entry of a file in use after the check.
unfoldable pub check_entry : ℕ → Block → ℕ × Block
check_entry nblocks e =
    let (errs, f) = check_fields nblocks (get_int24 e 32) (has_bit (e 2) 0x08) (read_fields e) in
    (errs, store_fields e f)

-- The loop over the entries, with the rounds left.
unfoldable pub check_entries : ℕ → Bool → Volume → (i : ℕ) → Block → (errcnt : ℕ) → Cache → Pass
unfolding check_entry
check_entries zero read_only g i inode errcnt v = proceed errcnt v
check_entries (suc n) read_only g i inode errcnt v = load_inode g (i + 1) inode errcnt v λ entry w.
    let (errs, fixed) = check_entry g.nblocks entry in
    elim (get_int16 entry 0 == 0) [
      | true ↦ check_entries n read_only g (i + 1) entry errcnt w
      | false ↦
          and_then (save_inode read_only g (i + 1) fixed (errcnt + errs) w)
            (check_entries n read_only g (i + 1) fixed)
    ]

-- `bmblks`, the blocks of the allocation bitmap, and `ixbmblks`, those of the index file's bitmap.
abbrev pub bmsize : Volume → ℕ
bmsize g = (g.nblocks / 2 ^ g.clfactor + 7) / 8 + bmhdrsz

abbrev pub bmblks : Volume → ℕ
bmblks g = (bmsize g + 511) / 512

abbrev pub ixbmblks : ℕ → ℕ
ixbmblks inodes = ((inodes + 7) / 8 + bmhdrsz + 511) / 512

-- `SET_INT16(inode, 0, 1)` for a link count of zero.
abbrev pub fix_links : Block → Block
fix_links e = if get_int16 e 0 == 0 then set_int16 e 0 1 else e

-- `inode[11] = inode[8]`, and the next two bytes.
abbrev pub copy_alloc : Block → Block
copy_alloc e = update (update (update e 11 (e 8)) 12 (e 9)) 13 (e 10)

-- The entry of BITMAP.SYS: the number of errors and the entry that is stored. `nused` and `nalloc`
-- have been read before the repair.
unfoldable pub fix_bitmap : Volume → (inodes : ℕ) → Block → ℕ × Block
fix_bitmap g inodes e =
    let blocks = bmblks g + ixbmblks inodes in
    let nalloc = get_int24 e 8 in
    let e1 = fix_links e in
    let e2 = if nalloc == blocks then e1 else set_int24 e1 8 blocks in
    (
      count_if (get_int16 e 0 == 0) + count_if (not (nalloc == blocks)),
      if get_int24 e 11 == nalloc then e2 else copy_alloc e2,
    )

-- The entry of BOOT.SYS, of two blocks from block zero on.
unfoldable pub fix_boot : Block → ℕ × Block
fix_boot e =
    let nalloc = get_int24 e 8 in
    let nused = get_int24 e 11 in
    let e1 = fix_links e in
    let e2 = if get_int24 e 32 == 0 then e1 else set_int24 e1 32 0 in
    let e3 = if nalloc == 2 then e2 else set_int24 e2 8 2 in
    (
      count_if (get_int16 e 0 == 0)
          + count_if (not (nalloc == 2))
          + count_if (not (nused == nalloc)),
      if nused == nalloc then e3 else copy_alloc e3,
    )

-- `inodes`, an `unsigned short`, from the entry of INDEXF.SYS.
abbrev pub inode_count : Block → ℕ
inode_count e = get_int24 e 11 * 8 % 65536

-- `check_index_file`; the link counts of entries 1 and 5 are counted as repaired, and not written.
unfoldable pub check_index_file : Bool → Volume → (errcnt : ℕ) → Cache → ℕ × Pass
check_index_file read_only g errcnt v =
    let (done, first, v1) = read_inode g 1 zeros v in
    let inodes = inode_count first in
    let errs1 = errcnt + count_if (get_int16 first 0 == 0) in
    let rest = load_inode g 2 first errs1 v1 λ bitmap w1.
      let (errs2, b) = fix_bitmap g inodes bitmap in
      and_then (save_inode read_only g 2 b (errs1 + errs2) w1) λ errs3 w2.
        load_inode g 4 b errs3 w2 λ boot w3.
          let (errs4, c) = fix_boot boot in
          and_then (save_inode read_only g 4 c (errs3 + errs4) w3) λ errs5 w4.
            load_inode g 5 c errs5 w4 λ md w5.
              check_entries inodes read_only g 0 md (errs5 + count_if (get_int16 md 0 == 0)) w5 in
    if done then (inodes, rest) else (0, abort errcnt v1)
