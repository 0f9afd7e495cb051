-- ===== src/Check/Compare.antt =====
-- The comparison of the bitmap that has been built with the one on the disk, in `check_alloc_map` of
-- Tools/linux/vol180/check.c.
pub mod Copied
use rsx.Base.{
  Block, Bool, bit_and, false, get_int24, if◌then◌else◌, leb, none, not, set_int24, some, suc, true,
  update, zero, zeros, ℕ, ◌&&◌, ◌+◌, ◌-◌, ◌/◌, ◌==◌,
}
use rsx.Bitmap.{Volume, bmhdrsz, start}
use rsx.Buffer.{Cache, bytes_of, release_block, with_block, write_bytes}
use rsx.Check.{Pass, abort, count_if, proceed}
use rsx.Check.Clusters.{Marked, Walk, mark_files}
use rsx.Check.Inodes.{bmblks, bmsize}

-- The bits in which two bytes differ, from the given mask on: `l` of them are left.
unfoldable pub count_bits : (l mask a b : ℕ) → ℕ
count_bits zero mask a b = 0
count_bits (suc l) mask a b =
    count_if (not (bit_and a mask == bit_and b mask)) + count_bits l (mask / 2) a b

-- The inner loop over the bytes of a bitmap block, from byte j on; k counts the bytes of the bitmap,
-- and the buffer's bytes and whether they have changed are passed on.
unfoldable pub compare_bytes :
    (n bmsize k j : ℕ) → Marked → Block → (modified : Bool) → ℕ × Marked × Block × Bool
compare_bytes zero bmsize k j s old modified = (k, s, old, modified)
compare_bytes (suc n) bmsize k j s old modified =
    let errs = count_bits 8 0x80 (s.bm k) (old j) in
    if leb bmsize k
    then (k, s, old, modified)
    else if s.bm k == old j
    then compare_bytes n bmsize (k + 1) (j + 1) s old modified
    else compare_bytes n bmsize (k + 1) (j + 1) (record s { errcnt = s.errcnt + errs })
        (update old j (s.bm k)) true

-- The header of the bitmap in its first block; these repairs are not counted.
unfoldable pub fix_header : Volume → Block → Block × Bool
fix_header g old =
    let fixed = if get_int24 old 0 == g.nblocks then old else set_int24 old 0 g.nblocks in
    (
      if fixed 4 == g.clfactor then fixed else update fixed 4 g.clfactor,
      not ((get_int24 old 0 == g.nblocks) && (fixed 4 == g.clfactor)),
    )

-- The comparison of the bitmaps, block by block from the i-th on, with the blocks left.
unfoldable pub compare_maps : ℕ → Volume → (i k j : ℕ) → Marked → Cache → Walk
unfolding compare_bytes fix_header
compare_maps zero g i k j s v = (some s, v)
compare_maps (suc n) g i k j s v =
    with_block g.nblocks (g.bmblock + i) v (λ w. (none, w))
      λ buf w.
        let old = bytes_of buf w in
        let (new1, modified1) = if i == 0 then fix_header g old else (old, false) in
        let (k1, s1, new2, modified2) = compare_bytes (512 - j) (bmsize g) k j s new1 modified1 in
        let u = if modified2 then write_bytes buf new2 w else w in
        compare_maps n g (i + 1) k1 0 s1 (release_block buf u)

-- `check_alloc_map`; errors before a return with a message are not reported, and not passed on.
unfoldable pub check_alloc_map : Volume → (inodes errcnt : ℕ) → Cache → Pass
unfolding mark_files compare_maps
check_alloc_map g inodes errcnt v =
    let start : Marked = record { bm = zeros; errcnt = errcnt } in
    let (r, w) = mark_files inodes g 0 zeros start v in
    elim r [
      | none ↦ abort errcnt w
      | some s ↦
          let (t, u) = compare_maps (bmblks g) g 0 0 bmhdrsz s w in
          elim t [ none ↦ abort s.errcnt u | some s1 ↦ proceed s1.errcnt u ]
    ]
