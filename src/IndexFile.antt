-- ===== src/IndexFile.antt =====
-- Tools/linux/vol180/indexf.c: the entries of the index file, 64 bytes for each file, 8 to a block.
pub mod Entry
pub mod Access
use rsx.Base.{
  Block, Bool, Option, copy, false, get_int16, none, set_int16, set_int24, some, suc, true, update,
  zero, zeros, ℕ, ◌%◌, ◌*◌, ◌+◌, ◌/◌, ◌==◌,
}
use rsx.Bitmap.{Volume, alloc_inode}
use rsx.Buffer.{Cache, bytes_of, release_block, with_block, write_bytes}

-- `--num`, on an `unsigned short`
abbrev pub zero_based : ℕ → ℕ
zero_based num = (num + 65535) % 65536

-- The block and the offset in it of entry `num`, which counts from 1.
abbrev pub entry_block : Volume → ℕ → ℕ
entry_block g num = g.ixblock + zero_based num / 8

abbrev pub entry_offset : ℕ → ℕ
entry_offset num = zero_based num % 8 * 64

-- `int read_inode(unsigned short num, unsigned char *entry)`: the result beside the caller's array.
pub read_inode : Volume → ℕ → Block → Cache → Bool × Block × Cache
read_inode g num entry v =
    with_block g.nblocks (entry_block g num) v (λ w. (false, entry, w))
      λ buf w. (true, copy entry 0 (bytes_of buf w) (entry_offset num) 64, release_block buf w)

-- `int write_inode(unsigned short num, unsigned char *entry)`
pub write_inode : Volume → ℕ → Block → Cache → Bool × Cache
write_inode g num entry v =
    with_block g.nblocks (entry_block g num) v (λ w. (false, w))
      λ buf w. (
        true,
        release_block buf (write_bytes buf (copy (bytes_of buf w) (entry_offset num) entry 0 64) w),
      )

-- `int new_inode(void)` on fuel; `none` if that runs out. Zero if there is no free entry.
pub new_inode : Volume → ℕ → Cache → Option (ℕ × Cache)
new_inode g zero v = none
new_inode g (suc fuel) v =
    let (i, w) = alloc_inode g v in
    elim (i == 0) [
      | true ↦ some (0, w)
      | false ↦
          let (done, inode, u) = read_inode g i zeros w in
          elim done [
            | false ↦ some (0, u)
            | true ↦ elim (get_int16 inode 0 == 0) [
              | true ↦ some (i, u)
              | false ↦ new_inode g fuel u
            ]
          ]
    ]

-- `set_inode`: `++seqno` wraps on an `unsigned short`.
pub set_inode : Volume → Block → (lnkcnt attrib group user nalloc nused lbcount perm : ℕ) → Block
set_inode g entry lnkcnt attrib group user nalloc nused lbcount perm =
    let e1 = set_int16 entry 0 lnkcnt in
    let e2 = update (update e1 2 (attrib % 256)) 3 g.clfactor in
    let e3 = set_int16 e2 4 ((get_int16 e2 4 + 1) % 65536) in
    let e4 = update (update e3 6 (user % 256)) 7 (group % 256) in
    set_int16 (set_int16 (set_int24 (set_int24 e4 8 nalloc) 11 nused) 14 lbcount) 30 perm
