-- ===== src/Bitmap.antt =====
-- Tools/linux/vol180/bitmap.c: the bitmaps of the clusters and of the index file entries, over the
-- sector cache. An `unsigned long` is 64 bits, so that no sum of block numbers wraps.
pub mod Scan
pub mod Take
pub mod Alloc
pub mod Clusters
pub mod Inodes
use rsx.Base.{
  Bool, Option, bit_and, bit_mask, bit_or, clear_bit, false, get_int16, get_int24, if◌then◌else◌,
  leb, ltb, none, some, suc, true, update, zero, ℕ, ◌%◌, ◌&&◌, ◌*◌, ◌+◌, ◌/◌, ◌==◌, ◌^◌,
}
use rsx.Buffer.{Cache, bytes_of, release_block, with_block, write_bytes}

-- The globals of mount.c that describe the mounted volume.
pub record Volume : Type 0 where
  pub nblocks : ℕ
  pub bmblock : ℕ
  pub ixblock : ℕ
  pub clfactor : ℕ
  pub defprot : ℕ

-- `BMHDRSZ`
abbrev pub bmhdrsz : ℕ
bmhdrsz = 16

-- The local variables by which the scans walk over the bits.
pub record Cursor : Type 0 where
  pub mask : ℕ
  pub offs : ℕ
  pub bmblk : ℕ
  pub bmp : ℕ
  pub buf : ℕ

-- On the first bit after the header of the buffered first block.
abbrev pub start : ℕ → ℕ → Cache → Cursor
start bmblk buf v = record {
  mask = 0x80;
  offs = bmhdrsz;
  bmblk = bmblk;
  bmp = bytes_of buf v bmhdrsz;
  buf = buf;
}

-- `release_block(buf); buf = get_block(++bmblk); ... offs = 0; bmp = buf->data[offs]; mask = 0x80;`
pub next_block : ℕ → Cursor → Cache → Option Cursor × Cache
next_block nblocks k v =
    with_block nblocks (k.bmblk + 1) (release_block k.buf v) (λ w. (none, w))
      (λ b w. (
        some (record { mask = 0x80; offs = 0; bmblk = k.bmblk + 1; bmp = bytes_of b w 0; buf = b }),
        w,
      ))

-- The end of each scan's loop body, from `mask >>= 1` on; NULL ends the function.
pub advance : ℕ → Cursor → Cache → Option Cursor × Cache
unfolding next_block
advance nblocks k v =
    if k.mask / 2 == 0
    then (if k.offs + 1 == 512 then next_block nblocks k v else (
      some (record k { mask = 0x80; offs = k.offs + 1; bmp = bytes_of k.buf v (k.offs + 1) }),
      v,
    ))
    else (some (record k { mask = k.mask / 2 }), v)

-- `bmp |= mask; buf->data[offs] = bmp; buf->modified = 1; release_block(buf);`
pub take_bit : Cursor → Cache → Cache
take_bit k v =
    release_block k.buf
      (write_bytes k.buf (update (bytes_of k.buf v) k.offs (bit_or k.bmp k.mask)) v)

-- The loop of `alloc_cluster` and of `alloc_inode`, with the rounds left and the bit's number:
-- `some i` for the bit that was taken. When no round is left the buffer is not released.
pub alloc_loop : ℕ → ℕ → ℕ → Cursor → Cache → Option ℕ × Cache
unfolding take_bit
alloc_loop nblocks zero i k v = (none, v)
alloc_loop nblocks (suc n) i k v =
    if bit_and k.bmp k.mask == 0
    then (some i, take_bit k v)
    else (let (r, w) = advance nblocks k v in
        elim r [ none ↦ (none, w) | some k' ↦ alloc_loop nblocks n (suc i) k' w ])

-- `unsigned long alloc_cluster(void)`; zero if the disk is full.
pub alloc_cluster : Volume → Cache → ℕ × Cache
unfolding alloc_loop
alloc_cluster g v =
    with_block g.nblocks g.bmblock v (λ w. (0, w))
      λ buf w.
        let (r, u) = alloc_loop g.nblocks g.nblocks 0 (start g.bmblock buf w) w in
        elim r [ none ↦ (0, u) | some i ↦ (i * 2 ^ g.clfactor, u) ]

-- `buf->data[offs] &= ~mask; buf->modified = 1; release_block(buf);` for bit i
pub free_bit : ℕ → ℕ → Cache → Cache
free_bit i buf w =
    let offs = (i / 8 + bmhdrsz) % 512 in
    let byte = clear_bit (bytes_of buf w offs) (bit_mask (i % 8)) in
    release_block buf (write_bytes buf (update (bytes_of buf w) offs byte) w)

-- `int free_cluster(unsigned long clno)`
pub free_cluster : Volume → ℕ → Cache → Bool × Cache
unfolding free_bit
free_cluster g clno v =
    with_block g.nblocks (g.bmblock + (clno / 8 + bmhdrsz) / 512 % 0x1000) v (λ w. (false, w))
      λ buf w. (true, free_bit clno buf w)

-- `unsigned short alloc_inode(void)`: 1-based, zero if no entry is free.
pub alloc_inode : Volume → Cache → ℕ × Cache
unfolding alloc_loop
alloc_inode g v =
    with_block g.nblocks g.bmblock v (λ w. (0, w))
      λ buf w.
        let bmblk = g.bmblock + get_int24 (bytes_of buf w) 8 in
        with_block g.nblocks bmblk (release_block buf w) (λ w1. (0, w1))
          λ buf1 w1.
            let nfiles = get_int16 (bytes_of buf1 w1) 0 in
            let (r, u) = alloc_loop g.nblocks nfiles 0 (start bmblk buf1 w1) w1 in
            elim r [ none ↦ (0, u) | some i ↦ ((i + 1) % 65536, u) ]

-- `int free_inode(unsigned short ino)`; `--ino` wraps on an `unsigned short`.
pub free_inode : Volume → ℕ → Cache → Bool × Cache
unfolding free_bit
free_inode g num v =
    let ino = (num + 65535) % 65536 in
    with_block g.nblocks g.bmblock v (λ w. (false, w))
      λ buf w.
        let bmblk = g.bmblock + get_int24 (bytes_of buf w) 8 in
        with_block g.nblocks bmblk (release_block buf w) (λ w1. (false, w1))
          λ buf1 w1.
            let nfiles = get_int16 (bytes_of buf1 w1) 0 in
            let w2 = release_block buf1 w1 in
            if leb nfiles ino
            then (false, w2)
            else with_block g.nblocks (bmblk + (ino / 8 + bmhdrsz) / 512 % 0x20) w2
                (λ w3. (false, w3)) λ buf3 w3. (true, free_bit ino buf3 w3)

-- The search loop of `alloc_clusters`, with the rounds left, and the release behind it: the start
-- of the last free run met and its length so far, or `none` where `get_block` returns NULL.
pub find_run : ℕ → ℕ → ℕ → (i cstart j : ℕ) → Cursor → Cache → Option (ℕ × ℕ) × Cache
unfolding advance
find_run nblocks num zero i cstart j k v = (some (cstart, j), release_block k.buf v)
find_run nblocks num (suc n) i cstart j k v =
    let free = bit_and k.bmp k.mask == 0 in
    let cstart' = if free && (j == 0) then i else cstart in
    let j' = if free then j + 1 else 0 in
    if free && (j' == num)
    then (some (cstart', j'), release_block k.buf v)
    else (let (r, w) = advance nblocks k v in
        elim r [ none ↦ (none, w) | some k' ↦ find_run nblocks num n (suc i) cstart' j' k' w ])

-- `buf->data[offs] = bmp; buf->modified = 1;`
pub store_bits : Cursor → Cache → Cache
store_bits k v = write_bytes k.buf (update (bytes_of k.buf v) k.offs k.bmp) v

-- The body of the marking loop: a byte is stored when all its bits are done.
pub mark_bit : ℕ → Cursor → Cache → Option Cursor × Cache
unfolding store_bits next_block
mark_bit nblocks k v =
    let k' = record k { bmp = bit_or k.bmp k.mask } in
    if k.mask / 2 == 0
    then (let w = store_bits k' v in
        if k.offs + 1 == 512 then next_block nblocks k w else (
          some (record k { mask = 0x80; offs = k.offs + 1; bmp = bytes_of k.buf w (k.offs + 1) }),
          w,
        ))
    else (some (record k' { mask = k.mask / 2 }), v)

pub mark_run : ℕ → ℕ → Cursor → Cache → Bool × Cache
unfolding mark_bit
mark_run nblocks zero k v =
    (true, release_block k.buf (if k.mask == 0x80 then v else store_bits k v))
mark_run nblocks (suc n) k v =
    let (r, w) = mark_bit nblocks k v in
    elim r [ none ↦ (false, w) | some k' ↦ mark_run nblocks n k' w ]

-- Where the marking of a run that starts with bit `cstart` begins.
abbrev pub at_bit : (cstart bmblk buf : ℕ) → Cache → Cursor
at_bit cstart bmblk buf v = record {
  mask = bit_mask (cstart % 8);
  offs = (cstart / 8 + bmhdrsz) % 512;
  bmblk = bmblk;
  bmp = bytes_of buf v ((cstart / 8 + bmhdrsz) % 512);
  buf = buf;
}

-- `unsigned long alloc_clusters(unsigned long num)`; zero if there is no free run of that length.
pub alloc_clusters : Volume → ℕ → Cache → ℕ × Cache
unfolding find_run mark_run
alloc_clusters g num v =
    with_block g.nblocks g.bmblock v (λ w. (0, w))
      λ buf w.
        let (r, u) = find_run g.nblocks num g.nblocks 0 0 0 (start g.bmblock buf w) w in
        elim r [
          | none ↦ (0, u)
          | some run ↦
              if ltb run.1 num
              then (0, u)
              else (let first = run.0 / 8 + bmhdrsz in
                  let bmblk = g.bmblock + first / 512 % 0x1000 in
                  with_block g.nblocks bmblk u (λ u1. (0, u1))
                    λ buf1 u1.
                      let (done, u2) = mark_run g.nblocks num (at_bit run.0 bmblk buf1 u1) u1 in
                      (if done then run.0 * 2 ^ g.clfactor else 0, u2))
        ]
