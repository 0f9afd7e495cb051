-- ===== src/Check/Clusters.antt =====
-- The check of the allocation bitmap: `check_alloc_map` of Tools/linux/vol180/check.c.
pub mod Marks
use rsx.Base.{
  Block, Option, bit_or, false, get_int16, get_int24, has_bit, if◌then◌else◌, leb, none, some, suc,
  true, update, zero, ℕ, ◌%◌, ◌+◌, ◌-◌, ◌/◌, ◌==◌, ◌^◌,
}
use rsx.Bitmap.{Volume}
use rsx.Buffer.{Cache, bytes_of, release_block, with_block}
use rsx.IndexFile.{read_inode}

-- The bitmap that is built, and the count of errors.
pub record Marked : Type 0 where
  pub bm : Block
  pub errcnt : ℕ

-- A cluster is marked at byte k with a mask; one that is marked already is an error.
unfoldable pub mark_at : (k mask : ℕ) → Marked → Marked
mark_at k mask s =
    if has_bit (s.bm k) mask
    then record s { errcnt = s.errcnt + 1 }
    else record s { bm = update s.bm k (bit_or (s.bm k) mask) }

-- The same for the number of the cluster.
unfoldable pub mark_cluster : ℕ → Marked → Marked
unfolding mark_at
mark_cluster clno s = mark_at (clno / 8) (0x80 / 2 ^ (clno % 8)) s

-- The loop over the clusters of a contiguous file.
unfoldable pub mark_run : (ncls k mask : ℕ) → Marked → Marked
mark_run zero k mask s = s
mark_run (suc n) k mask s =
    if mask / 2 == 0
    then mark_run n (k + 1) 0x80 (mark_at k mask s)
    else mark_run n k (mask / 2) (mark_at k mask s)

-- The clusters of nalloc blocks.
abbrev pub cluster_count : Volume → ℕ → ℕ
cluster_count g nalloc =
    let whole = nalloc / 2 ^ g.clfactor in if nalloc % 2 ^ g.clfactor == 0 then whole else whole + 1

-- A contiguous file.
unfoldable pub mark_contiguous : Volume → Block → Marked → Marked
mark_contiguous g inode s =
    let clno = get_int24 inode 32 / 2 ^ g.clfactor in
    mark_run (cluster_count g (get_int24 inode 8)) (clno / 8) (0x80 / 2 ^ (clno % 8)) s

-- The loop over the five pointers in the entry.
unfoldable pub mark_direct : ℕ → Volume → Block → (blkptr : ℕ) → Marked → Marked
unfolding mark_cluster
mark_direct zero g inode blkptr s = s
mark_direct (suc n) g inode blkptr s =
    let clno = get_int24 inode blkptr / 2 ^ g.clfactor in
    mark_direct n g inode (blkptr + 3) (if clno == 0 then s else mark_cluster clno s)

-- How the walk over the map blocks ends; `none` is the return with a message.
abbrev pub Walk : Type 0
Walk = Option Marked × Cache

-- `if (buf) release_block(buf);`
abbrev pub release_held : Option ℕ → Cache → Cache
release_held none v = v
release_held (some buf) v = release_block buf v

-- The next map block, and its mark if it starts a cluster; the buffer that is held is released before.
unfoldable pub to_next_map :
    Volume → (next : ℕ) → Option ℕ → Marked → Cache → (ℕ → Marked → Cache → Walk) → Walk
unfolding mark_cluster
to_next_map g next held s v go =
    let v1 = release_held held v in
    let marked = if next % 2 ^ g.clfactor == 0 then mark_cluster (next / 2 ^ g.clfactor) s else s in
    elim (next == 0) [
      | true ↦ (none, v1)
      | false ↦ with_block g.nblocks next v1 (λ w. (none, w)) (λ buf w. go buf marked w)
    ]

-- The loop over the clusters from the sixth on, with the rounds left.
unfoldable pub mark_chain : ℕ → Volume → (next blkptr : ℕ) → Option ℕ → Marked → Cache → Walk
unfolding to_next_map
mark_chain zero g next blkptr held s v = (some s, release_held held v)
mark_chain (suc n) g next blkptr held s v =
    let mark = λ (buf at : ℕ) (s1 : Marked) (w : Cache).
      mark_cluster (get_int24 (bytes_of buf w) at / 2 ^ g.clfactor) s1 in
    elim (leb 510 blkptr) [
      | true ↦
          to_next_map g next held s v λ buf s1 w.
            mark_chain n g (get_int24 (bytes_of buf w) 3) 9 (some buf) (mark buf 6 s1 w) w
      | false ↦ elim held [
        | some buf ↦ mark_chain n g next (blkptr + 3) (some buf) (mark buf blkptr s v) v
        | none ↦ (none, v)
      ]
    ]

-- A file with an allocation map.
unfoldable pub mark_mapped : Volume → Block → Marked → Cache → Walk
unfolding mark_direct mark_chain
mark_mapped g inode s v =
    let s1 = mark_direct 5 g inode 32 s in
    let blkno = get_int24 inode 47 in
    let rounds = cluster_count g (get_int24 inode 8) - 5 in
    let s2 = mark_cluster (blkno / 2 ^ g.clfactor) s1 in
    elim (blkno == 0) [
      | true ↦ mark_chain rounds g 0 512 none s1 v
      | false ↦
          with_block g.nblocks blkno v (λ w. (none, w))
            (λ buf w. mark_chain rounds g (get_int24 (bytes_of buf w) 3) 6 (some buf) s2 w)
    ]

-- The loop over the entries of the index file.
unfoldable pub mark_files : ℕ → Volume → (i : ℕ) → Block → Marked → Cache → Walk
unfolding mark_contiguous mark_mapped
mark_files zero g i inode s v = (some s, v)
mark_files (suc n) g i inode s v =
    let (done, entry, w) = read_inode g (i + 1) inode v in
    let (r, u) = mark_mapped g entry s w in
    elim done [
      | false ↦ (none, w)
      | true ↦ elim (get_int16 entry 0 == 0) [
        | true ↦ mark_files n g (i + 1) entry s w
        | false ↦ elim (has_bit (entry 2) 0x08) [
          | true ↦ mark_files n g (i + 1) entry (mark_contiguous g entry s) w
          | false ↦ elim r [ none ↦ (none, u) | some s1 ↦ mark_files n g (i + 1) entry s1 u ]
        ]
      ]
    ]
