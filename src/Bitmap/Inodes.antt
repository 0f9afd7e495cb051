-- ===== src/Bitmap/Inodes.antt =====
-- `alloc_inode` and `free_inode` on the bitmap of the index file, which the header of the cluster
-- bitmap leads to.
use rsx.Base.{
  Bool, Bool-cases, Option, arith, false, get_int16, get_int24, if◌then◌else◌, inl, inr, leb,
  leb→le, leb→lt, none, some, true, ℕ, ◌%◌, ◌+◌, ◌-◌, ◌/◌, ◌<◌, ◌≡◌, ◌≤◌, ◌⊎◌,
}
use rsx.Bitmap.{Volume, alloc_inode, alloc_loop, bmhdrsz, free_bit, free_inode, start}
use rsx.Bitmap.Alloc.{Scanned, all_used, alloc_loop-Scanned, taken}
use rsx.Bitmap.Clusters.{CanScan}
use rsx.Bitmap.Scan.{bit_block, is_used, start-IsAt}
use rsx.Bitmap.Take.{SetsBit, free_bit-SetsBit}
use rsx.Buffer.{Cache, bytes_of, release_block, with_block}
use rsx.Buffer.Get.{Got, bytes-Got}
use rsx.Buffer.Session.{Got-Quiet, HasFree-Settled, Quiet, Settled, release-Got, with_block-rule}
use rsx.Buffer.View.{view}

-- The first block of the index file's bitmap, and the number of entries of the index file.
abbrev pub inode_base : Volume → Cache → ℕ
inode_base g v = g.bmblock + get_int24 (view v g.bmblock) 8

abbrev pub inode_count : Volume → Cache → ℕ
inode_count g v = get_int16 (view v (inode_base g v)) 0

-- Both bitmaps' first blocks and the bits of the index file are on the volume.
pub record CanScanInodes (g : Volume) (v : Cache) : Type 0 where
  pub header : g.bmblock < g.nblocks
  pub scan : CanScan g.nblocks (inode_base g v) (inode_count g v) v

-- The outcomes of `alloc_inode`.
pub data InodeAllocated (g : Volume) (v : Cache) : ℕ × Cache → Type 0 where
  allocated :
      {w : Cache} (i : ℕ)
      → i < inode_count g v
      → ((d : ℕ) → d < i → is_used v (inode_base g v) d ≡ true)
      → is_used v (inode_base g v) i ≡ false
      → Settled v w
      → SetsBit (inode_base g v) i true v w
      → InodeAllocated g v (i + 1, w)
  index_full :
      {w : Cache} (b s : ℕ)
      → ((d : ℕ) → d < inode_count g v → is_used v (inode_base g v) d ≡ true)
      → Got v b s w
      → InodeAllocated g v (0, w)

-- The outcomes of `free_inode`.
pub data InodeFreed (g : Volume) (num : ℕ) (v : Cache) : Bool × Cache → Type 0 where
  freed :
      {w : Cache}
      → 0 < num
      → num ≤ inode_count g v
      → Settled v w
      → SetsBit (inode_base g v) (num - 1) false v w
      → InodeFreed g num v (true, w)
  refused :
      {w : Cache} → (num ≡ 0) ⊎ (inode_count g v < num) → Quiet v w → InodeFreed g num v (false, w)

module _ (g : Volume) {v : Cache} (can : CanScanInodes g v) where
  open can use {header, scan}

  inode_count-lt : inode_count g v < 65536
  inode_count-lt = omega (arith, scan.bytes (inode_base g v) 0, scan.bytes (inode_base g v) 1)

  inode_outcome :
      (r : Option ℕ × Cache)
      → Scanned (inode_base g v) 0 (inode_count g v) v r
      → InodeAllocated g v (elim r.0 [ none ↦ (0, r.1) | some i ↦ ((i + 1) % 65536, r.1) ])
  inode_outcome (some j, w) (taken _ lo hi before at set bits) =
      let small : (j + 1) % 65536 ≡ j + 1 = omega (arith, inode_count-lt) in
      rw small (allocated j (omega arith) (λ d dj. before d (omega arith) dj) at set bits)
  inode_outcome (none, w) (all_used b s used got) =
      index_full b s (λ d hd. used d (omega arith) (omega arith)) got

  -- The two fetches by which both functions find the bitmap and read its header.
  inode_header-rule :
      {R : Type 0} (P : R → Type 0) (null1 null2 : Cache → R) (k : ℕ → ℕ → ℕ → Cache → R)
      → ((b : ℕ) (w : Cache)
          → Got v (inode_base g v) b w
          → P (k (inode_base g v) (inode_count g v) b w))
      → P (
          with_block g.nblocks g.bmblock v null1 λ buf w.
            let bmblk = g.bmblock + get_int24 (bytes_of buf w) 8 in
            with_block g.nblocks bmblk
              (release_block buf w)
              null2
              λ buf1 w1. k bmblk (get_int16 (bytes_of buf1 w1) 0) buf1 w1)
  inode_header-rule P null1 null2 k f =
      with_block-rule P g.nblocks g.bmblock _ _ scan.coherent header scan.free λ b w got.
        let q = release-Got scan.coherent got in
        rw (bytes-Got got) (
          with_block-rule P g.nblocks (inode_base g v) _ _ q.settled.coherent
            (omega (arith, scan.room)) (HasFree-Settled scan.free q.settled)
            λ b1 w1 got1. let got0 = Got-Quiet q got1 in rw (bytes-Got got0) (f b1 w1 got0))

  -- On a coherent cache of bytes with a free buffer, when the first block of the bitmap file and
  -- the bits of the index file, with the one behind the last, lie on the volume, alloc_inode
  -- returns the number, from 1, of the first free entry of the index file, marks that entry and
  -- no other, and leaves every other byte, the reference counts and the held buffers alone; or it
  -- returns zero because all entries are in use, and then no block changes but one buffer keeps a
  -- reference.
  pub alloc_inode-Allocated : InodeAllocated g v (alloc_inode g v)
  unfolding alloc_inode
  alloc_inode-Allocated =
      inode_header-rule (InodeAllocated g v) (λ w. (0, w)) (λ w. (0, w))
        (λ bmblk nfiles buf w.
          let (r, u) = alloc_loop g.nblocks nfiles 0 (start bmblk buf w) w in
          elim r [ none ↦ (0, u) | some i ↦ ((i + 1) % 65536, u) ])
        λ b w got.
          inode_outcome (alloc_loop g.nblocks (inode_count g v) 0 (start (inode_base g v) b w) w) (
            alloc_loop-Scanned g.nblocks (inode_base g v) scan.coherent scan.free scan.bytes
              (inode_count g v) 0 (start (inode_base g v) b w) w (start-IsAt got)
              (omega (arith, scan.room)))

  -- On a coherent cache of bytes with a free buffer, when the first block of the bitmap file and
  -- the bits of the index file, with the one behind the last, lie on the volume, free_inode of a
  -- number from 1 to the number of entries clears the bit of that entry and no other, and leaves
  -- every other byte, the reference counts and the held buffers alone. It refuses zero and any
  -- larger number, and then no block and no reference count changes.
  pub free_inode-Freed : (num : ℕ) → num < 65536 → InodeFreed g num v (free_inode g num v)
  unfolding free_inode
  free_inode-Freed num small =
      inode_header-rule (InodeFreed g num v) (λ w. (false, w)) (λ w. (false, w))
        (λ bmblk nfiles buf w.
          let ino = (num + 65535) % 65536 in
          let w2 = release_block buf w in
          if leb nfiles ino
          then (false, w2)
          else with_block g.nblocks (bmblk + (ino / 8 + bmhdrsz) / 512 % 0x20) w2
              (λ w3. (false, w3)) λ buf3 w3. (true, free_bit ino buf3 w3))
        λ b w got.
          let q = release-Got scan.coherent got in
          elim (Bool-cases (leb (inode_count g v) ((num + 65535) % 65536))) [
            | inl big ↦ rw big (
                refused
                  (omega
                    (arith, leb→le (inode_count g v) ((num + 65535) % 65536) big, inode_count-lt))
                  q)
            | inr within ↦ rw within (
                free_within (release_block b w) q
                  (leb→lt (inode_count g v) ((num + 65535) % 65536) within))
          ]
    where
      free_within :
          (w : Cache)
          → Quiet v w
          → (num + 65535) % 65536 < inode_count g v
          → InodeFreed g num v (
              with_block g.nblocks
                (inode_base g v + ((num + 65535) % 65536 / 8 + bmhdrsz) / 512 % 0x20)
                w
                (λ w3. (false, w3))
                λ buf3 w3. (true, free_bit ((num + 65535) % 65536) buf3 w3))
      free_within w q lt =
          let pre : (num + 65535) % 65536 ≡ num - 1 = omega (arith, inode_count-lt) in
          let near : ((num - 1) / 8 + 16) / 512 % 0x20 ≡ ((num - 1) / 8 + 16) / 512 = omega arith in
          rw (pre, near)
            (with_block-rule (InodeFreed g num v) g.nblocks (bit_block (inode_base g v) (num - 1)) _
              _ q.settled.coherent (omega (arith, scan.room)) (HasFree-Settled scan.free q.settled)
              λ b1 w1 got1.
                let r =
                  free_bit-SetsBit (inode_base g v) (num - 1) scan.coherent scan.bytes
                    (Got-Quiet q got1) in
                freed (omega (arith, inode_count-lt)) (omega (arith, inode_count-lt)) r.0 r.1)
