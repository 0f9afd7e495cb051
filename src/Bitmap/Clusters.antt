-- ===== src/Bitmap/Clusters.antt =====
-- `alloc_cluster` and `free_cluster` on the bitmap of the clusters.
use rsx.Base.{
  AreBytes, Bool, Bool-cases, Option, arith, eq-cases, false, inl, inr, ltb, ltb→lt, none, refl,
  some, tests, true, ℕ, ◌%◌, ◌*◌, ◌+◌, ◌/◌, ◌<◌, ◌^◌, ◌≡◌, ◌≤◌,
}
use rsx.Bitmap.{Volume, alloc_cluster, alloc_loop, free_cluster, start}
use rsx.Bitmap.Alloc.{Scanned, all_used, alloc_loop-Scanned, taken}
use rsx.Bitmap.Scan.{bit_block, is_used, start-IsAt}
use rsx.Bitmap.Take.{SetsBit, free_bit-SetsBit}
use rsx.Buffer.{Cache}
use rsx.Buffer.Get.{Got, HasFree}
use rsx.Buffer.Session.{Settled, with_block-rule}
use rsx.Buffer.View.{IsCoherent, view}

-- What a scan of the bitmap needs: a coherent cache of bytes with a buffer to spare, and the block
-- of the bit behind the last one on the volume.
pub record CanScan (nblocks base n : ℕ) (v : Cache) : Type 0 where
  pub coherent : IsCoherent v
  pub free : HasFree v
  pub bytes : (b : ℕ) → AreBytes (view v b)
  pub room : bit_block base n < nblocks

-- The outcomes of `alloc_cluster`.
pub data Allocated (g : Volume) (v : Cache) : ℕ × Cache → Type 0 where
  allocated :
      {w : Cache} (c : ℕ)
      → c < g.nblocks
      → ((d : ℕ) → d < c → is_used v g.bmblock d ≡ true)
      → is_used v g.bmblock c ≡ false
      → Settled v w
      → SetsBit g.bmblock c true v w
      → Allocated g v (c * 2 ^ g.clfactor, w)
  disk_full :
      {w : Cache} (b s : ℕ)
      → ((d : ℕ) → d < g.nblocks → is_used v g.bmblock d ≡ true)
      → Got v b s w
      → Allocated g v (0, w)

module _ (g : Volume) {v : Cache} (can : CanScan g.nblocks g.bmblock g.nblocks v) where
  scan_outcome :
      (r : Option ℕ × Cache)
      → Scanned g.bmblock 0 g.nblocks v r
      → Allocated g v (elim r.0 [ none ↦ (0, r.1) | some i ↦ (i * 2 ^ g.clfactor, r.1) ])
  scan_outcome (some j, w) (taken _ lo hi before at set bits) =
      allocated j (omega arith) (λ d dj. before d (omega arith) dj) at set bits
  scan_outcome (none, w) (all_used b s used got) =
      disk_full b s (λ d hd. used d (omega arith) (omega arith)) got

  -- On a coherent cache of bytes with a free buffer, when the bitmap up to the bit behind the
  -- first nblocks ones lies on the volume, alloc_cluster returns the first block of the first
  -- free cluster among those bits, marks that cluster and no other, and leaves every other byte,
  -- the reference counts and the held buffers alone; or it returns zero because all those bits
  -- are set, and then no block changes but one buffer keeps a reference.
  pub alloc_cluster-Allocated : Allocated g v (alloc_cluster g v)
  unfolding alloc_cluster
  alloc_cluster-Allocated =
      with_block-rule (Allocated g v) g.nblocks g.bmblock _ _ can.coherent (omega (arith, can.room))
        can.free
        λ b w got. scan_outcome (alloc_loop g.nblocks g.nblocks 0 (start g.bmblock b w) w) (
          alloc_loop-Scanned g.nblocks g.bmblock can.coherent can.free can.bytes g.nblocks 0
            (start g.bmblock b w) w (start-IsAt got) (omega (arith, can.room)))

  -- On a coherent cache of bytes with a free buffer, when the bitmap up to the bit behind the
  -- first nblocks ones lies on the volume: the bound of the scan is the number of blocks, not of
  -- clusters. If every cluster of the volume is in use and the first clear bit m behind them is
  -- below nblocks, alloc_cluster returns a block at or behind the end of the volume.
  pub alloc_cluster-overrun :
      (m : ℕ)
      → m < g.nblocks
      → g.nblocks ≤ m * 2 ^ g.clfactor
      → ((d : ℕ) → d < m → is_used v g.bmblock d ≡ true)
      → is_used v g.bmblock m ≡ false
      → g.nblocks ≤ (alloc_cluster g v).0
  alloc_cluster-overrun m hm past used clear = go (alloc_cluster g v) alloc_cluster-Allocated
    where
      go : (r : ℕ × Cache) → Allocated g v r → g.nblocks ≤ r.0
      go r (allocated c hc before at _ _) = elim (eq-cases c m) [
        | inl e ↦ rw e past
        | inr ne ↦ elim (Bool-cases (ltb c m)) [
          | inl lt ↦ cc (used c (ltb→lt c m lt))
          | inr ge ↦ cc (before m (omega tests))
        ]
      ]
      go r (disk_full b s all _) = cc (all m hm)

-- On a coherent cache of bytes with a free buffer, free_cluster succeeds on a cluster whose bit
-- lies on the volume and in the 4096 blocks that the offset in the bitmap can name: it clears
-- that cluster's bit and no other, and leaves every other byte, the reference counts and the held
-- buffers alone.
pub free_cluster-SetsBit :
    (g : Volume) (clno : ℕ) {v : Cache}
    → CanScan g.nblocks g.bmblock clno v
    → clno / 8 + 16 < 2097152
    → ((free_cluster g clno v).0 ≡ true)
      × Settled v (free_cluster g clno v).1
      × SetsBit g.bmblock clno false v (free_cluster g clno v).1
unfolding free_cluster
free_cluster-SetsBit g clno {v} can small =
    let near : (clno / 8 + 16) / 512 % 0x1000 ≡ (clno / 8 + 16) / 512 = omega arith in
    rw near (
      with_block-rule
        (λ (r : Bool × Cache). (r.0 ≡ true) × Settled v r.1 × SetsBit g.bmblock clno false v r.1)
        g.nblocks (bit_block g.bmblock clno) _ _ can.coherent can.room can.free
        λ b w got.
          let r = free_bit-SetsBit g.bmblock clno can.coherent can.bytes got in (refl, r.0, r.1))
