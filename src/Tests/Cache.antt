-- ===== src/Tests/Cache.antt =====
-- The theorems on the cache, the bitmaps and the index file at the sample volume.
use rsx.Base.{
  arith, bit_mask, false, has_bit, passes, passes-at, refl, true, zeros, ℕ, ◌%◌, ◌+◌, ◌/◌, ◌<◌, ◌≡◌,
  ◌≤◌,
}
use rsx.Bitmap.{Volume, alloc_cluster, alloc_inode, free_cluster, free_inode}
use rsx.Bitmap.Clusters.{
  Allocated, CanScan, alloc_cluster-Allocated, alloc_cluster-overrun, free_cluster-SetsBit,
}
use rsx.Bitmap.Inodes.{
  CanScanInodes, InodeAllocated, InodeFreed, alloc_inode-Allocated, free_inode-Freed, inode_base,
  inode_count,
}
use rsx.Bitmap.Scan.{is_used}
use rsx.Bitmap.Take.{SetsBit}
use rsx.Buffer.{flush_buffers, get_block, new_block}
use rsx.Buffer.Flush.{flush_buffers-disk}
use rsx.Buffer.Get.{Fetched, count, get_block-Fetched}
use rsx.Buffer.Moves.{SameView}
use rsx.Buffer.New.{Renewed, new_block-Renewed}
use rsx.Buffer.Session.{Settled}
use rsx.Buffer.View.{IsCoherent, view}
use rsx.IndexFile.{read_inode, write_inode}
use rsx.IndexFile.Access.{inode_at, read-write_inode}
use rsx.Tests.Sample.{
  sample, sample-HasFree, sample-IsCoherent, sample-bytes, sample-view, sample_image, volume,
}

get_block-Fetched_example : Fetched 100 20 sample (get_block 100 20 sample)
get_block-Fetched_example = get_block-Fetched 100 20 sample-IsCoherent

new_block-Renewed_example : Renewed 100 20 sample (new_block 100 20 sample)
new_block-Renewed_example = new_block-Renewed 100 20 sample-IsCoherent

flush_buffers-disk_example :
    IsCoherent (flush_buffers sample)
    × ((b : ℕ) → (flush_buffers sample).disk b ≡ view sample b)
    × SameView sample (flush_buffers sample)
    × ((i : ℕ) → count (flush_buffers sample) i ≡ count sample i)
flush_buffers-disk_example = flush_buffers-disk sample-IsCoherent

sample-CanScan : CanScan 100 20 100 sample
sample-CanScan = record {
  coherent = sample-IsCoherent;
  free = sample-HasFree;
  bytes = sample-bytes;
  room = omega arith;
}

alloc_cluster-Allocated_example : Allocated volume sample (alloc_cluster volume sample)
alloc_cluster-Allocated_example = alloc_cluster-Allocated volume sample-CanScan

free_cluster-SetsBit_example :
    ((free_cluster volume 2 sample).0 ≡ true)
    × Settled sample (free_cluster volume 2 sample).1
    × SetsBit 20 2 false sample (free_cluster volume 2 sample).1
free_cluster-SetsBit_example =
    free_cluster-SetsBit volume 2
      (record {
        coherent = sample-IsCoherent;
        free = sample-HasFree;
        bytes = sample-bytes;
        room = omega arith;
      })
      (omega arith)

-- The sample as a volume of 25 blocks in clusters of eight, whose four clusters are in use.
abbrev pairs : Volume
pairs = record { nblocks = 25; bmblock = 20; ixblock = 2; clfactor = 3; defprot = 0xFFF8 }

four_used :
    passes 4 (λ d.
      has_bit (sample_image (20 + (d / 8 + 16) / 512) ((d / 8 + 16) % 512)) (bit_mask (d % 8)))
    ≡ true
unfolding passes has_bit bit_mask
four_used = refl

pairs-used : (d : ℕ) → d < 4 → is_used sample 20 d ≡ true
pairs-used d h = rw (sample-view (20 + (d / 8 + 16) / 512)) (passes-at _ h four_used)

pairs-clear : is_used sample 20 4 ≡ false
unfolding has_bit bit_mask
pairs-clear = rw (sample-view 20) refl

alloc_cluster-overrun_example : 25 ≤ (alloc_cluster pairs sample).0
alloc_cluster-overrun_example =
    alloc_cluster-overrun pairs
      (record {
        coherent = sample-IsCoherent;
        free = sample-HasFree;
        bytes = sample-bytes;
        room = omega arith;
      })
      4 (omega arith) (omega arith) pairs-used pairs-clear

base_at : inode_base volume sample ≡ 21
base_at = rw (sample-view 20) refl

count_at : inode_count volume sample ≡ 16
count_at = rw (base_at, sample-view 21) refl

sample-CanScanInodes : CanScanInodes volume sample
sample-CanScanInodes = record {
  header = omega arith;
  scan = record {
    coherent = sample-IsCoherent;
    free = sample-HasFree;
    bytes = sample-bytes;
    room = rw (base_at, sample-view 21) (omega arith);
  };
}

alloc_inode-Allocated_example : InodeAllocated volume sample (alloc_inode volume sample)
alloc_inode-Allocated_example = alloc_inode-Allocated volume sample-CanScanInodes

free_inode-Freed_example : InodeFreed volume 3 sample (free_inode volume 3 sample)
free_inode-Freed_example = free_inode-Freed volume sample-CanScanInodes 3 (omega arith)

read-write_inode_example :
    let (wrote, w) = write_inode volume 9 (λ o. 7) sample in
    let (got, bytes, u) = read_inode volume 10 zeros w in
    (wrote ≡ true)
    × (got ≡ true)
    × (bytes 1 ≡ inode_at volume sample 10 1)
    × Settled sample u
    × SameView w u
read-write_inode_example =
    read-write_inode volume 9 10 1 (λ o. 7) zeros
      (record { coherent = sample-IsCoherent; free = sample-HasFree; room = omega arith })
      (omega arith) (omega arith) (omega arith) (omega arith) (omega arith)
