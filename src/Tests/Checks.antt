-- ===== src/Tests/Checks.antt =====
-- The theorems on the volume checker, at small entries and bitmaps.
use rsx.Base.{
  AreBytes, Block, arith, false, if◌then◌else◌, set_int16, set_int24, update, zeros, ℕ, ◌&&◌, ◌==◌,
}
use rsx.Bitmap.{Volume}
use rsx.Buffer.{Cache, init_bufs}
use rsx.Buffer.Flush.{init_bufs-IsCoherent}
use rsx.Check.Clusters.{Marked}
use rsx.Check.Inodes.{check_entries, check_entry}
use rsx.Check.Inodes.Entries.{EntriesChecked, check_entries-EntriesChecked}
use rsx.Check.Inodes.Sound.{Mended, check_entry-Mended}
use rsx.Check.Names.{valid_name}
use rsx.Check.Names.Repair.{NameRepaired, valid_name-NameRepaired}
use rsx.Tests.Sample.{old_buffer}

-- The entry of a contiguous file of 200 blocks, all used, at block 50.
abbrev entry : Block
entry = set_int24 (set_int24 (set_int24 (update (set_int16 zeros 0 1) 2 8) 8 200) 11 200) 32 50

entry-AreBytes : AreBytes entry
entry-AreBytes o = ground arith

-- On a volume of 128 blocks.
check_entry-Mended_example : Mended 128 entry (check_entry 128 entry).0 (check_entry 128 entry).1
check_entry-Mended_example = check_entry-Mended 128 entry entry-AreBytes

-- The name `A B:` has a blank inside and a character that is not allowed.
abbrev name : Block
name = update (update (update (update (λ o. 32) 2 65) 4 66) 5 58) 0 7

valid_name-NameRepaired_example : NameRepaired name (valid_name name)
valid_name-NameRepaired_example = valid_name-NameRepaired name

abbrev volume : Volume
volume = record { nblocks = 128; bmblock = 4; ixblock = 8; defprot = 0; clfactor = 1 }

abbrev marks : Marked
marks = record { bm = update zeros 4 0x80; errcnt = 3 }

marks-AreBytes : AreBytes marks.bm
marks-AreBytes o = ground arith

-- An index file from block 2 on: the first entry is in use and has 20 blocks, but no block number.
abbrev image : ℕ → Block
image b o = if (b == 2) && (o == 0) then 1 else if (b == 2) && (o == 8) then 20 else 0

abbrev before : Cache
before = record { disk = image; buffer = λ i. old_buffer; last_alloc = 29 }

abbrev small : Volume
small = record { nblocks = 100; bmblock = 20; ixblock = 2; clfactor = 0; defprot = 0xFFF8 }

check_entries-EntriesChecked_example :
    EntriesChecked small 32 0 0
      (init_bufs before)
      (check_entries 32 false small 0 zeros 0 (init_bufs before))
check_entries-EntriesChecked_example = check_entries-EntriesChecked 32 small 0 zeros 0 (record {
  coherent = (init_bufs-IsCoherent before (omega arith)).0;
  free = (init_bufs-IsCoherent before (omega arith)).2;
  room = λ k a b. omega arith;
  count = omega arith;
})

name-AreBytes : AreBytes name
name-AreBytes o = ground arith
