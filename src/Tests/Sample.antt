-- ===== src/Tests/Sample.antt =====
-- A volume of 100 blocks: the index file in block 2, the bitmap in block 20 with four clusters in
-- use, the bitmap of the index file behind it with 16 entries and three in use.
use rsx.Base.{AreBytes, Block, arith, if◌then◌else◌, true, zeros, ℕ, ◌==◌, ◌≡◌}
use rsx.Bitmap.{Volume}
use rsx.Buffer.{Buffer, Cache, init_bufs}
use rsx.Buffer.Flush.{init_bufs-IsCoherent}
use rsx.Buffer.Get.{HasFree}
use rsx.Buffer.View.{IsCoherent, view}

-- Block 20: the second bitmap is one block behind; block 21: the number of entries.
abbrev pub sample_image : ℕ → Block
sample_image b o =
    if b == 20
    then (if o == 8 then 1 else if o == 16 then 0xF0 else 0)
    else if b == 21
    then (if o == 0 then 16 else if o == 16 then 0xE0 else 0)
    else (if o == 5 then 77 else 0)

abbrev pub old_buffer : Buffer
old_buffer = record { blkno = 9; access_cnt = 3; modified = true; valid = true; bytes = zeros }

abbrev pub raw : Cache
raw = record { disk = sample_image; buffer = λ i. old_buffer; last_alloc = 29 }

abbrev pub sample : Cache
sample = init_bufs raw

abbrev pub volume : Volume
volume = record { nblocks = 100; bmblock = 20; ixblock = 2; clfactor = 0; defprot = 0xFFF8 }

pub sample-IsCoherent : IsCoherent sample
sample-IsCoherent = (init_bufs-IsCoherent raw (omega arith)).0

pub sample-view : (b : ℕ) → view sample b ≡ sample_image b
sample-view = (init_bufs-IsCoherent raw (omega arith)).1

pub sample-HasFree : HasFree sample
sample-HasFree = (init_bufs-IsCoherent raw (omega arith)).2

pub sample-bytes : (b : ℕ) → AreBytes (view sample b)
sample-bytes b o = rw (sample-view b) (ground arith)
