-- ===== src/MakeDisk.antt =====
-- Tools/linux/vol180/mkdisk.c: the creation of a volume, block by block. The file can be opened, and
-- writes to it succeed.
pub mod Label
use rsx.Base.{
  Block, List, Option, [], bit_or, copy, if◌then◌else◌, leb, ltb, none, set_int16, set_int24, some,
  suc, update, zero, zeros, ℕ, ◌%◌, ◌*◌, ◌+◌, ◌-◌, ◌/◌, ◌==◌, ◌^◌, ◌||◌, ◌∷◌,
}
use rsx.Bitmap.{Volume, bmhdrsz}
use rsx.Dates.{Tm, set_cdate, set_date, set_mdate, set_name}
use rsx.Directory.{set_dir_entry}
use rsx.IndexFile.{set_inode}

-- The file: its blocks, how many there are, and the blocks still to come.
pub record Output : Type 0 where
  pub image : ℕ → Block
  pub written : ℕ
  pub blkcnt : ℕ

-- `fwrite(block, 1, 512, f); --blkcnt;` on an `unsigned long` of 64 bits.
unfoldable pub fwrite : Block → Output → Output
fwrite block w = record {
  image = update w.image w.written block;
  written = w.written + 1;
  blkcnt = (w.blkcnt + (2 ^ 64 - 1)) % 2 ^ 64;
}

-- The loops that write one block n times.
unfoldable pub fwrite_times : ℕ → Block → Output → Output
unfolding fwrite
fwrite_times zero block w = w
fwrite_times (suc n) block w = fwrite_times n block (fwrite block w)

-- The numbers that describe the new volume.
pub record DiskLayout : Type 0 where
  pub clfactor : ℕ
  pub nblocks : ℕ
  pub ixblocks : ℕ
  pub bmblocks : ℕ
  pub ixbmblocks : ℕ
  pub ixbmsize : ℕ
  pub ixstblk : ℕ
  pub bmstblk : ℕ
  pub mdstblk : ℕ

abbrev pub cluster_factor : ℕ → ℕ
cluster_factor nblocks =
    if leb nblocks 131072
    then 0
    else if leb nblocks 524288
    then 1
    else if leb nblocks 2097152
    then 2
    else 3

-- `CLUSTER_ROUND`
abbrev pub cluster_round : ℕ → ℕ → ℕ
cluster_round clsize blk = (blk + clsize - 1) / clsize * clsize

unfoldable pub layout : ℕ → ℕ → DiskLayout
layout nblocks nfiles =
    let clsize = 2 ^ cluster_factor nblocks in
    let nclusters = nblocks / clsize in
    let ixblocks = (nfiles + 7) / 8 in
    let bmblocks = ((nclusters + 7) / 8 + bmhdrsz + 511) / 512 in
    let ixbmsize = (nfiles + 7) / 8 + bmhdrsz in
    let ixbmblocks = (ixbmsize + 511) / 512 in
    let ixstblk = cluster_round clsize 2 in
    let bmstblk = cluster_round clsize (ixstblk + ixblocks) in
    record {
      clfactor = cluster_factor nblocks;
      nblocks = nclusters * clsize;
      ixblocks = ixblocks;
      bmblocks = bmblocks;
      ixbmblocks = ixbmblocks;
      ixbmsize = ixbmsize;
      ixstblk = ixstblk;
      bmstblk = bmstblk;
      mdstblk = cluster_round clsize (bmstblk + bmblocks + ixbmblocks);
    }

-- `strcpy` and `memcpy` of a text.
unfoldable pub put_text : Block → ℕ → List ℕ → Block
put_text block at [] = block
put_text block at (c ∷ cs) = put_text (update block at c) (at + 1) cs

-- "VOL180", and "RSX180 DISK" with its NUL.
abbrev pub volume_type : List ℕ
volume_type = 86 ∷ 79 ∷ 76 ∷ 49 ∷ 56 ∷ 48 ∷ []

abbrev pub volume_label : List ℕ
volume_label = 82 ∷ 83 ∷ 88 ∷ 49 ∷ 56 ∷ 48 ∷ 32 ∷ 68 ∷ 73 ∷ 83 ∷ 75 ∷ 0 ∷ []

-- Block 1, the volume id.
unfoldable pub volume_id : DiskLayout → Tm → Block
unfolding put_text set_date
volume_id l now =
    let b1 = update (update (put_text zeros 0 volume_type) 8 0) 9 5 in
    let b2 = set_int16 (set_int24 (put_text b1 16 volume_label) 32 l.nblocks) 36 0xFFF8 in
    let b3 = update (set_date b2 40 now) 48 l.clfactor in
    set_int24 (set_int24 (set_int24 b3 64 l.ixstblk) 68 l.bmstblk) 72 0

-- The bytes of a block from `at` on as an array of their own, changed in place.
abbrev pub within : ℕ → ℕ → (Block → Block) → Block → Block
within at len change block = copy block at (change (λ o. block (at + o))) 0 len

-- A system file in the index file; set_inode takes the cluster factor of the volume that is mounted.
unfoldable pub system_file :
    Volume → Tm → (attrib nalloc lbcount perm first : ℕ) → (fname ext : List ℕ) → Block → Block
unfolding set_cdate set_mdate set_name
system_file g now attrib nalloc lbcount perm first fname ext e =
    let e1 = set_inode g e 1 attrib 1 1 nalloc nalloc lbcount perm in
    set_name (set_int24 (set_mdate (set_cdate e1 now) now) 32 first) fname ext 1

abbrev pub indexf : List ℕ
indexf = 73 ∷ 78 ∷ 68 ∷ 69 ∷ 88 ∷ 70 ∷ []

abbrev pub bitmap : List ℕ
bitmap = 66 ∷ 73 ∷ 84 ∷ 77 ∷ 65 ∷ 80 ∷ []

abbrev pub badblk : List ℕ
badblk = 66 ∷ 65 ∷ 68 ∷ 66 ∷ 76 ∷ 75 ∷ []

abbrev pub boot : List ℕ
boot = 66 ∷ 79 ∷ 79 ∷ 84 ∷ []

abbrev pub master : List ℕ
master = 77 ∷ 65 ∷ 83 ∷ 84 ∷ 69 ∷ 82 ∷ []

abbrev pub corimg : List ℕ
corimg = 67 ∷ 79 ∷ 82 ∷ 73 ∷ 77 ∷ 71 ∷ []

abbrev pub system : List ℕ
system = 83 ∷ 89 ∷ 83 ∷ 84 ∷ 69 ∷ 77 ∷ []

abbrev pub sys : List ℕ
sys = 83 ∷ 89 ∷ 83 ∷ []

abbrev pub dir : List ℕ
dir = 68 ∷ 73 ∷ 82 ∷ []

-- The first block of the index file: its first seven entries. The ones without blocks have no
-- pointers, which are zero already.
unfoldable pub first_inodes : Volume → DiskLayout → Tm → Block
unfolding system_file
first_inodes g l now =
    let b1 = within 0 64 (system_file g now 9 l.ixblocks 512 0xCCC8 l.ixstblk indexf sys) zeros in
    let bms = l.bmblocks + l.ixbmblocks in
    let b2 =
      within 64 64 (system_file g now 9 bms (l.ixbmsize % 512) 0xCCC8 l.bmstblk bitmap sys) b1 in
    let b3 = within 128 64 (system_file g now 1 0 0 0xCCC8 0 badblk sys) b2 in
    let b4 = within 192 64 (system_file g now 9 2 512 0xCCC8 0 boot sys) b3 in
    let b5 = within 256 64 (system_file g now 0x80 2 512 0xCCC8 l.mdstblk master dir) b4 in
    let b6 = if l.clfactor == 0 then set_int24 b5 (256 + 35) (l.mdstblk + 1) else b5 in
    let b7 = within 320 64 (system_file g now 9 0 0 0xDDD8 0 corimg sys) b6 in
    within 384 64 (system_file g now 9 0 0 0xDDD8 0 system sys) b7

-- The loop that sets the first bits of a bitmap block from byte j on, with the bits left: `bmask` is
-- the byte in progress. It is stored behind the last whole byte, at 512 when the block is full.
unfoldable pub set_bits : ℕ → (j mask bmask : ℕ) → Block → ℕ × Block
set_bits zero j mask bmask block = (0, update block j bmask)
set_bits (suc n) j mask bmask block =
    let bmask' = bit_or bmask mask in
    let full = mask / 2 == 0 in
    let (left, block') =
      set_bits n (if full then j + 1 else j) (if full then 0x80 else mask / 2)
        (if full then 0 else bmask') (if full then update block j bmask' else block) in
    if leb 512 j then (suc n, update block j bmask) else (left, block')

-- One block of a bitmap.
unfoldable pub bitmap_block : ℕ → ℕ → Block → ℕ × Block
unfolding set_bits
bitmap_block n j block = if ltb 0 n then set_bits n j 0x80 0 block else (n, block)

-- The blocks of a bitmap behind the first.
unfoldable pub bitmap_rest : ℕ → ℕ → Output → Output
unfolding bitmap_block
bitmap_rest zero n w = w
bitmap_rest (suc m) n w = let (left, b) = bitmap_block n 0 zeros in bitmap_rest m left (fwrite b w)

unfoldable pub write_bitmap : ℕ → ℕ → Block → Output → Output
unfolding bitmap_rest
write_bitmap zero n header w = w
write_bitmap (suc m) n header w =
    let (left, b) = bitmap_block n 16 header in bitmap_rest m left (fwrite b w)

abbrev pub bitmap_header : DiskLayout → Block
bitmap_header l = update (set_int24 (set_int24 zeros 0 l.nblocks) 8 l.bmblocks) 4 l.clfactor

-- The clusters that the system files take: blocks 0 to mdstblk + 1, rounded up.
abbrev pub system_clusters : DiskLayout → ℕ
system_clusters l =
    let n = l.mdstblk + 1 + 1 in
    if n % 2 ^ l.clfactor == 0 then n / 2 ^ l.clfactor else n / 2 ^ l.clfactor + 1

unfoldable pub master_directory : Block
master_directory =
    let b1 = within 0 16 (λ e. set_dir_entry e 1 indexf sys 1) zeros in
    let b2 = within 16 16 (λ e. set_dir_entry e 2 bitmap sys 1) b1 in
    let b3 = within 32 16 (λ e. set_dir_entry e 3 badblk sys 1) b2 in
    let b4 = within 48 16 (λ e. set_dir_entry e 4 boot sys 1) b3 in
    let b5 = within 64 16 (λ e. set_dir_entry e 5 master dir 1) b4 in
    let b6 = within 80 16 (λ e. set_dir_entry e 6 corimg sys 1) b5 in
    within 96 16 (λ e. set_dir_entry e 7 system sys 1) b6

-- The system area: everything up to the master directory.
unfoldable pub write_system : Volume → DiskLayout → ℕ → Tm → Output → Output
unfolding fwrite_times volume_id first_inodes write_bitmap bitmap_block master_directory
write_system g l nfiles now w =
    let w1 = fwrite (volume_id l now) (fwrite zeros w) in
    let w2 = fwrite (first_inodes g l now) (fwrite_times (l.ixstblk - 2) zeros w1) in
    let w3 = fwrite_times (l.ixblocks - 1) zeros w2 in
    let w4 = fwrite_times (l.bmstblk - (l.ixstblk + l.ixblocks)) zeros w3 in
    let w5 = write_bitmap l.bmblocks (system_clusters l) (bitmap_header l) w4 in
    let w6 = write_bitmap l.ixbmblocks 7 (set_int24 zeros 0 nfiles) w5 in
    let first = (bitmap_block 7 16 (set_int24 zeros 0 nfiles)).1 in
    let last = if l.ixbmblocks == 1 then first else zeros in
    let w7 = fwrite_times (l.mdstblk - (l.bmstblk + l.bmblocks + l.ixbmblocks)) last w6 in
    fwrite zeros (fwrite master_directory w7)

-- `create_disk`; `none` is the return of 1. The rest of the disk is filled with 0xE5.
unfoldable pub create_disk : Volume → ℕ → ℕ → Tm → Option Output
unfolding layout write_system
create_disk g nblocks nfiles now =
    if ltb nblocks 128 || ltb 4194304 nblocks
    then none
    else if ltb nfiles 32 || ltb 65536 nfiles || ltb (nblocks / 2) nfiles
    then none
    else (let l = layout nblocks nfiles in
        let w =
          write_system g l nfiles now
            (record { image = λ b. zeros; written = 0; blkcnt = l.nblocks }) in
        some (fwrite_times w.blkcnt (λ o. 0xE5) w))
