-- ===== src/MakeDisk/Label.antt =====
-- The volume id of a volume made by create_disk in mkdisk.c, as mount_disk in mount.c reads it.
use rsx.Base.{
  Block, Bool, Option, ap, arith, if◌then◌else◌, inl, inr, leb, ltb, none, refl, set_int24, some,
  suc, update_ne, word24, zero, zeros, ℕ, ◌&&◌, ◌*◌, ◌+◌, ◌-◌, ◌/◌, ◌<◌, ◌==◌, ◌^◌, ◌||◌, ◌∙◌, ◌≡◌,
  ◌≤◌, ◌⊎◌,
}
use rsx.Bitmap.{Volume}
use rsx.Dates.{Tm, set_date}
use rsx.MakeDisk.{
  DiskLayout, Output, bitmap_block, bitmap_header, bitmap_rest, cluster_factor, cluster_round,
  create_disk, first_inodes, fwrite, fwrite_times, layout, master_directory, put_text,
  system_clusters, volume_id, write_bitmap, write_system,
}
use rsx.Mount.{read_volume, starts_with}

-- Blocks below n are as before, and the file has not become shorter than n.
record Keeps (n : ℕ) (w u : Output) : Type 0 where
  same : (b : ℕ) → b < n → u.image b ≡ w.image b
  long : n ≤ u.written

fwrite-Keeps : (n : ℕ) (block : Block) (w u : Output) → Keeps n w u → Keeps n w (fwrite block u)
unfolding fwrite
fwrite-Keeps n block w u k = record {
  same = λ b h. update_ne u.image u.written b block (λ e. omega arith) ∙ k.same b h;
  long = omega arith;
}

fwrite_times-Keeps :
    (m n : ℕ) (block : Block) (w u : Output) → Keeps n w u → Keeps n w (fwrite_times m block u)
unfolding fwrite_times
fwrite_times-Keeps zero n block w u k = k
fwrite_times-Keeps (suc m) n block w u k =
    fwrite_times-Keeps m n block w (fwrite block u) (fwrite-Keeps n block w u k)

bitmap_rest-Keeps : (m n c : ℕ) (w u : Output) → Keeps n w u → Keeps n w (bitmap_rest m c u)
unfolding bitmap_rest
bitmap_rest-Keeps zero n c w u k = k
bitmap_rest-Keeps (suc m) n c w u k = bitmap_rest-Keeps m n _ w _ (fwrite-Keeps n _ w u k)

write_bitmap-Keeps :
    (m n c : ℕ) (header : Block) (w u : Output)
    → Keeps n w u
    → Keeps n w (write_bitmap m c header u)
unfolding write_bitmap
write_bitmap-Keeps zero n c header w u k = k
write_bitmap-Keeps (suc m) n c header w u k = bitmap_rest-Keeps m n _ w _ (fwrite-Keeps n _ w u k)

two_written :
    (b : Block) (w : Output) → w.written ≡ 0 → (let u = fwrite b (fwrite zeros w) in Keeps 2 u u)
unfolding fwrite
two_written b w e = record { same = λ b' h. refl; long = omega arith }

-- The block that is written second stays, if the layout has the system files behind it.
write_system-label :
    (g : Volume) (l : DiskLayout) (nfiles : ℕ) (now : Tm) (w : Output)
    → w.written ≡ 0
    → Keeps 2 (fwrite (volume_id l now) (fwrite zeros w)) (write_system g l nfiles now w)
unfolding write_system
write_system-label g l nfiles now w e =
    let first = (bitmap_block 7 16 (set_int24 zeros 0 nfiles)).1 in
    let last = if l.ixbmblocks == 1 then first else zeros in
    fwrite-Keeps 2 zeros _ _ (
      fwrite-Keeps 2 master_directory _ _ (
        fwrite_times-Keeps (l.mdstblk - (l.bmstblk + l.bmblocks + l.ixbmblocks)) 2 last _ _ (
          write_bitmap-Keeps l.ixbmblocks 2 7 (set_int24 zeros 0 nfiles) _ _ (
            write_bitmap-Keeps l.bmblocks 2 (system_clusters l) (bitmap_header l) _ _ (
              fwrite_times-Keeps (l.bmstblk - (l.ixstblk + l.ixblocks)) 2 zeros _ _ (
                fwrite_times-Keeps (l.ixblocks - 1) 2 zeros _ _ (
                  fwrite-Keeps 2 (first_inodes g l now) _ _
                    (fwrite_times-Keeps (l.ixstblk - 2) 2 zeros _ _ (two_written _ w e)))))))))

label_written : (b : Block) (w : Output) → w.written ≡ 0 → (fwrite b (fwrite zeros w)).image 1 ≡ b
unfolding fwrite
label_written b w e = ground (arith, e)

read_volume-volume_id :
    (l : DiskLayout) (now : Tm)
    → l.nblocks < 2 ^ 24
    → l.ixstblk < 2 ^ 24
    → l.bmstblk < 2 ^ 24
    → read_volume (volume_id l now)
      ≡ some (record {
        nblocks = l.nblocks;
        bmblock = l.bmstblk;
        ixblock = l.ixstblk;
        clfactor = l.clfactor;
        defprot = 0xFFF8;
      })
unfolding read_volume starts_with volume_id put_text set_date
read_volume-volume_id l now h1 h2 h3 = λ i. some (record {
  nblocks = word24 l.nblocks h1 i;
  bmblock = word24 l.bmstblk h3 i;
  ixblock = word24 l.ixstblk h2 i;
  clfactor = l.clfactor;
  defprot = 0xFFF8;
})

IsClusterSize : ℕ → Type 0
IsClusterSize d = (d ≡ 1) ⊎ ((d ≡ 2) ⊎ ((d ≡ 4) ⊎ (d ≡ 8)))

cluster_factor-IsClusterSize : (n : ℕ) → IsClusterSize (2 ^ cluster_factor n)
unfolding IsClusterSize
cluster_factor-IsClusterSize n = ground arith

round-le : (d x : ℕ) → IsClusterSize d → cluster_round d x ≤ x + 7
unfolding IsClusterSize
round-le d x (inl e) = rw (e) (omega arith)
round-le d x (inr (inl e)) = rw (e) (omega arith)
round-le d x (inr (inr (inl e))) = rw (e) (omega arith)
round-le d x (inr (inr (inr e))) = rw (e) (omega arith)

round_down-le : (d x : ℕ) → IsClusterSize d → x / d * d ≤ x
unfolding IsClusterSize
round_down-le d x (inl e) = rw (e) (omega arith)
round_down-le d x (inr (inl e)) = rw (e) (omega arith)
round_down-le d x (inr (inr (inl e))) = rw (e) (omega arith)
round_down-le d x (inr (inr (inr e))) = rw (e) (omega arith)

-- The numbers of the layout fit into three bytes.
layout-lt :
    (nblocks nfiles : ℕ)
    → nblocks ≤ 4194304
    → nfiles ≤ nblocks / 2
    → (let l = layout nblocks nfiles in
        (l.nblocks < 2 ^ 24) × (l.ixstblk < 2 ^ 24) × (l.bmstblk < 2 ^ 24))
unfolding layout
layout-lt nblocks nfiles h1 h2 =
    let c = cluster_factor-IsClusterSize nblocks in
    let d = 2 ^ cluster_factor nblocks in
    let down = round_down-le d nblocks c in
    let first = round-le d 2 c in
    let second = round-le d (cluster_round d 2 + (nfiles + 7) / 8) c in
    (omega arith, omega arith, omega arith)

-- What a mount of the created volume sets.
abbrev pub mounted : Option Output → Option Volume
mounted none = none
mounted (some w) = read_volume (w.image 1)

abbrev pub accepted : ℕ → ℕ → Bool
accepted nblocks nfiles =
    leb 128 nblocks
    && leb nblocks 4194304
    && leb 32 nfiles
    && leb nfiles 65536
    && leb nfiles (nblocks / 2)

abbrev pub volume_of : DiskLayout → Volume
volume_of l = record {
  nblocks = l.nblocks;
  bmblock = l.bmstblk;
  ixblock = l.ixstblk;
  clfactor = l.clfactor;
  defprot = 0xFFF8;
}

empty_file : ℕ → Output
empty_file n = record { image = λ b. zeros; written = 0; blkcnt = n }

made : Volume → ℕ → ℕ → Tm → Output
made g nblocks nfiles now =
    let l = layout nblocks nfiles in write_system g l nfiles now (empty_file l.nblocks)

made-label :
    (g : Volume) (nblocks nfiles : ℕ) (now : Tm) (m : ℕ) (block : Block)
    → nblocks ≤ 4194304
    → nfiles ≤ nblocks / 2
    → read_volume ((fwrite_times m block (made g nblocks nfiles now)).image 1)
      ≡ some (volume_of (layout nblocks nfiles))
unfolding made empty_file
made-label g nblocks nfiles now m block h1 h2 =
    let l = layout nblocks nfiles in
    let w = empty_file l.nblocks in
    let id = volume_id l now in
    let k =
      fwrite_times-Keeps m 2 block (fwrite id (fwrite zeros w)) (made g nblocks nfiles now)
        (write_system-label g l nfiles now w refl) in
    let b = layout-lt nblocks nfiles h1 h2 in
    ap read_volume (k.same 1 (omega arith) ∙ label_written id w refl)
    ∙ read_volume-volume_id l now b.0 b.1 b.2

guarded :
    (a b : ℕ) (x : Option Output) (y : Option Volume)
    → (a ≤ 4194304 → b ≤ a / 2 → mounted x ≡ y)
    → mounted (
        if ltb a 128 || ltb 4194304 a
        then none
        else if ltb b 32 || ltb 65536 b || ltb (a / 2) b
        then none
        else x)
      ≡ (if accepted a b then y else none)
guarded a b x y h = ground (arith, h)

-- create_disk makes a volume just if the number of blocks is from 128 to 4194304, and the number of
-- files from 32 to 65536 and at most half that of the blocks. A mount of the volume then accepts its
-- volume id, and takes from it the rounded number of blocks, the cluster factor and the first blocks
-- of the index file and of the bitmap by which the volume was laid out.
pub create_disk-mounted :
    (g : Volume) (nblocks nfiles : ℕ) (now : Tm)
    → mounted (create_disk g nblocks nfiles now)
      ≡ (if accepted nblocks nfiles then some (volume_of (layout nblocks nfiles)) else none)
unfolding create_disk made empty_file
create_disk-mounted g nblocks nfiles now =
    let w = made g nblocks nfiles now in
    guarded nblocks nfiles (some (fwrite_times w.blkcnt (λ o. 0xE5) w))
      (some (volume_of (layout nblocks nfiles)))
      (made-label g nblocks nfiles now w.blkcnt (λ o. 0xE5))
