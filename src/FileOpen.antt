-- ===== src/FileOpen.antt =====
-- Tools/linux/vol180/fileio.c: opening, closing and deleting files in a directory whose FCB is given.
-- The names are those that `parse_name` has split. A local array starts with what an argument says.
pub mod Clusters
pub mod Closing
use rsx.Base.{
  Block, Bool, List, Option, false, get_int16, get_int24, has_bit, if◌then◌else◌, ltb, none, not,
  set_int16, set_int24, some, suc, true, zero, ℕ, ◌%◌, ◌&&◌, ◌*◌, ◌+◌, ◌/◌, ◌==◌, ◌^◌, ◌||◌,
}
use rsx.Bitmap.{Volume, free_cluster, free_inode}
use rsx.Buffer.{Cache, bytes_of, release_block, with_block}
use rsx.Dates.{Tm, set_cdate, set_mdate}
use rsx.Directory.{match}
use rsx.FileIo.{Fcb, Header, Run, file_pos, file_read, file_seek, null_read, ok, out_of_fuel}
use rsx.FileWrite.{file_write, run_then}
use rsx.IndexFile.{read_inode, write_inode}

-- `header->... = inode[...]`: the fields of a header from an entry of the index file.
abbrev pub header_from : ℕ → Block → Header
header_from ino entry = record {
  inode = ino;
  attrib = entry 2;
  nalloc = get_int24 entry 8;
  nused = get_int24 entry 11;
  lbcount = get_int16 entry 14;
  bmap = λ k. get_int24 entry (32 + k * 3);
}

-- A new FCB on the header that another FCB of the file has already, or on one of its own.
abbrev pub fcb_from : (ℕ → Option Header) → ℕ → Block → Fcb
fcb_from shared ino entry = record {
  header = elim (shared ino) [ some h ↦ h | none ↦ header_from ino entry ];
  curalloc = 0;
  curblk = 0;
  byteptr = 0;
}

-- The reads of a directory, with its position before: the entry that matches, or `none` at the end.
pub find_first :
    Volume → ℕ → (fname ext : List ℕ) → ℕ → Block → Fcb → Cache → Run (Option (ℕ × Block))
find_first g zero fname ext vers dirent f v = out_of_fuel
find_first g (suc fuel) fname ext vers dirent f v = run_then (file_read g f dirent 16 v) λ r f' w.
    elim (r.0 == 16) [
      | false ↦ ok none f' w
      | true ↦ elim (not (get_int16 r.1 0 == 0) && match r.1 fname ext vers) [
        | true ↦ ok (some (file_pos f, r.1)) f' w
        | false ↦ find_first g fuel fname ext vers r.1 f' w
      ]
    ]

-- The reads of `open_file`: the entry with the highest version that matches; `dvers` is a `short`.
pub find_highest :
    Volume
    → ℕ
    → (fname ext : List ℕ) → (vers hivers : ℕ) → Option Block
    → Block
    → Fcb
    → Cache
    → Run (Option Block)
find_highest g zero fname ext vers hivers best temp f v = out_of_fuel
find_highest g (suc fuel) fname ext vers hivers best temp f v =
    run_then (file_read g f temp 16 v) λ r f' w. elim (r.0 == 16) [
      | false ↦ ok best f' w
      | true ↦
          let dvers = get_int16 r.1 14 in
          let newer = ltb dvers 32768 && ltb hivers dvers in
          let explicit = ltb 0 vers && ltb vers 32768 in
          elim (not (get_int16 r.1 0 == 0) && match r.1 fname ext vers && (explicit || newer)) [
            | true ↦ find_highest g fuel fname ext vers dvers (some r.1) r.1 f' w
            | false ↦ find_highest g fuel fname ext vers hivers best r.1 f' w
          ]
    ]

-- The reads of a directory: one more than it has entries.
abbrev pub dir_reads : Fcb → ℕ
dir_reads f = f.header.nused * 32 + 1

-- The FCB of the file that a directory entry names, if its entry in the index file is in use.
pub open_entry : Volume → (ℕ → Option Header) → Block → Block → Fcb → Cache → Run (Option Fcb)
open_entry g shared dirent inode f v =
    let ino = get_int16 dirent 0 in
    let (done, entry, w) = read_inode g ino inode v in
    ok (if done && not (get_int16 entry 0 == 0) then some (fcb_from shared ino entry) else none) f w

-- `open_md_file`, on the FCB of the master directory.
pub open_md_file :
    Volume
    → (ℕ → Option Header)
    → (fname ext : List ℕ) → ℕ
    → (dirent inode : Block) → Fcb
    → Cache
    → Run (Option Fcb)
unfolding find_first open_entry
open_md_file g shared fname ext vers dirent inode mdfcb v =
    run_then (file_seek g mdfcb 0 v) λ r f1 v1.
      run_then (find_first g (dir_reads f1) fname ext vers dirent f1 v1)
        λ s f2 v2. elim s [ none ↦ ok none f2 v2 | some at ↦ open_entry g shared at.1 inode f2 v2 ]

-- `open_file`, on the FCB of the directory of the file.
pub open_file :
    Volume
    → (ℕ → Option Header)
    → (fname ext : List ℕ) → ℕ
    → (temp inode : Block) → Fcb
    → Cache
    → Run (Option Fcb)
unfolding find_highest open_entry
open_file g shared fname ext vers temp inode dirfcb v = run_then (file_seek g dirfcb 0 v) λ r f1 v1.
    run_then (find_highest g (dir_reads f1) fname ext vers 0 none temp f1 v1) λ s f2 v2. elim s [
      | none ↦ ok none f2 v2
      | some dirent ↦
          if get_int16 dirent 0 == 0 then ok none f2 v2 else open_entry g shared dirent inode f2 v2
    ]

-- The stores of `close_file` into the entry.
abbrev pub put_map : (ℕ → ℕ) → Block → Block
put_map bmap e =
    let e1 = set_int24 (set_int24 (set_int24 e 32 (bmap 0)) 35 (bmap 1)) 38 (bmap 2) in
    set_int24 (set_int24 (set_int24 e1 41 (bmap 3)) 44 (bmap 4)) 47 (bmap 5)

abbrev pub closed_entry : Header → Tm → Block → Block
closed_entry h now e =
    let e1 = set_int16 (set_int24 (set_int24 e 8 h.nalloc) 11 h.nused) 14 h.lbcount in
    set_mdate (put_map h.bmap e1) now

-- Read an entry that is in use, change it and write it: the end of `close_file` and of
-- `set_file_dates`. What `write_inode` returns is not looked at.
pub change_entry : Volume → ℕ → Block → (Block → Block) → Cache → Bool × Cache
change_entry g ino inode change v =
    if ino == 0
    then (false, v)
    else (let (done, entry, w) = read_inode g ino inode v in
        let (written, u) = write_inode g ino (change entry) w in
        if done && not (get_int16 entry 0 == 0) then (true, u) else (false, w))

-- `close_file`
pub close_file : Volume → Fcb → Tm → Block → Cache → Bool × Cache
unfolding change_entry
close_file g f now inode v = change_entry g f.header.inode inode (closed_entry f.header now) v

-- `set_file_dates`
pub set_file_dates : Volume → Fcb → (created modified : Tm) → Block → Cache → Bool × Cache
unfolding change_entry
set_file_dates g f created modified inode v =
    change_entry g f.header.inode inode (λ e. set_mdate (set_cdate e created) modified) v

-- `while (nclusters > 0) { free_cluster(clno++); --nclusters; }`
pub free_run : Volume → ℕ → ℕ → Cache → Cache
free_run g zero clno v = v
free_run g (suc n) clno v = free_run g n (clno + 1) (free_cluster g clno v).1

-- `if (blkno > 0) free_cluster(blkno >> clfactor);` for n pointers of three bytes from `at` on.
pub free_pointers : Volume → ℕ → (Cache → Block) → ℕ → Cache → Cache
free_pointers g zero p at v = v
free_pointers g (suc n) p at v =
    let blkno = get_int24 (p v) at in
    free_pointers g n p (at + 3)
      (if blkno == 0 then v else (free_cluster g (blkno / 2 ^ g.clfactor) v).1)

-- The `while` loop over the blocks of the map, on fuel. The block number of the buffer is read after
-- its release.
pub free_map : Volume → ℕ → ℕ → Fcb → Cache → Run Bool
unfolding free_pointers
free_map g zero blkno f v = out_of_fuel
free_map g (suc fuel) blkno f v = elim (blkno == 0) [
  | true ↦ ok true f v
  | false ↦
      with_block g.nblocks blkno v (λ w. null_read)
        λ buf w.
          let w1 = free_pointers g 168 (bytes_of buf) 6 w in
          let next = get_int24 (bytes_of buf w1) 3 in
          let w2 = release_block buf w1 in
          free_map g fuel next f (free_cluster g ((w2.buffer buf).blkno / 2 ^ g.clfactor) w2).1
]

-- The clusters that `delete_file` frees, by the file's entry; a chain has at most `nblocks` blocks.
pub free_clusters : Volume → Block → Fcb → Cache → Run Bool
unfolding free_run free_pointers free_map
free_clusters g entry f v =
    if has_bit (entry 2) 0x08
    then (let nblks = get_int24 entry 8 in
        let low = nblks / 2 ^ g.clfactor in
        ok true f (
          free_run g (if nblks % 2 ^ g.clfactor == 0 then low else low + 1)
            (get_int24 entry 32 / 2 ^ g.clfactor) v))
    else free_map g (g.nblocks + 1) (get_int24 entry 47) f (free_pointers g 5 (λ w. entry) 32 v)

-- `delete_file`, on the FCB of the directory of the file.
pub delete_file :
    Volume → (fname ext : List ℕ) → ℕ → (dirent inode : Block) → Fcb → Cache → Run Bool
unfolding find_first free_clusters
delete_file g fname ext vers dirent inode dirfcb v = run_then (file_seek g dirfcb 0 v) λ r f1 v1.
    run_then (find_first g (dir_reads f1) fname ext vers dirent f1 v1) λ s f2 v2. elim s [
      | none ↦ ok false f2 v2
      | some at ↦
          let ino = get_int16 at.1 0 in
          let (done, entry, v3) = read_inode g ino inode v2 in
          if done && not (get_int16 entry 0 == 0)
          then run_then (free_clusters g entry f2 v3) (λ t f4 v4.
            run_then (file_seek g f4 at.0 v4) λ p f5 v5.
              run_then (file_write g f5 (set_int16 at.1 0 0) 16 v5) λ n f6 v6.
                let v7 = (write_inode g ino (set_int16 entry 0 0) v6).1 in
                ok true f6 (free_inode g ino v7).1)
          else ok false f2 v3
    ]
