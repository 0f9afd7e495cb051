-- ===== src/FileIo.antt =====
-- Tools/linux/vol180/fileio.c: where the blocks of an open file are, its position, and reading.
-- An FCB is passed and returned with its header; the pointer to it is not NULL.
pub mod Lookup
pub mod Position
pub mod Contents
pub mod ReadLoop
pub mod Reading
use rsx.Base.{
  Block, Bool, Option, copy, false, get_int24, has_bit, if◌then◌else◌, leb, ltb, none, some, suc,
  true, zero, ℕ, ◌%◌, ◌*◌, ◌+◌, ◌-◌, ◌/◌, ◌==◌, ◌^◌,
}
use rsx.Bitmap.{Volume}
use rsx.Buffer.{Cache, bytes_of, release_block, with_block}

-- The part of `struct FCBheader` that describes the blocks of the file.
pub record Header : Type 0 where
  pub inode : ℕ
  pub attrib : ℕ
  pub nalloc : ℕ
  pub nused : ℕ
  pub lbcount : ℕ
  pub bmap : ℕ → ℕ

pub record Fcb : Type 0 where
  pub header : Header
  pub curalloc : ℕ
  pub curblk : ℕ
  pub byteptr : ℕ

-- A run ends with a result, or in a read through a NULL buffer, or has used up its fuel.
pub data Run (A : Type 0) : Type 0 where
  null_read : Run A
  out_of_fuel : Run A
  ok : A → Fcb → Cache → Run A

-- `attrib & _FA_CTG`
abbrev pub is_contiguous : Header → Bool
is_contiguous h = has_bit h.attrib 0x08

-- The pointers in a block of the allocation map.
abbrev pub map_entries : ℕ
map_entries = 168

abbrev pub next_map : Block → ℕ
next_map p = get_int24 p 3

abbrev pub map_entry : Block → ℕ → ℕ
map_entry p k = get_int24 p (6 + k * 3)

-- The `while` loop of `file_vbn_to_lbn` and what follows it, on fuel; `none` is the return of 1.
-- At the end of the chain of map blocks the buffer is not released.
pub walk_map : Volume → ℕ → ℕ → ℕ → ℕ → Fcb → Cache → Run (Option ℕ)
walk_map g zero vcn vbn buf f v = out_of_fuel
walk_map g (suc fuel) vcn vbn buf f v =
    if leb map_entries vcn
    then (let next = next_map (bytes_of buf v) in
        let f' = record f { curalloc = next } in
        if next == 0
        then ok none f' v
        else with_block g.nblocks next (release_block buf v) (λ w. null_read)
            λ buf' w. walk_map g fuel (vcn - map_entries) vbn buf' f' w)
    else ok (some (map_entry (bytes_of buf v) vcn + vbn % 2 ^ g.clfactor)) f (release_block buf v)

-- `file_vbn_to_lbn`: the logical block of virtual block vbn.
pub file_vbn_to_lbn : Volume → Fcb → ℕ → Cache → Run (Option ℕ)
unfolding walk_map
file_vbn_to_lbn g f vbn v =
    if f.header.nused == 0
    then ok none f v
    else if leb f.header.nused vbn
    then ok none f v
    else if is_contiguous f.header
    then ok (some (f.header.bmap 0 + vbn)) (record f { curblk = vbn }) v
    else (let vcn = vbn / 2 ^ g.clfactor in
        if ltb vcn 5
        then (let f' = record f { curblk = vbn; curalloc = 0 } in
            if f.header.bmap vcn == 0
            then ok none f' v
            else ok (some (f.header.bmap vcn + vbn % 2 ^ g.clfactor)) f' v)
        else (let first = f.header.bmap 5 in
            let f' = record f { curblk = vbn; curalloc = first } in
            if first == 0
            then ok none f' v
            else with_block g.nblocks first v (λ w. null_read)
                λ buf w. walk_map g (vcn - 4) (vcn - 5) vbn buf f' w))

-- `file_seek`; the result is that of `file_vbn_to_lbn`, or `none` for an empty file.
pub file_seek : Volume → Fcb → ℕ → Cache → Run (Option ℕ)
file_seek g f pos v =
    let vbn = pos / 512 in
    let byteptr = pos % 512 in
    if f.header.nused == 0
    then ok none (record f { curblk = 0; byteptr = 0 }) v
    else if vbn == f.header.nused - 1
    then file_vbn_to_lbn g
        (record f { byteptr = if ltb f.header.lbcount byteptr then f.header.lbcount else byteptr })
        vbn v
    else if leb f.header.nused vbn
    then file_vbn_to_lbn g (record f { byteptr = f.header.lbcount }) (f.header.nused - 1) v
    else file_vbn_to_lbn g (record f { byteptr = byteptr }) vbn v

-- `file_pos`
unfoldable pub file_pos : Fcb → ℕ
file_pos f = if f.header.nused == 0 then 0 else f.curblk * 512 + f.byteptr

-- `end_of_file`
unfoldable pub end_of_file : Fcb → Bool
end_of_file f =
    if leb f.header.nused f.curblk
    then true
    else if f.curblk == f.header.nused - 1
    then leb f.header.lbcount f.byteptr
    else false

-- How many bytes of the current block belong to the file.
abbrev pub block_length : Fcb → ℕ
block_length f = if f.curblk == f.header.nused - 1 then f.header.lbcount else 512

-- The loop of `file_read` on fuel: `nread` bytes are in the caller's array and `len` are missing.
-- The sum and the differences are of `unsigned`.
pub read_loop : Volume → ℕ → (len nread buf : ℕ) → Block → Fcb → Cache → Run (ℕ × Block)
read_loop g zero len nread buf out f v = out_of_fuel
read_loop g (suc fuel) len nread buf out f v =
    let buflen = block_length f in
    if leb ((f.byteptr + len) % 2 ^ 32) buflen
    then ok (nread + len, copy out nread (bytes_of buf v) f.byteptr len)
        (record f { byteptr = f.byteptr + len }) (release_block buf v)
    else (let nbytes = (buflen + (2 ^ 32 - f.byteptr)) % 2 ^ 32 in
        let out' = copy out nread (bytes_of buf v) f.byteptr nbytes in
        if ltb buflen 512
        then ok (nread + nbytes, out') (record f { byteptr = buflen }) (release_block buf v)
        else elim (file_vbn_to_lbn g (record f { curblk = f.curblk + 1; byteptr = 0 })
            (f.curblk + 1) (release_block buf v)) [
              | ok r f' w ↦ elim r [
                | none ↦ ok (nread + nbytes, out') f' w
                | some lbn ↦
                    with_block g.nblocks lbn w (λ u. null_read)
                      λ buf' u.
                        read_loop g fuel ((len + (2 ^ 32 - nbytes)) % 2 ^ 32) (nread + nbytes) buf'
                          out' f' u
              ]
              | null_read ↦ null_read
              | out_of_fuel ↦ out_of_fuel
            ])

-- `file_read`: the number of bytes read, and the caller's array.
pub file_read : Volume → Fcb → Block → ℕ → Cache → Run (ℕ × Block)
unfolding read_loop
file_read g f out len v =
    if f.header.nused == 0
    then ok (0, out) f v
    else if end_of_file f
    then ok (0, out) f v
    else elim (file_vbn_to_lbn g f f.curblk v) [
      | ok r f' w ↦ elim r [
        | none ↦ ok (0, out) f' w
        | some lbn ↦
            with_block g.nblocks lbn w (λ u. null_read)
              λ buf u. read_loop g (f'.header.nused + 1 - f'.curblk) len 0 buf out f' u
      ]
      | null_read ↦ null_read
      | out_of_fuel ↦ out_of_fuel
    ]
