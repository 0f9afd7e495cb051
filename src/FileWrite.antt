-- ===== src/FileWrite.antt =====
-- Tools/linux/vol180/fileio.c: how a file grows, writing, and what closing stores in its entry of the
-- index file. As in FileIo, a buffer that is NULL is read at once; the pointer to the FCB is not NULL.
use rsx.Base.{
  Block, Bool, Option, copy, false, get_int24, if◌then◌else◌, leb, ltb, none, set_int24, some, suc,
  true, update, zero, ℕ, ◌%◌, ◌&&◌, ◌+◌, ◌-◌, ◌/◌, ◌==◌, ◌^◌,
}
use rsx.Bitmap.{Volume, alloc_cluster}
use rsx.Buffer.{Cache, bytes_of, release_block, with_block, with_new_block, write_bytes}
use rsx.FileIo.{
  Fcb, Header, Run, file_vbn_to_lbn, is_contiguous, map_entries, next_map, null_read, ok,
  out_of_fuel,
}

-- Go on after a call that can end the run.
abbrev pub run_then : {A B : Type 0} → Run A → (A → Fcb → Cache → Run B) → Run B
run_then (ok a f v) go = go a f v
run_then null_read go = null_read
run_then out_of_fuel go = out_of_fuel

-- `fcb->header->nalloc += (1 << clfactor);`
abbrev pub grow : Volume → Header → Header
grow g h = record h { nalloc = h.nalloc + 2 ^ g.clfactor }

-- `fcb->header->nused = vbn + 1; return 0;`
abbrev pub used_up_to : ℕ → Fcb → Cache → Run Bool
used_up_to vbn f v = ok true (record f { header = record f.header { nused = vbn + 1 } }) v

-- One of the five direct clusters is allocated if it is not there; false if the disk is full.
pub direct_cluster : Volume → ℕ → Fcb → Cache → Run Bool
direct_cluster g i f v =
    if f.header.bmap i == 0
    then (let (lbn, w) = alloc_cluster g v in
        if lbn == 0
        then ok false f w
        else ok true
            (record f { header = record (grow g f.header) { bmap = update f.header.bmap i lbn } })
            w)
    else ok true f v

-- The `for` loop over the direct clusters from i on; it ends in the round in which vcn is zero.
pub extend_direct : Volume → ℕ → (i vcn vbn : ℕ) → Fcb → Cache → Run Bool
unfolding direct_cluster
extend_direct g zero i vcn vbn f v = out_of_fuel
extend_direct g (suc n) i vcn vbn f v = run_then (direct_cluster g i f v) λ done f' w. elim done [
  | false ↦ ok false f' w
  | true ↦ elim vcn [ zero ↦ used_up_to vbn f' w | suc k ↦ extend_direct g n (suc i) k vbn f' w ]
]

-- `buf = new_block(lbn); SET_INT24(buf->data, 0, prev); buf->modified = 1; fcb->curalloc = lbn;`
pub open_map : Volume → (lbn prev : ℕ) → Fcb → Cache → Run (Option ℕ)
open_map g lbn prev f v =
    with_new_block g.nblocks lbn v (λ w. null_read)
      λ buf w.
        ok (some buf) (record f { curalloc = lbn })
          (write_bytes buf (set_int24 (bytes_of buf w) 0 prev) w)

-- The first block of the map; `none` if the disk is full.
pub first_map : Volume → Fcb → Cache → Run (Option ℕ)
unfolding open_map
first_map g f v =
    let (lbn, w) = alloc_cluster g v in
    if lbn == 0
    then ok none f w
    else open_map g lbn 0
        (record f { header = record f.header { bmap = update f.header.bmap 5 lbn } }) w

-- A further block of the map behind block prev in `buf`: the next one of its cluster, or the first of
-- a new cluster.
pub append_map : Volume → (buf prev : ℕ) → Fcb → Cache → Run (Option ℕ)
unfolding open_map
append_map g buf prev f v =
    let alloc = alloc_cluster g v in
    let (lbn, w) = if prev % 2 ^ g.clfactor == 2 ^ g.clfactor - 1 then alloc else (prev + 1, v) in
    if lbn == 0
    then ok none f (release_block buf w)
    else open_map g lbn prev f
        (release_block buf (write_bytes buf (set_int24 (bytes_of buf w) 3 lbn) w))

-- The `while` loop that follows the map; at the end of the chain a block is added, and vcn stays.
pub extend_walk : Volume → ℕ → (vcn buf : ℕ) → Fcb → Cache → Run (Option (ℕ × ℕ))
unfolding append_map
extend_walk g zero vcn buf f v = out_of_fuel
extend_walk g (suc fuel) vcn buf f v = elim (leb map_entries vcn) [
  | false ↦ ok (some (buf, vcn)) f v
  | true ↦
      let next = next_map (bytes_of buf v) in
      let f' = record f { curalloc = next } in
      elim (next == 0) [
        | true ↦
            run_then (append_map g buf f.curalloc f' v)
              λ r f1 w. elim r [ none ↦ ok none f1 w | some buf' ↦ ok (some (buf', vcn)) f1 w ]
        | false ↦
            with_block g.nblocks next (release_block buf v) (λ w. null_read)
              λ buf' w. extend_walk g fuel (vcn - map_entries) buf' f' w
      ]
]

-- One entry of the map is allocated if it is not there; if the disk is full, `buf` is released.
pub map_cluster : Volume → (blkptr buf : ℕ) → Fcb → Cache → Run Bool
map_cluster g blkptr buf f v =
    if get_int24 (bytes_of buf v) blkptr == 0
    then (let (lbn, w) = alloc_cluster g v in
        if lbn == 0
        then ok false f (release_block buf w)
        else ok true (record f { header = grow g f.header })
            (write_bytes buf (set_int24 (bytes_of buf w) blkptr lbn) w))
    else ok true f v

-- After the last entry of a block: the next block of the map, which is added if there is none.
pub next_map_block : Volume → ℕ → Fcb → Cache → Run (Option ℕ)
unfolding append_map
next_map_block g buf f v =
    let next = next_map (bytes_of buf v) in
    let f' = record f { curalloc = next } in
    if next == 0
    then append_map g buf f.curalloc f' v
    else with_block g.nblocks next (release_block buf v) (λ w. null_read)
        λ buf' w. ok (some buf') f' w

-- `blkptr += 3; if (blkptr >= 510) { ... }`
pub next_entry : Volume → (blkptr buf : ℕ) → Fcb → Cache → Run (Option (ℕ × ℕ))
unfolding next_map_block
next_entry g blkptr buf f v =
    if leb 510 (blkptr + 3)
    then run_then (next_map_block g buf f v)
        (λ r f' w. elim r [ none ↦ ok none f' w | some buf' ↦ ok (some (6, buf')) f' w ])
    else ok (some (blkptr + 3, buf)) f v

-- The body of the `for` loop over the entries of the map.
pub map_step : Volume → (blkptr buf : ℕ) → Fcb → Cache → Run (Option (ℕ × ℕ))
unfolding map_cluster next_entry
map_step g blkptr buf f v =
    run_then (map_cluster g blkptr buf f v)
      λ done f1 w1. elim done [ false ↦ ok none f1 w1 | true ↦ next_entry g blkptr buf f1 w1 ]

-- The loop; it ends in the round in which vcn is zero.
pub extend_map : Volume → (vcn vbn blkptr buf : ℕ) → Fcb → Cache → Run Bool
unfolding map_step
extend_map g zero vbn blkptr buf f v = run_then (map_step g blkptr buf f v) λ r f1 w. elim r [
  | none ↦ ok false f1 w
  | some next ↦ used_up_to vbn f1 (release_block next.1 w)
]
extend_map g (suc k) vbn blkptr buf f v =
    run_then (map_step g blkptr buf f v)
      λ r f1 w. elim r [ none ↦ ok false f1 w | some next ↦ extend_map g k vbn next.0 next.1 f1 w ]

-- The part of `file_extend` behind the direct clusters.
pub extend_indirect : Volume → (vcn vbn : ℕ) → Fcb → Cache → Run Bool
unfolding first_map extend_walk extend_map
extend_indirect g vcn vbn f v =
    let first = f.header.bmap 5 in
    let f' = record f { curalloc = first } in
    if first == 0
    then run_then (first_map g f' v)
        (λ r f1 w. elim r [ none ↦ ok false f1 w | some buf ↦ extend_map g vcn vbn 6 buf f1 w ])
    else with_block g.nblocks first v (λ w. null_read)
        λ buf w.
          run_then (extend_walk g (vcn + 1) vcn buf f' w) λ r f1 w1. elim r [
            | none ↦ ok false f1 w1
            | some at ↦ extend_map g at.1 vbn 6 at.0 f1 w1
          ]

-- `file_extend`: true is the return of 0.
pub file_extend : Volume → Fcb → ℕ → Cache → Run Bool
unfolding extend_direct extend_indirect
file_extend g f vbn v =
    let f' = record f { header = record f.header { nused = vbn + 1 } } in
    let low = vbn / 2 ^ g.clfactor in
    let vcn = if vbn % 2 ^ g.clfactor == 0 then low else low + 1 in
    if ltb vbn f.header.nused
    then ok true f v
    else if is_contiguous f.header
    then ok (leb (vbn + 1) f.header.nalloc) f' v
    else if ltb vcn 5
    then extend_direct g 5 0 vcn vbn f v
    else extend_indirect g (vcn - 5) vbn f v

-- `if (vbn >= fcb->header->nused) { if (file_extend(fcb, vbn)) ...`
abbrev pub ensure_used : Volume → Fcb → ℕ → Cache → Run Bool
ensure_used g f vbn v =
    let extended = file_extend g f vbn v in if leb f.header.nused vbn then extended else ok true f v

-- The last block's byte count after a write that ends in the current block.
abbrev pub adjust_lbcount : Fcb → Header
adjust_lbcount f =
    if (f.header.nused == f.curblk + 1) && ltb f.header.lbcount f.byteptr
    then record f.header { lbcount = f.byteptr }
    else f.header

-- `fcb->curblk++; fcb->byteptr = 0; fcb->header->lbcount = 0;`
abbrev pub to_next_block : Fcb → Fcb
to_next_block f = record {
  header = record f.header { lbcount = 0 };
  curalloc = f.curalloc;
  curblk = f.curblk + 1;
  byteptr = 0;
}

-- The loop of `file_write` on fuel: `nwritten` bytes of the caller's array are written.
pub write_loop : Volume → ℕ → Block → (len nwritten buf : ℕ) → Fcb → Cache → Run ℕ
write_loop g zero src len nwritten buf f v = out_of_fuel
write_loop g (suc fuel) src len nwritten buf f v =
    let put = λ (n : ℕ). write_bytes buf (copy (bytes_of buf v) f.byteptr src nwritten n) v in
    elim (leb ((f.byteptr + len) % 2 ^ 32) 512) [
      | true ↦
          let f' = record f { byteptr = f.byteptr + len } in
          ok (nwritten + len) (record f' { header = adjust_lbcount f' })
            (release_block buf (put len))
      | false ↦
          let nbytes = (512 + (2 ^ 32 - f.byteptr)) % 2 ^ 32 in
          let total = nwritten + nbytes in
          let f1 = to_next_block f in
          let newblk = leb f1.header.nused f1.curblk in
          run_then
            (ensure_used g f1 f1.curblk
              (release_block buf (if ltb 0 nbytes then put nbytes else v)))
            λ done f2 v2. elim done [
              | false ↦ ok total f2 v2
              | true ↦ run_then (file_vbn_to_lbn g f2 f2.curblk v2) λ r f3 v3. elim r [
                | none ↦ ok total f3 v3
                | some lbn ↦
                    let go = λ (b : ℕ) (u : Cache).
                      write_loop g fuel src ((len + (2 ^ 32 - nbytes)) % 2 ^ 32) total b f3 u in
                    elim newblk [
                      | true ↦ with_new_block g.nblocks lbn v3 (λ u. null_read) go
                      | false ↦ with_block g.nblocks lbn v3 (λ u. null_read) go
                    ]
              ]
            ]
    ]

-- `file_write`: the number of bytes written. Each block that is left behind takes 512 from the
-- position and length together.
pub file_write : Volume → Fcb → Block → ℕ → Cache → Run ℕ
unfolding write_loop
file_write g f src len v = run_then (ensure_used g f f.curblk v) λ done f1 v1. elim done [
  | false ↦ ok 0 f1 v1
  | true ↦ run_then (file_vbn_to_lbn g f1 f.curblk v1) λ r f2 v2. elim r [
    | none ↦ ok 0 f2 v2
    | some lbn ↦
        with_block g.nblocks lbn v2 (λ u. null_read)
          λ buf u. write_loop g ((f.byteptr + len) / 512 + 1) src len 0 buf f2 u
  ]
]
