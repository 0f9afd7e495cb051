-- ===== src/Buffer.antt =====
-- Tools/linux/vol180/buffer.c over blockio.c: the cache of 30 sector buffers above the disk image.
-- The pointer to a buffer is its index in `buffer`; a function that changes the cache returns it.
pub mod Find
pub mod View
pub mod Moves
pub mod Get
pub mod New
pub mod Flush
pub mod Session
use rsx.Base.{
  Block, Bool, Option, false, if◌then◌else◌, leb, none, some, suc, true, update, zero, zeros, ℕ,
  ◌%◌, ◌&&◌, ◌+◌, ◌==◌,
}

-- `struct BUFFER`; the flags are 0 or 1.
pub record Buffer : Type 0 where
  pub blkno : ℕ
  pub access_cnt : ℕ
  pub modified : Bool
  pub valid : Bool
  pub bytes : Block

-- The image file, sector by sector, `buffer` and `last_alloc`.
pub record Cache : Type 0 where
  pub disk : ℕ → Block
  pub buffer : ℕ → Buffer
  pub last_alloc : ℕ

abbrev pub nbuffers : ℕ
nbuffers = 30

abbrev empty_buffer : Buffer
empty_buffer = record { blkno = 0; access_cnt = 0; modified = false; valid = false; bytes = zeros }

unfoldable pub init_bufs : Cache → Cache
init_bufs v = record v { buffer = λ i. empty_buffer }

abbrev pub read_block : ℕ → Cache → Block
read_block blknum v = v.disk blknum

abbrev pub write_block : ℕ → Block → Cache → Cache
write_block blknum bytes v = record v { disk = update v.disk blknum bytes }

-- One buffer is written back.
abbrev pub put_buffer : ℕ → Buffer → Cache → Cache
put_buffer i b v = record v { buffer = update v.buffer i b }

-- `--buf->access_cnt` and `++buf->access_cnt` on an `unsigned char`
unfoldable pub release_block : ℕ → Cache → Cache
release_block i v = put_buffer i (record b { access_cnt = (b.access_cnt + 255) % 256 }) v
  where
    b : Buffer
    b = v.buffer i

unfoldable pub pin : ℕ → Cache → Cache
pin i v = put_buffer i (record b { access_cnt = (b.access_cnt + 1) % 256 }) v
  where
    b : Buffer
    b = v.buffer i

unfoldable pub flush_block : ℕ → Cache → Cache
flush_block i v =
    if (v.buffer i).modified
    then put_buffer i (record (v.buffer i) { modified = false })
        (write_block (v.buffer i).blkno (v.buffer i).bytes v)
    else v

pub flush_from : ℕ → ℕ → Cache → Cache
flush_from zero i v = v
flush_from (suc n) i v = flush_from n (suc i) (flush_block i v)

unfoldable pub flush_buffers : Cache → Cache
unfolding flush_from
flush_buffers v = flush_from nbuffers 0 v

-- The first loop of `get_block`: the valid buffer that holds the block.
pub find_block : ℕ → ℕ → ℕ → Cache → Option ℕ
find_block zero i blkno v = none
find_block (suc n) i blkno v =
    let rest = find_block n (suc i) blkno v in
    if (v.buffer i).valid && ((v.buffer i).blkno == blkno) then some i else rest

-- `if (++j == NBUFFERS) j = 0;`
abbrev pub next_slot : ℕ → ℕ
next_slot j = if j + 1 == nbuffers then 0 else j + 1

-- The second loop: round the buffers from `last_alloc` on, to one that nobody holds.
pub find_free : ℕ → ℕ → Cache → Option ℕ
find_free zero j v = none
find_free (suc n) j v =
    let rest = find_free n (next_slot j) v in
    if (v.buffer (next_slot j)).access_cnt == 0 then some (next_slot j) else rest

-- The flushed buffer j is given to the block, with the bytes and the flag of the caller.
abbrev pub assign : ℕ → ℕ → Block → Bool → Cache → Cache
assign j blkno bytes modified v = record v {
  buffer = update v.buffer j (record {
    blkno = blkno;
    access_cnt = ((v.buffer j).access_cnt + 1) % 256;
    modified = modified;
    valid = true;
    bytes = bytes;
  });
  last_alloc = j;
}

pub load_block : ℕ → ℕ → Cache → Cache
load_block j blkno v = let w = flush_block j v in assign j blkno (read_block blkno w) false w

pub clear_block : ℕ → ℕ → Cache → Cache
clear_block j blkno v = assign j blkno zeros true (flush_block j v)

-- What the callers do with a buffer: read its bytes; write them and set `modified`.
abbrev pub bytes_of : ℕ → Cache → Block
bytes_of i v = (v.buffer i).bytes

unfoldable pub write_bytes : ℕ → Block → Cache → Cache
write_bytes i bytes v = put_buffer i (record (v.buffer i) { modified = true; bytes = bytes }) v

unfoldable pub get_block : ℕ → ℕ → Cache → Option ℕ × Cache
unfolding find_block find_free load_block
get_block nblocks blkno v =
    if leb nblocks blkno then (none, v) else elim (find_block nbuffers 0 blkno v) [
      | some i ↦ (some i, pin i v)
      | none ↦ elim (find_free nbuffers v.last_alloc v) [
        | some j ↦ (some j, load_block j blkno v)
        | none ↦ (none, v)
      ]
    ]

unfoldable pub new_block : ℕ → ℕ → Cache → Option ℕ × Cache
unfolding find_block find_free clear_block write_bytes
new_block nblocks blkno v =
    if leb nblocks blkno then (none, v) else elim (find_block nbuffers 0 blkno v) [
      | some i ↦ (some i, pin i (write_bytes i zeros v))
      | none ↦ elim (find_free nbuffers v.last_alloc v) [
        | some j ↦ (some j, clear_block j blkno v)
        | none ↦ (none, v)
      ]
    ]

-- `buf = get_block(blkno); if (!buf) ...`: what follows on NULL, and what follows with the buffer.
unfoldable pub with_block {ℓ} : {R : Type ℓ} → ℕ → ℕ → Cache → (Cache → R) → (ℕ → Cache → R) → R
with_block nblocks blkno v null_case then_case =
    let (r, w) = get_block nblocks blkno v in elim r [ none ↦ null_case w | some i ↦ then_case i w ]

unfoldable pub with_new_block {ℓ} : {R : Type ℓ} → ℕ → ℕ → Cache → (Cache → R) → (ℕ → Cache → R) → R
with_new_block nblocks blkno v null_case then_case =
    let (r, w) = new_block nblocks blkno v in elim r [ none ↦ null_case w | some i ↦ then_case i w ]
