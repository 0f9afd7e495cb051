-- ===== src/Lib.antt =====
-- Verification of the volume tool vol180 (Tools/linux/vol180), which reads and writes volumes of
-- the RSX280 file system from the host, of the filter of the Telnet server vtcp, and of the
-- spreadsheet FreeCalc (calc/c).
--
-- The parts, from the disk up. The mount code keeps five parameters of the volume, `Volume`, that
-- all others read. Sectors go through a cache of 30 buffers with reference counts: whoever asks for
-- a block holds its buffer until it is released, and a changed buffer is written back when its slot
-- is used for another block, or by a flush. Above the cache are the two bitmaps, the index file
-- with an entry of 64 bytes for each file, the directories with entries of 16 bytes, and the
-- open files.
--
-- Base        words, bytes and bits in memory (Tools/linux/vol180/misc.h), tests and list helpers.
-- Buffer      Tools/linux/vol180/buffer.c and blockio.c: `get_block`, `new_block`, `release_block`,
--             `flush_buffers`. `Cache` is the disk, the 30 buffers and `last_alloc`; a buffer pointer
--             is its index, NULL is `none`. `with_block` is the call, its NULL check and what follows.
-- Bitmap      Tools/linux/vol180/bitmap.c: `alloc_cluster`, `alloc_clusters`, `free_cluster`,
--             `alloc_inode`, `free_inode`.
-- IndexFile   Tools/linux/vol180/indexf.c: `read_inode`, `write_inode`, `new_inode`, `set_inode`.
-- Directory   Tools/linux/vol180/dirio.c: `set_dir_entry`, `match`.
-- FileIo      Tools/linux/vol180/fileio.c: `file_vbn_to_lbn`, `file_seek`, `file_pos`, `file_read`,
--             `end_of_file`. An `Fcb` is passed and returned by value with its header, since
--             these functions reach one open file only.
-- FileWrite   Tools/linux/vol180/fileio.c: `file_extend`, `file_write`.
-- FileOpen    Tools/linux/vol180/fileio.c: `open_md_file`, `open_file`, `close_file`, `set_file_dates`,
--             `delete_file`, from the directory's FCB on; the split of the name, and the choice and
--             the closing of the directory around them, are not part of it.
-- FileNames   Tools/linux/vol180/fileio.c: `parse_name`, `get_file_name`, and the list of headers of
--             `get_fcb` and `free_fcb`, as use counts of files.
-- Dates       Tools/linux/vol180/misc.c and indexf.c: dates, permissions and names in an entry.
-- Mount       Tools/linux/vol180/mount.c: what is read from the volume id.
-- MakeDisk    Tools/linux/vol180/mkdisk.c: `create_disk`, block by block.
-- Check       Tools/linux/vol180/check.c: the passes over the index file, the link counts and the
--             clusters of the files, the comparison of bitmaps, the walk over a directory and the
--             repair of a name. `Pass` says whether the check goes on, and has the count of errors.
-- Vmr         Tools/linux/vol180/vmr.c: the pool, the partitions, the devices and the tasks in the
--             image of the system. What `get_sym` finds are the fields of `Symbols`; the lists of
--             the kernel are words in the first 64 KB of the image.
-- Telnet      Tools/linux/vtcp/telnet.c: `telnet_filter`.
-- Calc        calc/c/calc.c: the names of cells (Names), the evaluation of formulas (Formula, on
--             Text and Functions), the chain of cells in a heap (Cells), inserted and deleted
--             rows and columns (Rows), and the cursor (Cursor). A formula's text and `*ip` are a
--             `Place`, the characters in front of the index and those from it on up to the NUL. The
--             evaluation has the cells as the list of the chain. The array in which a name is replaced
--             holds NULs behind the text, and the loops over it have the rounds of the C loops.
--             Doubles, math.h and strtod are the record `Real`, of any type of numbers.
-- Tests       the theorems at concrete inputs.
--
-- Numbers are natural. Bytes are below 256 by hypothesis (`AreBytes`), and words are put together
-- from bytes as the macros of misc.h do. The disk is a function from block numbers to sectors.
--
-- Loops. The scan of a bitmap has the rounds of the C loop, `nblocks` or the number of entries.
-- The walk over the map blocks has `vcn - 4` rounds, one more than it can take, as each one lowers
-- `vcn` by 168; the read loop has one for each block behind the current one. `file_extend`
-- walks with `vcn + 1` rounds, and `file_write` has a round for each 512 bytes of position and
-- length. The reads of a directory have one round more than it has entries, and a chain of map
-- blocks that is freed one more than the volume has blocks. The walks over the lists of the system
-- image have 65536 rounds, more than a list without a cycle has blocks, and the loop over a name of
-- n characters (n + 1) * (n + 2). Each call of the evaluation of a formula has its own fuel, and
-- `sum_fuel` is enough for an arithmetic formula; the walks over the cells take one round more
-- than there are cells, and 256 are enough for the loop of `horizontal`.
--
-- Not modelled: messages, listings and dumps; the command line; the offset of the volume in the
-- image file and an image that is not open; NULL passed for an FCB; `create_file`,
-- `create_dir` and `change_dir`; the walk of the checker over all directories, which opens each by
-- its name, its check of the volume id and its list of the users of a cluster; of the virtual MCR
-- its commands and listings; the other host tools; of FreeCalc the display, the files
-- and the commands other than those that insert and delete; the parts of the system that are not
-- in C.
pub mod Base
pub mod Buffer
pub mod Bitmap
pub mod Calc
pub mod IndexFile
pub mod Directory
pub mod FileIo
pub mod Dates
pub mod MakeDisk
pub mod Mount
pub mod FileWrite
pub mod FileOpen
pub mod FileNames
pub mod Check
pub mod Vmr
pub mod Telnet
mod Tests
