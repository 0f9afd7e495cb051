-- ===== src/IndexFile/Entry.antt =====
-- The fields of an index file entry as `set_inode` fills them in.
use rsx.Base.{Block, arith, get_int16, get_int24, refl, ℕ, ◌%◌, ◌+◌, ◌<◌, ◌≡◌}
use rsx.Bitmap.{Volume}
use rsx.IndexFile.{set_inode}

-- `set_inode` stores the link count, the attributes, the cluster factor, the owner, the block
-- counts, the byte count of the last block and the protection where a reader of the entry finds
-- them, raises the sequence number by one modulo 65536, and touches no byte of the dates, the block
-- pointers and the name.
pub set_inode-fields :
    (g : Volume) (e : Block) (lnkcnt attrib group user nalloc nused lbcount perm o : ℕ)
    → lnkcnt < 65536
    → attrib < 256
    → group < 256
    → user < 256
    → nalloc < 16777216
    → nused < 16777216
    → lbcount < 65536
    → perm < 65536
    → let e' = set_inode g e lnkcnt attrib group user nalloc nused lbcount perm in
      (get_int16 e' 0 ≡ lnkcnt)
      × (e' 2 ≡ attrib)
      × (e' 3 ≡ g.clfactor)
      × (get_int16 e' 4 ≡ (get_int16 e 4 + 1) % 65536)
      × (e' 6 ≡ user)
      × (e' 7 ≡ group)
      × (get_int24 e' 8 ≡ nalloc)
      × (get_int24 e' 11 ≡ nused)
      × (get_int16 e' 14 ≡ lbcount)
      × (get_int16 e' 30 ≡ perm)
      × (e' (16 + o % 14) ≡ e (16 + o % 14))
      × (e' (32 + o) ≡ e (32 + o))
unfolding set_inode
set_inode-fields g e lnkcnt attrib group user nalloc nused lbcount perm o h1 h2 h3 h4 h5 h6 h7 h8 =
    (
      omega arith,
      omega arith,
      refl,
      omega arith,
      omega arith,
      omega arith,
      omega arith,
      omega arith,
      omega arith,
      omega arith,
      ground arith,
      ground arith,
    )
