-- ===== src/Mount.antt =====
-- Tools/linux/vol180/mount.c: what mount_disk takes from the volume id.
use rsx.Base.{
  Block, Bool, List, Option, [], get_int16, get_int24, if◌then◌else◌, none, some, true, ℕ, ◌&&◌,
  ◌+◌, ◌==◌, ◌∷◌,
}
use rsx.Bitmap.{Volume}

-- `strncmp(buf, text, n)` finds no difference; the text has no NUL.
unfoldable pub starts_with : List ℕ → ℕ → Block → Bool
starts_with [] at buf = true
starts_with (c ∷ cs) at buf = let rest = starts_with cs (at + 1) buf in (buf at == c) && rest

-- The checks of the volume id in block 1, and the variables that are set from it.
unfoldable pub read_volume : Block → Option Volume
unfolding starts_with
read_volume buf =
    if starts_with (86 ∷ 79 ∷ 76 ∷ 49 ∷ 56 ∷ 48 ∷ []) 0 buf
    then (if (buf 9 == 5) && (buf 8 == 0)
        then some (record {
          nblocks = get_int24 buf 32;
          bmblock = get_int24 buf 68;
          ixblock = get_int24 buf 64;
          clfactor = buf 48;
          defprot = get_int16 buf 36;
        })
        else none)
    else none
