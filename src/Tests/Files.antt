-- ===== src/Tests/Files.antt =====
-- The theorems on entries, names and files at the sample volume.
use rsx.Base.{
  Block, [], arith, get_int16, has_bit, if◌then◌else◌, ltb, not, refl, some, suc, zero, ℕ, ◌&&◌,
  ◌+◌, ◌<◌, ◌==◌, ◌||◌, ◌∷◌, ◌≡◌,
}
use rsx.Directory.{match, set_dir_entry}
use rsx.Directory.Match.{match-set_dir_entry, same_text}
use rsx.FileIo.{Fcb, Header, file_pos, file_read, file_seek, file_vbn_to_lbn}
use rsx.FileIo.Contents.{IsMapped, ReadOut}
use rsx.FileIo.Lookup.{ChainIn, LookedUp, file_vbn_to_lbn-LookedUp, lbn_of, map_block}
use rsx.FileIo.Position.{Sought, file_seek-Sought}
use rsx.FileIo.Reading.{file_read-ReadOut}
use rsx.Tests.Sample.{sample, sample-HasFree, sample-IsCoherent, volume}

abbrev text : Block
text o = 0x41

match-set_dir_entry_example :
    let d = set_dir_entry text 7 (b'A' ∷ b'B' ∷ []) (b'C' ∷ []) 3 in
    (get_int16 d 0 ≡ 7)
    × (match d (b'A' ∷ b'B' ∷ []) (b'C' ∷ []) 4 ≡ (
        same_text (b'A' ∷ b'B' ∷ []) (b'A' ∷ b'B' ∷ [])
        && same_text (b'C' ∷ []) (b'C' ∷ [])
        && (not (ltb 0 4 && ltb 4 32768) || 3 == 4)))
match-set_dir_entry_example =
    match-set_dir_entry text 7 (b'A' ∷ b'B' ∷ []) (b'C' ∷ []) (b'A' ∷ b'B' ∷ []) (b'C' ∷ []) 3 4
      (omega arith) (omega arith) (omega arith) (omega arith) (omega arith) (omega arith)

-- A file of two blocks, 50 and 51, with 100 bytes in the second, at byte 500.
abbrev two_blocks : Header
two_blocks = record {
  inode = 6;
  attrib = 1;
  nalloc = 2;
  nused = 2;
  lbcount = 100;
  bmap = λ i. if ltb i 2 then 50 + i else 0;
}

abbrev at_500 : Fcb
at_500 = record { header = two_blocks; curalloc = 0; curblk = 0; byteptr = 500 }

two_blocks-chain : ChainIn volume sample 0
unfolding map_block
two_blocks-chain zero m e = cc
two_blocks-chain (suc k) m e = cc

two_blocks-place :
    (vbn : ℕ) → vbn < 2 → (lbn : ℕ) × (lbn_of volume two_blocks sample vbn ≡ some lbn) × (lbn < 100)
unfolding lbn_of has_bit
two_blocks-place zero h = (50, refl, omega arith)
two_blocks-place (suc zero) h = (51, refl, omega arith)
two_blocks-place (suc (suc vbn)) h = absurd (omega arith)

two_blocks-IsMapped : IsMapped volume two_blocks sample
two_blocks-IsMapped = record {
  sized = record { most = omega arith; least = λ e. omega arith };
  chain = two_blocks-chain;
  place = two_blocks-place;
}

file_vbn_to_lbn-LookedUp_example :
    LookedUp volume sample at_500 1
      (lbn_of volume two_blocks sample 1)
      (file_vbn_to_lbn volume at_500 1 sample)
file_vbn_to_lbn-LookedUp_example =
    file_vbn_to_lbn-LookedUp volume sample-IsCoherent sample-HasFree at_500 1 two_blocks-chain

file_seek-Sought_example : Sought volume sample at_500 700 (file_seek volume at_500 700 sample)
file_seek-Sought_example =
    file_seek-Sought volume sample-IsCoherent sample-HasFree at_500 700
      (record { most = omega arith; least = λ e. omega arith }) two_blocks-chain

file_read-ReadOut_example :
    ReadOut volume two_blocks sample 500 112 text (file_read volume at_500 text 200 sample)
unfolding file_pos
file_read-ReadOut_example =
    file_read-ReadOut volume at_500 text 200 sample-IsCoherent sample-HasFree two_blocks-IsMapped
      (omega arith) (omega arith)
