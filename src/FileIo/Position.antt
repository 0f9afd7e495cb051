-- ===== src/FileIo/Position.antt =====
-- Seeking, and the end of a file.
use rsx.Base.{
  ==_refl, Bool-cases, Option, ap, arith, eq-cases, if◌then◌else◌, inl, inr, leb, leb→le, leb→lt,
  ltb, min, ne→==, none, refl, some, true, ℕ, ◌%◌, ◌*◌, ◌+◌, ◌-◌, ◌/◌, ◌<◌, ◌==◌, ◌∙◌, ◌≡◌, ◌≢◌,
  ◌≤◌,
}
use rsx.Bitmap.{Volume}
use rsx.Buffer.{Cache}
use rsx.Buffer.Get.{HasFree}
use rsx.Buffer.Moves.{SameView}
use rsx.Buffer.Session.{Quiet}
use rsx.Buffer.View.{IsCoherent}
use rsx.FileIo.{Fcb, Header, Run, end_of_file, file_pos, file_seek, ok}
use rsx.FileIo.Lookup.{ChainIn, LookedUp, behind, file_vbn_to_lbn-LookedUp, found, lbn_of, missing}

-- The number of bytes of a file: all blocks but the last are full.
abbrev pub file_size : Header → ℕ
file_size h = if h.nused == 0 then 0 else (h.nused - 1) * 512 + h.lbcount

-- The last block of a file that has blocks holds from 1 to 512 bytes.
pub record IsSized (h : Header) : Type 0 where
  pub most : h.lbcount ≤ 512
  pub least : h.nused ≢ 0 → 0 < h.lbcount

-- `end_of_file` holds just where the position has reached the size of the file, if the byte pointer
-- is not behind its block and the last block is not empty.
pub end_of_file-leb :
    (f : Fcb)
    → IsSized f.header
    → f.byteptr ≤ 512
    → end_of_file f ≡ leb (file_size f.header) (file_pos f)
unfolding end_of_file file_pos
end_of_file-leb f z h = ground (arith, z.least)

-- The outcomes of a seek to byte pos.
pub data Sought (g : Volume) (v : Cache) (f : Fcb) (pos : ℕ) : Run (Option ℕ) → Type 0 where
  sought :
      {f' : Fcb} {w : Cache} (lbn : ℕ)
      → f'.header ≡ f.header
      → file_pos f' ≡ min pos (file_size f.header)
      → lbn_of g f.header v f'.curblk ≡ some lbn
      → Quiet v w
      → Sought g v f pos (ok (some lbn) f' w)
  empty_file :
      {f' : Fcb}
      → f.header.nused ≡ 0
      → f'.header ≡ f.header
      → file_pos f' ≡ 0
      → Sought g v f pos (ok none f' v)
  unmapped :
      {f' : Fcb} {w : Cache} (vbn : ℕ)
      → vbn < f.header.nused
      → lbn_of g f.header v vbn ≡ none
      → f'.header ≡ f.header
      → IsCoherent w
      → SameView v w
      → Sought g v f pos (ok none f' w)

module _ (g : Volume) {v : Cache} (c : IsCoherent v) (free : HasFree v) where
  seek_outcome :
      (f f1 : Fcb) (pos vbn : ℕ)
      → f1.header ≡ f.header
      → vbn < f.header.nused
      → vbn * 512 + f1.byteptr ≡ min pos (file_size f.header)
      → (r : Run (Option ℕ)) → LookedUp g v f1 vbn (lbn_of g f1.header v vbn) r
      → Sought g v f pos r
  unfolding file_pos
  seek_outcome f f1 pos vbn eh within at _ (found {f'} {w} lbn e eh' eb ec q) =
      let used : f'.header.nused ≢ 0 = λ z. absurd (omega (arith, ap Header.nused (eh' ∙ eh))) in
      sought lbn (eh' ∙ eh) (rw (ne→== _ _ used, ec, eb) at) (rw (ec, ← eh) e) q
  seek_outcome f f1 pos vbn eh within at _ (behind over q) =
      absurd (omega (arith, ap Header.nused eh))
  seek_outcome f f1 pos vbn eh within at _ (missing lt e eh' eb co sv) =
      unmapped vbn within (rw (← eh) e) (eh' ∙ eh) co sv

  -- On a coherent cache with a free buffer, for a file whose map blocks are on the volume and
  -- whose last block, if it has any, has 1 to 512 bytes, a seek to pos leaves the position at
  -- pos, or at the end of the file if that comes first, on a block that the allocation map has,
  -- and all buffers held as often as before. On an empty file it leaves the position at zero, and
  -- it fails on a block before the end only if the map does not have it. It never reads through
  -- NULL.
  pub file_seek-Sought :
      (f : Fcb) (pos : ℕ)
      → IsSized f.header
      → ChainIn g v (f.header.bmap 5)
      → Sought g v f pos (file_seek g f pos v)
  unfolding file_seek
  file_seek-Sought f pos z on = elim (eq-cases f.header.nused 0) [
    | inl none_used ↦
        let test : (f.header.nused == 0) ≡ true = ground arith in
        rw test (
          empty_file {f' = record f { curblk = 0; byteptr = 0 }} none_used refl
            (unfold file_pos in rw test refl))
    | inr used ↦ rw (ne→== _ _ used) (elim (eq-cases (pos / 512) (f.header.nused - 1)) [
      | inl last ↦
          let b = if ltb f.header.lbcount (pos % 512) then f.header.lbcount else pos % 512 in
          rw (last, ==_refl (f.header.nused - 1))
            (seek_outcome f (record f { byteptr = b }) pos (f.header.nused - 1) refl (omega arith)
              (ground arith) _
              (file_vbn_to_lbn-LookedUp g c free (record f { byteptr = b }) (f.header.nused - 1)
                on))
      | inr inner ↦ rw (ne→== _ _ inner) (elim (Bool-cases (leb f.header.nused (pos / 512))) [
        | inl over ↦ rw over (
            seek_outcome f (record f { byteptr = f.header.lbcount }) pos (f.header.nused - 1) refl
              (omega arith) (ground (arith, leb→le _ _ over, z.most)) _
              (file_vbn_to_lbn-LookedUp g c free (record f { byteptr = f.header.lbcount })
                (f.header.nused - 1) on))
        | inr within ↦ rw within (
            seek_outcome f (record f { byteptr = pos % 512 }) pos (pos / 512) refl
              (leb→lt _ _ within) (ground (arith, leb→lt _ _ within)) _
              (file_vbn_to_lbn-LookedUp g c free (record f { byteptr = pos % 512 }) (pos / 512) on))
      ])
    ])
  ]
