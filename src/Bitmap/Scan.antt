-- ===== src/Bitmap/Scan.antt =====
-- Where bit i of a bitmap is, and that a step of the cursor leads to the next bit.
use rsx.Base.{
  Block, Bool, ap, arith, bit_and, bit_mask, bit_mask_zero, eq-cases, half-bit_mask,
  half-bit_mask_last, has_bit, inl, inr, ne→==, not, refl, some, suc, sym, ℕ, ◌%◌, ◌+◌, ◌/◌, ◌<◌,
  ◌==◌, ◌∙◌, ◌≡◌,
}
use rsx.Bitmap.{Cursor, advance, bmhdrsz, next_block, start}
use rsx.Buffer.{Cache, bytes_of}
use rsx.Buffer.Get.{Got, HasFree, bytes-Got}
use rsx.Buffer.Session.{Got-Quiet, HasFree-Settled, release-Got, with_block-rule}
use rsx.Buffer.View.{IsCoherent, view}

-- The block, offset and mask of bit i of the bitmap that starts at block `base`.
abbrev pub bit_block : ℕ → ℕ → ℕ
bit_block base i = base + (i / 8 + bmhdrsz) / 512

abbrev pub bit_offs : ℕ → ℕ
bit_offs i = (i / 8 + bmhdrsz) % 512

-- Bit i is set: the cluster, or the index file entry, is in use.
abbrev pub is_used : Cache → ℕ → ℕ → Bool
is_used v base i = has_bit (view v (bit_block base i) (bit_offs i)) (bit_mask (i % 8))

-- The cursor is on bit i of the bitmap, and its variables agree with the cache.
pub record IsAt (v0 : Cache) (base i : ℕ) (k : Cursor) (v : Cache) : Type 0 where
  pub got : Got v0 k.bmblk k.buf v
  pub block : k.bmblk ≡ bit_block base i
  pub offs : k.offs ≡ bit_offs i
  pub mask : k.mask ≡ bit_mask (i % 8)
  pub bmp : k.bmp ≡ view v0 k.bmblk k.offs

pub start-IsAt :
    {v0 v : Cache} {base buf : ℕ} → Got v0 base buf v → IsAt v0 base 0 (start base buf v) v
start-IsAt {v0} {v} {base} g = record {
  got = g;
  block = omega arith;
  offs = omega arith;
  mask = sym bit_mask_zero;
  bmp = ap (λ (p : Block). p 16) (bytes-Got g);
}

module _ (nblocks base i : ℕ) {v0 : Cache} {k : Cursor} {v : Cache} (c : IsCoherent v0)
    (h : IsAt v0 base i k v) where
  -- The test of the scan.
  pub test-is_used : not (bit_and k.bmp k.mask == 0) ≡ is_used v0 base i
  unfolding has_bit
  test-is_used = cc (h.bmp, h.mask, h.block, h.offs)

  next_block-IsAt :
      i % 8 ≡ 7
      → bit_offs i + 1 ≡ 512
      → HasFree v0
      → k.bmblk + 1 < nblocks
      → (k' : Cursor) × (w : Cache) × (next_block nblocks k v ≡ (some k', w))
        × IsAt v0 base (suc i) k' w
  unfolding next_block
  next_block-IsAt last end free room =
      let q = release-Got c h.got in
      with_block-rule
        (λ r. (k' : Cursor) × (w : Cache) × (r ≡ (some k', w)) × IsAt v0 base (suc i) k' w) nblocks
        (k.bmblk + 1) _ _ q.settled.coherent room (HasFree-Settled free q.settled)
        λ b w g.
          let g0 = Got-Quiet q g in
          (
            record { mask = 0x80; offs = 0; bmblk = k.bmblk + 1; bmp = bytes_of b w 0; buf = b },
            w,
            refl,
            record {
              got = g0;
              block = omega (arith, h.block);
              offs = omega arith;
              mask = let z : suc i % 8 ≡ 0 = omega arith in rw z (sym bit_mask_zero);
              bmp = ap (λ (p : Block). p 0) (bytes-Got g0);
            },
          )

  -- The scan goes on to the next bit, if its block is on the volume.
  pub advance-IsAt :
      HasFree v0
      → bit_block base (suc i) < nblocks
      → (k' : Cursor) × (w : Cache) × (advance nblocks k v ≡ (some k', w))
        × IsAt v0 base (suc i) k' w
  unfolding advance
  advance-IsAt free room = elim (eq-cases (i % 8) 7) [
    | inl last ↦
        let half : k.mask / 2 ≡ 0 = rw (h.mask, last) half-bit_mask_last in
        elim (eq-cases (k.offs + 1) 512) [
          | inl end ↦
              let (k', w, e, at) =
                next_block-IsAt last (ap (λ (n : ℕ). n + 1) (sym h.offs) ∙ end) free
                  (omega (arith, h.block, h.offs)) in
              (k', w, rw (half, end) e, at)
          | inr more ↦ (
            record k { mask = 0x80; offs = k.offs + 1; bmp = bytes_of k.buf v (k.offs + 1) },
            v,
            rw (half, ne→== _ _ more) refl,
            record {
              got = h.got;
              block = omega (arith, h.block, h.offs);
              offs = omega (arith, h.offs);
              mask = let z : suc i % 8 ≡ 0 = omega arith in rw z (sym bit_mask_zero);
              bmp = ap (λ (p : Block). p (k.offs + 1)) (bytes-Got h.got);
            },
          )
        ]
    | inr inside ↦
        let half = half-bit_mask (i % 8) (omega arith) in
        (
          record k { mask = k.mask / 2 },
          v,
          rw (h.mask, half.1) refl,
          record {
            got = h.got;
            block = omega (arith, h.block);
            offs = omega (arith, h.offs);
            mask = let z : suc i % 8 ≡ i % 8 + 1 = omega arith in rw (z, h.mask) half.0;
            bmp = h.bmp;
          },
        )
  ]
