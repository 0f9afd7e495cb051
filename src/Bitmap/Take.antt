-- ===== src/Bitmap/Take.antt =====
-- Setting or clearing one bit of a bitmap, seen through the view.
use rsx.Base.{
  ==_refl, AreBytes, Block, Bool, ap, arith, bit_mask, bit_or, bit_or-lt, clear_bit, clear_bit-lt,
  eq-cases, false, has_bit, has_bit-clear, has_bit-set, if◌then◌else◌, inl, inr, ne→==, refl, sym,
  true, update, ℕ, ◌%◌, ◌<◌, ◌==◌, ◌∙◌, ◌≡◌, ◌≢◌,
}
use rsx.Bitmap.{Cursor, free_bit, take_bit}
use rsx.Bitmap.Scan.{IsAt, bit_block, bit_offs, is_used}
use rsx.Buffer.{Cache, bytes_of}
use rsx.Buffer.Get.{Got, bytes-Got}
use rsx.Buffer.Session.{Settled, Written, write-release}
use rsx.Buffer.View.{IsCoherent, view}

-- The bits of a bitmap are at different places.
bit_place :
    (base i j : ℕ)
    → bit_block base i ≡ bit_block base j
    → bit_offs i ≡ bit_offs j
    → i % 8 ≡ j % 8
    → i ≡ j
bit_place base i j b o m = omega arith

-- From v to w bit i of the bitmap got the value x; no other bit of it, and no other byte of any
-- block, has changed.
pub record SetsBit (base i : ℕ) (x : Bool) (v w : Cache) : Type 0 where
  pub bits : (j : ℕ) → is_used w base j ≡ (if i == j then x else is_used v base j)
  pub others : (b o : ℕ) → (b ≡ bit_block base i → o ≢ bit_offs i) → view w b o ≡ view v b o
  pub bytes : ((b : ℕ) → AreBytes (view v b)) → (b : ℕ) → AreBytes (view w b)

module _ (base i : ℕ) (v w : Cache) (p : Block) (y : ℕ) (x : Bool)
    (places : p ≡ update (view v (bit_block base i)) (bit_offs i) y)
    (wr : Written v (bit_block base i) p w) (byte : y < 256)
    (effect : (j : ℕ)
      → j < 8
      → has_bit y (bit_mask j) ≡ (
          if i % 8 == j
          then x
          else has_bit (view v (bit_block base i) (bit_offs i)) (bit_mask j))) where
  bit_written : (j : ℕ) → is_used w base j ≡ (if i == j then x else is_used v base j)
  bit_written j = elim (eq-cases (bit_block base j) (bit_block base i)) [
    | inr far ↦
        let ne : i ≢ j = λ e. far (ap (bit_block base) (sym e)) in
        rw (wr (bit_block base j), ne→== _ _ far, ne→== _ _ ne) refl
    | inl near ↦ elim (eq-cases (bit_offs i) (bit_offs j)) [
      | inr off ↦
          let ne : i ≢ j = λ e. off (ap bit_offs e) in
          rw
            (
              wr (bit_block base j),
              near,
              ==_refl (bit_block base i),
              places,
              ne→== _ _ off,
              ne→== _ _ ne,
            )
            refl
      | inl on ↦
          rw
            (
              wr (bit_block base j),
              near,
              ==_refl (bit_block base i),
              places,
              on,
              ==_refl (bit_offs j),
            )
            (effect (j % 8) (omega arith) ∙ ground (arith, bit_place base i j))
    ]
  ]

  bit_written-SetsBit : SetsBit base i x v w
  bit_written-SetsBit = record {
    bits = bit_written;
    others = λ b o far. elim (eq-cases b (bit_block base i)) [
      | inr away ↦ rw (wr b, ne→== _ _ away) refl
      | inl near ↦
          rw (wr b, near, ==_refl (bit_block base i), places)
            (rw (ne→== (bit_offs i) o (λ e. far near (sym e))) refl)
    ];
    bytes = λ all b o. elim (eq-cases b (bit_block base i)) [
      | inr far ↦ rw (wr b, ne→== _ _ far) (all b o)
      | inl near ↦
          rw (wr b, near, ==_refl (bit_block base i), places)
            (ground (arith, all (bit_block base i) o, byte))
    ];
  }

-- `bmp |= mask` at a free bit takes it, and `&= ~mask` frees it.
pub take_bit-SetsBit :
    (base i : ℕ) {v0 v : Cache} {k : Cursor}
    → IsCoherent v0
    → ((b : ℕ) → AreBytes (view v0 b))
    → IsAt v0 base i k v
    → Settled v0 (take_bit k v) × SetsBit base i true v0 (take_bit k v)
unfolding take_bit
take_bit-SetsBit base i {v0} {v} {k} c all h =
    let p = update (bytes_of k.buf v) k.offs (bit_or k.bmp k.mask) in
    let r = write-release p c h.got in
    let old = view v0 (bit_block base i) (bit_offs i) in
    let same : bit_or k.bmp k.mask ≡ bit_or old (bit_mask (i % 8)) =
      cc (h.bmp, h.mask, h.block, h.offs) in
    (
      r.0,
      bit_written-SetsBit base i v0 (take_bit k v) p (bit_or old (bit_mask (i % 8))) true
          (rw (← same, ← h.offs, ← h.block, bytes-Got h.got) refl) (rw (← h.block) r.1)
          (bit_or-lt old (i % 8) (all _ _) (omega arith))
          (λ j hj. has_bit-set old (i % 8) j (all _ _) (omega arith) hj ∙ ground arith),
    )

-- `&= ~mask` in the buffer of the bit's block.
pub free_bit-SetsBit :
    (base i : ℕ) {v w : Cache} {b : ℕ}
    → IsCoherent v
    → ((b : ℕ) → AreBytes (view v b))
    → Got v (bit_block base i) b w
    → Settled v (free_bit i b w) × SetsBit base i false v (free_bit i b w)
unfolding free_bit
free_bit-SetsBit base i {v} {w} {b} c all g =
    let bytes = bytes_of b w in
    let old = view v (bit_block base i) (bit_offs i) in
    let p = update bytes (bit_offs i) (clear_bit (bytes (bit_offs i)) (bit_mask (i % 8))) in
    let r = write-release p c g in
    (
      r.0,
      bit_written-SetsBit base i v (free_bit i b w) p (clear_bit old (bit_mask (i % 8))) false
          (rw (bytes-Got g) refl) r.1 (clear_bit-lt old (i % 8) (all _ _) (omega arith))
          (λ j hj. has_bit-clear old (i % 8) j (all _ _) (omega arith) hj ∙ ground arith),
    )
