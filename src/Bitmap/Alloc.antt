-- ===== src/Bitmap/Alloc.antt =====
-- `alloc_cluster` and `free_cluster`: first fit, and what they do to the bitmap.
use rsx.Base.{
  AreBytes, Bool-cases, Option, ap, arith, bit_and, eq-cases, false, inl, inr, none, not, some, suc,
  sym, true, zero, ℕ, ◌+◌, ◌<◌, ◌==◌, ◌∙◌, ◌≡◌, ◌≤◌,
}
use rsx.Bitmap.{Cursor, advance, alloc_loop}
use rsx.Bitmap.Scan.{IsAt, advance-IsAt, bit_block, is_used, test-is_used}
use rsx.Bitmap.Take.{SetsBit, take_bit-SetsBit}
use rsx.Buffer.{Cache}
use rsx.Buffer.Get.{Got, HasFree}
use rsx.Buffer.Session.{Settled}
use rsx.Buffer.View.{IsCoherent, view}

-- The outcomes of a scan of n bits from bit i on: the first free bit, which is now taken; or none,
-- and then one buffer is left with a reference.
pub data Scanned (base i n : ℕ) (v : Cache) : Option ℕ × Cache → Type 0 where
  taken :
      {w : Cache} (j : ℕ)
      → i ≤ j
      → j < i + n
      → ((d : ℕ) → i ≤ d → d < j → is_used v base d ≡ true)
      → is_used v base j ≡ false
      → Settled v w
      → SetsBit base j true v w
      → Scanned base i n v (some j, w)
  all_used :
      {w : Cache} (b s : ℕ)
      → ((d : ℕ) → i ≤ d → d < i + n → is_used v base d ≡ true)
      → Got v b s w
      → Scanned base i n v (none, w)

module _ (nblocks base : ℕ) {v0 : Cache} (c : IsCoherent v0) (free : HasFree v0)
    (all : (b : ℕ) → AreBytes (view v0 b)) where
  Scanned-later :
      (i n : ℕ) (r : Option ℕ × Cache)
      → is_used v0 base i ≡ true
      → Scanned base (suc i) n v0 r
      → Scanned base i (suc n) v0 r
  Scanned-later i n (some j, w) u (taken _ lo hi before at set bits) =
      taken j (omega arith) (omega arith)
        (λ d hd dj. elim (eq-cases i d) [ inl e ↦ rw (← e) u | inr ne ↦ before d (omega arith) dj ])
        at set bits
  Scanned-later i n (none, w) u (all_used b s used g) =
      all_used b s
        (λ d hd dj. elim (eq-cases i d) [
          | inl e ↦ rw (← e) u
          | inr ne ↦ used d (omega arith) (omega arith)
        ])
        g

  pub alloc_loop-Scanned :
      (n i : ℕ) (k : Cursor) (v : Cache)
      → IsAt v0 base i k v
      → bit_block base (i + n) < nblocks
      → Scanned base i n v0 (alloc_loop nblocks n i k v)
  unfolding alloc_loop
  alloc_loop-Scanned zero i k v h room =
      all_used k.bmblk k.buf (λ d lo hi. absurd (omega arith)) h.got
  alloc_loop-Scanned (suc n) i k v h room = elim (Bool-cases (bit_and k.bmp k.mask == 0)) [
    | inl off ↦
        let t = take_bit-SetsBit base i c all h in
        rw off (
          taken i (omega arith) (omega arith) (λ d lo hi. absurd (omega arith))
            (sym (test-is_used nblocks base i c h) ∙ ap not off) t.0 t.1)
    | inr on ↦
        let used = sym (test-is_used nblocks base i c h) ∙ ap not on in
        let (k', w, e, at) = advance-IsAt nblocks base i c h free (omega arith) in
        rw on (
          go k' w e (
            Scanned-later i n (alloc_loop nblocks n (suc i) k' w) used
              (alloc_loop-Scanned n (suc i) k' w at (omega arith))))
  ]
    where
      go :
          (k' : Cursor) (w : Cache)
          → advance nblocks k v ≡ (some k', w)
          → Scanned base i (suc n) v0 (alloc_loop nblocks n (suc i) k' w)
          → Scanned base i (suc n) v0 (
              let (r, w) = advance nblocks k v in
              elim r [ none ↦ (none, w) | some k' ↦ alloc_loop nblocks n (suc i) k' w ])
      go k' w e s = rw e (rw e s)
