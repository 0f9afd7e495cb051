-- ===== src/FileOpen/Clusters.antt =====
-- What the loops of delete_file that free clusters leave of the bitmap: fileio.c.
use rsx.Base.{
  arith, false, if◌then◌else◌, leb, ltb, refl, suc, zero, ℕ, ◌&&◌, ◌+◌, ◌/◌, ◌<◌, ◌∙◌, ◌≡◌, ◌≢◌,
  ◌≤◌,
}
use rsx.Bitmap.{Volume, free_cluster}
use rsx.Bitmap.Clusters.{CanScan, free_cluster-SetsBit}
use rsx.Bitmap.Scan.{bit_block, bit_offs, is_used}
use rsx.Bitmap.Take.{SetsBit}
use rsx.Buffer.{Cache}
use rsx.Buffer.Session.{HasFree-Settled, Settled, Settled-trans}
use rsx.Buffer.View.{view}
use rsx.FileOpen.{free_run}

pub record RunFreed (base first n : ℕ) (v w : Cache) : Type 0 where
  pub settled : Settled v w
  pub bits :
      (j : ℕ)
      → is_used w base j ≡ (if leb first j && ltb j (first + n) then false else is_used v base j)
  pub others :
      (b o : ℕ)
      → ((i : ℕ) → first ≤ i → i < first + n → b ≡ bit_block base i → o ≢ bit_offs i)
      → view w b o ≡ view v b o

after_one :
    (base first n : ℕ) (v u w : Cache)
    → Settled v u
    → SetsBit base first false v u
    → RunFreed base (first + 1) n u w
    → RunFreed base first (suc n) v w
after_one base first n v u w st one rest = record {
  settled = Settled-trans st rest.settled;
  bits = λ j. rest.bits j ∙ rw (one.bits j) (ground arith);
  others = λ b o far.
      rest.others b o (λ i lo hi e. far i (omega arith) (omega arith) e)
      ∙ one.others b o (λ e. far first (omega arith) (omega arith) e);
}

-- If the bits of the run lie on the volume and within the offsets that free_cluster can name, on a
-- coherent cache with a free buffer, the loop of delete_file over a contiguous file clears the bits
-- of its n clusters from the first on, no other bit and no other byte, and leaves the reference
-- counts alone.
pub free_run-RunFreed :
    (g : Volume) (n first : ℕ) {v : Cache}
    → CanScan g.nblocks g.bmblock (first + n) v
    → (first + n) / 8 + 16 < 2097152
    → RunFreed g.bmblock first n v (free_run g n first v)
unfolding free_run
free_run-RunFreed g zero first {v} can small = record {
  settled = record { coherent = can.coherent; counts = λ j. refl; kept = λ j d h x. x };
  bits = λ j. ground arith;
  others = λ b o far. refl;
}
free_run-RunFreed g (suc n) first {v} can small =
    let u = (free_cluster g first v).1 in
    let one =
      free_cluster-SetsBit g first
        (record { coherent = can.coherent; free = can.free; bytes = can.bytes; room = omega arith })
        (omega arith) in
    after_one g.bmblock first n v u (free_run g n (first + 1) u) one.1 one.2 (
      free_run-RunFreed g n (first + 1)
        (record {
          coherent = one.1.coherent;
          free = HasFree-Settled can.free one.1;
          bytes = one.2.bytes can.bytes;
          room = omega arith;
        })
        (omega arith))
