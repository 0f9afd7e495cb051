-- ===== src/Buffer/Flush.antt =====
-- `flush_buffers`: afterwards the image holds the current bytes of every block.
use rsx.Base.{ap, arith, eq-cases, false, inl, inr, refl, suc, sym, zero, ℕ, ◌+◌, ◌<◌, ◌∙◌, ◌≡◌}
use rsx.Buffer.{Cache, flush_block, flush_buffers, flush_from, init_bufs}
use rsx.Buffer.Get.{HasFree, count}
use rsx.Buffer.Moves.{SameView, flush_block-Keeps, flush_block-unmodified}
use rsx.Buffer.View.{Holds-cases, IsCoherent, view, view-Holds, view-absent}

flush_block-unmodified_other :
    (i j : ℕ) (v : Cache)
    → (v.buffer j).modified ≡ false
    → ((flush_block i v).buffer j).modified ≡ false
unfolding flush_block
flush_block-unmodified_other i j v h = ground arith

flush_block-counts : (i j : ℕ) (v : Cache) → count (flush_block i v) j ≡ count v j
unfolding flush_block
flush_block-counts i j v = ground arith

-- The state after the first buffers have been written back.
record Flushed (v w : Cache) : Type 0 where
  coherent : IsCoherent w
  same : SameView v w
  written : (i : ℕ) → i < 30 → (w.buffer i).modified ≡ false
  counts : (i : ℕ) → count w i ≡ count v i

flush_from-Flushed :
    (n i : ℕ) {v : Cache}
    → n + i ≡ 30
    → IsCoherent v
    → ((j : ℕ) → j < i → (v.buffer j).modified ≡ false)
    → Flushed v (flush_from n i v)
unfolding flush_from
flush_from-Flushed zero i h c before = record {
  coherent = c;
  same = λ b. refl;
  written = λ j hj. before j (omega arith);
  counts = λ j. refl;
}
flush_from-Flushed (suc n) i {v} h c before =
    let f = flush_block-Keeps i c (omega arith) in
    let r = flush_from-Flushed n (suc i) {v = flush_block i v} (omega arith) f.0 (λ j hj.
      elim (eq-cases j i) [
        | inl e ↦ rw e (flush_block-unmodified i c (omega arith))
        | inr ne ↦ flush_block-unmodified_other i j v (before j (omega arith))
      ]) in
    record {
      coherent = r.coherent;
      same = λ b. r.same b ∙ f.1 b;
      written = r.written;
      counts = λ j. r.counts j ∙ flush_block-counts i j v;
    }

disk-view :
    (w : Cache) (b : ℕ)
    → IsCoherent w
    → ((i : ℕ) → i < 30 → (w.buffer i).modified ≡ false)
    → w.disk b ≡ view w b
disk-view w b c written = elim (Holds-cases w b) [
  | inl (i, h) ↦
      ap w.disk (sym h.blkno)
      ∙ sym (c.clean i h.slot h.valid (written i h.slot))
      ∙ sym (view-Holds b i c h)
  | inr out ↦ sym (view-absent w b out)
]

-- On a coherent cache `flush_buffers` leaves on disk the current bytes of every block, and changes
-- neither those, nor the reference counts, nor that the cache is coherent.
pub flush_buffers-disk :
    {v : Cache}
    → IsCoherent v
    → IsCoherent (flush_buffers v)
      × ((b : ℕ) → (flush_buffers v).disk b ≡ view v b)
      × SameView v (flush_buffers v)
      × ((i : ℕ) → count (flush_buffers v) i ≡ count v i)
unfolding flush_buffers
flush_buffers-disk {v} c =
    let r = flush_from-Flushed 30 0 refl c (λ j h. absurd (omega arith)) in
    (
      r.coherent,
      (λ b. disk-view (flush_from 30 0 v) b r.coherent r.written ∙ r.same b),
      r.same,
      r.counts,
    )

-- After `init_bufs` the cache is coherent and shows the image, whatever the buffers held before.
pub init_bufs-IsCoherent :
    (v : Cache)
    → v.last_alloc < 30
    → IsCoherent (init_bufs v) × ((b : ℕ) → view (init_bufs v) b ≡ v.disk b) × HasFree (init_bufs v)
unfolding init_bufs
init_bufs-IsCoherent v h = (
  record {
    distinct = λ i j hi hj vi vj e. cc;
    clean = λ i hi vi mi. cc;
    live = λ i hi mi. cc;
    last = h;
    bounded = λ i. omega arith;
  },
  (λ b. view-absent (init_bufs v) b (λ i hi vi e. cc)),
  record { index = 0; slot = omega arith; unheld = refl },
)
