-- ===== src/Buffer/New.antt =====
-- `new_block`: a buffer of zeros for a block that is not read from disk.
use rsx.Base.{
  Bool-cases, Option, Option-cases, arith, false, if◌then◌else◌, inl, inr, leb, leb→le, leb→lt,
  none, refl, some, true, zeros, ℕ, ◌%◌, ◌+◌, ◌<◌, ◌==◌, ◌∙◌, ◌≡◌, ◌≢◌, ◌≤◌,
}
use rsx.Buffer.{Cache, clear_block, find_block, find_free, flush_block, new_block, pin, write_bytes}
use rsx.Buffer.Find.{Holds, find_block-none, find_block-some, find_free-all_held, find_free-some}
use rsx.Buffer.Get.{HasFree, IsFull, count, kept_flushed, out_flushed}
use rsx.Buffer.Moves.{
  assign-IsCoherent, assign-view, flush_block-Keeps, flush_block-unmodified, pin-Keeps,
  write_bytes-IsCoherent, write_bytes-view,
}
use rsx.Buffer.View.{IsCoherent, view}

-- From v to w the block b was zeroed in the buffer i, which is held once more.
pub record Zeroed (v : Cache) (b i : ℕ) (w : Cache) : Type 0 where
  pub coherent : IsCoherent w
  pub holds : Holds w b i
  pub written : (d : ℕ) → view w d ≡ (if d == b then zeros else view v d)
  pub counts : (j : ℕ) → count w j ≡ (if j == i then (count v j + 1) % 256 else count v j)
  pub kept : (j d : ℕ) → count v j ≢ 0 → Holds v d j → Holds w d j

module _ {v : Cache} (b : ℕ) (c : IsCoherent v) where
  pin-Zeroed : (i : ℕ) → Holds v b i → Zeroed v b i (pin i (write_bytes i zeros v))
  unfolding pin write_bytes
  pin-Zeroed i h =
      let k = write_bytes-IsCoherent i b zeros c h in
      record {
        coherent = (pin-Keeps i k).0;
        holds = record {
          slot = h.slot;
          valid = ground (arith, h.valid);
          blkno = ground (arith, h.blkno);
        };
        written = λ d. (pin-Keeps i k).1 d ∙ write_bytes-view i b zeros c h d;
        counts = λ j. ground arith;
        kept = λ j d held g. record {
          slot = g.slot;
          valid = ground (arith, g.valid);
          blkno = ground (arith, g.blkno);
        };
      }

  module _ (j : ℕ) (hj : j < 30) (free : count v j ≡ 0)
      (out : (i : ℕ) → i < 30 → (v.buffer i).valid ≡ true → (v.buffer i).blkno ≢ b) where
    clear_block-Zeroed : Zeroed v b j (clear_block j b v)
    unfolding clear_block
    clear_block-Zeroed =
        let f = flush_block-Keeps j c hj in
        let off = flush_block-unmodified j c hj in
        let gone = out_flushed b c j hj free out in
        let dirty : true ≡ false → zeros ≡ (flush_block j v).disk b = λ e. cc in
        record {
          coherent = assign-IsCoherent j b zeros true f.0 hj off gone dirty;
          holds = record { slot = hj; valid = ground arith; blkno = ground arith };
          written = λ d. assign-view j b zeros true f.0 hj off gone dirty d ∙ ground (arith, f.1 d);
          counts = λ k. unfold flush_block in ground arith;
          kept = λ k d held g. kept_flushed b c j hj free out _ _ k d held g;
        }

-- The outcomes of a request for a fresh block b of n.
pub data Renewed (n b : ℕ) (v : Cache) : Option ℕ × Cache → Type 0 where
  renewed : {i : ℕ} {w : Cache} → b < n → Zeroed v b i w → Renewed n b v (some i, w)
  out_of_range : n ≤ b → Renewed n b v (none, v)
  no_buffer : b < n → IsFull v b → Renewed n b v (none, v)

-- On a coherent cache `new_block` returns NULL and changes nothing if the block is out of range or
-- there is no buffer for it; else a buffer that it has one more reference to, through which the
-- block reads as zeros while every other block's current bytes and every held buffer's block number stay.
pub new_block-Renewed : {v : Cache} (n b : ℕ) → IsCoherent v → Renewed n b v (new_block n b v)
unfolding new_block
new_block-Renewed {v} n b c = elim (Bool-cases (leb n b)) [
  | inl big ↦ rw big (out_of_range (leb→le n b big))
  | inr small ↦ rw small (elim (Option-cases (find_block 30 0 b v)) [
    | inl e ↦
        let out =
          λ (i : ℕ) (hi : i < 30). find_block-none 30 0 b v i e (omega arith) (omega arith) in
        rw e (elim (Option-cases (find_free 30 v.last_alloc v)) [
          | inl f ↦ rw f (
              no_buffer (leb→lt n b small) (record {
                all_held = λ j. find_free-all_held v.last_alloc v j c.last f;
                absent = out;
              }))
          | inr (j, f) ↦
              let g = find_free-some 30 v.last_alloc v j c.last f in
              rw f (renewed (leb→lt n b small) (clear_block-Zeroed b c j g.0 g.1 out))
        ])
    | inr (i, e) ↦
        rw e (
          renewed (leb→lt n b small)
            (pin-Zeroed b c i (find_block-some 30 0 b v i (omega arith) e)))
  ])
]

pub new_block-Zeroed :
    {v : Cache} (n b : ℕ)
    → IsCoherent v
    → b < n
    → HasFree v
    → (i : ℕ) × (w : Cache) × (new_block n b v ≡ (some i, w)) × Zeroed v b i w
new_block-Zeroed {v} n b c h free = go (new_block n b v) refl (new_block-Renewed n b c)
  where
    go :
        (r : Option ℕ × Cache)
        → new_block n b v ≡ r
        → Renewed n b v r
        → (i : ℕ) × (w : Cache) × (new_block n b v ≡ (some i, w)) × Zeroed v b i w
    go (some i, w) e (renewed _ g) = (i, w, e, g)
    go (none, w) e (out_of_range k) = absurd (omega arith)
    go (none, w) e (no_buffer _ full) = absurd (full.all_held free.index free.slot free.unheld)
