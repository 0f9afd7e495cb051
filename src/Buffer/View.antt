-- ===== src/Buffer/View.antt =====
-- What the cache stands for: one sector for each block number, whether it is in a buffer or not.
use rsx.Base.{
  Block, Option-cases, arith, false, inl, inr, none, some, sym, true, ℕ, ◌<◌, ◌∙◌, ◌≡◌, ◌≢◌, ◌⊎◌,
}
use rsx.Buffer.{Cache, find_block, nbuffers}
use rsx.Buffer.Find.{Holds, find_block-none, find_block-some}

pub record IsCoherent (v : Cache) : Type 0 where
  pub distinct :
      (i j : ℕ)
      → i < 30
      → j < 30
      → (v.buffer i).valid ≡ true
      → (v.buffer j).valid ≡ true
      → (v.buffer i).blkno ≡ (v.buffer j).blkno
      → i ≡ j
  -- what is not modified is as on disk
  pub clean :
      (i : ℕ)
      → i < 30
      → (v.buffer i).valid ≡ true
      → (v.buffer i).modified ≡ false
      → (v.buffer i).bytes ≡ v.disk (v.buffer i).blkno
  -- only a valid buffer is ever written back
  pub live : (i : ℕ) → i < 30 → (v.buffer i).modified ≡ true → (v.buffer i).valid ≡ true
  pub last : v.last_alloc < 30
  pub bounded : (i : ℕ) → (v.buffer i).access_cnt < 256

-- The current bytes of a block.
unfoldable pub view : Cache → ℕ → Block
view v b = elim (find_block nbuffers 0 b v) [ none ↦ v.disk b | some i ↦ (v.buffer i).bytes ]

pub view-Holds : {v : Cache} (b i : ℕ) → IsCoherent v → Holds v b i → view v b ≡ (v.buffer i).bytes
unfolding view
view-Holds {v} b i c h = elim (Option-cases (find_block 30 0 b v)) [
  | inl e ↦ absurd (find_block-none 30 0 b v i e (omega arith) (h.slot) h.valid h.blkno)
  | inr (j, e) ↦
      let k = find_block-some 30 0 b v j (omega arith) e in
      let same : j ≡ i = c.distinct j i k.slot h.slot k.valid h.valid (k.blkno ∙ sym h.blkno) in
      rw (view, e, same)
]

pub view-absent :
    (v : Cache) (b : ℕ)
    → ((i : ℕ) → i < 30 → (v.buffer i).valid ≡ true → (v.buffer i).blkno ≢ b)
    → view v b ≡ v.disk b
unfolding view
view-absent v b out = elim (Option-cases (find_block 30 0 b v)) [
  | inl e ↦ rw (view, e)
  | inr (j, e) ↦
      let k = find_block-some 30 0 b v j (omega arith) e in absurd (out j k.slot k.valid k.blkno)
]

-- Every block is either held by a buffer or by none.
pub Holds-cases :
    (v : Cache) (b : ℕ)
    → ((i : ℕ) × Holds v b i)
      ⊎ ((i : ℕ) → i < 30 → (v.buffer i).valid ≡ true → (v.buffer i).blkno ≢ b)
Holds-cases v b = elim (Option-cases (find_block 30 0 b v)) [
  | inl e ↦ inr (λ i h. find_block-none 30 0 b v i e (omega arith) (omega arith))
  | inr (j, e) ↦ inl (j, find_block-some 30 0 b v j (omega arith) e)
]
