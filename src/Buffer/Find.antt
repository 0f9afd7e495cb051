-- ===== src/Buffer/Find.antt =====
-- What the two searches of the cache find.
use rsx.Base.{
  ℕ, zero, suc, ◌+◌, ◌-◌, ◌%◌, ◌≤◌, ◌<◌, ◌≡◌, ◌≢◌, inl, inr, true, none, some, arith, eq-cases,
}
use rsx.Buffer.{Cache, find_block, find_free, next_slot}

-- Buffer i is one of the array's, and holds block b.
pub record Holds (v : Cache) (b i : ℕ) : Type 0 where
  pub slot : i < 30
  pub valid : (v.buffer i).valid ≡ true
  pub blkno : (v.buffer i).blkno ≡ b

pub find_block-some :
    (n i b : ℕ) (v : Cache) (j : ℕ) → n + i ≤ 30 → find_block n i b v ≡ some j → Holds v b j
unfolding find_block
find_block-some zero i b v j h e = ground arith
find_block-some (suc n) i b v j h e = ground (arith, find_block-some n (suc i) b v j)

pub find_block-none :
    (n i b : ℕ) (v : Cache) (j : ℕ)
    → find_block n i b v ≡ none
    → i ≤ j
    → j < n + i
    → (v.buffer j).valid ≡ true
    → (v.buffer j).blkno ≢ b
unfolding find_block
find_block-none zero i b v j e l u h = absurd (omega arith)
find_block-none (suc n) i b v j e l u h = elim (eq-cases i j) [
  | inl same ↦ ground arith
  | inr other ↦ ground (arith, find_block-none n (suc i) b v j)
]

pub find_free-some :
    (n k : ℕ) (v : Cache) (j : ℕ)
    → k < 30
    → find_free n k v ≡ some j
    → (j < 30) × ((v.buffer j).access_cnt ≡ 0)
unfolding find_free
find_free-some zero k v j h e = ground arith
find_free-some (suc n) k v j h e = ground (arith, find_free-some n (next_slot k) v j)

find_free-none :
    (n k : ℕ) (v : Cache) (t : ℕ)
    → k < 30
    → find_free n k v ≡ none
    → t < n
    → (v.buffer ((k + 1 + t) % 30)).access_cnt ≢ 0
unfolding find_free
find_free-none zero k v t hk e h = absurd (omega arith)
find_free-none (suc n) k v zero hk e h =
    let at : (k + 1 + 0) % 30 ≡ next_slot k = ground arith in rw at (ground arith)
find_free-none (suc n) k v (suc t) hk e h =
    let at : (k + 1 + suc t) % 30 ≡ (next_slot k + 1 + t) % 30 = ground arith in
    rw at (find_free-none n (next_slot k) v t (ground arith) (ground arith) (omega arith))

-- The search goes round the whole array: it fails only if every buffer is held.
pub find_free-all_held :
    (k : ℕ) (v : Cache) (j : ℕ)
    → k < 30
    → find_free 30 k v ≡ none
    → j < 30
    → (v.buffer j).access_cnt ≢ 0
find_free-all_held k v j hk e hj =
    let t : ℕ = (j + 29 - k) % 30 in
    let at : (k + 1 + t) % 30 ≡ j = omega arith in
    rw at at (find_free-none 30 k v t hk e (omega arith))
