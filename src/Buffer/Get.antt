-- ===== src/Buffer/Get.antt =====
-- `get_block`: the buffer it returns, and that the cache stays transparent.
use rsx.Base.{
  Block, Bool, Bool-cases, Option, Option-cases, arith, eq-cases, false, if◌then◌else◌, inl, inr,
  leb, leb→le, leb→lt, none, refl, some, sym, true, ℕ, ◌%◌, ◌+◌, ◌<◌, ◌==◌, ◌∙◌, ◌≡◌, ◌≢◌, ◌≤◌,
}
use rsx.Buffer.{
  Cache, assign, bytes_of, find_block, find_free, flush_block, get_block, load_block, pin,
}
use rsx.Buffer.Find.{Holds, find_block-none, find_block-some, find_free-all_held, find_free-some}
use rsx.Buffer.Moves.{
  SameView, assign-IsCoherent, assign-view, flush_block-Keeps, flush_block-unmodified, pin-Keeps,
}
use rsx.Buffer.View.{IsCoherent, view, view-Holds, view-absent}

abbrev pub count : Cache → ℕ → ℕ
count v j = (v.buffer j).access_cnt

-- From v to w the block b got one more reference, to the buffer i, and nothing else can be seen.
pub record Got (v : Cache) (b i : ℕ) (w : Cache) : Type 0 where
  pub coherent : IsCoherent w
  pub holds : Holds w b i
  pub same : SameView v w
  pub counts : (j : ℕ) → count w j ≡ (if j == i then (count v j + 1) % 256 else count v j)
  -- a buffer that somebody holds keeps its block
  pub kept : (j d : ℕ) → count v j ≢ 0 → Holds v d j → Holds w d j

-- Some buffer is held by nobody.
pub record HasFree (v : Cache) : Type 0 where
  pub index : ℕ
  pub slot : index < 30
  pub unheld : count v index ≡ 0

module _ {v : Cache} (b : ℕ) (c : IsCoherent v) where
  pin-Got : (i : ℕ) → Holds v b i → Got v b i (pin i v)
  unfolding pin
  pin-Got i h = record {
    coherent = (pin-Keeps i c).0;
    holds = record {
      slot = h.slot;
      valid = ground (arith, h.valid);
      blkno = ground (arith, h.blkno);
    };
    same = (pin-Keeps i c).1;
    counts = λ j. ground arith;
    kept = λ j d held g. record {
      slot = g.slot;
      valid = ground (arith, g.valid);
      blkno = ground (arith, g.blkno);
    };
  }

  module _ (j : ℕ) (hj : j < 30) (free : count v j ≡ 0)
      (out : (i : ℕ) → i < 30 → (v.buffer i).valid ≡ true → (v.buffer i).blkno ≢ b) where
    pub out_flushed :
        (i : ℕ)
        → i < 30
        → ((flush_block j v).buffer i).valid ≡ true
        → ((flush_block j v).buffer i).blkno ≢ b
    unfolding flush_block
    out_flushed i hi vi e = out i hi (ground arith) (ground arith)

    -- a held buffer is another one
    pub kept_flushed :
        (bytes : Block) (m : Bool) (k d : ℕ)
        → count v k ≢ 0
        → Holds v d k
        → Holds (assign j b bytes m (flush_block j v)) d k
    unfolding flush_block
    kept_flushed bytes m k d held g = record {
      slot = g.slot;
      valid = ground (arith, g.valid);
      blkno = ground (arith, g.blkno);
    }

    load_block-Got : Got v b j (load_block j b v)
    unfolding load_block
    load_block-Got =
        let f = flush_block-Keeps j c hj in
        let off = flush_block-unmodified j c hj in
        let new =
          assign-view j b ((flush_block j v).disk b) false f.0 hj off out_flushed (λ e. refl) in
        record {
          coherent =
              assign-IsCoherent j b ((flush_block j v).disk b) false f.0 hj off out_flushed
                (λ e. refl);
          holds = record { slot = hj; valid = ground arith; blkno = ground arith };
          same = λ d. new d ∙ elim (eq-cases d b) [
            | inl e ↦ ground (arith, view-absent (flush_block j v) b out_flushed, f.1 b)
            | inr ne ↦ ground (arith, f.1 d)
          ];
          counts = λ k. unfold flush_block in ground arith;
          kept = λ k d held g. kept_flushed _ _ k d held g;
        }

-- Every buffer is held by somebody, and none of them holds block b.
pub record IsFull (v : Cache) (b : ℕ) : Type 0 where
  pub all_held : (j : ℕ) → j < 30 → count v j ≢ 0
  pub absent : (i : ℕ) → i < 30 → (v.buffer i).valid ≡ true → (v.buffer i).blkno ≢ b

-- The outcomes of a request for block b of n: a buffer, or NULL with the cache as it was.
pub data Fetched (n b : ℕ) (v : Cache) : Option ℕ × Cache → Type 0 where
  fetched : {i : ℕ} {w : Cache} → b < n → Got v b i w → Fetched n b v (some i, w)
  out_of_range : n ≤ b → Fetched n b v (none, v)
  no_buffer : b < n → IsFull v b → Fetched n b v (none, v)

-- On a coherent cache a request for block `b` of `n` has one of three outcomes: the number is out
-- of range, or every buffer is held and none has the block, and then NULL is returned and nothing
-- changes; or a buffer with the current bytes of the block is returned, held once more than before,
-- and no block's current bytes and no other held buffer change.
pub get_block-Fetched : {v : Cache} (n b : ℕ) → IsCoherent v → Fetched n b v (get_block n b v)
unfolding get_block
get_block-Fetched {v} n b c = elim (Bool-cases (leb n b)) [
  | inl big ↦ rw big (out_of_range (leb→le n b big))
  | inr small ↦ rw small (elim (Option-cases (find_block 30 0 b v)) [
    | inl e ↦
        let out =
          λ (i : ℕ) (hi : i < 30). find_block-none 30 0 b v i e (omega arith) (omega arith) in
        rw e (elim (Option-cases (find_free 30 v.last_alloc v)) [
          | inl f ↦ rw f (
              no_buffer (leb→lt n b small) (record {
                all_held = λ j. find_free-all_held v.last_alloc v j c.last f;
                absent = out;
              }))
          | inr (j, f) ↦
              let g = find_free-some 30 v.last_alloc v j c.last f in
              rw f (fetched (leb→lt n b small) (load_block-Got b c j g.0 g.1 out))
        ])
    | inr (i, e) ↦
        rw e
          (fetched (leb→lt n b small) (pin-Got b c i (find_block-some 30 0 b v i (omega arith) e)))
  ])
]

-- With a buffer that nobody holds, a block in range is fetched.
pub get_block-Got :
    {v : Cache} (n b : ℕ)
    → IsCoherent v
    → b < n
    → HasFree v
    → (i : ℕ) × (w : Cache) × (get_block n b v ≡ (some i, w)) × Got v b i w
get_block-Got {v} n b c h free = go (get_block n b v) refl (get_block-Fetched n b c)
  where
    go :
        (r : Option ℕ × Cache)
        → get_block n b v ≡ r
        → Fetched n b v r
        → (i : ℕ) × (w : Cache) × (get_block n b v ≡ (some i, w)) × Got v b i w
    go (some i, w) e (fetched _ g) = (i, w, e, g)
    go (none, w) e (out_of_range k) = absurd (omega arith)
    go (none, w) e (no_buffer _ full) = absurd (full.all_held free.index free.slot free.unheld)

-- The bytes in the fetched buffer.
pub bytes-Got : {v w : Cache} {b i : ℕ} → Got v b i w → bytes_of i w ≡ view v b
bytes-Got {b} {i} g = sym (view-Holds b i g.coherent g.holds) ∙ g.same b
