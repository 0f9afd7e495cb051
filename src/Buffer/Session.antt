-- ===== src/Buffer/Session.antt =====
-- What a client sees of the cache from a fetch to the matching release.
use rsx.Base.{Block, arith, if◌then◌else◌, refl, some, ℕ, ◌<◌, ◌==◌, ◌∙◌, ◌≡◌, ◌≢◌}
use rsx.Buffer.{Cache, get_block, new_block, release_block, with_block, with_new_block, write_bytes}
use rsx.Buffer.Find.{Holds}
use rsx.Buffer.Get.{Got, HasFree, count, get_block-Got}
use rsx.Buffer.Moves.{SameView, release_block-Keeps, write_bytes-IsCoherent, write_bytes-view}
use rsx.Buffer.New.{Zeroed, new_block-Zeroed}
use rsx.Buffer.View.{IsCoherent, view}

-- The cache is coherent, every buffer is held as often as before, and a held one keeps its block.
pub record Settled (v w : Cache) : Type 0 where
  pub coherent : IsCoherent w
  pub counts : (j : ℕ) → count w j ≡ count v j
  pub kept : (j d : ℕ) → count v j ≢ 0 → Holds v d j → Holds w d j

-- And no block has changed.
pub record Quiet (v w : Cache) : Type 0 where
  pub settled : Settled v w
  pub same : SameView v w

pub Settled-refl : (v : Cache) → IsCoherent v → Settled v v
Settled-refl v c = record { coherent = c; counts = λ j. refl; kept = λ j d held h. h }

pub Settled-trans : {u v w : Cache} → Settled u v → Settled v w → Settled u w
Settled-trans p q = record {
  coherent = q.coherent;
  counts = λ j. q.counts j ∙ p.counts j;
  kept = λ j d held h. q.kept j d (rw (p.counts j) held) (p.kept j d held h);
}

pub Quiet-refl : (v : Cache) → IsCoherent v → Quiet v v
Quiet-refl v c = record { settled = Settled-refl v c; same = λ b. refl }

pub Quiet-trans : {u v w : Cache} → Quiet u v → Quiet v w → Quiet u w
Quiet-trans p q = record {
  settled = Settled-trans p.settled q.settled;
  same = λ b. q.same b ∙ p.same b;
}

pub HasFree-Settled : {v w : Cache} → HasFree v → Settled v w → HasFree w
HasFree-Settled h s = record {
  index = h.index;
  slot = h.slot;
  unheld = s.counts h.index ∙ h.unheld;
}

Holds-same :
    {v w : Cache} {d j : ℕ}
    → (w.buffer j).valid ≡ (v.buffer j).valid
    → (w.buffer j).blkno ≡ (v.buffer j).blkno
    → Holds v d j
    → Holds w d j
Holds-same e f h = record { slot = h.slot; valid = e ∙ h.valid; blkno = f ∙ h.blkno }

pub release-Got : {v w : Cache} {b i : ℕ} → IsCoherent v → Got v b i w → Quiet v (release_block i w)
unfolding release_block
release-Got {i} c g = record {
  settled = record {
    coherent = (release_block-Keeps i g.coherent).0;
    counts = λ j. ground (arith, g.counts j, c.bounded j);
    kept = λ j d held h. Holds-same (ground arith) (ground arith) (g.kept j d held h);
  };
  same = λ d. (release_block-Keeps i g.coherent).1 d ∙ g.same d;
}

-- A fetch after a quiet stretch is a fetch from its start.
pub Got-Quiet : {u v w : Cache} {b i : ℕ} → Quiet u v → Got v b i w → Got u b i w
Got-Quiet q g = record {
  coherent = g.coherent;
  holds = g.holds;
  same = λ d. g.same d ∙ q.same d;
  counts = λ j. ground (arith, g.counts j, q.settled.counts j);
  kept = λ j d held h. g.kept j d (rw (q.settled.counts j) held) (q.settled.kept j d held h);
}

-- Of the block b the client has written the bytes p; all others are as they were.
abbrev pub Written : Cache → ℕ → Block → Cache → Type 0
Written v b p w = (d : ℕ) → view w d ≡ (if d == b then p else view v d)

-- Writing into the fetched buffer any number of times counts as one write of the last bytes.
pub write-Got :
    {v w : Cache} {b i : ℕ} (p : Block)
    → Got v b i w
    → IsCoherent (write_bytes i p w)
      × Holds (write_bytes i p w) b i
      × Written v b p (write_bytes i p w)
      × ((j : ℕ) → count (write_bytes i p w) j ≡ count w j)
      × ((j d : ℕ) → Holds w d j → Holds (write_bytes i p w) d j)
unfolding write_bytes
write-Got {w} {b} {i} p g = (
  write_bytes-IsCoherent i b p g.coherent g.holds,
  Holds-same (ground arith) (ground arith) g.holds,
  (λ d. write_bytes-view i b p g.coherent g.holds d ∙ ground (arith, g.same d)),
  (λ j. ground arith),
  (λ j d h. Holds-same (ground arith) (ground arith) h),
)

pub write-release :
    {v w : Cache} {b i : ℕ} (p : Block)
    → IsCoherent v
    → Got v b i w
    → Settled v (release_block i (write_bytes i p w))
      × Written v b p (release_block i (write_bytes i p w))
unfolding release_block write_bytes
write-release {w} {b} {i} p c g =
    let k = write_bytes-IsCoherent i b p g.coherent g.holds in
    let r = release_block-Keeps i k in
    (
      record {
        coherent = r.0;
        counts = λ j. ground (arith, g.counts j, c.bounded j);
        kept = λ j d held h. Holds-same (ground arith) (ground arith) (g.kept j d held h);
      },
      λ d. r.1 d ∙ write_bytes-view i b p g.coherent g.holds d ∙ ground (arith, g.same d),
    )

-- The rule for code behind a fetch: with a block in range and a buffer to spare it goes on with a
-- buffer.
module _ {ℓ κ} {R : Type ℓ} (P : R → Type κ) (n b : ℕ) {v : Cache} (null_case : Cache → R)
    (then_case : ℕ → Cache → R) (c : IsCoherent v) (h : b < n) (free : HasFree v) where
  pub with_block-rule :
      ((i : ℕ) (w : Cache) → Got v b i w → P (then_case i w))
      → P (with_block n b v null_case then_case)
  unfolding with_block
  with_block-rule f = let (i, w, e, g) = get_block-Got n b c h free in go i w e (f i w g)
    where
      go :
          (i : ℕ) (w : Cache)
          → get_block n b v ≡ (some i, w)
          → P (then_case i w)
          → P (with_block n b v null_case then_case)
      go i w e p = rw (e, with_block) (rw e p)

  pub with_new_block-rule :
      ((i : ℕ) (w : Cache) → Zeroed v b i w → P (then_case i w))
      → P (with_new_block n b v null_case then_case)
  unfolding with_new_block
  with_new_block-rule f = let (i, w, e, g) = new_block-Zeroed n b c h free in go i w e (f i w g)
    where
      go :
          (i : ℕ) (w : Cache)
          → new_block n b v ≡ (some i, w)
          → P (then_case i w)
          → P (with_new_block n b v null_case then_case)
      go i w e p = rw (e, with_new_block) (rw e p)
