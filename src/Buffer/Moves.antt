-- ===== src/Buffer/Moves.antt =====
-- The steps that the operations of the cache are made of, and what each does to the view.
use rsx.Base.{
  Block, Bool, Bool-cases, ap, arith, eq-cases, false, if◌then◌else◌, inl, inr, refl, sym, true, ℕ,
  ◌<◌, ◌==◌, ◌∙◌, ◌≡◌, ◌≢◌,
}
use rsx.Buffer.{Buffer, Cache, assign, flush_block, pin, release_block, write_bytes}
use rsx.Buffer.Find.{Holds}
use rsx.Buffer.View.{Holds-cases, IsCoherent, view, view-Holds, view-absent}

-- The view is not changed.
abbrev pub SameView : Cache → Cache → Type 0
SameView v w = (b : ℕ) → view w b ≡ view v b

abbrev pub Keeps : Cache → Cache → Type 0
Keeps v w = IsCoherent w × SameView v w

-- Two buffers are the same but for the access count.
record SameBuffer (a b : Buffer) : Type 0 where
  blkno : b.blkno ≡ a.blkno
  valid : b.valid ≡ a.valid
  modified : b.modified ≡ a.modified
  bytes : b.bytes ≡ a.bytes

module _ {v w : Cache} (c : IsCoherent v) (same : (i : ℕ) → SameBuffer (v.buffer i) (w.buffer i))
    (disk : w.disk ≡ v.disk) (last : w.last_alloc ≡ v.last_alloc)
    (bounded : (i : ℕ) → (w.buffer i).access_cnt < 256) where
  same-IsCoherent : IsCoherent w
  same-IsCoherent = record {
    distinct = λ i j hi hj vi vj e.
        c.distinct i j hi hj (sym (same i).valid ∙ vi) (sym (same j).valid ∙ vj)
          (sym (same i).blkno ∙ e ∙ (same j).blkno);
    clean = λ i hi vi mi.
        (same i).bytes
        ∙ c.clean i hi (sym (same i).valid ∙ vi) (sym (same i).modified ∙ mi)
        ∙ cc (same i).blkno;
    live = λ i hi mi. (same i).valid ∙ c.live i hi (sym (same i).modified ∙ mi);
    last = rw last c.last;
    bounded = bounded;
  }

  same-view : (b : ℕ) → view w b ≡ view v b
  same-view b = elim (Holds-cases v b) [
    | inl (i, h) ↦
        view-Holds b i same-IsCoherent (record {
          slot = h.slot;
          valid = (same i).valid ∙ h.valid;
          blkno = (same i).blkno ∙ h.blkno;
        })
        ∙ (same i).bytes
        ∙ sym (view-Holds b i c h)
    | inr out ↦
        view-absent w b (λ i hi vi e. out i hi (sym (same i).valid ∙ vi) (sym (same i).blkno ∙ e))
        ∙ ap (λ (d : ℕ → Block). d b) disk
        ∙ sym (view-absent v b out)
  ]

  same-Keeps : Keeps v w
  same-Keeps = (same-IsCoherent, same-view)

pub pin-Keeps : {v : Cache} (i : ℕ) → IsCoherent v → Keeps v (pin i v)
unfolding pin
pin-Keeps i c =
    same-Keeps c
      (λ j. record {
        blkno = ground arith;
        valid = ground arith;
        modified = ground arith;
        bytes = ground arith;
      })
      refl refl (λ j. ground (arith, c.bounded j))

pub release_block-Keeps : {v : Cache} (i : ℕ) → IsCoherent v → Keeps v (release_block i v)
unfolding release_block
release_block-Keeps i c =
    same-Keeps c
      (λ j. record {
        blkno = ground arith;
        valid = ground arith;
        modified = ground arith;
        bytes = ground arith;
      })
      refl refl (λ j. ground (arith, c.bounded j))

-- `flush_block` brings the disk up to date and leaves the view as it is.
module _ {v : Cache} (i : ℕ) (c : IsCoherent v) (hi : i < 30) where
  flush_block-IsCoherent : IsCoherent (flush_block i v)
  unfolding flush_block
  flush_block-IsCoherent = elim (Bool-cases (v.buffer i).modified) [
    | inr off ↦ rw off c
    | inl on ↦ rw on (record {
      distinct =
          λ a b ha hb va vb e. c.distinct a b ha hb (ground arith) (ground arith) (ground arith);
      clean = λ a ha va ma. elim (eq-cases i a) [
        | inl e ↦ ground arith
        | inr ne ↦
            let apart : (v.buffer i).blkno ≢ (v.buffer a).blkno =
              λ e. ne (c.distinct i a hi ha (c.live i hi on) (ground arith) e) in
            ground (arith, c.clean a ha)
      ];
      live = λ a ha ma. ground (arith, c.live a ha);
      last = c.last;
      bounded = λ a. ground (arith, c.bounded a);
    })
  ]

  flush_block-view : SameView v (flush_block i v)
  unfolding flush_block
  flush_block-view b = elim (Holds-cases v b) [
    | inl (k, h) ↦
        view-Holds b k flush_block-IsCoherent (record {
          slot = h.slot;
          valid = ground (arith, h.valid);
          blkno = ground (arith, h.blkno);
        })
        ∙ ground arith
        ∙ sym (view-Holds b k c h)
    | inr out ↦
        view-absent (flush_block i v) b (λ k hk vk e. out k hk (ground arith) (ground arith))
        ∙ ground (arith, out i hi, c.live i hi)
        ∙ sym (view-absent v b out)
  ]

  pub flush_block-Keeps : Keeps v (flush_block i v)
  flush_block-Keeps = (flush_block-IsCoherent, flush_block-view)

  pub flush_block-unmodified : ((flush_block i v).buffer i).modified ≡ false
  unfolding flush_block
  flush_block-unmodified = ground arith

-- A buffer that is not modified is given to a block that no buffer holds.
module _ {v : Cache} (j b : ℕ) (bytes : Block) (m : Bool) (c : IsCoherent v) (hj : j < 30)
    (old : (v.buffer j).modified ≡ false)
    (out : (i : ℕ) → i < 30 → (v.buffer i).valid ≡ true → (v.buffer i).blkno ≢ b)
    (clean : m ≡ false → bytes ≡ v.disk b) where
  pub assign-IsCoherent : IsCoherent (assign j b bytes m v)
  assign-IsCoherent = record {
    distinct = λ x y hx hy vx vy e. elim (eq-cases j x) [
      | inl ex ↦ elim (eq-cases j y) [
        | inl ey ↦ sym ex ∙ ey
        | inr ney ↦ absurd (out y hy (ground arith) (ground arith))
      ]
      | inr nex ↦ elim (eq-cases j y) [
        | inl ey ↦ absurd (out x hx (ground arith) (ground arith))
        | inr ney ↦ c.distinct x y hx hy (ground arith) (ground arith) (ground arith)
      ]
    ];
    clean = λ a ha va ma. ground (arith, clean, c.clean a ha);
    live = λ a ha ma. ground (arith, c.live a ha);
    last = hj;
    bounded = λ a. ground (arith, c.bounded a);
  }

  pub assign-view : (d : ℕ) → view (assign j b bytes m v) d ≡ (if d == b then bytes else view v d)
  assign-view d = elim (eq-cases d b) [
    | inl e ↦
        view-Holds d j assign-IsCoherent
          (record { slot = hj; valid = ground arith; blkno = ground arith })
        ∙ ground arith
    | inr ne ↦ elim (Holds-cases v d) [
      | inl (k, h) ↦ elim (eq-cases j k) [
        | inl e ↦
            view-absent (assign j b bytes m v) d (λ a ha va ea. elim (eq-cases j a) [
              | inl same ↦ ne (ground arith)
              | inr other ↦
                  other
                    (e ∙ c.distinct k a h.slot ha h.valid (ground arith) (h.blkno ∙ ground arith))
            ])
            ∙ ap v.disk (sym h.blkno)
            ∙ sym (c.clean k h.slot h.valid (ground arith))
            ∙ sym (view-Holds d k c h)
            ∙ ground arith
        | inr other ↦
            view-Holds d k assign-IsCoherent (record {
              slot = h.slot;
              valid = ground (arith, h.valid);
              blkno = ground (arith, h.blkno);
            })
            ∙ ground (arith, view-Holds d k c h)
      ]
      | inr gone ↦
          view-absent (assign j b bytes m v) d
            (λ a ha va ea. gone a ha (ground arith) (ground arith))
          ∙ ground (arith, view-absent v d gone)
    ]
  ]

-- A write into a buffer changes the block that it holds, and no other.
module _ {v : Cache} (i b : ℕ) (bytes : Block) (c : IsCoherent v) (h : Holds v b i) where
  pub write_bytes-IsCoherent : IsCoherent (write_bytes i bytes v)
  unfolding write_bytes
  write_bytes-IsCoherent = record {
    distinct =
        λ x y hx hy vx vy e. c.distinct x y hx hy (ground arith) (ground arith) (ground arith);
    clean = λ a ha va ma. ground (arith, c.clean a ha);
    live = λ a ha ma. ground (arith, c.live a ha, h.valid);
    last = c.last;
    bounded = λ a. ground (arith, c.bounded a);
  }

  pub write_bytes-view :
      (d : ℕ) → view (write_bytes i bytes v) d ≡ (if d == b then bytes else view v d)
  unfolding write_bytes
  write_bytes-view d = elim (Holds-cases v d) [
    | inl (k, g) ↦
        view-Holds d k write_bytes-IsCoherent (record {
          slot = g.slot;
          valid = ground (arith, g.valid);
          blkno = ground (arith, g.blkno);
        })
        ∙ elim (eq-cases i k) [
          | inl e ↦ ground (arith, g.blkno, h.blkno)
          | inr ne ↦
              let apart : d ≢ b = λ e.
                ne (c.distinct i k h.slot g.slot h.valid g.valid (h.blkno ∙ sym e ∙ sym g.blkno)) in
              ground (arith, view-Holds d k c g)
        ]
    | inr gone ↦
        let apart : d ≢ b = λ e. gone i h.slot h.valid (h.blkno ∙ sym e) in
        view-absent (write_bytes i bytes v) d
          (λ a ha va ea. gone a ha (ground arith) (ground arith))
        ∙ ground (arith, view-absent v d gone)
  ]
