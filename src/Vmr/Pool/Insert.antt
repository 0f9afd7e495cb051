-- ===== src/Vmr/Pool/Insert.antt =====
-- Where `pool_free` of vmr.c puts a block behind another free block, and what it merges.
use rsx.Base.{
  ==_refl, List, arith, eq-cases, false, get-set_int16, get_int16, inl, inr, ne→==, refl, set_int16,
  subst, true, ℕ, ◌%◌, ◌+◌, ◌-◌, ◌<◌, ◌==◌, ◌||◌, ◌∙◌, ◌∷◌, ◌≡◌, ◌≢◌, ◌≤◌, ◌⊎◌,
}
use rsx.Vmr.{Image}
use rsx.Vmr.Pool.{link_block, merge, merge_next}
use rsx.Vmr.Pool.Chain.{
  IsChain, IsChain-raise, IsChain-same, Piece, cell-lt, get-set_int16_away, in_piece, is_free,
  is_free-behind, outside, set_int16-ne, sizes, sys_getw-zero, sys_putw-zero,
}
use rsx.Vmr.Pool.Merge.{Heads, merge_next-Regrouped}

-- The block (a, n) has been put behind the free block at b.
pub record Inserted (m : Image) (b k : ℕ) (r : List Piece) (a n : ℕ) (w : Image) : Type 0 where
  pub size : ℕ
  pub rest : List Piece
  pub heads : Heads w b size rest
  pub free : (y : ℕ) → is_free ((b, size) ∷ rest) y ≡ (is_free ((b, k) ∷ r) y || in_piece a n y)
  pub count : sizes ((b, size) ∷ rest) ≡ sizes ((b, k) ∷ r) + n
  pub frame : (y : ℕ) → is_free ((b, k) ∷ r) y ≡ false → in_piece a n y ≡ false → w y ≡ m y

-- The memory after the three stores.
abbrev pub linked : (p q a n : ℕ) → Image → Image
linked p q a n m = set_int16 (set_int16 (set_int16 m p a) a q) (a + 2) n

pub link_block_lem :
    (p q a n : ℕ) (m : Image) → a + 2 < 65536 → link_block p q a n m ≡ linked p q a n m
unfolding link_block
link_block_lem p q a n m h =
    let wrap : (a + 2) % 65536 ≡ a + 2 = omega arith in
    rw
      (
        wrap,
        sys_putw-zero p a m,
        sys_putw-zero a q (set_int16 m p a),
        sys_putw-zero (a + 2) n (set_int16 (set_int16 m p a) a q),
      )
      refl

module _ (m : Image) (p q a n : ℕ) (below : p + 1 < a) where
  pub linked-at : q < 65536 → get_int16 (linked p q a n m) a ≡ q
  linked-at h =
      get-set_int16_away (set_int16 (set_int16 m p a) a q) (a + 2) a n (inl (omega arith))
      ∙ get-set_int16 (set_int16 m p a) a q h

  pub linked-size : n < 65536 → get_int16 (linked p q a n m) (a + 2) ≡ n
  linked-size h = get-set_int16 (set_int16 (set_int16 m p a) a q) (a + 2) n h

  pub linked-cell : a < 65536 → get_int16 (linked p q a n m) p ≡ a
  linked-cell h =
      get-set_int16_away (set_int16 (set_int16 m p a) a q) (a + 2) p n (inl (omega arith))
      ∙ get-set_int16_away (set_int16 m p a) a p q (inl (omega arith))
      ∙ get-set_int16 m p a h

  pub linked-away : (y : ℕ) → y ≢ p → y ≢ p + 1 → (y < a) ⊎ (a + 3 < y) → linked p q a n m y ≡ m y
  linked-away y e1 e2 h = ground (arith, h)

-- The place behind the block at b, whose next block or zero is q.
module _ (m : Image) (b k : ℕ) (r : List Piece) (a n root : ℕ) (heads : Heads m b k r)
    (after : b + k ≤ a) (least : 4 ≤ n) (four : n % 4 ≡ 0) (high : a + n < 65536)
    (room : 0 < get_int16 m b → a + n ≤ get_int16 m b) (pos : root < b) where
  abbrev q : ℕ
  q = get_int16 m b

  abbrev m1 : Image
  m1 = linked b q a n m

  bound : q < 65536
  bound = cell-lt m b (b + k) r heads.chain

  raised : IsChain m b (a + n - 1) r
  raised = IsChain-raise m b (b + k) (a + n - 1) r (λ h. omega (arith, room h)) heads.chain

  -- Behind the new block nothing is free up to its end.
  none_inside : (y : ℕ) → in_piece a n y ≡ true → is_free r y ≡ false
  none_inside y at = is_free-behind m b (a + n - 1) r y raised (ground (arith, at))

  kept : get_int16 m1 (b + 2) ≡ k
  kept =
      rw
        (
          linked-away m b q a n (omega (arith, heads.least)) (b + 2) (λ z. omega arith)
              (λ z. omega arith) (inl (omega (arith, heads.least))),
          linked-away m b q a n (omega (arith, heads.least)) (b + 2 + 1) (λ z. omega arith)
              (λ z. omega arith) (inl (omega (arith, heads.least))),
        )
        heads.size

  -- It does not touch the block before.
  apart : b + k ≢ a → Inserted m b k r a n (merge_next a n q m1)
  apart ne =
      let chain : IsChain m1 a (a + n - 1) r =
        IsChain-same m m1 b a (a + n - 1) (a + n - 1) r
          (linked-at m b q a n (omega (arith, heads.least)) bound)
          (λ y h.
            linked-away m b q a n (omega (arith, heads.least)) y (λ z. omega (arith, heads.least))
              (λ z. omega (arith, heads.least)) (inr (omega arith)))
          (omega arith) raised in
      let g =
        merge_next-Regrouped m1 a n least four high
          (linked-size m b q a n (omega (arith, heads.least)) (omega arith)) (omega arith) r
          chain in
      let w = merge_next a n (get_int16 m1 a) m1 in
      let cell : get_int16 m1 a ≡ q = linked-at m b q a n (omega (arith, heads.least)) bound in
      let old : (y : ℕ) → y < a → w y ≡ m1 y = λ y h. g.frame y (inl h) in
      subst (λ c. Inserted m b k r a n (merge_next a n c m1)) cell
        (record {
          size = k;
          rest = (a, g.size) ∷ g.rest;
          heads = record {
            size =
                rw
                  (
                    old (b + 2) (omega (arith, heads.least)),
                    old (b + 2 + 1) (omega (arith, heads.least)),
                  )
                  kept;
            least = heads.least;
            four = heads.four;
            high = heads.high;
            chain = (
              rw (old b (omega (arith, heads.least)), old (b + 1) (omega (arith, heads.least)))
                  (linked-cell m b q a n (omega (arith, heads.least)) (omega arith)),
              g.heads.size,
              ground (arith, after, ne),
              g.heads.least,
              g.heads.four,
              g.heads.high,
              g.heads.chain,
            );
          };
          free = λ y. rw (g.free y) (ground arith);
          count = omega (arith, g.count);
          frame = λ y f at.
              let side = outside b k y heads.least (ground (arith, f)) in
              let far = outside a n y least at in
              g.frame y far
              ∙ linked-away m b q a n (omega (arith, heads.least)) y (λ z. ground (arith, side))
                  (λ z. ground (arith, side)) far;
        })

  -- It does, and the two become one.
  joined :
      b + k ≡ a
      → Inserted m b k r a n (merge_next b (n + k) q (set_int16 (set_int16 m1 b q) (b + 2) (n + k)))
  joined e =
      let m2 = set_int16 (set_int16 m1 b q) (b + 2) (n + k) in
      let cell : get_int16 m2 b ≡ q =
        get-set_int16_away (set_int16 m1 b q) (b + 2) b (n + k) (inl (omega arith))
        ∙ get-set_int16 m1 b q bound in
      let chain : IsChain m2 b (b + (n + k) - 1) r =
        IsChain-same m m2 b b (a + n - 1) (b + (n + k) - 1) r cell
          (λ y h.
            set_int16-ne (set_int16 m1 b q) (b + 2) (n + k) y (λ z. omega arith) (λ z. omega arith)
            ∙ set_int16-ne m1 b q y (λ z. omega arith) (λ z. omega arith)
            ∙ linked-away m b q a n (omega (arith, heads.least)) y (λ z. omega arith)
                (λ z. omega arith) (inr (omega arith)))
          (omega arith) raised in
      let g =
        merge_next-Regrouped m2 b (n + k) (omega arith) (omega (arith, heads.four)) (omega arith)
          (get-set_int16 (set_int16 m1 b q) (b + 2) (n + k) (omega arith)) (omega arith) r chain in
      subst (λ c. Inserted m b k r a n (merge_next b (n + k) c m2)) cell
        (record {
          size = g.size;
          rest = g.rest;
          heads = g.heads;
          free = λ y. g.free y ∙ ground (arith, e);
          count = omega (arith, g.count);
          frame = λ y f at.
              let side = outside b k y heads.least (ground (arith, f)) in
              let far = outside a n y least at in
              g.frame y side
              ∙ set_int16-ne (set_int16 m1 b q) (b + 2) (n + k) y (λ z. ground (arith, side))
                  (λ z. ground (arith, side))
              ∙ set_int16-ne m1 b q y (λ z. ground (arith, side)) (λ z. ground (arith, side))
              ∙ linked-away m b q a n (omega (arith, heads.least)) y (λ z. ground (arith, side))
                  (λ z. ground (arith, side)) far;
        })

  pub merge-Inserted : Inserted m b k r a n (merge root b q a n (link_block b q a n m))
  unfolding merge
  merge-Inserted =
      let test : (b == root) ≡ false = ne→== b root (λ e. omega arith) in
      let wrap1 : (b + 2) % 65536 ≡ b + 2 = omega (arith, heads.least) in
      rw (link_block_lem b q a n m (omega arith), test, wrap1, sys_getw-zero (b + 2) m1, kept)
        (elim (eq-cases (b + k) a) [
          | inl e ↦
              let wrap2 : (n + k) % 65536 ≡ n + k = omega arith in
              rw
                (
                  e,
                  ==_refl a,
                  wrap2,
                  sys_putw-zero b q m1,
                  sys_putw-zero (b + 2) (n + k) (set_int16 m1 b q),
                )
                (joined e)
          | inr ne ↦ rw (ne→== (b + k) a ne) (apart ne)
        ])
