-- ===== src/Vmr/Pool/Merge.antt =====
-- The merge of a freed block with the next one, in `pool_free` of vmr.c.
use rsx.Base.{
  ==_refl, List, [], arith, eq-cases, get-set_int16, get_int16, inl, inr, ne→==, refl, set_int16, ℕ,
  ◌%◌, ◌+◌, ◌-◌, ◌<◌, ◌∙◌, ◌∷◌, ◌≡◌, ◌≤◌, ◌⊎◌,
}
use rsx.Vmr.{Image}
use rsx.Vmr.Pool.{merge_next}
use rsx.Vmr.Pool.Chain.{
  IsChain, IsChain-same, Piece, cell-lt, get-set_int16_away, is_free, sizes, sys_getw-zero,
  sys_putw-zero,
}

-- A block at x, its header in memory and the chain behind it.
pub record Heads (m : Image) (x t : ℕ) (r : List Piece) : Type 0 where
  pub size : get_int16 m (x + 2) ≡ t
  pub least : 4 ≤ t
  pub four : t % 4 ≡ 0
  pub high : x + t < 65536
  pub chain : IsChain m x (x + t) r

-- What is left when a block has been merged: the same bytes are free.
pub record Regrouped (m : Image) (x t : ℕ) (r : List Piece) (w : Image) : Type 0 where
  pub size : ℕ
  pub rest : List Piece
  pub heads : Heads w x size rest
  pub free : (y : ℕ) → is_free ((x, size) ∷ rest) y ≡ is_free ((x, t) ∷ r) y
  pub count : sizes ((x, size) ∷ rest) ≡ sizes ((x, t) ∷ r)
  pub frame : (y : ℕ) → (y < x) ⊎ (x + 3 < y) → w y ≡ m y

module _ (m : Image) (x t : ℕ) (least : 4 ≤ t) (four : t % 4 ≡ 0) (high : x + t < 65536)
    (size : get_int16 m (x + 2) ≡ t) (pos : 0 < x) where
  same-Regrouped : (r : List Piece) → IsChain m x (x + t) r → Regrouped m x t r m
  same-Regrouped r c = record {
    size = t;
    rest = r;
    heads = record { size = size; least = least; four = four; high = high; chain = c };
    free = λ y. refl;
    count = refl;
    frame = λ y h. refl;
  }

  -- The block can be next to the head of the chain.
  pub merge_next-Regrouped :
      (r : List Piece)
      → IsChain m x (x + t - 1) r
      → Regrouped m x t r (merge_next x t (get_int16 m x) m)
  unfolding merge_next
  merge_next-Regrouped [] c = rw (c, ne→== (x + t) 0 (λ e. omega arith)) (same-Regrouped [] c)
  merge_next-Regrouped ((c, j) ∷ r) h = rw (h.0) (elim (eq-cases (x + t) c) [
    | inr far ↦
        rw (ne→== (x + t) c far)
          (same-Regrouped ((c, j) ∷ r) (h.0, h.1, omega arith, h.3, h.4, h.5, h.6))
    | inl near ↦
        let m2 = set_int16 (set_int16 m x (get_int16 m c)) (x + 2) (t + j) in
        let bound = cell-lt m c (c + j) r h.6 in
        let wrap1 : (c + 2) % 65536 ≡ c + 2 = omega arith in
        let wrap2 : (x + 2) % 65536 ≡ x + 2 = omega arith in
        let wrap3 : (t + j) % 65536 ≡ t + j = omega arith in
        let link = get_int16 m c in
        let m1 = set_int16 m x link in
        rw
          (
            near,
            ==_refl c,
            wrap1,
            wrap2,
            sys_getw-zero (c + 2) m,
            h.1,
            wrap3,
            sys_getw-zero c m,
            sys_putw-zero x link m,
            sys_putw-zero (x + 2) (t + j) m1,
          )
          (record {
            size = t + j;
            rest = r;
            heads = record {
              size = get-set_int16 m1 (x + 2) (t + j) (omega arith);
              least = omega arith;
              four = omega arith;
              high = omega arith;
              chain =
                  IsChain-same m m2 c x (c + j) (x + (t + j)) r
                    (get-set_int16_away m1 (x + 2) x (t + j) (inl (omega arith))
                      ∙ get-set_int16 m x link bound)
                    (λ y above. ground arith) (omega arith) h.6;
            };
            free = λ y. ground arith;
            count = omega arith;
            frame = λ y away. ground (arith, away);
          })
  ])
