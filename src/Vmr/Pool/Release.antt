-- ===== src/Vmr/Pool/Release.antt =====
-- What `pool_free` of vmr.c does to the chain of free blocks.
use rsx.Base.{
  Bool-cases, List, Option, [], arith, false, get_int16, inl, inr, ltb, ltb→ge, ltb→lt, none, refl,
  some, suc, true, zero, ℕ, ◌%◌, ◌+◌, ◌<◌, ◌==◌, ◌||◌, ◌∷◌, ◌≡◌, ◌≤◌, ◌⊎◌,
}
use rsx.Vmr.{Image}
use rsx.Vmr.Pool.{find_place, link_block, merge}
use rsx.Vmr.Pool.Chain.{IsChain, Piece, in_piece, is_free, is_free-behind, sys_getw-zero}
use rsx.Vmr.Pool.Insert.{Inserted, merge-Inserted}
use rsx.Vmr.Pool.Merge.{Heads}

-- The walk has come to a cell, and the block is put in at the place that it finds.
abbrev pub put_in : (root a n : ℕ) → Option (ℕ × ℕ) → Image → Option Image
put_in root a n none m = none
put_in root a n (some place) m =
    some (merge root place.0 place.1 a n (link_block place.0 place.1 a n m))

-- The walk ends with the block behind the block at b.
pub data Placed (m : Image) (b k : ℕ) (r : List Piece) (a n : ℕ) : Option Image → Type 0 where
  placed : {w : Image} → Inserted m b k r a n w → Placed m b k r a n (some w)

-- A walk that goes one block further.
further :
    (m : Image) (b k c j : ℕ) (r : List Piece) (a n : ℕ) {x : Option Image}
    → Heads m b k ((c, j) ∷ r)
    → c ≤ a
    → Placed m c j r a n x
    → Placed m b k ((c, j) ∷ r) a n x
further m b k c j r a n h le (placed {w} i) =
    let kept : (y : ℕ) → y ≤ b + k → w y ≡ m y = λ y less.
      i.frame y (is_free-behind m b (b + k) ((c, j) ∷ r) y h.chain less)
        (let far = h.chain.2 in ground arith) in
    placed (record {
      size = k;
      rest = (c, i.size) ∷ i.rest;
      heads = record {
        size =
            rw (kept (b + 2) (omega (arith, h.least)), kept (b + 2 + 1) (omega (arith, h.least)))
              h.size;
        least = h.least;
        four = h.four;
        high = h.high;
        chain = (
          rw (kept b (omega (arith, h.least)), kept (b + 1) (omega (arith, h.least))) h.chain.0,
          i.heads.size,
          h.chain.2,
          i.heads.least,
          i.heads.four,
          i.heads.high,
          i.heads.chain,
        );
      };
      free = λ y. rw (i.free y) (ground arith);
      count = omega (arith, i.count);
      frame = λ y f at. i.frame y (ground (arith, f)) at;
    })

-- The walk stops at the end of the chain and before a block further up.
pub find_place-stop :
    (fuel a p q : ℕ) (m : Image)
    → get_int16 m p ≡ q
    → (q ≡ 0) ⊎ (a < q)
    → find_place (suc fuel) a p m ≡ some (p, q)
unfolding find_place
find_place-stop fuel a p q m e h =
    let test : ((q == 0) || ltb a q) ≡ true = ground (arith, h) in
    rw (find_place, sys_getw-zero p m, e, test, sys_getw-zero p m, e) refl

pub find_place-go :
    (fuel a p q : ℕ) (m : Image)
    → get_int16 m p ≡ q
    → 0 < q
    → q ≤ a
    → find_place (suc fuel) a p m ≡ find_place fuel a q m
unfolding find_place
find_place-go fuel a p q m e pos h =
    let test : ((q == 0) || ltb a q) ≡ false = ground arith in
    rw (find_place, sys_getw-zero p m, e, test, sys_getw-zero p m, e) refl

-- A block that starts before one in use ends before it.
pub block_ends :
    (a n c j : ℕ) (r : List Piece)
    → 4 ≤ n
    → c ≤ a
    → 4 ≤ j
    → ((y : ℕ) → in_piece a n y ≡ true → is_free ((c, j) ∷ r) y ≡ false)
    → c + j ≤ a
block_ends a n c j r least low big apart = elim (Bool-cases (ltb a (c + j))) [
  | inl e ↦ absurd (let meet = apart a (ground arith) in ground (arith, meet, e, low))
  | inr e ↦ ltb→ge a (c + j) e
]

module _ (m : Image) (a n root : ℕ) (least : 4 ≤ n) (four : n % 4 ≡ 0) (high : a + n < 65536) where
  -- A block that does not overlap the next one ends before it.
  pub ends_before :
      (b lo : ℕ) (r : List Piece)
      → IsChain m b lo r
      → ((y : ℕ) → in_piece a n y ≡ true → is_free r y ≡ false)
      → (get_int16 m b ≡ 0) ⊎ (a < get_int16 m b)
      → 0 < get_int16 m b
      → a + n ≤ get_int16 m b
  ends_before b lo [] h apart stop pos = absurd (omega arith)
  ends_before b lo ((c, j) ∷ r) h apart stop pos = elim (Bool-cases (ltb c (a + n))) [
    | inl in_it ↦
        let at : in_piece a n c ≡ true = ground (arith, h.0, h.2, stop, in_it) in
        absurd (ground (arith, apart c at, h.3))
    | inr out ↦ omega (arith, ltb→ge c (a + n) out, h.0)
  ]

  stop_here :
      (fuel b k : ℕ) (r : List Piece)
      → Heads m b k r
      → b + k ≤ a
      → root < b
      → ((y : ℕ) → in_piece a n y ≡ true → is_free r y ≡ false)
      → (get_int16 m b ≡ 0) ⊎ (a < get_int16 m b)
      → Placed m b k r a n (put_in root a n (find_place (suc fuel) a b m) m)
  stop_here fuel b k r h after pos apart stop =
      rw (find_place-stop fuel a b (get_int16 m b) m refl stop) (
        placed (
          merge-Inserted m b k r a n root h after least four high
            (ends_before b (b + k) r h.chain apart stop) pos))

  pub walk-Placed :
      (fuel b k : ℕ) (r : List Piece)
      → Heads m b k r
      → b + k ≤ a
      → root < b
      → 65536 ≤ fuel + (b + k)
      → ((y : ℕ) → in_piece a n y ≡ true → is_free r y ≡ false)
      → Placed m b k r a n (put_in root a n (find_place fuel a b m) m)
  walk-Placed zero b k r h after pos enough apart = absurd (omega (arith, h.high))
  walk-Placed (suc fuel) b k [] h after pos enough apart =
      stop_here fuel b k [] h after pos apart (inl h.chain)
  walk-Placed (suc fuel) b k ((c, j) ∷ r) h after pos enough apart = elim (Bool-cases (ltb a c)) [
    | inl stop ↦
        stop_here fuel b k ((c, j) ∷ r) h after pos apart
          (inr (let e = h.chain.0 in omega (arith, ltb→lt a c stop)))
    | inr go ↦
        let low = ltb→ge a c go in
        rw (find_place-go fuel a b c m h.chain.0 (let p = h.chain.2 in omega arith) low) (
          further m b k c j r a n h low (
            walk-Placed fuel c j r
              (record {
                size = h.chain.1;
                least = h.chain.3;
                four = h.chain.4;
                high = h.chain.5;
                chain = h.chain.6;
              })
              (block_ends a n c j r least low (let big = h.chain.3 in omega arith) apart)
              (omega (arith, h.chain.2)) (omega (arith, h.chain.2, h.chain.3))
              (λ y at. ground (arith, apart y at))))
  ]
