-- ===== src/Vmr/Pool/Requests.antt =====
-- Requests to the pool of the system image: `pool_alloc` and `pool_free` of vmr.c.
use rsx.Base.{
  ==_refl, Bool-cases, List, Option, [], arith, false, get_int16, inl, inr, ltb, ltb→ge, ltb→lt,
  ne→==, none, not, refl, some, subst, true, ℕ, ◌%◌, ◌&&◌, ◌+◌, ◌-◌, ◌<◌, ◌||◌, ◌∙◌, ◌∷◌, ◌≡◌, ◌≢◌,
  ◌≤◌, ◌⊎◌,
}
use rsx.Vmr.{Image, Symbols}
use rsx.Vmr.Pool.{
  Fit, find_fit, find_place, granules, link_block, merge, merge_next, pool_alloc, pool_free,
  take_fit, walk_fuel,
}
use rsx.Vmr.Pool.Alloc.{granted, refused, Alloced, finish, walk-Alloced}
use rsx.Vmr.Pool.Chain.{
  IsChain, IsChain-raise, IsChain-same, IsPool, Piece, cell-lt, in_piece, is_free, is_free-behind,
  outside, sizes, sys_getw-zero,
}
use rsx.Vmr.Pool.Insert.{link_block_lem, linked, linked-at, linked-away, linked-cell, linked-size}
use rsx.Vmr.Pool.Merge.{merge_next-Regrouped}
use rsx.Vmr.Pool.Release.{
  Placed, block_ends, ends_before, find_place-go, find_place-stop, placed, put_in, walk-Placed,
}

granules-four : (size : ℕ) → granules size % 4 ≡ 0
granules-four size = omega arith

found_fit :
    (n : ℕ) (m : Image) (f : Option Fit)
    → elim f [ none ↦ none | some r ↦ some (take_fit n r m) ] ≡ finish n f m
found_fit n m none = refl
found_fit n m (some r) = refl

-- On a pool of a chain of free blocks, a request for 1 to 65532 bytes, rounded up to a multiple of
-- four, is refused only if no free block is large enough, and then changes nothing. A granted
-- one takes only free bytes, from the pool's root on up, leaves a chain of all others, and
-- writes only to free bytes and the root. The search always ends.
pub pool_alloc-Alloced :
    (s : Symbols) (size : ℕ) (m : Image) (blocks : List Piece)
    → IsPool s m blocks
    → s.pool + 1 < 65536
    → 0 < size
    → size ≤ 65532
    → Alloced m s.pool (s.pool + 1) blocks (granules size) (pool_alloc s size m)
unfolding pool_alloc
pool_alloc-Alloced s size m blocks pool root pos fits =
    let n = granules size in
    rw
      (
        ne→== n 0 (λ e. omega arith),
        sys_getw-zero s.pool m,
        found_fit n m (find_fit walk_fuel n s.pool (get_int16 m s.pool) m),
      )
      (walk-Alloced walk_fuel n s.pool (s.pool + 1) m blocks (omega arith) root (omega arith)
        (omega arith) (omega arith) pool)

-- What is left when a block has been given back.
pub record Released (s : Symbols) (m : Image) (blocks : List Piece) (a n : ℕ) (w : Image)
    : Type 0 where
  pub left : List Piece
  pub chain : IsPool s w left
  pub free : (y : ℕ) → is_free left y ≡ (is_free blocks y || in_piece a n y)
  pub count : sizes left ≡ sizes blocks + n
  pub frame :
      (y : ℕ)
      → y ≢ s.pool
      → y ≢ s.pool + 1
      → is_free blocks y ≡ false
      → in_piece a n y ≡ false
      → w y ≡ m y

-- The memory after `pool_free`.
abbrev pub IsReleased : Symbols → Image → List Piece → (a n : ℕ) → Option Image → Type 0
IsReleased s m blocks a n none = ⊥
IsReleased s m blocks a n (some w) = Released s m blocks a n w

module _ (s : Symbols) (m : Image) (a n : ℕ) (least : 4 ≤ n) (four : n % 4 ≡ 0)
    (high : a + n < 65536) (above : s.pool + 1 < a) where
  -- The block becomes the first of the chain.
  first_of_all :
      (blocks : List Piece)
      → IsPool s m blocks
      → ((y : ℕ) → in_piece a n y ≡ true → is_free blocks y ≡ false)
      → (get_int16 m s.pool ≡ 0) ⊎ (a < get_int16 m s.pool)
      → Released s m blocks a n (
          merge s.pool s.pool
            (get_int16 m s.pool)
            a
            n
            (link_block s.pool (get_int16 m s.pool) a n m))
  unfolding merge
  first_of_all blocks pool apart stop =
      let q = get_int16 m s.pool in
      let m1 = linked s.pool q a n m in
      let bound = cell-lt m s.pool (s.pool + 1) blocks pool in
      let room =
        ends_before m a n (s.pool) least four high s.pool (s.pool + 1) blocks pool apart stop in
      let raised =
        IsChain-raise m s.pool (s.pool + 1) (a + n - 1) blocks (λ h. omega (arith, room h)) pool in
      let cell = linked-at m s.pool q a n above bound in
      let chain : IsChain m1 a (a + n - 1) blocks =
        IsChain-same m m1 s.pool a (a + n - 1) (a + n - 1) blocks cell
          (λ y h.
            linked-away m s.pool q a n above y (λ z. omega arith) (λ z. omega arith)
              (inr (omega arith)))
          (omega arith) raised in
      let g =
        merge_next-Regrouped m1 a n least four high (linked-size m s.pool q a n above (omega arith))
          (omega arith) blocks chain in
      rw (link_block_lem s.pool q a n m (omega arith), ==_refl s.pool)
        (subst (λ c. Released s m blocks a n (merge_next a n c m1)) cell
          (record {
            left = (a, g.size) ∷ g.rest;
            chain = (
              rw (g.frame s.pool (inl (omega arith)), g.frame (s.pool + 1) (inl above))
                  (linked-cell m s.pool q a n above (omega arith)),
              g.heads.size,
              above,
              g.heads.least,
              g.heads.four,
              g.heads.high,
              g.heads.chain,
            );
            free = λ y. rw (g.free y) (ground arith);
            count = omega (arith, g.count);
            frame = λ y e1 e2 f at.
                let far = outside a n y least at in
                g.frame y far ∙ linked-away m s.pool q a n above y e1 e2 far;
          }))

  -- It is put in behind another one.
  further_up :
      (c j : ℕ) (r : List Piece) {x : Option Image}
      → IsPool s m ((c, j) ∷ r)
      → Placed m c j r a n x
      → IsReleased s m ((c, j) ∷ r) a n x
  further_up c j r pool (placed i) =
      let kept : (y : ℕ) → y ≤ s.pool + 1 → _ = λ y h.
        i.frame y (is_free-behind m s.pool (s.pool + 1) ((c, j) ∷ r) y pool h) (ground arith) in
      record {
        left = (c, i.size) ∷ i.rest;
        chain = (
          rw (kept s.pool (omega arith), kept (s.pool + 1) (omega arith)) pool.0,
          i.heads.size,
          pool.2,
          i.heads.least,
          i.heads.four,
          i.heads.high,
          i.heads.chain,
        );
        free = i.free;
        count = i.count;
        frame = λ y e1 e2 f at. i.frame y f at;
      }

  pub walk-IsReleased :
      (blocks : List Piece)
      → IsPool s m blocks
      → ((y : ℕ) → in_piece a n y ≡ true → is_free blocks y ≡ false)
      → IsReleased s m blocks a n (put_in s.pool a n (find_place walk_fuel a s.pool m) m)
  walk-IsReleased [] pool apart =
      rw (find_place-stop 65535 a s.pool (get_int16 m s.pool) m refl (inl pool))
        (first_of_all [] pool apart (inl pool))
  walk-IsReleased ((c, j) ∷ r) pool apart = elim (Bool-cases (ltb a c)) [
    | inl stop ↦
        let before : (get_int16 m s.pool ≡ 0) ⊎ (a < get_int16 m s.pool) =
          inr (rw (pool.0) (ltb→lt a c stop)) in
        rw (find_place-stop 65535 a s.pool (get_int16 m s.pool) m refl before)
          (first_of_all ((c, j) ∷ r) pool apart before)
    | inr go ↦
        let low = ltb→ge a c go in
        rw (find_place-go 65535 a s.pool c m pool.0 (omega (arith, pool.2)) low) (
          further_up c j r pool (
            walk-Placed m a n s.pool least four high 65535 c j r
              (record {
                size = pool.1;
                least = pool.3;
                four = pool.4;
                high = pool.5;
                chain = pool.6;
              })
              (block_ends a n c j r least low (let big = pool.3 in omega arith) apart)
              (let f = pool.2 in omega arith) (omega (arith, pool.2, pool.3))
              (λ y at. ground (arith, apart y at))))
  ]

put_in_found :
    (root a n : ℕ) (m : Image) (f : Option (ℕ × ℕ))
    → elim f [
      | none ↦ none
      | some (prev, next) ↦ some (merge root prev next a n (link_block prev next a n m))
    ]
      ≡ put_in root a n f m
put_in_found root a n m none = refl
put_in_found root a n m (some place) = refl

-- On a pool of a chain of free blocks, to give back 1 to 65532 bytes, rounded up to a multiple of
-- four, that lie behind the pool's root and within the address space and of which none is free,
-- ends, leaves a chain of blocks that no two touch, whose free bytes are those from before and
-- those of the block, and writes only to these bytes and the root.
pub pool_free-IsReleased :
    (s : Symbols) (a size : ℕ) (m : Image) (blocks : List Piece)
    → IsPool s m blocks
    → s.pool + 1 < a
    → 0 < size
    → a + granules size < 65536
    → size ≤ 65532
    → ((y : ℕ) → in_piece a (granules size) y ≡ true → is_free blocks y ≡ false)
    → IsReleased s m blocks a (granules size) (pool_free s a size m)
unfolding pool_free
pool_free-IsReleased s a size m blocks pool above pos high fits apart =
    let n = granules size in
    rw (ne→== n 0 (λ e. omega arith), put_in_found s.pool a n m (find_place walk_fuel a s.pool m))
      (walk-IsReleased s m a n (omega arith) (omega arith) high above blocks pool apart)

-- A pool with the same free bytes.
pub record Same (s : Symbols) (blocks : List Piece) (w : Image) : Type 0 where
  pub left : List Piece
  pub chain : IsPool s w left
  pub free : (y : ℕ) → is_free left y ≡ is_free blocks y
  pub count : sizes left ≡ sizes blocks

abbrev pub IsSame : Symbols → List Piece → Option Image → Type 0
IsSame s blocks none = ⊥
IsSame s blocks (some w) = Same s blocks w

-- A request has been refused, or the block that it was given can be given back.
abbrev pub IsRestored : Symbols → ℕ → List Piece → Option (ℕ × Image) → Type 0
IsRestored s size blocks none = ⊥
IsRestored s size blocks (some (a, w)) = (a ≡ 0) ⊎ IsSame s blocks (pool_free s a size w)

Released-Same :
    (s : Symbols) (m : Image) (old blocks : List Piece) (a n : ℕ) (x : Option Image)
    → ((y : ℕ) → is_free old y ≡ (is_free blocks y && not (in_piece a n y)))
    → ((y : ℕ) → in_piece a n y ≡ true → is_free blocks y ≡ true)
    → sizes old + n ≡ sizes blocks
    → IsReleased s m old a n x
    → IsSame s blocks x
Released-Same s m old blocks a n none took inside sum h = h
Released-Same s m old blocks a n (some w) took inside sum h = record {
  left = h.left;
  chain = h.chain;
  free = λ y.
      rw (h.free y, took y)
        (elim (Bool-cases (in_piece a n y)) [
          | inl at ↦ rw (at, inside y at) refl
          | inr off ↦ rw (off) (ground arith)
        ]);
  count = omega (arith, h.count);
}

Alloced-IsRestored :
    (s : Symbols) (size : ℕ) (m : Image) (blocks : List Piece) (x : Option (ℕ × Image))
    → 0 < size
    → size ≤ 65532
    → Alloced m s.pool (s.pool + 1) blocks (granules size) x
    → IsRestored s size blocks x
Alloced-IsRestored s size m blocks _ pos fits (refused none_fits) = inl refl
Alloced-IsRestored s size m blocks _ pos fits
      (granted {w} a left above high chain took inside sum frame) =
    inr (
      Released-Same s w left blocks a (granules size) (pool_free s a size w) took inside sum (
        pool_free-IsReleased s a size w left chain above pos high fits
          (λ y at. rw (took y, at) (ground arith))))

-- The block of a granted request can be given back with the same size, and then the same bytes
-- are free as before the request. It is a request for 1 to 65532 bytes on a chain of free blocks.
pub pool_free-pool_alloc :
    (s : Symbols) (size : ℕ) (m : Image) (blocks : List Piece)
    → IsPool s m blocks
    → s.pool + 1 < 65536
    → 0 < size
    → size ≤ 65532
    → IsRestored s size blocks (pool_alloc s size m)
pool_free-pool_alloc s size m blocks pool root pos fits =
    Alloced-IsRestored s size m blocks (pool_alloc s size m) pos fits
      (pool_alloc-Alloced s size m blocks pool root pos fits)
