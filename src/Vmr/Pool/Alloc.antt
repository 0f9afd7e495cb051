-- ===== src/Vmr/Pool/Alloc.antt =====
-- What `pool_alloc` of vmr.c does to the chain of free blocks.
use rsx.Base.{
  ==_refl, Bool-cases, List, Option, [], arith, eq-cases, false, get-set_int16, get_int16, inl, inr,
  leb, leb→le, leb→lt, ne→==, none, not, refl, set_int16, some, subst, suc, sym, true, zero, ℕ, ◌%◌,
  ◌&&◌, ◌+◌, ◌-◌, ◌<◌, ◌∷◌, ◌≡◌, ◌≢◌, ◌≤◌,
}
use rsx.Vmr.{Image}
use rsx.Vmr.Pool.{Fit, find_fit, fit, take_fit}
use rsx.Vmr.Pool.Chain.{
  IsChain, IsChain-same, Piece, cell-lt, in_piece, is_block, is_free, is_free-behind, sizes,
  sys_getw-zero, sys_putw-zero,
}

-- The search has come to cell p, and `take` is made with what it finds.
abbrev pub finish : ℕ → Option Fit → Image → Option (ℕ × Image)
finish n none m = none
finish n (some r) m = some (take_fit n r m)

-- The outcomes of a request for n bytes on a chain at cell p.
pub data Alloced (m : Image) (p lo : ℕ) (blocks : List Piece) (n : ℕ)
    : Option (ℕ × Image) → Type 0 where
  refused :
      ((a k : ℕ) → n ≤ k → is_block a k blocks ≡ false) → Alloced m p lo blocks n (some (0, m))
  granted :
      {w : Image} (a : ℕ) (left : List Piece)
      → lo < a
      → a + n < 65536
      → IsChain w p lo left
      → ((x : ℕ) → is_free left x ≡ (is_free blocks x && not (in_piece a n x)))
      → ((x : ℕ) → in_piece a n x ≡ true → is_free blocks x ≡ true)
      → sizes left + n ≡ sizes blocks
      → ((x : ℕ) → x ≢ p → x ≢ p + 1 → is_free blocks x ≡ false → w x ≡ m x)
      → Alloced m p lo blocks n (some (a, w))

find_fit_step :
    (fuel n p a k : ℕ) (m : Image)
    → 0 < a
    → a + 2 < 65536
    → get_int16 m (a + 2) ≡ k
    → find_fit (suc fuel) n p a m ≡ elim (leb n k) [
      | true ↦ some (fit p a (get_int16 m a) k)
      | false ↦ find_fit fuel n a (get_int16 m a) m
    ]
unfolding find_fit
find_fit_step fuel n p a k m pos room e =
    let wrap : (a + 2) % 65536 ≡ a + 2 = omega arith in
    rw (find_fit, ne→== a 0 (λ z. omega arith), wrap, sys_getw-zero (a + 2) m, e)
      (elim (Bool-cases (leb n k)) [
        | inl y ↦ rw (y, sys_getw-zero a m, wrap, sys_getw-zero (a + 2) m, e) refl
        | inr y ↦ rw (y, sys_getw-zero a m) refl
      ])

-- A whole block is taken.
exact :
    (m : Image) (p lo a n : ℕ) (r : List Piece)
    → p + 1 ≤ lo
    → IsChain m p lo ((a, n) ∷ r)
    → Alloced m p lo ((a, n) ∷ r) n (some (take_fit n (fit p a (get_int16 m a) n) m))
unfolding take_fit
exact m p lo a n r low c =
    rw (==_refl n, sys_putw-zero p (get_int16 m a) m)
      (granted a r c.2 c.5
        (IsChain-same m _ a p (a + n) lo r (get-set_int16 m p _ (cell-lt m a (a + n) r c.6))
          (λ x h. ground arith) (omega arith) c.6)
        (λ x. elim (Bool-cases (in_piece a n x)) [
          | inl at ↦ rw (at) (is_free-behind m a (a + n) r x c.6 (ground arith))
          | inr off ↦ rw (off) (ground arith)
        ])
        (λ x at. rw (at) refl) (omega arith) (λ x e1 e2 f. ground arith))

module _ (m : Image) (p lo a n k : ℕ) (r : List Piece) (low : p + 1 ≤ lo) (pos : 0 < n)
    (c : IsChain m p lo ((a, k) ∷ r)) where
  -- The front of the block is taken.
  split :
      n < k
      → n % 4 ≡ 0
      → Alloced m p lo ((a, k) ∷ r) n (some (take_fit n (fit p a (get_int16 m a) k) m))
  unfolding take_fit
  split less four =
      let w1 : (a + n) % 65536 ≡ a + n = omega arith in
      let w2 : (a + n + 2) % 65536 ≡ a + n + 2 = omega arith in
      let v = get_int16 m a in
      let m1 = set_int16 m p (a + n) in
      let m2 = set_int16 m1 (a + n) v in
      let m3 = set_int16 m2 (a + n + 2) (k - n) in
      let bound = cell-lt m a (a + k) r c.6 in
      rw
        (
          w1,
          w2,
          ne→== k n (λ e. omega arith),
          sys_putw-zero p (a + n) m,
          sys_putw-zero (a + n) v m1,
          sys_putw-zero (a + n + 2) (k - n) m2,
        )
        (granted a ((a + n, k - n) ∷ r) c.2 (omega arith)
          (
            ground (arith, get-set_int16 m p (a + n)),
            get-set_int16 m2 (a + n + 2) (k - n) (omega arith),
            omega arith,
            omega arith,
            omega arith,
            omega arith,
            IsChain-same m m3 a (a + n) (a + k) (a + n + (k - n)) r
                (ground (arith, get-set_int16 m1 (a + n) v bound)) (λ x h. ground arith)
                (omega arith) c.6,
          )
          (λ x. elim (Bool-cases (in_piece a k x)) [
            | inl at ↦ rw (is_free-behind m a (a + k) r x c.6 (ground (arith, at))) (ground arith)
            | inr off ↦ ground arith
          ])
          (λ x at. ground arith) (omega arith) (λ x e1 e2 f. ground arith))

  -- The block is too small, and the search goes on behind it.
  skip :
      {x : Option (ℕ × Image)} → k < n → Alloced m a (a + k) r n x → Alloced m p lo ((a, k) ∷ r) n x
  skip less (refused none_fits) = refused (λ b j h. ground (arith, none_fits b j h))
  skip less (granted {w} b left h1 h2 chain free inside count frame) =
      let kept : (x : ℕ) → x < a → w x ≡ m x = λ x h.
        frame x (λ z. omega arith) (λ z. omega arith)
          (is_free-behind m a (a + k) r x c.6 (omega arith)) in
      let head : (x : ℕ) → (a + 1 < x) × (x < a + 4) → w x ≡ m x = λ x h.
        frame x (λ z. omega arith) (λ z. omega arith)
          (is_free-behind m a (a + k) r x c.6 (omega arith)) in
      granted b ((a, k) ∷ left) (omega arith) h2
        (
          rw (kept p (omega arith), kept (p + 1) (omega arith)) c.0,
          rw (head (a + 2) (omega arith), head (a + 2 + 1) (omega arith)) c.1,
          c.2,
          c.3,
          c.4,
          c.5,
          chain,
        )
        (λ x. rw (free x) (ground arith)) (λ x at. rw (inside x at) (ground arith)) (omega arith)
        (λ x e1 e2 f. frame x (λ z. ground arith) (λ z. ground arith) (ground arith))

-- The search with enough fuel, and what is done with its result.
pub walk-Alloced :
    (fuel n p lo : ℕ) (m : Image) (blocks : List Piece)
    → p + 1 ≤ lo
    → lo < 65536
    → 65536 ≤ fuel + lo
    → 0 < n
    → n % 4 ≡ 0
    → IsChain m p lo blocks
    → Alloced m p lo blocks n (finish n (find_fit fuel n p (get_int16 m p) m) m)
walk-Alloced zero n p lo m blocks low high enough pos four c = absurd (omega arith)
walk-Alloced (suc fuel) n p lo m [] low high enough pos four c =
    rw (c) (unfold find_fit take_fit in refused (λ a k h. refl))
walk-Alloced (suc fuel) n p lo m ((a, k) ∷ r) low high enough pos four c =
    rw (c.0, find_fit_step fuel n p a k m (omega arith) (omega arith) c.1)
      (elim (Bool-cases (leb n k)) [
        | inr small ↦ rw (small) (
            skip m p lo a n k r low pos c (leb→lt n k small)
              (walk-Alloced fuel n a (a + k) m r (omega arith) c.5 (omega arith) pos four c.6))
        | inl large ↦ rw (large) (elim (eq-cases k n) [
          | inl e ↦
              subst
                (λ j.
                  IsChain m p lo ((a, j) ∷ r)
                  → Alloced m p lo ((a, j) ∷ r) n (some (take_fit n (fit p a (get_int16 m a) j) m)))
                (sym e) (exact m p lo a n r low) c
          | inr ne ↦ split m p lo a n k r low pos c (ground (arith, leb→le n k large, ne)) four
        ])
      ])
