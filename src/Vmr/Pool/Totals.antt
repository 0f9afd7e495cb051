-- ===== src/Vmr/Pool/Totals.antt =====
-- The first block of the pool and the number of its free bytes: `pool_init` and `pool_avail` of
-- vmr.c.
use rsx.Base.{
  List, [], arith, get-set_int16, get_int16, inl, ne→==, refl, set_int16, some, suc, zero, ℕ, ◌%◌,
  ◌+◌, ◌-◌, ◌<◌, ◌∙◌, ◌∷◌, ◌≡◌, ◌≤◌, ◌⊎◌,
}
use rsx.Vmr.{Image, Symbols}
use rsx.Vmr.Pool.{granules, pool_avail, pool_init, sum_sizes, walk_fuel}
use rsx.Vmr.Pool.Chain.{
  IsChain, IsPool, Piece, get-set_int16_away, sizes, sizes-lt, sys_getw-zero, sys_putw-zero,
}

sum_sizes_step :
    (fuel a n total : ℕ) (m : Image)
    → 0 < a
    → a + 2 < 65536
    → get_int16 m (a + 2) ≡ n
    → total + n < 65536
    → sum_sizes (suc fuel) a total m ≡ sum_sizes fuel (get_int16 m a) (total + n) m
unfolding sum_sizes
sum_sizes_step fuel a n total m pos room e fits =
    let wrap1 : (a + 2) % 65536 ≡ a + 2 = omega arith in
    let wrap2 : (total + n) % 65536 ≡ total + n = omega arith in
    rw
      (
        sum_sizes,
        ne→== a 0 (λ e. omega arith),
        sys_getw-zero a m,
        wrap1,
        sys_getw-zero (a + 2) m,
        e,
        wrap2,
      )
      refl

-- The sum over a chain that fits in the address space.
sum_sizes-sizes :
    (fuel p lo total : ℕ) (m : Image) (blocks : List Piece)
    → IsChain m p lo blocks
    → 65536 ≤ fuel + lo
    → lo < 65536
    → total + sizes blocks < 65536
    → sum_sizes fuel (get_int16 m p) total m ≡ some (total + sizes blocks)
unfolding sum_sizes
sum_sizes-sizes zero p lo total m blocks c enough high fits = absurd (omega arith)
sum_sizes-sizes (suc fuel) p lo total m [] c enough high fits = rw (c) (ground arith)
sum_sizes-sizes (suc fuel) p lo total m ((a, n) ∷ r) c enough high fits =
    let sum : total + (n + sizes r) ≡ total + n + sizes r = omega arith in
    rw (c.0, sum, sum_sizes_step fuel a n total m (omega arith) (omega arith) c.1 (omega arith))
      (sum_sizes-sizes fuel a (a + n) (total + n) m r c.6 (omega arith) c.5 (omega arith))

-- `pool_avail` ends with the number of the free bytes of the chain.
pub pool_avail-sizes :
    (s : Symbols) (m : Image) (blocks : List Piece)
    → IsPool s m blocks
    → 0 < s.polsz
    → s.pool + 1 < 65536
    → pool_avail s m ≡ some (sizes blocks)
unfolding pool_avail
pool_avail-sizes s m blocks pool known root =
    rw (ne→== s.polsz 0 (λ e. omega arith), sys_getw-zero s.pool m)
      (sum_sizes-sizes walk_fuel s.pool (s.pool + 1) 0 m blocks pool (omega arith) root
          (omega (arith, sizes-lt m s.pool (s.pool + 1) blocks pool root))
        ∙ ground arith)

-- The words that `pool_init` writes: three words of the kernel, and a block from the end of it up
-- to 0xF000.
pub record Vars (s : Symbols) : Type 0 where
  pub end : granules s.sysend + 4 ≤ 0xf000
  pub pool : s.pool + 1 < granules s.sysend
  pub top : s.systop + 1 < granules s.sysend
  pub size : s.polsz + 1 < granules s.sysend
  pub apart1 : (s.pool + 1 < s.systop) ⊎ (s.systop + 1 < s.pool)
  pub apart2 : (s.pool + 1 < s.polsz) ⊎ (s.polsz + 1 < s.pool)

-- The first start, with a kernel that ends low enough, of which the variables lie apart below its
-- end: `pool_init` makes a pool of one block, from the end of the kernel up to 0xF000.
pub pool_init-IsPool :
    (s : Symbols) (m : Image)
    → Vars s
    → get_int16 m s.polsz ≡ 0
    → IsPool s (pool_init s m) ((granules s.sysend, 0xf000 - granules s.sysend) ∷ [])
unfolding pool_init
pool_init-IsPool s m v new =
    let first = granules s.sysend in
    let size = 0xf000 - first in
    let wrap1 : (0xf000 + 65536 - first) % 65536 ≡ size = omega (arith, v.end) in
    let wrap2 : (first + 2) % 65536 ≡ first + 2 = omega (arith, v.end) in
    let m1 = set_int16 m s.pool first in
    let m2 = set_int16 m1 s.systop 0xf000 in
    let m3 = set_int16 m2 s.polsz size in
    let m4 = set_int16 m3 first 0 in
    let at : pool_init s m ≡ set_int16 m4 (first + 2) size =
      rw
        (
          pool_init,
          sys_getw-zero s.polsz m,
          new,
          wrap1,
          wrap2,
          sys_putw-zero s.pool first m,
          sys_putw-zero s.systop 0xf000 m1,
          sys_putw-zero s.polsz size m2,
          sys_putw-zero first 0 m3,
          sys_putw-zero (first + 2) size m4,
        )
        refl in
    rw (at) (
      get-set_int16_away m4 (first + 2) s.pool size (inl (omega (arith, v.pool)))
          ∙ get-set_int16_away m3 first s.pool 0 (inl (omega (arith, v.pool)))
          ∙ get-set_int16_away m2 s.polsz s.pool size (omega (arith, v.apart2))
          ∙ get-set_int16_away m1 s.systop s.pool 0xf000 (omega (arith, v.apart1))
          ∙ get-set_int16 m s.pool first (omega (arith, v.end)),
      get-set_int16 m4 (first + 2) size (omega arith),
      v.pool,
      omega (arith, v.end),
      omega (arith, v.end),
      omega (arith, v.end),
      get-set_int16_away m4 (first + 2) first size (inl (omega arith))
          ∙ get-set_int16 m3 first 0 (omega arith),
    )
