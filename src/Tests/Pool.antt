-- ===== src/Tests/Pool.antt =====
-- The theorems on the pool of the system image, with a pool of two blocks.
use rsx.Base.{List, [], arith, inl, refl, set_int16, zeros, ◌∷◌}
use rsx.Vmr.{Image, Symbols}
use rsx.Vmr.Pool.{pool_alloc, pool_free, pool_init}
use rsx.Vmr.Pool.Alloc.{Alloced}
use rsx.Vmr.Pool.Chain.{IsPool, Piece}
use rsx.Vmr.Pool.Requests.{
  IsReleased, IsRestored, pool_alloc-Alloced, pool_free-IsReleased, pool_free-pool_alloc,
}
use rsx.Vmr.Pool.Totals.{pool_init-IsPool}

abbrev pub symbols : Symbols
symbols = record {
  sysend = 200;
  systop = 108;
  polsz = 104;
  pool = 100;
  plist = 112;
  tlist = 116;
  phydv = 120;
  iddtbl = 124;
}

-- A kernel that has not been started, and one with free blocks at 256 and 512.
abbrev fresh : Image
fresh = zeros

abbrev two : Image
two = set_int16 (set_int16 (set_int16 (set_int16 zeros 100 256) 256 512) 258 16) 514 32

abbrev blocks : List Piece
blocks = (256, 16) ∷ (512, 32) ∷ []

two-IsPool : IsPool symbols two blocks
two-IsPool = (
  refl,
  refl,
  omega arith,
  omega arith,
  refl,
  omega arith,
  (refl, refl, omega arith, omega arith, refl, omega arith, refl),
)

pool_alloc-Alloced_example : Alloced two 100 101 blocks 20 (pool_alloc symbols 18 two)
pool_alloc-Alloced_example =
    pool_alloc-Alloced symbols 18 two blocks two-IsPool (omega arith) (omega arith) (omega arith)

-- Between the two blocks, behind the first.
pool_free-IsReleased_example : IsReleased symbols two blocks 272 12 (pool_free symbols 272 10 two)
pool_free-IsReleased_example =
    pool_free-IsReleased symbols 272 10 two blocks two-IsPool (omega arith) (omega arith)
      (omega arith) (omega arith) (λ y at. ground (arith, at))

pool_free-pool_alloc_example : IsRestored symbols 18 blocks (pool_alloc symbols 18 two)
pool_free-pool_alloc_example =
    pool_free-pool_alloc symbols 18 two blocks two-IsPool (omega arith) (omega arith) (omega arith)

pool_init-IsPool_example : IsPool symbols (pool_init symbols fresh) ((200, 61240) ∷ [])
pool_init-IsPool_example =
    pool_init-IsPool symbols fresh
      (record {
        end = omega arith;
        pool = omega arith;
        top = omega arith;
        size = omega arith;
        apart1 = inl (omega arith);
        apart2 = inl (omega arith);
      })
      refl
