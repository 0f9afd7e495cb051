-- ===== src/Vmr/Pool.antt =====
-- The pool of the system image: `pool_init`, `pool_alloc`, `pool_free` and `pool_avail` of
-- Tools/linux/vol180/vmr.c. A free block starts with the address of the next one and its own size.
-- The walks have fuel; `none` means that it is used up.
pub mod Chain
pub mod Alloc
pub mod Release
pub mod Insert
pub mod Merge
pub mod Requests
pub mod Totals
use rsx.Base.{
  Option, false, if◌then◌else◌, leb, ltb, none, not, some, suc, true, zero, ℕ, ◌%◌, ◌&&◌, ◌*◌, ◌+◌,
  ◌-◌, ◌/◌, ◌==◌, ◌||◌,
}
use rsx.Vmr.{Image, Symbols, addr16, sys_getw, sys_putw}

-- `(size + 3) & 0xfffc` on an `address`.
abbrev pub granules : ℕ → ℕ
granules size = (size + 3) % 65536 / 4 * 4

-- A block for each four bytes of the address space.
abbrev pub walk_fuel : ℕ
walk_fuel = 65536

-- `pool_init`
unfoldable pub pool_init : Symbols → Image → Image
pool_init s m =
    let first = granules s.sysend in
    let size = addr16 (0xf000 + 65536 - first) in
    let m1 = sys_putw 0 s.polsz size (sys_putw 0 s.systop 0xf000 (sys_putw 0 s.pool first m)) in
    if sys_getw 0 s.polsz m == 0
    then sys_putw 0 (addr16 (first + 2)) size (sys_putw 0 first 0 m1)
    else m

-- Where the search of `pool_alloc` ends.
pub data Fit : Type 0 where
  fit : (prev next link blksz : ℕ) → Fit
  no_space : Fit

-- The `while` loop of `pool_alloc`.
unfoldable pub find_fit : ℕ → (size prev next : ℕ) → Image → Option Fit
unfolding sys_getw
find_fit zero size prev next m = none
find_fit (suc fuel) size prev next m =
    let link = sys_getw 0 next m in
    let blksz = sys_getw 0 (addr16 (next + 2)) m in
    elim (next == 0) [
      | true ↦ some no_space
      | false ↦ elim (leb size blksz) [
        | true ↦ some (fit prev next link blksz)
        | false ↦ find_fit fuel size next link m
      ]
    ]

-- What `pool_alloc` does with the block found.
unfoldable pub take_fit : ℕ → Fit → Image → ℕ × Image
unfolding sys_putw
take_fit size no_space m = (0, m)
take_fit size (fit prev next link blksz) m =
    let rest = addr16 (next + size) in
    if blksz == size then (next, sys_putw 0 prev link m) else (
      next,
      sys_putw 0 (addr16 (rest + 2)) (blksz - size) (sys_putw 0 rest link (sys_putw 0 prev rest m)),
    )

-- `pool_alloc`; address zero if there is no block.
unfoldable pub pool_alloc : Symbols → ℕ → Image → Option (ℕ × Image)
pool_alloc s size m =
    let n = granules size in
    let found = find_fit walk_fuel n s.pool (sys_getw 0 s.pool m) m in
    if n == 0 then some (0, m) else elim found [ none ↦ none | some r ↦ some (take_fit n r m) ]

-- The `while` loop of `pool_free`: the block or the root before the place of `addr`, and the block
-- behind it, or zero.
unfoldable pub find_place : ℕ → (addr prev : ℕ) → Image → Option (ℕ × ℕ)
unfolding sys_getw
find_place zero addr prev m = none
find_place (suc fuel) addr prev m =
    let next = sys_getw 0 prev m in
    elim ((next == 0) || ltb addr next) [
      | true ↦ some (prev, next)
      | false ↦ find_place fuel addr next m
    ]

-- The merge with the next block.
unfoldable pub merge_next : (addr size next : ℕ) → Image → Image
unfolding sys_getw sys_putw
merge_next addr size next m =
    let link = sys_getw 0 next m in
    let blksz = sys_getw 0 (addr16 (next + 2)) m in
    if addr + size == next
    then sys_putw 0 (addr16 (addr + 2)) (addr16 (size + blksz)) (sys_putw 0 addr link m)
    else m

-- The merge with the block before, unless that is the root, and then with the next.
unfoldable pub merge : (root prev next addr size : ℕ) → Image → Image
unfolding sys_getw sys_putw
merge root prev next addr size m =
    let blksz = sys_getw 0 (addr16 (prev + 2)) m in
    let total = addr16 (size + blksz) in
    if not (prev == root) && (prev + blksz == addr)
    then merge_next prev total next (sys_putw 0 (addr16 (prev + 2)) total (sys_putw 0 prev next m))
    else merge_next addr size next m

-- The stores that put the block between the two found.
unfoldable pub link_block : (prev next addr size : ℕ) → Image → Image
unfolding sys_putw
link_block prev next addr size m =
    sys_putw 0 (addr16 (addr + 2)) size (sys_putw 0 addr next (sys_putw 0 prev addr m))

-- `pool_free`
unfoldable pub pool_free : Symbols → (addr size : ℕ) → Image → Option Image
pool_free s addr size m =
    let n = granules size in
    let found = find_place walk_fuel addr s.pool m in
    if n == 0 then some m else elim found [
      | none ↦ none
      | some (prev, next) ↦ some (merge s.pool prev next addr n (link_block prev next addr n m))
    ]

-- The loop of `pool_avail`.
unfoldable pub sum_sizes : ℕ → (pool total : ℕ) → Image → Option ℕ
unfolding sys_getw
sum_sizes zero pool total m = none
sum_sizes (suc fuel) pool total m = elim (pool == 0) [
  | true ↦ some total
  | false ↦ sum_sizes fuel (sys_getw 0 pool m) (addr16 (total + sys_getw 0 (addr16 (pool + 2)) m)) m
]

-- `pool_avail`
unfoldable pub pool_avail : Symbols → Image → Option ℕ
pool_avail s m =
    let total = sum_sizes walk_fuel (sys_getw 0 s.pool m) 0 m in
    if s.polsz == 0 then some 0 else total
