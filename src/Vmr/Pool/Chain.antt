-- ===== src/Vmr/Pool/Chain.antt =====
-- The free list of the pool in memory, and the free bytes that it stands for.
use rsx.Base.{
  Block, Bool, Bool-cases, List, [], arith, false, get_int16, inl, inr, leb, ltb, ltb→lt, refl,
  set_int16, ℕ, ◌%◌, ◌&&◌, ◌+◌, ◌<◌, ◌==◌, ◌||◌, ◌∙◌, ◌∷◌, ◌≡◌, ◌≢◌, ◌≤◌, ◌⊎◌,
}
use rsx.Vmr.{Image, Symbols, sys_getw, sys_putw}

-- Address and size of a free block.
abbrev pub Piece : Type 0
Piece = ℕ × ℕ

-- The chain at cell p: blocks behind `lo` in the order of their addresses, no two adjacent, of at
-- least four bytes and a multiple of four, within the address space.
abbrev pub IsChain : Image → ℕ → ℕ → List Piece → Type 0
IsChain m p lo [] = get_int16 m p ≡ 0
IsChain m p lo ((a, n) ∷ r) =
    (get_int16 m p ≡ a)
    × (get_int16 m (a + 2) ≡ n)
    × (lo < a)
    × (4 ≤ n)
    × (n % 4 ≡ 0)
    × (a + n < 65536)
    × IsChain m a (a + n) r

abbrev pub in_piece : ℕ → ℕ → ℕ → Bool
in_piece a n x = leb a x && ltb x (a + n)

-- The byte at x is free.
abbrev pub is_free : List Piece → ℕ → Bool
is_free [] x = false
is_free ((a, n) ∷ r) x = in_piece a n x || is_free r x

abbrev pub sizes : List Piece → ℕ
sizes [] = 0
sizes ((a, n) ∷ r) = n + sizes r

-- One of the blocks is the one at a of k bytes.
abbrev pub is_block : ℕ → ℕ → List Piece → Bool
is_block a k [] = false
is_block a k ((b, j) ∷ r) = ((a == b) && (k == j)) || is_block a k r

-- The pool: its root is a cell below all blocks.
abbrev pub IsPool : Symbols → Image → List Piece → Type 0
IsPool s m blocks = IsChain m s.pool (s.pool + 1) blocks

pub get-set_int16_away :
    (p : Block) (i j v : ℕ)
    → (j + 1 < i) ⊎ (i + 1 < j)
    → get_int16 (set_int16 p i v) j ≡ get_int16 p j
get-set_int16_away p i j v h = ground (arith, h)

pub set_int16-ne : (p : Block) (i v y : ℕ) → y ≢ i → y ≢ i + 1 → set_int16 p i v y ≡ p y
set_int16-ne p i v y e1 e2 = ground arith

-- A byte outside of a block is not in its header.
pub outside : (b k y : ℕ) → 4 ≤ k → in_piece b k y ≡ false → (y < b) ⊎ (b + 3 < y)
outside b k y least h = elim (Bool-cases (ltb y b)) [
  | inl e ↦ inl (ltb→lt y b e)
  | inr e ↦ inr (ground (arith, h, e))
]

-- Behind `lo` there is no free byte up to it.
pub is_free-behind :
    (m : Image) (p lo : ℕ) (r : List Piece) (x : ℕ)
    → IsChain m p lo r
    → x ≤ lo
    → is_free r x ≡ false
is_free-behind m p lo [] x c h = refl
is_free-behind m p lo ((a, n) ∷ r) x c h =
    ground (arith, is_free-behind m a (a + n) r x c.6 (omega arith))

-- A chain can hang on another cell, and stays while all that lies behind `lo` stays.
pub IsChain-same :
    (m w : Image) (p q lo low : ℕ) (r : List Piece)
    → get_int16 w q ≡ get_int16 m p
    → ((x : ℕ) → lo < x → w x ≡ m x)
    → low ≤ lo
    → IsChain m p lo r
    → IsChain w q low r
IsChain-same m w p q lo low [] e same h c = e ∙ c
IsChain-same m w p q lo low ((a, n) ∷ r) e same h c = (
  e ∙ c.0,
  rw (same (a + 2) (omega arith), same (a + 2 + 1) (omega arith)) c.1,
  omega arith,
  c.3,
  c.4,
  c.5,
  IsChain-same m w a a (a + n) (a + n) r (rw (same a c.2, same (a + 1) (omega arith)) refl)
      (λ x h. same x (omega arith)) (omega arith) c.6,
)

pub cell-lt : (m : Image) (p lo : ℕ) (r : List Piece) → IsChain m p lo r → get_int16 m p < 65536
cell-lt m p lo [] c = omega arith
cell-lt m p lo ((a, n) ∷ r) c = omega arith

-- The head of a chain can lie further behind.
pub IsChain-raise :
    (m : Image) (p lo high : ℕ) (r : List Piece)
    → (0 < get_int16 m p → high < get_int16 m p)
    → IsChain m p lo r
    → IsChain m p high r
IsChain-raise m p lo high [] h c = c
IsChain-raise m p lo high ((a, n) ∷ r) h c =
    (c.0, c.1, rw (c.0) at (h (omega arith)), c.3, c.4, c.5, c.6)

-- Access to the first bank.
pub sys_getw-zero : (a : ℕ) (m : Image) → sys_getw 0 a m ≡ get_int16 m a
unfolding sys_getw
sys_getw-zero a m = let e : a + 0 ≡ a = omega arith in rw (e) refl

pub sys_putw-zero : (a v : ℕ) (m : Image) → sys_putw 0 a v m ≡ set_int16 m a v
unfolding sys_putw
sys_putw-zero a v m = let e : a + 0 ≡ a = omega arith in rw (e) refl

-- The sizes of a chain fit into the address space.
pub sizes-lt :
    (m : Image) (p lo : ℕ) (r : List Piece) → IsChain m p lo r → lo < 65536 → sizes r + lo < 65536
sizes-lt m p lo [] c h = omega arith
sizes-lt m p lo ((a, n) ∷ r) c h = omega (arith, sizes-lt m a (a + n) r c.6 c.5)
