-- ===== src/Base/Memory.antt =====
-- Byte memory as functions from offsets, with the little-endian words of misc.h.
use Prim.Native.Nat.{ℕ, ◌+◌, ◌-◌, ◌*◌, ◌/◌, ◌%◌, ◌^◌, ◌<◌}
use mathlib.Core.Path.{◌≡◌}
use mathlib.Core.Logic.{◌≢◌}
use mathlib.Core.Bool.{◌&&◌}
use native.Mathlib.Omega.{arith}
use rsx.Base.Tests.{◌==◌, leb, ltb, if◌then◌else◌}

-- One write into an array or a table.
abbrev pub update {ℓ} : {A : Type ℓ} (old : ℕ → A) (p : ℕ) (v : A) → ℕ → A
update old p v q = if p == q then v else old q

pub update_self {ℓ} : {A : Type ℓ} (f : ℕ → A) (p : ℕ) (v : A) → update f p v p ≡ v
update_self f p v = ground arith

pub update_ne {ℓ} : {A : Type ℓ} (f : ℕ → A) (p q : ℕ) (v : A) → p ≢ q → update f p v q ≡ f q
update_ne f p q v h = ground arith

-- A byte array, such as a 512-byte sector or a 64-byte inode.
abbrev pub Block : Type 0
Block = ℕ → ℕ

abbrev pub zeros : Block
zeros o = 0

-- `GET_INT16`, `GET_INT24`: the bytes do not overlap, so that `|` of the shifted bytes is `+`.
abbrev pub get_int16 : Block → ℕ → ℕ
get_int16 p i = p i + 256 * p (i + 1)

abbrev pub get_int24 : Block → ℕ → ℕ
get_int24 p i = p i + 256 * p (i + 1) + 65536 * p (i + 2)

-- `SET_INT16`, `SET_INT24`
abbrev pub set_int16 : Block → ℕ → ℕ → Block
set_int16 p i v = update (update p i (v % 256)) (i + 1) (v / 256 % 256)

abbrev pub set_int24 : Block → ℕ → ℕ → Block
set_int24 p i v =
    update (update (update p i (v % 256)) (i + 1) (v / 256 % 256)) (i + 2) (v / 65536 % 256)

-- `memcpy (&dst[at], &src[from], len)`
abbrev pub copy : Block → ℕ → Block → ℕ → ℕ → Block
copy dst at src from len q = if leb at q && ltb q (at + len) then src (from + (q - at)) else dst q

-- Every cell holds a byte.
abbrev pub AreBytes : Block → Type 0
AreBytes p = (o : ℕ) → p o < 256

pub get-set_int16 : (p : Block) (i v : ℕ) → v < 65536 → get_int16 (set_int16 p i v) i ≡ v
get-set_int16 p i v h = ground arith

pub get-set_int24 : (p : Block) (i v : ℕ) → v < 16777216 → get_int24 (set_int24 p i v) i ≡ v
get-set_int24 p i v h = ground arith

-- The bytes of a three-byte number, put together again.
pub word24 : (x : ℕ) → x < 2 ^ 24 → x % 256 + 256 * (x / 256 % 256) + 65536 * (x / 65536 % 256) ≡ x
word24 x h = omega arith
