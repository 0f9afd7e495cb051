-- ===== src/Base/Bits.antt =====
-- The masks of a bitmap byte: `0x80 >> k`, and what testing, setting and clearing one does.
use Prim.Native.Nat.{ℕ, zero, suc, ◌+◌, ◌-◌, ◌/◌, ◌^◌, ◌<◌, bit_and, bit_or}
use mathlib.Core.Path.{◌≡◌, refl}
use mathlib.Core.Bool.{Bool, true, false, not, ◌&&◌, ◌||◌}
use native.Mathlib.Omega.{arith}
use rsx.Base.Tests.{◌==◌, if◌then◌else◌, ltb}

-- A test that holds of every number less than m, found by running it.
unfoldable pub passes : (m : ℕ) → (ℕ → Bool) → Bool
passes zero test = true
passes (suc m) test = if test m then passes m test else false

pub passes-at : {m : ℕ} (test : ℕ → Bool) {a : ℕ} → a < m → passes m test ≡ true → test a ≡ true
unfolding passes
passes-at {m = zero} test {a = a} less run = absurd (omega arith)
passes-at {m = suc m} test {a = a} less run = ground (arith, run, passes-at {m = m} test {a = a})

-- `0x80 >> k`
unfoldable pub bit_mask : ℕ → ℕ
bit_mask k = 0x80 / 2 ^ k

-- `(bmp & m) != 0`
unfoldable pub has_bit : ℕ → ℕ → Bool
has_bit bmp m = not (bit_and bmp m == 0)

-- `data[offs] &= ~bit_mask` on a byte
unfoldable pub clear_bit : ℕ → ℕ → ℕ
clear_bit bmp m = bit_and bmp (255 - m)

bool_eq : Bool → Bool → Bool
bool_eq true b = b
bool_eq false b = not b

bool_eq→eq : (a b : Bool) → bool_eq a b ≡ true → a ≡ b
unfolding bool_eq
bool_eq→eq a b h = ground arith

set_table :
    passes 8 (λ k. passes 8 (λ j. passes 256 (λ x.
      bool_eq (has_bit (bit_or x (bit_mask k)) (bit_mask j)) ((k == j) || has_bit x (bit_mask j)))))
    ≡ true
unfolding passes has_bit bit_mask bool_eq
set_table = refl

clear_table :
    passes 8 (λ k. passes 8 (λ j. passes 256 (λ x.
      bool_eq
        (has_bit (clear_bit x (bit_mask k)) (bit_mask j))
        (not (k == j) && has_bit x (bit_mask j)))))
    ≡ true
unfolding passes has_bit clear_bit bit_mask bool_eq
clear_table = refl

byte_table :
    passes 8
      (λ k. passes 256 (λ x. ltb (bit_or x (bit_mask k)) 256 && ltb (clear_bit x (bit_mask k)) 256))
    ≡ true
unfolding passes clear_bit bit_mask
byte_table = refl

pub has_bit-set :
    (x k j : ℕ)
    → x < 256
    → k < 8
    → j < 8
    → has_bit (bit_or x (bit_mask k)) (bit_mask j) ≡ ((k == j) || has_bit x (bit_mask j))
has_bit-set x k j hx hk hj =
    bool_eq→eq _ _ (passes-at _ hx (passes-at _ hj (passes-at _ hk set_table)))

pub has_bit-clear :
    (x k j : ℕ)
    → x < 256
    → k < 8
    → j < 8
    → has_bit (clear_bit x (bit_mask k)) (bit_mask j) ≡ (not (k == j) && has_bit x (bit_mask j))
has_bit-clear x k j hx hk hj =
    bool_eq→eq _ _ (passes-at _ hx (passes-at _ hj (passes-at _ hk clear_table)))

set_clear_byte :
    (x k : ℕ)
    → x < 256
    → k < 8
    → (ltb (bit_or x (bit_mask k)) 256 && ltb (clear_bit x (bit_mask k)) 256) ≡ true
set_clear_byte x k hx hk = passes-at _ hx (passes-at _ hk byte_table)

pub bit_or-lt : (x k : ℕ) → x < 256 → k < 8 → bit_or x (bit_mask k) < 256
bit_or-lt x k hx hk = ground (arith, set_clear_byte x k hx hk)

pub clear_bit-lt : (x k : ℕ) → x < 256 → k < 8 → clear_bit x (bit_mask k) < 256
clear_bit-lt x k hx hk = ground (arith, set_clear_byte x k hx hk)

mask_table :
    passes 7 (λ k. (bit_mask k / 2 == bit_mask (k + 1)) && not (bit_mask k / 2 == 0)) ≡ true
unfolding passes bit_mask
mask_table = refl

-- `bit_mask >>= 1`: the next bit_mask, or zero behind the last.
pub half-bit_mask :
    (k : ℕ) → k < 7 → (bit_mask k / 2 ≡ bit_mask (k + 1)) × ((bit_mask k / 2 == 0) ≡ false)
half-bit_mask k h = ground (arith, passes-at _ h mask_table)

pub half-bit_mask_last : bit_mask 7 / 2 ≡ 0
unfolding bit_mask
half-bit_mask_last = refl

pub bit_mask_zero : bit_mask 0 ≡ 0x80
unfolding bit_mask
bit_mask_zero = refl
