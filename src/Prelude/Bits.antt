-- ===== src/Prelude/Bits.antt =====
-- Masks and disjoint unions of bits as arithmetic. Facts about one byte are tables, checked by
-- evaluation; those about a word follow from the digits.
use Prim.Native.Nat.{
  ℕ, zero, suc, ◌+◌, ◌*◌, ◌/◌, ◌%◌, ◌^◌, ◌≤◌, ◌<◌, min, max, bit_and, bit_or, digits,
  bit_or-bitwise, bit_and-bitwise,
}
use mathlib.Core.Path.{◌≡◌, refl, ap, ◌∙◌}
use mathlib.Core.Bool.{Bool, true, ◌&&◌}
use native.Mathlib.Omega.{arith}
use native.Mathlib.Nat.{pow-suc}
use xddp.Prelude.Tests.{◌==◌}

-- Every number below `top` has the same value under both functions.
same_below : (ℕ → ℕ) → (ℕ → ℕ) → ℕ → Bool
same_below f g zero = true
same_below f g (suc top) = f top == g top && same_below f g top

from_table : (f g : ℕ → ℕ) (x top : ℕ) → same_below f g top ≡ true → x < top → f x ≡ g x
unfolding same_below
from_table f g x (suc top) table h = ground (arith, from_table f g x top)
from_table f g x zero table h = absurd (omega arith)

pub byte_mark : (b : ℕ) → b < 128 → bit_or b 128 ≡ b + 128
unfolding same_below
byte_mark b = from_table (λ b. bit_or b 128) (λ b. b + 128) b 128 refl

pub byte_high : (b : ℕ) → b < 256 → bit_and b 0xf0 ≡ b / 16 * 16
unfolding same_below
byte_high b = from_table (λ b. bit_and b 0xf0) (λ b. b / 16 * 16) b 256 refl

pub byte_more : (b : ℕ) → b < 256 → bit_and b 0x80 ≡ b / 128 * 128
unfolding same_below
byte_more b = from_table (λ b. bit_and b 0x80) (λ b. b / 128 * 128) b 256 refl

pub byte_low : (b : ℕ) → b < 256 → bit_and b 0x7f ≡ b % 128
unfolding same_below
byte_low b = from_table (λ b. bit_and b 0x7f) (λ b. b % 128) b 256 refl

-- `digits` may be given more rounds than its first number has digits.
module _ (z : ℕ → ℕ) (f : ℕ → ℕ → ℕ) where
  spare_rounds : (b a n m : ℕ) → (a ≤ m) × (a ≤ n) → digits z f n a b ≡ digits z f m a b
  spare_rounds b (suc a) (suc n) (suc m) h =
      let rest = spare_rounds (b / 2) (suc a / 2) n m (omega (arith, h.0), omega (arith, h.1)) in
      ap (λ (high : ℕ). high * 2 + f (suc a % 2) (b % 2)) rest
  spare_rounds b (suc a) (suc n) zero h = absurd (omega (arith, h.0))
  spare_rounds b (suc a) zero m h = absurd (omega (arith, h.1))
  spare_rounds b zero (suc n) (suc m) h = refl
  spare_rounds b zero (suc n) zero h = refl
  spare_rounds b zero zero (suc m) h = refl
  spare_rounds b zero zero zero h = refl

-- So the lowest digit can be split off.
zero-bit_or : (b : ℕ) → bit_or 0 b ≡ b
zero-bit_or b = bit_or-bitwise 0 b

bit_or_step : (a b : ℕ) → bit_or a b ≡ bit_or (a / 2) (b / 2) * 2 + max (a % 2) (b % 2)
bit_or_step zero b = omega (arith, zero-bit_or b, zero-bit_or (b / 2))
bit_or_step (suc a) b = omega (
  arith,
  bit_or-bitwise (suc a) b,
  bit_or-bitwise (suc a / 2) (b / 2),
  spare_rounds (λ b. b) max (b / 2) (suc a / 2) a (suc a / 2) (omega arith, omega arith),
)

zero-bit_and : (b : ℕ) → bit_and 0 b ≡ 0
zero-bit_and b = bit_and-bitwise 0 b

pub split_and : (b a : ℕ) → min (a % 2) (b % 2) + bit_and (a / 2) (b / 2) * 2 ≡ bit_and a b
split_and b (suc a) =
    let rounds =
      spare_rounds (λ c. 0) min (b / 2) (suc a / 2) a (suc a / 2) (omega arith, omega arith) in
    omega (arith, rounds, bit_and-bitwise (suc a / 2) (b / 2), bit_and-bitwise (suc a) b)
split_and b zero = omega (arith, zero-bit_and (b / 2), zero-bit_and b)

nothing_in_common : (a bound : ℕ) → a ≤ bound → bit_and a 0 ≡ 0
nothing_in_common (suc a) (suc bound) h =
    let half = nothing_in_common (suc a / 2) bound (omega arith) in
    omega (arith, half, split_and 0 (suc a))
nothing_in_common (suc a) zero h = absurd (omega arith)
nothing_in_common zero bound h = zero-bit_and 0

-- A mask of ones, one more at a time.
mask_1 : (a : ℕ) → a % 2 ≡ bit_and a 1
mask_1 a =
    let above = nothing_in_common (a / 2) (a / 2) (omega arith) in
    omega (arith, above, split_and 1 a)

mask_3 : (a : ℕ) → a % 4 ≡ bit_and a 3
mask_3 a = omega (arith, mask_1 (a / 2), split_and 3 a)

mask_7 : (a : ℕ) → a % 8 ≡ bit_and a 7
mask_7 a = omega (arith, mask_3 (a / 2), split_and 7 a)

mask_15 : (a : ℕ) → a % 16 ≡ bit_and a 15
mask_15 a = omega (arith, mask_7 (a / 2), split_and 15 a)

mask_31 : (a : ℕ) → a % 32 ≡ bit_and a 31
mask_31 a = omega (arith, mask_15 (a / 2), split_and 31 a)

mask_63 : (a : ℕ) → a % 64 ≡ bit_and a 63
mask_63 a = omega (arith, mask_31 (a / 2), split_and 63 a)

-- The lowest seven bits of a word of any width.
pub bit_and-127 : (a : ℕ) → bit_and a 127 ≡ a % 128
bit_and-127 a = omega (arith, mask_63 (a / 2), split_and 127 a)

half_shift : (k g : ℕ) → g * 2 ^ suc k ≡ g * 2 ^ k * 2
half_shift k g = omega (arith, ap (λ (t : ℕ). g * t) (pow-suc 2 k))

or_even : (a x : ℕ) → bit_or (a / 2) x ≡ a / 2 + x → bit_or a (x * 2) ≡ a + x * 2
or_even a x h =
    let e : x * 2 / 2 ≡ x = omega arith in bit_or_step a (x * 2) ∙ rw (e, h) (omega arith)

-- Bits that do not overlap add up.
pub bit_or-shift : (k a g : ℕ) → a < 2 ^ k → bit_or a (g * 2 ^ k) ≡ a + g * 2 ^ k
bit_or-shift zero zero g h = omega (arith, zero-bit_or (g * 2 ^ 0))
bit_or-shift zero (suc a) g h = absurd (omega arith)
bit_or-shift (suc k) a g h =
    rw (half_shift k g)
      (or_even a (g * 2 ^ k) (bit_or-shift k (a / 2) g (omega (arith, pow-suc 2 k))))
