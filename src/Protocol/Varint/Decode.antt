-- ===== src/Protocol/Varint/Decode.antt =====
-- gate/src/protocol.rs: `varint` on any bytes.
use xddp.Prelude.{
  ℕ, zero, suc, ◌+◌, ◌*◌, ◌%◌, ◌^◌, ◌≤◌, ◌<◌, ◌≡◌, ap, List, [], ◌∷◌, ◌++◌, some, length, All,
  arith,
}
use xddp.Prelude.Bits.{byte_low, byte_more, byte_high, bit_or-shift}
use xddp.Prelude.Int.{ℤ, IsI32, to_i32-IsI32}
use xddp.Protocol.Base.{ok, IsByte}
use xddp.Protocol.Varint.{varint_loop, varint, add_group}
use native.Mathlib.Numerals.{towards_suc}
use native.Mathlib.Nat.{mod-eq_of_lt}

pub shift_seven : (i : ℕ) → 2 ^ (7 * (i + 1)) ≡ 128 * 2 ^ (7 * i)
shift_seven i =
    let e : 7 * (i + 1) ≡ 7 * i + 7 = omega arith in
    let f : 2 ^ (7 * i + 7) ≡ 128 * 2 ^ (7 * i) = simp towards_suc (omega arith) in
    omega (arith, ap (λ (t : ℕ). 2 ^ t) e, f)

-- What a round keeps: the value stays below the bits that are still to come, and within 32 bits.
pub round_fits :
    (i g value : ℕ)
    → i ≤ 4
    → g < 128
    → (i ≡ 4 → g < 16)
    → value < 2 ^ (7 * i)
    → (g * 2 ^ (7 * i) < 2 ^ 32)
      × (value + g * 2 ^ (7 * i) < 2 ^ 32)
      × (value + g * 2 ^ (7 * i) < 2 ^ (7 * (i + 1)))
round_fits zero g value h hg h4 hv = omega arith
round_fits (suc zero) g value h hg h4 hv = omega arith
round_fits (suc (suc zero)) g value h hg h4 hv = omega arith
round_fits (suc (suc (suc zero))) g value h hg h4 hv = omega arith
round_fits (suc (suc (suc (suc zero)))) g value h hg h4 hv = omega arith
round_fits (suc (suc (suc (suc (suc i))))) g value h hg h4 hv = absurd (omega arith)

-- The groups do not overlap, so the union of bits is a sum.
pub add_group-eq :
    (value b i : ℕ)
    → b < 256
    → value < 2 ^ (7 * i)
    → b % 128 * 2 ^ (7 * i) < 2 ^ 32
    → add_group value b i ≡ value + b % 128 * 2 ^ (7 * i)
add_group-eq value b i hb hv hg =
    rw (byte_low b hb, mod-eq_of_lt hg) (bit_or-shift (7 * i) value (b % 128) hv)

-- One round of the loop on a byte of a number that fits.
module _ (i value b : ℕ) (hi : i ≤ 4) (hb : b < 256) (hv : value < 2 ^ (7 * i)) where
  pub round_value :
      (i ≡ 4 → b % 128 < 16)
      → (add_group value b i ≡ value + b % 128 * 2 ^ (7 * i))
        × (add_group value b i < 2 ^ 32)
        × (add_group value b i < 2 ^ (7 * (i + 1)))
  round_value h4 =
      let (p, q, r) = round_fits i (b % 128) value hi (omega arith) h4 hv in
      let e = add_group-eq value b i hb hv p in (e, rw e q, rw e r)

varint_loop_bounds :
    (k i value : ℕ) (src : List ℕ) (n : ℤ) (used : ℕ)
    → i + k ≡ 5
    → value < 2 ^ (7 * i)
    → All IsByte src
    → varint_loop k i value src ≡ ok (some (n, used))
    → IsI32 n × (i < used) × (used ≤ 5) × (used ≤ i + length src)
unfolding varint_loop
varint_loop_bounds zero i value src n used hk hv hs e = cc
varint_loop_bounds (suc k) i value [] n used hk hv hs e = cc
varint_loop_bounds (suc k) i value (b ∷ rest) n used hk hv (hb, hs) e = ground (
  arith,
  byte_high b,
  byte_more b,
  round_value i value b,
  to_i32-IsI32 (add_group value b i),
  varint_loop_bounds k (i + 1) (add_group value b i) rest n used,
)

-- A number that `varint` reads is an i32, and it takes one to five bytes of the data.
pub varint_bounds :
    (src : List ℕ) (n : ℤ) (used : ℕ)
    → All IsByte src
    → varint src ≡ ok (some (n, used))
    → IsI32 n × (1 ≤ used) × (used ≤ 5) × (used ≤ length src)
unfolding varint
varint_bounds src n used hs e = ground (arith, varint_loop_bounds 5 0 0 src n used)

varint_loop-append :
    (k i value : ℕ) (src more : List ℕ) (n : ℤ) (used : ℕ)
    → varint_loop k i value src ≡ ok (some (n, used))
    → varint_loop k i value (src ++ more) ≡ ok (some (n, used))
unfolding varint_loop
varint_loop-append zero i value src more n used e = cc
varint_loop-append (suc k) i value [] more n used e = cc
varint_loop-append (suc k) i value (b ∷ rest) more n used e =
    ground (arith, varint_loop-append k (i + 1) (add_group value b i) rest more n used)

-- `varint` does not look past the number.
pub varint-append :
    (src more : List ℕ) (n : ℤ) (used : ℕ)
    → varint src ≡ ok (some (n, used))
    → varint (src ++ more) ≡ ok (some (n, used))
unfolding varint
varint-append src more n used e = varint_loop-append 5 0 0 src more n used e
