-- ===== src/Limiter/Subnets.antt =====
-- gate/src/limiter.rs: `subnet` and the leading bits of addresses.
use xddp.Prelude.{
  ℕ, ◌-◌, ◌*◌, ◌/◌, ◌^◌, ◌≤◌, ◌<◌, ◌≡◌, refl, ap, ◌∙◌, bit_and, Bool, false, ◌==◌, inl, inr,
  Bool-cases, arith,
}
use native.Mathlib.Nat.{one-le-pow}
use xddp.Prelude.Masks.{high_bits, shifted_ones, scaled}
use xddp.Limiter.Address.{IpAddr, v4, v6, IsAddress, ip_eq, mask, subnet}

mask-high : (width bits : ℕ) → bits ≤ width → mask width bits ≡ 2 ^ width - 2 ^ (width - bits)
mask-high width bits h = elim (Bool-cases (bits == 0)) [
  | inl none_of ↦
      let s : width - bits ≡ width = ground (arith, none_of) in rw (none_of, s) (ground arith)
  | inr some_of ↦ rw some_of (shifted_ones width (width - bits) (omega arith))
]

-- The addresses of one family whose first bits are the same.
abbrev pub same_prefix : ℕ → ℕ → IpAddr → IpAddr → Bool
same_prefix bits4 bits6 (v4 a) (v4 b) = a / 2 ^ (32 - bits4) == b / 2 ^ (32 - bits4)
same_prefix bits4 bits6 (v4 a) (v6 b) = false
same_prefix bits4 bits6 (v6 a) (v4 b) = false
same_prefix bits4 bits6 (v6 a) (v6 b) = a / 2 ^ (128 - bits6) == b / 2 ^ (128 - bits6)

swapped : (m n : ℕ) → (m == n) ≡ (n == m)
swapped m n = ground arith

masks-agree :
    (width bits a b : ℕ)
    → bits ≤ width
    → a < 2 ^ width
    → b < 2 ^ width
    → (bit_and a (mask width bits) == bit_and b (mask width bits))
      ≡ (a / 2 ^ (width - bits) == b / 2 ^ (width - bits))
masks-agree width bits a b h ha hb =
    let s : ℕ = width - bits in
    let left : bit_and a (mask width bits) ≡ a / 2 ^ s * 2 ^ s =
      ap (bit_and a) (mask-high width bits h) ∙ high_bits s width a (omega arith) ha in
    let right : bit_and b (mask width bits) ≡ b / 2 ^ s * 2 ^ s =
      ap (bit_and b) (mask-high width bits h) ∙ high_bits s width b (omega arith) hb in
    rw (left, right)
      (scaled (b / 2 ^ s) (a / 2 ^ s) (2 ^ s) (one-le-pow s 2 (omega arith))
        ∙ swapped (b / 2 ^ s) (a / 2 ^ s))

-- Two addresses share an entry of prefixes exactly when they are of one family and agree on the
-- configured number of leading bits, of which there are at most as many as an address has.
pub subnet-same_prefix :
    (a b : IpAddr) (bits4 bits6 : ℕ)
    → bits4 ≤ 32
    → bits6 ≤ 128
    → IsAddress a
    → IsAddress b
    → ip_eq (subnet a bits4 bits6) (subnet b bits4 bits6) ≡ same_prefix bits4 bits6 a b
unfolding subnet ip_eq
subnet-same_prefix (v4 a) (v4 b) bits4 bits6 h₄ h₆ ha hb = masks-agree 32 bits4 a b h₄ ha hb
subnet-same_prefix (v4 a) (v6 b) bits4 bits6 h₄ h₆ ha hb = refl
subnet-same_prefix (v6 a) (v4 b) bits4 bits6 h₄ h₆ ha hb = refl
subnet-same_prefix (v6 a) (v6 b) bits4 bits6 h₄ h₆ ha hb = masks-agree 128 bits6 a b h₆ ha hb
