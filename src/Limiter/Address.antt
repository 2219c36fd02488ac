-- ===== src/Limiter/Address.antt =====
-- gate/src/limiter.rs: `normalize` and `subnet`. An address is the number of its bits.
use xddp.Prelude.{
  ℕ, ◌-◌, ◌*◌, ◌/◌, ◌%◌, ◌^◌, ◌<◌, ◌≡◌, ◌↔◌, bit_and, Bool, true, false, ◌==◌, if◌then◌else◌, arith,
}

pub data IpAddr : Type 0 where
  v4 : ℕ → IpAddr
  v6 : ℕ → IpAddr

-- The number has the bits of its family.
abbrev pub IsAddress : IpAddr → Type 0
IsAddress (v4 a) = a < 2 ^ 32
IsAddress (v6 a) = a < 2 ^ 128

unfoldable pub ip_eq : IpAddr → IpAddr → Bool
ip_eq (v4 a) (v4 b) = a == b
ip_eq (v4 a) (v6 b) = false
ip_eq (v6 a) (v4 b) = false
ip_eq (v6 a) (v6 b) = a == b

pub ip_eq_iff : (a b : IpAddr) → (ip_eq a b ≡ true) ↔ (a ≡ b)
unfolding ip_eq
ip_eq_iff (v4 a) (v4 b) = ground arith
ip_eq_iff (v4 a) (v6 b) = ground arith
ip_eq_iff (v6 a) (v4 b) = ground arith
ip_eq_iff (v6 a) (v6 b) = ground arith

-- `to_ipv4_mapped`: the addresses ::ffff:a.b.c.d.
unfoldable pub normalize : IpAddr → IpAddr
normalize (v4 v) = v4 v
normalize (v6 v) = if v / 2 ^ 32 == 0xffff then v4 (v % 2 ^ 32) else v6 v

-- `u32::MAX << (32-v4)`, and the same over 128 bits.
abbrev pub mask : ℕ → ℕ → ℕ
mask width bits = if bits == 0 then 0 else (2 ^ width - 1) * 2 ^ (width - bits) % 2 ^ width

unfoldable pub subnet : IpAddr → ℕ → ℕ → IpAddr
subnet (v4 v) bits4 bits6 = v4 (bit_and v (mask 32 bits4))
subnet (v6 v) bits4 bits6 = v6 (bit_and v (mask 128 bits6))
