-- ===== src/Net.antt =====
-- The networks of the `ipnet` crate, which the gate's configuration and runtime file hold, as a
-- parameter: their shape (the length of the prefix and the network address) and `contains`.
use xddp.Prelude.{ℕ, ◌-◌, ◌*◌, ◌/◌, ◌^◌, ◌≤◌, ◌<◌, ◌≡◌, Bool, false, ◌==◌, List}
use xddp.Protocol.Utf8.{any}
use xddp.Limiter.Address.{IpAddr, v4, v6}

-- `IpNet::V4` and `IpNet::V6`, with `prefix_len()` and `network()`.
pub data Shape : Type 0 where
  v4_net : ℕ → ℕ → Shape
  v6_net : ℕ → ℕ → Shape

pub record IpNets : Type 1 where
  pub IpNet : Type 0
  pub shape : IpNet → Shape
  pub contains : IpNet → IpAddr → Bool

-- An address is in a network of its own family when the bits of the prefix agree.
abbrev pub agrees : ℕ → ℕ → ℕ → ℕ → Bool
agrees width bits network a = a / 2 ^ (width - bits) == network / 2 ^ (width - bits)

abbrev pub inside : Shape → IpAddr → Bool
inside (v4_net bits network) (v4 a) = agrees 32 bits network a
inside (v4_net bits network) (v6 a) = false
inside (v6_net bits network) (v4 a) = false
inside (v6_net bits network) (v6 a) = agrees 128 bits network a

-- A prefix is no longer than an address, and the network address has no bit outside of it.
abbrev pub IsNetwork : ℕ → ℕ → ℕ → Type 0
IsNetwork width bits network =
    (bits ≤ width)
    × (network < 2 ^ width)
    × (network / 2 ^ (width - bits) * 2 ^ (width - bits) ≡ network)

abbrev pub IsShape : Shape → Type 0
IsShape (v4_net bits network) = IsNetwork 32 bits network
IsShape (v6_net bits network) = IsNetwork 128 bits network

-- What the crate documents of networks.
pub record Documented (nets : IpNets) : Type 0 where
  pub shape_fits : (n : nets.IpNet) → IsShape (nets.shape n)
  pub contains_inside :
      (n : nets.IpNet) (ip : IpAddr) → nets.contains n ip ≡ inside (nets.shape n) ip

-- `nets.iter().any(|n| n.contains(&ip))`
abbrev pub in_any : (nets : IpNets) → List nets.IpNet → IpAddr → Bool
in_any nets ns ip = any (λ n. nets.contains n ip) ns
