-- ===== src/Socket.antt =====
-- Socket addresses, and the numbers that the PROXY protocol writes in network order: what
-- gate/src/incoming_proxy.rs and gate/src/cache.rs use of `std::net`, `to_be_bytes` and
-- `from_be_bytes`.
use xddp.Prelude.{
  ℕ, zero, suc, ◌+◌, ◌*◌, ◌/◌, ◌%◌, ◌^◌, ◌<◌, ◌≡◌, refl, ap, sym, ◌∙◌, List, [], ◌∷◌, Bool, ◌==◌,
  length, arith,
}
use native.Mathlib.Nat.{pow-suc, div-div-eq-div-mul, div-eq_of_lt}
use xddp.Limiter.Address.{IpAddr, v4, v6}

pub record SocketAddr : Type 0 where
  pub ip : IpAddr
  pub port : ℕ

-- `is_unspecified`, and `is_multicast`: 224.0.0.0/4 and ff00::/8.
abbrev pub is_unspecified : IpAddr → Bool
is_unspecified (v4 a) = a == 0
is_unspecified (v6 a) = a == 0

abbrev pub is_multicast : IpAddr → Bool
is_multicast (v4 a) = a / 2 ^ 28 == 14
is_multicast (v6 a) = a / 2 ^ 120 == 255

-- The `k` bytes of a number, the highest first.
unfoldable pub to_be : ℕ → ℕ → List ℕ
to_be zero v = []
to_be (suc k) v = v / 256 ^ k % 256 ∷ to_be k v

abbrev be_from : ℕ → List ℕ → ℕ
be_from acc [] = acc
be_from acc (b ∷ bs) = be_from (acc * 256 + b) bs

abbrev pub from_be : List ℕ → ℕ
from_be bs = be_from 0 bs

pub length-to_be : (k v : ℕ) → length (to_be k v) ≡ k
unfolding to_be
length-to_be zero v = refl
length-to_be (suc k) v = omega (arith, length-to_be k v)

next_digit : (k v : ℕ) → v / 256 ^ suc k * 256 + v / 256 ^ k % 256 ≡ v / 256 ^ k
next_digit k v =
    let quotient : v / 256 ^ suc k ≡ v / 256 ^ k / 256 =
      ap (λ (t : ℕ). v / t) (pow-suc 256 k) ∙ sym (div-div-eq-div-mul v (256 ^ k) 256) in
    omega (arith, quotient)

be_from-to_be : (k v : ℕ) → be_from (v / 256 ^ k) (to_be k v) ≡ v
unfolding to_be
be_from-to_be zero v = omega arith
be_from-to_be (suc k) v =
    ap (λ (acc : ℕ). be_from acc (to_be k v)) (next_digit k v) ∙ be_from-to_be k v

pub from_be-to_be : (k v : ℕ) → v < 256 ^ k → from_be (to_be k v) ≡ v
from_be-to_be k v h =
    ap (λ (acc : ℕ). be_from acc (to_be k v)) (sym (div-eq_of_lt h)) ∙ be_from-to_be k v
