-- ===== src/Cache/Header.antt =====
-- gate/src/cache.rs: `proxy_header`.
use xddp.Prelude.{ℕ, List, [], ◌∷◌, ◌++◌, Option, none, some}
use xddp.Limiter.Address.{IpAddr, v4, v6}
use xddp.Socket.{SocketAddr, to_be}

-- The family, the length and the addresses; there are none for two families.
abbrev pub address_part : IpAddr → IpAddr → Option (List ℕ)
address_part (v4 s) (v4 d) = some ((0x11 ∷ to_be 2 12) ++ (to_be 4 s ++ to_be 4 d))
address_part (v4 s) (v6 d) = none
address_part (v6 s) (v4 d) = none
address_part (v6 s) (v6 d) = some ((0x21 ∷ to_be 2 36) ++ (to_be 16 s ++ to_be 16 d))

abbrev pub with_ports : SocketAddr → SocketAddr → Option (List ℕ) → Option (List ℕ)
with_ports src dst none = none
with_ports src dst (some part) = some (
    ((13 ∷ 10 ∷ 13 ∷ 10 ∷ 0 ∷ 13 ∷ 10 ∷ 81 ∷ 85 ∷ 73 ∷ 84 ∷ 10 ∷ []) ++ 0x21 ∷ part)
    ++ (to_be 2 src.port ++ to_be 2 dst.port))

unfoldable pub proxy_header : SocketAddr → SocketAddr → Option (List ℕ)
unfolding to_be
proxy_header src dst = with_ports src dst (address_part src.ip dst.ip)
