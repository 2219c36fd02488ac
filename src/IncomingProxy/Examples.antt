-- ===== src/IncomingProxy/Examples.antt =====
-- gate/src/incoming_proxy.rs on concrete data: instances of the theorems.
use xddp.Prelude.{ℕ, ◌≤◌, ◌≡◌, refl, List, [], ◌∷◌, ◌++◌, some, true, max, take, drop, arith}
use xddp.Protocol.Base.{ok}
use xddp.Protocol.Reader.{Arrival, got, failed}
use xddp.Limiter.Address.{v4, normalize}
use xddp.Runtime.Examples.{Place, lan, places}
use xddp.Socket.{SocketAddr}
use xddp.Cache.Header.{proxy_header}
use xddp.IncomingProxy.{IncomingProxyV2, Stream, is_trusted, read, exact}
use xddp.IncomingProxy.Exact.{Given}
use xddp.IncomingProxy.Deadline.{read-deadline}
use xddp.IncomingProxy.Accepted.{Accepted, read-Accepted}
use xddp.IncomingProxy.RoundTrip.{read-proxy_header}

abbrev cfg : IncomingProxyV2 Place
cfg = record { enabled = true; trusted_proxies = lan ∷ [] }

abbrev proxy : SocketAddr
proxy = record { ip = v4 0x0a000001; port = 4000 }

abbrev client : SocketAddr
client = record { ip = v4 0xc0000207; port = 12345 }

abbrev server : SocketAddr
server = record { ip = v4 0xc6336401; port = 25565 }

abbrev wire : List ℕ
wire =
    13 ∷ 10 ∷ 13 ∷ 10 ∷ 0 ∷ 13 ∷ 10 ∷ 81 ∷ 85 ∷ 73 ∷ 84 ∷ 10 ∷ 0x21 ∷ 0x11 ∷ 0 ∷ 12 ∷ 192 ∷ 0 ∷ 2
    ∷ 7 ∷ 198 ∷ 51 ∷ 100 ∷ 1 ∷ 48 ∷ 57 ∷ 99 ∷ 221 ∷ []

header_bytes : proxy_header client server ≡ some wire
unfolding proxy_header
header_bytes = refl

-- The header in three chunks, the last one with two bytes of the handshake.
abbrev chunks : List Arrival
chunks =
    got 10 (take 5 wire) ∷ got 20 (take 18 (drop 5 wire)) ∷ got 30 (drop 23 wire ++ 7 ∷ 8 ∷ []) ∷ []

abbrev start : Stream
start = record { clock = 0; arrivals = chunks ++ failed 90 ∷ [] }

trusted : is_trusted places proxy.ip cfg ≡ true
unfolding is_trusted normalize
trusted = refl

read-proxy_header_example :
    Given 50 (client, server) (7 ∷ 8 ∷ []) (failed 90 ∷ []) (read places proxy cfg 50 start)
read-proxy_header_example =
    read-proxy_header places proxy cfg 50 start chunks (failed 90 ∷ []) client server wire
      (7 ∷ 8 ∷ []) (omega arith) refl
      (omega arith, omega arith, (omega arith, omega arith, (omega arith, omega arith, tt))) trusted
      (omega arith, omega arith) (omega arith, omega arith) refl header_bytes refl

abbrev after : Stream
after = record { clock = 30; arrivals = got 30 (7 ∷ 8 ∷ []) ∷ failed 90 ∷ [] }

identity : read places proxy cfg 50 start ≡ (ok (client, server), after)
unfolding read exact is_trusted normalize
identity = refl

read-Accepted_example : Accepted (is_trusted places proxy.ip cfg) client server start after
read-Accepted_example = read-Accepted places proxy cfg 50 start after client server identity

read-deadline_example : (read places proxy cfg 50 start).1.clock ≤ max start.clock 50
read-deadline_example = read-deadline places proxy cfg 50 start
