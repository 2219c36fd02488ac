-- ===== src/IncomingProxy.antt =====
-- gate/src/incoming_proxy.rs: the PROXY protocol v2 in front of a connection. A connection is what
-- will arrive on it, as for the reader of frames; `read_exact` waits for it until the deadline.
pub mod Exact
pub mod Deadline
pub mod Accepted
pub mod Fields
pub mod RoundTrip
mod Examples
use xddp.Prelude.{
  ℕ, zero, suc, ◌-◌, max, List, [], ◌∷◌, ◌++◌, Bool, true, false, not, ◌||◌, ◌&&◌, ltb, leb, ◌==◌,
  if◌then◌else◌, length, take, drop,
}
use xddp.Protocol.Base.{Error, io, invalid, oversized, deadline, Result, ok, err}
use xddp.Protocol.Reader.{Arrival, got, failed}
use xddp.Limiter.Address.{IpAddr, v4, v6, normalize}
use xddp.Net.{IpNets, in_any}
use xddp.Socket.{SocketAddr, from_be, is_unspecified, is_multicast}

pub record IncomingProxyV2 (N : Type 0) : Type 0 where
  pub enabled : Bool
  pub trusted_proxies : List N

pub record Stream : Type 0 where
  pub clock : ℕ
  pub arrivals : List Arrival

-- `"\r\n\r\n\0\r\nQUIT\n"`
abbrev pub signature : List ℕ
signature = 13 ∷ 10 ∷ 13 ∷ 10 ∷ 0 ∷ 13 ∷ 10 ∷ 81 ∷ 85 ∷ 73 ∷ 84 ∷ 10 ∷ []

abbrev pub max_address_and_tlvs : ℕ
max_address_and_tlvs = 4096

-- What an operation on the connection returns, with the connection after it.
abbrev pub Action : Type 0 → Type 0
Action A = Stream → Result A × Stream

abbrev pub continued : {A B : Type 0} → (A → Action B) → Result A × Stream → Result B × Stream
continued f (ok a, s) = f a s
continued f (err e, s) = (err e, s)

infixl 5 ◌>>=◌ ◌>>◌
abbrev pub ◌>>=◌ : {A B : Type 0} → Action A → (A → Action B) → Action B
◌>>=◌ m f s = continued f (m s)

abbrev pub ◌>>◌ : {B : Type 0} → Action (Unit {0}) → Action B → Action B
m >> k = m >>= λ _. k

abbrev pub return : {A : Type 0} → A → Action A
return a s = (ok a, s)

abbrev pub fail : {A : Type 0} → Error → Action A
fail e s = (err e, s)

-- `if test { return Err(e); }`
abbrev pub reject_if : Bool → Error → Action (Unit {0})
reject_if true e s = (err e, s)
reject_if false e s = (ok tt, s)

-- The bytes are put in front of those that the loop reads later.
abbrev pub prepended : List ℕ → Result (List ℕ) × Stream → Result (List ℕ) × Stream
prepended bs (ok xs, s) = (ok (bs ++ xs), s)
prepended bs (err e, s) = (err e, s)

-- `timeout_at(deadline, stream.read_exact(..))`, with the errors that `read` makes of a timeout and
-- of an error or the end of the stream. What has arrived is read before the timeout is looked at.
unfoldable pub exact : ℕ → ℕ → ℕ → List Arrival → Result (List ℕ) × Stream
exact zero limit now arrivals = (ok [], record { clock = now; arrivals = arrivals })
exact (suc k) limit now [] = (err deadline, record { clock = max now limit; arrivals = [] })
exact (suc k) limit now (failed time ∷ rest) =
    if leb time (max now limit)
    then (err io, record { clock = max now time; arrivals = rest })
    else (err deadline, record { clock = max now limit; arrivals = failed time ∷ rest })
exact (suc k) limit now (got time bs ∷ rest) =
    let more = prepended bs (exact (suc k - length bs) limit (max now time) rest) in
    if leb time (max now limit)
    then (if length bs == 0
        then (err io, record { clock = max now time; arrivals = rest })
        else if leb (length bs) (suc k)
        then more
        else (
          ok (take (suc k) bs),
          record { clock = max now time; arrivals = got time (drop (suc k) bs) ∷ rest },
        ))
    else (err deadline, record { clock = max now limit; arrivals = got time bs ∷ rest })

abbrev pub read_exact : ℕ → ℕ → Action (List ℕ)
read_exact n limit s = exact n limit s.clock s.arrivals

-- The bytes of a header from `i` on, as a number.
abbrev pub field : ℕ → ℕ → List ℕ → ℕ
field i n bs = from_be (take n (drop i bs))

abbrev pub same_bytes : List ℕ → List ℕ → Bool
same_bytes [] [] = true
same_bytes [] (y ∷ ys) = false
same_bytes (x ∷ xs) [] = false
same_bytes (x ∷ xs) (y ∷ ys) = x == y && same_bytes xs ys

-- The least length of what follows the header, by the family: TCP over IPv4 or over IPv6.
abbrev pub least : ℕ → Action ℕ
least family =
    if family == 0x11 then return 12 else if family == 0x21 then return 36 else fail invalid

abbrev pub endpoints : ℕ → List ℕ → SocketAddr × SocketAddr
endpoints min body =
    if min == 12
    then (
      record { ip = v4 (field 0 4 body); port = field 8 2 body },
      record { ip = v4 (field 4 4 body); port = field 10 2 body },
    )
    else (
      record { ip = v6 (field 0 16 body); port = field 32 2 body },
      record { ip = v6 (field 16 16 body); port = field 34 2 body },
    )

abbrev pub unusable : SocketAddr × SocketAddr → Bool
unusable (src, dst) =
    is_unspecified src.ip
    || is_multicast src.ip
    || src.port == 0
    || is_unspecified dst.ip
    || dst.port == 0

-- The part after the header, of `len` bytes.
abbrev pub read_endpoints : ℕ → ℕ → ℕ → Action (SocketAddr × SocketAddr)
read_endpoints limit min len = do
  reject_if (ltb len min) invalid
  reject_if (ltb max_address_and_tlvs len) oversized
  body ← read_exact len limit
  reject_if (unusable (endpoints min body)) invalid
  return (endpoints min body)

abbrev pub read_header : ℕ → List ℕ → Action (SocketAddr × SocketAddr)
read_header limit header = do
  reject_if (not (same_bytes (take 12 header) signature) || not (field 12 1 header == 0x21)) invalid
  min ← least (field 13 1 header)
  read_endpoints limit min (field 14 2 header)

module _ (nets : IpNets) where
  open nets use {IpNet}

  unfoldable pub is_trusted : IpAddr → IncomingProxyV2 IpNet → Bool
  is_trusted peer cfg = in_any nets cfg.trusted_proxies (normalize peer)

  unfoldable pub read : SocketAddr → IncomingProxyV2 IpNet → ℕ → Action (SocketAddr × SocketAddr)
  unfolding exact is_trusted
  read socket_peer cfg limit = do
    reject_if (not (is_trusted socket_peer.ip cfg)) invalid
    header ← read_exact 16 limit
    read_header limit header
