-- ===== src/IncomingProxy/RoundTrip.antt =====
-- gate/src/incoming_proxy.rs and gate/src/cache.rs: `read` on what `proxy_header` writes.
use xddp.Prelude.{
  ℕ, ◌≤◌, ◌<◌, ◌^◌, ◌≡◌, refl, ap, sym, ◌∙◌, List, ◌∷◌, ◌++◌, some, true, false, ltb, length, arith,
}
use xddp.Protocol.Base.{Result, ok, err, err-ne-ok}
use xddp.Protocol.Reader.{Arrival}
use xddp.Protocol.Reader.Takes.{stream}
use xddp.Protocol.Reader.Delivers.{Ready}
use xddp.Limiter.Address.{IpAddr, v4, v6, IsAddress}
use xddp.Net.{IpNets}
use xddp.Socket.{SocketAddr, to_be, length-to_be}
use xddp.Cache.Header.{address_part, with_ports, proxy_header}
use xddp.IncomingProxy.{
  IncomingProxyV2, Stream, signature, max_address_and_tlvs, Action, continued, ◌>>=◌, read_exact,
  endpoints, unusable, read_endpoints, read_header, is_trusted, read,
}
use mathlib.Core.List.{append_assoc}
use xddp.IncomingProxy.Fields.{part, length-part, source, target, source_port, target_port}
use xddp.IncomingProxy.Exact.{Given, exact-Given}

abbrev pub IsSocket : SocketAddr → Type 0
IsSocket a = IsAddress a.ip × (a.port < 2 ^ 16)

continued-at :
    {A B : Type 0} (f : A → Action B) (r : Result A × Stream) (a : A)
    → r.0 ≡ ok a
    → continued f r ≡ f a r.1
continued-at f (ok b, s) a e = let same : b ≡ a = ground (arith, e) in ap (λ x. f x s) same
continued-at f (err x, s) a e = absurd (err-ne-ok x e)

-- The sixteen bytes of the header.
abbrev front : ℕ → ℕ → List ℕ
front family len = signature ++ 0x21 ∷ family ∷ to_be 2 len

front-cut :
    (family len : ℕ) (xs ys : List ℕ)
    → (signature ++ 0x21 ∷ ((family ∷ to_be 2 len) ++ xs)) ++ ys ≡ front family len ++ (xs ++ ys)
front-cut family len xs ys =
    ap (λ (t : List ℕ). signature ++ 0x21 ∷ family ∷ t) (append_assoc (to_be 2 len) xs ys)

read_endpoints-Given :
    (limit min bound : ℕ) (s : Stream) (body rest : List ℕ) (late : List Arrival)
    (e : SocketAddr × SocketAddr)
    → ltb max_address_and_tlvs min ≡ false
    → endpoints min body ≡ e
    → unusable e ≡ false
    → Given bound body rest late (read_exact min limit s)
    → Given bound e rest late (read_endpoints limit min min s)
read_endpoints-Given limit min bound s body rest late e small same fine g =
    let enough : ltb min min ≡ false = ground arith in
    let chain : read_endpoints limit min min s ≡ (ok e, (read_exact min limit s).1) =
      rw (enough, small)
        (continued-at _ (read_exact min limit s) body g.result ∙ rw (same, fine)) in
    rw chain (record {
      result = refl;
      clock = g.clock;
      early = g.early;
      arrivals = g.arrivals;
      ready = g.ready;
      left = g.left;
    })

-- A read that comes after another one in time.
next-Given :
    {A : Type 0} (n limit : ℕ) (x : A) (xs ys : List ℕ) (late : List Arrival)
    (r : Result A × Stream)
    → length xs ≡ n
    → Given limit x (xs ++ ys) late r
    → Given limit xs ys late (read_exact n limit r.1)
next-Given n limit x xs ys late r h g =
    let started =
      exact-Given n limit r.1.clock limit g.early late xs ys (omega (arith, g.clock)) g.ready h
        g.left in
    rw g.arrivals started

-- The header of a family, and the part after it.
abbrev Family : ℕ → ℕ → Type 0
Family family len =
    (limit : ℕ) (s : Stream)
    → read_header limit (front family len) s ≡ read_endpoints limit len len s

over_ipv4 : Family 0x11 12
unfolding to_be
over_ipv4 limit s = refl

over_ipv6 : Family 0x21 36
unfolding to_be
over_ipv6 limit s = refl

module _ (limit : ℕ) (s : Stream) (early late : List Arrival) (now : s.clock ≤ limit)
    (arrivals : s.arrivals ≡ early ++ late) (ready : Ready limit early) where
  chain-Given :
      (family len : ℕ) (body rest : List ℕ) (e : SocketAddr × SocketAddr)
      → Family family len
      → ltb max_address_and_tlvs len ≡ false
      → length body ≡ len
      → endpoints len body ≡ e
      → unusable e ≡ false
      → stream early ≡ front family len ++ (body ++ rest)
      → Given limit e rest late ((read_exact 16 limit >>= read_header limit) s)
  chain-Given family len body rest e known small hl same fine h =
      let sixteen : length (front family len) ≡ 16 = omega (arith, length-to_be 2 len) in
      let got_front : Given limit (front family len) (body ++ rest) late (read_exact 16 limit s) =
        rw arrivals (
          exact-Given 16 limit s.clock limit early late (front family len) (body ++ rest)
            (omega (arith, now)) ready sixteen h) in
      let after_front = (read_exact 16 limit s).1 in
      let stages : (read_exact 16 limit >>= read_header limit) s
          ≡ read_endpoints limit len len after_front =
        continued-at (read_header limit) (read_exact 16 limit s) (front family len) got_front.result
        ∙ known limit after_front in
      rw stages (
        read_endpoints-Given limit len limit after_front body rest late e small same fine (
          next-Given len limit (front family len) body rest late (read_exact 16 limit s) hl
            got_front))

  by_family :
      (a b : IpAddr) (p q : ℕ) (wire rest : List ℕ)
      → IsAddress a
      → IsAddress b
      → p < 2 ^ 16
      → q < 2 ^ 16
      → unusable (record { ip = a; port = p }, record { ip = b; port = q }) ≡ false
      → with_ports (record { ip = a; port = p }) (record { ip = b; port = q }) (address_part a b)
        ≡ some wire
      → stream early ≡ wire ++ rest
      → Given limit
          (record { ip = a; port = p }, record { ip = b; port = q })
          rest
          late
          ((read_exact 16 limit >>= read_header limit) s)
  by_family (v4 a) (v4 b) p q wire rest ha hb hp hq fine e h =
      let same : (signature ++ 0x21 ∷ ((0x11 ∷ to_be 2 12) ++ (to_be 4 a ++ to_be 4 b)))
            ++ (to_be 2 p ++ to_be 2 q)
          ≡ wire =
        ground (arith, e) in
      chain-Given 0x11 12 (part 4 a b p q) rest _ over_ipv4 refl (length-part 4 a b p q ha hb hp hq)
        (rw (
          source 4 a b p q ha hb hp hq,
          target 4 a b p q ha hb hp hq,
          source_port 4 a b p q ha hb hp hq,
          target_port 4 a b p q ha hb hp hq,
        ))
        fine
        (h
          ∙ ap (λ (t : List ℕ). t ++ rest)
              (sym same ∙ front-cut 0x11 12 (to_be 4 a ++ to_be 4 b) (to_be 2 p ++ to_be 2 q))
          ∙ append_assoc (front 0x11 12) (part 4 a b p q) rest)
  by_family (v6 a) (v6 b) p q wire rest ha hb hp hq fine e h =
      let same : (signature ++ 0x21 ∷ ((0x21 ∷ to_be 2 36) ++ (to_be 16 a ++ to_be 16 b)))
            ++ (to_be 2 p ++ to_be 2 q)
          ≡ wire =
        ground (arith, e) in
      chain-Given 0x21 36 (part 16 a b p q) rest _ over_ipv6 refl
        (length-part 16 a b p q ha hb hp hq)
        (rw (
          source 16 a b p q ha hb hp hq,
          target 16 a b p q ha hb hp hq,
          source_port 16 a b p q ha hb hp hq,
          target_port 16 a b p q ha hb hp hq,
        ))
        fine
        (h
          ∙ ap (λ (t : List ℕ). t ++ rest)
              (sym same ∙ front-cut 0x21 36 (to_be 16 a ++ to_be 16 b) (to_be 2 p ++ to_be 2 q))
          ∙ append_assoc (front 0x21 36) (part 16 a b p q) rest)
  by_family (v4 a) (v6 b) p q wire rest ha hb hp hq fine e h = absurd (ground (arith, e))
  by_family (v6 a) (v4 b) p q wire rest ha hb hp hq fine e h = absurd (ground (arith, e))

-- What `proxy_header` writes for two addresses of one family, `read` gives back to a trusting gate
-- when it comes before the deadline, in chunks of any size and with anything after it, unless the
-- addresses are among those that are refused. Exactly the bytes of the header are consumed.
pub read-proxy_header :
    (nets : IpNets) (socket_peer : SocketAddr) (cfg : IncomingProxyV2 nets.IpNet) (limit : ℕ)
    (s : Stream) (early late : List Arrival) (src dst : SocketAddr) (wire rest : List ℕ)
    → s.clock ≤ limit
    → s.arrivals ≡ early ++ late
    → Ready limit early
    → is_trusted nets socket_peer.ip cfg ≡ true
    → IsSocket src
    → IsSocket dst
    → unusable (src, dst) ≡ false
    → proxy_header src dst ≡ some wire
    → stream early ≡ wire ++ rest
    → Given limit (src, dst) rest late (read nets socket_peer cfg limit s)
unfolding read proxy_header
read-proxy_header nets socket_peer cfg limit s early late src dst wire rest now arrivals ready
      trusted hs hd fine e h =
    rw trusted (
      by_family limit s early late now arrivals ready src.ip dst.ip src.port dst.port wire rest hs.0
        hd.0 hs.1 hd.1 fine e h)
