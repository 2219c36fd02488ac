-- ===== src/IncomingProxy/Accepted.antt =====
-- gate/src/incoming_proxy.rs: what `read` has checked of the identity that it returns.
use xddp.Prelude.{
  ℕ, ◌≤◌, ◌≡◌, refl, ap, subst, sym, ◌∙◌, List, [], ◌∷◌, ◌++◌, Bool, true, false, not, ◌||◌, ltb,
  ◌==◌, inl, inr, Bool-cases, length, take, arith,
}
use xddp.Protocol.Base.{Error, invalid, oversized, err-ne-ok, Result, ok, err}
use xddp.Protocol.Reader.{Arrival}
use xddp.Protocol.Reader.Takes.{stream}
use xddp.Net.{IpNets}
use xddp.Socket.{SocketAddr, is_unspecified, is_multicast}
use xddp.IncomingProxy.{
  IncomingProxyV2, Stream, signature, max_address_and_tlvs, Action, continued, ◌>>◌, return,
  reject_if, read_exact, field, same_bytes, least, endpoints, unusable, read_endpoints, read_header,
  is_trusted, read,
}
use xddp.IncomingProxy.Exact.{Took, all_of, exact-Took}
use mathlib.Core.List.{append_assoc}

-- A chain that ends in a result has passed each of its steps.
continued-ok :
    {A B : Type 0} (f : A → Action B) (r : Result A × Stream) (b : B) (s' : Stream)
    → continued f r ≡ (ok b, s')
    → (a : A) × (s₁ : Stream) × (r ≡ (ok a, s₁)) × (f a s₁ ≡ (ok b, s'))
continued-ok f (ok a, s₁) b s' e = (a, s₁, refl, e)
continued-ok f (err x, s₁) b s' e = absurd (err-ne-ok x (ap (λ r. r.0) e))

reject_if-ok :
    {B : Type 0} (t : Bool) (x : Error) (m : Action B) (s : Stream) (b : B) (s' : Stream)
    → (reject_if t x >> m) s ≡ (ok b, s')
    → (t ≡ false) × (m s ≡ (ok b, s'))
reject_if-ok false x m s b s' e = (refl, e)
reject_if-ok true x m s b s' e = absurd (err-ne-ok x (ap (λ r. r.0) e))

Took-ok :
    {k limit now : ℕ} {arrivals : List Arrival} {xs : List ℕ} {s : Stream}
    → Took k limit now arrivals (ok xs, s)
    → (length xs ≡ k) × (stream arrivals ≡ xs ++ stream s.arrivals)
Took-ok (all_of l e c) = (l, e)

read_exact-ok :
    (n limit : ℕ) (s : Stream) (xs : List ℕ) (s' : Stream)
    → read_exact n limit s ≡ (ok xs, s')
    → (length xs ≡ n) × (stream s.arrivals ≡ xs ++ stream s'.arrivals)
read_exact-ok n limit s xs s' e =
    Took-ok (subst (Took n limit s.clock s.arrivals) e (exact-Took n limit s.clock s.arrivals))

return-ok : {A : Type 0} (a b : A) (s s' : Stream) → return a s ≡ (ok b, s') → (a ≡ b) × (s ≡ s')
return-ok a b s s' e = (ground (arith, e), ground (arith, e))

same_bytes-eq : (xs ys : List ℕ) → same_bytes xs ys ≡ true → xs ≡ ys
same_bytes-eq [] [] h = refl
same_bytes-eq [] (y ∷ ys) h = absurd (ground (arith, h))
same_bytes-eq (x ∷ xs) [] h = absurd (ground (arith, h))
same_bytes-eq (x ∷ xs) (y ∷ ys) h =
    let head : x ≡ y = ground (arith, h) in
    let tail : same_bytes xs ys ≡ true = ground (arith, h) in rw (head, same_bytes-eq xs ys tail)

-- The peer is trusted, and what was read is one header of the protocol with its address part.
pub record Accepted (trusted : Bool) (src dst : SocketAddr) (s s' : Stream) : Type 0 where
  pub peer : trusted ≡ true
  pub header : List ℕ
  pub part : List ℕ
  pub signed : take 12 header ≡ signature
  pub consumed : stream s.arrivals ≡ (header ++ part) ++ stream s'.arrivals
  pub header_length : length header ≡ 16
  pub part_length : (12 ≤ length part) × (length part ≤ max_address_and_tlvs)
  pub source : (is_unspecified src.ip || is_multicast src.ip) ≡ false
  pub source_port : 1 ≤ src.port
  pub target : is_unspecified dst.ip ≡ false
  pub target_port : 1 ≤ dst.port

-- What the part after the header has passed.
Part : ℕ → ℕ → SocketAddr × SocketAddr → Stream → Stream → Type 0
Part min len e s s' =
    (body : List ℕ) × (stream s.arrivals ≡ body ++ stream s'.arrivals)
    × (min ≤ length body)
    × (length body ≤ max_address_and_tlvs)
    × (unusable e ≡ false)

body-Part :
    (min len : ℕ) (body : List ℕ) (s s₁ s' : Stream) (e : SocketAddr × SocketAddr)
    → ltb len min ≡ false
    → ltb max_address_and_tlvs len ≡ false
    → (length body ≡ len) × (stream s.arrivals ≡ body ++ stream s₁.arrivals)
    → unusable (endpoints min body) ≡ false
    → (endpoints min body ≡ e) × (s₁ ≡ s')
    → Part min len e s s'
unfolding Part
body-Part min len body s s₁ s' e long short (l, consumed) fine (same, rest) = (
  body,
  consumed ∙ ap (λ (t : Stream). body ++ stream t.arrivals) rest,
  ground (arith, long, l),
  ground (arith, short, l),
  ap unusable (sym same) ∙ fine,
)

read_endpoints-Part :
    (limit min len : ℕ) (s : Stream) (e : SocketAddr × SocketAddr) (s' : Stream)
    → read_endpoints limit min len s ≡ (ok e, s')
    → Part min len e s s'
read_endpoints-Part limit min len s e s' h =
    let (long, h₁) = reject_if-ok (ltb len min) invalid _ s e s' h in
    let (short, h₂) = reject_if-ok (ltb max_address_and_tlvs len) oversized _ s e s' h₁ in
    let (body, s₁, read_body, h₃) = continued-ok _ (read_exact len limit s) e s' h₂ in
    let (fine, h₄) = reject_if-ok (unusable (endpoints min body)) invalid _ s₁ e s' h₃ in
    body-Part min len body s s₁ s' e long short (read_exact-ok len limit s body s₁ read_body) fine
      (return-ok (endpoints min body) e s₁ s' h₄)

least-ok : (family min : ℕ) (s s₁ : Stream) → least family s ≡ (ok min, s₁) → (12 ≤ min) × (s ≡ s₁)
least-ok family min s s₁ h = elim (Bool-cases (family == 0x11)) [
  | inl four ↦
      let e : (12 ≡ min) × (s ≡ s₁) = return-ok 12 min s s₁ (rw four at h) in
      (omega (arith, e.0), e.1)
  | inr other ↦ elim (Bool-cases (family == 0x21)) [
    | inl six ↦
        let e : (36 ≡ min) × (s ≡ s₁) = return-ok 36 min s s₁ (rw (other, six) at h) in
        (omega (arith, e.0), e.1)
    | inr none_of ↦
        absurd (err-ne-ok invalid (ap (λ (r : Result ℕ × Stream). r.0) (rw (other, none_of) at h)))
  ]
]

header_test :
    (same version : Bool) → (not same || not version) ≡ false → (same ≡ true) × (version ≡ true)
header_test true true h = (refl, refl)
header_test true false h = absurd (ground (arith, h))
header_test false version h = absurd (ground (arith, h))

usable-source :
    (src dst : SocketAddr)
    → unusable (src, dst) ≡ false
    → ((is_unspecified src.ip || is_multicast src.ip) ≡ false)
      × (1 ≤ src.port)
      × (is_unspecified dst.ip ≡ false)
      × (1 ≤ dst.port)
usable-source src dst h =
    any_bad (is_unspecified src.ip) (is_multicast src.ip) src.port (is_unspecified dst.ip) dst.port
      h
  where
    any_bad :
        (a b : Bool) (p : ℕ) (c : Bool) (q : ℕ)
        → (a || b || p == 0 || c || q == 0) ≡ false
        → ((a || b) ≡ false) × (1 ≤ p) × (c ≡ false) × (1 ≤ q)
    any_bad a b p c q h =
        (ground (arith, h), ground (arith, h), ground (arith, h), ground (arith, h))

header-Accepted :
    (limit : ℕ) (trusted : Bool) (header : List ℕ) (s s₁ s' : Stream) (src dst : SocketAddr)
    → trusted ≡ true
    → (length header ≡ 16) × (stream s.arrivals ≡ header ++ stream s₁.arrivals)
    → read_header limit header s₁ ≡ (ok (src, dst), s')
    → Accepted trusted src dst s s'
unfolding Part
header-Accepted limit trusted header s s₁ s' src dst t (l, consumed) h =
    let (shown, h₁) =
      reject_if-ok (not (same_bytes (take 12 header) signature) || not (field 12 1 header == 0x21))
        invalid _ s₁ (src, dst) s' h in
    let (min, s₂, family, h₂) = continued-ok _ (least (field 13 1 header) s₁) (src, dst) s' h₁ in
    let (least_min, same) = least-ok (field 13 1 header) min s₁ s₂ family in
    let (body, part, enough, small, fine) =
      read_endpoints-Part limit min (field 14 2 header) s₂ (src, dst) s' h₂ in
    let (source, source_port, target, target_port) = usable-source src dst fine in
    let (signed, version) = header_test _ _ shown in
    record {
      peer = t;
      header = header;
      part = body;
      signed = same_bytes-eq (take 12 header) signature signed;
      consumed =
          consumed
          ∙ ap (λ (t : Stream). header ++ stream t.arrivals) same
          ∙ ap (◌++◌ header) part
          ∙ sym (append_assoc header body (stream s'.arrivals));
      header_length = l;
      part_length = (omega (arith, least_min, enough), small);
      source = source;
      source_port = source_port;
      target = target;
      target_port = target_port;
    }

-- An identity is accepted from a trusted peer only, as one signed header of sixteen bytes with an
-- address part of 12 to 4096 bytes, both consumed and nothing after them. The source is neither
-- unspecified nor multicast, the target is not unspecified, and no port is zero.
pub read-Accepted :
    (nets : IpNets) (socket_peer : SocketAddr) (cfg : IncomingProxyV2 nets.IpNet) (limit : ℕ)
    (s s' : Stream) (src dst : SocketAddr)
    → read nets socket_peer cfg limit s ≡ (ok (src, dst), s')
    → Accepted (is_trusted nets socket_peer.ip cfg) src dst s s'
unfolding read
read-Accepted nets socket_peer cfg limit s s' src dst h =
    let (trusted, h₁) =
      reject_if-ok (not (is_trusted nets socket_peer.ip cfg)) invalid _ s (src, dst) s' h in
    let (header, s₁, got_header, h₂) = continued-ok _ (read_exact 16 limit s) (src, dst) s' h₁ in
    header-Accepted limit (is_trusted nets socket_peer.ip cfg) header s s₁ s' src dst
      (ground (arith, trusted)) (read_exact-ok 16 limit s header s₁ got_header) h₂
