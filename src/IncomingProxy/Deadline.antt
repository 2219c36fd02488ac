-- ===== src/IncomingProxy/Deadline.antt =====
-- gate/src/incoming_proxy.rs: the deadline of `read`.
use xddp.Prelude.{ℕ, ◌≤◌, max, List, Bool, true, false, not, ◌||◌, ltb, ◌==◌, take, arith}
use xddp.Protocol.Base.{Error, invalid, oversized, Result, ok, err}
use xddp.Protocol.Reader.{Arrival}
use xddp.Net.{IpNets}
use xddp.Socket.{SocketAddr}
use xddp.IncomingProxy.{
  IncomingProxyV2, Stream, signature, max_address_and_tlvs, Action, continued, ◌>>=◌, return,
  reject_if, read_exact, field, same_bytes, least, endpoints, unusable, read_endpoints, read_header,
  is_trusted, read,
}
use xddp.IncomingProxy.Exact.{Took, all_of, nothing, exact-Took}

-- No later than the deadline, or at once.
record Prompt {A : Type 0} (limit : ℕ) (m : Action A) : Type 0 where
  by : (s : Stream) → (m s).1.clock ≤ max s.clock limit

continued-clock :
    {A B : Type 0} (limit now : ℕ) (f : A → Action B) (r : Result A × Stream)
    → r.1.clock ≤ max now limit
    → ((a : A) → Prompt limit (f a))
    → (continued f r).1.clock ≤ max now limit
continued-clock limit now f (ok a, s) h p = let later = (p a).by s in omega (arith, h, later)
continued-clock limit now f (err e, s) h p = h

bind-Prompt :
    {A B : Type 0} {limit : ℕ} {m : Action A} {f : A → Action B}
    → Prompt limit m
    → ((a : A) → Prompt limit (f a))
    → Prompt limit (m >>= f)
bind-Prompt {limit = limit} {m = m} {f = f} h p = record {
  by = λ s. continued-clock limit s.clock f (m s) (h.by s) p;
}

reject_if-by :
    (limit : ℕ) (b : Bool) (e : Error) (s : Stream) → (reject_if b e s).1.clock ≤ max s.clock limit
reject_if-by limit true e s = omega arith
reject_if-by limit false e s = omega arith

reject_if-Prompt : {limit : ℕ} (b : Bool) (e : Error) → Prompt limit (reject_if b e)
reject_if-Prompt {limit = limit} b e = record { by = reject_if-by limit b e }

Took-clock :
    (k limit now : ℕ) (arrivals : List Arrival) (r : Result (List ℕ) × Stream)
    → Took k limit now arrivals r
    → r.1.clock ≤ max now limit
Took-clock k limit now arrivals _ (all_of l e c) = c
Took-clock k limit now arrivals _ (nothing c) = c

read_exact-Prompt : {limit : ℕ} (n : ℕ) → Prompt limit (read_exact n limit)
read_exact-Prompt {limit = limit} n = record {
  by = λ s. Took-clock n limit s.clock s.arrivals _ (exact-Took n limit s.clock s.arrivals);
}

return-Prompt : {A : Type 0} {limit : ℕ} (a : A) → Prompt limit (return a)
return-Prompt a = record { by = λ s. omega arith }

least-Prompt : (limit family : ℕ) → Prompt limit (least family)
least-Prompt limit family = record { by = λ s. ground arith }

read_endpoints-Prompt : (limit min len : ℕ) → Prompt limit (read_endpoints limit min len)
read_endpoints-Prompt limit min len = bind-Prompt (reject_if-Prompt (ltb len min) invalid) λ u₁.
    bind-Prompt (reject_if-Prompt (ltb max_address_and_tlvs len) oversized) λ u₂.
      bind-Prompt (read_exact-Prompt len) λ body.
        bind-Prompt (reject_if-Prompt (unusable (endpoints min body)) invalid)
          λ u₃. return-Prompt (endpoints min body)

read_header-Prompt : (limit : ℕ) (header : List ℕ) → Prompt limit (read_header limit header)
read_header-Prompt limit header =
    bind-Prompt
      (reject_if-Prompt
        (not (same_bytes (take 12 header) signature) || not (field 12 1 header == 0x21)) invalid)
      λ u.
        bind-Prompt (least-Prompt limit (field 13 1 header))
          λ min. read_endpoints-Prompt limit min (field 14 2 header)

-- Whatever arrives and whenever, `read` returns by its deadline, or at once when the deadline has
-- passed already.
pub read-deadline :
    (nets : IpNets) (socket_peer : SocketAddr) (cfg : IncomingProxyV2 nets.IpNet) (limit : ℕ)
    (s : Stream)
    → (read nets socket_peer cfg limit s).1.clock ≤ max s.clock limit
unfolding read
read-deadline nets socket_peer cfg limit s =
    let prompt =
      bind-Prompt {limit = limit} {f = λ u. read_exact 16 limit >>= read_header limit}
        (reject_if-Prompt (not (is_trusted nets socket_peer.ip cfg)) invalid)
        (λ u. bind-Prompt (read_exact-Prompt 16) (read_header-Prompt limit)) in
    prompt.by s
