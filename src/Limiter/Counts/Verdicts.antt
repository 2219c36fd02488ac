-- ===== src/Limiter/Counts/Verdicts.antt =====
-- gate/src/limiter.rs: the promises of `accept` and `sweep` to their callers.
use xddp.Prelude.{
  ℕ, ◌%◌, ◌<◌, ◌≡◌, ◌∙◌, some, true, false, ◌||◌, inl, inr, Bool-cases, if◌then◌else◌, ◌==◌, arith,
}
use xddp.Prelude.Float.{Float}
use xddp.Limiter.Address.{IpAddr, ip_eq, normalize, subnet}
use xddp.Limiter.Table.{lookup, shard}
use xddp.Limiter.Table.Laws.{IsTable, lookup-sweep_shard, kept_only}
use xddp.Limiter.Bucket.{Policy}
use xddp.Limiter.State.{Entry, Limiter, Ticket, Verdict, refused, granted, new_ticket, at_cap}
use xddp.Limiter.Accept.{accept}
use xddp.Limiter.Tickets.{keep, sweep}
use xddp.Limiter.Counts.{view}
use xddp.Limiter.Counts.Accepts.{
  Outcome, on_panic, on_refusal, on_grant, counted_up, accept-Outcome,
}

-- A connection that was let in: no cap was reached, and the counters of its address and of its
-- prefix went up by one, and no others.
pub record LetIn {F : Type 0} (l : Limiter F) (ip prefix : IpAddr) (t : Ticket) (l' : Limiter F)
    : Type 0 where
  pub ticket : t ≡ new_ticket ip prefix
  pub ip_counts :
      (k : IpAddr) → view l'.ip k ≡ (if ip_eq ip k then counted_up (view l.ip ip) else view l.ip k)
  pub prefix_counts :
      (k : IpAddr)
      → view l'.prefix k
        ≡ (if ip_eq prefix k then counted_up (view l.prefix prefix) else view l.prefix k)
  pub connections :
      (at_cap l.cfg.connections_ip (view l.ip ip).active
        || at_cap l.cfg.connections_prefix (view l.prefix prefix).active)
      ≡ false
  pub prelogin :
      (at_cap l.cfg.prelogin_ip (view l.ip ip).pending
        || at_cap l.cfg.prelogin_prefix (view l.prefix prefix).pending)
      ≡ false

granted_LetIn :
    {F : Type 0} (l : Limiter F) (ip prefix : IpAddr) (r : Verdict Ticket × Limiter F) (t : Ticket)
    (l' : Limiter F)
    → Outcome l ip prefix r
    → r ≡ (granted t, l')
    → LetIn l ip prefix t l'
granted_LetIn l ip prefix _ t l' (on_panic u) e = absurd (ground (arith, e))
granted_LetIn l ip prefix _ t l' (on_refusal u) e = absurd (ground (arith, e))
granted_LetIn l ip prefix _ t l' (on_grant {t = t₁} {l' = l₁} a) e =
    let same_ticket : t₁ ≡ t = ground (arith, e) in
    let same_limiter : l₁ ≡ l' = ground (arith, e) in
    rw (← same_ticket, ← same_limiter)
      (record {
        ticket = a.ticket;
        ip_counts = a.ip_counts;
        prefix_counts = a.prefix_counts;
        connections = rw (a.under_cap_ip, a.under_cap_prefix);
        prelogin = rw (a.under_pending_ip, a.under_pending_prefix);
      })

-- When `accept` grants a ticket, the ticket is a fresh one for the normalized address and its
-- prefix, no cap of connections or of logins was reached for either, and in the tables the
-- counters of these two keys, and of no other, went up by one.
pub accept-LetIn :
    (fl : Float) (l : Limiter fl.F64) (addr : IpAddr) (p : Policy) (now : ℕ) (t : Ticket)
    (l' : Limiter fl.F64)
    → accept fl l addr p now ≡ (granted t, l')
    → LetIn l (normalize addr) (subnet (normalize addr) l.cfg.ipv4_prefix l.cfg.ipv6_prefix) t l'
accept-LetIn fl l addr p now t l' e =
    granted_LetIn l _ _ (accept fl l addr p now) t l' (accept-Outcome fl l addr p now) e

refused_same :
    {F : Type 0} (l : Limiter F) (ip prefix : IpAddr) (r : Verdict Ticket × Limiter F)
    (l' : Limiter F)
    → Outcome l ip prefix r
    → r ≡ (refused, l')
    → (k : IpAddr) → (view l'.ip k ≡ view l.ip k) × (view l'.prefix k ≡ view l.prefix k)
refused_same l ip prefix _ l' (on_panic u) e k = absurd (ground (arith, e))
refused_same l ip prefix _ l' (on_refusal {l' = l₁} u) e k =
    let same_limiter : l₁ ≡ l' = ground (arith, e) in
    rw (← same_limiter) (u.ip_same k, u.prefix_same k)
refused_same l ip prefix _ l' (on_grant a) e k = absurd (ground (arith, e))

-- When `accept` refuses, for any of its reasons, the counters of every key are what they were.
pub accept-refused :
    (fl : Float) (l : Limiter fl.F64) (addr : IpAddr) (p : Policy) (now : ℕ) (l' : Limiter fl.F64)
    → accept fl l addr p now ≡ (refused, l')
    → (k : IpAddr) → (view l'.ip k ≡ view l.ip k) × (view l'.prefix k ≡ view l.prefix k)
accept-refused fl l addr p now l' e k =
    refused_same l _ _ (accept fl l addr p now) l' (accept-Outcome fl l addr p now) e k

-- `sweep` removes no entry of an address that has a live connection, and does not change it,
-- whichever shard it sweeps and whenever, in tables whose keys are unique.
pub sweep-keeps :
    (fl : Float) (l : Limiter fl.F64) (index now : ℕ) (k : IpAddr) (e : Entry fl.F64)
    → IsTable l.ip
    → lookup l.ip k ≡ some e
    → 0 < e.active
    → lookup (sweep fl l index now).ip k ≡ some e
unfolding sweep
sweep-keeps fl l index now k e w p h =
    let found = lookup-sweep_shard l.ip (keep fl l.cfg.idle_entry_seconds now) (index % 64) k w in
    let kept : keep fl l.cfg.idle_entry_seconds now e ≡ true = ground (arith, h) in
    found ∙ (elim (Bool-cases (shard l.ip k == index % 64)) [
      | inl hit ↦ rw (hit, p, kept_only, kept)
      | inr miss ↦ rw (miss, p)
    ])
