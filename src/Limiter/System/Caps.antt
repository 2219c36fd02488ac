-- ===== src/Limiter/System/Caps.antt =====
-- gate/src/limiter.rs: the configured caps bound the live tickets of an address and of a prefix.
pub mod Reached
use xddp.Prelude.{
  ℕ, ◌+◌, ◌%◌, ◌^◌, ◌≤◌, ◌<◌, ◌≡◌, refl, ap, sym, ◌∙◌, Option, none, some, Bool, true, false, inl,
  inr, Bool-cases, Option-cases, if◌then◌else◌, ◌==◌, ◌||◌, leb, List, [], ◌∷◌, ◌++◌, length, arith,
}
use xddp.Prelude.Float.{Float}
use xddp.Config.Limits.{Limits}
use xddp.Metrics.{Metrics}
use xddp.Limiter.Address.{IpAddr, ip_eq, ip_eq_iff}
use xddp.Limiter.Bucket.{Event, Policy}
use xddp.Limiter.Table.{lookup}
use xddp.Limiter.State.{
  Limiter, Ticket, Verdict, panicked, refused, granted, new_limiter, new_ticket, at_cap,
}
use xddp.Limiter.Accept.{accept}
use xddp.Limiter.Tickets.{event, sweep, enter_status, mark_admitted, drop_ticket}
use xddp.Limiter.Counts.{Counts, view, Unchanged, no_counts}
use xddp.Limiter.Counts.Accepts.{Outcome, on_panic, on_refusal, on_grant, Admitted, accept-Outcome}
use xddp.Limiter.Counts.Effects.{event-Unchanged, view-at}
use xddp.Limiter.System.{
  System, joined, marks, Step, on_accept, on_event, on_sweep, on_enter, on_admitted, on_marks,
  on_drop, Reach, starts, steps,
}
use xddp.Limiter.System.Held.{held, held-middle, own, key, at_key, plus}
use xddp.Limiter.System.Moves.{Counted}
use xddp.Limiter.System.Invariant.{Consistent, enter_again, admitted_again, reached-Consistent}

-- A cap of 0 bounds nothing.
abbrev pub under : ℕ → ℕ → Bool
under cap n = cap == 0 || leb n cap

-- What is held at an address, and at a prefix, under the caps.
pub record Bounded {F : Type 0} (cfg : Limits F) (ip prefix : Counts) : Type 0 where
  pub connections_ip : under cfg.connections_ip ip.active ≡ true
  pub connections_prefix : under cfg.connections_prefix prefix.active ≡ true
  pub prelogin_ip : under cfg.prelogin_ip ip.pending ≡ true
  pub prelogin_prefix : under cfg.prelogin_prefix prefix.pending ≡ true
  pub status_ip : under cfg.status_ip ip.status ≡ true

-- Of the caps, those that are not 0 bound what is held at every key.
pub record Capped {F : Type 0} (cfg : Limits F) (ts : List Ticket) : Type 0 where
  pub connections_ip :
      (k : IpAddr) → 0 < cfg.connections_ip → (held true ts k).active ≤ cfg.connections_ip
  pub connections_prefix :
      (k : IpAddr) → 0 < cfg.connections_prefix → (held false ts k).active ≤ cfg.connections_prefix
  pub prelogin_ip : (k : IpAddr) → 0 < cfg.prelogin_ip → (held true ts k).pending ≤ cfg.prelogin_ip
  pub prelogin_prefix :
      (k : IpAddr) → 0 < cfg.prelogin_prefix → (held false ts k).pending ≤ cfg.prelogin_prefix
  pub status_ip : (k : IpAddr) → 0 < cfg.status_ip → (held true ts k).status ≤ cfg.status_ip

pub record Less (c d : Counts) : Type 0 where
  pub active_le : c.active ≤ d.active
  pub pending_le : c.pending ≤ d.pending
  pub status_le : c.status ≤ d.status

pub Less-Capped :
    {F : Type 0} (cfg : Limits F) (ts ts' : List Ticket)
    → ((in_ip : Bool) (k : IpAddr) → Less (held in_ip ts' k) (held in_ip ts k))
    → Capped cfg ts
    → Capped cfg ts'
Less-Capped cfg ts ts' le c = record {
  connections_ip = λ k h. omega (arith, (le true k).active_le, c.connections_ip k h);
  connections_prefix = λ k h. omega (arith, (le false k).active_le, c.connections_prefix k h);
  prelogin_ip = λ k h. omega (arith, (le true k).pending_le, c.prelogin_ip k h);
  prelogin_prefix = λ k h. omega (arith, (le false k).pending_le, c.prelogin_prefix k h);
  status_ip = λ k h. omega (arith, (le true k).status_le, c.status_ip k h);
}

pub marks-Less :
    (xs : List Ticket) (t : Ticket) (ys : List Ticket) (a b c : Bool) (in_ip : Bool) (k : IpAddr)
    → Less (held in_ip (xs ++ (marks t a b c) ∷ ys) k) (held in_ip (xs ++ t ∷ ys) k)
marks-Less xs t ys a b c in_ip k =
    rw (held-middle in_ip xs t ys k, held-middle in_ip xs (marks t a b c) ys k)
      (record { active_le = ground arith; pending_le = ground arith; status_le = ground arith })

pub admitted-Less :
    (xs : List Ticket) (t : Ticket) (ys : List Ticket) (in_ip : Bool) (k : IpAddr)
    → Less (held in_ip (xs ++ (record t { admitted = true }) ∷ ys) k) (held in_ip (xs ++ t ∷ ys) k)
admitted-Less xs t ys in_ip k =
    rw (held-middle in_ip xs t ys k, held-middle in_ip xs (record t { admitted = true }) ys k)
      (record { active_le = ground arith; pending_le = ground arith; status_le = ground arith })

pub dropped-Less :
    (xs : List Ticket) (t : Ticket) (ys : List Ticket) (in_ip : Bool) (k : IpAddr)
    → Less (held in_ip (xs ++ ys) k) (held in_ip (xs ++ t ∷ ys) k)
dropped-Less xs t ys in_ip k =
    rw (held-middle in_ip xs t ys k)
      (record { active_le = ground arith; pending_le = ground arith; status_le = ground arith })

-- One more at a key whose cap is not reached.
one_more :
    (cap : ℕ) (f : Counts → ℕ) (i : IpAddr) (c : IpAddr → Counts)
    → at_cap cap (f (c i)) ≡ false
    → ((k : IpAddr) → 0 < cap → f (c k) ≤ cap)
    → (k : IpAddr) (n : ℕ) → n ≤ (if ip_eq i k then 1 else 0)
    → 0 < cap
    → n + f (c k) ≤ cap
one_more cap f i c room before k n few h = elim (Bool-cases (ip_eq i k)) [
  | inl hit ↦
      let same : f (c i) ≡ f (c k) = ap (λ (j : IpAddr). f (c j)) ((ip_eq_iff i k).0 hit) in
      ground (arith, same, room, h, few, hit)
  | inr miss ↦ ground (arith, before k h, few, miss)
]

granted_caps :
    {F : Type 0} (l l' : Limiter F) (ip prefix : IpAddr) (t : Ticket) (ts : List Ticket)
    → Admitted l ip prefix t l'
    → Consistent l ts
    → Capped l.cfg ts
    → Capped l.cfg (new_ticket ip prefix ∷ ts)
unfolding held
granted_caps l l' ip prefix t ts a c caps = record {
  connections_ip = λ k.
      one_more l.cfg.connections_ip (λ d. d.active) ip (held true ts)
        (ap (λ (d : Counts). at_cap l.cfg.connections_ip d.active) (sym (c.ip_counted ip))
          ∙ a.under_cap_ip)
        caps.connections_ip k (at_key ip (own true (new_ticket ip prefix)) k).active (ground arith);
  connections_prefix = λ k.
      one_more l.cfg.connections_prefix (λ d. d.active) prefix (held false ts)
        (ap (λ (d : Counts). at_cap l.cfg.connections_prefix d.active)
            (sym (c.prefix_counted prefix))
          ∙ a.under_cap_prefix)
        caps.connections_prefix k (at_key prefix (own false (new_ticket ip prefix)) k).active
        (ground arith);
  prelogin_ip = λ k.
      one_more l.cfg.prelogin_ip (λ d. d.pending) ip (held true ts)
        (ap (λ (d : Counts). at_cap l.cfg.prelogin_ip d.pending) (sym (c.ip_counted ip))
          ∙ a.under_pending_ip)
        caps.prelogin_ip k (at_key ip (own true (new_ticket ip prefix)) k).pending (ground arith);
  prelogin_prefix = λ k.
      one_more l.cfg.prelogin_prefix (λ d. d.pending) prefix (held false ts)
        (ap (λ (d : Counts). at_cap l.cfg.prelogin_prefix d.pending) (sym (c.prefix_counted prefix))
          ∙ a.under_pending_prefix)
        caps.prelogin_prefix k (at_key prefix (own false (new_ticket ip prefix)) k).pending
        (ground arith);
  status_ip = λ k h. ground (arith, caps.status_ip k h);
}

pub accepted_caps :
    {F : Type 0} (l : Limiter F) (ip prefix : IpAddr) (ts : List Ticket)
    (r : Verdict Ticket × Limiter F)
    → Outcome l ip prefix r
    → Consistent l ts
    → Capped l.cfg ts
    → (r.1.cfg ≡ l.cfg) × Capped l.cfg (joined r.0 ts)
accepted_caps l ip prefix ts _ (on_panic u) c caps = (u.cfg_same, caps)
accepted_caps l ip prefix ts _ (on_refusal u) c caps = (u.cfg_same, caps)
accepted_caps l ip prefix ts _ (on_grant {t} {l'} a) c caps =
    (a.cfg_same, rw a.ticket (granted_caps l l' ip prefix t ts a c caps))

record OneStatus (n : ℕ) (c d : Counts) : Type 0 where
  active_at : c.active ≡ d.active
  pending_at : c.pending ≡ d.pending
  status_at : c.status ≤ n + d.status

one_status :
    (xs : List Ticket) (t : Ticket) (ys : List Ticket) (in_ip : Bool) (k : IpAddr)
    → OneStatus
        (if ip_eq (key in_ip t) k then 1 else 0)
        (held in_ip (xs ++ (record t { status = true }) ∷ ys) k)
        (held in_ip (xs ++ t ∷ ys) k)
one_status xs t ys in_ip k =
    rw (held-middle in_ip xs t ys k, held-middle in_ip xs (record t { status = true }) ys k)
      (record { active_at = ground arith; pending_at = ground arith; status_at = ground arith })

-- One more status connection of a ticket, at its address.
pub status_more :
    {F : Type 0} (cfg : Limits F) (xs : List Ticket) (t : Ticket) (ys : List Ticket)
    → t.status ≡ false
    → at_cap cfg.status_ip (held true (xs ++ t ∷ ys) t.ip).status ≡ false
    → Capped cfg (xs ++ t ∷ ys)
    → Capped cfg (xs ++ (record t { status = true }) ∷ ys)
status_more cfg xs t ys new room caps = record {
  connections_ip =
      λ k h. ground (arith, (one_status xs t ys true k).active_at, caps.connections_ip k h);
  connections_prefix =
      λ k h. ground (arith, (one_status xs t ys false k).active_at, caps.connections_prefix k h);
  prelogin_ip = λ k h. ground (arith, (one_status xs t ys true k).pending_at, caps.prelogin_ip k h);
  prelogin_prefix =
      λ k h. ground (arith, (one_status xs t ys false k).pending_at, caps.prelogin_prefix k h);
  status_ip = λ k h. ground (
    arith,
    one_more cfg.status_ip (λ d. d.status) t.ip (held true (xs ++ t ∷ ys)) room caps.status_ip k
        (if ip_eq t.ip k then 1 else 0) (ground arith) h,
    (one_status xs t ys true k).status_at,
  );
}
