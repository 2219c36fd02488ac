-- ===== src/Limiter/Counts/Accepts.antt =====
-- gate/src/limiter.rs: what `accept` decides, and what it leaves in the tables.
use xddp.Prelude.{
  ℕ, ◌≡◌, refl, ap, sym, ◌∙◌, Option, none, some, Bool, true, false, ◌||◌, inl, inr, Option-cases,
  if◌then◌else◌, get_elem?, arith,
}
use xddp.Prelude.Float.{Float}
use xddp.Config.Limits.{Four}
use xddp.Metrics.{Metrics}
use xddp.Limiter.Address.{IpAddr, ip_eq, normalize, subnet}
use xddp.Limiter.Table.{Table, lookup}
use xddp.Limiter.Table.Laws.{IsTable, Fits, insert-IsTable, write-IsTable}
use xddp.Limiter.Bucket.{connect, Policy, Bucket}
use xddp.Limiter.State.{
  Entry, Limiter, Ticket, Verdict, panicked, refused, granted, first_failing, is_full, store,
  at_cap, refill, new_ticket, counted, up,
}
use xddp.Limiter.Accept.{admit, accept_rates, accept_caps, accept}
use xddp.Limiter.Counts.{
  Counts, counts, view, view-insert, view-write_same, Unchanged, counts-entry_or_new, counts-pay,
}

-- One more connection, which is not admitted yet.
abbrev pub counted_up : Counts → Counts
counted_up c = record { active = up c.active; pending = up c.pending; status = c.status }

-- A ticket was granted: it is fresh, the counters of its two keys went up by one and no other
-- changed, and no cap was reached before.
pub record Admitted {F : Type 0} (l : Limiter F) (ip prefix : IpAddr) (t : Ticket) (l' : Limiter F)
    : Type 0 where
  pub ticket : t ≡ new_ticket ip prefix
  pub ip_counts :
      (k : IpAddr) → view l'.ip k ≡ (if ip_eq ip k then counted_up (view l.ip ip) else view l.ip k)
  pub prefix_counts :
      (k : IpAddr)
      → view l'.prefix k
        ≡ (if ip_eq prefix k then counted_up (view l.prefix prefix) else view l.prefix k)
  pub cfg_same : l'.cfg ≡ l.cfg
  pub tables : IsTable l.ip → IsTable l.prefix → IsTable l'.ip × IsTable l'.prefix
  pub under_cap_ip : at_cap l.cfg.connections_ip (view l.ip ip).active ≡ false
  pub under_cap_prefix : at_cap l.cfg.connections_prefix (view l.prefix prefix).active ≡ false
  pub under_pending_ip : at_cap l.cfg.prelogin_ip (view l.ip ip).pending ≡ false
  pub under_pending_prefix : at_cap l.cfg.prelogin_prefix (view l.prefix prefix).pending ≡ false

-- A call that grants nothing changes no counter.
pub data Outcome {F : Type 0} (l : Limiter F) (ip prefix : IpAddr)
    : Verdict Ticket × Limiter F → Type 0 where
  on_panic : {l' : Limiter F} → Unchanged l l' → Outcome l ip prefix (panicked, l')
  on_refusal : {l' : Limiter F} → Unchanged l l' → Outcome l ip prefix (refused, l')
  on_grant :
      {t : Ticket} {l' : Limiter F}
      → Admitted l ip prefix t l'
      → Outcome l ip prefix (granted t, l')

pub four_ways :
    {A : Type 0} (P : A → Type 0) (a b c : Bool) (w x y z : A)
    → P w
    → P x
    → P y
    → P z
    → P (first_failing a b c w x y z)
unfolding first_failing
four_ways P true true true w x y z pw px py pz = pz
four_ways P true true false w x y z pw px py pz = py
four_ways P true false c w x y z pw px py pz = px
four_ways P false b c w x y z pw px py pz = pw

-- A call that leaves the tables alone.
pub same_tables :
    {F : Type 0} (l l' : Limiter F)
    → l'.ip ≡ l.ip
    → l'.prefix ≡ l.prefix
    → l'.cfg ≡ l.cfg
    → Unchanged l l'
same_tables l l' i p c = record {
  ip_same = λ k. rw i;
  prefix_same = λ k. rw p;
  cfg_same = c;
  tables = λ ti tp. (rw i ti, rw p tp);
}

-- A branch on two tests, of which the other branch may use that both are false.
pub either_fails :
    {A : Type 0} (P : A → Type 0) (a b : Bool) (x y : A)
    → P x
    → (a ≡ false → b ≡ false → P y)
    → P (if a || b then x else y)
either_fails P true b x y px py = px
either_fails P false true x y px py = px
either_fails P false false x y px py = py refl refl

module _ (fl : Float) (l : Limiter fl.F64) (ip prefix : IpAddr) where
  open fl use {F64}

  -- Writing entries back with the counters that they had.
  pub store-Unchanged :
      (i net : Entry F64) (global : Four (Bucket F64)) (m : Metrics)
      → counts i ≡ view l.ip ip
      → counts net ≡ view l.prefix prefix
      → Unchanged l (store fl l ip i prefix net global m)
  store-Unchanged i net global m hi hn = record {
    ip_same = λ k. view-write_same l.ip ip k i hi;
    prefix_same = λ k. view-write_same l.prefix prefix k net hn;
    cfg_same = refl;
    tables = λ ti tp. (write-IsTable l.ip ip i ti, write-IsTable l.prefix prefix net tp);
  }

  module _ (fits_ip : Fits l.ip ip) (fits_prefix : Fits l.prefix prefix)
      (cap_ip : at_cap l.cfg.connections_ip (view l.ip ip).active ≡ false)
      (cap_prefix : at_cap l.cfg.connections_prefix (view l.prefix prefix).active ≡ false)
      (pending_ip : at_cap l.cfg.prelogin_ip (view l.ip ip).pending ≡ false)
      (pending_prefix : at_cap l.cfg.prelogin_prefix (view l.prefix prefix).pending ≡ false) where
    admit-Admitted :
        (i net : Entry F64) (global : Four (Bucket F64)) (m : Metrics)
        → counts i ≡ view l.ip ip
        → counts net ≡ view l.prefix prefix
        → Admitted l ip prefix (new_ticket ip prefix) (admit fl l ip i prefix net global m)
    unfolding admit
    admit-Admitted i net global m hi hn = record {
      ticket = refl;
      ip_counts = λ k.
          view-insert l.ip ip k (counted fl i)
          ∙ ap (λ (c : Counts). if ip_eq ip k then counted_up c else view l.ip k) hi;
      prefix_counts = λ k.
          view-insert l.prefix prefix k (counted fl net)
          ∙ ap (λ (c : Counts). if ip_eq prefix k then counted_up c else view l.prefix k) hn;
      cfg_same = refl;
      tables = λ ti tp. (
        insert-IsTable l.ip ip (counted fl i) ti fits_ip,
        insert-IsTable l.prefix prefix (counted fl net) tp fits_prefix,
      );
      under_cap_ip = cap_ip;
      under_cap_prefix = cap_prefix;
      under_pending_ip = pending_ip;
      under_pending_prefix = pending_prefix;
    }

    accept_rates-Outcome :
        (i net : Entry F64) (factor : F64) (p : Policy) (now : ℕ)
        → counts i ≡ view l.ip ip
        → counts net ≡ view l.prefix prefix
        → Outcome l ip prefix (accept_rates fl l ip i prefix net factor p now)
    unfolding accept_rates
    accept_rates-Outcome i net factor p now hi hn =
        four_ways (Outcome l ip prefix) _ _ _ _ _ _ _
          (on_refusal (store-Unchanged i₁ net₁ _ _ hi hn))
          (on_refusal (store-Unchanged i₁ net₁ _ _ hi hn))
          (on_refusal (store-Unchanged i₁ net₁ _ _ hi hn))
          (on_grant (
            admit-Admitted _ _ _ _ (counts-pay fl connect _ i₁ ∙ hi)
              (counts-pay fl connect _ net₁ ∙ hn)))
      where
        i₁ : Entry F64
        i₁ = (refill fl connect l.cfg factor now i).1

        net₁ : Entry F64
        net₁ = (refill fl connect l.cfg factor now net).1

  module _ (fits_ip : Fits l.ip ip) (fits_prefix : Fits l.prefix prefix) where
    accept_caps-Outcome :
        (i net : Entry F64) (p : Policy) (now : ℕ)
        → counts i ≡ view l.ip ip
        → counts net ≡ view l.prefix prefix
        → Outcome l ip prefix (accept_caps fl l ip i prefix net p now)
    unfolding accept_caps
    accept_caps-Outcome i net p now hi hn =
        either_fails (Outcome l ip prefix) (at_cap l.cfg.connections_ip i.active)
          (at_cap l.cfg.connections_prefix net.active) _ _
          (on_refusal (store-Unchanged i net _ _ hi hn))
          (λ ci cn.
            either_fails (Outcome l ip prefix) (at_cap l.cfg.prelogin_ip i.pending)
              (at_cap l.cfg.prelogin_prefix net.pending) _ _
              (on_refusal (store-Unchanged i net _ _ hi hn))
              (λ pi pn. rates ci cn pi pn (get_elem? l.cfg.mode_multipliers p.mode)))
      where
        rates :
            at_cap l.cfg.connections_ip i.active ≡ false
            → at_cap l.cfg.connections_prefix net.active ≡ false
            → at_cap l.cfg.prelogin_ip i.pending ≡ false
            → at_cap l.cfg.prelogin_prefix net.pending ≡ false
            → (mode : Option F64)
            → Outcome l ip prefix (elim mode [
              | none ↦ (panicked, store fl l ip i prefix net l.global l.metrics)
              | some factor ↦ accept_rates fl l ip i prefix net factor p now
            ])
        rates ci cn pi pn none = on_panic (store-Unchanged i net _ _ hi hn)
        rates ci cn pi pn (some factor) =
            accept_rates-Outcome fits_ip fits_prefix
              (ap (λ (c : Counts). at_cap l.cfg.connections_ip c.active) (sym hi) ∙ ci)
              (ap (λ (c : Counts). at_cap l.cfg.connections_prefix c.active) (sym hn) ∙ cn)
              (ap (λ (c : Counts). at_cap l.cfg.prelogin_ip c.pending) (sym hi) ∙ pi)
              (ap (λ (c : Counts). at_cap l.cfg.prelogin_prefix c.pending) (sym hn) ∙ pn) i net
              factor p now hi hn

is_full-Fits :
    (fl : Float) (t : Table (Entry fl.F64)) (k : IpAddr) → is_full fl t k ≡ false → Fits t k
is_full-Fits fl t k h = elim (Option-cases (lookup t k)) [
  | inl p ↦ rw (p, Fits) (ground (arith, rw (p, is_full) at h))
  | inr (c, p) ↦ rw (p, Fits) tt
]

-- What a call of `accept` does to the counters, in every case.
pub accept-Outcome :
    (fl : Float) (l : Limiter fl.F64) (addr : IpAddr) (p : Policy) (now : ℕ)
    → Outcome l
        (normalize addr)
        (subnet (normalize addr) l.cfg.ipv4_prefix l.cfg.ipv6_prefix)
        (accept fl l addr p now)
unfolding accept
accept-Outcome fl l addr p now =
    either_fails (Outcome l ip prefix) (is_full fl l.ip ip) (is_full fl l.prefix prefix) _ _
      (on_refusal (same_tables l _ refl refl refl))
      (λ fi fp.
        accept_caps-Outcome fl l ip prefix (is_full-Fits fl l.ip ip fi)
          (is_full-Fits fl l.prefix prefix fp) _ _ p now
          (counts-entry_or_new fl l.ip ip l.cfg.ip now)
          (counts-entry_or_new fl l.prefix prefix l.cfg.prefix now))
  where
    ip : IpAddr
    ip = normalize addr

    prefix : IpAddr
    prefix = subnet ip l.cfg.ipv4_prefix l.cfg.ipv6_prefix
