-- ===== src/Limiter/Accept.antt =====
-- gate/src/limiter.rs: `Limiter::accept`.
use xddp.Prelude.{ℕ, none, some, false, not, ◌&&◌, ◌||◌, if◌then◌else◌, get_elem?}
use xddp.Prelude.Float.{Float}
use xddp.Config.Limits.{Four}
use xddp.Metrics.{Metrics, inc}
use xddp.Limiter.Address.{IpAddr, normalize, subnet}
use xddp.Limiter.Table.{insert}
use xddp.Limiter.Bucket.{connect, Policy, Bucket, put_at, available, consume}
use xddp.Limiter.State.{
  Entry, Limiter, Ticket, Verdict, panicked, refused, granted, new_entry, first_failing, judged,
  is_full, entry_or_new, is_new, store, at_cap, pay, refill, new_ticket, counted,
}

module _ (fl : Float) where
  open fl use {F64, zero_f, one_f, quarter_f, million_f, add_f, min_f, le_f, lt_f}

  -- The end of `accept`: tokens are spent, the entries counted, and new ones inserted.
  unfoldable pub admit :
      Limiter F64
      → IpAddr
      → Entry F64
      → IpAddr
      → Entry F64
      → Four (Bucket F64)
      → Metrics
      → Limiter F64
  admit l ip i prefix net global m =
      let m₁ = if is_new fl l.ip ip then inc (inc m 28) 32 else m in
      let m₂ = if is_new fl l.prefix prefix then inc (inc m₁ 29) 33 else m₁ in
      record l {
        ip = insert l.ip ip (counted fl i);
        prefix = insert l.prefix prefix (counted fl net);
        global = global;
        metrics = m₂;
      }

  -- The rates and penalties of `accept`, from the entries that passed the caps.
  unfoldable pub accept_rates :
      Limiter F64
      → IpAddr
      → Entry F64
      → IpAddr
      → Entry F64
      → F64
      → Policy
      → ℕ
      → Verdict Ticket × Limiter F64
  unfolding judged admit
  accept_rates l ip i prefix net factor p now =
      let (ip_ok, i₁) = refill fl connect l.cfg factor now i in
      let (prefix_ok, net₁) = refill fl connect l.cfg factor now net in
      let (pass₁, m₁) = judged fl l.metrics ip_ok 14 p in
      let (pass₂, m₂) = judged fl m₁ prefix_ok 15 p in
      let (global_ok, g) = available fl l.global.connect now factor l.cfg.preserve_burst in
      let g₁ = put_at connect g l.global in
      let (pass₃, m₃) = judged fl m₂ global_ok 16 (record p { exempt = false }) in
      let i₂ = pay fl connect (not p.exempt && ip_ok) i₁ in
      let net₂ = pay fl connect (not p.exempt && prefix_ok) net₁ in
      let g₂ = if global_ok then put_at connect (consume fl g) g₁ else g₁ in
      first_failing pass₁ pass₂ pass₃ (refused, store fl l ip i₁ prefix net₁ l.global m₁)
        (refused, store fl l ip i₁ prefix net₁ l.global m₂)
        (refused, store fl l ip i₁ prefix net₁ g₁ m₃)
        (granted (new_ticket ip prefix), admit l ip i₂ prefix net₂ g₂ m₃)

  -- The caps of `accept`, from the entries of the two keys.
  unfoldable pub accept_caps :
      Limiter F64
      → IpAddr
      → Entry F64
      → IpAddr
      → Entry F64
      → Policy
      → ℕ
      → Verdict Ticket × Limiter F64
  unfolding accept_rates
  accept_caps l ip i prefix net p now =
      if at_cap l.cfg.connections_ip i.active || at_cap l.cfg.connections_prefix net.active
      then (refused, store fl l ip i prefix net l.global (inc l.metrics 20))
      else if at_cap l.cfg.prelogin_ip i.pending || at_cap l.cfg.prelogin_prefix net.pending
      then (refused, store fl l ip i prefix net l.global (inc (inc l.metrics 20) 38))
      else elim (get_elem? l.cfg.mode_multipliers p.mode) [
        | none ↦ (panicked, store fl l ip i prefix net l.global l.metrics)
        | some factor ↦ accept_rates l ip i prefix net factor p now
      ]

  unfoldable pub accept : Limiter F64 → IpAddr → Policy → ℕ → Verdict Ticket × Limiter F64
  unfolding accept_caps new_entry
  accept l addr p now =
      let ip = normalize addr in
      let prefix = subnet ip l.cfg.ipv4_prefix l.cfg.ipv6_prefix in
      let i = record (entry_or_new fl l.ip ip l.cfg.ip now) { touched = now } in
      let net = record (entry_or_new fl l.prefix prefix l.cfg.prefix now) { touched = now } in
      if is_full fl l.ip ip || is_full fl l.prefix prefix
      then (refused, record l { metrics = inc l.metrics 21 })
      else accept_caps l ip i prefix net p now
