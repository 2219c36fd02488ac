-- ===== src/Limiter/Tickets.antt =====
-- gate/src/limiter.rs: `Limiter::event`, `Limiter::sweep` and the methods of `Ticket`.
use xddp.Prelude.{
  ℕ, zero, suc, ◌+◌, ◌-◌, ◌*◌, ◌/◌, ◌%◌, Option, none, some, Bool, true, false, not, ◌&&◌, ◌||◌,
  ltb, if◌then◌else◌, length, get_elem?,
}
use xddp.Prelude.Float.{Float}
use xddp.Config.Limits.{Limits}
use xddp.Metrics.{Metrics, inc, dec}
use xddp.Limiter.Address.{IpAddr}
use xddp.Limiter.Table.{Table, lookup, write, sweep_shard}
use xddp.Limiter.Bucket.{Event, Policy, at, put_at, available, consume}
use xddp.Limiter.State.{
  Entry, Limiter, Ticket, Verdict, panicked, granted, first_failing, judged, store, at_cap, pay,
  refill, decay, up, down, second,
}

module _ (fl : Float) where
  open fl use {F64, zero_f, one_f, quarter_f, million_f, add_f, min_f, le_f, lt_f}

  -- `event`: the answer, and the limiter after it.
  unfoldable pub event_rates :
      Limiter F64
      → IpAddr
      → Entry F64
      → IpAddr
      → Entry F64
      → Event
      → F64
      → Policy
      → ℕ
      → Bool × Limiter F64
  event_rates l ip i prefix net event factor p now =
      let (ip_ok, i₁) = refill fl event l.cfg factor now i in
      let (pass₁, m₁) = judged fl l.metrics ip_ok 14 p in
      let (prefix_ok, net₁) = refill fl event l.cfg factor now net in
      let (pass₂, m₂) = judged fl m₁ prefix_ok 15 p in
      let (global_ok, g) = available fl (at event l.global) now factor l.cfg.preserve_burst in
      let g₁ = put_at event g l.global in
      let (pass₃, m₃) = judged fl m₂ global_ok 16 (record p { exempt = false }) in
      let i₂ = pay fl event (not p.exempt && ip_ok) i₁ in
      let net₂ = pay fl event (not p.exempt && prefix_ok) net₁ in
      let g₂ = if global_ok then put_at event (consume fl g) g₁ else g₁ in
      first_failing pass₁ pass₂ pass₃ (false, store fl l ip i₁ prefix net l.global m₁)
        (false, store fl l ip i₁ prefix net₁ l.global m₂)
        (false, store fl l ip i₁ prefix net₁ g₁ m₃) (true, store fl l ip i₂ prefix net₂ g₂ m₃)

  abbrev pub event_at :
      Limiter F64
      → Ticket
      → Event
      → F64
      → Policy
      → ℕ
      → Option (Entry F64)
      → Option (Entry F64)
      → Bool × Limiter F64
  event_at l t event factor p now none net = (false, l)
  event_at l t event factor p now (some i) none = (false, l)
  event_at l t event factor p now (some i) (some net) =
      event_rates l t.ip (record i { touched = now }) t.prefix (record net { touched = now }) event
        factor p now

  unfoldable pub event : Limiter F64 → Ticket → Event → Policy → ℕ → Verdict Bool × Limiter F64
  unfolding event_rates
  event l t ev p now = elim (get_elem? l.cfg.mode_multipliers p.mode) [
    | none ↦ (panicked, l)
    | some factor ↦
        let (ok, l') = event_at l t ev factor p now (lookup l.ip t.ip) (lookup l.prefix t.prefix) in
        (granted ok, l')
  ]

  -- `sweep`: the entries that `retain` keeps, and the gauges.
  abbrev pub keep : ℕ → ℕ → Entry F64 → Bool
  keep idle now e =
      ltb 0 e.active || ltb now e.penalty_until || ltb ((now - e.touched) / second) idle

  abbrev pub dec_times : Metrics → ℕ → ℕ → Metrics
  dec_times m n zero = m
  dec_times m n (suc k) = dec_times (dec m n) n k

  unfoldable pub sweep : Limiter F64 → ℕ → ℕ → Limiter F64
  sweep l shard' now =
      let i = shard' % 64 in
      let ip = sweep_shard l.ip (keep l.cfg.idle_entry_seconds now) i in
      let prefix = sweep_shard l.prefix (keep l.cfg.idle_entry_seconds now) i in
      let gone = λ (t t' : Table (Entry F64)). length (t.shards i) - length (t'.shards i) in
      record l {
        ip = ip;
        prefix = prefix;
        metrics = dec_times (dec_times l.metrics 32 (gone l.ip ip)) 33 (gone l.prefix prefix);
      }

  -- `Ticket::enter_status`
  unfoldable pub enter_status : Limiter F64 → Ticket → Bool × Ticket × Limiter F64
  enter_status l t =
      let cap = l.cfg.status_ip in
      if t.status then (true, t, l) else elim (lookup l.ip t.ip) [
        | none ↦ (false, t, l)
        | some e ↦
            if at_cap cap e.status
            then (
              false,
              record t { server_rejected = true },
              record l { metrics = inc (inc l.metrics 20) 44 },
            )
            else (
              true,
              record t { status = true },
              record l { ip = write l.ip t.ip (record e { status = up e.status }) },
            )
      ]

  abbrev pub settle : Table (Entry F64) → IpAddr → Table (Entry F64)
  settle t k = elim (lookup t k) [
    | none ↦ t
    | some e ↦ write t k (record e { pending = down e.pending })
  ]

  -- `Ticket::mark_admitted`
  unfoldable pub mark_admitted : Limiter F64 → Ticket → Ticket × Limiter F64
  mark_admitted l t = if t.admitted then (t, l) else (
    record t { admitted = true },
    record l { ip = settle l.ip t.ip; prefix = settle l.prefix t.prefix },
  )

  -- The part of `drop` that scores a client which gave up.
  abbrev pub punish : Limits F64 → Bool → F64 → ℕ → Entry F64 → Entry F64
  punish cfg handshake threshold now e =
      let d = decay fl e now cfg.churn_half_life_seconds in
      let score = min_f (add_f d.score (if handshake then quarter_f else one_f)) million_f in
      let scored = record d { score = score } in
      if le_f threshold score
      then record scored { penalty_until = now + cfg.penalty_seconds * second }
      else scored

  -- What `drop` does to the entry of a key; `in_ip` says that the table is the one of addresses.
  abbrev pub release_entry : Limits F64 → Ticket → Bool → F64 → ℕ → Entry F64 → Entry F64
  release_entry cfg t in_ip threshold now e =
      let churn = not t.server_rejected && not t.status_complete && not t.admitted in
      let e₁ = record e { active = down e.active; touched = now } in
      let e₂ = if t.status && in_ip then record e₁ { status = down e₁.status } else e₁ in
      let e₃ = if not t.admitted then record e₂ { pending = down e₂.pending } else e₂ in
      if churn && lt_f zero_f threshold then punish cfg t.handshake threshold now e₃ else e₃

  abbrev pub release :
      Limits F64 → Ticket → Bool → F64 → ℕ → Table (Entry F64) → IpAddr → Table (Entry F64)
  release cfg t in_ip threshold now table key = elim (lookup table key) [
    | none ↦ table
    | some e ↦ write table key (release_entry cfg t in_ip threshold now e)
  ]

  -- `Ticket::drop`
  unfoldable pub drop_ticket : Limiter F64 → Ticket → ℕ → Limiter F64
  drop_ticket l t now =
      let churn = not t.server_rejected && not t.status_complete && not t.admitted in
      let m₁ = if churn then inc l.metrics 22 else l.metrics in
      let m₂ = if not t.handshake then inc m₁ 13 else m₁ in
      record l {
        ip = release l.cfg t true l.cfg.churn_score_threshold now l.ip t.ip;
        prefix = release l.cfg t false l.cfg.churn_prefix_score_threshold now l.prefix t.prefix;
        metrics = m₂;
      }
