-- ===== src/Limiter/Counts/Effects.antt =====
-- gate/src/limiter.rs: what `event`, `sweep` and the methods of `Ticket` leave in the tables.
use xddp.Prelude.{
  ℕ, ◌<◌, ◌≡◌, refl, ap, sym, ◌∙◌, Option, none, some, Bool, true, false, not, ◌&&◌, inl, inr,
  Bool-cases, Option-cases, if◌then◌else◌, ◌==◌, get_elem?, arith,
}
use xddp.Prelude.Float.{Float}
use xddp.Config.Limits.{Limits}
use xddp.Limiter.Address.{IpAddr, ip_eq}
use xddp.Limiter.Table.{Table, lookup, shard, sweep_shard}
use xddp.Limiter.Table.Laws.{IsTable, write-IsTable, lookup-sweep_shard, kept_only}
use xddp.Limiter.Bucket.{Event, Policy}
use xddp.Limiter.State.{Entry, Limiter, Ticket, Verdict, panicked, granted, refill, decay, down}
use xddp.Limiter.Tickets.{
  event_rates, event_at, event, keep, settle, punish, release_entry, release,
}
use xddp.Limiter.Counts.{
  Counts, counts, counts_in, no_counts, view, view-write, Unchanged, counts-pay,
}
use xddp.Limiter.Counts.Accepts.{four_ways, store-Unchanged, same_tables}

-- Of a key that counts something, the table has an entry.
pub present :
    {F : Type 0} (t : Table (Entry F)) (k : IpAddr)
    → 0 < (view t k).active
    → (e : Entry F) × (lookup t k ≡ some e)
unfolding view
present t k h = elim (Option-cases (lookup t k)) [
  | inl p ↦ absurd (ground (arith, rw (p, counts_in) at h))
  | inr found ↦ found
]

-- The counters at a known entry.
pub view-at :
    {F : Type 0} (t : Table (Entry F)) (k : IpAddr) (e : Entry F)
    → lookup t k ≡ some e
    → view t k ≡ counts e
unfolding view
view-at t k e p = ap counts_in p

-- What `drop` does to the counters of one key.
abbrev pub released : Ticket → Bool → Counts → Counts
released t in_ip c = record {
  active = down c.active;
  pending = if not t.admitted then down c.pending else c.pending;
  status = if t.status && in_ip then down c.status else c.status;
}

abbrev pub settled : Counts → Counts
settled c = record c { pending = down c.pending }

module _ (fl : Float) where
  open fl use {F64, zero_f, lt_f}

  counts-punish :
      (b : Bool) (cfg : Limits F64) (hs : Bool) (th : F64) (now : ℕ) (e : Entry F64)
      → counts (if b then punish fl cfg hs th now e else e) ≡ counts e
  unfolding decay
  counts-punish false cfg hs th now e = refl
  counts-punish true cfg hs th now e = ground arith

  counts-release_entry :
      (cfg : Limits F64) (t : Ticket) (in_ip : Bool) (th : F64) (now : ℕ) (e : Entry F64)
      → counts (release_entry fl cfg t in_ip th now e) ≡ released t in_ip (counts e)
  counts-release_entry cfg t in_ip th now e =
      counts-punish
        (not t.server_rejected && not t.status_complete && not t.admitted && lt_f zero_f th) cfg
        t.handshake th now _
      ∙ ground arith

  pub view-release :
      (cfg : Limits F64) (t : Ticket) (in_ip : Bool) (th : F64) (now : ℕ)
      (table : Table (Entry F64)) (k j : IpAddr)
      → 0 < (view table k).active
      → view (release fl cfg t in_ip th now table k) j
        ≡ (if ip_eq k j then released t in_ip (view table k) else view table j)
  view-release cfg t in_ip th now table k j h =
      let (e, p) = present table k h in
      rw (p, view-at table k e p, release)
        (view-write table k j (release_entry fl cfg t in_ip th now e) e p
          ∙ ap (λ (c : Counts). if ip_eq k j then c else view table j)
              (counts-release_entry cfg t in_ip th now e))

  pub release-IsTable :
      (cfg : Limits F64) (t : Ticket) (in_ip : Bool) (th : F64) (now : ℕ)
      (table : Table (Entry F64)) (k : IpAddr)
      → IsTable table
      → IsTable (release fl cfg t in_ip th now table k)
  release-IsTable cfg t in_ip th now table k w = elim (Option-cases (lookup table k)) [
    | inl p ↦ rw (p, release) w
    | inr (e, p) ↦ rw (p, release) (write-IsTable table k _ w)
  ]

  pub view-settle :
      (table : Table (Entry F64)) (k j : IpAddr)
      → 0 < (view table k).active
      → view (settle fl table k) j ≡ (if ip_eq k j then settled (view table k) else view table j)
  view-settle table k j h =
      let (e, p) = present table k h in
      rw (p, view-at table k e p, settle)
        (view-write table k j (record e { pending = down e.pending }) e p)

  pub settle-IsTable :
      (table : Table (Entry F64)) (k : IpAddr) → IsTable table → IsTable (settle fl table k)
  settle-IsTable table k w = elim (Option-cases (lookup table k)) [
    | inl p ↦ rw (p, settle) w
    | inr (e, p) ↦ rw (p, settle) (write-IsTable table k _ w)
  ]

  -- `sweep` removes only entries that count no connection.
  pub view-sweep :
      (table : Table (Entry F64)) (idle now i : ℕ) (k : IpAddr)
      → IsTable table
      → ((view table k).active ≡ 0 → view table k ≡ no_counts)
      → view (sweep_shard table (keep fl idle now) i) k ≡ view table k
  unfolding view
  view-sweep table idle now i k w h =
      let found = lookup-sweep_shard table (keep fl idle now) i k w in
      elim (Bool-cases (shard table k == i)) [
        | inr miss ↦
            let same : lookup (sweep_shard table (keep fl idle now) i) k ≡ lookup table k =
              found ∙ rw miss in
            ap counts_in same
        | inl hit ↦ elim (Option-cases (lookup table k)) [
          | inl p ↦
              let none_left : lookup (sweep_shard table (keep fl idle now) i) k ≡ none =
                found ∙ rw (hit, p) in
              ap counts_in (none_left ∙ sym p)
          | inr (e, p) ↦ elim (Bool-cases (keep fl idle now e)) [
            | inl kept ↦
                let left : lookup (sweep_shard table (keep fl idle now) i) k ≡ some e =
                  found ∙ rw (hit, p, kept, kept_only) in
                ap counts_in (left ∙ sym p)
            | inr gone ↦
                let none_left : lookup (sweep_shard table (keep fl idle now) i) k ≡ none =
                  found ∙ rw (hit, p, gone, kept_only) in
                let idle_entry : (view table k).active ≡ 0 =
                  ap (λ (c : Counts). c.active) (view-at table k e p) ∙ ground (arith, gone) in
                ap counts_in none_left ∙ sym (h idle_entry)
          ]
        ]
      ]

  event_rates-Unchanged :
      (l : Limiter F64) (ip prefix : IpAddr) (i net : Entry F64) (ev : Event) (factor : F64)
      (p : Policy) (now : ℕ)
      → counts i ≡ view l.ip ip
      → counts net ≡ view l.prefix prefix
      → Unchanged l (event_rates fl l ip i prefix net ev factor p now).1
  unfolding event_rates
  event_rates-Unchanged l ip prefix i net ev factor p now hi hn =
      four_ways (λ (r : Bool × Limiter F64). Unchanged l r.1) _ _ _ _ _ _ _
        (store-Unchanged fl l ip prefix i₁ net _ _ hi hn)
        (store-Unchanged fl l ip prefix i₁ net₁ _ _ hi hn)
        (store-Unchanged fl l ip prefix i₁ net₁ _ _ hi hn)
        (store-Unchanged fl l ip prefix _ _ _ _ (counts-pay fl ev _ i₁ ∙ hi)
          (counts-pay fl ev _ net₁ ∙ hn))
    where
      i₁ : Entry F64
      i₁ = (refill fl ev l.cfg factor now i).1

      net₁ : Entry F64
      net₁ = (refill fl ev l.cfg factor now net).1

  pub event-Unchanged :
      (l : Limiter F64) (t : Ticket) (ev : Event) (p : Policy) (now : ℕ)
      → Unchanged l (event fl l t ev p now).1
  unfolding event
  event-Unchanged l t ev p now = mode (get_elem? l.cfg.mode_multipliers p.mode)
    where
      entries :
          (factor : F64) (i net : Option (Entry F64))
          → lookup l.ip t.ip ≡ i
          → lookup l.prefix t.prefix ≡ net
          → Unchanged l (event_at fl l t ev factor p now i net).1
      entries factor none net hi hn = same_tables l l refl refl refl
      entries factor (some i) none hi hn = same_tables l l refl refl refl
      entries factor (some i) (some net) hi hn =
          event_rates-Unchanged l t.ip t.prefix (record i { touched = now })
            (record net { touched = now }) ev factor p now (sym (view-at l.ip t.ip i hi))
            (sym (view-at l.prefix t.prefix net hn))

      mode :
          (m : Option F64)
          → Unchanged l
              (elim m as (λ x. Verdict Bool × Limiter F64) [
                | none ↦ (panicked, l)
                | some factor ↦
                    let (ok, l') =
                      event_at fl l t ev factor p now
                        (lookup l.ip t.ip)
                        (lookup l.prefix t.prefix) in
                    (granted ok, l')
              ]).1
      mode none = same_tables l l refl refl refl
      mode (some factor) = entries factor _ _ refl refl
