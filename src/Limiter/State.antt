-- ===== src/Limiter/State.antt =====
-- gate/src/limiter.rs: `Entry`, `Limiter`, `Ticket` and the operations on them. An operation takes
-- the time at which it reads the clock. Counters are usize, and wrap as they do in a release build.
use xddp.Prelude.{
  ℕ, ◌+◌, ◌-◌, ◌%◌, ◌^◌, none, some, Bool, true, false, not, ◌&&◌, ◌||◌, ltb, leb, if◌then◌else◌,
  length,
}
use xddp.Prelude.Float.{Float}
use xddp.Config.Limits.{Four, Rates, Limits, map_four}
use xddp.Metrics.{Metrics, inc}
use xddp.Limiter.Address.{IpAddr}
use xddp.Limiter.Table.{Table, shard, lookup, insert, write, sweep_shard}
use xddp.Limiter.Table
use xddp.Limiter.Bucket.{Event, connect, Policy, Bucket, at, put_at, available, consume}
use xddp.Limiter.Bucket

pub record Entry (F : Type 0) : Type 0 where
  pub active : ℕ
  pub pending : ℕ
  pub status : ℕ
  pub touched : ℕ
  pub buckets : Four (Bucket F)
  pub score : F
  pub score_at : ℕ
  pub penalty_until : ℕ

pub record Limiter (F : Type 0) : Type 0 where
  pub ip : Table (Entry F)
  pub prefix : Table (Entry F)
  pub global : Four (Bucket F)
  pub cfg : Limits F
  pub metrics : Metrics

pub record Ticket : Type 0 where
  pub ip : IpAddr
  pub prefix : IpAddr
  pub handshake : Bool
  pub admitted : Bool
  pub status_complete : Bool
  pub server_rejected : Bool
  pub status : Bool

-- `panicked`: an index out of bounds.
pub data Verdict (A : Type 0) : Type 0 where
  panicked : Verdict A
  refused : Verdict A
  granted : A → Verdict A

abbrev pub up : ℕ → ℕ
up n = (n + 1) % 2 ^ 64

abbrev pub down : ℕ → ℕ
down n = (n + (2 ^ 64 - 1)) % 2 ^ 64

abbrev pub second : ℕ
second = 1000000000

abbrev pub new_ticket : IpAddr → IpAddr → Ticket
new_ticket ip prefix = record {
  ip = ip;
  prefix = prefix;
  handshake = false;
  admitted = false;
  status_complete = false;
  server_rejected = false;
  status = false;
}

-- The early returns of three tests in a row: the value of the first that fails, or the last.
unfoldable pub first_failing : {A : Type 0} → Bool → Bool → Bool → A → A → A → A → A
first_failing a b c x y z w = if not a then x else if not b then y else if not c then z else w

-- `cap > 0 && n >= cap`
abbrev pub at_cap : ℕ → ℕ → Bool
at_cap cap n = ltb 0 cap && leb cap n

module _ (fl : Float) where
  open fl use {
    F64, zero_f, one_f, quarter_f, million_f, add_f, mul_f, div_f, neg_f, min_f, pow2_f, le_f, lt_f,
    secs_f, of_u64,
  }

  unfoldable pub new_entry : Rates F64 → ℕ → Entry F64
  new_entry r now = record {
    active = 0;
    pending = 0;
    status = 0;
    touched = now;
    buckets = map_four (λ x. Bucket.new fl x now) r;
    score = zero_f;
    score_at = now;
    penalty_until = now;
  }

  unfoldable pub decay : Entry F64 → ℕ → ℕ → Entry F64
  decay e now half_life = record e {
    score = mul_f e.score (pow2_f (div_f (neg_f (secs_f (now - e.score_at))) (of_u64 half_life)));
    score_at = now;
  }

  unfoldable pub new_limiter : Limits F64 → (IpAddr → ℕ) → (IpAddr → ℕ) → Metrics → ℕ → Limiter F64
  new_limiter cfg hash_ip hash_prefix metrics now = record {
    ip = Table.new (Entry F64) hash_ip cfg.ip_entries;
    prefix = Table.new (Entry F64) hash_prefix cfg.prefix_entries;
    global = map_four (λ r. Bucket.new fl r now) cfg.global;
    cfg = cfg;
    metrics = metrics;
  }

  unfoldable pub judged : Metrics → Bool → ℕ → Policy → Bool × Metrics
  judged m allowed reason p =
      if allowed || p.exempt
      then (true, m)
      else if p.observe
      then (true, inc m 27)
      else (false, inc m reason)

  -- `!contains_key(&key) && len() >= capacity`
  abbrev pub is_full : Table (Entry F64) → IpAddr → Bool
  is_full t k = elim (lookup t k) [
    | none ↦ leb t.capacity (length (t.shards (shard t k)))
    | some e ↦ false
  ]

  -- The entry of the key, or a provisional one.
  abbrev pub entry_or_new : Table (Entry F64) → IpAddr → Rates F64 → ℕ → Entry F64
  entry_or_new t k r now = elim (lookup t k) [ none ↦ new_entry r now | some e ↦ e ]

  abbrev pub is_new : Table (Entry F64) → IpAddr → Bool
  is_new t k = elim (lookup t k) [ none ↦ true | some e ↦ false ]

  -- What the operation has written so far: provisional entries are not in the tables.
  abbrev pub store :
      Limiter F64
      → IpAddr
      → Entry F64
      → IpAddr
      → Entry F64
      → Four (Bucket F64)
      → Metrics
      → Limiter F64
  store l ip i prefix net global m = record l {
    ip = write l.ip ip i;
    prefix = write l.prefix prefix net;
    global = global;
    metrics = m;
  }

  abbrev pub pay : Event → Bool → Entry F64 → Entry F64
  pay event charged e =
      if charged
      then record e { buckets = put_at event (consume fl (at event e.buckets)) e.buckets }
      else e

  abbrev pub refill : Event → Limits F64 → F64 → ℕ → Entry F64 → Bool × Entry F64
  refill event cfg factor now e =
      let (enough, b) = available fl (at event e.buckets) now factor cfg.preserve_burst in
      (enough && leb e.penalty_until now, record e { buckets = put_at event b e.buckets })

  abbrev pub counted : Entry F64 → Entry F64
  counted e = record e { active = up e.active; pending = up e.pending }
