-- ===== src/Limiter/Bucket.antt =====
-- gate/src/limiter.rs: `Event`, `Policy` and `Bucket`. Times are numbers of nanoseconds; a
-- difference of times saturates at 0.
use xddp.Prelude.{ℕ, ◌-◌, max, Bool, true, false, if◌then◌else◌}
use xddp.Prelude.Float.{Float}
use xddp.Config.Limits.{Rate, Four}

pub data Event : Type 0 where
  connect handshake status login : Event

pub record Policy : Type 0 where
  pub mode : ℕ
  pub observe : Bool
  pub exempt : Bool

pub record Bucket (F : Type 0) : Type 0 where
  pub tokens : F
  pub last : ℕ
  pub rate : Rate F

-- `buckets[event as usize]`, and a write to it.
abbrev pub at : {A : Type 0} → Event → Four A → A
at connect b = b.connect
at handshake b = b.handshake
at status b = b.status
at login b = b.login

abbrev pub put_at : {A : Type 0} → Event → A → Four A → Four A
put_at connect a b = record b { connect = a }
put_at handshake a b = record b { handshake = a }
put_at status a b = record b { status = a }
put_at login a b = record b { login = a }

module _ (fl : Float) where
  open fl use {F64, zero_f, one_f, add_f, sub_f, mul_f, min_f, max_f, le_f, lt_f, eq_f, secs_f}

  unfoldable pub new : Rate F64 → ℕ → Bucket F64
  new rate now = record { tokens = rate.burst; last = now; rate = rate }

  abbrev pub cap : Bucket F64 → F64 → Bool → F64
  cap b factor preserve_burst =
      max_f (mul_f b.rate.burst (if preserve_burst then one_f else factor)) one_f

  -- The answer, and the bucket after it.
  unfoldable pub available : Bucket F64 → ℕ → F64 → Bool → Bool × Bucket F64
  available b now factor preserve_burst =
      let earned = mul_f (mul_f (secs_f (now - b.last)) b.rate.per_second) factor in
      let tokens = min_f (add_f b.tokens earned) (cap b factor preserve_burst) in
      if eq_f b.rate.per_second zero_f
      then (true, b)
      else (le_f one_f tokens, record b { tokens = tokens; last = max b.last now })

  unfoldable pub consume : Bucket F64 → Bucket F64
  consume b =
      if lt_f zero_f b.rate.per_second then record b { tokens = sub_f b.tokens one_f } else b

  unfoldable pub take : Bucket F64 → ℕ → F64 → Bool → Bool × Bucket F64
  unfolding available consume
  take b now factor preserve_burst =
      let (enough, b') = available b now factor preserve_burst in
      if enough then (true, consume b') else (false, b')
