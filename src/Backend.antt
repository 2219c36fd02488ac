-- ===== src/Backend.antt =====
-- gate/src/backend.rs: `Protection`, the circuit breaker of the backend and its budget of dials.
-- The semaphore is the number of its free slots; an attempt holds one until it is dropped.
pub mod Dials
pub mod Probes
mod Examples
use xddp.Prelude.{
  ℕ, ◌+◌, ◌-◌, ◌*◌, ◌%◌, ◌^◌, max, min, Bool, true, false, Option, none, some, ◌||◌, ltb, leb, ◌==◌,
  not, if◌then◌else◌,
}
use xddp.Prelude.Float.{Float}
use xddp.Config.Settings.{BackendProtection}
use xddp.Metrics.{Metrics, inc}

pub record State (F : Type 0) : Type 0 where
  pub failures : ℕ
  pub generation : ℕ
  pub retry_at : Option ℕ
  pub probing : Bool
  pub tokens : F
  pub last : ℕ

pub record Protection (F : Type 0) : Type 0 where
  pub cfg : BackendProtection F
  pub state : State F
  pub slots : ℕ
  pub metrics : Metrics

pub record Attempt : Type 0 where
  pub generation : ℕ
  pub finished : Bool

module _ (fl : Float) where
  open fl use {F64, zero_f, one_f, add_f, sub_f, mul_f, min_f, lt_f, secs_f}

  unfoldable pub new_protection : BackendProtection F64 → ℕ → Metrics → ℕ → Protection F64
  new_protection cfg backend_slots m now = record {
    cfg = cfg;
    state = record {
      failures = 0;
      generation = 0;
      retry_at = none;
      probing = false;
      tokens = cfg.attempts.burst;
      last = now;
    };
    slots = if cfg.max_connecting == 0 then backend_slots else cfg.max_connecting;
    metrics = m;
  }

  -- The circuit is open, or a probe is under way.
  abbrev pub closed_off : State F64 → ℕ → Bool
  closed_off s now = elim s.retry_at [ none ↦ false | some at ↦ ltb now at || s.probing ]

  abbrev pub refilled : BackendProtection F64 → State F64 → ℕ → State F64
  refilled cfg s now = record s {
    tokens =
        min_f (add_f s.tokens (mul_f (secs_f (now - s.last)) cfg.attempts.per_second))
          cfg.attempts.burst;
    last = max s.last now;
  }

  -- The end of `enter`: the probe is marked, and the attempt holds its slot.
  abbrev pub let_in : Protection F64 → State F64 → Option Attempt × Protection F64
  let_in p s =
      let probing : Bool = elim s.retry_at [ none ↦ s.probing | some at ↦ true ] in
      (
        some (record { generation = s.generation; finished = false }),
        record p { state = record s { probing = probing }; slots = p.slots - 1 },
      )

  unfoldable pub enter : Protection F64 → ℕ → Option Attempt × Protection F64
  enter p now =
      let s = p.state in
      let s' = refilled p.cfg s now in
      if p.slots == 0
      then (none, p)
      else if closed_off s now
      then (none, p)
      else if not (lt_f zero_f p.cfg.attempts.per_second)
      then let_in p s
      else if lt_f s'.tokens one_f
      then (none, record p { state = s'; metrics = inc p.metrics 50 })
      else let_in p (record s' { tokens = sub_f s'.tokens one_f })

  -- A saturating count of failures; the circuit opens at the threshold, or when a probe fails.
  abbrev pub count_failure : Protection F64 → ℕ → Protection F64
  count_failure p now =
      let s = p.state in
      let failures = min (s.failures + 1) (2 ^ 32 - 1) in
      if s.probing || leb p.cfg.failure_threshold failures
      then record p {
        state = record s {
          failures = failures;
          generation = (s.generation + 1) % 2 ^ 64;
          retry_at = some (now + p.cfg.cooldown_ms * 1000000);
          probing = false;
        };
        metrics = inc p.metrics 48;
      }
      else record p { state = record s { failures = failures } }

  unfoldable pub finish_at : Protection F64 → ℕ → Bool → ℕ → Protection F64
  finish_at p generation ok now =
      let s = p.state in
      if p.cfg.failure_threshold == 0
      then p
      else if not (generation == s.generation)
      then p
      else if ok
      then record p { state = record s { failures = 0; retry_at = none; probing = false } }
      else count_failure p now

  -- `Attempt::drop`, and the slot that it gives back.
  unfoldable pub drop_attempt : Protection F64 → Attempt → ℕ → Protection F64
  unfolding finish_at
  drop_attempt p a now =
      let p' = if a.finished then p else finish_at p a.generation false now in
      record p' { slots = p'.slots + 1 }

  -- `Attempt::finish`, which drops the attempt as it returns.
  unfoldable pub finish_attempt : Protection F64 → Attempt → Bool → ℕ → Protection F64
  unfolding finish_at drop_attempt
  finish_attempt p a ok now =
      drop_attempt (finish_at p a.generation ok now) (record a { finished = true }) now
