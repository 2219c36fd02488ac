-- ===== src/Config/Settings.antt =====
-- gate/src/config.rs: the other settings, and the validity of a rate.
use xddp.Prelude.{ℕ, Bool, ◌&&◌, ◌||◌}
use xddp.Prelude.Float.{Float}
use xddp.Config.Limits.{Rate}

pub record Timeouts : Type 0 where
  pub first_progress_ms : ℕ
  pub progress_ms : ℕ
  pub handshake_ms : ℕ
  pub login_ms : ℕ
  pub status_ms : ℕ
  pub backend_ms : ℕ
  pub shutdown_seconds : ℕ
  pub relay_stall_ms : ℕ
  pub half_close_ms : ℕ
  pub client_idle_ms : ℕ

pub record BackendProtection (F : Type 0) : Type 0 where
  pub max_connecting : ℕ
  pub failure_threshold : ℕ
  pub cooldown_ms : ℕ
  pub attempts : Rate F

pub record Upload : Type 0 where
  pub bytes_per_second : ℕ
  pub burst_bytes : ℕ
  pub enforce : Bool

-- `is_finite` is the test of f64 of that name.
unfoldable pub valid : (fl : Float) → (fl.F64 → Bool) → Rate fl.F64 → Bool
valid fl is_finite r =
    let billion = fl.of_u64 1000000000 in
    is_finite r.per_second
    && is_finite r.burst
    && fl.le_f fl.zero_f r.per_second
    && fl.le_f r.per_second billion
    && fl.le_f fl.zero_f r.burst
    && fl.le_f r.burst billion
    && (fl.eq_f r.per_second fl.zero_f && fl.eq_f r.burst fl.zero_f
        || fl.lt_f fl.zero_f r.per_second && fl.le_f fl.one_f r.burst)
