-- ===== src/Config/Validate.antt =====
-- gate/src/config.rs: the tests of `Config::validate` on the backend protection, the relay's deadlines,
-- the upload, the limits, the rates, the multipliers and the phase deadlines. `is_finite` is the test
-- of f64 of that name.
use xddp.Prelude.{
  ℕ, ◌+◌, ◌%◌, ◌^◌, Bool, true, false, not, ◌||◌, ltb, ◌==◌, if◌then◌else◌, List, [], ◌∷◌,
}
use xddp.Prelude.Float.{Float}
use xddp.Config.Limits.{Rates, Limits}
use xddp.Config.Settings.{Timeouts, BackendProtection, Upload, valid}

abbrev pub any_of : {A : Type 0} → (A → Bool) → List A → Bool
any_of p [] = false
any_of p (x ∷ xs) = p x || any_of p xs

-- A chain of `||`.
unfoldable pub one_of : List Bool → Bool
one_of [] = false
one_of (t ∷ ts) = t || one_of ts

-- `a == 0` and `b == 0` differ.
abbrev pub differ : Bool → Bool → Bool
differ true b = not b
differ false b = b

unfoldable pub bad_backend :
    (fl : Float) → (fl.F64 → Bool) → BackendProtection fl.F64 → Limits fl.F64 → Bool
unfolding valid
bad_backend fl is_finite b l = one_of (
    ltb l.backend b.max_connecting
    ∷ ltb 10000 b.failure_threshold
    ∷ ltb 120000 b.cooldown_ms
    ∷ not (valid fl is_finite b.attempts)
    ∷ differ (b.failure_threshold == 0) (b.cooldown_ms == 0)
    ∷ [])

unfoldable pub bad_upload : Upload → Bool
bad_upload u =
    ltb 1000000000 u.bytes_per_second
    || ltb 1000000000 u.burst_bytes
    || differ (u.bytes_per_second == 0) (u.burst_bytes == 0)

unfoldable pub bad_limits : (fl : Float) → (fl.F64 → Bool) → Limits fl.F64 → Bool
bad_limits fl is_finite l = one_of (
    ltb l.total_sockets 4
    ∷ ltb 100000 l.total_sockets
    ∷ (l.prelogin == 0)
    ∷ ltb l.prelogin l.status_connections
    ∷ ltb (if l.status_connections == 0 then l.prelogin else l.status_connections) l.status_ip
    ∷ ltb l.prelogin l.prelogin_ip
    ∷ ltb l.prelogin l.prelogin_prefix
    ∷ ltb l.total_sockets l.prelogin
    ∷ ltb l.total_sockets l.admitted
    ∷ ltb l.total_sockets l.backend
    ∷ (l.admitted == 0)
    ∷ ltb l.backend 2
    ∷ ltb l.total_sockets ((l.prelogin + l.admitted + l.backend) % 2 ^ 64)
    ∷ ltb l.ip_entries 64
    ∷ ltb 1000000 l.ip_entries
    ∷ ltb l.prefix_entries 64
    ∷ ltb 1000000 l.prefix_entries
    ∷ not (l.ip_entries % 64 == 0)
    ∷ not (l.prefix_entries % 64 == 0)
    ∷ ltb 32 l.ipv4_prefix
    ∷ ltb 128 l.ipv6_prefix
    ∷ (l.idle_entry_seconds == 0)
    ∷ (l.churn_half_life_seconds == 0)
    ∷ ltb 60 l.churn_window_seconds
    ∷ ltb 3600 l.penalty_seconds
    ∷ not (is_finite l.churn_score_threshold)
    ∷ fl.lt_f l.churn_score_threshold fl.zero_f
    ∷ not (is_finite l.churn_prefix_score_threshold)
    ∷ fl.lt_f l.churn_prefix_score_threshold fl.zero_f
    ∷ [])

unfoldable pub bad_rates : (fl : Float) → (fl.F64 → Bool) → Rates fl.F64 → Bool
unfolding valid
bad_rates fl is_finite r =
    not (valid fl is_finite r.connect)
    || not (valid fl is_finite r.handshake)
    || not (valid fl is_finite r.status)
    || not (valid fl is_finite r.login)

-- `windows(2).any(|x| x[1] > x[0])`
unfoldable pub rises : (fl : Float) → List fl.F64 → Bool
rises fl [] = false
rises fl (x ∷ []) = false
rises fl (x ∷ y ∷ rest) = fl.lt_f x y || rises fl (y ∷ rest)

unfoldable pub bad_multipliers : (fl : Float) → (fl.F64 → Bool) → List fl.F64 → Bool
unfolding rises
bad_multipliers fl is_finite ms =
    any_of (λ x. not (is_finite x) || fl.le_f x fl.zero_f || fl.lt_f fl.one_f x) ms || rises fl ms

abbrev pub bad_deadline : ℕ → Bool
bad_deadline ms = ms == 0 || ltb 120000 ms

unfoldable pub bad_phases : Timeouts → Bool
bad_phases t = one_of (
    bad_deadline t.first_progress_ms
    ∷ bad_deadline t.progress_ms
    ∷ bad_deadline t.handshake_ms
    ∷ bad_deadline t.login_ms
    ∷ bad_deadline t.status_ms
    ∷ bad_deadline t.backend_ms
    ∷ [])

unfoldable pub bad_relay : Timeouts → Bool
bad_relay t =
    ltb 3600000 t.relay_stall_ms || ltb 3600000 t.half_close_ms || ltb 3600000 t.client_idle_ms
