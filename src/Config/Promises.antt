-- ===== src/Config/Promises.antt =====
-- gate/src/config.rs: what a configuration that `validate` accepts gives the other parts.
use xddp.Prelude.{
  ℕ, ◌+◌, ◌*◌, ◌%◌, ◌^◌, ◌≤◌, ◌≡◌, refl, List, [], ◌∷◌, Option, none, some, Bool, true, false, not,
  ltb, ◌==◌, length, All, arith,
}
use xddp.Prelude.Int.{ℤ, IsI32}
use xddp.Prelude.Float.{Float}
use xddp.Metrics.{Metrics}
use xddp.Protocol.Reader.{Conn}
use xddp.Config.Limits.{Limits}
use xddp.Config.Settings.{Timeouts, BackendProtection}
use xddp.Config.Validate.{one_of, bad_backend, bad_limits, bad_phases}
use xddp.Config.File.{Cache, Config, Complaint, first_of, bad_cache, validate}
use xddp.Net.{IpNets}
use xddp.Cache.{Prepared, Json, new_prepared, is_prepared, valid_status}
use xddp.Cache.Status.{StatusCache, get, opened, new_cache, refreshed}
use xddp.Cache.Rounds.{get-within}

first_of-none :
    (tests : List (Bool × Complaint)) → first_of tests ≡ none → All (λ test. test.0 ≡ false) tests
unfolding first_of
first_of-none [] h = tt
first_of-none ((true, complaint) ∷ rest) h = absurd (ground (arith, h))
first_of-none ((false, complaint) ∷ rest) h = (refl, first_of-none rest h)

-- The sockets that a configuration sets aside.
pub record Slots {F : Type 0} (l : Limits F) (b : BackendProtection F) : Type 0 where
  pub total : (4 ≤ l.total_sockets) × (l.total_sockets ≤ 100000)
  pub together : l.prelogin + l.admitted + l.backend ≤ l.total_sockets
  pub each : (1 ≤ l.prelogin) × (1 ≤ l.admitted) × (2 ≤ l.backend)
  pub logins : (l.prelogin_ip ≤ l.prelogin) × (l.prelogin_prefix ≤ l.prelogin)
  pub statuses : l.status_connections ≤ l.prelogin
  pub connecting : b.max_connecting ≤ l.backend

one_of-none : (tests : List Bool) → one_of tests ≡ false → All (λ t. t ≡ false) tests
unfolding one_of
one_of-none [] h = tt
one_of-none (false ∷ rest) h = (refl, one_of-none rest h)
one_of-none (true ∷ rest) h = absurd (ground (arith, h))

not_less : (a b : ℕ) → ltb a b ≡ false → b ≤ a
not_less a b h = ground (arith, h)

not_zero : (a : ℕ) → (a == 0) ≡ false → 1 ≤ a
not_zero a h = ground (arith, h)

no_wrap :
    (a b c total : ℕ)
    → a ≤ total
    → b ≤ total
    → c ≤ total
    → total ≤ 100000
    → ltb total ((a + b + c) % 2 ^ 64) ≡ false
    → a + b + c ≤ total
no_wrap a b c total h₁ h₂ h₃ h₄ h =
    omega (arith, h₁, h₂, h₃, h₄, not_less total ((a + b + c) % 2 ^ 64) h)

limits-Slots :
    (fl : Float) (is_finite : fl.F64 → Bool) (l : Limits fl.F64) (b : BackendProtection fl.F64)
    → bad_backend fl is_finite b l ≡ false
    → bad_limits fl is_finite l ≡ false
    → Slots l b
unfolding bad_backend bad_limits
limits-Slots fl is_finite l b h k =
    let (connecting, others) = one_of-none _ h in
    let (
      few,
      (
        many,
        (
          no_logins,
          (
            statuses,
            (
              status_ip,
              (
                login_ip,
                (
                  login_prefix,
                  (logins, (admitted, (backends, (no_admitted, (few_backends, (sum, rest)))))),
                ),
              ),
            ),
          ),
        ),
      ),
    ) =
      one_of-none _ k in
    let most = not_less 100000 l.total_sockets many in
    record {
      total = (not_less l.total_sockets 4 few, most);
      together =
          no_wrap l.prelogin l.admitted l.backend l.total_sockets
            (not_less l.total_sockets l.prelogin logins)
            (not_less l.total_sockets l.admitted admitted)
            (not_less l.total_sockets l.backend backends) most sum;
      each = (
        not_zero l.prelogin no_logins,
        not_zero l.admitted no_admitted,
        not_less l.backend 2 few_backends,
      );
      logins = (
        not_less l.prelogin l.prelogin_ip login_ip,
        not_less l.prelogin l.prelogin_prefix login_prefix,
      );
      statuses = not_less l.prelogin l.status_connections statuses;
      connecting = not_less l.backend b.max_connecting connecting;
    }

module _ (fl : Float) (is_finite : fl.F64 → Bool) (nets : IpNets) (json : Json) where
  -- The parts of an accepted configuration that others rely on.
  record Checked (c : Config fl.F64 nets.IpNet json.Value) : Type 0 where
    protection : bad_backend fl is_finite c.backend_protection c.limits ≡ false
    limits : bad_limits fl is_finite c.limits ≡ false
    deadlines : bad_phases c.timeouts ≡ false
    cache : bad_cache json c.timeouts c.cache ≡ false

  validate-Checked :
      (c : Config fl.F64 nets.IpNet json.Value)
      → validate fl is_finite nets json c ≡ none
      → Checked c
  unfolding validate
  validate-Checked c h =
      let (
        protection,
        (
          a₂,
          (
            a₃,
            (
              a₄,
              (
                a₅,
                (
                  a₆,
                  (a₇, (a₈, (a₉, (a₁₀, (limits, (a₁₂, (a₁₃, (a₁₄, (deadlines, (cache, a₁₇)))))))))),
                ),
              ),
            ),
          ),
        ),
      ) =
        first_of-none _ h in
      record { protection = protection; limits = limits; deadlines = deadlines; cache = cache }

  -- The sockets that an accepted configuration sets aside for logins, players and the backend fit
  -- together into the total, with no overflow in the sum, each kind has some, and no cap on logins or
  -- dials exceeds its kind.
  pub validate-Slots :
      (c : Config fl.F64 nets.IpNet json.Value)
      → validate fl is_finite nets json c ≡ none
      → Slots c.limits c.backend_protection
  validate-Slots c h =
      let v = validate-Checked c h in
      limits-Slots fl is_finite c.limits c.backend_protection v.protection v.limits

  opened-some :
      (ttl : ℕ) (o : Option Prepared)
      → not (is_prepared json o) ≡ false
      → (c : StatusCache) × (opened ttl o ≡ some c)
  opened-some ttl none h = absurd (ground (arith, h))
  opened-some ttl (some p) h = (record { value = none; fallback = p; ttl = ttl * 1000000000 }, refl)

  cache-valid :
      (t : Timeouts) (c : Cache json.Value)
      → bad_cache json t c ≡ false
      → (c.max_response_bytes ≤ 65536)
        × (not (is_prepared json (new_prepared json c.fallback c.max_response_bytes)) ≡ false)
  unfolding bad_cache valid_status
  cache-valid t c h =
      let (a₁, (a₂, (a₃, (size, (a₅, (a₆, (a₇, (a₈, (prepared, a₁₀))))))))) = one_of-none _ h in
      (ground (arith, size), prepared)

  -- What an accepted configuration serves. Its fallback makes a status cache, so that the program does not
  -- panic at its start, and whatever the backend sends later, each response to a status request is no
  -- longer than the configured `max_response_bytes`.
  pub validate-get :
      (c : Config fl.F64 nets.IpNet json.Value) (m : Metrics)
      (rounds : List (Bool × Option (ℕ × Conn) × ℕ)) (version : ℤ) (now : ℕ)
      → validate fl is_finite nets json c ≡ none
      → IsI32 version
      → (cache : StatusCache) × (new_cache json c.cache.fallback c.cache.max_response_bytes
            c.cache.ttl_seconds
          ≡ some cache)
        × (length
              (get
                (refreshed json c.cache.max_response_bytes
                  (c.timeouts.backend_ms * 1000000)
                  cache
                  m
                  rounds).0
                (refreshed json c.cache.max_response_bytes
                  (c.timeouts.backend_ms * 1000000)
                  cache
                  m
                  rounds).1
                version
                now).0
            ≤ c.cache.max_response_bytes)
  unfolding new_cache
  validate-get c m rounds version now h v =
      let (small, prepared) = cache-valid c.timeouts c.cache (validate-Checked c h).cache in
      let less : c.cache.max_response_bytes ≤ 2 ^ 20 = omega (arith, small) in
      let (cache, e) =
        opened-some c.cache.ttl_seconds
          (new_prepared json c.cache.fallback c.cache.max_response_bytes) prepared in
      (
        cache,
        e,
        get-within json c.cache.max_response_bytes less c.cache.fallback c.cache.ttl_seconds
            (c.timeouts.backend_ms * 1000000) cache m rounds version now v e,
      )
