-- ===== src/Cache/Rounds.antt =====
-- gate/src/cache.rs: what the status cache serves after any rounds of its refresh task.
use xddp.Prelude.{
  ℕ, ◌+◌, ◌-◌, ◌*◌, ◌^◌, ◌≤◌, ◌≡◌, refl, subst, List, [], ◌∷◌, Option, none, some, Bool, true,
  false, inl, inr, Bool-cases, ltb, leb, length, arith,
}
use xddp.Prelude.Int.{ℤ, IsI32}
use xddp.Metrics.{Metrics}
use xddp.Protocol.Base.{Result, ok, err}
use xddp.Protocol.Utf8.{Str}
use xddp.Protocol.Cursor.{Cursor, new}
use xddp.Protocol.Reader.{Conn, Frame, body}
use xddp.Cache.{Prepared, Json, new_prepared}
use xddp.Cache.Fits.{Fits, new_prepared-Fits, render-Fits}
use xddp.Cache.Status.{
  polled, refreshed, Cached, StatusCache, chosen, get, stored, refresh_round, reply, opened,
  timeout, new_cache, prepared_object, prepared_value, prepared_reply, prepared_frame, poll,
}

abbrev CachedFit : ℕ → Option Cached → Type 0
CachedFit max none = Unit {0}
CachedFit max (some c) = Fits max c.value

abbrev PreparedFit : ℕ → Option Prepared → Type 0
PreparedFit max none = Unit {0}
PreparedFit max (some p) = Fits max p

abbrev IsStatus : ℕ → StatusCache → Type 0
IsStatus max c = CachedFit max c.value × Fits max c.fallback

stored-IsStatus :
    (max : ℕ) (c : StatusCache) (m : Metrics) (polled : Option Prepared) (now : ℕ)
    → PreparedFit max polled
    → IsStatus max c
    → IsStatus max (stored c m polled now).0
stored-IsStatus max c m none now p h = h
stored-IsStatus max c m (some value) now p (cached, fallback) = (p, fallback)

refresh_round-IsStatus :
    (max : ℕ) (c : StatusCache) (m : Metrics) (permit : Bool) (polled : Option Prepared) (now : ℕ)
    → PreparedFit max polled
    → IsStatus max c
    → IsStatus max (refresh_round c m permit polled now).0
unfolding refresh_round
refresh_round-IsStatus max c m false polled now p h = h
refresh_round-IsStatus max c m true polled now p h = stored-IsStatus max c _ polled now p h

chosen-Fits :
    (max : ℕ) (c : StatusCache) (m : Metrics) (now : ℕ) (value : Option Cached)
    → CachedFit max value
    → Fits max c.fallback
    → Fits max (chosen c m now value).0
chosen-Fits max c m now none h f = f
chosen-Fits max c m now (some cached) h f = elim (Bool-cases (ltb (now - cached.at) c.ttl)) [
  | inl fresh ↦ rw fresh h
  | inr old ↦ rw old f
]

module _ (json : Json) (max : ℕ) (small : max ≤ 2 ^ 20) where
  known-Fit :
      (value : json.Value) (o : Option Prepared)
      → new_prepared json value max ≡ o
      → PreparedFit max o
  known-Fit value none e = tt
  known-Fit value (some p) e = new_prepared-Fits json value max p small e

  object-Fit :
      (value : json.Value) (object : Option (List (List ℕ × json.Value)))
      → PreparedFit max (prepared_object json max value object)
  object-Fit value none = tt
  object-Fit value (some entries) = known-Fit value (new_prepared json value max) refl

  value-Fit : (value : Option json.Value) → PreparedFit max (prepared_value json max value)
  value-Fit none = tt
  value-Fit (some value) = object-Fit value (json.as_object value)

  reply-Fit : (r : Result (Str × Cursor)) → PreparedFit max (prepared_reply json max r)
  reply-Fit (err e) = tt
  reply-Fit (ok (text, c)) = value-Fit (json.from_str text.bytes)

  frame-Fit : (r : Result Frame × Conn) → PreparedFit max (prepared_frame json max r)
  frame-Fit (err e, s) = tt
  frame-Fit (ok f, s) = reply-Fit (reply max (new (body f)))

  timeout-Fit :
      (limit : ℕ) (v : Option Prepared × ℕ)
      → PreparedFit max v.0
      → PreparedFit max (timeout json limit v)
  timeout-Fit limit (answer, ended) h =
      elim (Bool-cases (leb ended limit))
        as (λ _. PreparedFit max (timeout json limit (answer, ended))) [
          | inl soon ↦ rw soon h
          | inr late ↦ rw late tt
        ]

  polled-Fit : (duration : ℕ) (s : Option (ℕ × Conn)) → PreparedFit max (polled json max duration s)
  unfolding poll
  polled-Fit duration none = tt
  polled-Fit duration (some (start, s)) =
      timeout-Fit (start + duration) (poll json max duration s) (frame-Fit _)

  refreshed-IsStatus :
      (duration : ℕ) (c : StatusCache) (m : Metrics) (rounds : List (Bool × Option (ℕ × Conn) × ℕ))
      → IsStatus max c
      → IsStatus max (refreshed json max duration c m rounds).0
  unfolding refreshed
  refreshed-IsStatus duration c m [] h = h
  refreshed-IsStatus duration c m ((permit, s, now) ∷ rounds) h =
      let r = refresh_round c m permit (polled json max duration s) now in
      refreshed-IsStatus duration r.0 r.1 rounds (
        refresh_round-IsStatus max c m permit (polled json max duration s) now
          (polled-Fit duration s) h)

  new_cache-IsStatus :
      (fallback : json.Value) (ttl : ℕ) (c : StatusCache)
      → new_cache json fallback max ttl ≡ some c
      → IsStatus max c
  unfolding new_cache
  new_cache-IsStatus fallback ttl c e = started (new_prepared json fallback max) refl e
    where
      started :
          (o : Option Prepared)
          → new_prepared json fallback max ≡ o
          → opened ttl o ≡ some c
          → IsStatus max c
      started none q e = absurd (ground (arith, e))
      started (some p) q e =
          let same : record { value = none; fallback = p; ttl = ttl * 1000000000 } ≡ c =
            ground (arith, e) in
          subst (IsStatus max) same (tt, new_prepared-Fits json fallback max p small q)

  -- The cap on the status. Whatever the backend sends in any rounds of the refresh task, and whenever
  -- a client asks with whatever protocol version, the response is no longer than the configured cap,
  -- its framing included.
  pub get-within :
      (fallback : json.Value) (ttl duration : ℕ) (c : StatusCache) (m : Metrics)
      (rounds : List (Bool × Option (ℕ × Conn) × ℕ)) (version : ℤ) (now : ℕ)
      → IsI32 version
      → new_cache json fallback max ttl ≡ some c
      → length
          (get
            (refreshed json max duration c m rounds).0
            (refreshed json max duration c m rounds).1
            version
            now).0
        ≤ max
  unfolding get
  get-within fallback ttl duration c m rounds version now v e =
      let r = refreshed json max duration c m rounds in
      let (cached, fits) =
        refreshed-IsStatus duration c m rounds (new_cache-IsStatus fallback ttl c e) in
      render-Fits max (chosen r.0 r.1 now r.0.value).0 version small v
        (chosen-Fits max r.0 r.1 now r.0.value cached fits)
