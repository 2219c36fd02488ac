-- ===== src/Cache/Status.antt =====
-- gate/src/cache.rs: `StatusCache`, its refresh task and `poll`. Times are numbers of nanoseconds.
use xddp.Prelude.{
  ℕ, ◌+◌, ◌-◌, ◌*◌, List, [], ◌∷◌, Option, none, some, Bool, true, false, ◌||◌, ltb, leb,
  if◌then◌else◌,
}
use xddp.Prelude.Int.{ℤ, pos, ltb_ℤ}
use xddp.Metrics.{Metrics, inc, dec}
use xddp.Protocol.Base.{invalid, Result, ok, err}
use xddp.Protocol.Utf8.{Str}
use xddp.Protocol.Cursor.{Cursor, new, Parser, int, string, reject_if, return, finish, ◌>>=◌, ◌>>◌}
use xddp.Protocol.Reader.{Conn, Frame, body, read_frame}
use xddp.Cache.{Prepared, render, Json, new_prepared}

pub record Cached : Type 0 where
  pub value : Prepared
  pub at : ℕ

pub record StatusCache : Type 0 where
  pub value : Option Cached
  pub fallback : Prepared
  pub ttl : ℕ

-- The response to a status request, and the counter of misses.
abbrev pub chosen : StatusCache → Metrics → ℕ → Option Cached → Prepared × Metrics
chosen c m now none = (c.fallback, inc m 24)
chosen c m now (some cached) =
    if ltb (now - cached.at) c.ttl then (cached.value, m) else (c.fallback, inc m 24)

unfoldable pub get : StatusCache → Metrics → ℤ → ℕ → List ℕ × Metrics
get c m requested_protocol now =
    let (value, m') = chosen c m now c.value in (render value requested_protocol, m')

-- What the match of `refresh` does with the result of `poll`, which came at a time.
abbrev pub stored : StatusCache → Metrics → Option Prepared → ℕ → StatusCache × Metrics
stored c m none now = (c, inc m 23)
stored c m (some value) now = (record c { value = some (record { value = value; at = now }) }, m)

-- A round of `refresh`: whether there was a permit, and what `poll` gave before its timeout. The gauge
-- is up while the permit is held.
unfoldable pub refresh_round :
    StatusCache → Metrics → Bool → Option Prepared → ℕ → StatusCache × Metrics
refresh_round c m false polled now = (c, inc m 23)
refresh_round c m true polled now =
    let (c', m') = stored c (inc (inc m 3) 31) polled now in (c', dec m' 3)

-- The backend's text, from the body of its frame. That the frame ends there is tested by the source
-- after the JSON: each failure gives no value.
unfoldable pub reply : ℕ → Parser Str
reply max = do
  id ← int
  reject_if (ltb_ℤ id (pos 0) || ltb_ℤ (pos 0) id) invalid
  text ← string max
  finish
  return text

abbrev pub opened : ℕ → Option Prepared → Option StatusCache
opened ttl_seconds none = none
opened ttl_seconds (some p) =
    some (record { value = none; fallback = p; ttl = ttl_seconds * 1000000000 })

module _ (json : Json) where
  -- `expect`: there is none when the fallback is not valid.
  unfoldable pub new_cache : json.Value → ℕ → ℕ → Option StatusCache
  new_cache fallback max ttl_seconds = opened ttl_seconds (new_prepared json fallback max)

  -- The prepared value of a text that is a JSON object.
  abbrev pub prepared_object :
      ℕ → json.Value → Option (List (List ℕ × json.Value)) → Option Prepared
  prepared_object max value none = none
  prepared_object max value (some object) = new_prepared json value max

  abbrev pub prepared_value : ℕ → Option json.Value → Option Prepared
  prepared_value max none = none
  prepared_value max (some value) = prepared_object max value (json.as_object value)

  abbrev pub prepared_reply : ℕ → Result (Str × Cursor) → Option Prepared
  prepared_reply max (err e) = none
  prepared_reply max (ok (text, c)) = prepared_value max (json.from_str text.bytes)

  abbrev pub prepared_frame : ℕ → Result Frame × Conn → Option Prepared
  prepared_frame max (err e, s) = none
  prepared_frame max (ok f, s) = prepared_reply max (reply max (new (body f)))

  -- `poll`, on a connection to the backend to which the request is written: the answer is read. It
  -- comes with the time at which the read has ended.
  unfoldable pub poll : ℕ → ℕ → Conn → Option Prepared × ℕ
  poll max duration s =
      let (r, s') =
        read_frame
          (record {
            max_len = max;
            absolute = s.clock + duration;
            progress = duration;
            first_progress = duration;
          })
          (record s { remaining = max + 5 }) in
      (prepared_frame max (r, s'), s'.clock)

  -- `timeout`: nothing is kept of what comes after the limit.
  abbrev pub timeout : ℕ → Option Prepared × ℕ → Option Prepared
  timeout limit (answer, ended) = if leb ended limit then answer else none

  -- What a round has of `poll` under its timeout: the time at which the round began, which the
  -- connecting and the writing count against, and the connection, unless either failed or never ended.
  abbrev pub polled : ℕ → ℕ → Option (ℕ × Conn) → Option Prepared
  polled max duration none = none
  polled max duration (some (start, s)) = timeout (start + duration) (poll max duration s)

  -- The cache after rounds of `refresh`, each with its permit, the connection and the time.
  unfoldable pub refreshed :
      ℕ → ℕ → StatusCache → Metrics → List (Bool × Option (ℕ × Conn) × ℕ) → StatusCache × Metrics
  refreshed max duration c m [] = (c, m)
  refreshed max duration c m ((permit, s, now) ∷ rounds) =
      let (c', m') = refresh_round c m permit (polled max duration s) now in
      refreshed max duration c' m' rounds
