-- ===== src/Cache/Expiry.antt =====
-- gate/src/cache.rs: the status cache without an answer of the backend.
use xddp.Prelude.{
  ℕ, ◌-◌, ◌≤◌, ◌≡◌, refl, ap, ◌∙◌, List, [], ◌∷◌, Option, none, some, Bool, true, false, ◌&&◌, ltb,
  All, arith,
}
use xddp.Prelude.Int.{ℤ}
use xddp.Metrics.{Metrics, inc}
use xddp.Protocol.Reader.{Conn}
use xddp.Cache.{Prepared, render, Json, is_prepared}
use xddp.Cache.Status.{Cached, StatusCache, chosen, get, refresh_round, polled, refreshed}

module _ (json : Json) (max duration : ℕ) where
  -- Whether the round had a permit, and the backend gave a response within the cap in time.
  abbrev pub answered : Bool × Option (ℕ × Conn) × ℕ → Bool
  answered (permit, s, now) = permit && is_prepared json (polled json max duration s)

  unanswered :
      (c : StatusCache) (m : Metrics) (permit : Bool) (o : Option Prepared) (now : ℕ)
      → (permit && is_prepared json o) ≡ false
      → (refresh_round c m permit o now).0 ≡ c
  unfolding refresh_round
  unanswered c m false o now h = refl
  unanswered c m true none now h = refl
  unanswered c m true (some p) now h = absurd (ground (arith, h))

  refreshed-same :
      (c : StatusCache) (m : Metrics) (rounds : List (Bool × Option (ℕ × Conn) × ℕ))
      → All (λ round. answered round ≡ false) rounds
      → (refreshed json max duration c m rounds).0 ≡ c
  unfolding refreshed
  refreshed-same c m [] h = refl
  refreshed-same c m ((permit, s, now) ∷ rounds) (first, others) =
      let r = refresh_round c m permit (polled json max duration s) now in
      let same : r.0 ≡ c = unanswered c m permit (polled json max duration s) now first in
      refreshed-same r.0 r.1 rounds others ∙ same

  chosen-expired :
      (c : StatusCache) (m : Metrics) (cached : Cached) (now : ℕ)
      → c.ttl ≤ now - cached.at
      → chosen c m now (some cached) ≡ (c.fallback, inc m 24)
  chosen-expired c m cached now h =
      let old : ltb (now - cached.at) c.ttl ≡ false = ground (arith, h) in rw old

  -- A status lives no longer than its time. When the backend answers no round of the refresh task, a
  -- request that comes `ttl` or more after the cached response was stored is served the fallback, in
  -- the client's version, and counted as a miss.
  pub get-expired :
      (c : StatusCache) (m : Metrics) (cached : Cached)
      (rounds : List (Bool × Option (ℕ × Conn) × ℕ)) (version : ℤ) (now : ℕ)
      → c.value ≡ some cached
      → All (λ round. answered round ≡ false) rounds
      → c.ttl ≤ now - cached.at
      → get
          (refreshed json max duration c m rounds).0
          (refreshed json max duration c m rounds).1
          version
          now
        ≡ (render c.fallback version, inc (refreshed json max duration c m rounds).1 24)
  unfolding get
  get-expired c m cached rounds version now e h old =
      let m' = (refreshed json max duration c m rounds).1 in
      let choice : chosen c m' now c.value ≡ (c.fallback, inc m' 24) =
        ap (chosen c m' now) e ∙ chosen-expired c m' cached now old in
      ap (λ (t : StatusCache). get t m' version now) (refreshed-same c m rounds h)
      ∙ ap (λ (t : Prepared × Metrics). (render t.0 version, t.1)) choice
