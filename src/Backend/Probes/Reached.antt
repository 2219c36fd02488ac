-- ===== src/Backend/Probes/Reached.antt =====
-- gate/src/backend.rs: what an open circuit lets in, over any order of dials, completions and drops.
use xddp.Prelude.{
  ℕ, ◌+◌, ◌<◌, ◌≡◌, refl, List, ◌∷◌, none, some, Bool, true, false, if◌then◌else◌, ◌^◌, arith,
}
use xddp.Prelude.Float.{Float}
use xddp.Config.Settings.{BackendProtection}
use xddp.Metrics.{Metrics}
use xddp.Backend.{
  Protection, Attempt, new_protection, enter, finish_at, drop_attempt, finish_attempt,
}
use xddp.Backend.Dials.{Dials, Step, dialed, refused, completed, dropped, Reach, starts, steps}
use xddp.Backend.Probes.{current, Known, Known-at, Probes, finish-Probes}

module _ (fl : Float) where
  open fl use {F64}

  abbrev pub steps_of :
      {cfg : BackendProtection F64} {slots : ℕ} {m : Metrics} {now : ℕ} (d : Dials F64)
      → Reach fl cfg slots m now d
      → ℕ
  steps_of _ starts = 0
  steps_of _ (steps {d} r s) = steps_of d r + 1

  -- The circuit breaker of the live attempts.
  abbrev pub DialProbes : ℕ → Dials F64 → Type 0
  DialProbes n d = Probes d.protection.cfg.failure_threshold n d.protection.state d.live

  refused-Probes :
      (p p' : Protection F64) (live : List Attempt) (now n : ℕ)
      → enter fl p now ≡ (none, p')
      → Probes p.cfg.failure_threshold n p.state live
      → Probes p'.cfg.failure_threshold (n + 1) p'.state live
  unfolding enter
  refused-Probes p p' live now n e i =
      let generation : p'.state.generation ≡ p.state.generation = ground (arith, e) in
      let retry : p'.state.retry_at ≡ p.state.retry_at = ground (arith, e) in
      let probing : p'.state.probing ≡ p.state.probing = ground (arith, e) in
      let threshold : p'.cfg.failure_threshold ≡ p.cfg.failure_threshold = ground (arith, e) in
      record {
        young = omega (arith, generation, i.young);
        known = rw generation i.known;
        single = λ at h. rw (generation, probing) (i.single at (rw retry at h));
        off = λ h. rw retry (i.off (rw threshold at h));
      }

  dialed-Probes :
      (p p' : Protection F64) (a : Attempt) (live : List Attempt) (now n : ℕ)
      → enter fl p now ≡ (some a, p')
      → Probes p.cfg.failure_threshold n p.state live
      → Probes p'.cfg.failure_threshold (n + 1) p'.state (a ∷ live)
  unfolding enter current
  dialed-Probes p p' a live now n e i =
      let generation : p'.state.generation ≡ p.state.generation = ground (arith, e) in
      let retry : p'.state.retry_at ≡ p.state.retry_at = ground (arith, e) in
      let own : a.generation ≡ p.state.generation = ground (arith, e) in
      let older : Known p'.state.generation live = rw generation i.known in
      let open_still : a.finished ≡ false = ground (arith, e) in
      let threshold : p'.cfg.failure_threshold ≡ p.cfg.failure_threshold = ground (arith, e) in
      record {
        young = omega (arith, generation, i.young);
        known = ((omega (arith, own, generation), open_still), older);
        single = λ at h.
            let was : p.state.retry_at ≡ some at = rw retry at h in
            let free : p.state.probing ≡ false = ground (arith, e, was) in
            let probing : p'.state.probing ≡ true = ground (arith, e, was) in
            ground (arith, i.single at was, free, probing, own, generation);
        off = λ h. rw retry (i.off (rw threshold at h));
      }

  pub finish_attempt-state :
      (p : Protection F64) (a : Attempt) (ok : Bool) (now : ℕ)
      → (finish_attempt fl p a ok now).state ≡ (finish_at fl p a.generation ok now).state
  unfolding finish_attempt
  finish_attempt-state p a ok now = refl

  pub drop_attempt-state :
      (p : Protection F64) (a : Attempt) (now : ℕ)
      → a.finished ≡ false
      → (drop_attempt fl p a now).state ≡ (finish_at fl p a.generation false now).state
  unfolding drop_attempt
  drop_attempt-state p a now h = rw h refl

  finish_at-cfg :
      (p : Protection F64) (generation : ℕ) (ok : Bool) (now : ℕ)
      → (finish_at fl p generation ok now).cfg ≡ p.cfg
  unfolding finish_at
  finish_at-cfg p generation ok now = ground arith

  finish_attempt-cfg :
      (p : Protection F64) (a : Attempt) (ok : Bool) (now : ℕ)
      → (finish_attempt fl p a ok now).cfg ≡ p.cfg
  unfolding finish_attempt
  finish_attempt-cfg p a ok now = finish_at-cfg p a.generation ok now

  drop_attempt-cfg :
      (p : Protection F64) (a : Attempt) (now : ℕ)
      → a.finished ≡ false
      → (drop_attempt fl p a now).cfg ≡ p.cfg
  unfolding drop_attempt
  drop_attempt-cfg p a now h = rw h (finish_at-cfg p a.generation false now)

  Step-Probes :
      (d d' : Dials F64) (n : ℕ)
      → Step fl d d'
      → n + 1 < 2 ^ 64
      → DialProbes n d
      → DialProbes (n + 1) d'
  Step-Probes _ _ n (dialed {p} {p'} {a} {live} now e) few i = dialed-Probes p p' a live now n e i
  Step-Probes _ _ n (refused {p} {p'} {live} now e) few i = refused-Probes p p' live now n e i
  Step-Probes _ _ n (completed {p} before a after ok now) few i =
      rw (finish_attempt-cfg p a ok now, finish_attempt-state p a ok now)
        (finish-Probes fl p before a after n i ok now few)
  Step-Probes _ _ n (dropped {p} before a after now) few i =
      let alive = (Known-at p.state.generation before a after i.known).1 in
      rw (drop_attempt-cfg p a now alive, drop_attempt-state p a now alive)
        (finish-Probes fl p before a after n i false now few)

  module _ (cfg : BackendProtection F64) (slots : ℕ) (m : Metrics) (now : ℕ) where
    pub reached-Probes :
        (d : Dials F64) (r : Reach fl cfg slots m now d)
        → steps_of d r < 2 ^ 64
        → DialProbes (steps_of d r) d
    unfolding new_protection
    reached-Probes _ starts few = record {
      young = omega arith;
      known = tt;
      single = λ at h. absurd (ground (arith, h));
      off = λ _. refl;
    }
    reached-Probes d' (steps {d} r s) few =
        Step-Probes d d' (steps_of d r) s few (reached-Probes d r (omega (arith, few)))

    -- One probe at a time. In every state that the circuit breaker comes to, over any order of dials,
    -- completions and drops in fewer than 2^64 steps, when the circuit is open, the live attempts
    -- that were let in since it opened are one while a probe is under way, and none otherwise.
    pub Reach-one_probe :
        (d : Dials F64) (r : Reach fl cfg slots m now d) (at : ℕ)
        → steps_of d r < 2 ^ 64
        → d.protection.state.retry_at ≡ some at
        → current d.protection.state.generation d.live
          ≡ (if d.protection.state.probing then 1 else 0)
    Reach-one_probe d r at few h = (reached-Probes d r few).single at h
