-- ===== src/Backend/Probes/Shut.antt =====
-- gate/src/backend.rs: the cooldown and the probe of an open circuit, over any run of steps.
use xddp.Prelude.{
  ℕ, ◌+◌, ◌-◌, ◌*◌, ◌<◌, ◌≤◌, min, leb, ◌||◌, ◌≡◌, ◌⊎◌, refl, ap, sym, ◌∙◌, List, ◌∷◌, ◌++◌, none,
  some, Bool, true, false, if◌then◌else◌, ◌==◌, ◌^◌, ◌&&◌, arith,
}
use xddp.Prelude.Float.{Float}
use xddp.Config.Settings.{BackendProtection}
use xddp.Metrics.{Metrics}
use xddp.Backend.{State, Protection, Attempt, enter, finish_at, finish_attempt}
use xddp.Backend.Dials.{Dials, Step, dialed, refused, completed, dropped, Reach, steps}
use xddp.Backend.Probes.{current, Known, Known-at, Known-others, current-others}
use xddp.Backend.Probes.Reached.{steps_of, reached-Probes, finish_attempt-state, drop_attempt-state}

module _ (fl : Float) where
  open fl use {F64}

  -- A step of a circuit that was in this state, open until `at`: a dial comes before that or while the
  -- probe is under way, and the probe is not completed.
  abbrev pub Undisturbed : ℕ → State F64 → (d d' : Dials F64) → Step fl d d' → Type 0
  Undisturbed at s _ _ (dialed now e) = (now < at) ⊎ (s.probing ≡ true)
  Undisturbed at s _ _ (refused now e) = (now < at) ⊎ (s.probing ≡ true)
  Undisturbed at s _ _ (completed before a after ok now) =
      (s.probing && a.generation == s.generation) ≡ false
  Undisturbed at s _ _ (dropped before a after now) =
      (s.probing && a.generation == s.generation) ≡ false

  pub data Period (at : ℕ) (s : State F64) : Dials F64 → Dials F64 → Type 0 where
    begins : {d : Dials F64} → Period at s d d
    goes_on :
        {d d' d'' : Dials F64}
        → Period at s d d'
        → (step : Step fl d' d'') → Undisturbed at s d' d'' step
        → Period at s d d''

  -- The dials that are let in.
  abbrev pub is_dial : (d d' : Dials F64) → Step fl d d' → ℕ
  is_dial _ _ (dialed now e) = 1
  is_dial _ _ (refused now e) = 0
  is_dial _ _ (completed before a after ok now) = 0
  is_dial _ _ (dropped before a after now) = 0

  abbrev pub dials_in : (at : ℕ) (s : State F64) (d d' : Dials F64) → Period at s d d' → ℕ
  dials_in at s _ _ begins = 0
  dials_in at s d d'' (goes_on {d' = d'} period step calm) =
      dials_in at s d d' period + is_dial d' d'' step

  record Shut (s : State F64) (d : Dials F64) : Type 0 where
    same : d.protection.state ≡ s
    known : Known s.generation d.live
    single : current s.generation d.live ≡ (if s.probing then 1 else 0)

  refused_lem :
      (p : Protection F64) (s : State F64) (at now : ℕ)
      → p.state ≡ s
      → s.retry_at ≡ some at
      → (now < at) ⊎ (s.probing ≡ true)
      → enter fl p now ≡ (none, p)
  unfolding enter
  refused_lem p s at now same open_until calm =
      let retry : p.state.retry_at ≡ some at =
        ap (λ (t : State F64). t.retry_at) same ∙ open_until in
      let probing : p.state.probing ≡ s.probing = ap (λ (t : State F64). t.probing) same in
      ground (arith, retry, probing, calm)

  stale-state :
      (p : Protection F64) (generation : ℕ) (ok : Bool) (now : ℕ)
      → (generation == p.state.generation) ≡ false
      → (finish_at fl p generation ok now).state ≡ p.state
  unfolding finish_at
  stale-state p generation ok now h = ground (arith, h)

  module _ (p : Protection F64) (s : State F64) (before : List Attempt) (a : Attempt)
      (after : List Attempt) (i : Shut s (record { protection = p; live = before ++ a ∷ after }))
      (calm : (s.probing && a.generation == s.generation) ≡ false) where
    not_current : (a.generation == s.generation) ≡ false
    not_current = ground (arith, calm, i.single, current-others s.generation before a after)

    ended-Shut :
        (p' : Protection F64) (ok : Bool) (now : ℕ)
        → p'.state ≡ (finish_at fl p a.generation ok now).state
        → Shut s (record { protection = p'; live = before ++ after })
    ended-Shut p' ok now h = record {
      same = h ∙ stale-state p a.generation ok now (rw (i.same) not_current) ∙ i.same;
      known = Known-others s.generation before a after i.known;
      single = ground (arith, not_current, i.single, current-others s.generation before a after);
    }

  Step-Shut :
      (s : State F64) (at : ℕ) (d d' : Dials F64) (step : Step fl d d')
      → s.retry_at ≡ some at
      → Undisturbed at s d d' step
      → Shut s d
      → Shut s d' × (is_dial d d' step ≡ 0)
  Step-Shut s at _ _ (dialed {p} {p'} {a} {live} now e) h calm i =
      absurd (ground (arith, e, refused_lem p s at now i.same h calm))
  Step-Shut s at _ _ (refused {p} {p'} {live} now e) h calm i =
      let kept : p ≡ p' = ground (arith, e, refused_lem p s at now i.same h calm) in
      (
        record {
          same = sym (ap (λ (t : Protection F64). t.state) kept) ∙ i.same;
          known = i.known;
          single = i.single;
        },
        refl,
      )
  Step-Shut s at _ _ (completed {p} before a after ok now) h calm i =
      (ended-Shut p s before a after i calm _ ok now (finish_attempt-state fl p a ok now), refl)
  Step-Shut s at _ _ (dropped {p} before a after now) h calm i =
      let alive = (Known-at s.generation before a after i.known).1 in
      (ended-Shut p s before a after i calm _ false now (drop_attempt-state fl p a now alive), refl)

  period-Shut :
      (s : State F64) (at : ℕ) (d d' : Dials F64) (period : Period at s d d')
      → s.retry_at ≡ some at
      → Shut s d
      → Shut s d' × (dials_in at s d d' period ≡ 0)
  period-Shut s at _ _ begins h i = (i, refl)
  period-Shut s at d d'' (goes_on {d' = d'} period step calm) h i =
      let (j, none_before) = period-Shut s at d d' period h i in
      let (k, not_now) = Step-Shut s at d' d'' step h calm j in
      (k, omega (arith, none_before, not_now))

  -- An open circuit stays shut. From any state that the circuit breaker comes to in fewer than 2^64
  -- steps with its circuit open until `at`, and through any run of steps in which each dial comes
  -- before `at` or while a probe is under way, and in which that probe is not completed, no dial is
  -- let in, and the completions and drops of the attempts that were let in before, successful or not,
  -- neither close the circuit nor open it anew: its state stays what it was.
  pub Reach-shut :
      (cfg : BackendProtection F64) (slots : ℕ) (m : Metrics) (now : ℕ) (d d' : Dials F64)
      (r : Reach fl cfg slots m now d) (at : ℕ) (period : Period at d.protection.state d d')
      → steps_of fl d r < 2 ^ 64
      → d.protection.state.retry_at ≡ some at
      → (dials_in at d.protection.state d d' period ≡ 0)
        × (d'.protection.state ≡ d.protection.state)
  Reach-shut cfg slots m now d d' r at period few h =
      let i = reached-Probes fl cfg slots m now d r few in
      let (shut, none_in) =
        period-Shut d.protection.state at d d' period h
          (record { same = refl; known = i.known; single = i.single at h }) in
      (none_in, shut.same)

  failed-retry_at :
      (p : Protection F64) (a : Attempt) (now : ℕ)
      → 1 ≤ p.cfg.failure_threshold
      → p.cfg.failure_threshold < 2 ^ 32
      → (a.generation == p.state.generation) ≡ true
      → (p.cfg.failure_threshold ≤ p.state.failures + 1) ⊎ (p.state.probing ≡ true)
      → (finish_attempt fl p a false now).state.retry_at ≡ some (now + p.cfg.cooldown_ms * 1000000)
  unfolding finish_attempt
  failed-retry_at p a now k w g f =
      let on : (p.cfg.failure_threshold == 0) ≡ false = ground (arith, k) in
      let reached : (p.state.probing
            || leb p.cfg.failure_threshold (min (p.state.failures + 1) (2 ^ 32 - 1)))
          ≡ true =
        ground (arith, w, f) in
      rw (on, g, reached) refl

  -- The cooldown. In any state that the circuit breaker comes to in fewer than 2^64 - 1 steps, with a
  -- threshold from 1 to 2^32 - 1, let a live attempt of the current generation fail that makes up the
  -- threshold or comes while a probe is under way. Then through any run of steps with dials before
  -- the cooldown has passed no dial is let in, whatever the other attempts come to, and the circuit
  -- stays open until then.
  pub Reach-cooldown :
      (cfg : BackendProtection F64) (slots : ℕ) (m : Metrics) (now : ℕ) (p : Protection F64)
      (before : List Attempt) (a : Attempt) (after : List Attempt) (t : ℕ) (d' : Dials F64)
      (r : Reach fl cfg slots m now (record { protection = p; live = before ++ a ∷ after }))
      (period : Period
        (t + p.cfg.cooldown_ms * 1000000)
        (finish_attempt fl p a false t).state
        (record { protection = finish_attempt fl p a false t; live = before ++ after })
        d')
      → steps_of fl _ r + 1 < 2 ^ 64
      → 1 ≤ p.cfg.failure_threshold
      → p.cfg.failure_threshold < 2 ^ 32
      → (a.generation == p.state.generation) ≡ true
      → (p.cfg.failure_threshold ≤ p.state.failures + 1) ⊎ (p.state.probing ≡ true)
      → (dials_in
            (t + p.cfg.cooldown_ms * 1000000)
            (finish_attempt fl p a false t).state
            _
            d'
            period
          ≡ 0)
        × (d'.protection.state.retry_at ≡ some (t + p.cfg.cooldown_ms * 1000000))
  Reach-cooldown cfg slots m now p before a after t d' r period few k w g f =
      let opens = failed-retry_at p a t k w g f in
      let (none_in, same) =
        Reach-shut cfg slots m now
          (record { protection = finish_attempt fl p a false t; live = before ++ after }) d'
          (steps r (completed before a after false t)) (t + p.cfg.cooldown_ms * 1000000) period few
          opens in
      (none_in, ap (λ (s : State F64). s.retry_at) same ∙ opens)
