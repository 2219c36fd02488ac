-- ===== src/Relay/Stalls.antt =====
-- gate/src/relay.rs: when a relayed connection is cut off as stalled or idle.
use xddp.Prelude.{
  ℕ, ◌+◌, ◌-◌, ◌*◌, ◌/◌, ◌^◌, ◌≤◌, ◌<◌, ◌≡◌, refl, ap, min, List, [], ◌∷◌, Option, none, some, Bool,
  true, false, ◌==◌, All, inl, inr, Bool-cases, arith,
}
use xddp.Relay.{Poll, pending, failed, ready}
use xddp.Relay.Guard.{
  millisecond, Activity, new_activity, touch, is_idle, Guarded, passed, stalled, sleep_until, check,
}

-- Since when the polls are pending, by the polls so far.
abbrev pub since : Option ℕ → List (Poll × ℕ) → Option ℕ
since t [] = t
since none ((pending, now) ∷ polls) = since (some now) polls
since (some t) ((pending, now) ∷ polls) = since (some t) polls
since t ((failed, now) ∷ polls) = since none polls
since t ((ready n, now) ∷ polls) = since none polls

module _ (over : ℕ → ℕ → Bool) where
  -- The writer after its polls.
  unfoldable pub polled : Guarded → List (Poll × ℕ) → Guarded
  polled g [] = g
  polled g ((r, now) ∷ polls) = polled (check over g r now).1 polls

  -- The timer of a guard that has been pending since a time.
  abbrev timer_of : ℕ → Option ℕ → Option ℕ
  timer_of ms none = none
  timer_of ms (some t) = some (t + ms * millisecond)

  -- The guard's timer says since when it has been pending.
  record Timed (ms : ℕ) (t : Option ℕ) (g : Guarded) : Type 0 where
    same_ms : g.stall_ms ≡ ms
    timer : g.timer ≡ timer_of ms t

  abbrev pub started : Option ℕ → ℕ → ℕ
  started none now = now
  started (some t) now = t

  sleep_until-started :
      (ms : ℕ) (t : Option ℕ) (g : Guarded) (now : ℕ)
      → Timed ms t g
      → sleep_until g now ≡ started t now + ms * millisecond
  sleep_until-started ms none g now h = rw h.timer (ap (λ (s : ℕ). now + s * millisecond) h.same_ms)
  sleep_until-started ms (some t) g now h = rw h.timer

  pending-Timed :
      (ms : ℕ) (t : Option ℕ) (g : Guarded) (now : ℕ)
      → 1 ≤ ms
      → Timed ms t g
      → Timed ms (some (started t now)) (check over g pending now).1
  unfolding check
  pending-Timed ms t g now k h =
      let positive : g.stall_ms == 0 ≡ false = ground (arith, h.same_ms) in
      let at_sleep = sleep_until-started ms t g now h in
      elim (Bool-cases (over (sleep_until g now) now)) [
        | inl late ↦ rw (positive, late) (record { same_ms = h.same_ms; timer = ap some at_sleep })
        | inr early ↦
            rw (positive, early) (record { same_ms = h.same_ms; timer = ap some at_sleep })
      ]

  ready-Timed :
      (ms : ℕ) (t : Option ℕ) (g : Guarded)
      → Timed ms t g
      → Timed ms none (record g { timer = none })
  ready-Timed ms t g h = record { same_ms = h.same_ms; timer = refl }

  polled-Timed :
      (ms : ℕ) (t : Option ℕ) (g : Guarded) (polls : List (Poll × ℕ))
      → 1 ≤ ms
      → Timed ms t g
      → Timed ms (since t polls) (polled g polls)
  unfolding polled check
  polled-Timed ms none g [] k h = h
  polled-Timed ms (some t) g [] k h = h
  polled-Timed ms none g ((pending, now) ∷ polls) k h =
      polled-Timed ms (some now) (check over g pending now).1 polls k
        (pending-Timed ms none g now k h)
  polled-Timed ms (some t) g ((pending, now) ∷ polls) k h =
      polled-Timed ms (some t) (check over g pending now).1 polls k
        (pending-Timed ms (some t) g now k h)
  polled-Timed ms none g ((failed, now) ∷ polls) k h =
      polled-Timed ms none (record g { timer = none }) polls k (ready-Timed ms none g h)
  polled-Timed ms (some t) g ((failed, now) ∷ polls) k h =
      polled-Timed ms none (record g { timer = none }) polls k (ready-Timed ms (some t) g h)
  polled-Timed ms none g ((ready n, now) ∷ polls) k h =
      polled-Timed ms none (record g { timer = none }) polls k (ready-Timed ms none g h)
  polled-Timed ms (some t) g ((ready n, now) ∷ polls) k h =
      polled-Timed ms none (record g { timer = none }) polls k (ready-Timed ms (some t) g h)

  -- Why a poll reports a stalled write.
  pub record Overdue (ms : ℕ) (before : Option ℕ) (r : Poll) (now : ℕ) : Type 0 where
    pub blocked : r ≡ pending
    pub long : started before now + ms * millisecond ≤ now

  module _ (law : (t now : ℕ) → over t now ≡ true → t ≤ now) where
    stalled-Overdue :
        (ms : ℕ) (t : Option ℕ) (g : Guarded) (r : Poll) (now : ℕ)
        → 1 ≤ ms
        → Timed ms t g
        → (check over g r now).0 ≡ stalled
        → Overdue ms t r now
    unfolding check
    stalled-Overdue ms t g failed now k h e = absurd (ground (arith, e))
    stalled-Overdue ms t g (ready n) now k h e = absurd (ground (arith, e))
    stalled-Overdue ms t g pending now k h e =
        let positive : g.stall_ms == 0 ≡ false = ground (arith, h.same_ms) in
        let at_sleep = sleep_until-started ms t g now h in
        elim (Bool-cases (over (sleep_until g now) now)) [
          | inl late ↦ record {
            blocked = refl;
            long = omega (arith, law (sleep_until g now) now late, at_sleep);
          }
          | inr early ↦ absurd (passed-ne-stalled (rw (positive, early) at e))
        ]
      where
        passed-ne-stalled : {p : Poll} → ¬ (passed p ≡ stalled)
        passed-ne-stalled h = ground (arith, h)

    -- A write is reported as stalled only while it is blocked. With a positive stall deadline, after any
    -- polls of a new guard, `check` gives the timeout for no result but a pending one, and only when
    -- all polls of the last `stall_ms` milliseconds were pending: the polls of the present run of
    -- pending ones began that long ago.
    pub check-stalled :
        (g : Guarded) (polls : List (Poll × ℕ)) (r : Poll) (now : ℕ)
        → 1 ≤ g.stall_ms
        → g.timer ≡ none
        → (check over (polled g polls) r now).0 ≡ stalled
        → Overdue g.stall_ms (since none polls) r now
    check-stalled g polls r now k fresh e =
        stalled-Overdue g.stall_ms (since none polls) (polled g polls) r now k
          (polled-Timed g.stall_ms none g polls k (record { same_ms = refl; timer = fresh })) e

-- The activity after reads at the given times.
unfoldable pub touches : Activity → List ℕ → Activity
unfolding touch
touches a [] = a
touches a (now ∷ times) = touches (touch a now) times

abbrev pub Rising : ℕ → List ℕ → Type 0
Rising t [] = Unit {0}
Rising t (now ∷ times) = (t ≤ now) × Rising now times

touches-start : (a : Activity) (times : List ℕ) → (touches a times).start ≡ a.start
unfolding touches touch
touches-start a [] = refl
touches-start a (now ∷ times) = touches-start (touch a now) times

elapsed_ms : ℕ → ℕ → ℕ
elapsed_ms start t = (t - start) / millisecond

-- No read is later than the last one, for which the activity stands.
touches-last :
    (a : Activity) (t : ℕ) (times : List ℕ)
    → Rising t times
    → min (elapsed_ms a.start t) (2 ^ 64 - 1) ≤ a.last_ms
    → All (λ now. min (elapsed_ms a.start now) (2 ^ 64 - 1) ≤ (touches a times).last_ms) (t ∷ times)
unfolding touches elapsed_ms
touches-last a t [] r h = (h, tt)
touches-last a t (now ∷ times) (le, r) h =
    let (first, rest) = touches-last (touch a now) now times r (omega arith) in
    (omega (arith, first, le), (first, rest))

quiet :
    (start ms now last_ms : ℕ) (times : List ℕ)
    → (now - start) / millisecond < 2 ^ 64 - 1
    → last_ms + ms ≤ (now - start) / millisecond
    → All (λ t. min (elapsed_ms start t) (2 ^ 64 - 1) ≤ last_ms) times
    → All (λ t. (t - start) / millisecond + ms ≤ (now - start) / millisecond) times
unfolding elapsed_ms
quiet start ms now last_ms [] h k a = tt
quiet start ms now last_ms (t ∷ times) h k (first, rest) =
    (omega (arith, h, k, first), quiet start ms now last_ms times h k rest)

-- A client is idle only after its silence. When the test of `expired` succeeds, at any time before the
-- milliseconds of a u64 run out, every read that touched the activity is the configured number of
-- milliseconds older than the test, in whole milliseconds from the start.
pub idle-quiet :
    (start : ℕ) (times : List ℕ) (ms now : ℕ)
    → Rising start times
    → (now - start) / millisecond < 2 ^ 64 - 1
    → is_idle (touches (new_activity start) times) ms now ≡ true
    → All (λ t. (t - start) / millisecond + ms ≤ (now - start) / millisecond) times
unfolding new_activity elapsed_ms
idle-quiet start times ms now r h e =
    let a = touches (new_activity start) times in
    let (first, rest) = touches-last (new_activity start) start times r (omega arith) in
    let same : a.start ≡ start = touches-start (new_activity start) times in
    quiet start ms now a.last_ms times h (ground (arith, e, same)) rest
