-- ===== src/Backend/Dials.antt =====
-- gate/src/backend.rs: the circuit breaker with its live attempts, and the steps that dials take.
use xddp.Prelude.{
  ℕ, ◌+◌, ◌≡◌, ap, ◌∙◌, List, [], ◌∷◌, ◌++◌, none, some, Bool, true, false, inl, inr, Bool-cases,
  if◌then◌else◌, ◌==◌, length, length-append, arith,
}
use xddp.Prelude.Float.{Float}
use xddp.Config.Settings.{BackendProtection}
use xddp.Metrics.{Metrics}
use xddp.Backend.{
  Protection, Attempt, new_protection, enter, finish_at, drop_attempt, finish_attempt,
}

pub record Dials (F : Type 0) : Type 0 where
  pub protection : Protection F
  pub live : List Attempt

module _ (fl : Float) where
  open fl use {F64}

  -- A dial is let in or not, and an attempt that lives is completed or dropped.
  pub data Step : Dials F64 → Dials F64 → Type 0 where
    dialed :
        {p p' : Protection F64} {a : Attempt} {live : List Attempt} (now : ℕ)
        → enter fl p now ≡ (some a, p')
        → Step
            (record { protection = p; live = live })
            (record { protection = p'; live = a ∷ live })
    refused :
        {p p' : Protection F64} {live : List Attempt} (now : ℕ)
        → enter fl p now ≡ (none, p')
        → Step (record { protection = p; live = live }) (record { protection = p'; live = live })
    completed :
        {p : Protection F64} (before : List Attempt) (a : Attempt) (after : List Attempt)
        (ok : Bool) (now : ℕ)
        → Step
            (record { protection = p; live = before ++ a ∷ after })
            (record { protection = finish_attempt fl p a ok now; live = before ++ after })
    dropped :
        {p : Protection F64} (before : List Attempt) (a : Attempt) (after : List Attempt) (now : ℕ)
        → Step
            (record { protection = p; live = before ++ a ∷ after })
            (record { protection = drop_attempt fl p a now; live = before ++ after })

  -- What a new circuit breaker reaches.
  pub data Reach (cfg : BackendProtection F64) (slots : ℕ) (m : Metrics) (now : ℕ)
      : Dials F64 → Type 0 where
    starts :
        Reach cfg slots m now (record { protection = new_protection fl cfg slots m now; live = [] })
    steps : {d d' : Dials F64} → Reach cfg slots m now d → Step d d' → Reach cfg slots m now d'

  pub enter-slots :
      (p p' : Protection F64) (a : Attempt) (now : ℕ)
      → enter fl p now ≡ (some a, p')
      → p'.slots + 1 ≡ p.slots
  unfolding enter
  enter-slots p p' a now e = ground (arith, e)

  pub enter-none_slots :
      (p p' : Protection F64) (now : ℕ) → enter fl p now ≡ (none, p') → p'.slots ≡ p.slots
  unfolding enter
  enter-none_slots p p' now e = ground (arith, e)

  finish_at-slots :
      (p : Protection F64) (generation : ℕ) (ok : Bool) (now : ℕ)
      → (finish_at fl p generation ok now).slots ≡ p.slots
  unfolding finish_at
  finish_at-slots p generation ok now = ground arith

  pub drop_attempt-slots :
      (p : Protection F64) (a : Attempt) (now : ℕ) → (drop_attempt fl p a now).slots ≡ p.slots + 1
  unfolding drop_attempt
  drop_attempt-slots p a now = elim (Bool-cases a.finished) [
    | inl done ↦ rw done
    | inr open_still ↦
        rw open_still (ap (λ (n : ℕ). n + 1) (finish_at-slots p a.generation false now))
  ]

  pub finish_attempt-slots :
      (p : Protection F64) (a : Attempt) (ok : Bool) (now : ℕ)
      → (finish_attempt fl p a ok now).slots ≡ p.slots + 1
  unfolding finish_attempt
  finish_attempt-slots p a ok now =
      drop_attempt-slots (finish_at fl p a.generation ok now) (record a { finished = true }) now
      ∙ ap (λ (n : ℕ). n + 1) (finish_at-slots p a.generation ok now)

  removed :
      (before after : List Attempt) (a : Attempt)
      → length (before ++ a ∷ after) ≡ length (before ++ after) + 1
  removed before after a =
      omega (arith, length-append before (a ∷ after), length-append before after)

  -- The free slots, and those that live attempts hold.
  abbrev pub all_slots : Dials F64 → ℕ
  all_slots d = d.protection.slots + length d.live

  Step-all_slots : (d d' : Dials F64) → Step d d' → all_slots d' ≡ all_slots d
  Step-all_slots _ _ (dialed {p} {p'} {a} {live} now e) = omega (arith, enter-slots p p' a now e)
  Step-all_slots _ _ (refused {p} {p'} {live} now e) = omega (arith, enter-none_slots p p' now e)
  Step-all_slots _ _ (completed {p} before a after ok now) =
      omega (arith, finish_attempt-slots p a ok now, removed before after a)
  Step-all_slots _ _ (dropped {p} before a after now) =
      omega (arith, drop_attempt-slots p a now, removed before after a)

  -- No slot is lost or made. However dials, completions and drops follow each other, the free slots
  -- and the live attempts are together the configured number, `max_connecting` or, without it, the
  -- slots of the backend; so no more attempts than that are ever connecting.
  pub Reach-all_slots :
      (cfg : BackendProtection F64) (slots : ℕ) (m : Metrics) (now : ℕ) (d : Dials F64)
      → Reach cfg slots m now d
      → all_slots d ≡ (if cfg.max_connecting == 0 then slots else cfg.max_connecting)
  unfolding new_protection
  Reach-all_slots cfg slots m now _ starts = omega arith
  Reach-all_slots cfg slots m now d' (steps {d} r s) =
      Step-all_slots d d' s ∙ Reach-all_slots cfg slots m now d r
