-- ===== src/Backend/Probes.antt =====
-- gate/src/backend.rs: the attempts of a circuit that is open, in every state that it comes to.
pub mod Reached
pub mod Shut
use xddp.Prelude.{
  ℕ, ◌+◌, ◌-◌, ◌%◌, ◌^◌, ◌<◌, ◌≤◌, ◌≡◌, ◌⊎◌, refl, ◌∙◌, List, [], ◌∷◌, ◌++◌, Option, none, some,
  Bool, true, false, inl, inr, Bool-cases, if◌then◌else◌, ◌==◌, ◌||◌, leb, min, All, arith,
}
use xddp.Prelude.Float.{Float}
use xddp.Config.Settings.{BackendProtection}
use xddp.Metrics.{Metrics}
use xddp.Backend.{
  State, Protection, Attempt, new_protection, enter, count_failure, finish_at, drop_attempt,
  finish_attempt,
}
use xddp.Backend.Dials.{Dials, Step, dialed, refused, completed, dropped, Reach, starts, steps}

-- The live attempts that were let in since the generation began.
unfoldable pub current : ℕ → List Attempt → ℕ
current g [] = 0
current g (a ∷ live) = (if a.generation == g then 1 else 0) + current g live

-- No attempt is of a generation to come, and none has been completed.
abbrev pub Known : ℕ → List Attempt → Type 0
Known g live = All (λ a. (a.generation ≤ g) × (a.finished ≡ false)) live

pub Known-others :
    (g : ℕ) (before : List Attempt) (a : Attempt) (after : List Attempt)
    → Known g (before ++ a ∷ after)
    → Known g (before ++ after)
Known-others g [] a after h = h.1
Known-others g (b ∷ before) a after h = (h.0, Known-others g before a after h.1)

pub Known-at :
    (g : ℕ) (before : List Attempt) (a : Attempt) (after : List Attempt)
    → Known g (before ++ a ∷ after)
    → (a.generation ≤ g) × (a.finished ≡ false)
Known-at g [] a after h = h.0
Known-at g (b ∷ before) a after h = Known-at g before a after h.1

Known-later : (g : ℕ) (live : List Attempt) → Known g live → Known (g + 1) live
Known-later g [] h = tt
Known-later g (a ∷ live) h = ((omega (arith, h.0.0), h.0.1), Known-later g live h.1)

current-later : (g : ℕ) (live : List Attempt) → Known g live → current (g + 1) live ≡ 0
unfolding current
current-later g [] h = refl
current-later g (a ∷ live) h = ground (arith, h.0.0, current-later g live h.1)

pub current-others :
    (g : ℕ) (before : List Attempt) (a : Attempt) (after : List Attempt)
    → current g (before ++ a ∷ after)
      ≡ (if a.generation == g then 1 else 0) + current g (before ++ after)
unfolding current
current-others g [] a after = refl
current-others g (b ∷ before) a after = omega (arith, current-others g before a after)

-- A state after `n` steps with its live attempts: when the circuit is open, those that were let in
-- since it opened are the probe, or none.
pub record Probes {F : Type 0} (threshold n : ℕ) (s : State F) (live : List Attempt) : Type 0 where
  pub young : s.generation ≤ n
  pub known : Known s.generation live
  pub single :
      (at : ℕ) → s.retry_at ≡ some at → current s.generation live ≡ (if s.probing then 1 else 0)
  pub off : threshold ≡ 0 → s.retry_at ≡ none

module _ (fl : Float) where
  open fl use {F64}

  module _ (p : Protection F64) (before : List Attempt) (a : Attempt) (after : List Attempt) (n : ℕ)
      (i : Probes p.cfg.failure_threshold n p.state (before ++ a ∷ after)) where
    -- The attempt was not let in since the circuit opened.
    pub left-Probes :
        (p.cfg.failure_threshold ≡ 0) ⊎ ((a.generation == p.state.generation) ≡ false)
        → Probes p.cfg.failure_threshold (n + 1) p.state (before ++ after)
    left-Probes h = record {
      young = omega (arith, i.young);
      known = Known-others p.state.generation before a after i.known;
      single = λ at e.
          ground
            (arith, h, e, i.off, i.single at e, current-others p.state.generation before a after);
      off = i.off;
    }

    counted-Probes :
        (now : ℕ)
        → n + 1 < 2 ^ 64
        → (a.generation == p.state.generation) ≡ true
        → (p.cfg.failure_threshold == 0) ≡ false
        → Probes p.cfg.failure_threshold (n + 1) (count_failure fl p now).state (before ++ after)
    counted-Probes now few same on =
        let own = current-others p.state.generation before a after in
        let later : (p.state.generation + 1) % 2 ^ 64 ≡ p.state.generation + 1 =
          omega (arith, i.young, few) in
        elim (Bool-cases (
          p.state.probing
          || leb p.cfg.failure_threshold (min (p.state.failures + 1) (2 ^ 32 - 1)))) [
            | inl opens ↦
                rw (opens, later)
                  (record {
                    young = omega (arith, i.young);
                    known =
                        Known-later p.state.generation (before ++ after)
                          (Known-others p.state.generation before a after i.known);
                    single = λ at e.
                        current-later p.state.generation (before ++ after)
                          (Known-others p.state.generation before a after i.known);
                    off = λ none_set. absurd (ground (arith, on, none_set));
                  })
            | inr closed ↦ rw closed (record {
              young = omega (arith, i.young);
              known = Known-others p.state.generation before a after i.known;
              single = λ at e. absurd (ground (arith, closed, same, own, i.single at e));
              off = i.off;
            })
          ]

    pub finish-Probes :
        (ok : Bool) (now : ℕ)
        → n + 1 < 2 ^ 64
        → Probes p.cfg.failure_threshold
            (n + 1)
            (finish_at fl p a.generation ok now).state
            (before ++ after)
    unfolding finish_at
    finish-Probes ok now few = elim (Bool-cases (p.cfg.failure_threshold == 0)) [
      | inl unused ↦ rw unused (left-Probes (inl (ground (arith, unused))))
      | inr on ↦ elim (Bool-cases (a.generation == p.state.generation)) [
        | inr stale ↦ rw (on, stale) (left-Probes (inr stale))
        | inl same ↦ elim (Bool-cases ok) [
          | inr failed ↦ rw (on, same, failed) (counted-Probes now few same on)
          | inl done ↦
              rw (on, same, done)
                (record {
                  young = omega (arith, i.young);
                  known = Known-others p.state.generation before a after i.known;
                  single = λ at e. absurd (ground (arith, e));
                  off = λ _. refl;
                })
        ]
      ]
    ]
