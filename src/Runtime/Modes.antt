-- ===== src/Runtime/Modes.antt =====
-- gate/src/runtime.rs and gate/src/limiter.rs: the modes of `policy` and the multipliers of `accept`.
use xddp.Prelude.{
  ℕ, zero, suc, ◌-◌, ◌≤◌, ◌<◌, ◌≡◌, refl, List, [], ◌∷◌, Option, none, some, Bool, true, false,
  ◌||◌, ltb, leb, length, get_elem?, inl, inr, Bool-cases, arith,
}
use xddp.Prelude.Float.{Float}
use xddp.Limiter.Address.{IpAddr, normalize, subnet}
use xddp.Limiter.Bucket.{Policy}
use xddp.Limiter.State.{
  Entry, Limiter, Ticket, Verdict, panicked, refused, granted, first_failing, store, at_cap,
  is_full,
}
use xddp.Limiter.Accept.{accept, accept_caps, accept_rates}
use xddp.Limiter.Counts.Accepts.{either_fails}
use xddp.Net.{IpNets}
use xddp.Runtime.{lease, Opened, Wire, Snapshot, new_runtime, policy, policy_of, watch}
use xddp.Runtime.Policies.{IsSnapshot, watch-IsRuntime, new-IsRuntime}

abbrev pub panics : {A : Type 0} → Verdict A → Bool
panics panicked = true
panics refused = false
panics (granted t) = false

get_elem?-some :
    {A : Type 0} (xs : List A) (n : ℕ) → n < length xs → (x : A) × (get_elem? xs n ≡ some x)
get_elem?-some [] n h = absurd (omega (arith, h))
get_elem?-some (x ∷ xs) zero h = (x, refl)
get_elem?-some (x ∷ xs) (suc n) h = get_elem?-some xs n (omega (arith, h))

first_failing-all :
    {A : Type 0} (P : A → Type 0) (a b c : Bool) (x y z w : A)
    → P x
    → P y
    → P z
    → P w
    → P (first_failing a b c x y z w)
unfolding first_failing
first_failing-all P false b c x y z w px py pz pw = px
first_failing-all P true false c x y z w px py pz pw = py
first_failing-all P true true false x y z w px py pz pw = pz
first_failing-all P true true true x y z w px py pz pw = pw

module _ (fl : Float) where
  open fl use {F64}

  data NoPanic : Verdict Ticket × Limiter F64 → Type 0 where
    on_refused : {l : Limiter F64} → NoPanic (refused, l)
    on_granted : {t : Ticket} {l : Limiter F64} → NoPanic (granted t, l)

  NoPanic-panics : (r : Verdict Ticket × Limiter F64) → NoPanic r → panics r.0 ≡ false
  NoPanic-panics _ on_refused = refl
  NoPanic-panics _ on_granted = refl

  accept_rates-NoPanic :
      (l : Limiter F64) (ip : IpAddr) (i : Entry F64) (prefix : IpAddr) (net : Entry F64)
      (factor : F64) (p : Policy) (now : ℕ)
      → NoPanic (accept_rates fl l ip i prefix net factor p now)
  unfolding accept_rates
  accept_rates-NoPanic l ip i prefix net factor p now =
      first_failing-all NoPanic _ _ _ _ _ _ _ on_refused on_refused on_refused on_granted

  accept_caps-NoPanic :
      (l : Limiter F64) (ip : IpAddr) (i : Entry F64) (prefix : IpAddr) (net : Entry F64)
      (p : Policy) (now : ℕ)
      → p.mode < length l.cfg.mode_multipliers
      → NoPanic (accept_caps fl l ip i prefix net p now)
  unfolding accept_caps
  accept_caps-NoPanic l ip i prefix net p now h =
      either_fails NoPanic (at_cap l.cfg.connections_ip i.active)
        (at_cap l.cfg.connections_prefix net.active) _ _ on_refused
        (λ c₁ c₂.
          either_fails NoPanic (at_cap l.cfg.prelogin_ip i.pending)
            (at_cap l.cfg.prelogin_prefix net.pending) _ _ on_refused
            (λ p₁ p₂. by_factor (get_elem?-some l.cfg.mode_multipliers p.mode h)))
    where
      by_factor :
          (x : F64) × (get_elem? l.cfg.mode_multipliers p.mode ≡ some x)
          → NoPanic (elim (get_elem? l.cfg.mode_multipliers p.mode) [
            | none ↦ (panicked, store fl l ip i prefix net l.global l.metrics)
            | some factor ↦ accept_rates fl l ip i prefix net factor p now
          ])
      by_factor (x, e) = rw e (accept_rates-NoPanic l ip i prefix net x p now)

  accept-NoPanic :
      (l : Limiter F64) (addr : IpAddr) (p : Policy) (now : ℕ)
      → p.mode < length l.cfg.mode_multipliers
      → NoPanic (accept fl l addr p now)
  unfolding accept
  accept-NoPanic l addr p now h =
      either_fails NoPanic (is_full fl l.ip (normalize addr))
        (is_full fl l.prefix (subnet (normalize addr) l.cfg.ipv4_prefix l.cfg.ipv6_prefix)) _ _
        on_refused (λ f₁ f₂. accept_caps-NoPanic l _ _ _ _ p now h)

policy_of-mode :
    (nets : IpNets) (parse : List ℕ → Option (Wire nets.IpNet)) (d : Bool)
    (previous : Option (Snapshot nets.IpNet)) (ip : IpAddr) (unix now : ℕ)
    → IsSnapshot nets parse previous
    → (policy_of nets parse d previous ip unix now).0.mode ≤ 3
policy_of-mode nets parse d none ip unix now w = omega arith
policy_of-mode nets parse d (some s) ip unix now (mode_le, allow_le, block_le, allow, block) =
    elim (Bool-cases (ltb lease (now - s.received) || leb s.wire.expires_unix unix)) [
      | inl lapsed ↦ rw lapsed (omega arith)
      | inr runs ↦ rw runs mode_le
    ]

-- The published mode is an index of the multipliers. Where the limiter has four of them, `accept`
-- under the policy that the runtime gives for an address, after any rounds of `watch` on a new
-- runtime, does not index out of bounds.
pub accept-policy :
    (nets : IpNets) (parse : List ℕ → Option (Wire nets.IpNet)) (fl : Float) (d : Bool)
    (path : List ℕ) (rounds : List (Opened × ℕ × ℕ)) (l : Limiter fl.F64) (addr : IpAddr)
    (unix now : ℕ)
    → length l.cfg.mode_multipliers ≡ 4
    → panics
        (accept fl l addr
          (policy nets parse (watch nets parse (new_runtime d) path rounds) addr unix now).0
          now).0
      ≡ false
unfolding policy
accept-policy nets parse fl d path rounds l addr unix now four =
    let r = watch nets parse (new_runtime d) path rounds in
    let reached =
      watch-IsRuntime nets parse d (new_runtime d) path rounds (new-IsRuntime nets parse d) in
    let mode_le = policy_of-mode nets parse r.default_observe r.value addr unix now reached.1 in
    NoPanic-panics fl _ (
      accept-NoPanic fl l addr (policy nets parse r addr unix now).0 now
        (omega (arith, four, mode_le)))
