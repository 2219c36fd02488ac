-- ===== src/Gate/Resources/Reached.antt =====
-- gate/src/main.rs: the permits and the slots in every state that the gate comes to.
use xddp.Prelude.{
  ℕ, ◌+◌, ◌-◌, ◌≡◌, refl, ◌∙◌, List, [], ◌∷◌, ◌++◌, Option, none, some, Bool, true, false,
  if◌then◌else◌, ◌==◌, arith,
}
use xddp.Prelude.Float.{Float}
use xddp.Net.{IpNets}
use xddp.Backend.{new_protection}
use xddp.Config.File.{Config}
use xddp.Cache.Status.{StatusCache}
use xddp.Limiter.Address.{IpAddr}
use xddp.Runtime.{Wire}
use xddp.Gate.{sockets, State, Live, unwind}
use xddp.Gate.Guards.{same, resume, After}
use xddp.Gate.Perform.{act}
use xddp.Gate.World.{
  World, slots_of, back, new_state, maintain, start_poll, end_poll, abort_poll, after_step, Step,
  accepts, fails_to_accept, acts, aborts, maintains, watches, starts_poll, skips_poll, ends_poll,
  aborts_poll, Reach, starts, steps,
}
use xddp.Gate.Resources.{
  Resource, permits_of, dial_slots, free, held_in, held_by, held_after, total,
}
use xddp.Gate.Resources.Calls.{act-total}
use xddp.Gate.Resources.Taken.{acquired}

unfoldable pub held_all : Resource → List Live → ℕ
held_all r [] = 0
held_all r (c ∷ cs) = held_by r c + held_all r cs

-- What the round of `refresh` holds.
abbrev pub of_poll : Resource → Bool → ℕ
of_poll (permits_of p) true = if same sockets p then 1 else 0
of_poll (permits_of p) false = 0
of_poll dial_slots polling = 0

of_poll-none : (r : Resource) → of_poll r false ≡ 0
of_poll-none (permits_of p) = refl
of_poll-none dial_slots = refl

abbrev pub configured : {F N V : Type 0} → Config F N V → Resource → ℕ
configured cfg (permits_of p) = slots_of cfg p
configured cfg dial_slots =
    if cfg.backend_protection.max_connecting == 0
    then cfg.limits.backend - 1
    else cfg.backend_protection.max_connecting

abbrev pub everywhere : {F N V : Type 0} → Resource → World F N V → ℕ
everywhere r w = free r w.state + held_all r w.live + of_poll r w.polling

held_all-middle :
    (r : Resource) (before : List Live) (c : Option Live) (after : List Live)
    → held_all r (before ++ back c after) ≡ held_after r c + held_all r (before ++ after)
unfolding held_all
held_all-middle r [] none after = omega arith
held_all-middle r [] (some c) after = refl
held_all-middle r (b ∷ before) c after = omega (arith, held_all-middle r before c after)

module _ (fl : Float) (nets : IpNets) (parse : List ℕ → Option (Wire nets.IpNet)) {V : Type 0} where
  open fl use {F64}
  open nets use {IpNet}

  after_step-everywhere :
      (r : Resource) (v : After F64 IpNet V) (before after : List Live) (polling : Bool)
      → everywhere r (after_step fl nets parse v before after polling)
        ≡ total r v + held_all r (before ++ after) + of_poll r polling
  after_step-everywhere r (s, c) before after polling =
      omega (arith, held_all-middle r before c after)

  start_poll-free :
      (r : Resource) (s : State F64 IpNet V)
      → (s.permits sockets == 0) ≡ false
      → free r (start_poll fl nets parse s) + of_poll r true ≡ free r s
  unfolding start_poll
  start_poll-free (permits_of p) s h =
      acquired (permits_of p) s.permits s.backend_protection.slots sockets h
  start_poll-free dial_slots s h = omega arith

  end_poll-free :
      (r : Resource) (s : State F64 IpNet V) (answer : Option _) (t : ℕ)
      → free r (end_poll fl nets parse s answer t) ≡ free r s + of_poll r true
  unfolding end_poll
  end_poll-free (permits_of p) s answer t = ground arith
  end_poll-free dial_slots s answer t = omega arith

  abort_poll-free :
      (r : Resource) (s : State F64 IpNet V)
      → free r (abort_poll fl nets parse s) ≡ free r s + of_poll r true
  unfolding abort_poll
  abort_poll-free (permits_of p) s = ground arith
  abort_poll-free dial_slots s = omega arith

  Step-everywhere :
      (r : Resource) (w w' : World F64 IpNet V)
      → Step fl nets parse w w'
      → everywhere r w' ≡ everywhere r w
  unfolding held_all held_in maintain
  Step-everywhere r _ _ (accepts s live polling client arrivals t h) = omega arith
  Step-everywhere r _ _ (fails_to_accept s live polling) = refl
  Step-everywhere r _ _ (acts s before c after polling o running) = omega (
    arith,
    after_step-everywhere r (act fl nets parse s c o) before after polling,
    act-total fl nets parse r s c o,
    held_all-middle r before (some c) after,
  )
  Step-everywhere r _ _ (aborts s before c after polling) = omega (
    arith,
    held_all-middle r before (some c) after,
    held_all-middle r before (some (resume c unwind)) after,
  )
  Step-everywhere r _ _ (maintains s live polling shard unix t) = refl
  Step-everywhere r _ _ (watches s live polling file unix t) = refl
  Step-everywhere r _ _ (starts_poll s live h) =
      omega (arith, start_poll-free r s h, of_poll-none r)
  Step-everywhere r _ _ (skips_poll s live h) = refl
  Step-everywhere r _ _ (ends_poll s live answer t) =
      omega (arith, end_poll-free r s answer t, of_poll-none r)
  Step-everywhere r _ _ (aborts_poll s live) = omega (arith, abort_poll-free r s, of_poll-none r)

  new_state-free :
      (r : Resource) (cfg : Config F64 IpNet V) (hash_ip hash_prefix : IpAddr → ℕ)
      (cache : StatusCache) (t : ℕ)
      → free r (new_state fl nets parse cfg hash_ip hash_prefix cache t) ≡ configured cfg r
  unfolding new_state new_protection
  new_state-free (permits_of p) cfg hash_ip hash_prefix cache t = refl
  new_state-free dial_slots cfg hash_ip hash_prefix cache t = refl

  -- No permit is lost or made, and no slot of the circuit breaker. In every state that the gate comes
  -- to, however the calls of its connections, their drops and aborts, the polls of the backend and
  -- the other tasks follow each other, what is free of each semaphore, what the live connections
  -- hold of it and what a poll holds are together the configured number. So the connections never
  -- hold more than that, and when all have ended and no poll is running everything is free again.
  pub Reach-everywhere :
      (cfg : Config F64 IpNet V) (hash_ip hash_prefix : IpAddr → ℕ) (cache : StatusCache) (t : ℕ)
      (w : World F64 IpNet V)
      → Reach fl nets parse cfg hash_ip hash_prefix cache t w
      → (r : Resource) → everywhere r w ≡ configured cfg r
  unfolding held_all
  Reach-everywhere cfg hash_ip hash_prefix cache t _ starts r =
      omega (arith, new_state-free r cfg hash_ip hash_prefix cache t, of_poll-none r)
  Reach-everywhere cfg hash_ip hash_prefix cache t w' (steps w _ reached step) r =
      Step-everywhere r w w' step ∙ Reach-everywhere cfg hash_ip hash_prefix cache t w reached r
