-- ===== src/Gate/Tickets/Reached.antt =====
-- gate/src/main.rs: in every state that the gate comes to, the limiter counts the tickets of the live
-- connections.
use xddp.Prelude.{
  ℕ, ◌+◌, ◌≤◌, ◌<◌, ◌^◌, ◌≡◌, refl, ap, List, [], ◌∷◌, ◌++◌, Option, none, some, Bool, true, false,
  length, length-append, arith,
}
use xddp.Prelude.Float.{Float}
use xddp.Net.{IpNets}
use xddp.Config.File.{Config}
use xddp.Cache.Status.{StatusCache}
use xddp.Limiter.Address.{IpAddr}
use xddp.Limiter.State.{Ticket, new_limiter}
use xddp.Limiter.Counts.{view}
use xddp.Limiter.System.{on_sweep}
use xddp.Limiter.System.Held.{held}
use xddp.Limiter.System.Invariant.{new_limiter-Consistent}
use xddp.Limiter.System.Caps.{Bounded}
use xddp.Limiter.System.Caps.Reached.{nothing-Capped, Capped-Bounded}
use xddp.Runtime.{Wire}
use xddp.Gate.{Live, unwind}
use xddp.Gate.Guards.{After, resume, limiter_of}
use xddp.Gate.World.{
  World, back, new_state, maintain, start_poll, end_poll, abort_poll, after_step, Step, accepts,
  fails_to_accept, acts, aborts, maintains, watches, starts_poll, skips_poll, ends_poll,
  aborts_poll, Reach, starts, steps,
}
use xddp.Gate.Tickets.{tickets, with_ticket, with_live, Limited, with_metrics-Limited, Step-Limited}
use xddp.Gate.Tickets.Drops.{Fine}
use xddp.Gate.Tickets.Calls.{act-Limited}

pub tickets-middle :
    (before : List Live) (c : Option Live) (after : List Live)
    → tickets (before ++ back c after) ≡ tickets before ++ with_live c (tickets after)
unfolding tickets
tickets-middle [] none after = refl
tickets-middle [] (some c) after = refl
tickets-middle (b ∷ before) c after = with_first b.ticket _ _ _ (tickets-middle before c after)
  where
    with_first :
        (t : Option Ticket) (ts us vs : List Ticket)
        → ts ≡ us ++ vs
        → with_ticket t ts ≡ with_ticket t us ++ vs
    with_first none ts us vs e = e
    with_first (some t) ts us vs e = ap (λ (xs : List Ticket). t ∷ xs) e

tickets-few : (cs : List Live) → length (tickets cs) ≤ length cs
unfolding tickets
tickets-few [] = omega arith
tickets-few (c ∷ cs) = omega (arith, one_more c.ticket (tickets-few cs))
  where
    one_more :
        (t : Option Ticket)
        → length (tickets cs) ≤ length cs
        → length (with_ticket t (tickets cs)) ≤ length cs + 1
    one_more none h = omega (arith, h)
    one_more (some t) h = omega (arith, h)

-- The connection that acts is not counted among the others.
others_few :
    (before : List Live) (c : Live) (after : List Live)
    → length (before ++ c ∷ after) < 2 ^ 64
    → length (tickets before ++ tickets after) + 1 < 2 ^ 64
others_few before c after h = omega (
  arith,
  h,
  length-append before (c ∷ after),
  length-append (tickets before) (tickets after),
  tickets-few before,
  tickets-few after,
)

-- The connections are fewer than a counter can count, and the limiter counts their tickets.
pub record Counted {F N V : Type 0} (cfg : Config F N V) (w : World F N V) : Type 0 where
  pub few : length w.live < 2 ^ 64
  pub limited : Limited cfg.limits w.state.limiter (tickets w.live)

back_few :
    (before : List Live) (c : Live) (c' : Option Live) (after : List Live)
    → length (before ++ c ∷ after) < 2 ^ 64
    → length (before ++ back c' after) < 2 ^ 64
back_few before c none after h =
    omega (arith, h, length-append before (c ∷ after), length-append before after)
back_few before c (some c') after h =
    omega (arith, h, length-append before (c ∷ after), length-append before (c' ∷ after))

module _ (fl : Float) (nets : IpNets) (parse : List ℕ → Option (Wire nets.IpNet)) {V : Type 0}
    (cfg : Config fl.F64 nets.IpNet V) where
  open fl use {F64}
  open nets use {IpNet}

  after_step-Counted :
      (before : List Live) (c : Live) (after : List Live) (v : After F64 IpNet V) (polling : Bool)
      → length (before ++ c ∷ after) < 2 ^ 64
      → Fine cfg.limits (tickets before) (tickets after) v
      → Counted cfg (after_step fl nets parse v before after polling)
  after_step-Counted before c after (s, c') polling few h = record {
    few = back_few before c c' after few;
    limited = rw (tickets-middle before c' after) h;
  }

  Step-Counted :
      (w w' : World F64 IpNet V) → Step fl nets parse w w' → Counted cfg w → Counted cfg w'
  unfolding tickets maintain start_poll end_poll abort_poll
  Step-Counted _ _ (accepts s live polling client arrivals t h) i = record {
    few = omega (arith, h);
    limited = i.limited;
  }
  Step-Counted _ _ (fails_to_accept s live polling) i = record { few = i.few; limited = i.limited }
  Step-Counted _ _ (acts s before c after polling o running) i =
      let split = tickets-middle before (some c) after in
      after_step-Counted before c after _ polling i.few (
        act-Limited fl nets parse cfg.limits (tickets before) (tickets after) s c o
          (others_few before c after i.few) (rw split at i.limited))
  Step-Counted _ _ (aborts s before c after polling) i =
      let split = tickets-middle before (some c) after in
      record {
        few = back_few before c (some (resume c unwind)) after i.few;
        limited = rw (tickets-middle before (some (resume c unwind)) after) (rw split at i.limited);
      }
  Step-Counted _ _ (maintains s live polling shard unix t) i = record {
    few = i.few;
    limited =
        Step-Limited fl cfg.limits _ _ (on_sweep (limiter_of fl s) _ shard t)
          (with_metrics-Limited cfg.limits s.limiter _ s.metrics i.limited);
  }
  Step-Counted _ _ (watches s live polling file unix t) i = record {
    few = i.few;
    limited = i.limited;
  }
  Step-Counted _ _ (starts_poll s live h) i = record { few = i.few; limited = i.limited }
  Step-Counted _ _ (skips_poll s live h) i = record { few = i.few; limited = i.limited }
  Step-Counted _ _ (ends_poll s live answer t) i = record { few = i.few; limited = i.limited }
  Step-Counted _ _ (aborts_poll s live) i = record { few = i.few; limited = i.limited }

  pub reached-Counted :
      (hash_ip hash_prefix : IpAddr → ℕ) (cache : StatusCache) (t : ℕ) (w : World F64 IpNet V)
      → Reach fl nets parse cfg hash_ip hash_prefix cache t w
      → Counted cfg w
  unfolding tickets new_state new_limiter
  reached-Counted hash_ip hash_prefix cache t _ starts = record {
    few = omega arith;
    limited = record {
      cfg_same = refl;
      consistent = new_limiter-Consistent fl cfg.limits hash_ip hash_prefix (λ n. 0) t;
      capped = nothing-Capped fl cfg.limits;
    };
  }
  reached-Counted hash_ip hash_prefix cache t w' (steps w _ reached step) =
      Step-Counted w w' step (reached-Counted hash_ip hash_prefix cache t w reached)

  -- In every state that the gate comes to, with at most 2^64 - 1 live connections, and whatever the
  -- connections do, each entry of the limiter's two tables counts exactly the tickets that the
  -- connections hold for its key, and each of the five configured caps, unless it is 0, bounds
  -- them.
  pub Reach-tickets :
      (hash_ip hash_prefix : IpAddr → ℕ) (cache : StatusCache) (t : ℕ) (w : World F64 IpNet V)
      → Reach fl nets parse cfg hash_ip hash_prefix cache t w
      → (k : IpAddr)
      → (view w.state.limiter.ip k ≡ held true (tickets w.live) k)
        × (view w.state.limiter.prefix k ≡ held false (tickets w.live) k)
        × Bounded cfg.limits (held true (tickets w.live) k) (held false (tickets w.live) k)
  Reach-tickets hash_ip hash_prefix cache t w reached k =
      let counted = (reached-Counted hash_ip hash_prefix cache t w reached).limited in
      (
        counted.consistent.ip_counted k,
        counted.consistent.prefix_counted k,
        Capped-Bounded cfg.limits (tickets w.live) counted.capped k,
      )
