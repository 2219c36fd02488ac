-- ===== src/Gate/Paths/Reached.antt =====
-- gate/src/main.rs: what the connections hold while they dial, relay and leave, in every state that the
-- gate comes to.
use xddp.Prelude.{
  ℕ, ◌-◌, ◌≤◌, ◌≡◌, refl, List, [], ◌∷◌, ◌++◌, Option, some, Bool, true, false, arith,
}
use xddp.Prelude.Float.{Float}
use xddp.Net.{IpNets}
use xddp.Metrics.{get, add, inc}
use xddp.Config.File.{Config}
use xddp.Cache.Status.{StatusCache}
use xddp.Protocol.Base.{ok}
use xddp.Protocol.Reader.{Conn}
use xddp.Limiter.Address.{IpAddr}
use xddp.Config.Limits.{Limits}
use xddp.Limiter.State.{Entry, Limiter, Ticket}
use xddp.Limiter.Tickets.{drop_ticket, release_entry}
use xddp.Runtime.{Wire}
use xddp.Gate.{
  prelogin, admitted_slots, backend_slots, State, Guard, Task, stop, Client, Live, relay,
}
use xddp.Gate.World.{World, Reach}
use xddp.Gate.Resources.{permits_of, dial_slots}
use xddp.Gate.Resources.Reached.{configured, Reach-everywhere}
use xddp.Gate.Paths.{IsFit, returns, relays, Slotted, excused}
use xddp.Gate.Paths.Calls.{live_of}
use xddp.Gate.Paths.Holding.{waiting, dialing, connected, count_of, AllFit-AllHolding}
use xddp.Gate.Paths.Fits.{AllFit-at, reached-AllFit}

-- A connection that relays, and one that has returned without an error.
abbrev pub relaying : Task → Bool
relaying (relay k) = true
relaying _ = false

abbrev pub returned : Task → Bool
returned (stop (ok x)) = true
returned _ = false

-- A connection that relays: its ticket is admitted, its admission is dropped, and it has its permits.
pub record Relayed (c : Live) : Type 0 where
  pub ticket : Ticket
  pub has_ticket : c.ticket ≡ some ticket
  pub admitted : ticket.admitted ≡ true
  pub no_admission : c.in_admission ≡ []
  pub slots : Slotted c.in_handle

IsFit-excused :
    {gs adm : List Guard} {t : Option Ticket} {task : Task}
    → IsFit gs adm t task
    → returned task ≡ true
    → excused t ≡ true
IsFit-excused (returns h) e = h
IsFit-excused _ e = absurd (ground (arith, e))

IsFit-Relayed :
    (client : Client) (conn : Conn) (tk : List Guard) (b : List ℕ) {gs adm : List Guard}
    {t : Option Ticket} {task : Task}
    → IsFit gs adm t task
    → relaying task ≡ true
    → Relayed (live_of client conn tk b gs adm t task)
IsFit-Relayed client conn tk b (relays {t = t} slots admitted h) e = record {
  ticket = t;
  has_ticket = refl;
  admitted = admitted;
  no_admission = refl;
  slots = slots;
}
IsFit-Relayed client conn tk b _ e = absurd (ground (arith, e))

module _ (fl : Float) (nets : IpNets) (parse : List ℕ → Option (Wire nets.IpNet)) {V : Type 0}
    (cfg : Config fl.F64 nets.IpNet V) where
  open fl use {F64}
  open nets use {IpNet}

  -- However the connections follow each other, those that dial the backend or relay are never more
  -- than `admitted`, nor than the backend slots less the one of the cache, and those that dial are
  -- never more than the slots of the circuit breaker.
  pub Reach-connected :
      (hash_ip hash_prefix : IpAddr → ℕ) (cache : StatusCache) (t : ℕ) (w : World F64 IpNet V)
      → Reach fl nets parse cfg hash_ip hash_prefix cache t w
      → (count_of connected w.live ≤ cfg.limits.admitted)
        × (count_of connected w.live ≤ cfg.limits.backend - 1)
        × (count_of dialing w.live ≤ configured cfg dial_slots)
  Reach-connected hash_ip hash_prefix cache t w reached =
      let all =
        AllFit-AllHolding w.live
          (reached-AllFit fl nets parse cfg hash_ip hash_prefix cache t w reached) in
      let whole = Reach-everywhere fl nets parse cfg hash_ip hash_prefix cache t w reached in
      (
        omega (arith, all.all_admitted, whole (permits_of admitted_slots)),
        omega (arith, all.all_backend, whole (permits_of backend_slots)),
        omega (arith, all.all_dials, whole dial_slots),
      )

  -- However many clients connect, those that the gate keeps waiting on the network before their relay,
  -- for a PROXY header, a frame of the handshake, the login, the status or the ping, the writing of a
  -- status answer or the dial, are never more than the configured `prelogin`.
  pub Reach-waiting :
      (hash_ip hash_prefix : IpAddr → ℕ) (cache : StatusCache) (t : ℕ) (w : World F64 IpNet V)
      → Reach fl nets parse cfg hash_ip hash_prefix cache t w
      → count_of waiting w.live ≤ cfg.limits.prelogin
  Reach-waiting hash_ip hash_prefix cache t w reached =
      let all =
        AllFit-AllHolding w.live
          (reached-AllFit fl nets parse cfg hash_ip hash_prefix cache t w reached) in
      omega (
        arith,
        all.all_slots,
        Reach-everywhere fl nets parse cfg hash_ip hash_prefix cache t w reached
            (permits_of prelogin),
      )

  -- In every state that the gate comes to, a connection that relays has given back its prelogin slot
  -- and all of its admission, its ticket is admitted, so that the limiter does not count it as a
  -- login any more, and it holds a permit of the relays, one of the backend and one for the socket
  -- to the backend.
  pub Reach-Relayed :
      (hash_ip hash_prefix : IpAddr → ℕ) (cache : StatusCache) (t : ℕ) (s : State F64 IpNet V)
      (before : List Live) (c : Live) (after : List Live) (polling : Bool)
      → Reach fl nets parse cfg hash_ip hash_prefix cache t
          (record { state = s; live = before ++ c ∷ after; polling = polling })
      → relaying c.rest ≡ true
      → Relayed c
  Reach-Relayed hash_ip hash_prefix cache t s before c after polling reached e =
      IsFit-Relayed c.client c.conn c.in_task c.to_backend
        (AllFit-at before c after
          (reached-AllFit fl nets parse cfg hash_ip hash_prefix cache t _ reached))
        e

  uncounted :
      (l : Limiter F64) (t : Ticket) (now : ℕ)
      → excused (some t) ≡ true
      → get (drop_ticket fl l t now).metrics 22 ≡ get l.metrics 22
  unfolding drop_ticket get inc add
  uncounted l t now h = ground (arith, h)

  unpunished :
      (l : Limits F64) (t : Ticket) (in_ip : Bool) (threshold : F64) (now : ℕ) (e : Entry F64)
      → excused (some t) ≡ true
      → ((release_entry fl l t in_ip threshold now e).score ≡ e.score)
        × ((release_entry fl l t in_ip threshold now e).penalty_until ≡ e.penalty_until)
  unpunished l t in_ip threshold now e h = (ground (arith, h), ground (arith, h))

  -- A connection whose task has returned without an error, because the gate refused it, served its
  -- status or relayed it, is not punished: when its ticket is dropped no churn is counted, and the
  -- entry's score and the time until which it is penalised stay what they were, whatever the configured
  -- thresholds, the entry and the time.
  pub Reach-unpunished :
      (hash_ip hash_prefix : IpAddr → ℕ) (cache : StatusCache) (t : ℕ) (s : State F64 IpNet V)
      (before : List Live) (c : Live) (after : List Live) (polling : Bool) (mine : Ticket)
      → Reach fl nets parse cfg hash_ip hash_prefix cache t
          (record { state = s; live = before ++ c ∷ after; polling = polling })
      → returned c.rest ≡ true
      → c.ticket ≡ some mine
      → ((l : Limiter F64) (now : ℕ)
          → get (drop_ticket fl l mine now).metrics 22 ≡ get l.metrics 22)
        × ((l : Limits F64) (in_ip : Bool) (threshold : F64) (now : ℕ) (e : Entry F64)
            → ((release_entry fl l mine in_ip threshold now e).score ≡ e.score)
              × ((release_entry fl l mine in_ip threshold now e).penalty_until ≡ e.penalty_until))
  Reach-unpunished hash_ip hash_prefix cache t s before c after polling mine reached done has =
      let fit =
        AllFit-at before c after
          (reached-AllFit fl nets parse cfg hash_ip hash_prefix cache t _ reached) in
      let pardon : excused (some mine) ≡ true = rw has at (IsFit-excused fit done) in
      (
        λ l now. uncounted l mine now pardon,
        λ l in_ip threshold now e. unpunished l mine in_ip threshold now e pardon,
      )
