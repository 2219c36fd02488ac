-- ===== src/Gate/Tickets/Drops.antt =====
-- gate/src/main.rs: after a drop the limiter still counts the tickets of the connections.
use xddp.Prelude.{ℕ, ◌≡◌, refl, List, [], ◌∷◌, ◌++◌, Option, none, some}
use xddp.Prelude.Float.{Float}
use xddp.Net.{IpNets}
use xddp.Config.Limits.{Limits}
use xddp.Protocol.Base.{Result, ok, err}
use xddp.Limiter.State.{Ticket}
use xddp.Limiter.System.{on_drop}
use xddp.Runtime.{Wire}
use xddp.Gate.{
  State, Guard, permit, gauge, prelogin_time, attempt, Scope, Task, Live, in_handle, in_admission,
  in_task,
}
use xddp.Gate.Guards.{
  After, drop_guard, drop_taken, drop_fields, end_task, leave_admission, drop_its_ticket, leave,
  limiter_of,
}
use xddp.Gate.Tickets.{with_ticket, with_live, Limited, with_metrics-Limited, Step-Limited}

-- The limiter after a step counts the tickets, the one of this connection between the others.
abbrev pub Fine : {F N V : Type 0} → Limits F → List Ticket → List Ticket → After F N V → Type 0
Fine cfg xs ys (s, c) = Limited cfg s.limiter (xs ++ with_live c ys)

module _ (fl : Float) (nets : IpNets) (parse : List ℕ → Option (Wire nets.IpNet)) {V : Type 0}
    (cfg : Limits fl.F64) (xs ys : List Ticket) where
  open fl use {F64}
  open nets use {IpNet}

  drop_guard-limiter :
      (s : State F64 IpNet V) (t : ℕ) (g : Guard) → (drop_guard fl s t g).limiter ≡ s.limiter
  unfolding drop_guard
  drop_guard-limiter s t (permit p) = refl
  drop_guard-limiter s t (gauge n) = refl
  drop_guard-limiter s t (prelogin_time start) = refl
  drop_guard-limiter s t (attempt a) = refl

  dropped-Limited :
      (s : State F64 IpNet V) (t : ℕ) (g : Guard) (ts : List Ticket)
      → Limited cfg s.limiter ts
      → Limited cfg (drop_guard fl s t g).limiter ts
  dropped-Limited s t g ts h = rw (drop_guard-limiter s t g) h

  pub taken-Limited :
      (s : State F64 IpNet V) (c : Live) (scope : Scope) (k : Task)
      (v : Option (Guard × List Guard))
      → Limited cfg s.limiter (xs ++ with_ticket c.ticket ys)
      → Fine cfg xs ys (drop_taken fl s c scope k v)
  taken-Limited s c scope k none h = h
  taken-Limited s c in_handle k (some (g, gs)) h = dropped-Limited s c.conn.clock g _ h
  taken-Limited s c in_admission k (some (g, gs)) h = dropped-Limited s c.conn.clock g _ h
  taken-Limited s c in_task k (some (g, gs)) h = dropped-Limited s c.conn.clock g _ h

  pub fields-Limited :
      (s : State F64 IpNet V) (c : Live) (k : Task) (gs : List Guard)
      → Limited cfg s.limiter (xs ++ with_ticket c.ticket ys)
      → Fine cfg xs ys (drop_fields fl s c k gs)
  fields-Limited s c k [] h = h
  fields-Limited s c k (g ∷ gs) h = dropped-Limited s c.conn.clock g _ h

  end-Limited :
      (s : State F64 IpNet V) (c : Live) (r : Result (Unit {0})) (gs : List Guard)
      → c.ticket ≡ none
      → Limited cfg s.limiter (xs ++ with_ticket c.ticket ys)
      → Fine cfg xs ys (end_task fl s c r gs)
  end-Limited s c (err e) gs n h = h
  end-Limited s c (ok x) [] n h = rw n at h
  end-Limited s c (ok x) (g ∷ gs) n h = dropped-Limited s c.conn.clock g _ h

  admission-Limited :
      (s : State F64 IpNet V) (c : Live) (r : Result (Unit {0})) (gs : List Guard)
      → c.ticket ≡ none
      → Limited cfg s.limiter (xs ++ with_ticket c.ticket ys)
      → Fine cfg xs ys (leave_admission fl s c r gs)
  admission-Limited s c r [] n h = end-Limited s c r c.in_task n h
  admission-Limited s c r (g ∷ gs) n h = dropped-Limited s c.conn.clock g _ h

  ticket-Limited :
      (s : State F64 IpNet V) (c : Live) (r : Result (Unit {0})) (t : Option Ticket)
      → c.ticket ≡ t
      → Limited cfg s.limiter (xs ++ with_ticket t ys)
      → Fine cfg xs ys (drop_its_ticket fl s c r t)
  ticket-Limited s c r none e h = admission-Limited s c r c.in_admission e (rw e h)
  ticket-Limited s c r (some t) e h =
      Step-Limited fl cfg _ _ (on_drop (limiter_of fl s) xs t ys c.conn.clock)
        (with_metrics-Limited cfg s.limiter _ s.metrics h)

  pub leave-Limited :
      (s : State F64 IpNet V) (c : Live) (r : Result (Unit {0})) (gs : List Guard)
      → Limited cfg s.limiter (xs ++ with_ticket c.ticket ys)
      → Fine cfg xs ys (leave fl s c r gs)
  leave-Limited s c r [] h = ticket-Limited s c r c.ticket refl h
  leave-Limited s c r (g ∷ gs) h = dropped-Limited s c.conn.clock g _ h
