-- ===== src/Limiter/System.antt =====
-- gate/src/limiter.rs: the limiter with the tickets that are alive, and the steps that the program
-- takes with them. A step is one call, at any time that the clock shows.
pub mod Held
pub mod Moves
pub mod Invariant
pub mod Caps
use xddp.Prelude.{ℕ, ◌+◌, ◌<◌, ◌^◌, Bool, List, [], ◌∷◌, ◌++◌, length}
use xddp.Prelude.Float.{Float}
use xddp.Config.Limits.{Limits}
use xddp.Metrics.{Metrics}
use xddp.Limiter.Address.{IpAddr}
use xddp.Limiter.Bucket.{Event, Policy}
use xddp.Limiter.State.{Limiter, Ticket, Verdict, panicked, refused, granted, new_limiter}
use xddp.Limiter.Accept.{accept}
use xddp.Limiter.Tickets.{event, sweep, enter_status, mark_admitted, drop_ticket}

pub record System (F : Type 0) : Type 0 where
  pub limiter : Limiter F
  pub live : List Ticket

abbrev pub joined : Verdict Ticket → List Ticket → List Ticket
joined panicked ts = ts
joined refused ts = ts
joined (granted t) ts = t ∷ ts

abbrev pub marks : Ticket → Bool → Bool → Bool → Ticket
marks t handshake status_complete server_rejected = record t {
  handshake = handshake;
  status_complete = status_complete;
  server_rejected = server_rejected;
}

-- A method is called on a ticket that is alive, wherever it stands among the others. The program
-- never has 2^64 connections.
pub data Step (fl : Float) : System fl.F64 → System fl.F64 → Type 0 where
  on_accept :
      (l : Limiter fl.F64) (ts : List Ticket) (addr : IpAddr) (p : Policy) (now : ℕ)
      → length ts + 1 < 2 ^ 64
      → Step fl
          (record { limiter = l; live = ts })
          (record {
            limiter = (accept fl l addr p now).1;
            live = joined (accept fl l addr p now).0 ts;
          })
  on_event :
      (l : Limiter fl.F64) (ts : List Ticket) (t : Ticket) (e : Event) (p : Policy) (now : ℕ)
      → Step fl
          (record { limiter = l; live = ts })
          (record { limiter = (event fl l t e p now).1; live = ts })
  on_sweep :
      (l : Limiter fl.F64) (ts : List Ticket) (shard now : ℕ)
      → Step fl
          (record { limiter = l; live = ts })
          (record { limiter = sweep fl l shard now; live = ts })
  on_enter :
      (l : Limiter fl.F64) (xs : List Ticket) (t : Ticket) (ys : List Ticket)
      → Step fl
          (record { limiter = l; live = xs ++ t ∷ ys })
          (record { limiter = (enter_status fl l t).2; live = xs ++ (enter_status fl l t).1 ∷ ys })
  on_admitted :
      (l : Limiter fl.F64) (xs : List Ticket) (t : Ticket) (ys : List Ticket)
      → Step fl
          (record { limiter = l; live = xs ++ t ∷ ys })
          (record {
            limiter = (mark_admitted fl l t).1;
            live = xs ++ (mark_admitted fl l t).0 ∷ ys;
          })
  on_marks :
      (l : Limiter fl.F64) (xs : List Ticket) (t : Ticket) (ys : List Ticket) (a b c : Bool)
      → Step fl
          (record { limiter = l; live = xs ++ t ∷ ys })
          (record { limiter = l; live = xs ++ marks t a b c ∷ ys })
  on_drop :
      (l : Limiter fl.F64) (xs : List Ticket) (t : Ticket) (ys : List Ticket) (now : ℕ)
      → Step fl
          (record { limiter = l; live = xs ++ t ∷ ys })
          (record { limiter = drop_ticket fl l t now; live = xs ++ ys })

-- What a new limiter comes to.
pub data Reach (fl : Float) (cfg : Limits fl.F64) (hash_ip hash_prefix : IpAddr → ℕ) (m : Metrics)
    (now : ℕ) : System fl.F64 → Type 0 where
  starts :
      Reach fl cfg hash_ip hash_prefix m now
        (record { limiter = new_limiter fl cfg hash_ip hash_prefix m now; live = [] })
  steps :
      (s s' : System fl.F64)
      → Reach fl cfg hash_ip hash_prefix m now s
      → Step fl s s'
      → Reach fl cfg hash_ip hash_prefix m now s'
