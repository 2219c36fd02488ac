-- ===== src/Gate/Paths.antt =====
-- gate/src/main.rs: what every path of a task keeps to, from what its connection holds, whatever the
-- calls answer.
pub mod Rules
pub mod Handled
pub mod Kept
pub mod Calls
pub mod Fits
pub mod Holding
pub mod Reached
use xddp.Prelude.{
  ℕ, ◌+◌, ◌≤◌, ◌≡◌, refl, List, [], ◌∷◌, ◌++◌, Option, none, some, Bool, true, false, ◌||◌,
  if◌then◌else◌,
}
use xddp.Prelude.Int.{ℤ}
use xddp.Protocol.Base.{Error, Result, ok, err}
use xddp.Protocol.Reader.{Frame, Limits}
use xddp.Socket.{SocketAddr}
use xddp.Limiter.Address.{IpAddr}
use xddp.Limiter.Bucket.{Event, Policy}
use xddp.Limiter.State.{Ticket}
use xddp.Backend.{Attempt}
use xddp.Gate.{
  Semaphore, prelogin, admitted_slots, backend_slots, sockets, Scope, Guard, permit, gauge,
  prelogin_time, attempt, in_handle, in_admission, in_task, Mark, Task, stop, unwind, crash, count,
  now, ask_policy, accept_ip, charge, ask_status, settle_ticket, mark, acquire, hold_gauge,
  hold_time, give_back, drop_admission, await_header, await_frame, write, status_reply, try_attempt,
  dial, end_attempt, relay, Live,
}
use xddp.Gate.Guards.{take_attempt, take_at, apply_mark}
use xddp.Gate.Resources.{permits_of, dial_slots, held_in}

-- The drop of the ticket scores no churn.
abbrev pub excused : Option Ticket → Bool
excused none = true
excused (some t) = t.server_rejected || t.status_complete || t.admitted

abbrev pub remaining : List Guard → Option (Guard × List Guard) → List Guard
remaining gs none = gs
remaining gs (some (g, rest)) = rest

abbrev pub others : List Guard → Option (Attempt × List Guard) → List Guard
others gs none = gs
others gs (some (a, rest)) = rest

-- The permits that a connection to the backend needs.
pub record Slotted (gs : List Guard) : Type 0 where
  pub admitted : 1 ≤ held_in (permits_of admitted_slots) gs
  pub backend : 1 ≤ held_in (permits_of backend_slots) gs
  pub socket : 1 ≤ held_in (permits_of sockets) gs

-- A task with these variables of `handle` and this admission, and its ticket if it has one. It uses
-- its ticket only when it has one and asks for one only when it has none; it waits on the network
-- with its prelogin slot; it dials with the permits of a relay and an attempt; it relays with the permits, admitted and without its admission; and
-- where it returns no error its ticket is excused.
pub data IsFit : List Guard → List Guard → Option Ticket → Task → Type 0 where
  returns :
      {gs adm : List Guard} {t : Option Ticket} {x : Unit {0}}
      → excused t ≡ true
      → IsFit gs adm t (stop (ok x))
  fails : {gs adm : List Guard} {t : Option Ticket} {e : Error} → IsFit gs adm t (stop (err e))
  unwinds : {gs adm : List Guard} {t : Option Ticket} → IsFit gs adm t unwind
  crashes : {gs adm : List Guard} {t : Option Ticket} → IsFit gs adm t crash
  counts :
      {gs adm : List Guard} {t : Option Ticket} {n : ℕ} {k : Task}
      → IsFit gs adm t k
      → IsFit gs adm t (count n k)
  reads_clock :
      {gs adm : List Guard} {t : Option Ticket} {k : ℕ → Task}
      → ((n : ℕ) → IsFit gs adm t (k n))
      → IsFit gs adm t (now k)
  asks_policy :
      {gs adm : List Guard} {t : Option Ticket} {ip : IpAddr} {k : Policy × Bool → Task}
      → ((p : Policy × Bool) → IsFit gs adm t (k p))
      → IsFit gs adm t (ask_policy ip k)
  asks_ticket :
      {gs adm : List Guard} {ip : IpAddr} {p : Policy} {k : Bool → Task}
      → ((t' : Ticket) → IsFit gs adm (some t') (k true))
      → IsFit gs adm none (k false)
      → IsFit gs adm none (accept_ip ip p k)
  charges :
      {gs adm : List Guard} {t : Ticket} {e : Event} {p : Policy} {k : Bool → Task}
      → ((b : Bool) → IsFit gs adm (some t) (k b))
      → IsFit gs adm (some t) (charge e p k)
  enters :
      {gs adm : List Guard} {t : Ticket} {k : Bool → Task}
      → ((t' : Ticket) → IsFit gs adm (some t') (k true))
      → ((t' : Ticket) → t'.server_rejected ≡ true → IsFit gs adm (some t') (k false))
      → IsFit gs adm (some t) (ask_status k)
  is_let_in :
      {gs adm : List Guard} {t : Ticket} {k : Task}
      → ((t' : Ticket) → t'.admitted ≡ true → IsFit gs adm (some t') k)
      → IsFit gs adm (some t) (settle_ticket k)
  marks :
      {gs adm : List Guard} {t : Ticket} {m : Mark} {k : Task}
      → IsFit gs adm (some (apply_mark m t)) k
      → IsFit gs adm (some t) (mark m k)
  acquires :
      {gs adm : List Guard} {t : Option Ticket} {p : Semaphore} {k : Bool → Task}
      → IsFit (permit p ∷ gs) adm t (k true)
      → IsFit gs adm t (k false)
      → IsFit gs adm t (acquire in_handle p k)
  acquires_slot :
      {gs adm : List Guard} {t : Option Ticket} {p : Semaphore} {k : Bool → Task}
      → IsFit gs (adm ++ permit p ∷ []) t (k true)
      → IsFit gs adm t (k false)
      → IsFit gs adm t (acquire in_admission p k)
  acquires_socket :
      {gs adm : List Guard} {t : Option Ticket} {p : Semaphore} {k : Bool → Task}
      → ((b : Bool) → IsFit gs adm t (k b))
      → IsFit gs adm t (acquire in_task p k)
  holds_gauge :
      {gs adm : List Guard} {t : Option Ticket} {n : ℕ} {k : Task}
      → IsFit (gauge n ∷ gs) adm t k
      → IsFit gs adm t (hold_gauge in_handle n k)
  holds_prelogin :
      {gs adm : List Guard} {t : Option Ticket} {n : ℕ} {k : Task}
      → IsFit gs (adm ++ gauge n ∷ []) t k
      → IsFit gs adm t (hold_gauge in_admission n k)
  holds_active :
      {gs adm : List Guard} {t : Option Ticket} {n : ℕ} {k : Task}
      → IsFit gs adm t k
      → IsFit gs adm t (hold_gauge in_task n k)
  holds_time :
      {gs adm : List Guard} {t : Option Ticket} {k : ℕ → Task}
      → ((n : ℕ) → IsFit gs (adm ++ prelogin_time n ∷ []) t (k n))
      → IsFit gs adm t (hold_time k)
  releases :
      {gs adm : List Guard} {t : Option Ticket} {i : ℕ} {k : Task}
      → IsFit (remaining gs (take_at i gs)) adm t k
      → IsFit gs adm t (give_back in_handle i k)
  releases_slot :
      {gs adm : List Guard} {t : Option Ticket} {i : ℕ} {k : Task}
      → IsFit gs (remaining adm (take_at i adm)) t k
      → IsFit gs adm t (give_back in_admission i k)
  releases_socket :
      {gs adm : List Guard} {t : Option Ticket} {i : ℕ} {k : Task}
      → IsFit gs adm t k
      → IsFit gs adm t (give_back in_task i k)
  drops_admission :
      {gs adm : List Guard} {t : Option Ticket} {k : Task}
      → IsFit gs [] t k
      → IsFit gs adm t (drop_admission k)
  reads_header :
      {gs adm : List Guard} {t : Option Ticket} {limit : ℕ}
      {k : Result (SocketAddr × SocketAddr) → Task}
      → 1 ≤ held_in (permits_of prelogin) adm
      → ((r : Result (SocketAddr × SocketAddr)) → IsFit gs adm t (k r))
      → IsFit gs adm t (await_header limit k)
  reads_frame :
      {gs adm : List Guard} {t : Option Ticket} {limits : Limits} {k : Result Frame → Task}
      → 1 ≤ held_in (permits_of prelogin) adm
      → ((r : Result Frame) → IsFit gs adm t (k r))
      → IsFit gs adm t (await_frame limits k)
  writes :
      {gs adm : List Guard} {t : Option Ticket} {bytes : List ℕ} {ms : ℕ}
      {k : Result (Unit {0}) → Task}
      → 1 ≤ held_in (permits_of prelogin) adm
      → ((r : Result (Unit {0})) → IsFit gs adm t (k r))
      → IsFit gs adm t (write bytes ms k)
  replies :
      {gs adm : List Guard} {t : Option Ticket} {version : ℤ} {k : List ℕ → Task}
      → ((bytes : List ℕ) → IsFit gs adm t (k bytes))
      → IsFit gs adm t (status_reply version k)
  tries :
      {gs adm : List Guard} {t : Option Ticket} {k : Bool → Task}
      → ((a : Attempt) → IsFit (attempt a ∷ gs) adm t (k true))
      → IsFit gs adm t (k false)
      → IsFit gs adm t (try_attempt k)
  dials :
      {gs adm : List Guard} {t : Option Ticket} {bytes : Option (List ℕ)} {ms : ℕ} {k : Bool → Task}
      → Slotted gs
      → 1 ≤ held_in dial_slots gs
      → 1 ≤ held_in (permits_of prelogin) adm
      → ((b : Bool) → IsFit gs adm t (k b))
      → IsFit gs adm t (dial bytes ms k)
  finishes :
      {gs adm : List Guard} {t : Option Ticket} {x : Bool} {k : Task}
      → IsFit (others gs (take_attempt gs)) adm t k
      → IsFit gs adm t (end_attempt x k)
  relays :
      {gs : List Guard} {t : Ticket} {k : Bool → Task}
      → Slotted gs
      → t.admitted ≡ true
      → ((b : Bool) → IsFit gs [] (some t) (k b))
      → IsFit gs [] (some t) (relay k)
