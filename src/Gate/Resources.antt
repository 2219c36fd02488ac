-- ===== src/Gate/Resources.antt =====
-- gate/src/main.rs: the permits of each semaphore and the slots of the circuit breaker, with what the
-- connections hold of them; what a drop does to the two.
pub mod Taken
pub mod Calls
pub mod Reached
use xddp.Prelude.{
  ℕ, zero, suc, ◌+◌, ◌-◌, ◌≡◌, refl, ap, sym, ◌∙◌, List, [], ◌∷◌, ◌++◌, Option, none, some, Bool,
  true, false, inl, inr, Bool-cases, if◌then◌else◌, ◌==◌, arith,
}
use xddp.Prelude.Float.{Float}
use xddp.Net.{IpNets}
use xddp.Backend.{Protection, Attempt, enter, drop_attempt, finish_attempt}
use xddp.Backend.Dials.{enter-slots, enter-none_slots, finish_attempt-slots, drop_attempt-slots}
use xddp.Protocol.Base.{Result, ok, err}
use xddp.Protocol.Reader.{Frame, Conn}
use xddp.Socket.{SocketAddr}
use xddp.IncomingProxy.{Stream}
use xddp.Limiter.State.{Limiter, Ticket, Verdict, panicked, refused, granted}
use xddp.Runtime.{Wire}
use xddp.Limiter.Bucket.{Event, Policy}
use xddp.Gate.{
  Semaphore, sockets, prelogin, admitted_slots, backend_slots, status_slots, State, Guard, permit,
  gauge, prelogin_time, attempt, Scope, in_handle, in_admission, in_task, Mark, Task, Live, Outside,
  stop, unwind, now, count, ask_policy, accept_ip, charge, ask_status, settle_ticket, mark, acquire,
  hold_gauge, hold_time, give_back, drop_admission, await_header, await_frame, write, status_reply,
  try_attempt, dial, relay,
}
use xddp.Gate
use xddp.Gate.Guards.{
  same, taken, given, pushed, guards, with_guards, kept, take_attempt, resume, at_time, After,
  drop_guard, drop_taken, take_at, kept, drop_fields, end_task, leave_admission, drop_its_ticket,
  leave, protection_of, dialed,
}
use xddp.Gate.Perform.{
  admit_ticket, after_charge, with_attempt, finish_its_attempt, after_dial, charge_ticket,
  enter_ticket, admit_its_ticket, mark_ticket, after_header, after_frame, perform, act,
}

pub data Resource : Type 0 where
  permits_of : Semaphore → Resource
  dial_slots : Resource

abbrev pub one_of_them : Resource → (Semaphore → ℕ) → ℕ → ℕ
one_of_them (permits_of p) permits slots = permits p
one_of_them dial_slots permits slots = slots

abbrev pub free : {F N V : Type 0} → Resource → State F N V → ℕ
free r s = one_of_them r s.permits s.backend_protection.slots

abbrev pub weight : Resource → Guard → ℕ
weight (permits_of p) (permit q) = if same q p then 1 else 0
weight dial_slots (attempt a) = 1
weight _ _ = 0

unfoldable pub held_in : Resource → List Guard → ℕ
held_in r [] = 0
held_in r (g ∷ gs) = weight r g + held_in r gs

abbrev pub held_by : Resource → Live → ℕ
held_by r c = held_in r c.in_handle + held_in r c.in_admission + held_in r c.in_task

abbrev pub held_after : Resource → Option Live → ℕ
held_after r none = 0
held_after r (some c) = held_by r c

-- What is free after a step, with what the connection holds then.
abbrev pub total : {F N V : Type 0} → Resource → After F N V → ℕ
total r (s, c) = free r s + held_after r c

pub held_in-append :
    (r : Resource) (gs hs : List Guard) → held_in r (gs ++ hs) ≡ held_in r gs + held_in r hs
unfolding held_in
held_in-append r [] hs = omega arith
held_in-append r (g ∷ gs) hs = omega (arith, held_in-append r gs hs)

pub held-pushed :
    (r : Resource) (scope : Scope) (g : Guard) (c : Live)
    → held_by r (pushed scope g c) ≡ weight r g + held_by r c
unfolding held_in
held-pushed r in_handle g c = omega arith
held-pushed r in_admission g c = omega (arith, held_in-append r c.in_admission (g ∷ []))
held-pushed r in_task g c = omega arith

pub held-newest :
    (r : Resource) (scope : Scope) (g : Guard) (gs : List Guard) (c : Live)
    → guards scope c ≡ g ∷ gs
    → weight r g + held_by r (with_guards scope c gs) ≡ held_by r c
unfolding held_in
held-newest r in_handle g gs c e = omega (arith, ap (held_in r) e)
held-newest r in_admission g gs c e = omega (arith, ap (held_in r) e)
held-newest r in_task g gs c e = omega (arith, ap (held_in r) e)

-- A guard that is taken out of a list, and the others, weigh as much as the list.
abbrev pub TakenGuard : Resource → Option (Guard × List Guard) → ℕ → Type 0
TakenGuard r none n = Unit {0}
TakenGuard r (some (g, gs)) n = weight r g + held_in r gs ≡ n

kept-TakenGuard :
    (r : Resource) (h : Guard) (v : Option (Guard × List Guard)) (n : ℕ)
    → TakenGuard r v n
    → TakenGuard r (kept h v) (weight r h + n)
unfolding held_in
kept-TakenGuard r h none n e = tt
kept-TakenGuard r h (some (g, gs)) n e = omega (arith, e)

pub take_at-TakenGuard :
    (r : Resource) (i : ℕ) (gs : List Guard) → TakenGuard r (take_at i gs) (held_in r gs)
unfolding held_in
take_at-TakenGuard r i [] = tt
take_at-TakenGuard r zero (g ∷ gs) = refl
take_at-TakenGuard r (suc i) (g ∷ gs) = kept-TakenGuard r g _ _ (take_at-TakenGuard r i gs)

held-without :
    (r : Resource) (scope : Scope) (g : Guard) (gs : List Guard) (c : Live)
    → weight r g + held_in r gs ≡ held_in r (guards scope c)
    → weight r g + held_by r (with_guards scope c gs) ≡ held_by r c
held-without r in_handle g gs c e = omega (arith, e)
held-without r in_admission g gs c e = omega (arith, e)
held-without r in_task g gs c e = omega (arith, e)

module _ (fl : Float) (nets : IpNets) (parse : List ℕ → Option (Wire nets.IpNet)) {V : Type 0} where
  open fl use {F64}
  open nets use {IpNet}

  drop_guard-free :
      (r : Resource) (s : State F64 IpNet V) (t : ℕ) (g : Guard)
      → free r (drop_guard fl s t g) ≡ free r s + weight r g
  unfolding drop_guard
  drop_guard-free (permits_of p) s t (permit q) = ground arith
  drop_guard-free (permits_of p) s t (gauge n) = omega arith
  drop_guard-free (permits_of p) s t (prelogin_time start) = omega arith
  drop_guard-free (permits_of p) s t (attempt a) = omega arith
  drop_guard-free dial_slots s t (permit q) = omega arith
  drop_guard-free dial_slots s t (gauge n) = omega arith
  drop_guard-free dial_slots s t (prelogin_time start) = omega arith
  drop_guard-free dial_slots s t (attempt a) = drop_attempt-slots fl (protection_of fl s) a t

  dropped-total :
      (r : Resource) (s : State F64 IpNet V) (t : ℕ) (scope : Scope) (g : Guard) (gs : List Guard)
      (c : Live)
      → guards scope c ≡ g ∷ gs
      → total r (drop_guard fl s t g, some (with_guards scope c gs)) ≡ free r s + held_by r c
  dropped-total r s t scope g gs c e =
      omega (arith, held-newest r scope g gs c e, drop_guard-free r s t g)

  pub taken-total :
      (r : Resource) (s : State F64 IpNet V) (c : Live) (scope : Scope) (k : Task)
      (v : Option (Guard × List Guard))
      → TakenGuard r v (held_in r (guards scope c))
      → total r (drop_taken fl s c scope k v) ≡ free r s + held_by r c
  taken-total r s c scope k none e = refl
  taken-total r s c scope k (some (g, gs)) e =
      omega (arith, held-without r scope g gs c e, drop_guard-free r s c.conn.clock g)

  pub fields-total :
      (r : Resource) (s : State F64 IpNet V) (c : Live) (k : Task) (gs : List Guard)
      → c.in_admission ≡ gs
      → total r (drop_fields fl s c k gs) ≡ free r s + held_by r c
  fields-total r s c k [] e = refl
  fields-total r s c k (g ∷ gs) e = dropped-total r s c.conn.clock in_admission g gs c e

  -- A task that ends holds nothing: each scope has been emptied before the next.
  end-total :
      (r : Resource) (s : State F64 IpNet V) (c : Live) (result : Result (Unit {0}))
      (gs : List Guard)
      → c.in_handle ≡ []
      → c.in_admission ≡ []
      → c.in_task ≡ gs
      → total r (end_task fl s c result gs) ≡ free r s + held_by r c
  unfolding held_in
  end-total r s c (err e) gs h a t = refl
  end-total r s c (ok x) [] h a t =
      omega (arith, ap (held_in r) h, ap (held_in r) a, ap (held_in r) t)
  end-total r s c (ok x) (g ∷ gs) h a t = dropped-total r s c.conn.clock in_task g gs c t

  admission-total :
      (r : Resource) (s : State F64 IpNet V) (c : Live) (result : Result (Unit {0}))
      (gs : List Guard)
      → c.in_handle ≡ []
      → c.in_admission ≡ gs
      → total r (leave_admission fl s c result gs) ≡ free r s + held_by r c
  admission-total r s c result [] h a = end-total r s c result c.in_task h a refl
  admission-total r s c result (g ∷ gs) h a = dropped-total r s c.conn.clock in_admission g gs c a

  ticket-total :
      (r : Resource) (s : State F64 IpNet V) (c : Live) (result : Result (Unit {0}))
      (t : Option Ticket)
      → c.in_handle ≡ []
      → total r (drop_its_ticket fl s c result t) ≡ free r s + held_by r c
  ticket-total r s c result none h = admission-total r s c result c.in_admission h refl
  ticket-total r s c result (some t) h = refl

  pub leave-total :
      (r : Resource) (s : State F64 IpNet V) (c : Live) (result : Result (Unit {0}))
      (gs : List Guard)
      → c.in_handle ≡ gs
      → total r (leave fl s c result gs) ≡ free r s + held_by r c
  leave-total r s c result [] h = ticket-total r s c result c.ticket h
  leave-total r s c result (g ∷ gs) h = dropped-total r s c.conn.clock in_handle g gs c h
