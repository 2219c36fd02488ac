-- ===== src/Gate/Paths/Kept.antt =====
-- gate/src/main.rs: a call or a drop leaves the rest of the task fit for what the connection holds.
use xddp.Prelude.{
  ℕ, ◌≡◌, refl, ap, sym, ◌∙◌, List, [], ◌∷◌, ◌++◌, Option, none, some, Bool, true, false, inl, inr,
  Bool-cases, Option-cases, ◌==◌, arith,
}
use xddp.Prelude.Float.{Float}
use xddp.Net.{IpNets}
use xddp.Protocol.Base.{Result, ok, err}
use xddp.Limiter.Address.{ip_eq, ip_eq_iff}
use xddp.Limiter.Table.{lookup}
use xddp.Limiter.State.{Limiter, Ticket, Verdict, panicked, refused, granted, at_cap}
use xddp.Limiter.Tickets.{enter_status}
use xddp.Limiter.Tickets
use xddp.Limiter.Counts.{Counts, counts_in, view}
use xddp.Limiter.System.Held.{held-middle}
use xddp.Limiter.System.Invariant.{Consistent}
use xddp.Backend.{Attempt, Protection}
use xddp.Runtime.{Wire}
use xddp.Gate.{State, Guard, permit, attempt, Scope, Task, acquire, Live, Outside, Semaphore}
use xddp.Gate.Guards.{
  After, leave, end_task, leave_admission, drop_its_ticket, limiter_of, resume, pushed,
}
use xddp.Gate.Perform.{
  admit_ticket, enter_ticket, after_charge, with_attempt, finish_its_attempt, after_dial, perform,
}
use xddp.Gate.Paths.{IsFit, returns, crashes, others}

abbrev pub FitNow : Option Live → Type 0
FitNow none = Unit {0}
FitNow (some c) = IsFit c.in_handle c.in_admission c.ticket c.rest

abbrev pub FitAfter : {F N V : Type 0} → After F N V → Type 0
FitAfter (s, c) = FitNow c

module _ (fl : Float) where
  open fl use {F64}

  -- The limiter knows the key of a ticket, so that it refuses a status connection by marking it.
  pub refused-rejected :
      (l : Limiter F64) (xs : List Ticket) (t : Ticket) (ys : List Ticket)
      → Consistent l (xs ++ t ∷ ys)
      → (enter_status fl l t).0 ≡ false
      → (enter_status fl l t).1.server_rejected ≡ true
  unfolding enter_status view
  refused-rejected l xs t ys c gone = elim (Bool-cases t.status) [
    | inl old ↦ absurd (ground (arith, old, gone))
    | inr new ↦ elim (Option-cases (lookup l.ip t.ip)) [
      | inl p ↦
          let self : ip_eq t.ip t.ip ≡ true = (ip_eq_iff t.ip t.ip).1 refl in
          let all = sym (ap counts_in p) ∙ c.ip_counted t.ip ∙ held-middle true xs t ys t.ip in
          absurd (ground (arith, ap (λ (d : Counts). d.active) all, self))
      | inr (e, p) ↦ elim (Bool-cases (at_cap l.cfg.status_ip e.status)) [
        | inl full ↦ rw (new, p, full) refl
        | inr room ↦ absurd (ground (arith, new, p, room, gone))
      ]
    ]
  ]

  pub admitted_now :
      (l : Limiter F64) (t : Ticket) → (Tickets.mark_admitted fl l t).0.admitted ≡ true
  unfolding Tickets.mark_admitted
  admitted_now l t = ground arith

module _ (fl : Float) (nets : IpNets) (parse : List ℕ → Option (Wire nets.IpNet)) {V : Type 0} where
  open fl use {F64}
  open nets use {IpNet}

  -- While a connection leaves, the rest of its task stays what it is.
  pub leave-FitAfter :
      (s : State F64 IpNet V) (c : Live) (r : Result (Unit {0}))
      → ((gs adm : List Guard) → IsFit gs adm c.ticket c.rest)
      → ((gs adm : List Guard) → IsFit gs adm none c.rest)
      → FitAfter (leave fl s c r c.in_handle)
  leave-FitAfter s c r h n = by_handle c.in_handle
    where
      by_task :
          (r : Result (Unit {0})) (gs : List Guard)
          → c.ticket ≡ none
          → FitAfter (end_task fl s c r gs)
      by_task (err e) gs t = rw t (returns refl)
      by_task (ok x) [] t = tt
      by_task (ok x) (g ∷ gs) t = h _ _

      by_admission : (gs : List Guard) → c.ticket ≡ none → FitAfter (leave_admission fl s c r gs)
      by_admission [] t = by_task r c.in_task t
      by_admission (g ∷ gs) t = h _ _

      by_ticket : (t : Option Ticket) → c.ticket ≡ t → FitAfter (drop_its_ticket fl s c r t)
      by_ticket none t = by_admission c.in_admission t
      by_ticket (some x) t = n _ _

      by_handle : (gs : List Guard) → FitAfter (leave fl s c r gs)
      by_handle [] = by_ticket c.ticket refl
      by_handle (g ∷ gs) = h _ _

  pub admit-FitAfter :
      (s : State F64 IpNet V) (c : Live) (k : Bool → Task) (v : Verdict Ticket × Limiter F64)
      → ((t' : Ticket) → IsFit c.in_handle c.in_admission (some t') (k true))
      → IsFit c.in_handle c.in_admission c.ticket (k false)
      → FitAfter (admit_ticket fl nets parse s c k v)
  admit-FitAfter s c k (panicked, l) h n = crashes
  admit-FitAfter s c k (refused, l) h n = n
  admit-FitAfter s c k (granted t, l) h n = h t

  pub after_charge-FitAfter :
      (s : State F64 IpNet V) (c : Live) (k : Bool → Task) (v : Verdict Bool × Limiter F64)
      → ((b : Bool) → IsFit c.in_handle c.in_admission c.ticket (k b))
      → FitAfter (after_charge fl nets parse s c k v)
  after_charge-FitAfter s c k (panicked, l) h = crashes
  after_charge-FitAfter s c k (refused, l) h = h false
  after_charge-FitAfter s c k (granted paid, l) h = h paid

  pub attempt-FitAfter :
      (s : State F64 IpNet V) (c : Live) (k : Bool → Task) (v : Option Attempt × Protection F64)
      → ((a : Attempt) → IsFit (attempt a ∷ c.in_handle) c.in_admission c.ticket (k true))
      → IsFit c.in_handle c.in_admission c.ticket (k false)
      → FitAfter (with_attempt fl nets parse s c k v)
  attempt-FitAfter s c k (none, p) h n = n
  attempt-FitAfter s c k (some a, p) h n = h a

  pub dial-FitAfter :
      (s : State F64 IpNet V) (c : Live) (k : Bool → Task) (bytes : Option (List ℕ))
      → ((b : Bool) → IsFit c.in_handle c.in_admission c.ticket (k b))
      → FitAfter (after_dial fl nets parse s c k bytes)
  dial-FitAfter s c k none h = h false
  dial-FitAfter s c k (some bytes) h = h true

  pub finish-FitAfter :
      (s : State F64 IpNet V) (c : Live) (x : Bool) (k : Task) (v : Option (Attempt × List Guard))
      → IsFit (others c.in_handle v) c.in_admission c.ticket k
      → FitAfter (finish_its_attempt fl nets parse s c x k v)
  finish-FitAfter s c x k none h = h
  finish-FitAfter s c x k (some (a, gs)) h = h

  -- By the answer of `try_acquire_owned`.
  pub acquire-FitAfter :
      (s : State F64 IpNet V) (c : Live) (o : Outside) (scope : Scope) (p : Semaphore)
      (k : Bool → Task)
      → FitNow (some (resume (pushed scope (permit p) c) (k true)))
      → FitNow (some (resume c (k false)))
      → FitAfter (perform fl nets parse s c o (acquire scope p k))
  unfolding perform
  acquire-FitAfter s c o scope p k h n =
      elim (Bool-cases (s.permits p == 0))
        as (λ _. FitAfter (perform fl nets parse s c o (acquire scope p k))) [
          | inl none_free ↦ rw none_free n
          | inr some_free ↦ rw some_free h
        ]

  pub enter-FitAfter :
      (s : State F64 IpNet V) (c : Live) (k : Bool → Task) (t : Ticket)
      → ((enter_status fl (limiter_of fl s) t).0 ≡ false
          → (enter_status fl (limiter_of fl s) t).1.server_rejected ≡ true)
      → ((t' : Ticket) → IsFit c.in_handle c.in_admission (some t') (k true))
      → ((t' : Ticket)
          → t'.server_rejected ≡ true
          → IsFit c.in_handle c.in_admission (some t') (k false))
      → FitAfter (enter_ticket fl nets parse s c k (some t))
  enter-FitAfter s c k t marked h n = by_answer (enter_status fl (limiter_of fl s) t) marked
    where
      by_answer :
          (v : Bool × Ticket × Limiter F64)
          → (v.0 ≡ false → v.1.server_rejected ≡ true)
          → IsFit c.in_handle c.in_admission (some v.1) (k v.0)
      by_answer (true, t', l) marked = h t'
      by_answer (false, t', l) marked = n t' (marked refl)
