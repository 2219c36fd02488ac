-- ===== src/Limiter/System/Caps/Reached.antt =====
-- gate/src/limiter.rs: every state that is reached is within the caps.
use xddp.Prelude.{
  ℕ, ◌≡◌, refl, ap, sym, ◌∙◌, true, false, inl, inr, Bool-cases, Option-cases, List, [], ◌∷◌, ◌++◌,
  arith,
}
use xddp.Prelude.Float.{Float}
use xddp.Config.Limits.{Limits}
use xddp.Metrics.{Metrics}
use xddp.Limiter.Address.{IpAddr}
use xddp.Limiter.Table.{lookup}
use xddp.Limiter.State.{Limiter, Ticket, new_limiter, at_cap}
use xddp.Limiter.Tickets.{sweep, enter_status, mark_admitted, drop_ticket}
use xddp.Limiter.Counts.{Counts}
use xddp.Limiter.Counts.Accepts.{accept-Outcome}
use xddp.Limiter.Counts.Effects.{event-Unchanged, view-at}
use xddp.Limiter.System.{
  System, Step, on_accept, on_event, on_sweep, on_enter, on_admitted, on_marks, on_drop, Reach,
  starts, steps,
}
use xddp.Limiter.System.Held.{held}
use xddp.Limiter.System.Invariant.{Consistent, enter_again, admitted_again, reached-Consistent}
use xddp.Limiter.System.Caps.{
  Bounded, Capped, Less-Capped, marks-Less, admitted-Less, dropped-Less, accepted_caps, status_more,
}

pub Capped-Bounded :
    {F : Type 0} (cfg : Limits F) (ts : List Ticket)
    → Capped cfg ts
    → (k : IpAddr) → Bounded cfg (held true ts k) (held false ts k)
Capped-Bounded cfg ts caps k = record {
  connections_ip = ground (arith, caps.connections_ip k);
  connections_prefix = ground (arith, caps.connections_prefix k);
  prelogin_ip = ground (arith, caps.prelogin_ip k);
  prelogin_prefix = ground (arith, caps.prelogin_prefix k);
  status_ip = ground (arith, caps.status_ip k);
}

module _ (fl : Float) where
  open fl use {F64}

  entered_caps :
      (l : Limiter F64) (xs : List Ticket) (t : Ticket) (ys : List Ticket)
      → Consistent l (xs ++ t ∷ ys)
      → Capped l.cfg (xs ++ t ∷ ys)
      → ((enter_status fl l t).2.cfg ≡ l.cfg) × Capped l.cfg (xs ++ (enter_status fl l t).1 ∷ ys)
  unfolding enter_status
  entered_caps l xs t ys c caps = elim (Bool-cases t.status) [
    | inl old ↦ rw (enter_again fl l t old) (refl, caps)
    | inr new ↦ elim (Option-cases (lookup l.ip t.ip)) [
      | inl p ↦ rw (new, p) (refl, caps)
      | inr (e, p) ↦ elim (Bool-cases (at_cap l.cfg.status_ip e.status)) [
        | inl full ↦
            rw (new, p, full)
              (
                refl,
                Less-Capped l.cfg _ _ (marks-Less xs t ys t.handshake t.status_complete true) caps,
              )
        | inr room ↦
            rw (new, p, room)
              (
                refl,
                status_more l.cfg xs t ys new
                    (ap (λ (d : Counts). at_cap l.cfg.status_ip d.status)
                        (sym (c.ip_counted t.ip) ∙ view-at l.ip t.ip e p)
                      ∙ room)
                    caps,
              )
      ]
    ]
  ]

  marked_caps :
      (l : Limiter F64) (xs : List Ticket) (t : Ticket) (ys : List Ticket)
      → Capped l.cfg (xs ++ t ∷ ys)
      → ((mark_admitted fl l t).1.cfg ≡ l.cfg) × Capped l.cfg (xs ++ (mark_admitted fl l t).0 ∷ ys)
  unfolding mark_admitted
  marked_caps l xs t ys caps = elim (Bool-cases t.admitted) [
    | inl old ↦ rw (admitted_again fl l t old) (refl, caps)
    | inr new ↦ rw new (refl, Less-Capped l.cfg _ _ (admitted-Less xs t ys) caps)
  ]

  pub Step-Capped :
      (s s' : System F64)
      → Step fl s s'
      → Consistent s.limiter s.live
      → Capped s.limiter.cfg s.live
      → (s'.limiter.cfg ≡ s.limiter.cfg) × Capped s.limiter.cfg s'.live
  unfolding sweep drop_ticket
  Step-Capped _ _ (on_accept l ts addr p now h) c caps =
      accepted_caps l _ _ ts _ (accept-Outcome fl l addr p now) c caps
  Step-Capped _ _ (on_event l ts t e p now) c caps =
      ((event-Unchanged fl l t e p now).cfg_same, caps)
  Step-Capped _ _ (on_sweep l ts shard now) c caps = (refl, caps)
  Step-Capped _ _ (on_enter l xs t ys) c caps = entered_caps l xs t ys c caps
  Step-Capped _ _ (on_admitted l xs t ys) c caps = marked_caps l xs t ys caps
  Step-Capped _ _ (on_marks l xs t ys a b d) c caps =
      (refl, Less-Capped l.cfg _ _ (marks-Less xs t ys a b d) caps)
  Step-Capped _ _ (on_drop l xs t ys now) c caps =
      (refl, Less-Capped l.cfg _ _ (dropped-Less xs t ys) caps)

  pub nothing-Capped : (cfg : Limits F64) → Capped cfg []
  unfolding held
  nothing-Capped cfg = record {
    connections_ip = λ k h. ground arith;
    connections_prefix = λ k h. ground arith;
    prelogin_ip = λ k h. ground arith;
    prelogin_prefix = λ k h. ground arith;
    status_ip = λ k h. ground arith;
  }

  reached-Capped :
      (cfg : Limits F64) (hash_ip hash_prefix : IpAddr → ℕ) (m : Metrics) (now : ℕ) (s : System F64)
      → Reach fl cfg hash_ip hash_prefix m now s
      → (s.limiter.cfg ≡ cfg) × Capped cfg s.live
  unfolding new_limiter
  reached-Capped cfg hash_ip hash_prefix m now _ starts = (refl, nothing-Capped cfg)
  reached-Capped cfg hash_ip hash_prefix m now s' (steps s _ r st) =
      let (same, caps) = reached-Capped cfg hash_ip hash_prefix m now s r in
      let (kept, caps') =
        Step-Capped s s' st (reached-Consistent fl cfg hash_ip hash_prefix m now s r)
          (rw same caps) in
      (kept ∙ same, rw same at caps')

  -- In every state that a new limiter comes to, the limits are those it was made with, and each of
  -- the five caps, unless it is 0, bounds the live tickets that it is about: those of one address
  -- or prefix, those of them that are not admitted, and those of an address that ask for a status.
  pub reached-Bounded :
      (cfg : Limits F64) (hash_ip hash_prefix : IpAddr → ℕ) (m : Metrics) (now : ℕ) (s : System F64)
      → Reach fl cfg hash_ip hash_prefix m now s
      → (k : IpAddr)
      → (s.limiter.cfg ≡ cfg) × Bounded cfg (held true s.live k) (held false s.live k)
  reached-Bounded cfg hash_ip hash_prefix m now s r k =
      let (same, caps) = reached-Capped cfg hash_ip hash_prefix m now s r in
      (same, Capped-Bounded cfg s.live caps k)
