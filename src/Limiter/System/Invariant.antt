-- ===== src/Limiter/System/Invariant.antt =====
-- gate/src/limiter.rs: the tables count the live tickets, exactly, in every state that is reached.
use xddp.Prelude.{
  ℕ, ◌+◌, ◌%◌, ◌^◌, ◌<◌, ◌≡◌, refl, sym, ◌∙◌, Bool, true, false, inl, inr, Bool-cases, Option-cases,
  List, [], ◌∷◌, ◌++◌, length, arith,
}
use xddp.Prelude.Float.{Float}
use xddp.Config.Limits.{Limits}
use xddp.Metrics.{Metrics}
use xddp.Limiter.Address.{IpAddr}
use xddp.Limiter.Table.{lookup}
use xddp.Limiter.Table
use xddp.Limiter.Table.Laws.{IsTable, write-IsTable, sweep_shard-IsTable}
use xddp.Limiter.State.{Limiter, Ticket, Verdict, new_limiter, at_cap}
use xddp.Limiter.Tickets.{sweep, enter_status, mark_admitted, drop_ticket}
use xddp.Limiter.Counts.{view, Unchanged}
use xddp.Limiter.Counts.Accepts.{Outcome, on_panic, on_refusal, on_grant, accept-Outcome}
use xddp.Limiter.Counts.Effects.{release-IsTable, settle-IsTable, event-Unchanged}
use xddp.Limiter.System.{
  System, joined, marks, Step, on_accept, on_event, on_sweep, on_enter, on_admitted, on_marks,
  on_drop, Reach, starts, steps,
}
use xddp.Limiter.System.Held.{held, held-middle}
use xddp.Limiter.System.Moves.{
  Counted, length-middle, release-Counted, settle-Counted, joined-Counted, sweep-Counted,
  enter-Counted,
}

pub record Consistent {F : Type 0} (l : Limiter F) (ts : List Ticket) : Type 0 where
  pub ip_counted : Counted true l.ip ts
  pub prefix_counted : Counted false l.prefix ts
  pub ip_table : IsTable l.ip
  pub prefix_table : IsTable l.prefix
  pub few : length ts < 2 ^ 64

Unchanged-Consistent :
    {F : Type 0} (l l' : Limiter F) (ts : List Ticket)
    → Unchanged l l'
    → Consistent l ts
    → Consistent l' ts
Unchanged-Consistent l l' ts u c = record {
  ip_counted = λ k. u.ip_same k ∙ c.ip_counted k;
  prefix_counted = λ k. u.prefix_same k ∙ c.prefix_counted k;
  ip_table = (u.tables c.ip_table c.prefix_table).0;
  prefix_table = (u.tables c.ip_table c.prefix_table).1;
  few = c.few;
}

-- Two tickets that count alike, in one place.
marks-Counted :
    (in_ip : Bool) (xs : List Ticket) (t : Ticket) (ys : List Ticket) (a b c : Bool) (k : IpAddr)
    → held in_ip (xs ++ t ∷ ys) k ≡ held in_ip (xs ++ (marks t a b c) ∷ ys) k
marks-Counted in_ip xs t ys a b c k =
    held-middle in_ip xs t ys k ∙ sym (held-middle in_ip xs (marks t a b c) ys k)

-- The table of prefixes does not count status connections.
status-Counted :
    (xs : List Ticket) (t : Ticket) (ys : List Ticket) (k : IpAddr)
    → held false (xs ++ t ∷ ys) k ≡ held false (xs ++ (record t { status = true }) ∷ ys) k
status-Counted xs t ys k =
    held-middle false xs t ys k
    ∙ ground arith
    ∙ sym (held-middle false xs (record t { status = true }) ys k)

replaced_few :
    (xs : List Ticket) (t t' : Ticket) (ys : List Ticket)
    → length (xs ++ t ∷ ys) < 2 ^ 64
    → length (xs ++ t' ∷ ys) < 2 ^ 64
replaced_few xs t t' ys h = omega (arith, h, length-middle xs t ys, length-middle xs t' ys)

accepted :
    (fl : Float) (l : Limiter fl.F64) (ip prefix : IpAddr) (ts : List Ticket)
    (r : Verdict Ticket × Limiter fl.F64)
    → Outcome l ip prefix r
    → Consistent l ts
    → length ts + 1 < 2 ^ 64
    → Consistent r.1 (joined r.0 ts)
accepted fl l ip prefix ts _ (on_panic u) c h = Unchanged-Consistent l _ ts u c
accepted fl l ip prefix ts _ (on_refusal u) c h = Unchanged-Consistent l _ ts u c
accepted fl l ip prefix ts _ (on_grant {t} {l'} a) c h = rw a.ticket (record {
  ip_counted = joined-Counted fl true l.ip l'.ip ip prefix ts c.ip_counted h a.ip_counts;
  prefix_counted =
      joined-Counted fl false l.prefix l'.prefix ip prefix ts c.prefix_counted h a.prefix_counts;
  ip_table = (a.tables c.ip_table c.prefix_table).0;
  prefix_table = (a.tables c.ip_table c.prefix_table).1;
  few = ground (arith, h);
})

module _ (fl : Float) where
  open fl use {F64}

  pub enter_again :
      (l : Limiter F64) (t : Ticket) → t.status ≡ true → enter_status fl l t ≡ (true, t, l)
  unfolding enter_status
  enter_again l t old = rw old

  pub admitted_again :
      (l : Limiter F64) (t : Ticket) → t.admitted ≡ true → mark_admitted fl l t ≡ (t, l)
  unfolding mark_admitted
  admitted_again l t old = rw old

  entered :
      (l : Limiter F64) (xs : List Ticket) (t : Ticket) (ys : List Ticket)
      → Consistent l (xs ++ t ∷ ys)
      → Consistent (enter_status fl l t).2 (xs ++ (enter_status fl l t).1 ∷ ys)
  unfolding enter_status
  entered l xs t ys c = elim (Bool-cases t.status) [
    | inl old ↦ rw (enter_again l t old) c
    | inr new ↦ elim (Option-cases (lookup l.ip t.ip)) [
      | inl p ↦ rw (new, p) c
      | inr (e, p) ↦ elim (Bool-cases (at_cap l.cfg.status_ip e.status)) [
        | inl full ↦
            rw (new, p, full)
              (record {
                ip_counted = λ k.
                    c.ip_counted k
                    ∙ marks-Counted true xs t ys t.handshake t.status_complete true k;
                prefix_counted = λ k.
                    c.prefix_counted k
                    ∙ marks-Counted false xs t ys t.handshake t.status_complete true k;
                ip_table = c.ip_table;
                prefix_table = c.prefix_table;
                few = replaced_few xs t _ ys c.few;
              })
        | inr room ↦
            rw (new, p, room)
              (record {
                ip_counted = enter-Counted fl l.ip xs t ys e c.ip_counted c.few new p;
                prefix_counted = λ k. c.prefix_counted k ∙ status-Counted xs t ys k;
                ip_table = write-IsTable l.ip t.ip _ c.ip_table;
                prefix_table = c.prefix_table;
                few = replaced_few xs t _ ys c.few;
              })
      ]
    ]
  ]

  marked :
      (l : Limiter F64) (xs : List Ticket) (t : Ticket) (ys : List Ticket)
      → Consistent l (xs ++ t ∷ ys)
      → Consistent (mark_admitted fl l t).1 (xs ++ (mark_admitted fl l t).0 ∷ ys)
  unfolding mark_admitted
  marked l xs t ys c = elim (Bool-cases t.admitted) [
    | inl old ↦ rw (admitted_again l t old) c
    | inr new ↦ rw new (record {
      ip_counted = settle-Counted fl true l.ip xs t ys c.ip_counted c.few new;
      prefix_counted = settle-Counted fl false l.prefix xs t ys c.prefix_counted c.few new;
      ip_table = settle-IsTable fl l.ip t.ip c.ip_table;
      prefix_table = settle-IsTable fl l.prefix t.prefix c.prefix_table;
      few = replaced_few xs t _ ys c.few;
    })
  ]

  dropped :
      (l : Limiter F64) (xs : List Ticket) (t : Ticket) (ys : List Ticket) (now : ℕ)
      → Consistent l (xs ++ t ∷ ys)
      → Consistent (drop_ticket fl l t now) (xs ++ ys)
  unfolding drop_ticket
  dropped l xs t ys now c = record {
    ip_counted =
        release-Counted fl true l.ip l.cfg l.cfg.churn_score_threshold now xs t ys c.ip_counted
          c.few;
    prefix_counted =
        release-Counted fl false l.prefix l.cfg l.cfg.churn_prefix_score_threshold now xs t ys
          c.prefix_counted c.few;
    ip_table = release-IsTable fl l.cfg t true _ now l.ip t.ip c.ip_table;
    prefix_table = release-IsTable fl l.cfg t false _ now l.prefix t.prefix c.prefix_table;
    few = omega (arith, c.few, length-middle xs t ys);
  }

  swept :
      (l : Limiter F64) (ts : List Ticket) (shard now : ℕ)
      → Consistent l ts
      → Consistent (sweep fl l shard now) ts
  unfolding sweep
  swept l ts shard now c = record {
    ip_counted =
        sweep-Counted fl true l.ip l.cfg.idle_entry_seconds now (shard % 64) ts c.ip_table
          c.ip_counted;
    prefix_counted =
        sweep-Counted fl false l.prefix l.cfg.idle_entry_seconds now (shard % 64) ts c.prefix_table
          c.prefix_counted;
    ip_table = sweep_shard-IsTable l.ip _ _ c.ip_table;
    prefix_table = sweep_shard-IsTable l.prefix _ _ c.prefix_table;
    few = c.few;
  }

  -- Every call that the program makes keeps it so that the counters of each key are exactly those of
  -- the live tickets, that keys are unique and that no shard is over its capacity.
  pub Step-Consistent :
      (s s' : System F64)
      → Step fl s s'
      → Consistent s.limiter s.live
      → Consistent s'.limiter s'.live
  Step-Consistent _ _ (on_accept l ts addr p now h) c =
      accepted fl l _ _ ts _ (accept-Outcome fl l addr p now) c h
  Step-Consistent _ _ (on_event l ts t e p now) c =
      Unchanged-Consistent l _ ts (event-Unchanged fl l t e p now) c
  Step-Consistent _ _ (on_sweep l ts shard now) c = swept l ts shard now c
  Step-Consistent _ _ (on_enter l xs t ys) c = entered l xs t ys c
  Step-Consistent _ _ (on_admitted l xs t ys) c = marked l xs t ys c
  Step-Consistent _ _ (on_marks l xs t ys a b d) c = record {
    ip_counted = λ k. c.ip_counted k ∙ marks-Counted true xs t ys a b d k;
    prefix_counted = λ k. c.prefix_counted k ∙ marks-Counted false xs t ys a b d k;
    ip_table = c.ip_table;
    prefix_table = c.prefix_table;
    few = replaced_few xs t _ ys c.few;
  }
  Step-Consistent _ _ (on_drop l xs t ys now) c = dropped l xs t ys now c

  pub new_limiter-Consistent :
      (cfg : Limits F64) (hash_ip hash_prefix : IpAddr → ℕ) (m : Metrics) (now : ℕ)
      → Consistent (new_limiter fl cfg hash_ip hash_prefix m now) []
  unfolding new_limiter Table.new view held lookup
  new_limiter-Consistent cfg hash_ip hash_prefix m now = record {
    ip_counted = λ k. refl;
    prefix_counted = λ k. refl;
    ip_table = record { unique = λ i. tt; within = λ i. ground arith };
    prefix_table = record { unique = λ i. tt; within = λ i. ground arith };
    few = ground arith;
  }

  -- In every state that a new limiter comes to, the counters of each key, in both tables, are exactly
  -- the numbers of the live tickets that have it, of those not admitted, and (for an address) of
  -- those that ask for a status; no key is twice in a table, and no shard is over its capacity.
  pub reached-Consistent :
      (cfg : Limits F64) (hash_ip hash_prefix : IpAddr → ℕ) (m : Metrics) (now : ℕ) (s : System F64)
      → Reach fl cfg hash_ip hash_prefix m now s
      → Consistent s.limiter s.live
  reached-Consistent cfg hash_ip hash_prefix m now _ starts =
      new_limiter-Consistent cfg hash_ip hash_prefix m now
  reached-Consistent cfg hash_ip hash_prefix m now s' (steps s _ r st) =
      Step-Consistent s s' st (reached-Consistent cfg hash_ip hash_prefix m now s r)
