-- ===== src/Limiter/System/Moves.antt =====
-- gate/src/limiter.rs: each operation on a table keeps it equal to what the live tickets hold.
use xddp.Prelude.{
  ℕ, ◌+◌, ◌^◌, ◌<◌, ◌≡◌, refl, sym, ◌∙◌, some, Bool, true, false, if◌then◌else◌, List, ◌∷◌, ◌++◌,
  length, length-append, arith,
}
use xddp.Prelude.Float.{Float}
use xddp.Config.Limits.{Limits}
use xddp.Limiter.Address.{IpAddr, ip_eq, ip_eq_iff}
use xddp.Limiter.Table.{Table, lookup, write, sweep_shard}
use xddp.Limiter.Table.Laws.{IsTable}
use xddp.Limiter.State.{Entry, Ticket, new_ticket, up}
use xddp.Limiter.Tickets.{release, settle, keep}
use xddp.Limiter.Counts.{Counts, no_counts, view, view-write}
use xddp.Limiter.Counts.Accepts.{counted_up}
use xddp.Limiter.Counts.Effects.{released, view-release, settled, view-settle, view-at, view-sweep}
use xddp.Limiter.System.Held.{
  plus, own, at_key, key, held, Small, held-Small, held-middle, released-own, settled-own,
  counted_up-own, entered, entered-own, reassign,
}

-- The table counts what the tickets hold.
abbrev pub Counted : {F : Type 0} → Bool → Table (Entry F) → List Ticket → Type 0
Counted in_ip table ts = (k : IpAddr) → view table k ≡ held in_ip ts k

pub length-middle :
    (xs : List Ticket) (t : Ticket) (ys : List Ticket)
    → length (xs ++ t ∷ ys) ≡ length (xs ++ ys) + 1
length-middle xs t ys = omega (arith, length-append xs (t ∷ ys), length-append xs ys)

-- A live ticket counts at its key.
pub middle-active :
    {F : Type 0} (in_ip : Bool) (table : Table (Entry F)) (xs : List Ticket) (t : Ticket)
    (ys : List Ticket)
    → Counted in_ip table (xs ++ t ∷ ys)
    → 0 < (view table (key in_ip t)).active
middle-active in_ip table xs t ys h =
    let hit : ip_eq (key in_ip t) (key in_ip t) ≡ true =
      (ip_eq_iff (key in_ip t) (key in_ip t)).1 refl in
    rw (h (key in_ip t), held-middle in_ip xs t ys (key in_ip t), hit) (ground arith)

plus_nothing : (i : IpAddr) (k : IpAddr) (c : Counts) → plus (at_key i no_counts k) c ≡ c
plus_nothing i k c = ground arith

nothing_plus : (i : IpAddr) (k : IpAddr) (c : Counts) → c ≡ plus (at_key i no_counts k) c
nothing_plus i k c = ground arith

module _ (fl : Float) (in_ip : Bool) (table : Table (Entry fl.F64)) where
  open fl use {F64}

  pub release-Counted :
      (cfg : Limits F64) (th : F64) (now : ℕ) (xs : List Ticket) (t : Ticket) (ys : List Ticket)
      → Counted in_ip table (xs ++ t ∷ ys)
      → length (xs ++ t ∷ ys) < 2 ^ 64
      → Counted in_ip (release fl cfg t in_ip th now table (key in_ip t)) (xs ++ ys)
  release-Counted cfg th now xs t ys h few k =
      reassign (view table) (view (release fl cfg t in_ip th now table (key in_ip t)))
        (held in_ip (xs ++ ys)) (key in_ip t) (own in_ip t) no_counts (released t in_ip)
        (λ j.
          view-release fl cfg t in_ip th now table (key in_ip t) j
            (middle-active in_ip table xs t ys h))
        (λ j. h j ∙ held-middle in_ip xs t ys j)
        (released-own in_ip t (held in_ip (xs ++ ys) (key in_ip t)) (length (xs ++ ys))
          (held-Small in_ip (xs ++ ys) (key in_ip t)) (omega (arith, few, length-middle xs t ys)))
        k
      ∙ plus_nothing (key in_ip t) k _

  pub settle-Counted :
      (xs : List Ticket) (t : Ticket) (ys : List Ticket)
      → Counted in_ip table (xs ++ t ∷ ys)
      → length (xs ++ t ∷ ys) < 2 ^ 64
      → t.admitted ≡ false
      → Counted in_ip (settle fl table (key in_ip t)) (xs ++ (record t { admitted = true }) ∷ ys)
  settle-Counted xs t ys h few new k =
      reassign (view table) (view (settle fl table (key in_ip t))) (held in_ip (xs ++ ys))
        (key in_ip t) (own in_ip t) (own in_ip (record t { admitted = true })) settled
        (λ j. view-settle fl table (key in_ip t) j (middle-active in_ip table xs t ys h))
        (λ j. h j ∙ held-middle in_ip xs t ys j)
        (settled-own in_ip t (held in_ip (xs ++ ys) (key in_ip t)) (length (xs ++ ys))
          (held-Small in_ip (xs ++ ys) (key in_ip t)) (omega (arith, few, length-middle xs t ys))
          new)
        k
      ∙ sym (held-middle in_ip xs (record t { admitted = true }) ys k)

  pub joined-Counted :
      (table' : Table (Entry F64)) (i p : IpAddr) (ts : List Ticket)
      → Counted in_ip table ts
      → length ts + 1 < 2 ^ 64
      → ((k : IpAddr)
          → view table' k ≡ (
              if ip_eq (key in_ip (new_ticket i p)) k
              then counted_up (view table (key in_ip (new_ticket i p)))
              else view table k))
      → Counted in_ip table' (new_ticket i p ∷ ts)
  unfolding held
  joined-Counted table' i p ts h few after k =
      let at : IpAddr = key in_ip (new_ticket i p) in
      reassign (view table) (view table') (held in_ip ts) at no_counts (own in_ip (new_ticket i p))
        counted_up after (λ j. h j ∙ nothing_plus at j _)
        (counted_up-own in_ip i p (held in_ip ts at) (length ts) (held-Small in_ip ts at) few) k

  pub sweep-Counted :
      (idle now i : ℕ) (ts : List Ticket)
      → IsTable table
      → Counted in_ip table ts
      → Counted in_ip (sweep_shard table (keep fl idle now) i) ts
  sweep-Counted idle now i ts w h k =
      view-sweep fl table idle now i k w (λ z. idle_key (held-Small in_ip ts k) z) ∙ h k
    where
      idle_key :
          Small (length ts) (held in_ip ts k) → (view table k).active ≡ 0 → view table k ≡ no_counts
      idle_key s z = rw (h k) (ground (arith, s.pending_le, s.status_le, rw (h k) at z))

module _ (fl : Float) (table : Table (Entry fl.F64)) where
  open fl use {F64}

  pub enter-Counted :
      (xs : List Ticket) (t : Ticket) (ys : List Ticket) (e : Entry F64)
      → Counted true table (xs ++ t ∷ ys)
      → length (xs ++ t ∷ ys) < 2 ^ 64
      → t.status ≡ false
      → lookup table t.ip ≡ some e
      → Counted true
          (write table t.ip (record e { status = up e.status }))
          (xs ++ (record t { status = true }) ∷ ys)
  enter-Counted xs t ys e h few new p k =
      reassign (view table) (view (write table t.ip (record e { status = up e.status })))
        (held true (xs ++ ys)) t.ip (own true t) (own true (record t { status = true })) entered
        (λ j.
          rw (view-at table t.ip e p)
            (view-write table t.ip j (record e { status = up e.status }) e p))
        (λ j. h j ∙ held-middle true xs t ys j)
        (entered-own t (held true (xs ++ ys) t.ip) (length (xs ++ ys))
          (held-Small true (xs ++ ys) t.ip) (omega (arith, few, length-middle xs t ys)) new)
        k
      ∙ sym (held-middle true xs (record t { status = true }) ys k)
