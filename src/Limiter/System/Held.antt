-- ===== src/Limiter/System/Held.antt =====
-- gate/src/limiter.rs: what the live tickets hold at a key, as counters.
use xddp.Prelude.{
  ℕ, ◌+◌, ◌^◌, ◌≤◌, ◌<◌, ◌≡◌, refl, ap, ◌∙◌, Bool, true, false, ◌&&◌, inl, inr, Bool-cases,
  if◌then◌else◌, List, [], ◌∷◌, ◌++◌, length, arith,
}
use xddp.Limiter.Address.{IpAddr, ip_eq, ip_eq_iff}
use xddp.Limiter.State.{Ticket, up, new_ticket}
use xddp.Limiter.Counts.{Counts, no_counts}
use xddp.Limiter.Counts.Accepts.{counted_up}
use xddp.Limiter.Counts.Effects.{released, settled}

abbrev pub plus : Counts → Counts → Counts
plus c d = record {
  active = c.active + d.active;
  pending = c.pending + d.pending;
  status = c.status + d.status;
}

-- What one ticket counts, in the table of addresses if `in_ip`, and at which key.
abbrev pub own : Bool → Ticket → Counts
own in_ip t = record {
  active = 1;
  pending = if t.admitted then 0 else 1;
  status = if t.status && in_ip then 1 else 0;
}

abbrev pub at_key : IpAddr → Counts → IpAddr → Counts
at_key i c k = if ip_eq i k then c else no_counts

abbrev pub key : Bool → Ticket → IpAddr
key in_ip t = if in_ip then t.ip else t.prefix

unfoldable pub held : Bool → List Ticket → IpAddr → Counts
held in_ip [] k = no_counts
held in_ip (t ∷ ts) k = plus (at_key (key in_ip t) (own in_ip t) k) (held in_ip ts k)

-- A count of connections among tickets stays below their number.
pub record Small (n : ℕ) (c : Counts) : Type 0 where
  pub active_le : c.active ≤ n
  pub pending_le : c.pending ≤ c.active
  pub status_le : c.status ≤ c.active

pub held-Small :
    (in_ip : Bool) (ts : List Ticket) (k : IpAddr) → Small (length ts) (held in_ip ts k)
unfolding held
held-Small in_ip [] k = record {
  active_le = ground arith;
  pending_le = ground arith;
  status_le = ground arith;
}
held-Small in_ip (t ∷ ts) k =
    let s = held-Small in_ip ts k in
    record {
      active_le = ground (arith, s.active_le);
      pending_le = ground (arith, s.pending_le);
      status_le = ground (arith, s.status_le);
    }

-- The ticket may stand anywhere.
pub held-middle :
    (in_ip : Bool) (xs : List Ticket) (t : Ticket) (ys : List Ticket) (k : IpAddr)
    → held in_ip (xs ++ t ∷ ys) k
      ≡ plus (at_key (key in_ip t) (own in_ip t) k) (held in_ip (xs ++ ys) k)
unfolding held
held-middle in_ip [] t ys k = refl
held-middle in_ip (x ∷ xs) t ys k = rw (held-middle in_ip xs t ys k) (ground arith)

pub released-own :
    (in_ip : Bool) (t : Ticket) (c : Counts) (n : ℕ)
    → Small n c
    → n + 1 < 2 ^ 64
    → released t in_ip (plus (own in_ip t) c) ≡ plus no_counts c
released-own in_ip t c n s h = ground (arith, s.active_le, s.pending_le, s.status_le)

pub settled-own :
    (in_ip : Bool) (t : Ticket) (c : Counts) (n : ℕ)
    → Small n c
    → n + 1 < 2 ^ 64
    → t.admitted ≡ false
    → settled (plus (own in_ip t) c) ≡ plus (own in_ip (record t { admitted = true })) c
settled-own in_ip t c n s h a = ground (arith, s.active_le, s.pending_le, s.status_le, a)

pub counted_up-own :
    (in_ip : Bool) (i p : IpAddr) (c : Counts) (n : ℕ)
    → Small n c
    → n + 1 < 2 ^ 64
    → counted_up (plus no_counts c) ≡ plus (own in_ip (new_ticket i p)) c
counted_up-own in_ip i p c n s h = ground (arith, s.active_le, s.pending_le, s.status_le)

abbrev pub entered : Counts → Counts
entered c = record c { status = up c.status }

pub entered-own :
    (t : Ticket) (c : Counts) (n : ℕ)
    → Small n c
    → n + 1 < 2 ^ 64
    → t.status ≡ false
    → entered (plus (own true t) c) ≡ plus (own true (record t { status = true })) c
entered-own t c n s h a = ground (arith, s.active_le, s.pending_le, s.status_le, a)

-- An operation at one key, on counters that are those of one ticket and of the rest.
pub reassign :
    (view view' rest : IpAddr → Counts) (i : IpAddr) (mine mine' : Counts) (op : Counts → Counts)
    → ((k : IpAddr) → view' k ≡ (if ip_eq i k then op (view i) else view k))
    → ((k : IpAddr) → view k ≡ plus (at_key i mine k) (rest k))
    → op (plus mine (rest i)) ≡ plus mine' (rest i)
    → (k : IpAddr) → view' k ≡ plus (at_key i mine' k) (rest k)
reassign view view' rest i mine mine' op after before done k = elim (Bool-cases (ip_eq i k)) [
  | inl hit ↦
      let same : i ≡ k = (ip_eq_iff i k).0 hit in
      let self : ip_eq i i ≡ true = (ip_eq_iff i i).1 refl in
      let whole : view i ≡ plus mine (rest i) = before i ∙ rw self in
      let moved : op (view i) ≡ plus mine' (rest i) = ap op whole ∙ done in
      after k ∙ rw hit (moved ∙ rw same)
  | inr miss ↦ after k ∙ rw miss (before k ∙ rw miss)
]
