-- ===== src/Limiter/Counts.antt =====
-- gate/src/limiter.rs: what the operations do to the counters of the entries.
pub mod Accepts
pub mod Effects
pub mod Verdicts
use xddp.Prelude.{
  ℕ, ◌+◌, ◌≡◌, refl, ap, ◌∙◌, Option, none, some, Bool, true, false, not, ◌&&◌, inl, inr,
  Bool-cases, Option-cases, if◌then◌else◌, arith,
}
use xddp.Prelude.Float.{Float}
use xddp.Config.Limits.{Rates, Limits}
use xddp.Limiter.Address.{IpAddr, ip_eq, ip_eq_iff}
use xddp.Limiter.Table.{Table, lookup, insert, write}
use xddp.Limiter.Table.Laws.{lookup-insert, lookup-write, write-none, IsTable, write-IsTable}
use xddp.Limiter.Bucket.{Event}
use xddp.Limiter.State.{Entry, Limiter, new_entry, entry_or_new, pay, up}

pub record Counts : Type 0 where
  pub active : ℕ
  pub pending : ℕ
  pub status : ℕ

abbrev pub no_counts : Counts
no_counts = record { active = 0; pending = 0; status = 0 }

abbrev pub counts : {F : Type 0} → Entry F → Counts
counts e = record { active = e.active; pending = e.pending; status = e.status }

abbrev pub counts_in : {F : Type 0} → Option (Entry F) → Counts
counts_in none = no_counts
counts_in (some e) = counts e

-- The counters of a key: of an address that has no entry they are 0.
unfoldable pub view : {F : Type 0} → Table (Entry F) → IpAddr → Counts
view t k = counts_in (lookup t k)

module _ {F : Type 0} where
  pub view-insert :
      (t : Table (Entry F)) (k j : IpAddr) (e : Entry F)
      → view (insert t k e) j ≡ (if ip_eq k j then counts e else view t j)
  unfolding view
  view-insert t k j e = ground (arith, lookup-insert t k j e)

  pub view-write :
      (t : Table (Entry F)) (k j : IpAddr) (e c : Entry F)
      → lookup t k ≡ some c
      → view (write t k e) j ≡ (if ip_eq k j then counts e else view t j)
  unfolding view
  view-write t k j e c h = ground (arith, lookup-write t k j e c h)

  -- A write that keeps the counters of its key keeps all of them.
  pub view-write_same :
      (t : Table (Entry F)) (k j : IpAddr) (e : Entry F)
      → counts e ≡ view t k
      → view (write t k e) j ≡ view t j
  view-write_same t k j e h = elim (Option-cases (lookup t k)) [
    | inl p ↦ ap (λ (s : Table (Entry F)). view s j) (write-none t k e p)
    | inr (c, p) ↦ view-write t k j e c p ∙ (elim (Bool-cases (ip_eq k j)) [
      | inl hit ↦ rw hit (h ∙ ap (view t) ((ip_eq_iff k j).0 hit))
      | inr miss ↦ rw miss
    ])
  ]

-- Nothing that is counted has changed, and the tables are still tables.
pub record Unchanged {F : Type 0} (l l' : Limiter F) : Type 0 where
  pub ip_same : (k : IpAddr) → view l'.ip k ≡ view l.ip k
  pub prefix_same : (k : IpAddr) → view l'.prefix k ≡ view l.prefix k
  pub cfg_same : l'.cfg ≡ l.cfg
  pub tables : IsTable l.ip → IsTable l.prefix → IsTable l'.ip × IsTable l'.prefix

module _ (fl : Float) where
  open fl use {F64}

  pub counts-entry_or_new :
      (t : Table (Entry F64)) (k : IpAddr) (r : Rates F64) (now : ℕ)
      → counts (entry_or_new fl t k r now) ≡ view t k
  unfolding view new_entry
  counts-entry_or_new t k r now = elim (Option-cases (lookup t k)) [
    | inl p ↦ rw (p, entry_or_new)
    | inr (c, p) ↦ rw (p, entry_or_new)
  ]

  pub counts-pay : (ev : Event) (b : Bool) (e : Entry F64) → counts (pay fl ev b e) ≡ counts e
  counts-pay ev true e = refl
  counts-pay ev false e = refl
